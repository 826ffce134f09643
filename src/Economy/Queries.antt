-- ===== src/Economy/Queries.antt =====
-- The reads of packages/game-economy/src/nestjs/game-economy.service.ts, and `forget`.
pub mod Reconciled
pub mod Forgotten
use mortar.Prelude.{
  ℕ, suc, ◌+◌, ⊤, Bool, true, false, not, ◌&&◌, Option, none, some, List, [], ◌∷◌, map, filter, any,
  take, drop, length, sum_by, ltb, leb, ◌==◌, if◌then◌else◌,
}
use mortar.Prelude.Int.{ℤ, pos, negsuc}
use mortar.Prelude.Number.{max_safe, Doubles}
use mortar.Prelude.Sort.{sort_by}
use mortar.Economy.Kinds.{CreditKind, EntryKind, Movement, balance_of, is_refundable}
use mortar.Economy.Requests.{Env}
use mortar.Economy.Store.{balance_at, entry_view_of}
use mortar.Economy.Tables.{
  Entry, EntryView, LotRow, DrawRow, BalanceRow, Tables, Result, ok, err, M, ◌>>=◌, ◌>>◌, pure,
  to_amount, range_error, unnamed_holder, transaction,
}

-- `balance`: nothing for a holder never credited.
unfoldable pub balance_in : Option ℕ → M ℕ
balance_in none = pure 0
balance_in (some n) = to_amount n

unfoldable pub balance : ℕ → ℕ → M ℕ
unfolding balance_in
balance holder currency t = balance_in (balance_at holder currency t.balances) t

abbrev pub belongs : ℕ → ℕ → Entry → Bool
belongs holder currency e = e.holder == holder && e.currency == currency

abbrev pub lot_belongs : ℕ → ℕ → LotRow → Bool
lot_belongs holder currency l = l.holder == holder && l.currency == currency

views : List Entry → M (List EntryView)
views [] = pure []
views (e ∷ es) = do v ← entry_view_of e; vs ← views es; pure (v ∷ vs)

-- `history`: a page, the newest first, and how many there are in all.
unfoldable pub history : ℕ → ℕ → (limit offset : Option ℕ) → M (List EntryView × ℕ)
unfolding views sort_by
history holder currency limit offset t =
    let mine = filter (belongs holder currency) t.entries in
    let newest = sort_by (λ a b. ltb a.seq b.seq) mine in
    (do
      page ← views (take (or_else 50 limit) (drop (or_else 0 offset) newest))
      pure (page, length mine))
      t
  where
    or_else : ℕ → Option ℕ → ℕ
    or_else d none = d
    or_else d (some n) = n

pub record LotView : Type 0 where
  pub id : ℕ
  pub kind : CreditKind
  pub amount : ℕ
  pub remaining : ℕ
  pub refundable : Bool
  pub seq : ℕ

lot_views : List LotRow → M (List LotView)
lot_views [] = pure []
lot_views (l ∷ ls) = do
  amount ← to_amount l.amount
  remaining ← to_amount l.remaining
  seq ← to_amount l.seq
  rest ← lot_views ls
  pure (
      record {
        id = l.entry_id;
        kind = l.kind;
        amount = amount;
        remaining = remaining;
        refundable = is_refundable l.kind amount remaining;
        seq = seq;
      }
      ∷ rest)

-- `lots`, the newest first.
unfoldable pub lots : ℕ → ℕ → M (List LotView)
unfolding lot_views sort_by
lots holder currency t =
    lot_views (sort_by (λ a b. ltb a.seq b.seq) (filter (lot_belongs holder currency) t.lots)) t

unfoldable pub movements : List Entry → M (List Movement)
movements [] = pure []
movements (e ∷ es) = do
  amount ← to_amount e.amount
  rest ← movements es
  pure (record { kind = e.kind; amount = amount } ∷ rest)

pub record Reconciliation : Type 0 where
  pub balance : ℕ
  pub ledger : ℤ
  pub lots : ℕ
  pub agrees : Bool

abbrev pub eq_ℤ : ℤ → ℕ → Bool
eq_ℤ (pos m) n = m == n
eq_ℤ (negsuc m) n = false

abbrev pub tally : ℕ → ℤ → ℕ → Reconciliation
tally balance ledger lots = record {
  balance = balance;
  ledger = ledger;
  lots = lots;
  agrees = eq_ℤ ledger balance && eq_ℤ ledger lots;
}

abbrev pub left_here : LotRow → ℕ
left_here l = l.remaining

unfoldable pub reconcile : Doubles → ℕ → ℕ → M Reconciliation
unfolding movements balance balance_of
reconcile doubles holder currency t =
    (do
      cached ← balance holder currency
      moved ← movements (filter (belongs holder currency) t.entries)
      left ← to_amount (sum_by left_here (filter (lot_belongs holder currency) t.lots))
      pure (tally cached (balance_of doubles moved) left))
      t

-- Whether a holder wrote an entry at or after a cut-off: `max(occurred_at) >= before`.
abbrev pub wrote_since : ℕ → ℕ → Entry → Bool
wrote_since holder before e = e.holder == holder && leb before e.occurred_at

-- `balances.some(row => toAmount(row.balance) > 0)` over the holder's rows.
unfoldable pub holds_any : ℕ → List BalanceRow → M Bool
holds_any holder [] t = ok (false, t)
holds_any holder (row ∷ rows) t =
    let rest = holds_any holder rows t in
    if row.holder == holder
    then (if leb row.balance max_safe
        then (if ltb 0 row.balance then ok (true, t) else rest)
        else err range_error)
    else rest

abbrev pub is_his_entry : ℕ → Entry → Bool
is_his_entry holder e = e.holder == holder

-- A draw of one of the holder's entries.
abbrev pub is_his_draw : ℕ → List Entry → DrawRow → Bool
is_his_draw holder es d = any (λ e. e.holder == holder && e.id == d.entry_id) es

unfoldable pub forgotten : ℕ → Tables → Tables
forgotten holder t = record t {
  draws = filter (λ d. not (is_his_draw holder t.entries d)) t.draws;
  lots = filter (λ l. not (l.holder == holder)) t.lots;
  entries = filter (λ e. not (is_his_entry holder e)) t.entries;
  balances = filter (λ b. not (b.holder == holder)) t.balances;
}

-- False, and nothing deleted, while the holder holds anything or wrote since the cut-off.
unfoldable pub forget_unless : ℕ → ℕ → Bool → M Bool
unfolding forgotten
forget_unless holder before true t = ok (false, t)
forget_unless holder before false t =
    if any (wrote_since holder before) t.entries
    then ok (false, t)
    else ok (true, forgotten holder t)

unfoldable pub forget_steps : ℕ → ℕ → M Bool
unfolding holds_any forget_unless
forget_steps holder before t =
    (do holding ← holds_any holder t.balances; forget_unless holder before holding) t

unfoldable pub forget : Env → ℕ → ℕ → Tables → Result Bool × Tables
unfolding forget_steps
forget env holder before t =
    if length (env.text_of holder) == 0
    then (err unnamed_holder, t)
    else transaction (forget_steps holder before) t
