-- ===== src/Economy/Service/Spending.antt =====
-- The steps of a spend under the lock, on a sound ledger.
use mortar.Prelude.{
  ℕ, ◌-◌, ◌≤◌, ◌<◌, ◌≡◌, refl, ap, ◌∙◌, true, false, none, some, List, [], ◌∷◌, any, find, arith,
  sum_by,
}
use mortar.Prelude.Number.{Number, whole, other, safe_positive, max_safe}
use mortar.Prelude.Int.{pos, negsuc, ◌-ℤ◌}
use mortar.Economy.Kinds.{DebitKind, EntryKind}
use mortar.Economy.Allocate.{Draw, allocated, allocate, draws_for}
use mortar.Economy.Allocate.Amounts.{left_in, draws_for-none}
use mortar.Economy.Store.{
  lock, add_balance, open_lots, opened_lots, are_safe, has_key, view, set_balance,
}
use mortar.Economy.Tables.{
  Entry, LotRow, Tables, Error, Result, ok, err, M, insufficient_balance, transaction,
}
use mortar.Economy.Store.Monad.{bind-ok}
use mortar.Economy.Store.Draws.{Ready, draw_lem}
use mortar.Economy.Store.Rows.{held, left_of, balance_at-add}
use mortar.Economy.Service.{draws_of, debit_new, debit_rest, spend_new, spend_from}
use mortar.Economy.Requests.{Env, Words, entry_of, insert}
use mortar.Economy.Service.Effects.{debited, inserted}
use mortar.Economy.Service.Ledger.{IsSound}
use mortar.Economy.Service.Sound.{Undrawn-of_fresh}

pub sum-opened_lots :
    (h c : ℕ) (lots : List LotRow) → sum_by left_in (opened_lots h c lots) ≡ left_of h c lots
unfolding opened_lots
sum-opened_lots h c [] = refl
sum-opened_lots h c (l ∷ lots) = ground (arith, sum-opened_lots h c lots)

not_keyed :
    (h k : ℕ) (es : List Entry) → find (has_key h k) es ≡ none → any (has_key h k) es ≡ false
not_keyed h k [] e = refl
not_keyed h k (x ∷ es) e = ground (arith, not_keyed h k es)

module _ (env : Env) (h c amt : ℕ) (words : Words) (t : Tables) (s : IsSound env.uuid t)
    (positive : 0 < amt) (safe : amt ≤ max_safe) where
  pub allocate_lem :
      allocate (opened_lots h c t.lots) (whole (pos amt)) env.order
      ≡ allocated (draws_for (opened_lots h c t.lots) amt env.order)
  unfolding allocate
  allocate_lem = ground arith

  pub spend_new-opened :
      (balance : ℕ)
      → are_safe h c t.lots ≡ true
      → spend_new env h c amt words balance t
        ≡ spend_from env h c amt words balance (opened_lots h c t.lots) t
  unfolding spend_new open_lots
  spend_new-opened balance fit =
      bind-ok (open_lots h c) (spend_from env h c amt words balance) t (rw fit refl)

  pub spend_new_short :
      are_safe h c t.lots ≡ true
      → held h c t.balances < amt
      → spend_new env h c amt words (held h c t.balances) t
        ≡ err (insufficient_balance (held h c t.balances) amt)
  unfolding draws_of spend_from
  spend_new_short fit short =
      let none_drawn =
        (draws_for-none (opened_lots h c t.lots) amt env.order).1
          (omega (arith, sum-opened_lots h c t.lots, (s.agrees h c).cached)) in
      spend_new-opened (held h c t.balances) fit ∙ ground (arith, allocate_lem, none_drawn)

  pub debit_new_lem :
      (ds : List Draw)
      → Ready h c t.lots ds
      → amt ≤ held h c t.balances
      → held h c t.balances ≤ max_safe
      → t.next_seq ≤ max_safe
      → find (has_key h words.idempotency_key) t.entries ≡ none
      → debit_new env h DebitKind.spend c amt words (held h c t.balances) none ds t
        ≡ ok (
          view (
              entry_of env h
                (EntryKind.debit DebitKind.spend)
                c
                amt
                words
                (held h c t.balances - amt)
                none
                t.next_seq),
          debited env h c amt words DebitKind.spend (held h c t.balances - amt) none ds t,
        )
  unfolding debit_new debit_rest insert set_balance ◌-ℤ◌
  debit_new_lem ds ready enough fits seq new = ground (
    arith,
    not_keyed h words.idempotency_key t.entries new,
    draw_lem h c (env.uuid t.next_seq) ds
        (inserted env h c amt words (EntryKind.debit DebitKind.spend) (held h c t.balances - amt)
          none t)
        s.lots_distinct ready
        (Undrawn-of_fresh (env.uuid t.next_seq) t.draws ds
          (s.fresh t.next_seq (omega arith)).draws),
  )

pub transaction-answers :
    {A : Type 0} (m : M A) (t t' : Tables) (a : A) → m t ≡ ok (a, t') → transaction m t ≡ (ok a, t')
transaction-answers {A} m t t' a e =
    ap (λ r. elim r as (λ _. Result A × Tables) [ ok s ↦ (ok s.0, s.1) | err x ↦ (err x, t) ]) e

pub transaction-refuses :
    {A : Type 0} (m : M A) (t : Tables) (x : Error) → m t ≡ err x → transaction m t ≡ (err x, t)
transaction-refuses {A} m t x e =
    ap (λ r. elim r as (λ _. Result A × Tables) [ ok s ↦ (ok s.0, s.1) | err y ↦ (err y, t) ]) e

-- The tables once the balance row is there.
abbrev pub locked : ℕ → ℕ → Tables → Tables
locked h c t = record t { balances = add_balance h c t.balances }

pub lock-answers :
    (h c : ℕ) (t : Tables)
    → held h c t.balances ≤ max_safe
    → lock h c t ≡ ok (held h c t.balances, locked h c t)
unfolding lock
lock-answers h c t fits = ground (arith, balance_at-add h c t.balances)

pub safe_positive_bounds :
    (n : Number) (m : ℕ) → safe_positive n ≡ some m → (0 < m) × (m ≤ max_safe)
safe_positive_bounds other m e = cc
safe_positive_bounds (whole (pos n)) m e = (ground arith, ground arith)
safe_positive_bounds (whole (negsuc n)) m e = cc
