-- ===== src/Economy/Service/Ledger.antt =====
-- The invariant of the ledger: the cached balance, the entries and what is left of the lots agree for
-- every holder and currency, and what is needed to keep them so.
use mortar.Prelude.{
  ℕ, suc, ◌+◌, ◌-◌, ◌≤◌, ◌≡◌, ◌≢◌, sym, ◌∙◌, subst, inl, inr, true, false, ◌&&◌, Option, some, List,
  any, arith, ◌==◌, if◌then◌else◌, All, Distinct, sum_by, Bool-cases, ==_iff,
}
use mortar.Economy.Kinds.{CreditKind, DebitKind, EntryKind}
use mortar.Economy.Allocate.{Draw}
use mortar.Economy.Store.{put_balance, add_balance, balance_at, gives_back, some_eq}
use mortar.Economy.Tables.{Entry, Tables}
use mortar.Economy.Store.Draws.{
  Ready, drawn, take_all, left_of-take_all, Distinct-take_all, All-take_all_id, All-take_all_le,
  All-draw_rows, remaining_at, remaining_at-take_all,
}
use mortar.Economy.Store.Rows.{entry_id, held, left_of, held-add, held-put_self, held-put_ne}
use mortar.Economy.Requests.{Env, Words}
use mortar.Economy.Service.Effects.{credited, debited}

abbrev pub credit_part : ℕ → ℕ → Entry → ℕ
credit_part h c e =
    if e.holder == h && e.currency == c
    then (elim (e.kind) [ EntryKind.credit _ ↦ e.amount | EntryKind.debit _ ↦ 0 ])
    else 0

abbrev pub debit_part : ℕ → ℕ → Entry → ℕ
debit_part h c e =
    if e.holder == h && e.currency == c
    then (elim (e.kind) [ EntryKind.credit _ ↦ 0 | EntryKind.debit _ ↦ e.amount ])
    else 0

abbrev pub credited_in : ℕ → ℕ → Tables → ℕ
credited_in h c t = sum_by (credit_part h c) t.entries

abbrev pub debited_in : ℕ → ℕ → Tables → ℕ
debited_in h c t = sum_by (debit_part h c) t.entries

-- Every id that the database has yet to give is unused.
pub record IsFresh (uuid : ℕ → ℕ) (t : Tables) (k : ℕ) : Type 0 where
  pub lots : All (λ l. l.entry_id ≢ uuid k) t.lots
  pub draws : All (λ d. d.entry_id ≢ uuid k) t.draws
  pub refunds : any (gives_back (uuid k)) t.entries ≡ false

-- The three accounts of what a holder has in a currency.
pub record Agrees (t : Tables) (h c : ℕ) : Type 0 where
  pub cached : held h c t.balances ≡ left_of h c t.lots
  pub ledger : held h c t.balances + debited_in h c t ≡ credited_in h c t

pub record IsSound (uuid : ℕ → ℕ) (t : Tables) : Type 0 where
  pub lots_distinct : Distinct entry_id t.lots
  pub lots_le : All (λ l. l.remaining ≤ l.amount) t.lots
  pub fresh : (k : ℕ) → t.next_seq ≤ k → IsFresh uuid t k
  pub given_back : (p : ℕ) → any (gives_back p) t.entries ≡ true → remaining_at p t.lots ≡ 0
  pub agrees : (h c : ℕ) → Agrees t h c

-- The row that `lock` makes changes nothing that is counted.
pub lock-IsSound :
    {uuid : ℕ → ℕ} (h c : ℕ) (t : Tables)
    → IsSound uuid t
    → IsSound uuid (record t { balances = add_balance h c t.balances })
lock-IsSound h c t s = record {
  lots_distinct = s.lots_distinct;
  lots_le = s.lots_le;
  fresh = λ k le. record {
    lots = (s.fresh k le).lots;
    draws = (s.fresh k le).draws;
    refunds = (s.fresh k le).refunds;
  };
  given_back = s.given_back;
  agrees = λ h' c'. record {
    cached = held-add h c h' c' t.balances ∙ (s.agrees h' c').cached;
    ledger = rw (held-add h c h' c' t.balances) (s.agrees h' c').ledger;
  };
}

module _ (env : Env) (inj : (i j : ℕ) → env.uuid i ≡ env.uuid j → i ≡ j) (h c amt : ℕ)
    (words : Words) (t : Tables) (s : IsSound env.uuid t)
    (there : balance_at h c t.balances ≡ some (held h c t.balances)) where
  uuid_ne : (k : ℕ) → suc t.next_seq ≤ k → env.uuid t.next_seq ≢ env.uuid k
  uuid_ne k le e = absurd (omega (arith, inj t.next_seq k e))

  held_after :
      (h' c' n : ℕ)
      → held h' c' (put_balance h c n t.balances)
        ≡ (if h == h' && c == c' then n else held h' c' t.balances)
  held_after h' c' n = elim (Bool-cases (h == h' && c == c')) [
    | inl e ↦ ground (arith, held-put_self h c n (held h c t.balances) t.balances there)
    | inr e ↦ ground (arith, held-put_ne h c n h' c' t.balances e)
  ]

  pub credited-IsSound :
      (kind : CreditKind)
      → IsSound env.uuid (credited env h c amt words kind (held h c t.balances) t)
  credited-IsSound kind = record {
    lots_distinct = ((s.fresh t.next_seq (omega arith)).lots, s.lots_distinct);
    lots_le = (omega arith, s.lots_le);
    fresh = λ k le. record {
      lots = (uuid_ne k le, (s.fresh k (omega arith)).lots);
      draws = (s.fresh k (omega arith)).draws;
      refunds = (s.fresh k (omega arith)).refunds;
    };
    given_back = λ p e. elim (Bool-cases (env.uuid t.next_seq == p)) [
      | inl same ↦
          let q = (==_iff (env.uuid t.next_seq) p).0 same in
          cc (
            (s.fresh t.next_seq (omega arith)).refunds,
            subst (λ x. any (gives_back x) t.entries ≡ true) (sym q) e,
          )
      | inr other ↦ ground (arith, s.given_back p e)
    ];
    agrees = λ h' c'. record {
      cached =
          ground (arith, held_after h' c' (held h c t.balances + amt), (s.agrees h' c').cached);
      ledger =
          ground (arith, held_after h' c' (held h c t.balances + amt), (s.agrees h' c').ledger);
    };
  }

  pub debited-IsSound :
      (kind : DebitKind) (refund_of : Option ℕ) (ds : List Draw)
      → Ready h c t.lots ds
      → sum_by drawn ds ≡ amt
      → amt ≤ held h c t.balances
      → ((p : ℕ) → some_eq refund_of p ≡ true → remaining_at p (take_all ds t.lots) ≡ 0)
      → ((k : ℕ) → t.next_seq ≤ k → some_eq refund_of (env.uuid k) ≡ false)
      → IsSound env.uuid (debited env h c amt words kind (held h c t.balances - amt) refund_of ds t)
  debited-IsSound kind refund_of ds ready sum le emptied known = record {
    lots_distinct = Distinct-take_all ds t.lots s.lots_distinct;
    lots_le = All-take_all_le ds t.lots s.lots_le;
    fresh = λ k le'. record {
      lots = All-take_all_id (env.uuid k) ds t.lots (s.fresh k (omega arith)).lots;
      draws =
          All-draw_rows (λ d. d.entry_id ≢ env.uuid k) (env.uuid t.next_seq) ds t.draws
            (λ d. uuid_ne k le') (s.fresh k (omega arith)).draws;
      refunds = ground (arith, known k (omega arith), (s.fresh k (omega arith)).refunds);
    };
    given_back =
        λ p e. ground (arith, emptied p, s.given_back p, remaining_at-take_all p ds t.lots);
    agrees = λ h' c'. record {
      cached = ground (
        arith,
        held_after h' c' (held h c t.balances - amt),
        (s.agrees h' c').cached,
        left_of-take_all h c h' c' ds t.lots s.lots_distinct ready,
      );
      ledger =
          ground (arith, held_after h' c' (held h c t.balances - amt), (s.agrees h' c').ledger);
    };
  }
