-- ===== src/Economy/Service/Sound.antt =====
-- What is written once a balance is locked keeps a sound ledger sound.
use mortar.Prelude.{
  ℕ, ◌≤◌, ◌≡◌, ◌≢◌, refl, true, false, Option, none, some, List, [], ◌∷◌, any, arith, All, sum_by,
}
use mortar.Prelude.Number.{whole}
use mortar.Prelude.Int.{pos}
use mortar.Economy.Kinds.{CreditKind, DebitKind}
use mortar.Economy.Allocate.{Lot, Draw, Allocation, allocated, allocate, draws_for}
use mortar.Economy.Allocate.Amounts.{draws_for-sum}
use mortar.Economy.Store.{same_draw, balance_at, open_lots, opened_lots, some_eq}
use mortar.Economy.Tables.{EntryView, DrawRow, Tables, Result, ok, err, M, transaction}
use mortar.Economy.Store.Monad.{of_bind-ok}
use mortar.Economy.Store.Draws.{Ready, Undrawn, drawn, take_all, remaining_at}
use mortar.Economy.Store.Rows.{held}
use mortar.Economy.Service.{credit_new, draws_of, debit_new, spend_new, spend_from}
use mortar.Economy.Requests.{Env, Words}
use mortar.Economy.Service.Effects.{credit_new_effect, debit_new_effect}
use mortar.Economy.Service.Ledger.{IsSound, credited-IsSound, debited-IsSound}
use mortar.Economy.Service.Writes.{draws_for-Ready}

-- A failed transaction is rolled back, so only the successful ones count.
pub transaction-keeps :
    {A : Type 0} (P : Tables → Type 0) (m : M A) (t : Tables)
    → ((a : A) (t' : Tables) → m t ≡ ok (a, t') → P t')
    → P t
    → P (transaction m t).1
transaction-keeps {A} P m t f p = go (m t) refl
  where
    go :
        (r : Result (A × Tables))
        → m t ≡ r
        → P (elim r as (λ _. Result A × Tables) [ ok s ↦ (ok s.0, s.1) | err e ↦ (err e, t) ]).1
    go (ok s) e = f s.0 s.1 e
    go (err x) e = p

pub Undrawn-of_fresh :
    (id : ℕ) (rows : List DrawRow) (ds : List Draw)
    → All (λ d. d.entry_id ≢ id) rows
    → Undrawn id rows ds
Undrawn-of_fresh id rows [] f = tt
Undrawn-of_fresh id rows (d ∷ ds) f = (unused rows f, Undrawn-of_fresh id rows ds f)
  where
    unused :
        (rs : List DrawRow) → All (λ r. r.entry_id ≢ id) rs → any (same_draw id d.lot_id) rs ≡ false
    unused [] f = refl
    unused (r ∷ rs) (f, fs) = ground (arith, unused rs fs)

open_lots_effect :
    (h c : ℕ) (t t' : Tables) (lots : List Lot)
    → open_lots h c t ≡ ok (lots, t')
    → (lots ≡ opened_lots h c t.lots) × (t' ≡ t)
unfolding open_lots
open_lots_effect h c t t' lots e = (ground arith, ground arith)

-- An allocation that a spend goes on with.
drawn_allocation :
    (h c amt : ℕ) (order : List CreditKind) (t t' : Tables) (ds : List Draw)
    → draws_of
        (held h c t.balances)
        amt
        (allocate (opened_lots h c t.lots) (whole (pos amt)) order)
        t
      ≡ ok (ds, t')
    → (t' ≡ t) × (draws_for (opened_lots h c t.lots) amt order ≡ some ds)
unfolding draws_of allocate draws_for
drawn_allocation h c amt order t t' ds e =
    go (allocate (opened_lots h c t.lots) (whole (pos amt)) order) refl e
  where
    go :
        (a : Allocation)
        → allocate (opened_lots h c t.lots) (whole (pos amt)) order ≡ a
        → draws_of (held h c t.balances) amt a t ≡ ok (ds, t')
        → (t' ≡ t) × (draws_for (opened_lots h c t.lots) amt order ≡ some ds)
    go Allocation.range_error p q = cc
    go (allocated none) p q = cc
    go (allocated (some es)) p q = (ground arith, ground arith)

module _ (env : Env) (inj : (i j : ℕ) → env.uuid i ≡ env.uuid j → i ≡ j) (h : ℕ) where
  module _ (c : ℕ) (amt : ℕ) (words : Words) (t t' : Tables) (v : EntryView)
      (s : IsSound env.uuid t)
      (there : balance_at h c t.balances ≡ some (held h c t.balances)) where
    pub credit_new-IsSound :
        (kind : CreditKind)
        → credit_new env h kind c amt words (held h c t.balances) t ≡ ok (v, t')
        → IsSound env.uuid t'
    credit_new-IsSound kind e =
        let (_, same, _) =
          credit_new_effect env h c amt words kind (held h c t.balances) t t' v e in
        rw same (credited-IsSound env inj h c amt words t s there kind)

    pub debit_new-IsSound :
        (kind : DebitKind) (refund_of : Option ℕ) (ds : List Draw)
        → Ready h c t.lots ds
        → sum_by drawn ds ≡ amt
        → ((p : ℕ) → some_eq refund_of p ≡ true → remaining_at p (take_all ds t.lots) ≡ 0)
        → ((k : ℕ) → t.next_seq ≤ k → some_eq refund_of (env.uuid k) ≡ false)
        → debit_new env h kind c amt words (held h c t.balances) refund_of ds t ≡ ok (v, t')
        → IsSound env.uuid t'
    debit_new-IsSound kind refund_of ds ready sum emptied known e =
        let (_, le, same, _) =
          debit_new_effect env h c amt words kind (held h c t.balances) refund_of ds t t' v ready
            s.lots_distinct
            (Undrawn-of_fresh (env.uuid t.next_seq) t.draws ds
              (s.fresh t.next_seq (omega arith)).draws)
            e in
        rw same (
          debited-IsSound env inj h c amt words t s there kind refund_of ds ready sum le emptied
            known)

    pub spend_new-IsSound :
        spend_new env h c amt words (held h c t.balances) t ≡ ok (v, t') → IsSound env.uuid t'
    unfolding spend_new spend_from
    spend_new-IsSound e =
        let all_of = spend_from env h c amt words (held h c t.balances) in
        let ((lots, t0), opened, goes) = of_bind-ok (open_lots h c) all_of t e in
        let (same_lots, same_t) = open_lots_effect h c t t0 lots opened in
        let ((ds, t1), found, rest) =
          of_bind-ok
            (draws_of (held h c t.balances) amt
              (allocate (opened_lots h c t.lots) (whole (pos amt)) env.order))
            (debit_new env h DebitKind.spend c amt words (held h c t.balances) none) t
            (rw (same_lots, same_t) at goes) in
        let (same, drawn_so) = drawn_allocation h c amt env.order t t1 ds found in
        debit_new-IsSound DebitKind.spend none ds
          (draws_for-Ready h c amt env.order t.lots ds s.lots_distinct drawn_so)
          (draws_for-sum (opened_lots h c t.lots) amt env.order ds drawn_so) (λ p q. cc)
          (λ k le. refl) (rw same at rest)
