-- ===== src/Economy/Service/Effects.antt =====
-- What the parts of an operation have written when they answer.
use mortar.Prelude.{
  ℕ, suc, ◌+◌, ◌-◌, ◌≤◌, ◌<◌, ◌≡◌, refl, Bool, true, false, Option, none, some, List, [], ◌∷◌,
  arith, Distinct, ⊤,
}
use mathlib.Core.Option
use mortar.Prelude.Int.{ℤ, pos, negsuc, ◌-ℤ◌}
use mortar.Prelude.Number.{safe_positive}
use mortar.Economy.Check.{Field, check_request, is_uuid}
use mortar.Economy.Kinds.{CreditKind, DebitKind, EntryKind}
use mortar.Economy.Allocate.{Draw}
use mortar.Economy.Store.{
  put_balance, add_balance, view, insert_lot, set_balance, entry_view_of, lock,
}
use mortar.Economy.Tables.{
  Entry, EntryView, Tables, ok, M, Error, validation, not_found, require, check,
}
use mortar.Economy.Store.Draws.{Ready, Undrawn, draw_lem, draw_rows, take_all}
use mortar.Economy.Store.Rows.{entry_id, held, balance_at-add}
use mortar.Economy.Service.{lot_row, credit_new, debit_new, debit_rest}
use mortar.Economy.Requests.{
  Env, Words, entry_of, insert, Expected, written_as, MovementRequest, RefundRequest,
  check_movement, check_refund, passed, asked, asked,
}

module _ (env : Env) (h : ℕ) (c amt : ℕ) (words : Words) where
  abbrev pub inserted : EntryKind → ℕ → Option ℕ → Tables → Tables
  inserted kind n refund_of t = record t {
    entries = entry_of env h kind c amt words n refund_of t.next_seq ∷ t.entries;
    next_seq = suc t.next_seq;
  }

  pub insert_effect :
      (kind : EntryKind) (after : ℤ) (refund_of : Option ℕ) (t t' : Tables) (v : EntryView)
      → insert env h kind c amt words after refund_of t ≡ ok (v, t')
      → (n : ℕ) × (after ≡ pos n)
        × (0 < amt)
        × (v ≡ view (entry_of env h kind c amt words n refund_of t.next_seq))
        × (t' ≡ inserted kind n refund_of t)
  unfolding insert
  insert_effect kind (pos n) refund_of t t' v e =
      (n, refl, ground arith, ground arith, ground arith)
  insert_effect kind (negsuc n) refund_of t t' v e = cc

  abbrev pub credited : CreditKind → ℕ → Tables → Tables
  credited kind balance t =
      let e = entry_of env h (EntryKind.credit kind) c amt words (balance + amt) none t.next_seq in
      record t {
        entries = e ∷ t.entries;
        lots = lot_row kind (view e) ∷ t.lots;
        balances = put_balance h c (balance + amt) t.balances;
        next_seq = suc t.next_seq;
      }

  pub credit_new_effect :
      (kind : CreditKind) (balance : ℕ) (t t' : Tables) (v : EntryView)
      → credit_new env h kind c amt words balance t ≡ ok (v, t')
      → (0 < amt)
        × (t' ≡ credited kind balance t)
        × (v
            ≡ view (
                entry_of env h (EntryKind.credit kind) c amt words (balance + amt) none t.next_seq))
  unfolding credit_new insert insert_lot set_balance
  credit_new_effect kind balance t t' v e = (ground arith, ground arith, ground arith)

  abbrev pub debited : DebitKind → ℕ → Option ℕ → List Draw → Tables → Tables
  debited kind n refund_of ds t =
      let e = entry_of env h (EntryKind.debit kind) c amt words n refund_of t.next_seq in
      record t {
        entries = e ∷ t.entries;
        lots = take_all ds t.lots;
        draws = draw_rows e.id ds t.draws;
        balances = put_balance h c n t.balances;
        next_seq = suc t.next_seq;
      }

  -- The draws go through: what a debit has written is known whole.
  pub debit_new_effect :
      (kind : DebitKind) (balance : ℕ) (refund_of : Option ℕ) (ds : List Draw) (t t' : Tables)
      (v : EntryView)
      → Ready h c t.lots ds
      → Distinct entry_id t.lots
      → Undrawn (env.uuid t.next_seq) t.draws ds
      → debit_new env h kind c amt words balance refund_of ds t ≡ ok (v, t')
      → (0 < amt)
        × (amt ≤ balance)
        × (t' ≡ debited kind (balance - amt) refund_of ds t)
        × (v
            ≡ view (
                entry_of env h
                  (EntryKind.debit kind)
                  c
                  amt
                  words
                  (balance - amt)
                  refund_of
                  t.next_seq))
  unfolding debit_new debit_rest insert set_balance ◌-ℤ◌
  debit_new_effect kind balance refund_of ds t t' v r d u e =
      let through =
        draw_lem h c (env.uuid t.next_seq) ds
          (inserted (EntryKind.debit kind) (balance - amt) refund_of t) d r u in
      (
        ground (arith, through),
        ground (arith, through),
        ground (arith, through),
        ground (arith, through),
      )

-- The lock answers with the cached balance and writes at most a row of nothing.
pub lock_effect :
    (h c : ℕ) (t t' : Tables) (b : ℕ)
    → lock h c t ≡ ok (b, t')
    → (b ≡ held h c t.balances) × (t' ≡ record t { balances = add_balance h c t.balances })
unfolding lock
lock_effect h c t t' b e =
    (ground (arith, balance_at-add h c t.balances), ground (arith, balance_at-add h c t.balances))

pub entry_view_effect :
    (e : Entry) (t t' : Tables) (v : EntryView)
    → entry_view_of e t ≡ ok (v, t')
    → (t' ≡ t) × (v ≡ view e)
unfolding entry_view_of
entry_view_effect e t t' v h = (ground arith, ground arith)

-- An earlier entry answers only for what it was written for.
pub written_effect :
    (key : ℕ) (x : Expected) (o : Option Entry) (t t' : Tables) (r : Option EntryView)
    → written_as key x o t ≡ ok (r, t')
    → (t' ≡ t) × (r ≡ Option.map view o)
unfolding written_as
written_effect key x none t t' r h = (ground arith, ground arith)
written_effect key x (some e) t t' r h = (ground arith, ground arith)

passed_same :
    {A : Type 0} (fs : List Field) (m : M A) (t : Tables) {r : A × Tables}
    → passed fs m t ≡ ok r
    → m t ≡ ok r
passed_same [] m t e = e
passed_same (f ∷ fs) m t e = cc

pub require_effect :
    {A : Type 0} (o : Option A) (x : Error) (t t' : Tables) (a : A)
    → require o x t ≡ ok (a, t')
    → (t' ≡ t) × (o ≡ some a)
require_effect none x t t' a e = cc
require_effect (some b) x t t' a e = (ground arith, ground arith)

pub check_effect :
    (b : Bool) (x : Error) (t t' : Tables) (u : ⊤)
    → check b x t ≡ ok (u, t')
    → (t' ≡ t) × (b ≡ true)
check_effect true x t t' u e = (ground arith, refl)
check_effect false x t t' u e = cc

-- A request that passes has a whole, positive, safe amount, and changes nothing.
pub check_movement_effect :
    (env : Env) (h : ℕ) (r : MovementRequest) (t t' : Tables) (n : ℕ)
    → check_movement env h r t ≡ ok (n, t')
    → (t' ≡ t) × (safe_positive r.amount ≡ some n)
unfolding check_movement
check_movement_effect env h r t t' n e =
    require_effect (safe_positive r.amount) (validation []) t t' n (
      passed_same (check_request (asked env h (some r.currency) (some r.amount) r.words))
        (require (safe_positive r.amount) (validation [])) t e)

pub check_refund_effect :
    (env : Env) (h : ℕ) (r : RefundRequest) (t t' : Tables) (u : ⊤)
    → check_refund env h r t ≡ ok (u, t')
    → t' ≡ t
unfolding check_refund
check_refund_effect env h r t t' u e =
    let valid = is_uuid (env.text_of r.purchase_id) in
    (check_effect valid (not_found r.purchase_id) t t' u (
      passed_same (check_request (asked env h none none r.words))
        (check valid (not_found r.purchase_id)) t e)).0
