-- ===== src/Economy/Service/Back.antt =====
-- A refund, whether it answers or refuses, leaves a sound ledger sound.
use mortar.Prelude.{ℕ, ◌<◌, ◌≡◌, ◌≢◌, refl, sym, ◌∙◌, subst, Option, some, List, [], ◌∷◌, arith}
use mortar.Prelude.Int.{pos, ◌-ℤ◌}
use mortar.Economy.Kinds.{DebitKind, EntryKind, is_refundable}
use mortar.Economy.Allocate.{Draw}
use mortar.Economy.Store.{balance_at, lot_of, find_lot}
use mortar.Economy.Tables.{
  EntryView, LotRow, Tables, ok, M, ◌>>=◌, to_amount, not_refundable, check,
}
use mortar.Economy.Store.Monad.{of_bind-ok}
use mortar.Economy.Store.Rows.{held, find_lot-take_out_self}
use mortar.Economy.Service.{
  debit_new, debit_rest, refund_new, refund_unwritten, refund_locked, refund_steps, refund,
  read_again, find_bought,
}
use mortar.Economy.Requests.{
  Env, Words, RefundRequest, Expected, written, check_refund, insert, or_earlier,
}
use mortar.Economy.Service.Effects.{insert_effect, check_refund_effect, check_effect}
use mortar.Economy.Service.Ledger.{IsSound}
use mortar.Economy.Service.Sound.{transaction-keeps, debit_new-IsSound}
use mortar.Economy.Service.Kept.{after_lock, unless_written}
use mortar.Economy.Service.Found.{
  All-find_lot, find_bought_effect, find_lot-id, lot_of-same, lot_of_effect, read_again_effect,
  to_amount_effect, whole_lot,
}

module _ (env : Env) (inj : (i j : ℕ) → env.uuid i ≡ env.uuid j → i ≡ j) (h : ℕ) where
  debit_new-positive :
      (kind : DebitKind) (c amt balance : ℕ) (words : Words) (refund_of : Option ℕ) (ds : List Draw)
      (t t' : Tables) (v : EntryView)
      → debit_new env h kind c amt words balance refund_of ds t ≡ ok (v, t')
      → 0 < amt
  unfolding debit_new
  debit_new-positive kind c amt balance words refund_of ds t t' v e =
      let after = pos balance -ℤ pos amt in
      let ((w, t1), inserted, _) =
        of_bind-ok (insert env h (EntryKind.debit kind) c amt words after refund_of)
          (debit_rest h c ds) t e in
      (insert_effect env h c amt words (EntryKind.debit kind) after refund_of t t1 w inserted).2

  -- What is left of a lot, taken back whole.
  pub give_back-IsSound :
      (kind : DebitKind) (id amt : ℕ) (words : Words) (l : LotRow) (t t' : Tables) (v : EntryView)
      → IsSound env.uuid t
      → balance_at h l.currency t.balances ≡ some (held h l.currency t.balances)
      → lot_of h id t ≡ some l
      → l.remaining ≡ amt
      → debit_new env h kind l.currency amt words
          (held h l.currency t.balances)
          (some l.entry_id)
          (record { lot_id = l.entry_id; amount = amt } ∷ [])
          t
        ≡ ok (v, t')
      → IsSound env.uuid t'
  give_back-IsSound kind id amt words l t t' v s there owned same e =
      let (found, holder) = lot_of_effect h id t l owned in
      let own : find_lot l.entry_id t.lots ≡ some l =
        subst (λ x. find_lot x t.lots ≡ some l) (sym (find_lot-id id l t.lots found)) found in
      let positive =
        debit_new-positive kind l.currency amt (held h l.currency t.balances) words
          (some l.entry_id) (record { lot_id = l.entry_id; amount = amt } ∷ []) t t' v e in
      debit_new-IsSound env inj h l.currency amt words t t' v s there kind (some l.entry_id)
        (record { lot_id = l.entry_id; amount = amt } ∷ [])
        (
          (tt, tt),
          (
            record {
              lot = l;
              found = own;
              holder = holder;
              currency = refl;
              enough = omega arith;
              some_drawn = positive;
            },
            tt,
          ),
        )
        (omega arith) (λ p q. ground (arith, find_lot-take_out_self l.entry_id amt l t.lots own))
        (λ k le. ground (
          arith,
          All-find_lot (λ m. m.entry_id ≢ env.uuid k) id l t.lots (s.fresh k le).lots found,
        ))
        e

  refund_new-IsSound :
      (id amt : ℕ) (words : Words) (l : LotRow) (t t' : Tables) (v : EntryView)
      → IsSound env.uuid t
      → balance_at h l.currency t.balances ≡ some (held h l.currency t.balances)
      → lot_of h id t ≡ some l
      → refund_new env h amt l words (held h l.currency t.balances) t ≡ ok (v, t')
      → IsSound env.uuid t'
  unfolding refund_new
  refund_new-IsSound id amt words l t t' v s there owned e =
      let taken : M EntryView =
        debit_new env h DebitKind.refund l.currency amt words (held h l.currency t.balances)
          (some l.entry_id) (record { lot_id = l.entry_id; amount = amt } ∷ []) in
      let ((n, t1), measured, rest) = of_bind-ok (to_amount l.remaining) _ t e in
      let (same1, _) = to_amount_effect l.remaining n t t1 measured in
      let ((_, t2), checked, then_) =
        of_bind-ok (check (is_refundable l.kind amt l.remaining) (not_refundable amt l.remaining)) _
          t1 rest in
      let (same2, whole) = check_effect _ _ t1 t2 tt checked in
      give_back-IsSound DebitKind.refund id amt words l t t' v s there owned (whole_lot l amt whole)
        (subst (λ (y : Tables). taken y ≡ ok (v, t')) (same2 ∙ same1) then_)

  refund_unwritten-IsSound :
      (r : RefundRequest) (found : LotRow) (amt : ℕ) (t t' : Tables) (v : EntryView)
      → IsSound env.uuid t
      → balance_at h found.currency t.balances ≡ some (held h found.currency t.balances)
      → lot_of h r.purchase_id t ≡ some found
      → refund_unwritten env h r amt (held h found.currency t.balances) t ≡ ok (v, t')
      → IsSound env.uuid t'
  unfolding refund_unwritten
  refund_unwritten-IsSound r found amt t t' v s there owned e =
      let balance = held h found.currency t.balances in
      let rest = λ (l : LotRow). refund_new env h amt l r.words balance in
      let ((l, t1), again, then_) = of_bind-ok (read_again h r) rest t e in
      let (same, is_found) = read_again_effect h r found t t1 l owned again in
      refund_new-IsSound r.purchase_id amt r.words found t t' v s there owned (
        subst (λ (y : Tables). rest found y ≡ ok (v, t')) same
          (subst (λ (x : LotRow). rest x t1 ≡ ok (v, t')) is_found then_))

  refund_locked-IsSound :
      (r : RefundRequest) (found : LotRow) (t t' : Tables) (v : EntryView)
      → IsSound env.uuid t
      → lot_of h r.purchase_id t ≡ some found
      → refund_locked env h r found t ≡ ok (v, t')
      → IsSound env.uuid t'
  unfolding refund_locked
  refund_locked-IsSound r found t t' v s owned e =
      let (t1, l, rest) = after_lock h found.currency _ t s e in
      let ((amt, t2), measured, then_) = of_bind-ok (to_amount found.amount) _ t1 rest in
      let (same, _) = to_amount_effect found.amount amt t1 t2 measured in
      let balance = held h found.currency t1.balances in
      let expected : Expected = record {
        kind = EntryKind.debit DebitKind.refund;
        currency = found.currency;
        amount = amt;
        refund_of = some found.entry_id;
      } in
      let m : M EntryView = written h r.words.idempotency_key expected >>= λ o.
      or_earlier o (refund_unwritten env h r amt balance) in
      unless_written env inj h r.words.idempotency_key expected
        (refund_unwritten env h r amt balance) t1 t' v l.sound
        (refund_unwritten-IsSound r found amt t1 t' v l.sound l.there
          (lot_of-same h r.purchase_id t1 t l.same_lots ∙ owned))
        (subst (λ (y : Tables). m y ≡ ok (v, t')) same then_)

  -- For ids that are never given twice, a refund, refused or not, leaves a sound ledger sound.
  pub refund-IsSound :
      (r : RefundRequest) (t : Tables) → IsSound env.uuid t → IsSound env.uuid (refund env h r t).1
  unfolding refund refund_steps
  refund-IsSound r t s =
      transaction-keeps (IsSound env.uuid) (refund_steps env h r) t
        (λ v t' e.
          let ((_, t1), checked, rest) = of_bind-ok (check_refund env h r) _ t e in
          let ((found, t2), looked, then_) =
            of_bind-ok (find_bought h r) (refund_locked env h r) t1 rest in
          let same1 = check_refund_effect env h r t t1 tt checked in
          let (same2, owned) = find_bought_effect h r found t1 t2 looked in
          refund_locked-IsSound r found t t' v s
            (subst (λ (y : Tables). lot_of h r.purchase_id y ≡ some found) same1 owned)
            (subst (λ (y : Tables). refund_locked env h r found y ≡ ok (v, t')) (same2 ∙ same1)
              then_))
        s
