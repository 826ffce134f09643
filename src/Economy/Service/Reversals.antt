-- ===== src/Economy/Service/Reversals.antt =====
-- A reversal, whether it answers or refuses, leaves a sound ledger sound.
use mortar.Prelude.{ℕ, zero, suc, ◌≡◌, sym, ◌∙◌, subst, Option, none, some, [], ◌∷◌, find, arith}
use mortar.Economy.Kinds.{DebitKind}
use mortar.Economy.Store.{balance_at, lot_of, gives_back, keyed, entry_view_of}
use mortar.Economy.Tables.{Entry, LotRow, Tables, ok, to_amount, check, ledger_key_reused}
use mortar.Economy.Store.Monad.{of_bind-ok}
use mortar.Economy.Store.Rows.{held}
use mortar.Economy.Service.{debit_new, read_again, find_bought}
use mortar.Economy.Reverse.{
  Reversal, reverse_again, reverse_new, reverse_left, is_reversal_of, reverse_unkeyed,
  reverse_keyed, reverse_locked, reverse_steps, reverse,
}
use mortar.Economy.Requests.{Env, Words, RefundRequest, check_refund}
use mortar.Economy.Service.Effects.{entry_view_effect, check_refund_effect, check_effect}
use mortar.Economy.Service.Ledger.{IsSound}
use mortar.Economy.Service.Sound.{transaction-keeps}
use mortar.Economy.Service.Kept.{after_lock}
use mortar.Economy.Service.Back.{give_back-IsSound}
use mortar.Economy.Service.Found.{
  to_amount_effect, lot_of-same, read_again_effect, find_bought_effect,
}

module _ (env : Env) (inj : (i j : ℕ) → env.uuid i ≡ env.uuid j → i ≡ j) (h : ℕ) where
  reverse_left-IsSound :
      (id amt n : ℕ) (words : Words) (l : LotRow) (t t' : Tables) (v : Reversal)
      → IsSound env.uuid t
      → balance_at h l.currency t.balances ≡ some (held h l.currency t.balances)
      → lot_of h id t ≡ some l
      → l.remaining ≡ n
      → reverse_left env h amt l words (held h l.currency t.balances) n t ≡ ok (v, t')
      → IsSound env.uuid t'
  unfolding reverse_left
  reverse_left-IsSound id amt zero words l t t' v s there owned same e =
      let ended : t ≡ t' = ground arith in subst (IsSound env.uuid) ended s
  reverse_left-IsSound id amt (suc n) words l t t' v s there owned same e =
      let ((w, t1), taken, rest) =
        of_bind-ok
          (debit_new env h DebitKind.reversal l.currency (suc n) words
            (held h l.currency t.balances) (some l.entry_id)
            (record { lot_id = l.entry_id; amount = suc n } ∷ []))
          _ t e in
      let ended : t1 ≡ t' = ground arith in
      subst (IsSound env.uuid) ended (
        give_back-IsSound env inj h DebitKind.reversal id (suc n) words l t t1 w s there owned same
          taken)

  reverse_new-IsSound :
      (id amt : ℕ) (words : Words) (l : LotRow) (t t' : Tables) (v : Reversal)
      → IsSound env.uuid t
      → balance_at h l.currency t.balances ≡ some (held h l.currency t.balances)
      → lot_of h id t ≡ some l
      → reverse_new env h amt l words (held h l.currency t.balances) t ≡ ok (v, t')
      → IsSound env.uuid t'
  unfolding reverse_new
  reverse_new-IsSound id amt words l t t' v s there owned e =
      let ((n, t1), measured, rest) =
        of_bind-ok (to_amount l.remaining)
          (reverse_left env h amt l words (held h l.currency t.balances)) t e in
      let (same, is_left) = to_amount_effect l.remaining n t t1 measured in
      reverse_left-IsSound id amt n words l t t' v s there owned (sym is_left) (
        subst
          (λ (y : Tables).
            reverse_left env h amt l words (held h l.currency t.balances) n y ≡ ok (v, t'))
          same rest)

  reverse_unkeyed-IsSound :
      (r : RefundRequest) (found : LotRow) (amt : ℕ) (given : Option Entry) (t t' : Tables)
      (v : Reversal)
      → IsSound env.uuid t
      → balance_at h found.currency t.balances ≡ some (held h found.currency t.balances)
      → lot_of h r.purchase_id t ≡ some found
      → reverse_unkeyed env h r amt (held h found.currency t.balances) given t ≡ ok (v, t')
      → IsSound env.uuid t'
  unfolding reverse_unkeyed
  reverse_unkeyed-IsSound r found amt (some g) t t' v s there owned e =
      let ((w, t1), seen, rest) = of_bind-ok (entry_view_of g) _ t e in
      let (same, _) = entry_view_effect g t t1 w seen in
      let ended : t1 ≡ t' = ground arith in subst (IsSound env.uuid) (sym same ∙ ended) s
  reverse_unkeyed-IsSound r found amt none t t' v s there owned e =
      let balance = held h found.currency t.balances in
      let rest = λ (l : LotRow). reverse_new env h amt l r.words balance in
      let ((l, t1), again, then_) = of_bind-ok (read_again h r) rest t e in
      let (same, is_found) = read_again_effect h r found t t1 l owned again in
      reverse_new-IsSound r.purchase_id amt r.words found t t' v s there owned (
        subst (λ (y : Tables). rest found y ≡ ok (v, t')) same
          (subst (λ (x : LotRow). rest x t1 ≡ ok (v, t')) is_found then_))

  reverse_keyed-IsSound :
      (r : RefundRequest) (found : LotRow) (amt : ℕ) (keyed : Option Entry) (t t' : Tables)
      (v : Reversal)
      → IsSound env.uuid t
      → balance_at h found.currency t.balances ≡ some (held h found.currency t.balances)
      → lot_of h r.purchase_id t ≡ some found
      → reverse_keyed env h r found amt (held h found.currency t.balances) keyed t ≡ ok (v, t')
      → IsSound env.uuid t'
  unfolding reverse_keyed reverse_again
  reverse_keyed-IsSound r found amt (some k) t t' v s there owned e =
      let ((w, t1), seen, rest) = of_bind-ok (entry_view_of k) _ t e in
      let (same1, _) = entry_view_effect k t t1 w seen in
      let ((_, t2), checked, then_) =
        of_bind-ok
          (check (is_reversal_of found.entry_id k) (ledger_key_reused r.words.idempotency_key)) _ t1
          rest in
      let (same2, _) = check_effect _ _ t1 t2 tt checked in
      let ended : t2 ≡ t' = ground arith in subst (IsSound env.uuid) (sym (same2 ∙ same1) ∙ ended) s
  reverse_keyed-IsSound r found amt none t t' v s there owned e =
      reverse_unkeyed-IsSound r found amt (find (gives_back found.entry_id) t.entries) t t' v s
        there owned e

  reverse_locked-IsSound :
      (r : RefundRequest) (found : LotRow) (t t' : Tables) (v : Reversal)
      → IsSound env.uuid t
      → lot_of h r.purchase_id t ≡ some found
      → reverse_locked env h r found t ≡ ok (v, t')
      → IsSound env.uuid t'
  unfolding reverse_locked
  reverse_locked-IsSound r found t t' v s owned e =
      let (t1, l, rest) = after_lock h found.currency _ t s e in
      let balance = held h found.currency t1.balances in
      let k = λ (amt : ℕ) (y : Tables).
        reverse_keyed env h r found amt balance (keyed h r.words.idempotency_key y) y in
      let ((amt, t2), measured, then_) = of_bind-ok (to_amount found.amount) k t1 rest in
      let (same, _) = to_amount_effect found.amount amt t1 t2 measured in
      reverse_keyed-IsSound r found amt (keyed h r.words.idempotency_key t1) t1 t' v l.sound l.there
        (lot_of-same h r.purchase_id t1 t l.same_lots ∙ owned)
        (subst (λ (y : Tables). k amt y ≡ ok (v, t')) same then_)

  -- For ids that are never given twice, a reversal, refused or not, leaves a sound ledger sound.
  pub reverse-IsSound :
      (r : RefundRequest) (t : Tables) → IsSound env.uuid t → IsSound env.uuid (reverse env h r t).1
  unfolding reverse reverse_steps
  reverse-IsSound r t s =
      transaction-keeps (IsSound env.uuid) (reverse_steps env h r) t
        (λ v t' e.
          let ((_, t1), checked, rest) = of_bind-ok (check_refund env h r) _ t e in
          let ((found, t2), looked, then_) =
            of_bind-ok (find_bought h r) (reverse_locked env h r) t1 rest in
          let same1 = check_refund_effect env h r t t1 tt checked in
          let (same2, owned) = find_bought_effect h r found t1 t2 looked in
          reverse_locked-IsSound r found t t' v s
            (subst (λ (y : Tables). lot_of h r.purchase_id y ≡ some found) same1 owned)
            (subst (λ (y : Tables). reverse_locked env h r found y ≡ ok (v, t')) (same2 ∙ same1)
              then_))
        s
