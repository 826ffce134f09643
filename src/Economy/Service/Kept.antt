-- ===== src/Economy/Service/Kept.antt =====
-- Every operation, whether it answers or refuses, leaves a sound ledger sound.
use mortar.Prelude.{ℕ, ◌≡◌, refl, sym, ap, ◌∙◌, subst, Option, none, some, arith}
use mortar.Economy.Kinds.{CreditKind}
use mortar.Economy.Store.{lock, add_balance, balance_at, keyed}
use mortar.Economy.Tables.{EntryView, Tables, ok, M, ◌>>=◌}
use mortar.Economy.Store.Monad.{of_bind-ok}
use mortar.Economy.Store.Rows.{held, held-add, balance_at-add}
use mortar.Economy.Service.{credit_locked, credit_steps, spend_steps, credit, spend_locked, spend}
use mortar.Economy.Requests.{
  Env, Words, MovementRequest, Expected, written, or_earlier, check_movement,
}
use mortar.Economy.Service.Effects.{lock_effect, written_effect, check_movement_effect}
use mortar.Economy.Service.Ledger.{IsSound, lock-IsSound}
use mortar.Economy.Service.Sound.{transaction-keeps, credit_new-IsSound, spend_new-IsSound}

-- What holds once the lock is taken.
pub record Locked (uuid : ℕ → ℕ) (h c : ℕ) (t t1 : Tables) : Type 0 where
  pub sound : IsSound uuid t1
  pub there : balance_at h c t1.balances ≡ some (held h c t1.balances)
  pub same_lots : t1.lots ≡ t.lots
  pub same_entries : t1.entries ≡ t.entries
  pub same_seq : t1.next_seq ≡ t.next_seq

pub after_lock :
    {A : Type 0} {uuid : ℕ → ℕ} (h c : ℕ) (k : ℕ → M A) (t : Tables) {r : A × Tables}
    → IsSound uuid t
    → (lock h c >>= k) t ≡ ok r
    → (t1 : Tables) × Locked uuid h c t t1 × (k (held h c t1.balances) t1 ≡ ok r)
after_lock h c k t {r} s e =
    let ((b, t1), locked, rest) = of_bind-ok (lock h c) k t e in
    let (balance, same) = lock_effect h c t t1 b locked in
    let t2 = record t { balances = add_balance h c t.balances } in
    let kept : held h c t2.balances ≡ held h c t.balances = held-add h c h c t.balances in
    (
      t2,
      record {
        sound = lock-IsSound h c t s;
        there = balance_at-add h c t.balances ∙ ap some (sym kept);
        same_lots = refl;
        same_entries = refl;
        same_seq = refl;
      },
      subst (λ (x : Tables). k (held h c t2.balances) x ≡ ok r) same
          (subst (λ (n : ℕ). k n t1 ≡ ok r) (balance ∙ sym kept) rest),
    )

module _ (env : Env) (inj : (i j : ℕ) → env.uuid i ≡ env.uuid j → i ≡ j) (h : ℕ) where
  or_earlier-IsSound :
      (o : Option EntryView) (rest : M EntryView) (t t' : Tables) (v : EntryView)
      → IsSound env.uuid t
      → (rest t ≡ ok (v, t') → IsSound env.uuid t')
      → or_earlier o rest t ≡ ok (v, t')
      → IsSound env.uuid t'
  or_earlier-IsSound none rest t t' v s f e = f e
  or_earlier-IsSound (some w) rest t t' v s f e =
      let same : t ≡ t' = ground arith in subst (IsSound env.uuid) same s

  -- The key is looked up, and what is new is written only if it was not used.
  pub unless_written :
      (key : ℕ) (x : Expected) (rest : M EntryView) (t t' : Tables) (v : EntryView)
      → IsSound env.uuid t
      → (rest t ≡ ok (v, t') → IsSound env.uuid t')
      → (written h key x >>= λ o. or_earlier o rest) t ≡ ok (v, t')
      → IsSound env.uuid t'
  unfolding written
  unless_written key x rest t t' v s f e =
      let ((o, t1), found, then_) = of_bind-ok (written h key x) (λ o. or_earlier o rest) t e in
      let (same, _) = written_effect key x (keyed h key t) t t1 o found in
      or_earlier-IsSound o rest t t' v s f
        (subst (λ (y : Tables). or_earlier o rest y ≡ ok (v, t')) same then_)

  pub credit_locked-IsSound :
      (kind : CreditKind) (c amt : ℕ) (words : Words) (t t' : Tables) (v : EntryView)
      → IsSound env.uuid t
      → credit_locked env h kind c amt words t ≡ ok (v, t')
      → IsSound env.uuid t'
  unfolding credit_locked
  credit_locked-IsSound kind c amt words t t' v s e =
      let (t1, l, rest) = after_lock h c _ t s e in
      unless_written words.idempotency_key _ _ t1 t' v l.sound
        (credit_new-IsSound env inj h c amt words t1 t' v l.sound l.there kind) rest

  spend_locked-IsSound :
      (c amt : ℕ) (words : Words) (t t' : Tables) (v : EntryView)
      → IsSound env.uuid t
      → spend_locked env h c amt words t ≡ ok (v, t')
      → IsSound env.uuid t'
  unfolding spend_locked
  spend_locked-IsSound c amt words t t' v s e =
      let (t1, l, rest) = after_lock h c _ t s e in
      unless_written words.idempotency_key _ _ t1 t' v l.sound
        (spend_new-IsSound env inj h c amt words t1 t' v l.sound l.there) rest

module _ (env : Env) (inj : (i j : ℕ) → env.uuid i ≡ env.uuid j → i ≡ j) (h : ℕ) where
  -- For ids that are never given twice, a credit, refused or not, leaves a sound ledger sound.
  pub credit-IsSound :
      (kind : CreditKind) (r : MovementRequest) (t : Tables)
      → IsSound env.uuid t
      → IsSound env.uuid (credit env h kind r t).1
  unfolding credit credit_steps
  credit-IsSound kind r t s =
      transaction-keeps (IsSound env.uuid) (credit_steps env h kind r) t
        (λ v t' e.
          let rest = λ (n : ℕ). credit_locked env h kind r.currency n r.words in
          let ((n, t1), checked, then_) = of_bind-ok (check_movement env h r) rest t e in
          let (same, _) = check_movement_effect env h r t t1 n checked in
          credit_locked-IsSound env inj h kind r.currency n r.words t t' v s
            (subst (λ (y : Tables). rest n y ≡ ok (v, t')) same then_))
        s

  -- For ids that are never given twice, a spend, refused or not, leaves a sound ledger sound: the
  -- cached balance, the entries and what is left of the lots still agree for every holder and
  -- currency.
  pub spend-IsSound :
      (r : MovementRequest) (t : Tables) → IsSound env.uuid t → IsSound env.uuid (spend env h r t).1
  unfolding spend spend_steps
  spend-IsSound r t s =
      transaction-keeps (IsSound env.uuid) (spend_steps env h r) t
        (λ v t' e.
          let rest = λ (n : ℕ). spend_locked env h r.currency n r.words in
          let ((n, t1), checked, then_) = of_bind-ok (check_movement env h r) rest t e in
          let (same, _) = check_movement_effect env h r t t1 n checked in
          spend_locked-IsSound env inj h r.currency n r.words t t' v s
            (subst (λ (y : Tables). rest n y ≡ ok (v, t')) same then_))
        s
