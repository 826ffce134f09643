-- ===== src/Economy/Service/Again.antt =====
-- The same key again: a call that was answered answers the same, and writes nothing.
use mortar.Prelude.{
  ℕ, ◌+◌, ◌≤◌, ◌≡◌, refl, sym, ap, ◌∙◌, subst, inl, inr, true, Option, none, some, List, [], ◌∷◌,
  any, arith, if◌then◌else◌, Bool-cases,
}
use mortar.Prelude.Number.{max_safe, safe_positive}
use mortar.Economy.Check.{Field, check_request}
use mortar.Economy.Kinds.{CreditKind, EntryKind}
use mortar.Economy.Store.{
  lock, add_balance, put_balance, set_balance, insert_lot, zero_balance, of_holder_currency,
  balance_at, keyed, view, entry_view_of,
}
use mortar.Economy.Tables.{
  Entry, EntryView, BalanceRow, Tables, ok, M, ◌>>=◌, check, ledger_key_reused, require, validation,
}
use mortar.Economy.Store.Monad.{bind-ok, of_bind-ok, transaction-ok}
use mortar.Economy.Store.Rows.{held, held-add, held-put_self, balance_at-add}
use mortar.Economy.Service.{credit_new, credit_locked, credit_steps, credit}
use mortar.Economy.Requests.{
  Env, Words, MovementRequest, Expected, entry_of, insert, matches, written, written_as, or_earlier,
  check_movement, passed, asked,
}
use mortar.Economy.Service.Effects.{credit_new_effect, check_movement_effect, lock_effect}
use mortar.Economy.Service.Spending.{transaction-answers, locked, lock-answers}

-- The call that `x` stands for is written down, and the answer to it is `v`.
pub record Settled (h c key : ℕ) (x : Expected) (v : EntryView) (t : Tables) : Type 0 where
  pub entry : Entry
  pub found : keyed h key t ≡ some entry
  pub seen : v ≡ view entry
  pub same : matches entry x ≡ true
  pub shown : entry_view_of entry t ≡ ok (view entry, t)
  pub row : any (of_holder_currency h c) t.balances ≡ true
  pub fits : held h c t.balances ≤ max_safe

abbrev locked_call : ℕ → ℕ → ℕ → Expected → (ℕ → M EntryView) → M EntryView
locked_call h c key x rest = lock h c >>= λ b. written h key x >>= λ o. or_earlier o (rest b)

any-add :
    (h c : ℕ) (rows : List BalanceRow) → any (of_holder_currency h c) (add_balance h c rows) ≡ true
any-add h c rows = elim (Bool-cases (any (of_holder_currency h c) rows)) [
  | inl e ↦ rw e e
  | inr e ↦ ground arith
]

any-put :
    (h c n : ℕ) (rows : List BalanceRow)
    → any (of_holder_currency h c) rows ≡ true
    → any (of_holder_currency h c) (put_balance h c n rows) ≡ true
any-put h c n [] e = e
any-put h c n (r ∷ rows) e = ground (arith, any-put h c n rows)

lock-settled :
    (h c : ℕ) (t : Tables)
    → any (of_holder_currency h c) t.balances ≡ true
    → held h c t.balances ≤ max_safe
    → lock h c t ≡ ok (held h c t.balances, t)
lock-settled h c t row fits =
    let same : locked h c t ≡ t =
      ap (λ b. record t { balances = if b then t.balances else zero_balance h c ∷ t.balances })
        row in
    lock-answers h c t fits ∙ ap (λ u. ok (held h c t.balances, u)) same

Settled-again :
    (h c key : ℕ) (x : Expected) (rest : ℕ → M EntryView) (v : EntryView) (t : Tables)
    → Settled h c key x v t
    → locked_call h c key x rest t ≡ ok (v, t)
unfolding written written_as
Settled-again h c key x rest v t s =
    bind-ok (lock h c) _ t (lock-settled h c t s.row s.fits)
    ∙ bind-ok (written h key x) (λ o. or_earlier o (rest (held h c t.balances))) t
        (ap (λ o. written_as key x o t) s.found
          ∙ bind-ok (entry_view_of s.entry) _ t s.shown
          ∙ bind-ok (check (matches s.entry x) (ledger_key_reused key)) _ t
              (ap (λ b. check b (ledger_key_reused key) t) s.same))
    ∙ ap (λ w. ok (w, t)) (sym s.seen)

-- A call that has answered either found its entry, or wrote it anew under an unused key.
data Answered (h c key : ℕ) (x : Expected) (rest : ℕ → M EntryView) (v : EntryView) (t t' : Tables)
    : Type 0 where
  found_before : Settled h c key x v t' → Answered h c key x rest v t t'
  written_new :
      rest (held h c t.balances) (locked h c t) ≡ ok (v, t') → Answered h c key x rest v t t'

row_locked : (h c : ℕ) (t : Tables) → any (of_holder_currency h c) (locked h c t).balances ≡ true
row_locked h c t = any-add h c t.balances

lock_fits :
    (h c : ℕ) (t t' : Tables) (b : ℕ) → lock h c t ≡ ok (b, t') → held h c t.balances ≤ max_safe
unfolding lock
lock_fits h c t t' b e = ground (arith, balance_at-add h c t.balances)

same_of_found :
    (key : ℕ) (x : Expected) (e : Entry) (t t' : Tables) (o : Option EntryView)
    → written_as key x (some e) t ≡ ok (o, t')
    → (t' ≡ t) × (o ≡ some (view e)) × (matches e x ≡ true) × (entry_view_of e t ≡ ok (view e, t))
unfolding written_as entry_view_of
same_of_found key x e t t' o h = (ground arith, ground arith, ground arith, ground arith)

of_written :
    (h c key : ℕ) (x : Expected) (rest : ℕ → M EntryView) (v : EntryView) (t t' : Tables)
    (fits : held h c t.balances ≤ max_safe) (o : Option Entry)
    → keyed h key t ≡ o
    → (written_as key x o >>= λ w. or_earlier w (rest (held h c t.balances))) (locked h c t)
      ≡ ok (v, t')
    → Answered h c key x rest v t t'
unfolding written_as
of_written h c key x rest v t t' fits none found e = written_new e
of_written h c key x rest v t t' fits (some y) found e =
    let u = locked h c t in
    let ((w, t1), seen, then_) =
      of_bind-ok (written_as key x (some y)) (λ w. or_earlier w (rest (held h c t.balances))) u e in
    let (same, is_view, ok_match, shown) = same_of_found key x y u t1 w seen in
    let ended : or_earlier (some (view y)) (rest (held h c t.balances)) u ≡ ok (v, t') =
      subst (λ (z : Tables). or_earlier (some (view y)) (rest (held h c t.balances)) z ≡ ok (v, t'))
        same
        (subst (λ (z : Option EntryView). or_earlier z (rest (held h c t.balances)) t1 ≡ ok (v, t'))
          is_view then_) in
    let at_end : u ≡ t' = ground arith in
    found_before (
      subst (Settled h c key x v) at_end (record {
        entry = y;
        found = found;
        seen = ground arith;
        same = ok_match;
        shown = shown;
        row = row_locked h c t;
        fits = omega (arith, held-add h c h c t.balances);
      }))

of_locked_call :
    (h c key : ℕ) (x : Expected) (rest : ℕ → M EntryView) (v : EntryView) (t t' : Tables)
    → locked_call h c key x rest t ≡ ok (v, t')
    → Answered h c key x rest v t t'
unfolding written
of_locked_call h c key x rest v t t' e =
    let ((b, t1), is_locked, then_) = of_bind-ok (lock h c) _ t e in
    let (balance, same) = lock_effect h c t t1 b is_locked in
    of_written h c key x rest v t t' (lock_fits h c t t1 b is_locked) (keyed h key t) refl (
      subst
        (λ (z : Tables).
          (written h key x >>= λ w. or_earlier w (rest (held h c t.balances))) z ≡ ok (v, t'))
        same
        (subst (λ (n : ℕ). (written h key x >>= λ w. or_earlier w (rest n)) t1 ≡ ok (v, t')) balance
          then_))

module _ (env : Env) (h : ℕ) (kind : CreditKind) (c amt : ℕ) (words : Words) where
  abbrev expected_credit : Expected
  expected_credit = record {
    kind = EntryKind.credit kind;
    currency = c;
    amount = amt;
    refund_of = none;
  }

  credit_new_fits :
      (balance : ℕ) (t t' : Tables) (v : EntryView)
      → credit_new env h kind c amt words balance t ≡ ok (v, t')
      → (amt ≤ max_safe) × (balance + amt ≤ max_safe) × (t.next_seq ≤ max_safe)
  unfolding credit_new insert insert_lot set_balance entry_view_of
  credit_new_fits balance t t' v e = (ground arith, ground arith, ground arith)

  credit_new-Settled :
      (balance : ℕ) (t t' : Tables) (v : EntryView)
      → any (of_holder_currency h c) t.balances ≡ true
      → balance_at h c t.balances ≡ some balance
      → credit_new env h kind c amt words balance t ≡ ok (v, t')
      → Settled h c words.idempotency_key expected_credit v t'
  unfolding entry_view_of
  credit_new-Settled balance t t' v row there e =
      let (positive, same, is_view) = credit_new_effect env h c amt words kind balance t t' v e in
      let (small, fits, seq) = credit_new_fits balance t t' v e in
      subst (Settled h c words.idempotency_key expected_credit v) (sym same) (record {
        entry = entry_of env h (EntryKind.credit kind) c amt words (balance + amt) none t.next_seq;
        found = ground arith;
        seen = is_view;
        same = elim kind [ CreditKind.purchase ↦ ground arith | CreditKind.grant ↦ ground arith ];
        shown = ground arith;
        row = any-put h c (balance + amt) t.balances row;
        fits = omega (arith, held-put_self h c (balance + amt) balance t.balances there);
      })

  credit_locked-Settled :
      (t t' : Tables) (v : EntryView)
      → credit_locked env h kind c amt words t ≡ ok (v, t')
      → Settled h c words.idempotency_key expected_credit v t'
  unfolding credit_locked
  credit_locked-Settled t t' v e =
      elim (of_locked_call h c words.idempotency_key expected_credit
        (credit_new env h kind c amt words) v t t' e) [
          | found_before s ↦ s
          | written_new new ↦
              credit_new-Settled (held h c t.balances) (locked h c t) t' v (row_locked h c t)
                (balance_at-add h c t.balances) new
        ]

passed_anywhere :
    (fs : List Field) (o : Option ℕ) (t t' : Tables) (n : ℕ)
    → passed fs (require o (validation [])) t ≡ ok (n, t)
    → passed fs (require o (validation [])) t' ≡ ok (n, t')
passed_anywhere [] none t t' n e = cc
passed_anywhere [] (some m) t t' n e = ground arith
passed_anywhere (f ∷ fs) o t t' n e = cc

module _ (env : Env) (h : ℕ) where
  same_check :
      (r : MovementRequest) (t t' : Tables) (n : ℕ)
      → check_movement env h r t ≡ ok (n, t)
      → check_movement env h r t' ≡ ok (n, t')
  unfolding check_movement
  same_check r t t' n e =
      passed_anywhere (check_request (asked env h (some r.currency) (some r.amount) r.words))
        (safe_positive r.amount) t t' n e

  -- A credit that has answered, asked again under its key with nothing written in between, gives
  -- the same answer and changes nothing.
  pub credit_again :
      (kind : CreditKind) (r : MovementRequest) (t t' : Tables) (v : EntryView)
      → credit env h kind r t ≡ (ok v, t')
      → credit env h kind r t' ≡ (ok v, t')
  unfolding credit credit_steps credit_locked
  credit_again kind r t t' v e =
      let rest = λ (n : ℕ). credit_locked env h kind r.currency n r.words in
      let ((n, t1), checked, then_) =
        of_bind-ok (check_movement env h r) rest t
          (transaction-ok (credit_steps env h kind r) t t' e) in
      let (same, _) = check_movement_effect env h r t t1 n checked in
      let checked_here =
        subst (λ (y : Tables). check_movement env h r t ≡ ok (n, y)) same checked in
      let settled =
        credit_locked-Settled env h kind r.currency n r.words t t' v
          (subst (λ (y : Tables). rest n y ≡ ok (v, t')) same then_) in
      transaction-answers (credit_steps env h kind r) t' t' v (
        bind-ok (check_movement env h r) rest t' (same_check r t t' n checked_here)
        ∙ Settled-again h r.currency r.words.idempotency_key
            (expected_credit env h kind r.currency n r.words)
            (credit_new env h kind r.currency n r.words) v t' settled)
