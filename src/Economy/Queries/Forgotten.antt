-- ===== src/Economy/Queries/Forgotten.antt =====
-- `forget` deletes a holder whole or not at all.
use mortar.Prelude.{
  ℕ, ◌<◌, ◌≡◌, ◌≢◌, refl, sym, ap, subst, inl, inr, Bool, true, false, not, List, [], ◌∷◌, filter,
  any, length, arith, ltb, ◌==◌, if◌then◌else◌, All, Bool-cases,
}
use mortar.Economy.Tables.{Entry, LotRow, DrawRow, BalanceRow, Tables, ok}
use mortar.Economy.Store.Monad.{of_bind-ok, transaction-ok}
use mortar.Economy.Requests.{Env}
use mortar.Economy.Queries.{
  holds_any, wrote_since, is_his_entry, is_his_draw, forgotten, forget_unless, forget_steps, forget,
}

-- The holder holds nothing in any currency.
abbrev pub HoldsNothing : ℕ → List BalanceRow → Type 0
HoldsNothing h rows = All (λ b. b.holder ≡ h → b.balance ≡ 0) rows

-- Nothing of the holder is left, nor a draw of an entry that the holder had.
pub record IsGone (h : ℕ) (had : List Entry) (t : Tables) : Type 0 where
  pub draws : All (λ d. All (λ e. e.holder ≡ h → e.id ≢ d.entry_id) had) t.draws
  pub entries : All (λ e. e.holder ≢ h) t.entries
  pub lots : All (λ l. l.holder ≢ h) t.lots
  pub balances : All (λ b. b.holder ≢ h) t.balances

holds_any_effect :
    (h : ℕ) (rows : List BalanceRow) (t t' : Tables) (b : Bool)
    → holds_any h rows t ≡ ok (b, t')
    → (t' ≡ t) × (b ≡ false → HoldsNothing h rows)
unfolding holds_any
holds_any_effect h [] t t' b e = (ground arith, λ _. tt)
holds_any_effect h (r ∷ rows) t t' b e = elim (Bool-cases (r.holder == h)) [
  | inr other ↦
      let (same, nothing) = holds_any_effect h rows t t' b (ground arith) in
      (same, λ no. (λ mine. absurd (ground arith), nothing no))
  | inl mine ↦ elim (Bool-cases (ltb 0 r.balance)) [
    | inl some_held ↦ (ground arith, ground arith)
    | inr none_held ↦
        let (same, nothing) = holds_any_effect h rows t t' b (ground arith) in
        (same, λ no. (λ _. ground arith, nothing no))
  ]
]

All-filter_test :
    {A : Type 0} (P : A → Type 0) (p : A → Bool) (xs : List A)
    → ((x : A) → p x ≡ true → P x)
    → All P (filter p xs)
All-filter_test P p [] f = tt
All-filter_test P p (x ∷ xs) f = elim (Bool-cases (p x)) [
  | inl e ↦ rw e (f x e, All-filter_test P p xs f)
  | inr e ↦ rw e (All-filter_test P p xs f)
]

wrote_before :
    (h before : ℕ) (es : List Entry)
    → any (wrote_since h before) es ≡ false
    → All (λ e. e.holder ≡ h → e.occurred_at < before) es
wrote_before h before [] e = tt
wrote_before h before (x ∷ es) e = (λ mine. ground arith, wrote_before h before es (ground arith))

none_drawn :
    (h : ℕ) (es : List Entry) (d : DrawRow)
    → is_his_draw h es d ≡ false
    → All (λ e. e.holder ≡ h → e.id ≢ d.entry_id) es
none_drawn h [] d p = tt
none_drawn h (e ∷ es) d p = (λ mine same. absurd (ground arith), none_drawn h es d (ground arith))

forgotten-IsGone : (h : ℕ) (t : Tables) → IsGone h t.entries (forgotten h t)
unfolding forgotten
forgotten-IsGone h t = record {
  draws =
      All-filter_test _ (λ d. not (is_his_draw h t.entries d)) t.draws
        (λ d p. none_drawn h t.entries d (ground arith));
  entries = All-filter_test _ (λ e. not (is_his_entry h e)) t.entries (λ e p. ground arith);
  lots = All-filter_test _ (λ l. not (l.holder == h)) t.lots (λ l p. ground arith);
  balances = All-filter_test _ (λ b. not (b.holder == h)) t.balances (λ b p. ground arith);
}

-- The rows of another holder, in their order.
abbrev pub entries_of : ℕ → Tables → List Entry
entries_of k t = filter (is_his_entry k) t.entries

abbrev pub lots_of : ℕ → Tables → List LotRow
lots_of k t = filter (λ l. l.holder == k) t.lots

abbrev pub balances_of : ℕ → Tables → List BalanceRow
balances_of k t = filter (λ b. b.holder == k) t.balances

-- The draws of no entry of the holder, in their order.
abbrev pub draws_but : ℕ → List Entry → Tables → List DrawRow
draws_but h had t = filter (λ d. not (is_his_draw h had d)) t.draws

filter_twice :
    {A : Type 0} (p q : A → Bool) (xs : List A)
    → ((x : A) → q x ≡ true → p x ≡ true)
    → filter q (filter p xs) ≡ filter q xs
filter_twice p q [] f = refl
filter_twice p q (x ∷ xs) f = elim (Bool-cases (p x)) [
  | inl e ↦ rw e (ap (λ r. if q x then x ∷ r else r) (filter_twice p q xs f))
  | inr e ↦ elim (Bool-cases (q x)) [
    | inl d ↦ cc (f x d)
    | inr d ↦ rw e (rw d (filter_twice p q xs f))
  ]
]

forget_unless_effect :
    (h before : ℕ) (holding : Bool) (t t' : Tables) (b : Bool)
    → forget_unless h before holding t ≡ ok (b, t')
    → (b ≡ false → t' ≡ t)
      × (b ≡ true
          → (holding ≡ false)
            × (t' ≡ forgotten h t)
            × (any (wrote_since h before) t.entries ≡ false))
unfolding forget_unless
forget_unless_effect h before true t t' b e = (λ _. ground arith, λ p. ground arith)
forget_unless_effect h before false t t' b e =
    (λ p. ground arith, λ p. (refl, ground arith, ground arith))

kept_rows :
    (h k : ℕ) (t : Tables)
    → k ≢ h
    → let u = forgotten h t in
      (entries_of k u ≡ entries_of k t)
      × (lots_of k u ≡ lots_of k t)
      × (balances_of k u ≡ balances_of k t)
unfolding forgotten
kept_rows h k t ne = (
  filter_twice (λ e. not (is_his_entry h e)) (is_his_entry k) t.entries (λ e p. ground arith),
  filter_twice (λ l. not (l.holder == h)) (λ l. l.holder == k) t.lots (λ l p. ground arith),
  filter_twice (λ b. not (b.holder == h)) (λ b. b.holder == k) t.balances (λ b p. ground arith),
)

kept_draws : (h : ℕ) (t : Tables) → draws_but h t.entries (forgotten h t) ≡ draws_but h t.entries t
unfolding forgotten
kept_draws h t =
    let others = λ (d : DrawRow). not (is_his_draw h t.entries d) in
    filter_twice others others t.draws (λ d p. p)

forget_steps-IsGone :
    (h before : ℕ) (t t' : Tables)
    → forget_steps h before t ≡ ok (true, t')
    → HoldsNothing h t.balances
      × All (λ e. e.holder ≡ h → e.occurred_at < before) t.entries
      × IsGone h t.entries t'
      × (draws_but h t.entries t' ≡ draws_but h t.entries t)
      × ((k : ℕ)
          → k ≢ h
          → (entries_of k t' ≡ entries_of k t)
            × (lots_of k t' ≡ lots_of k t)
            × (balances_of k t' ≡ balances_of k t))
unfolding forget_steps
forget_steps-IsGone h before t t' e =
    let ((b, t1), seen, rest) = of_bind-ok (holds_any h t.balances) (forget_unless h before) t e in
    let (same, nothing) = holds_any_effect h t.balances t t1 b seen in
    let (none_held, gone, quiet) =
      (forget_unless_effect h before b t t' true
          (subst (λ (y : Tables). forget_unless h before b y ≡ ok (true, t')) same rest)).1
        refl in
    (
      nothing none_held,
      wrote_before h before t.entries quiet,
      subst (IsGone h t.entries) (sym gone) (forgotten-IsGone h t),
      rw gone (kept_draws h t),
      λ k ne. rw gone (kept_rows h k t ne),
    )

-- When `forget` answers true, the holder held nothing and had written nothing since the cut-off;
-- no entry, lot or balance of the holder is left, and no draw of an entry that the holder had; and
-- every other draw, and the entries, lots and balances of any other holder, are as they were.
pub forget-IsGone :
    (env : Env) (h before k : ℕ) (t t' : Tables)
    → forget env h before t ≡ (ok true, t')
    → k ≢ h
    → HoldsNothing h t.balances
      × All (λ e. e.holder ≡ h → e.occurred_at < before) t.entries
      × IsGone h t.entries t'
      × (draws_but h t.entries t' ≡ draws_but h t.entries t)
      × (entries_of k t' ≡ entries_of k t)
      × (lots_of k t' ≡ lots_of k t)
      × (balances_of k t' ≡ balances_of k t)
unfolding forget
forget-IsGone env h before k t t' e ne = elim (Bool-cases (length (env.text_of h) == 0)) [
  | inl unnamed ↦ ground arith
  | inr named ↦
      let ran = transaction-ok (forget_steps h before) t t' (ground arith) in
      let (nothing, quiet, gone, draws, others) = forget_steps-IsGone h before t t' ran in
      let (es, ls, bs) = others k ne in (nothing, quiet, gone, draws, es, ls, bs)
]
