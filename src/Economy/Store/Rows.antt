-- ===== src/Economy/Store/Rows.antt =====
-- What the statements do to the sums that a ledger is judged by: a balance, and what is left of the
-- lots of one holder in one currency.
use mortar.Prelude.{
  ℕ, ◌+◌, ◌-◌, ◌≤◌, ◌≡◌, ◌≢◌, refl, sym, subst, ==_iff, inl, inr, Bool, true, false, ◌&&◌, Option,
  none, some, List, [], ◌∷◌, any, arith, ◌==◌, if◌then◌else◌, All, Distinct, sum_by, Bool-cases,
}
use mortar.Economy.Store.{
  of_holder_currency, add_balance, put_balance, balance_at, is_lot, find_lot, take_out, holds,
}
use mortar.Economy.Tables.{LotRow, BalanceRow}

abbrev pub or_zero : Option ℕ → ℕ
or_zero none = 0
or_zero (some n) = n

-- The cached balance: nothing for a holder never credited.
abbrev pub held : ℕ → ℕ → List BalanceRow → ℕ
held h c rows = or_zero (balance_at h c rows)

abbrev pub left_here : ℕ → ℕ → LotRow → ℕ
left_here h c lot = if lot.holder == h && lot.currency == c then lot.remaining else 0

-- What is left of the credits.
abbrev pub left_of : ℕ → ℕ → List LotRow → ℕ
left_of h c lots = sum_by (left_here h c) lots

abbrev pub entry_id : LotRow → ℕ
entry_id lot = lot.entry_id

pub balance_at-add :
    (h c : ℕ) (rows : List BalanceRow)
    → balance_at h c (add_balance h c rows) ≡ some (held h c rows)
balance_at-add h c rows = elim (Bool-cases (any (of_holder_currency h c) rows)) [
  | inl e ↦ rw e (there rows e)
  | inr e ↦ rw e (ground (arith, absent rows e))
]
  where
    there :
        (rs : List BalanceRow)
        → any (of_holder_currency h c) rs ≡ true
        → balance_at h c rs ≡ some (held h c rs)
    there [] e = cc
    there (r ∷ rs) e = ground (arith, there rs)

    absent :
        (rs : List BalanceRow) → any (of_holder_currency h c) rs ≡ false → balance_at h c rs ≡ none
    absent [] e = refl
    absent (r ∷ rs) e = ground (arith, absent rs)

pub held-add :
    (h c h' c' : ℕ) (rows : List BalanceRow) → held h' c' (add_balance h c rows) ≡ held h' c' rows
held-add h c h' c' rows = elim (Bool-cases (any (of_holder_currency h c) rows)) [
  | inl e ↦ rw e refl
  | inr e ↦ rw e (ground (arith, absent rows e))
]
  where
    absent :
        (rs : List BalanceRow) → any (of_holder_currency h c) rs ≡ false → balance_at h c rs ≡ none
    absent [] e = refl
    absent (r ∷ rs) e = ground (arith, absent rs)

-- A write moves one balance and no other.
pub held-put_self :
    (h c n b : ℕ) (rows : List BalanceRow)
    → balance_at h c rows ≡ some b
    → held h c (put_balance h c n rows) ≡ n
held-put_self h c n b [] e = cc
held-put_self h c n b (r ∷ rows) e = ground (arith, held-put_self h c n b rows)

pub held-put_ne :
    (h c n h' c' : ℕ) (rows : List BalanceRow)
    → (h == h' && c == c') ≡ false
    → held h' c' (put_balance h c n rows) ≡ held h' c' rows
held-put_ne h c n h' c' [] e = refl
held-put_ne h c n h' c' (r ∷ rows) e = ground (arith, held-put_ne h c n h' c' rows e)

module _ (id n : ℕ) where
  take_out-fresh :
      (lots : List LotRow) → All (λ l. l.entry_id ≢ id) lots → take_out id n lots ≡ lots
  take_out-fresh [] f = refl
  take_out-fresh (l ∷ lots) (f, fs) = ground (arith, take_out-fresh lots fs)

  pub All-take_out_id :
      (x : ℕ) (lots : List LotRow)
      → All (λ l. l.entry_id ≢ x) lots
      → All (λ l. l.entry_id ≢ x) (take_out id n lots)
  All-take_out_id x [] f = tt
  All-take_out_id x (l ∷ lots) (f, fs) = (ground arith, All-take_out_id x lots fs)

  id-kept :
      (b : Bool) (l : LotRow)
      → entry_id (if b then record l { remaining = l.remaining - n } else l) ≡ l.entry_id
  id-kept true l = refl
  id-kept false l = refl

  pub Distinct-take_out :
      (lots : List LotRow) → Distinct entry_id lots → Distinct entry_id (take_out id n lots)
  Distinct-take_out [] d = tt
  Distinct-take_out (l ∷ lots) (f, d) = (
    subst (λ x. All (λ y. y.entry_id ≢ x) (take_out id n lots)) (sym (id-kept (is_lot id l) l))
        (All-take_out_id l.entry_id lots f),
    Distinct-take_out lots d,
  )

  pub All-take_out_le :
      (lots : List LotRow)
      → All (λ l. l.remaining ≤ l.amount) lots
      → All (λ l. l.remaining ≤ l.amount) (take_out id n lots)
  All-take_out_le [] f = tt
  All-take_out_le (l ∷ lots) (f, fs) = (ground arith, All-take_out_le lots fs)

  pub find_lot-take_out_ne :
      (j : ℕ) (lots : List LotRow) → id ≢ j → find_lot j (take_out id n lots) ≡ find_lot j lots
  find_lot-take_out_ne j [] h = refl
  find_lot-take_out_ne j (l ∷ lots) h = ground (arith, find_lot-take_out_ne j lots h)

  pub find_lot-take_out_self :
      (l : LotRow) (lots : List LotRow)
      → find_lot id lots ≡ some l
      → find_lot id (take_out id n lots) ≡ some (record l { remaining = l.remaining - n })
  find_lot-take_out_self l [] e = cc
  find_lot-take_out_self l (m ∷ lots) e = ground (arith, find_lot-take_out_self l lots)

  fresh-holds : (lots : List LotRow) → All (λ l. l.entry_id ≢ id) lots → holds id n lots ≡ true
  fresh-holds [] f = refl
  fresh-holds (l ∷ lots) (f, fs) = ground (arith, fresh-holds lots fs)

  pub holds_of_find :
      (l : LotRow) (lots : List LotRow)
      → Distinct entry_id lots
      → find_lot id lots ≡ some l
      → n ≤ l.remaining
      → holds id n lots ≡ true
  holds_of_find l [] d e h = refl
  holds_of_find l (m ∷ lots) (f, d) e h = elim (Bool-cases (m.entry_id == id)) [
    | inl same ↦ ground (
      arith,
      fresh-holds lots (subst (λ x. All (λ y. y.entry_id ≢ x) lots) ((==_iff _ _).0 same) f),
    )
    | inr other ↦ ground (arith, holds_of_find l lots d)
  ]

  pub any_of_find :
      (l : LotRow) (lots : List LotRow) → find_lot id lots ≡ some l → any (is_lot id) lots ≡ true
  any_of_find l [] e = cc
  any_of_find l (m ∷ lots) e = ground (arith, any_of_find l lots)

  -- Taking from a lot takes it from its holder and currency, and from no other.
  pub left_of-take_out :
      (h c : ℕ) (l : LotRow) (lots : List LotRow)
      → Distinct entry_id lots
      → find_lot id lots ≡ some l
      → n ≤ l.remaining
      → left_of h c (take_out id n lots) + (if l.holder == h && l.currency == c then n else 0)
        ≡ left_of h c lots
  left_of-take_out h c l [] d e le = cc
  left_of-take_out h c l (m ∷ lots) (f, d) e le = elim (Bool-cases (m.entry_id == id)) [
    | inl same ↦ ground (
      arith,
      take_out-fresh lots (subst (λ x. All (λ y. y.entry_id ≢ x) lots) ((==_iff _ _).0 same) f),
    )
    | inr other ↦ ground (arith, left_of-take_out h c l lots d)
  ]
