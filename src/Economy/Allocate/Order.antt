-- ===== src/Economy/Allocate/Order.antt =====
-- In which order an allocation takes: a lot is touched only when every lot before it in the game's
-- order, and every older one of its kind, is taken whole.
use mortar.Prelude.{
  ◌&&◌, ◌||◌, not, Bool, ltb, ℕ, ◌≡◌, subst, inl, inr, true, false, some, List, [], ◌∷◌, filter,
  arith, if◌then◌else◌, All, All-mono, All-filter, All-pairs, Forward, Backward, Distinct,
  Bool-cases,
}
use mortar.Prelude.Int.{◌-ℤ◌}
use mortar.Prelude.Sort.{sort_by, All-of_sort_by, Distinct-sort_by, IsSorted, sort_by-IsSorted}
use mortar.Economy.Kinds.{CreditKind, credit_eq, is_spend_order}
use mortar.Economy.Allocate.{Lot, Draw, after, is_open, ranked, take_from, draws_for}
use mortar.Economy.Allocate.Waits.{Waits, lot_id, take_from-Forward}

-- The comparator is a strict order by the kind's place and then by age.
after_asym :
    (order : List CreditKind) (x y : Lot) → after order x y ≡ true → after order y x ≡ false
unfolding after
after_asym order x y h = ground arith

after_trans :
    (order : List CreditKind) (x y z : Lot)
    → after order x y ≡ false
    → after order y z ≡ false
    → after order x z ≡ false
unfolding after
after_trans order x y z h k = ground arith

-- `b` is drawn on only when every lot that the comparator puts before it is taken whole.
abbrev InRank : List CreditKind → List Draw → Lot → Lot → Type 0
InRank order ds a b = after order b a ≡ true → Waits ds a b

Forward-InRank :
    (order : List CreditKind) (ds : List Draw) (lots : List Lot)
    → Forward (Waits ds) lots
    → Forward (InRank order ds) lots
Forward-InRank order ds [] w = tt
Forward-InRank order ds (lot ∷ lots) (w, ws) = (
  All-mono (Waits ds lot) (InRank order ds lot) lots (λ b h _. h) w,
  Forward-InRank order ds lots ws,
)

Backward-InRank :
    (order : List CreditKind) (ds : List Draw) (lots : List Lot)
    → IsSorted (after order) lots
    → Backward (InRank order ds) lots
Backward-InRank order ds [] s = tt
Backward-InRank order ds (lot ∷ lots) (s, ss) = (
  All-mono (λ y. after order lot y ≡ false) (λ y. InRank order ds y lot) lots (λ b e h. cc) s,
  Backward-InRank order ds lots ss,
)

pub Distinct-open : (lots : List Lot) → Distinct lot_id lots → Distinct lot_id (filter is_open lots)
Distinct-open [] d = tt
Distinct-open (lot ∷ lots) (f, d) = elim (Bool-cases (is_open lot)) [
  | inl e ↦ rw e (All-filter _ is_open lots f, Distinct-open lots d)
  | inr e ↦ rw e (Distinct-open lots d)
]

draws_for-InRank :
    (lots : List Lot) (amount : ℕ) (order : List CreditKind) (draws : List Draw)
    → Distinct lot_id lots
    → draws_for lots amount order ≡ some draws
    → let opened = filter is_open lots in All (λ a. All (InRank order draws a) opened) opened
unfolding draws_for ranked
draws_for-InRank lots amount order draws d e =
    let opened = filter is_open lots in
    let sorted = sort_by (after order) opened in
    let same : (take_from sorted amount).0 ≡ draws = ground arith in
    let pairs : All (λ a. All (InRank order draws a) sorted) sorted =
      All-pairs (InRank order draws) sorted (λ x h. cc (after_asym order x x h))
        (Forward-InRank order draws sorted (
          subst (λ ds. Forward (Waits ds) sorted) same
            (take_from-Forward sorted amount
              (Distinct-sort_by (after order) lot_id opened (Distinct-open lots d)))))
        (Backward-InRank order draws sorted
          (sort_by-IsSorted (after order) (after_asym order) (after_trans order) opened)) in
    All-mono _ _ opened (λ a h. All-of_sort_by (after order) (InRank order draws a) opened h)
      (All-of_sort_by (after order) (λ a. All (InRank order draws a) sorted) opened pairs)

-- The order names `a` before `b`.
abbrev precedes : List CreditKind → CreditKind → CreditKind → Bool
precedes [] a b = false
precedes (k ∷ ks) a b = credit_eq k a || (not (credit_eq k b) && precedes ks a b)

-- Of one kind the older comes first, of two kinds the one that the game names first.
abbrev pub stands_before : List CreditKind → Lot → Lot → Bool
stands_before order a b =
    if credit_eq a.kind b.kind then ltb a.seq b.seq else precedes order a.kind b.kind

-- `b` is drawn on only when every lot that stands before it is taken whole.
abbrev pub InOrder : List CreditKind → List Draw → Lot → Lot → Type 0
InOrder order ds a b = stands_before order a b ≡ true → Waits ds a b

stands_before-after :
    (order : List CreditKind) (a b : Lot)
    → is_spend_order order ≡ true
    → stands_before order a b ≡ true
    → after order b a ≡ true
unfolding after is_spend_order ◌-ℤ◌
stands_before-after [] a b o h = cc
stands_before-after (x ∷ []) a b o h = cc
stands_before-after (x ∷ y ∷ z ∷ order) a b o h = ground arith
stands_before-after (CreditKind.grant ∷ CreditKind.grant ∷ []) a b o h = cc
stands_before-after (CreditKind.purchase ∷ CreditKind.purchase ∷ []) a b o h = cc
stands_before-after (CreditKind.grant ∷ CreditKind.purchase ∷ []) a b o h = ground arith
stands_before-after (CreditKind.purchase ∷ CreditKind.grant ∷ []) a b o h = ground arith

-- For lots with distinct ids and an order that names every kind once, an allocation that gives
-- draws touches an open lot only when every open lot that stands before it, as one of a kind that
-- the order names first or as the older of one kind, is taken whole.
pub draws_for-InOrder :
    (lots : List Lot) (amount : ℕ) (order : List CreditKind) (draws : List Draw)
    → Distinct lot_id lots
    → is_spend_order order ≡ true
    → draws_for lots amount order ≡ some draws
    → let opened = filter is_open lots in All (λ a. All (InOrder order draws a) opened) opened
draws_for-InOrder lots amount order draws d o e =
    let opened = filter is_open lots in
    All-mono (λ a. All (InRank order draws a) opened) (λ a. All (InOrder order draws a) opened)
      opened
      (λ a h.
        All-mono (InRank order draws a) (InOrder order draws a) opened
          (λ b w before. w (stands_before-after order a b o before)) h)
      (draws_for-InRank lots amount order draws d e)
