-- ===== src/Money/Allocate.antt =====
-- packages/money/src/allocate.ts. The ratios are whole numbers, as `split` and `allocateByAmounts`
-- give them, or not finite; an amount is whole. What the code computes in floating point, the
-- quotients and the parts of them that are not whole, comes from a parameter with the laws of IEEE 754.

pub mod Shares
pub mod Fair
pub mod Lucky
pub mod Turns
pub mod Ranked
use mortar.Prelude.{
  ℕ, zero, suc, ◌+◌, ◌-◌, ◌*◌, ◌/◌, ◌%◌, ◌^◌, ◌<◌, ◌≡◌, Bool, true, false, ◌&&◌, ◌||◌, not, List,
  [], ◌∷◌, map, length, any, Option, none, some, sum_by, all, ltb, leb, ◌==◌, if◌then◌else◌,
}
use mortar.Prelude.Int.{ℤ, pos, negsuc}
use mortar.Prelude.Number.{max_safe}
use mortar.Prelude.Sort.{sort_by}

-- Floating-point numbers, as far as `allocate` computes with them.
pub record Floats : Type 1 where
  pub F : Type 0
  -- `a / t`, correctly rounded, of whole numbers
  pub quotient : ℕ → ℕ → F
  -- `Math.floor`
  pub floor : F → ℕ
  -- `value - Math.floor(value)`
  pub fraction : F → F
  pub lt : F → F → Bool
  -- The rounded quotient of whole numbers below 2^53 lies above the same whole number.
  pub floor-quotient : (a t : ℕ) → a < 2 ^ 53 → 0 < t → floor (quotient a t) ≡ a / t
  -- Below 2^52 the rounding of two quotients by one number keeps their fractions in order.
  pub fraction_order :
      (a b t : ℕ)
      → a < 2 ^ 52
      → b < 2 ^ 52
      → 0 < t
      → a % t < b % t
      → lt (fraction (quotient a t)) (fraction (quotient b t)) ≡ true
  pub lt_asym : (x y : F) → lt x y ≡ true → lt y x ≡ false
  pub lt_trans : (x y z : F) → lt x y ≡ false → lt y z ≡ false → lt x z ≡ false

pub data Ratio : Type 0 where
  whole : ℤ → Ratio
  not_finite : Ratio

pub data AllocateError : Type 0 where
  no_ratio : AllocateError
  bad_ratio : AllocateError
  no_weight : AllocateError
  -- of `money`, for a share that is no safe integer
  invalid_amount : AllocateError

pub data Shared : Type 0 where
  shares : List ℤ → Shared
  refused : AllocateError → Shared

-- `!Number.isFinite(r) || r < 0`
abbrev pub is_bad : Ratio → Bool
is_bad not_finite = true
is_bad (whole (pos n)) = false
is_bad (whole (negsuc n)) = true

abbrev pub weight : Ratio → ℕ
weight (whole (pos n)) = n
weight (whole (negsuc n)) = 0
weight not_finite = 0

-- `Math.abs` and the sign put back: `sign * v`.
abbrev pub magnitude : ℤ → ℕ
magnitude (pos n) = n
magnitude (negsuc n) = suc n

abbrev pub opposite : ℕ → ℤ
opposite zero = pos zero
opposite (suc n) = negsuc n

abbrev pub signed : ℤ → ℕ → ℤ
signed (pos n) v = pos v
signed (negsuc n) v = opposite v

-- `result[index] += 1`
unfoldable pub bump : ℕ → List ℕ → List ℕ
bump i [] = []
bump zero (x ∷ xs) = suc x ∷ xs
bump (suc i) (x ∷ xs) = x ∷ bump i xs

abbrev pub slot {ℓ} : {A : Type ℓ} → List A → ℕ → Option A
slot [] i = none
slot (x ∷ xs) zero = some x
slot (x ∷ xs) (suc i) = slot xs i

-- The loop over `remainder`; `i` is the place in the order whose turn it is.
unfoldable pub hand_out : List ℕ → ℕ → ℕ → List ℕ → List ℕ
unfolding bump
hand_out order zero i result = result
hand_out order (suc remainder) i result = elim (slot order i) [
  | none ↦ result
  | some index ↦ hand_out order remainder (suc i % length order) (bump index result)
]

-- `result.map((v) => money(sign * v, amount.currency))`
abbrev pub in_money : ℤ → List ℕ → Shared
in_money amount parts =
    if all (λ v. leb v max_safe) parts
    then shares (map (signed amount) parts)
    else refused invalid_amount

module _ (floats : Floats) where
  open floats use {F, quotient, floor, fraction, lt}

  -- An entry of `order`.
  pub record Slot : Type 0 where
    pub index : ℕ
    pub part : F

  -- The comparator is above zero: a smaller fraction, or the same and a later place.
  abbrev pub after : Slot → Slot → Bool
  after a b = lt a.part b.part || (not (lt b.part a.part) && ltb b.index a.index)

  abbrev pub slots_from : ℕ → List F → List Slot
  slots_from i [] = []
  slots_from i (v ∷ vs) = record { index = i; part = fraction v } ∷ slots_from (suc i) vs

  abbrev pub order_of : List F → List ℕ
  order_of exact = map (λ s. s.index) (sort_by after (slots_from 0 exact))

  -- The shares of a magnitude among weights that come to `total`.
  unfoldable pub parts_of : ℕ → List ℕ → List ℕ
  unfolding hand_out sort_by
  parts_of m weights =
      let total = sum_by (λ w. w) weights in
      let exact = map (λ w. quotient (m * w) total) weights in
      let floors = map floor exact in
      hand_out (order_of exact) (m - sum_by (λ w. w) floors) 0 floors

  unfoldable pub allocate : ℤ → List Ratio → Shared
  unfolding parts_of
  allocate amount [] = refused no_ratio
  allocate amount (r ∷ rs) =
      let ratios = r ∷ rs in
      let weights = map weight ratios in
      if any is_bad ratios
      then refused bad_ratio
      else (if sum_by (λ w. w) weights == 0
          then refused no_weight
          else in_money amount (parts_of (magnitude amount) weights))

  abbrev repeat : ℕ → List Ratio
  repeat zero = []
  repeat (suc n) = whole (pos 1) ∷ repeat n

  -- `none`: the number of parts is refused.
  unfoldable pub split : ℤ → ℤ → Option Shared
  unfolding allocate
  split amount (negsuc n) = none
  split amount (pos zero) = none
  split amount (pos (suc n)) = some (allocate amount (repeat (suc n)))

  unfoldable pub allocate_by_amounts : ℤ → List ℤ → Shared
  unfolding allocate
  allocate_by_amounts amount weights = allocate amount (map whole weights)
