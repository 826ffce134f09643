-- ===== src/Money/Tests.antt =====
-- Amounts to try the theorems of packages/money on.
use mortar.Prelude.{
  ℕ, ◌*◌, ◌/◌, ◌%◌, ◌^◌, ◌≤◌, ◌<◌, ◌≡◌, inr, refl, ap, Bool, true, false, List, [], ◌∷◌, arith,
  some, ltb,
}
use mortar.Prelude.Int.{ℤ, pos, negsuc, pos_part, ◌+ℤ◌}
use mortar.Money.Rounding.{Real, Remainders, half_up, round_to_integer}
use mortar.Money.Rounding.Symmetric.{negate_real, negate_ℤ, round_to_integer-negate}
use mortar.Money.Allocate.{Floats, Ratio, whole, shares, allocate, split}
use mortar.Money.Allocate.Fair.{sum_ℤ, allocate-sum, allocate-fair}

-- Two and a half.
abbrev half : Real
half = record { whole = pos 2; above = 1; out_of = 2 }

-- Subtraction that does not round.
abbrev unrounded : Remainders
unrounded = record { remainder = λ v. (v.above, v.out_of); remainder_exact = λ v h. refl }

half_up_above : round_to_integer unrounded half half_up ≡ pos 3
unfolding round_to_integer ◌+ℤ◌
half_up_above = refl

round_to_integer-negate_example :
    round_to_integer unrounded (negate_real half) half_up
    ≡ negate_ℤ (round_to_integer unrounded half half_up)
round_to_integer-negate_example =
    round_to_integer-negate unrounded half half_up (omega arith)
      (inr (λ e. omega (arith, ap pos_part e), λ e. cc))

-- A quotient as its whole part and what division leaves.
abbrev pair_lt : ℕ × ℕ → ℕ × ℕ → Bool
pair_lt (a, b) (c, d) = ltb b d

pair_lt-asym : (x y : ℕ × ℕ) → pair_lt x y ≡ true → pair_lt y x ≡ false
pair_lt-asym (a, b) (c, d) h = ground arith

pair_lt_trans : (x y z : ℕ × ℕ) → pair_lt x y ≡ false → pair_lt y z ≡ false → pair_lt x z ≡ false
pair_lt_trans (a, b) (c, d) (e, f) g h = ground arith

pair_order :
    (a b t : ℕ) → a < 2 ^ 52 → b < 2 ^ 52 → 0 < t → a % t < b % t → ltb (a % t) (b % t) ≡ true
pair_order a b t _ _ _ h = ground arith

abbrev pairs : Floats
pairs = record {
  F = ℕ × ℕ;
  quotient = λ a t. (a / t, a % t);
  floor = λ x. x.0;
  fraction = λ x. (0, x.1);
  lt = pair_lt;
  floor-quotient = λ a t _ _. refl;
  fraction_order = pair_order;
  lt_asym = pair_lt-asym;
  lt_trans = pair_lt_trans;
}

abbrev thirds : List Ratio
thirds = whole (pos 1) ∷ whole (pos 1) ∷ whole (pos 1) ∷ []

thousand : allocate pairs (pos 1000) thirds ≡ shares (pos 334 ∷ pos 333 ∷ pos 333 ∷ [])
unfolding allocate
thousand = refl

thousand_split :
    split pairs (negsuc 999) (pos 3) ≡ some (shares (negsuc 333 ∷ negsuc 332 ∷ negsuc 332 ∷ []))
unfolding split
thousand_split = refl

allocate-sum_example :
    (out : List ℤ) × (allocate pairs (pos 1000) thirds ≡ shares out) × (sum_ℤ out ≡ pos 1000)
allocate-sum_example =
    allocate-sum pairs (pos 1000) thirds refl (omega arith) (omega arith) (omega arith)

-- The unit that is left of 1000 in three goes to one that has no smaller a fraction.
allocate-fair_example : 1000 * 1 % 3 ≤ 1000 * 1 % 3
allocate-fair_example =
    allocate-fair pairs (pos 1000) thirds refl (omega arith) (omega arith) (omega arith) 0 1
      (pos 334 ∷ pos 333 ∷ pos 333 ∷ []) (pos 334) thousand refl refl 1 1 (pos 333) refl refl refl
      refl
