-- ===== src/Money/Rounding.antt =====
-- packages/money/src/rounding.ts. A number to be rounded is kept as the whole number below it and the
-- part that it lies above that, a fraction; what subtracting the two gives in doubles is a parameter.
pub mod Symmetric
use mortar.Prelude.{
  ℕ, zero, suc, ◌+◌, ◌*◌, ◌%◌, ◌<◌, ◌≡◌, ◌≢◌, Bool, true, false, ltb, ◌==◌, if◌then◌else◌,
}
use mortar.Prelude.Int.{ℤ, pos, negsuc, ◌+ℤ◌}

pub data RoundingMode : Type 0 where
  half_up : RoundingMode
  half_down : RoundingMode
  half_even : RoundingMode
  up : RoundingMode
  down : RoundingMode
  ceiling : RoundingMode
  floor : RoundingMode

-- `floor` and the fraction `above` / `out_of` that the number lies above it.
pub record Real : Type 0 where
  pub whole : ℤ
  pub above : ℕ
  pub out_of : ℕ

abbrev pub IsReal : Real → Type 0
IsReal v = v.above < v.out_of

-- `Number.isInteger(value)`
abbrev pub is_zero : ℕ → Bool
is_zero zero = true
is_zero (suc n) = false

-- `value > 0`, for a number that is not whole.
abbrev pub is_positive : ℤ → Bool
is_positive (pos n) = true
is_positive (negsuc n) = false

-- `floor % 2 === 0`
abbrev pub is_even : ℤ → Bool
is_even (pos n) = n % 2 == 0
is_even (negsuc n) = suc n % 2 == 0

abbrev pub next : ℤ → ℤ
next n = n +ℤ pos 1

-- The `switch`, for a number that is not whole.
abbrev pub rounded : ℤ → Bool → Bool → RoundingMode → ℤ
rounded n is_half is_more ceiling = next n
rounded n is_half is_more floor = n
rounded n is_half is_more up = if is_positive n then next n else n
rounded n is_half is_more down = if is_positive n then n else next n
rounded n is_half is_more half_up =
    if is_half then (if is_positive n then next n else n) else (if is_more then next n else n)
rounded n is_half is_more half_down =
    if is_half then (if is_positive n then n else next n) else (if is_more then next n else n)
rounded n is_half is_more half_even =
    if is_half then (if is_even n then n else next n) else (if is_more then next n else n)

-- `value - floor` in doubles, a fraction. From 0 up and below -1 it is exact; between the two, where
-- `floor` is -1, it may be rounded.
pub record Remainders : Type 0 where
  pub remainder : Real → ℕ × ℕ
  pub remainder_exact : (v : Real) → v.whole ≢ negsuc 0 → remainder v ≡ (v.above, v.out_of)

unfoldable pub round_to_integer : Remainders → Real → RoundingMode → ℤ
round_to_integer remainders v mode =
    if is_zero v.above
    then v.whole
    else (let (part, out_of) = remainders.remainder v in
        rounded v.whole (2 * part == out_of) (ltb out_of (2 * part)) mode)
