-- ===== src/Prelude/Number.antt =====
-- A JavaScript number that the code tests before it computes with it: a whole number, or any other
-- (a fraction, NaN, an infinity), which the tests refuse. The safe integers are those of size
-- below 2^53.
use mortar.Prelude.Tests.{ltb, leb, if◌then◌else◌}
use mortar.Prelude.Int.{ℤ, pos, negsuc, pos_part, neg_part, ◌+ℤ◌}
use Prim.Native.Nat.{ℕ, ◌≤◌}
use mathlib.Core.Path.{◌≡◌}
use mathlib.Core.Option.{Option, none, some}

pub data Number : Type 0 where
  whole : ℤ → Number
  other : Number

-- `Number.MAX_SAFE_INTEGER`
abbrev pub max_safe : ℕ
max_safe = 9007199254740991

-- The value of a number for which `Number.isSafeInteger(n) && n > 0`.
abbrev pub safe_positive : Number → Option ℕ
safe_positive other = none
safe_positive (whole (negsuc n)) = none
safe_positive (whole (pos n)) = if ltb 0 n then (if leb n max_safe then some n else none) else none

abbrev pub IsSafe : ℤ → Type 0
IsSafe z = (pos_part z ≤ max_safe) × (neg_part z ≤ max_safe)

-- What is computed with whole numbers that may be too large to be exact, as IEEE 754 has it.
pub record Doubles : Type 0 where
  -- `a + b`
  pub plus : ℤ → ℤ → ℤ
  -- `Number(text)`, of the digits of a whole number
  pub number : ℕ → ℕ
  -- the whole number that `String(n)` writes
  pub string : ℕ → ℕ
  pub plus_exact : (a b : ℤ) → IsSafe (a +ℤ b) → plus a b ≡ a +ℤ b
  pub number_exact : (n : ℕ) → n ≤ max_safe → number n ≡ n
  pub string_exact : (n : ℕ) → n ≤ max_safe → string n ≡ n
