-- ===== src/Money/Rounding/Symmetric.antt =====
-- Rounding and the sign, of packages/money/src/rounding.ts.
use mortar.Prelude.{
  ℕ, suc, zero, ◌-◌, ◌*◌, ◌≡◌, ◌≢◌, ◌⊎◌, inl, inr, refl, sym, ap, ◌∙◌, ◌<◌, ◌==◌, if◌then◌else◌,
  arith, ltb,
}
use mortar.Prelude.Int.{ℤ, pos, negsuc, ◌+ℤ◌}
use mortar.Money.Rounding.{
  Real, IsReal, Remainders, RoundingMode, half_up, half_down, half_even, up, down, ceiling, floor,
  is_zero, round_to_integer, rounded,
}

abbrev pub negate_ℤ : ℤ → ℤ
negate_ℤ (pos zero) = pos zero
negate_ℤ (pos (suc n)) = negsuc n
negate_ℤ (negsuc n) = pos (suc n)

-- The whole number below -x, for an x that is not whole and lies above n.
abbrev pub below : ℤ → ℤ
below (pos n) = negsuc n
below (negsuc n) = pos n

abbrev pub negate_real : Real → Real
negate_real v =
    if is_zero v.above
    then record v { whole = negate_ℤ v.whole }
    else record v { whole = below v.whole; above = v.out_of - v.above }

-- The mode that does for -x what the mode does for x.
abbrev pub mirrored : RoundingMode → RoundingMode
mirrored half_up = half_up
mirrored half_down = half_down
mirrored half_even = half_even
mirrored up = up
mirrored down = down
mirrored ceiling = floor
mirrored floor = ceiling

rounded-below :
    (n : ℤ) (a b : ℕ) (mode : RoundingMode)
    → 0 < a
    → a < b
    → rounded (below n) (2 * (b - a) == b) (ltb b (2 * (b - a))) (mirrored mode)
      ≡ negate_ℤ (rounded n (2 * a == b) (ltb b (2 * a)) mode)
unfolding ◌+ℤ◌
rounded-below (pos n) a b half_up p q = ground arith
rounded-below (pos n) a b half_down p q = ground arith
rounded-below (pos n) a b half_even p q = ground arith
rounded-below (pos n) a b up p q = ground arith
rounded-below (pos n) a b down p q = ground arith
rounded-below (pos n) a b ceiling p q = ground arith
rounded-below (pos n) a b floor p q = ground arith
rounded-below (negsuc n) a b half_up p q = ground arith
rounded-below (negsuc n) a b half_down p q = ground arith
rounded-below (negsuc n) a b half_even p q = ground arith
rounded-below (negsuc n) a b up p q = ground arith
rounded-below (negsuc n) a b down p q = ground arith
rounded-below (negsuc n) a b ceiling p q = ground arith
rounded-below (negsuc n) a b floor p q = ground arith

-- Whole, or more than 1 in size: where the remainders of x and -x are exact.
abbrev pub IsAway : Real → Type 0
IsAway v = (v.above ≡ 0) ⊎ ((v.whole ≢ pos 0) × (v.whole ≢ negsuc 0))

module _ (remainders : Remainders) where
  round-above :
      (n : ℤ) (a b : ℕ) (mode : RoundingMode)
      → 0 < a
      → n ≢ negsuc 0
      → round_to_integer remainders (record { whole = n; above = a; out_of = b }) mode
        ≡ rounded n (2 * a == b) (ltb b (2 * a)) mode
  unfolding round_to_integer
  round-above n zero b mode h ne = absurd (omega arith)
  round-above n (suc a) b mode h ne =
      ap (λ (p : ℕ × ℕ). rounded n (2 * p.0 == p.1) (ltb p.1 (2 * p.0)) mode)
        (remainders.remainder_exact (record { whole = n; above = suc a; out_of = b }) ne)

  below-ne : (n : ℤ) → n ≢ pos 0 → below n ≢ negsuc 0
  below-ne (pos n) h e = h (ap below e)
  below-ne (negsuc n) h e = cc

  round-parts :
      (n : ℤ) (a b : ℕ) (mode : RoundingMode)
      → a < b
      → IsAway (record { whole = n; above = a; out_of = b })
      → round_to_integer remainders
          (negate_real (record { whole = n; above = a; out_of = b }))
          (mirrored mode)
        ≡ negate_ℤ (round_to_integer remainders (record { whole = n; above = a; out_of = b }) mode)
  unfolding round_to_integer
  round-parts n zero b mode h away = refl
  round-parts n (suc a) b mode h (inl none_above) = absurd (omega arith)
  round-parts n (suc a) b mode h (inr (ne, ne_neg)) =
      round-above (below n) (b - suc a) b (mirrored mode) (omega arith) (below-ne n ne)
      ∙ rounded-below n (suc a) b mode (omega arith) h
      ∙ ap negate_ℤ (sym (round-above n (suc a) b mode (omega arith) ne_neg))

  -- When subtracting the floor is exact for a floor other than -1, rounding the opposite of a
  -- number that is whole or above 1 in size gives the opposite of the number rounded, in the same
  -- mode, or, for the ceiling and the floor, in the other of the two.
  pub round_to_integer-negate :
      (v : Real) (mode : RoundingMode)
      → IsReal v
      → IsAway v
      → round_to_integer remainders (negate_real v) (mirrored mode)
        ≡ negate_ℤ (round_to_integer remainders v mode)
  round_to_integer-negate v mode h away = round-parts v.whole v.above v.out_of mode h away
