-- ===== src/Messaging/Quiet/Allowed.antt =====
-- When a message that comes due in quiet hours may be sent.
use mortar.Prelude.{
  ℕ, zero, suc, ◌+◌, ◌*◌, ◌/◌, ◌≤◌, ◌<◌, ◌≡◌, refl, sym, ap, ◌∙◌, ◌⊎◌, inl, inr, true, false, ◌==◌,
  ==_iff, arith, Bool-cases,
}
use mortar.Messaging.Quiet.{QuietHours, LocalHour, is_quiet, next_hour, step_from, next_allowed}

-- The full hours of UTC after an instant, counted from 1.
abbrev pub full_hour : ℕ → ℕ → ℕ
full_hour at k = (at / 3600000 + k) * 3600000

next_hour-full_hour : (at k : ℕ) → next_hour (full_hour at k) ≡ full_hour at (k + 1)
next_hour-full_hour at k = omega arith

module _ (hour_at : LocalHour) (quiet : QuietHours) (at : ℕ) where
  -- The first full hour from the `start`th on, before the `end`th, that is not quiet.
  abbrev pub FirstAllowed : ℕ → ℕ → ℕ → Type 0
  FirstAllowed start end answer =
      (k : ℕ) × (start ≤ k)
      × (k < end)
      × (answer ≡ full_hour at k)
      × (is_quiet hour_at (full_hour at k) quiet ≡ false)
      × ((i : ℕ) → start ≤ i → i < k → is_quiet hour_at (full_hour at i) quiet ≡ true)

  abbrev pub AllQuiet : ℕ → ℕ → Type 0
  AllQuiet start end =
      (i : ℕ) → start ≤ i → i < end → is_quiet hour_at (full_hour at i) quiet ≡ true

  earlier :
      (start k : ℕ)
      → is_quiet hour_at (full_hour at start) quiet ≡ true
      → AllQuiet (start + 1) k
      → AllQuiet start k
  earlier start k e h i a b = elim (Bool-cases (i == start)) [
    | inl d ↦ ap (λ j. is_quiet hour_at (full_hour at j) quiet) ((==_iff i start).0 d) ∙ e
    | inr d ↦ h i (ground (arith, d)) b
  ]

  step_from-FirstAllowed :
      (left k candidate : ℕ)
      → next_hour candidate ≡ full_hour at k
      → FirstAllowed k (k + left) (step_from hour_at quiet at left candidate)
        ⊎ (AllQuiet k (k + left) × (step_from hour_at quiet at left candidate ≡ at))
  unfolding step_from
  step_from-FirstAllowed zero k candidate e = inr ((λ i a b. absurd (omega arith)), refl)
  step_from-FirstAllowed (suc left) k candidate e =
      elim (Bool-cases (is_quiet hour_at (next_hour candidate) quiet)) [
        | inl q ↦
            let here : is_quiet hour_at (full_hour at k) quiet ≡ true =
              ap (λ x. is_quiet hour_at x quiet) (sym e) ∙ q in
            rw q
              (elim (step_from-FirstAllowed left (k + 1) (next_hour candidate)
                (ap next_hour e ∙ next_hour-full_hour at k)) [
                  | inl (j, a, b, c, d, f) ↦
                      inl (j, omega arith, omega arith, c, d, earlier k j here f)
                  | inr (f, c) ↦
                      inr (earlier k (k + suc left) here (λ i a b. f i a (omega arith)), c)
                ])
        | inr n ↦ rw n (
            inl (
              k,
              omega arith,
              omega arith,
              e,
              ap (λ x. is_quiet hour_at x quiet) (sym e) ∙ n,
              (λ i a b. absurd (omega arith)),
            ))
      ]

  -- The next moment a message may be sent is the instant itself when that is not quiet; otherwise
  -- it is the first full hour within 48 that is not quiet, and where all 48 are quiet it is the
  -- instant itself.
  pub next_allowed_lem :
      ((is_quiet hour_at at quiet ≡ false) × (next_allowed hour_at at quiet ≡ at))
      ⊎ ((is_quiet hour_at at quiet ≡ true)
          × (FirstAllowed 1 49 (next_allowed hour_at at quiet)
              ⊎ (AllQuiet 1 49 × (next_allowed hour_at at quiet ≡ at))))
  unfolding next_allowed
  next_allowed_lem = elim (Bool-cases (is_quiet hour_at at quiet)) [
    | inl q ↦ rw q (inr (refl, step_from-FirstAllowed 48 1 at (omega arith)))
    | inr n ↦ rw n (inl (refl, refl))
  ]
