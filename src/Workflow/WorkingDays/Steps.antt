-- ===== src/Workflow/WorkingDays/Steps.antt =====
-- The loops of packages/workflow/src/machine/working-days.ts, step by step.
use mortar.Prelude.{
  ℕ, zero, suc, ◌+◌, ◌-◌, ◌*◌, ◌/◌, ◌≤◌, ◌<◌, ◌≡◌, ◌⊎◌, inl, inr, refl, sym, subst, ◌∙◌, Bool, true,
  false, ◌&&◌, arith, Bool-cases, if◌then◌else◌,
}
use mortar.Prelude.Int.{ℤ, pos, ◌+ℤ◌, ltb_ℤ, leb_ℤ, pos_part, neg_part, +ℤ_parts}
use mortar.Workflow.WorkingDays.{
  WorkingCalendar, LocalDay, Found, at, no_working_days, is_working_day, walk, count_days, day,
}

-- So many steps on from an instant.
abbrev pub advance : ℤ → ℕ → ℤ → ℤ
advance step zero c = c
advance step (suc k) c = advance step k (c +ℤ step)

abbrev pub one_if : Bool → ℕ
one_if true = 1
one_if false = 0

pub advance-parts :
    (k : ℕ) (c : ℤ)
    → pos_part (advance (pos day) k c) + neg_part c
      ≡ neg_part (advance (pos day) k c) + pos_part c + k * 86400000
advance-parts zero c = omega arith
advance-parts (suc k) c = omega (arith, advance-parts k (c +ℤ pos day), +ℤ_parts c (pos day))

module _ (local_day : ℕ → ℤ → LocalDay) (calendar : WorkingCalendar) where
  abbrev pub works : ℤ → Bool
  works = is_working_day local_day calendar

  -- The working ones among so many steps on from an instant, which is not counted itself.
  abbrev pub worked : ℤ → ℕ → ℤ → ℕ
  worked step zero c = 0
  worked step (suc k) c = one_if (works (c +ℤ step)) + worked step k (c +ℤ step)

  -- What a walk of at most `rounds` steps finds.
  abbrev pub Reached : ℤ → ℕ → ℕ → ℤ → Found → Type 0
  Reached step rounds n c found =
      ((k : ℕ) × (found ≡ at (advance step k c))
        × (k ≤ rounds)
        × (worked step k c ≡ n)
        × ((k ≡ 0) ⊎ (works (advance step k c) ≡ true)))
      ⊎ ((found ≡ no_working_days) × (worked step rounds c < n))

  Reached-later :
      (step : ℤ) (rounds n n' : ℕ) (c : ℤ) (found : Found)
      → one_if (works (c +ℤ step)) + n' ≡ n
      → (n' ≡ 0 → works (c +ℤ step) ≡ true)
      → Reached step rounds n' (c +ℤ step) found
      → Reached step (suc rounds) n c found
  Reached-later step rounds n n' c found e last (inl (zero, f, b, w, l)) =
      inl (1, f, omega arith, omega arith, inr (last (sym w)))
  Reached-later step rounds n n' c found e last (inl (suc k, f, b, w, inl l)) = absurd (omega arith)
  Reached-later step rounds n n' c found e last (inl (suc k, f, b, w, inr l)) =
      inl (suc (suc k), f, omega arith, omega arith, inr l)
  Reached-later step rounds n n' c found e last (inr (f, w)) = inr (f, omega arith)

  walk-step :
      (step : ℤ) (rounds n : ℕ) (c : ℤ) (b : Bool)
      → works (c +ℤ step) ≡ b
      → walk local_day calendar (suc rounds) step (suc n) c
        ≡ walk local_day calendar rounds step (if b then n else suc n) (c +ℤ step)
  unfolding walk
  walk-step step rounds n c b e = rw (← e)

  pub walk-Reached :
      (step : ℤ) (rounds n : ℕ) (c : ℤ)
      → Reached step rounds n c (walk local_day calendar rounds step n c)
  walk-Reached step zero zero c = unfold walk in inl (0, refl, omega arith, refl, inl refl)
  walk-Reached step (suc rounds) zero c = unfold walk in inl (0, refl, omega arith, refl, inl refl)
  walk-Reached step zero (suc n) c = unfold walk in inr (refl, omega arith)
  walk-Reached step (suc rounds) (suc n) c =
      let next = c +ℤ step in
      elim (Bool-cases (works next)) [
        | inl e ↦
            subst (Reached step (suc rounds) (suc n) c) (sym (walk-step step rounds n c true e)) (
              Reached-later step rounds (suc n) n c (walk local_day calendar rounds step n next)
                (rw e (omega arith)) (λ _. e) (walk-Reached step rounds n next))
        | inr e ↦
            subst (Reached step (suc rounds) (suc n) c) (sym (walk-step step rounds n c false e)) (
              Reached-later step rounds (suc n) (suc n) c
                (walk local_day calendar rounds step (suc n) next) (rw e (omega arith))
                (λ h. absurd (omega arith)) (walk-Reached step rounds (suc n) next))
      ]

  -- Past the later of the two, no round counts.
  count-past :
      (rounds : ℕ) (c later : ℤ) (d : ℕ)
      → ltb_ℤ c later ≡ false
      → count_days local_day calendar rounds c later d ≡ d
  unfolding count_days
  count-past zero c later d h = refl
  count-past (suc rounds) c later d h = rw h

  count-step :
      (rounds : ℕ) (c later : ℤ) (d : ℕ) (b w : Bool)
      → ltb_ℤ c later ≡ true
      → leb_ℤ (c +ℤ pos day) later ≡ b
      → works (c +ℤ pos day) ≡ w
      → count_days local_day calendar (suc rounds) c later d
        ≡ count_days local_day calendar rounds (c +ℤ pos day) later (if b && w then suc d else d)
  unfolding count_days
  count-step rounds c later d b w h k e = rw h (rw k (rw e))

  -- With a round for each day between, and one more, every day between is counted.
  pub count_days-worked :
      (rounds g : ℕ) (c later : ℤ) (d : ℕ)
      → pos_part later + neg_part c ≡ neg_part later + pos_part c + g
      → g / 86400000 < rounds
      → count_days local_day calendar rounds c later d ≡ d + worked (pos day) (g / 86400000) c
  count_days-worked zero g c later d e h = absurd (omega arith)
  count_days-worked (suc rounds) g c later d e h = elim (Bool-cases (ltb_ℤ c later)) [
    | inr same ↦
        let none_left : g / 86400000 ≡ 0 = ground arith in
        count-past (suc rounds) c later d same ∙ rw none_left (omega arith)
    | inl before ↦ elim (Bool-cases (leb_ℤ (c +ℤ pos day) later)) [
      | inl more ↦
          let parts = +ℤ_parts c (pos day) in
          let days : g / 86400000 ≡ suc ((g - 86400000) / 86400000) = ground arith in
          let shorter : pos_part later + neg_part (c +ℤ pos day)
              ≡ neg_part later + pos_part (c +ℤ pos day) + (g - 86400000) =
            ground arith in
          let counted = λ (n : ℕ).
            count_days-worked rounds (g - 86400000) (c +ℤ pos day) later n shorter (omega arith) in
          elim (Bool-cases (works (c +ℤ pos day))) [
            | inl w ↦
                count-step rounds c later d true true before more w
                ∙ counted (suc d)
                ∙ rw days (rw w (omega arith))
            | inr w ↦
                count-step rounds c later d true false before more w
                ∙ counted d
                ∙ rw days (rw w (omega arith))
          ]
      | inr past ↦
          let parts = +ℤ_parts c (pos day) in
          let none_left : g / 86400000 ≡ 0 = ground arith in
          let beyond : ltb_ℤ (c +ℤ pos day) later ≡ false = ground arith in
          count-step rounds c later d false (works (c +ℤ pos day)) before past refl
          ∙ count-past rounds (c +ℤ pos day) later d beyond
          ∙ rw none_left (omega arith)
    ]
  ]
