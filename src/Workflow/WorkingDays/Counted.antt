-- ===== src/Workflow/WorkingDays/Counted.antt =====
-- What packages/workflow/src/machine/working-days.ts finds and counts.
use mortar.Prelude.{
  ℕ, zero, suc, ◌+◌, ◌*◌, ◌/◌, ◌<◌, ◌≡◌, inl, inr, refl, ap, sym, subst, ◌∙◌, Bool, true, false,
  ◌||◌, not, arith,
}
use mortar.Prelude.Int.{
  ℤ, pos, negsuc, ◌+ℤ◌, ltb_ℤ, pos_part, neg_part, +ℤ_parts, -ℤ_parts, eq_of_parts,
}
use mortar.Workflow.WorkingDays.{
  WorkingCalendar, LocalDay, at, no_working_days, whole_days, count_days, day, size, step_of,
  opposite, add_working_days, working_days_between, rounds_between,
}
use native.Mathlib.Nat.{zero-add}
use mortar.Workflow.WorkingDays.Steps.{
  advance, advance-parts, one_if, worked, works, Reached, walk-Reached, count_days-worked,
}

abbrev pub is_negative : ℤ → Bool
is_negative (pos n) = false
is_negative (negsuc n) = true

abbrev back : ℤ
back = negsuc 86399999

back-parts :
    (k : ℕ) (c : ℤ)
    → neg_part (advance back k c) + pos_part c
      ≡ pos_part (advance back k c) + neg_part c + k * 86400000
back-parts zero c = omega arith
back-parts (suc k) c = omega (arith, back-parts k (c +ℤ back), +ℤ_parts c back)

advance-back : (k : ℕ) (c : ℤ) → advance back k c +ℤ pos (k * 86400000) ≡ c
advance-back k c =
    eq_of_parts (advance back k c +ℤ pos (k * 86400000)) c
      (omega (arith, back-parts k c, +ℤ_parts (advance back k c) (pos (k * 86400000))))

advance-forth : (k : ℕ) (c : ℤ) → advance (pos day) k c ≡ c +ℤ pos (k * 86400000)
advance-forth k c =
    eq_of_parts (advance (pos day) k c) (c +ℤ pos (k * 86400000))
      (omega (arith, advance-parts k c, +ℤ_parts c (pos (k * 86400000))))

module _ (local_day : ℕ → ℤ → LocalDay) (calendar : WorkingCalendar) where
  abbrev working : ℤ → Bool
  working = works local_day calendar

  -- Adding a whole number of working days, forwards or backwards, either ends at an instant some
  -- days on, no more than seven for each day asked and 3661, with exactly so many working days on
  -- the way and the last of them a working day unless none was asked, or is refused, and then the
  -- days that it may look at hold fewer working ones.
  pub add_working_days-Reached :
      (from count : ℤ)
      → Reached local_day calendar
          (step_of count)
          (suc (size count * 7 + 3660))
          (size count)
          from
          (add_working_days local_day calendar from (whole_days count))
  unfolding add_working_days
  add_working_days-Reached from (pos zero) = inl (0, refl, omega arith, refl, inl refl)
  add_working_days-Reached from (pos (suc n)) =
      walk-Reached local_day calendar (pos day) (suc (suc n * 7 + 3660)) (suc n) from
  add_working_days-Reached from (negsuc n) =
      walk-Reached local_day calendar back (suc (suc n * 7 + 3660)) (suc n) from

  abbrev days_from : ℤ → ℕ → ℕ
  days_from c g = worked local_day calendar (pos day) (g / 86400000) c

  between-before :
      (from to : ℤ)
      → ltb_ℤ from to ≡ true
      → working_days_between local_day calendar from to
        ≡ pos (count_days local_day calendar (rounds_between from to) from to 0)
  unfolding working_days_between
  between-before from to h = rw h

  between-after :
      (from to : ℤ)
      → ltb_ℤ from to ≡ false
      → ltb_ℤ to from ≡ true
      → working_days_between local_day calendar from to
        ≡ opposite (count_days local_day calendar (rounds_between to from) to from 0)
  unfolding working_days_between
  between-after from to h k = rw h (rw k)

  between-same : (from : ℤ) → working_days_between local_day calendar from from ≡ pos 0
  unfolding working_days_between
  between-same from = let no_time : ltb_ℤ from from ≡ false = ground arith in rw no_time

  -- Between an instant and a later one, the working ones among the instants that lie whole days on
  -- from the earlier, up to the later, are counted; the other way round, the count has the other
  -- sign.
  pub working_days_between_lem :
      (from : ℤ) (g : ℕ)
      → (working_days_between local_day calendar from (from +ℤ pos g) ≡ pos (days_from from g))
        × (working_days_between local_day calendar (from +ℤ pos g) from
            ≡ opposite (days_from from g))
  working_days_between_lem from zero =
      let same : from ≡ from +ℤ pos 0 =
        eq_of_parts from (from +ℤ pos 0) (omega (arith, +ℤ_parts from (pos 0))) in
      (rw (sym same) (between-same from), rw (sym same) (between-same from))
  working_days_between_lem from (suc g) =
      let to = from +ℤ pos (suc g) in
      let parts = +ℤ_parts from (pos (suc g)) in
      let before : ltb_ℤ from to ≡ true = ground arith in
      let not_after : ltb_ℤ to from ≡ false = ground arith in
      let enough : suc g / 86400000 < rounds_between from to = omega (arith, -ℤ_parts to from) in
      let counted : count_days local_day calendar (rounds_between from to) from to 0
          ≡ days_from from (suc g) =
        count_days-worked local_day calendar (rounds_between from to) (suc g) from to 0
          (omega arith) enough
        ∙ zero-add (days_from from (suc g)) in
      (
        between-before from to before ∙ ap pos counted,
        between-after to from not_after before ∙ ap opposite counted,
      )

  worked-last :
      (step : ℤ) (k : ℕ) (c : ℤ)
      → worked local_day calendar step (suc k) c
        ≡ worked local_day calendar step k c + one_if (working (advance step (suc k) c))
  worked-last step zero c = omega arith
  worked-last step (suc k) c = omega (arith, worked-last step k (c +ℤ step))

  -- The way back passes the same instants, but for its ends.
  worked-back :
      (k : ℕ) (c : ℤ)
      → worked local_day calendar back k c + one_if (working c)
        ≡ worked local_day calendar (pos day) k (advance back k c)
          + one_if (working (advance back k c))
  worked-back zero c = omega arith
  worked-back (suc k) c =
      let t = advance back (suc k) c in
      let home : advance (pos day) (suc k) t ≡ c =
        advance-forth (suc k) t ∙ advance-back (suc k) c in
      let last = worked-last (pos day) k t in
      omega (arith, worked-back k (c +ℤ back), rw home at last)

  opposite-neg : (n : ℕ) → opposite (suc n) ≡ negsuc n
  opposite-neg n = refl

  to_reached :
      (from t : ℤ) (k : ℕ)
      → t ≡ from +ℤ pos (k * 86400000)
      → (working_days_between local_day calendar from t
          ≡ pos (worked local_day calendar (pos day) k from))
        × (working_days_between local_day calendar t from
            ≡ opposite (worked local_day calendar (pos day) k from))
  to_reached from t k e =
      let days : k * 86400000 / 86400000 ≡ k = omega arith in
      rw e (
        subst
          (λ d.
            (working_days_between local_day calendar from (from +ℤ pos (k * 86400000))
              ≡ pos (worked local_day calendar (pos day) d from))
            × (working_days_between local_day calendar (from +ℤ pos (k * 86400000)) from
                ≡ opposite (worked local_day calendar (pos day) d from)))
          days (working_days_between_lem from (k * 86400000)))

  at-injective : (a b : ℤ) → at a ≡ at b → a ≡ b
  at-injective a b h = cc

  at-ne : (a : ℤ) → at a ≡ no_working_days → ⊥
  at-ne a h = cc

  -- As many working days on from an instant, and as many between the two.
  between-forth :
      (from t : ℤ) (n : ℕ)
      → add_working_days local_day calendar from (whole_days (pos n)) ≡ at t
      → Reached local_day calendar (pos day) (suc (n * 7 + 3660)) n from (at t)
      → working_days_between local_day calendar from t ≡ pos n
  between-forth from t n e (inl (k, f, b, w, l)) =
      (to_reached from t k (at-injective t _ f ∙ advance-forth k from)).0 ∙ ap pos w
  between-forth from t n e (inr (f, w)) = absurd (at-ne t f)

  between-back :
      (from t : ℤ) (n : ℕ)
      → working from ≡ true
      → Reached local_day calendar back (suc (suc n * 7 + 3660)) (suc n) from (at t)
      → working_days_between local_day calendar from t ≡ negsuc n
  between-back from t n h (inl (zero, f, b, w, l)) = absurd (omega arith)
  between-back from t n h (inl (suc k, f, b, w, inl l)) = absurd (omega arith)
  between-back from t n h (inl (suc k, f, b, w, inr l)) =
      let reached : t ≡ advance back (suc k) from = at-injective t _ f in
      let home : from ≡ t +ℤ pos (suc k * 86400000) =
        sym (rw reached (advance-back (suc k) from)) in
      let passed = worked-back (suc k) from in
      let counted : worked local_day calendar (pos day) (suc k) t ≡ suc n =
        rw reached (omega (arith, rw (h, l) at passed)) in
      (to_reached t from (suc k) home).1 ∙ ap opposite counted
  between-back from t n h (inr (f, w)) = absurd (at-ne t f)

  -- When so many working days are added, or taken away from an instant that falls on a working
  -- day, the working days between the two instants are that number, with its sign.
  pub working_days_between-add_working_days :
      (from t count : ℤ)
      → (working from || not (is_negative count)) ≡ true
      → add_working_days local_day calendar from (whole_days count) ≡ at t
      → working_days_between local_day calendar from t ≡ count
  working_days_between-add_working_days from t (pos n) h e = between-forth from t n e (
      subst (Reached local_day calendar (pos day) (suc (n * 7 + 3660)) n from) e
        (add_working_days-Reached from (pos n)))
  working_days_between-add_working_days from t (negsuc n) h e =
      between-back from t n (ground arith) (
        subst (Reached local_day calendar back (suc (suc n * 7 + 3660)) (suc n) from) e
          (add_working_days-Reached from (negsuc n)))
