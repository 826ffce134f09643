-- ===== src/Workflow/WorkingDays/Tests.antt =====
-- Days and weekdays in packages/workflow/src/machine/working-days.ts, and a calendar to try it on.
use mortar.Prelude.{ℕ, ◌/◌, ◌%◌, ◌≡◌, refl, [], ◌∷◌, true}
use mortar.Prelude.Int.{ℤ, pos, negsuc, ◌+ℤ◌}
use mortar.Workflow.WorkingDays.{
  WorkingCalendar, LocalDay, at, whole_days, step_of, is_working_day, walk, add_working_days,
  working_days_between,
}
use mortar.Workflow.WorkingDays.Steps.{Reached}
use mortar.Workflow.WorkingDays.Counted.{
  working_days_between-add_working_days, add_working_days-Reached,
}

-- A calendar that works five days of seven, with no holidays; day 0 is a Sunday.
abbrev weekday_of : ℕ → ℤ → LocalDay
weekday_of zone (pos t) = record { date = t / 86400000; weekday = t / 86400000 % 7 }
weekday_of zone (negsuc t) = record { date = 0; weekday = 0 }

abbrev five_days : WorkingCalendar
five_days = record { weekend = 0 ∷ 6 ∷ []; holidays = []; time_zone = 0 }

abbrev friday : ℤ
friday = pos 432000000

abbrev tuesday : ℤ
tuesday = pos 777600000

two_days : add_working_days weekday_of five_days friday (whole_days (pos 2)) ≡ at tuesday
unfolding add_working_days walk is_working_day ◌+ℤ◌
two_days = refl

two_days_back : add_working_days weekday_of five_days tuesday (whole_days (negsuc 1)) ≡ at friday
unfolding add_working_days walk is_working_day ◌+ℤ◌
two_days_back = refl

tuesday_works : is_working_day weekday_of five_days tuesday ≡ true
unfolding is_working_day
tuesday_works = refl

working_days_between-add_working_days_example :
    working_days_between weekday_of five_days tuesday friday ≡ negsuc 1
working_days_between-add_working_days_example =
    working_days_between-add_working_days weekday_of five_days tuesday friday (negsuc 1)
      (rw tuesday_works) two_days_back

add_working_days-Reached_example :
    Reached weekday_of five_days
      (step_of (pos 2))
      3675
      2
      friday
      (add_working_days weekday_of five_days friday (whole_days (pos 2)))
add_working_days-Reached_example = add_working_days-Reached weekday_of five_days friday (pos 2)
