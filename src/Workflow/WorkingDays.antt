-- ===== src/Workflow/WorkingDays.antt =====
-- packages/workflow/src/machine/working-days.ts. An instant is a whole number of milliseconds, counted
-- from a moment that may lie after it. The date and the weekday of an instant in a time zone come
-- from `Intl.DateTimeFormat`, a parameter; dates, weekdays and zones are numbers.

pub mod Steps
pub mod Counted
mod Tests
use mortar.Prelude.{
  ℕ, zero, suc, ◌+◌, ◌*◌, ◌/◌, ◌≡◌, Bool, true, false, not, ◌&&◌, List, [], ◌∷◌, any, ltb, leb,
  ◌==◌, if◌then◌else◌,
}
use mortar.Prelude.Int.{ℤ, pos, negsuc, ◌+ℤ◌, ◌-ℤ◌, ltb_ℤ, leb_ℤ, neg_part, pos_part}

pub record WorkingCalendar : Type 0 where
  pub weekend : List ℕ
  pub holidays : List ℕ
  pub time_zone : ℕ

pub record LocalDay : Type 0 where
  pub date : ℕ
  pub weekday : ℕ

pub data Asked : Type 0 where
  whole_days : ℤ → Asked
  -- and whether it is below 0
  not_whole : Bool → Asked

pub data Found : Type 0 where
  at : ℤ → Found
  -- the two range errors of `addWorkingDays`, and that of `heldSinceCutoff`
  not_a_whole_number : Found
  no_working_days : Found
  negative_threshold : Found

abbrev pub includes : List ℕ → ℕ → Bool
includes xs n = any (λ x. x == n) xs

-- 24 * 60 * 60 * 1000
abbrev pub day : ℕ
day = 86400000

abbrev pub size : ℤ → ℕ
size (pos n) = n
size (negsuc n) = suc n

abbrev pub is_zero : ℤ → Bool
is_zero (pos zero) = true
is_zero (pos (suc n)) = false
is_zero (negsuc n) = false

abbrev pub opposite : ℕ → ℤ
opposite zero = pos zero
opposite (suc n) = negsuc n

-- `count > 0 ? DAY : -DAY`
abbrev pub step_of : ℤ → ℤ
step_of (pos n) = pos day
step_of (negsuc n) = negsuc 86399999

-- A round for each day between the two, and one more.
abbrev pub rounds_between : ℤ → ℤ → ℕ
rounds_between earlier later = suc (pos_part (later -ℤ earlier) / 86400000)

module _ (local_day : ℕ → ℤ → LocalDay) (calendar : WorkingCalendar) where
  unfoldable pub is_working_day : ℤ → Bool
  is_working_day instant =
      let local = local_day calendar.time_zone instant in
      if includes calendar.weekend local.weekday
      then false
      else not (includes calendar.holidays local.date)

  -- The loop, with what is left of its limit of steps: the round that finds none left throws.
  unfoldable pub walk : ℕ → ℤ → ℕ → ℤ → Found
  walk rounds step zero cursor = at cursor
  walk zero step (suc remaining) cursor = no_working_days
  walk (suc rounds) step (suc remaining) cursor =
      let next = cursor +ℤ step in
      walk rounds step (if is_working_day next then remaining else suc remaining) next

  -- `steps` runs from 0 to `limit`.
  unfoldable pub add_working_days : ℤ → Asked → Found
  unfolding walk
  add_working_days from (not_whole below) = not_a_whole_number
  add_working_days from (whole_days count) =
      if is_zero count
      then at from
      else walk (suc (size count * 7 + 3660)) (step_of count) (size count) from

  -- The loop of `workingDaysBetween`, for at most so many rounds: each is a day.
  unfoldable pub count_days : ℕ → ℤ → ℤ → ℕ → ℕ
  count_days zero cursor later days = days
  count_days (suc rounds) cursor later days =
      let next = cursor +ℤ pos day in
      let rest =
        count_days rounds next later
          (if leb_ℤ next later && is_working_day next then suc days else days) in
      if ltb_ℤ cursor later then rest else days

  unfoldable pub working_days_between : ℤ → ℤ → ℤ
  working_days_between from to =
      if ltb_ℤ from to
      then pos (count_days (rounds_between from to) from to 0)
      else (if ltb_ℤ to from
          then opposite (count_days (rounds_between to from) to from 0)
          else pos 0)

  unfoldable pub held_since_cutoff : ℤ → Asked → Found
  unfolding add_working_days
  held_since_cutoff now (not_whole below) =
      if below then negative_threshold else add_working_days now (not_whole below)
  held_since_cutoff now (whole_days (pos n)) = add_working_days now (whole_days (opposite n))
  held_since_cutoff now (whole_days (negsuc n)) = negative_threshold
