-- ===== src/Messaging/Quiet.antt =====
-- packages/messaging/src/quiet.ts. Instants are milliseconds; the local hour at an instant in the
-- zone of the firm (`localTime`, by the time zone data of the runtime) is a parameter.
pub mod Allowed
use mortar.Prelude.{
  ℕ, zero, suc, ◌+◌, ◌*◌, ◌/◌, Bool, true, false, ◌&&◌, ◌||◌, ltb, leb, if◌then◌else◌,
}

pub record QuietHours : Type 0 where
  pub from : ℕ
  pub to : ℕ

abbrev pub default_quiet_hours : QuietHours
default_quiet_hours = record { from = 19; to = 9 }

-- The local hour at an instant.
abbrev pub LocalHour : Type 0
LocalHour = ℕ → ℕ

abbrev pub is_quiet : LocalHour → ℕ → QuietHours → Bool
is_quiet hour_at at quiet =
    if ltb quiet.from quiet.to
    then leb quiet.from (hour_at at) && ltb (hour_at at) quiet.to
    else leb quiet.from (hour_at at) || ltb (hour_at at) quiet.to

-- The next full hour of UTC.
abbrev pub next_hour : ℕ → ℕ
next_hour candidate = (candidate / 3600000) * 3600000 + 3600000

-- The loop, with so many steps left; `at` is what it answers when they run out.
unfoldable pub step_from : LocalHour → QuietHours → ℕ → ℕ → ℕ → ℕ
step_from hour_at quiet at zero candidate = at
step_from hour_at quiet at (suc left) candidate =
    let rest = step_from hour_at quiet at left (next_hour candidate) in
    if is_quiet hour_at (next_hour candidate) quiet then rest else next_hour candidate

unfoldable pub next_allowed : LocalHour → ℕ → QuietHours → ℕ
unfolding step_from
next_allowed hour_at at quiet =
    let later = step_from hour_at quiet at 48 at in if is_quiet hour_at at quiet then later else at
