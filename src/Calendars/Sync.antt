-- ===== src/Calendars/Sync.antt =====
-- packages/calendars/src/sync.ts. Identifiers and titles are numbers; a moment is a whole number of
-- milliseconds counted from one before every moment in use, so that the window of a sync starts
-- after it. A busy period is an interval of packages/clock.
pub mod Busy
use mortar.Prelude.{
  ℕ, ◌+◌, ◌-◌, max, Bool, true, false, not, ◌&&◌, ◌||◌, Option, none, some, List, [], ◌∷◌, any,
  filter, map, ltb, leb, ◌==◌, if◌then◌else◌,
}
use mortar.Prelude.Sort.{sort_by}
use mortar.Clock.Interval.{Interval, starts_after}

pub record CalendarEvent : Type 0 where
  pub external_id : ℕ
  pub starts_at : ℕ
  pub ends_at : ℕ
  pub title : ℕ
  pub busy : Bool
  pub cancelled : Bool

pub record PushedCopy : Type 0 where
  pub external_id : ℕ
  pub starts_at : ℕ
  pub ends_at : ℕ
  pub title : ℕ

pub data Drift : Type 0 where
  in_step : Drift
  edited : CalendarEvent → Drift
  deleted : Drift
  missing : Drift

abbrev pub is_same : PushedCopy → CalendarEvent → Bool
is_same copy theirs =
    theirs.starts_at == copy.starts_at
    && theirs.ends_at == copy.ends_at
    && theirs.title == copy.title

unfoldable pub drift_of : Option PushedCopy → Option CalendarEvent → Drift
drift_of none theirs = missing
drift_of (some copy) none = deleted
drift_of (some copy) (some theirs) =
    if theirs.cancelled then deleted else (if is_same copy theirs then in_step else edited theirs)

abbrev pub has : List ℕ → ℕ → Bool
has ours id = any (λ o. o == id) ours

unfoldable pub blocks_time : CalendarEvent → List ℕ → Bool
blocks_time event ours =
    if has ours event.external_id
    then false
    else (if event.cancelled
        then false
        else (if not event.busy then false else ltb event.starts_at event.ends_at))

abbrev pub period : CalendarEvent → Interval
period event = record { start = event.starts_at; end = event.ends_at }

-- The loop over the sorted periods, with the last one that it has pushed.
unfoldable pub absorb : Interval → List Interval → List Interval
absorb last [] = last ∷ []
absorb last (p ∷ ps) =
    let joined = absorb (record last { end = max last.end p.end }) ps in
    let apart = last ∷ absorb p ps in if leb p.start last.end then joined else apart

unfoldable pub merged : List Interval → List Interval
unfolding absorb
merged [] = []
merged (p ∷ ps) = absorb p ps

unfoldable pub busy_from : List CalendarEvent → List ℕ → List Interval
unfolding merged sort_by blocks_time
busy_from events ours =
    merged (sort_by starts_after (map period (filter (λ event. blocks_time event ours) events)))

abbrev pub sync_behind : ℕ
sync_behind = 1209600000

abbrev pub sync_ahead : ℕ
sync_ahead = 7776000000

abbrev pub sync_window : ℕ → Interval
sync_window now = record { start = now - sync_behind; end = now + sync_ahead }

-- An appointment, by when it starts and whether it is cancelled.
unfoldable pub should_push : ℕ → Bool → ℕ → Bool
should_push starts_at cancelled now =
    if cancelled
    then false
    else leb (sync_window now).start starts_at && leb starts_at (sync_window now).end

pub data Health : Type 0 where
  working : Health
  wobbling : Health
  broken : Health

unfoldable pub health_of : ℕ → Bool → Health
health_of consecutive_failures revoked =
    if revoked
    then broken
    else (if leb 3 consecutive_failures
        then broken
        else (if consecutive_failures == 0 then working else wobbling))
