-- ===== src/Calendars/Tests.antt =====
-- Events to try the theorems of packages/calendars on.
use mortar.Prelude.{
  ℕ, ◌+◌, ◌≡◌, refl, List, [], ◌∷◌, true, false, ◌&&◌, none, some, map, filter, length, ltb, arith,
  All,
}
use mortar.Clock.Interval.Covers.{covers}
use mortar.Clock.Interval.Normal.{IsNormal}
use mortar.Calendars.Sync.{CalendarEvent, busy_from}
use mortar.Calendars.Pull.{Provider, Write, utc, CalendarLink, pull, restore, drift_in}
use mortar.Calendars.Pull.Rules.{last_pushed, IsOurs, pull-IsOurs}
use mortar.Calendars.Pull.Anew.{anew, pull-anew}
use mortar.Calendars.Sync.Busy.{blocked, busy_from-covers}

abbrev meeting : ℕ → ℕ → ℕ → CalendarEvent
meeting id start end = record {
  external_id = id;
  starts_at = start;
  ends_at = end;
  title = 0;
  busy = true;
  cancelled = false;
}

-- Two that overlap, the copy of an appointment, and one of no duration.
abbrev diary : List CalendarEvent
diary = meeting 1 20 30 ∷ meeting 2 10 25 ∷ meeting 7 40 50 ∷ meeting 3 60 60 ∷ []

one_block : busy_from diary (7 ∷ []) ≡ record { start = 10; end = 30 } ∷ []
unfolding busy_from
one_block = refl

busy_from-covers_example :
    IsNormal (busy_from diary (7 ∷ []))
    × (covers 15 (busy_from diary (7 ∷ [])) ≡ blocked (7 ∷ []) 15 diary)
busy_from-covers_example = busy_from-covers (7 ∷ []) diary 15

-- A calendar of events, read as a provider reads it; each write gets the number of the next event.
abbrev ends_within : ℕ → ℕ → List CalendarEvent → List CalendarEvent
ends_within from to events = filter (λ e. ltb from e.ends_at && ltb e.starts_at to) events

abbrev added : List CalendarEvent → Write → List CalendarEvent × ℕ
added events w = (
  record {
    external_id = 100 + length events;
    starts_at = w.starts_at;
    ends_at = w.ends_at;
    title = w.title;
    busy = true;
    cancelled = false;
  }
      ∷ events,
  100 + length events,
)

abbrev book : Provider
book = record {
  Calendar = List CalendarEvent;
  events = λ c from to. ends_within from to c;
  upsert = λ c w. some (added c w);
}

abbrev link_at : ℕ → ℕ → ℕ → CalendarLink
link_at id start end = record {
  external_id = id;
  starts_at = start;
  ends_at = end;
  title = 0;
  drifted = false;
}

-- A moment that the window of a sync starts after, and one in the window.
abbrev start_of_use : ℕ
start_of_use = 1209600000

abbrev appointment : CalendarLink
appointment = link_at 7 40 50

abbrev moved : List CalendarEvent
moved = meeting 1 20 30 ∷ meeting 7 41 51 ∷ []

pull-IsOurs_example :
    (map last_pushed (pull book moved (appointment ∷ []) start_of_use).links
      ≡ last_pushed appointment ∷ [])
    × All (IsOurs (appointment ∷ [])) (pull book moved (appointment ∷ []) start_of_use).writes
pull-IsOurs_example = pull-IsOurs book moved (appointment ∷ []) start_of_use

pulled_periods :
    (pull book moved (appointment ∷ []) start_of_use).periods
    ≡ some (record { start = 20; end = 30 } ∷ [])
unfolding pull drift_in restore busy_from
pulled_periods = refl

-- The copy of an appointment that is over is in the calendar, and is written again.
pull-anew_example :
    (pull book (meeting 7 40 50 ∷ []) (appointment ∷ []) (start_of_use + 60)).writes
    ≡ anew book (meeting 7 40 50 ∷ []) [] appointment (start_of_use + 60) 0 ∷ []
pull-anew_example =
    pull-anew book (meeting 7 40 50 ∷ [])
      (added (meeting 7 40 50 ∷ []) (record {
        external_id = none;
        starts_at = 40;
        ends_at = 50;
        title = 0;
        description = none;
        timezone = utc;
      })).0
      appointment (start_of_use + 60) 101 tt tt (omega arith) refl
