-- ===== src/Calendars/Pull.antt =====
-- `pull` of packages/calendars/src/nestjs/calendars.service.ts, for a connection that is active and
-- pulls. The provider is a parameter: what a read of its calendar answers, and an upsert, which
-- throws or gives an identifier. The rows of calendar_link of the connection are a list.

pub mod Rules
pub mod Anew
use mortar.Prelude.{
  ℕ, ◌+◌, Bool, true, false, Option, none, some, List, [], ◌∷◌, ◌++◌, map, find, ◌==◌,
  if◌then◌else◌,
}
use mortar.Clock.Interval.{Interval}
use mortar.Calendars.Sync.{
  CalendarEvent, PushedCopy, Drift, in_step, edited, deleted, missing, drift_of, busy_from,
  sync_window,
}

pub record CalendarLink : Type 0 where
  pub external_id : ℕ
  pub starts_at : ℕ
  pub ends_at : ℕ
  pub title : ℕ
  pub drifted : Bool

pub data Timezone : Type 0 where
  utc : Timezone
  named : ℕ → Timezone

-- What an upsert is given; no identifier asks for a new event.
pub record Write : Type 0 where
  pub external_id : Option ℕ
  pub starts_at : ℕ
  pub ends_at : ℕ
  pub title : ℕ
  pub description : Option ℕ
  pub timezone : Timezone

pub record Provider : Type 1 where
  pub Calendar : Type 0
  pub events : Calendar → ℕ → ℕ → List CalendarEvent
  pub upsert : Calendar → Write → Option (Calendar × ℕ)

abbrev pub copy_of : CalendarLink → PushedCopy
copy_of link = record {
  external_id = link.external_id;
  starts_at = link.starts_at;
  ends_at = link.ends_at;
  title = link.title;
}

-- `byId.get`: of two events with one identifier a map keeps the last.
abbrev pub by_id : List CalendarEvent → ℕ → Option CalendarEvent
by_id [] id = none
by_id (event ∷ events) id = elim (by_id events id) [
  | some later ↦ some later
  | none ↦ if event.external_id == id then some event else none
]

unfoldable pub drift_in : List CalendarEvent → CalendarLink → Drift
unfolding drift_of
drift_in events link = drift_of (some (copy_of link)) (by_id events link.external_id)

abbrev pub kept_id : Drift → CalendarLink → Option ℕ
kept_id deleted link = none
kept_id in_step link = some link.external_id
kept_id missing link = some link.external_id
kept_id (edited theirs) link = some link.external_id

abbrev pub write_of : Drift → CalendarLink → Write
write_of drift link = record {
  external_id = kept_id drift link;
  starts_at = link.starts_at;
  ends_at = link.ends_at;
  title = link.title;
  description = none;
  timezone = utc;
}

module _ (provider : Provider) where
  open provider use {Calendar, events, upsert}

  -- Where the loop over the links stands: the calendar, the rows gone through, `ours`, what was
  -- written, and whether an upsert threw.
  pub record Restored : Type 0 where
    pub calendar : Calendar
    pub links : List CalendarLink
    pub ours : List ℕ
    pub writes : List Write
    pub threw : Bool

  abbrev pub before : CalendarLink → Restored → Restored
  before link rest = record rest { links = link ∷ rest.links }

  abbrev pub wrote : CalendarLink → Write → ℕ → Restored → Restored
  wrote link write id rest = record rest {
    links = record link { external_id = id; drifted = true } ∷ rest.links;
    writes = write ∷ rest.writes;
  }

  abbrev pub is_in_step : Drift → Bool
  is_in_step in_step = true
  is_in_step deleted = false
  is_in_step missing = false
  is_in_step (edited theirs) = false

  unfoldable pub restore : List CalendarEvent → Calendar → List ℕ → List CalendarLink → Restored
  restore seen calendar ours [] = record {
    calendar = calendar;
    links = [];
    ours = ours;
    writes = [];
    threw = false;
  }
  restore seen calendar ours (link ∷ links) = elim (is_in_step (drift_in seen link)) [
    | true ↦ before link (restore seen calendar ours links)
    | false ↦ elim (upsert calendar (write_of (drift_in seen link) link)) [
      | none ↦ record {
        calendar = calendar;
        links = link ∷ links;
        ours = ours;
        writes = [];
        threw = true;
      }
      | some (next, id) ↦
          wrote link (write_of (drift_in seen link) link) id (restore seen next (id ∷ ours) links)
    ]
  ]

  pub record Pulled : Type 0 where
    pub calendar : Calendar
    pub links : List CalendarLink
    pub writes : List Write
    -- `null` when an upsert threw
    pub periods : Option (List Interval)

  unfoldable pub pull : Calendar → List CalendarLink → ℕ → Pulled
  unfolding restore busy_from
  pull calendar links now =
      let window = sync_window now in
      let seen = events calendar window.start window.end in
      let done = restore seen calendar (map (λ link. link.external_id) links) links in
      record {
        calendar = done.calendar;
        links = done.links;
        writes = done.writes;
        periods = if done.threw then none else some (busy_from seen done.ours);
      }
