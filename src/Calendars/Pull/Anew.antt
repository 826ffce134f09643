-- ===== src/Calendars/Pull/Anew.antt =====
-- The copy of an old appointment in a pull of packages/calendars/src/nestjs/calendars.service.ts.
use mortar.Prelude.{ℕ, ◌≡◌, ◌≢◌, ◌⊎◌, ◌≤◌, ◌<◌, refl, none, some, List, [], ◌∷◌, All, arith}
use mortar.Calendars.Sync.{CalendarEvent, deleted, sync_window}
use mortar.Calendars.Pull.{CalendarLink, Write, utc, Provider, by_id, drift_in, restore, pull}
use mortar.Calendars.Pull.Rules.{answered}

module _ (provider : Provider) where
  open provider use {Calendar, upsert}

  -- A copy that no event answers is written out anew.
  module _ (calendar next : Calendar) (link : CalendarLink) (now id : ℕ) where
    abbrev pub anew : Write
    anew = record {
      external_id = none;
      starts_at = link.starts_at;
      ends_at = link.ends_at;
      title = link.title;
      description = none;
      timezone = utc;
    }

    not_answered :
        (seen : List CalendarEvent)
        → All (λ e. (sync_window now).start < e.ends_at) seen
        → All (λ e. (e.external_id ≢ link.external_id) ⊎ (e.ends_at ≡ link.ends_at)) seen
        → link.ends_at ≤ (sync_window now).start
        → by_id seen link.external_id ≡ none
    not_answered [] _ _ h = refl
    not_answered (e ∷ es) (p, ps) (q, qs) h = ground (arith, not_answered es ps qs h)

    drift-deleted :
        (seen : List CalendarEvent)
        → by_id seen link.external_id ≡ none
        → drift_in seen link ≡ deleted
    unfolding drift_in
    drift-deleted seen h = rw h

    restore-anew :
        (seen : List CalendarEvent) (ours : List ℕ)
        → drift_in seen link ≡ deleted
        → upsert calendar anew ≡ some (next, id)
        → (restore provider seen calendar ours (link ∷ [])).writes ≡ anew ∷ []
    unfolding restore
    restore-anew seen ours d given = rw (d, restore) (rw d (rw given (rw d)))

    -- When a calendar answers only events that end after the start of the window, and the copy of
    -- an appointment, if it is answered, ends when the appointment does, a pull of one appointment
    -- that ended by that start, whose upsert goes through, writes it out as a new event.
    pub pull-anew :
        All (λ e. (sync_window now).start < e.ends_at) (answered provider calendar now)
        → All
            (λ e. (e.external_id ≢ link.external_id) ⊎ (e.ends_at ≡ link.ends_at))
            (answered provider calendar now)
        → link.ends_at ≤ (sync_window now).start
        → upsert calendar anew ≡ some (next, id)
        → (pull provider calendar (link ∷ []) now).writes ≡ anew ∷ []
    unfolding pull
    pull-anew reads kept over given =
        restore-anew (answered provider calendar now) (link.external_id ∷ [])
          (drift-deleted (answered provider calendar now)
            (not_answered (answered provider calendar now) reads kept over))
          given
