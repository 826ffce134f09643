-- ===== src/Calendars/Pull/Rules.antt =====
-- The rules of packages/calendars/src/sync.ts, kept by a pull.
use mortar.Prelude.{
  ℕ, ◌≡◌, refl, ap, ◌∙◌, sym, inl, inr, Bool, true, false, ◌&&◌, Option, none, some, List, [], ◌∷◌,
  map, any, All, All-mono, arith, Bool-cases, Option-cases, ◌==◌, some-injective, ==_refl,
}
use mortar.Clock.Interval.{Interval}
use mortar.Clock.Interval.Covers.{covers}
use mortar.Calendars.Sync.{
  CalendarEvent, Drift, in_step, edited, deleted, missing, busy_from, sync_window, has, blocks_time,
}
use mortar.Calendars.Sync.Busy.{blocked, busy_from-covers}
use mortar.Calendars.Pull.{
  CalendarLink, Timezone, utc, named, Write, Provider, drift_in, write_of, kept_id, Restored,
  restore, pull, is_in_step, before, wrote,
}

-- What a link keeps of the appointment as it was last pushed.
pub record Pushed : Type 0 where
  pub starts_at : ℕ
  pub ends_at : ℕ
  pub title : ℕ

abbrev pub last_pushed : CalendarLink → Pushed
last_pushed link = record { starts_at = link.starts_at; ends_at = link.ends_at; title = link.title }

-- A new event, or the copy of this link.
abbrev pub is_new_or : ℕ → Option ℕ → Bool
is_new_or id none = true
is_new_or id (some other) = other == id

-- No description, and times in UTC.
abbrev pub is_bare : Option ℕ → Timezone → Bool
is_bare none utc = true
is_bare none (named zone) = false
is_bare (some text) zone = false

abbrev pub is_for : Write → CalendarLink → Bool
is_for w link =
    w.starts_at == link.starts_at
    && w.ends_at == link.ends_at
    && w.title == link.title
    && is_bare w.description w.timezone
    && is_new_or link.external_id w.external_id

abbrev pub IsOurs : List CalendarLink → Write → Type 0
IsOurs links w = any (λ link. is_for w link) links ≡ true

kept-is_new_or :
    (drift : Drift) (link : CalendarLink) → is_new_or link.external_id (kept_id drift link) ≡ true
kept-is_new_or deleted link = refl
kept-is_new_or in_step link = ==_refl link.external_id
kept-is_new_or missing link = ==_refl link.external_id
kept-is_new_or (edited theirs) link = ==_refl link.external_id

is_for-write_of : (drift : Drift) (link : CalendarLink) → is_for (write_of drift link) link ≡ true
is_for-write_of drift link =
    rw (==_refl link.starts_at, ==_refl link.ends_at, ==_refl link.title)
      (kept-is_new_or drift link)

module _ (provider : Provider) where
  open provider use {Calendar, events, upsert}

  -- The rule of the loop: no link left, a copy in step, an upsert that throws, one that goes through.
  module _ (seen : List CalendarEvent) (P : List ℕ → List CalendarLink → Restored provider → Type 0)
      (at_end : (calendar : Calendar) (ours : List ℕ)
        → P ours []
            (record { calendar = calendar; links = []; ours = ours; writes = []; threw = false }))
      (on_step : (ours : List ℕ) (link : CalendarLink) (links : List CalendarLink)
          (rest : Restored provider)
        → P ours links rest
        → P ours (link ∷ links) (before provider link rest))
      (on_throw : (calendar : Calendar) (ours : List ℕ) (links : List CalendarLink)
        → P ours links
            (record { calendar = calendar; links = links; ours = ours; writes = []; threw = true }))
      (on_write : (ours : List ℕ) (id : ℕ) (link : CalendarLink) (links : List CalendarLink)
          (rest : Restored provider)
        → P (id ∷ ours) links rest
        → P ours
            (link ∷ links)
            (wrote provider link (write_of (drift_in seen link) link) id rest)) where
    restore-rule :
        (calendar : Calendar) (ours : List ℕ) (links : List CalendarLink)
        → P ours links (restore provider seen calendar ours links)
    unfolding restore
    restore-rule calendar ours [] = at_end calendar ours
    restore-rule calendar ours (link ∷ links) =
        elim (Bool-cases (is_in_step provider (drift_in seen link))) [
          | inl same ↦
              rw (same, restore) (on_step ours link links _ (restore-rule calendar ours links))
          | inr differs ↦
              elim (Option-cases (upsert calendar (write_of (drift_in seen link) link))) [
                | inl threw ↦
                    rw (differs, restore) (rw (threw) (on_throw calendar ours (link ∷ links)))
                | inr ((next, id), given) ↦
                    rw (differs, restore)
                      (rw given
                        (on_write ours id link links _ (restore-rule next (id ∷ ours) links)))
              ]
        ]

  abbrev Keeps : List ℕ → List CalendarLink → Restored provider → Type 0
  Keeps ours links done =
      (map last_pushed done.links ≡ map last_pushed links) × All (IsOurs links) done.writes

  later-IsOurs :
      (link : CalendarLink) (links : List CalendarLink) (ws : List Write)
      → All (IsOurs links) ws
      → All (IsOurs (link ∷ links)) ws
  later-IsOurs link links ws h =
      All-mono (IsOurs links) (IsOurs (link ∷ links)) ws (λ w p. ground (arith, p)) h

  restore-Keeps :
      (seen : List CalendarEvent) (calendar : Calendar) (ours : List ℕ) (links : List CalendarLink)
      → Keeps ours links (restore provider seen calendar ours links)
  restore-Keeps seen =
      restore-rule seen Keeps (λ calendar ours. (refl, tt))
        (λ ours link links rest (e, a).
          (ap (λ bs. last_pushed link ∷ bs) e, later-IsOurs link links rest.writes a))
        (λ calendar ours links. (refl, tt))
        (λ ours id link links rest (e, a). (
          ap (λ bs. last_pushed link ∷ bs) e,
          (
            rw (is_for-write_of (drift_in seen link) link) refl,
            later-IsOurs link links rest.writes a,
          ),
        ))

  abbrev pub answered : Calendar → ℕ → List CalendarEvent
  answered calendar now = events calendar (sync_window now).start (sync_window now).end

  -- Whatever a calendar answers, a pull leaves the times and titles that the links keep as they
  -- were, in order, and each of its writes is a new event or goes to the identifier of a link, and
  -- has the times and the title of that link, no description, and UTC as its time zone.
  pub pull-IsOurs :
      (calendar : Calendar) (links : List CalendarLink) (now : ℕ)
      → (map last_pushed (pull provider calendar links now).links ≡ map last_pushed links)
        × All (IsOurs links) (pull provider calendar links now).writes
  unfolding pull
  pull-IsOurs calendar links now =
      restore-Keeps (answered calendar now) calendar (map (λ link. link.external_id) links) links

  abbrev Grows : List ℕ → List CalendarLink → Restored provider → Type 0
  Grows ours links done = (id : ℕ) → has ours id ≡ true → has done.ours id ≡ true

  restore-Grows :
      (seen : List CalendarEvent) (calendar : Calendar) (ours : List ℕ) (links : List CalendarLink)
      → Grows ours links (restore provider seen calendar ours links)
  restore-Grows seen =
      restore-rule seen Grows (λ calendar ours id h. h) (λ ours link links rest p. p)
        (λ calendar ours links id h. h)
        (λ ours new link links rest p id h. p id (ground (arith, h)))

  blocked-fewer :
      (t : ℕ) (more ours : List ℕ) (seen : List CalendarEvent)
      → ((id : ℕ) → has ours id ≡ true → has more id ≡ true)
      → blocked more t seen ≡ true
      → blocked ours t seen ≡ true
  unfolding blocks_time
  blocked-fewer t more ours [] grows h = h
  blocked-fewer t more ours (e ∷ es) grows h =
      ground (arith, grows e.external_id, blocked-fewer t more ours es grows)

  -- An instant that the busy periods of a pull cover is one at which an event that was read, and
  -- that is no copy of ours by the links before the pull, blocks time.
  pub pull-blocked :
      (calendar : Calendar) (links : List CalendarLink) (now t : ℕ) (ps : List Interval)
      → (pull provider calendar links now).periods ≡ some ps
      → covers t ps ≡ true
      → blocked (map (λ link. link.external_id) links) t (answered calendar now) ≡ true
  unfolding pull
  pull-blocked calendar links now t ps e c =
      let ids = map (λ (link : CalendarLink). link.external_id) links in
      let done = restore provider (answered calendar now) calendar ids links in
      elim (Bool-cases done.threw) [
        | inl threw ↦
            let wrong : ◌≡◌ {A = Option (List Interval)} none (some ps) = rw threw at e in cc
        | inr through ↦
            let same : busy_from (answered calendar now) done.ours ≡ ps =
              some-injective _ _ (rw through at e) in
            blocked-fewer t done.ours ids (answered calendar now)
              (restore-Grows (answered calendar now) calendar ids links)
              (sym (busy_from-covers done.ours (answered calendar now) t).1 ∙ (rw same c))
      ]
