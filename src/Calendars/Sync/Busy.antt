-- ===== src/Calendars/Sync/Busy.antt =====
-- The busy periods that packages/calendars/src/sync.ts holds for a window of events.
use mortar.Prelude.{
  ℕ, ◌≡◌, refl, ap, ◌∙◌, sym, inl, inr, max, Bool, true, false, not, ◌&&◌, ◌||◌, List, [], ◌∷◌, any,
  filter, map, arith, ltb, leb, Bool-cases, if◌then◌else◌,
}
use mortar.Prelude.Sort.{sort_by}
use mortar.Clock.Interval.{Interval, is_empty, starts_after, merge, merge_all, normalise}
use mortar.Clock.Interval.Covers.{within, covers}
use mortar.Clock.Interval.Normal.{IsNormal, normalise_lem}
use mortar.Calendars.Sync.{CalendarEvent, blocks_time, period, absorb, merged, busy_from}

later-end : (a b : Interval) → max a.end b.end ≡ (if ltb a.end b.end then b.end else a.end)
later-end a b = ground arith

-- The loop is that of packages/clock.
absorb-merge : (last : Interval) (ps : List Interval) → absorb last ps ≡ merge last ps
unfolding absorb merge
absorb-merge last [] = refl
absorb-merge last (p ∷ ps) = elim (Bool-cases (leb p.start last.end)) [
  | inl joins ↦ rw joins (
      absorb-merge (record last { end = max last.end p.end }) ps
      ∙ ap (λ (e : ℕ). merge (record { start = last.start; end = e }) ps) (later-end last p))
  | inr apart ↦ rw apart (ap (λ is. last ∷ is) (absorb-merge p ps))
]

merged-merge_all : (ps : List Interval) → merged ps ≡ merge_all ps
unfolding merged merge_all
merged-merge_all [] = refl
merged-merge_all (p ∷ ps) = absorb-merge p ps

module _ (ours : List ℕ) where
  abbrev kept : List CalendarEvent → List Interval
  kept events = map period (filter (λ event. blocks_time event ours) events)

  blocks-lasts : (e : CalendarEvent) → blocks_time e ours ≡ true → is_empty (period e) ≡ false
  unfolding blocks_time
  blocks-lasts e h = ground arith

  -- What blocks time has a duration.
  kept-filter :
      (events : List CalendarEvent) → filter (λ i. not (is_empty i)) (kept events) ≡ kept events
  kept-filter [] = refl
  kept-filter (e ∷ es) = elim (Bool-cases (blocks_time e ours)) [
    | inl b ↦ rw b (rw (blocks-lasts e b) (ap (λ is. period e ∷ is) (kept-filter es)))
    | inr b ↦ rw b (kept-filter es)
  ]

  busy_from-normalise :
      (events : List CalendarEvent) → busy_from events ours ≡ normalise (kept events)
  unfolding busy_from normalise
  busy_from-normalise events =
      merged-merge_all (sort_by starts_after (kept events))
      ∙ ap (λ ps. merge_all (sort_by starts_after ps)) (sym (kept-filter events))

  abbrev pub blocked : ℕ → List CalendarEvent → Bool
  blocked t events = any (λ event. blocks_time event ours && within t (period event)) events

  kept-covers : (t : ℕ) (events : List CalendarEvent) → covers t (kept events) ≡ blocked t events
  kept-covers t [] = refl
  kept-covers t (e ∷ es) = elim (Bool-cases (blocks_time e ours)) [
    | inl b ↦ rw b (ap (λ c. within t (period e) || c) (kept-covers t es))
    | inr b ↦ rw b (kept-covers t es)
  ]

  -- The busy periods of a window have a duration each, are in order and do not touch one another,
  -- and together cover an instant exactly when an event that blocks time does: one that is not
  -- ours, is not cancelled, is marked busy and has a duration.
  pub busy_from-covers :
      (events : List CalendarEvent) (t : ℕ)
      → IsNormal (busy_from events ours) × (covers t (busy_from events ours) ≡ blocked t events)
  busy_from-covers events t =
      let (normal, same) = normalise_lem (kept events) t in
      rw (busy_from-normalise events) (normal, same ∙ kept-covers t events)
