-- ===== src/Realtime/Backlog/Window.antt =====
-- The backlog is a window on everything a channel has carried, and a client that stands inside it
-- is sent exactly what it missed.
use mortar.Prelude.{
  ℕ, ◌+◌, ◌-◌, ◌<◌, ◌≡◌, refl, sym, ap, ◌∙◌, inl, inr, ◌&&◌, ◌||◌, Option, none, some, List, [],
  ◌∷◌, filter, length, arith, ltb, leb, ◌==◌, if◌then◌else◌, Bool-cases, ==_iff,
}
use mortar.Prelude.Int.{pos, ◌-ℤ◌, ltb_ℤ}
use mortar.Realtime.Wire.{gap, no_channels}
use mortar.Realtime.Backlog.{
  NewEvent, Held, held_or_new, Bounds, events_of, later, bounds_of, memory_backlog, BacklogPort,
  position_of, Resumed, resume, nothing_missed,
}
use mortar.Realtime.Backlog.Carried.{
  append_all, append_all-Windowed, bounds_window, drop-nil, filter-drop, filter-none,
  length-numbered, newest, numbered, published_on,
}

-- What a client at `since` is due: what it missed, or a gap when it stands outside the window.
abbrev pub due : ℕ → ℕ → ℕ → List NewEvent → Resumed
due keep channel since es =
    let latest = length es in
    if leb since latest && leb latest (since + keep)
    then record {
      events = filter (later (pos since)) (numbered channel 1 es);
      gap = none;
      latest = latest;
    }
    else record { events = []; gap = some (gap channel latest); latest = latest }

events_held : (o : Option Held) → events_of o ≡ (held_or_new o).events
events_held none = refl
events_held (some h) = refl

memory_events :
    (keep c : ℕ) (ops : List (ℕ × NewEvent))
    → events_of (append_all keep ops no_channels c)
      ≡ newest keep (numbered c 1 (published_on c ops))
memory_events keep c ops =
    events_held (append_all keep ops no_channels c)
    ∙ (append_all-Windowed keep c ops [] no_channels
        (record { window = sym (drop-nil (0 - keep)); next = refl })).window

-- With no `first` the position is where the client stands.
position_lem : (since : ℕ) (b : Bounds) → b.first ≡ none → position_of since b ≡ pos since
unfolding position_of ◌-ℤ◌
position_lem since b h = elim (Bool-cases (since == 0)) [
  | inl zero_ ↦
      let at_zero : since ≡ 0 = (==_iff since 0).0 zero_ in rw zero_ (rw h (rw at_zero refl))
  | inr above ↦ rw above refl
]

before_oldest : (since o : ℕ) → ltb_ℤ (pos since) (pos o -ℤ pos 1) ≡ ltb (since + 1) o
unfolding ◌-ℤ◌
before_oldest since o = ground arith

beyond_latest : (since l : ℕ) → ltb_ℤ (pos l) (pos since) ≡ ltb l since
beyond_latest since l = ground arith

-- What `resume` says on bounds without a `first`.
resume_plain :
    (port : BacklogPort) (c since : ℕ)
    → (port.bounds c).first ≡ none
    → let b = port.bounds c in
      resume port c (some since) ≡ (
        if since == b.latest
        then nothing_missed b.latest
        else (if ltb b.latest since || ltb (since + 1) b.oldest
            then record { events = []; gap = some (gap c b.latest); latest = b.latest }
            else record { events = port.since c (pos since); gap = none; latest = b.latest }))
unfolding resume
resume_plain port c since h =
    let b = port.bounds c in
    rw (position_lem since b h) (
      ap
        (λ g.
          if since == b.latest
          then nothing_missed b.latest
          else (if g
              then record { events = []; gap = some (gap c b.latest); latest = b.latest }
              else record { events = port.since c (pos since); gap = none; latest = b.latest }))
        (ap (λ x. x || ltb_ℤ (pos since) (pos b.oldest -ℤ pos 1)) (beyond_latest since b.latest)
          ∙ ap (λ x. ltb b.latest since || x) (before_oldest since b.oldest)))

-- On a backlog that holds the newest of what a channel has carried.
resume_window :
    (keep c since : ℕ) (es : List NewEvent) (port : BacklogPort)
    → 0 < keep
    → 0 < length es
    → let held = newest keep (numbered c 1 es) in
      port.bounds c ≡ bounds_of held
      → port.since c (pos since) ≡ filter (later (pos since)) held
      → resume port c (some since) ≡ due keep c since es
resume_window keep c since es port k h bounded served =
    let n = length es in
    let d = length (numbered c 1 es) - keep in
    let count = length-numbered c 1 es in
    let at_bounds = bounded ∙ bounds_window c 1 d es (omega (arith, count)) in
    let oldest : (port.bounds c).oldest ≡ 1 + d = ap (λ (b : Bounds). b.oldest) at_bounds in
    let latest : (port.bounds c).latest ≡ n =
      ap (λ (b : Bounds). b.latest) at_bounds ∙ omega arith in
    let first : (port.bounds c).first ≡ none = ap (λ (b : Bounds). b.first) at_bounds in
    resume_plain port c since first
    ∙ ground
        (arith, oldest, latest, served, count, filter-drop c 1 d since es, filter-none c 1 since es)

resume_empty :
    (keep c since : ℕ) (port : BacklogPort)
    → port.bounds c ≡ bounds_of []
    → port.since c (pos since) ≡ []
    → resume port c (some since) ≡ due keep c since []
resume_empty keep c since port bounded served =
    let oldest : (port.bounds c).oldest ≡ 0 = ap (λ (b : Bounds). b.oldest) bounded in
    let latest : (port.bounds c).latest ≡ 0 = ap (λ (b : Bounds). b.latest) bounded in
    let first : (port.bounds c).first ≡ none = ap (λ (b : Bounds). b.first) bounded in
    resume_plain port c since first ∙ ground (arith, oldest, latest)

resume-held :
    (keep c since : ℕ) (es : List NewEvent) (port : BacklogPort)
    → 0 < keep
    → let held = newest keep (numbered c 1 es) in
      port.bounds c ≡ bounds_of held
      → port.since c (pos since) ≡ filter (later (pos since)) held
      → resume port c (some since) ≡ due keep c since es
resume-held keep c since [] port k bounded served =
    resume_empty keep c since port (bounded ∙ ap bounds_of (drop-nil (0 - keep)))
      (served ∙ ap (filter (later (pos since))) (drop-nil (0 - keep)))
resume-held keep c since (e ∷ es) port k bounded served =
    resume_window keep c since (e ∷ es) port k (omega arith) bounded served

-- With a bound above 0, after any publications on any channels, a client at a position is sent
-- what it is due: exactly the events that its channel has carried after that position when it
-- stands within the bound of the latest, and otherwise no events and a gap that says where the
-- channel stands.
pub resume-due :
    (keep c since : ℕ) (ops : List (ℕ × NewEvent))
    → 0 < keep
    → resume (memory_backlog (append_all keep ops no_channels)) c (some since)
      ≡ due keep c since (published_on c ops)
resume-due keep c since ops k =
    resume-held keep c since (published_on c ops) (memory_backlog (append_all keep ops no_channels))
      k (ap bounds_of (memory_events keep c ops))
      (ap (filter (later (pos since))) (memory_events keep c ops))
