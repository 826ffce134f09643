-- ===== src/Realtime/Cursor/CatchUp.antt =====
-- A client that comes back: what it is sent is taken whole, and it then stands where the channel does.
use mortar.Prelude.{
  ℕ, suc, ◌+◌, ◌-◌, ◌≤◌, ◌<◌, ◌≡◌, refl, sym, ap, ◌∙◌, subst, inl, inr, false, ◌&&◌, none, some,
  List, [], ◌∷◌, filter, drop, length, arith, leb, Bool-cases, ==_iff,
}
use mortar.Prelude.Int.{pos}
use mortar.Realtime.Wire.{RealtimeEvent, no_channels, put}
use mortar.Realtime.Backlog.{NewEvent, stored, later, memory_backlog, Resumed, resume}
use mortar.Realtime.Backlog.Window.{due, resume-due}
use mortar.Realtime.Backlog.Carried.{drop-nil, length-drop, numbered, append_all, published_on}
use mortar.Realtime.Cursor.{ChannelCursor, take, verdict_at, moved_by, offer}
use mortar.Realtime.Cursor.Run.{offer_all, kept}

filter-numbered_all :
    (c n p : ℕ) (es : List NewEvent)
    → p < n
    → filter (later (pos p)) (numbered c n es) ≡ numbered c n es
filter-numbered_all c n p [] h = refl
filter-numbered_all c n p (e ∷ es) h = ground (arith, filter-numbered_all c (n + 1) p es)

filter-numbered :
    (c n p : ℕ) (es : List NewEvent)
    → n ≤ p + 1
    → filter (later (pos p)) (numbered c n es) ≡ numbered c (p + 1) (drop (p + 1 - n) es)
filter-numbered c n p [] h = ap (numbered c (p + 1)) (sym (drop-nil (p + 1 - n)))
filter-numbered c n p (e ∷ es) h = elim (Bool-cases (leb n p)) [
  | inl before ↦
      let count : p + 1 - n ≡ suc (p + 1 - (n + 1)) = ground arith in
      let here : later (pos p) (stored c n e) ≡ false = ground arith in
      rw (here, count) (filter-numbered c (n + 1) p es (ground arith))
  | inr beyond ↦
      let count : p + 1 - n ≡ 0 = ground arith in
      let next : n ≡ p + 1 = ground arith in
      rw count (
        filter-numbered_all c n p (e ∷ es) (omega arith)
        ∙ ap (λ (k : ℕ). numbered c k (e ∷ es)) next)
]

-- The next number in line is taken, wherever the client stands.
offer_next :
    (c p : ℕ) (e : NewEvent) (cursor : ChannelCursor)
    → cursor c ≡ some p
    → verdict_at (cursor c) (p + 1) ≡ take
offer_next c p e cursor h = ap (λ o. verdict_at o (p + 1)) h ∙ ground arith

offer_all-take :
    (e : RealtimeEvent) (es : List RealtimeEvent) (cursor : ChannelCursor)
    → verdict_at (cursor e.channel) e.seq ≡ take
    → let (taken, at_end) = offer_all es (put e.channel e.seq cursor) in
      offer_all (e ∷ es) cursor ≡ (e ∷ taken, at_end)
unfolding offer offer_all
offer_all-take e es cursor h =
    ap (λ v. let (taken, at_end) = offer_all es (moved_by v e cursor) in (kept v e taken, at_end)) h

offer_all-numbered :
    (c p : ℕ) (es : List NewEvent) (cursor : ChannelCursor)
    → cursor c ≡ some p
    → ((offer_all (numbered c (p + 1) es) cursor).0 ≡ numbered c (p + 1) es)
      × ((offer_all (numbered c (p + 1) es) cursor).1 c ≡ some (p + length es))
unfolding offer offer_all
offer_all-numbered c p [] cursor h = (refl, h ∙ ap some (omega arith))
offer_all-numbered c p (e ∷ es) cursor h =
    let (all_taken, ends) =
      offer_all-numbered c (p + 1) es (put c (p + 1) cursor) (rw ((==_iff c c).1 refl) refl) in
    let first =
      offer_all-take (stored c (p + 1) e) (numbered c (p + 1 + 1) es) cursor
        (offer_next c p e cursor h) in
    (
      ap (λ (r : List RealtimeEvent × ChannelCursor). r.0) first
          ∙ ap (λ l. stored c (p + 1) e ∷ l) all_taken,
      ap (λ (r : List RealtimeEvent × ChannelCursor). r.1 c) first ∙ ends ∙ ap some (omega arith),
    )

-- What a client has after it was offered what `resume` answered.
abbrev pub CaughtUp : ℕ → ℕ → List NewEvent → ChannelCursor → Resumed → Type 0
CaughtUp c since es cursor resumed =
    let (taken, at_end) = offer_all resumed.events cursor in
    (taken ≡ filter (later (pos since)) (numbered c 1 es)) × (at_end c ≡ some (length es))

inside_window :
    (keep c since : ℕ) (es : List NewEvent)
    → (due keep c since es).gap ≡ none
    → (since ≤ length es)
      × (due keep c since es ≡ record {
        events = filter (later (pos since)) (numbered c 1 es);
        gap = none;
        latest = length es;
      })
inside_window keep c since es h =
    elim (Bool-cases (leb since (length es) && leb (length es) (since + keep))) [
      | inl inside ↦ (ground arith, rw inside refl)
      | inr outside ↦ ground arith
    ]

due-CaughtUp :
    (keep c since : ℕ) (es : List NewEvent) (cursor : ChannelCursor)
    → cursor c ≡ some since
    → (due keep c since es).gap ≡ none
    → CaughtUp c since es cursor (due keep c since es)
due-CaughtUp keep c since es cursor h no_gap =
    let (le, same) = inside_window keep c since es no_gap in
    let rest = drop (since + 1 - 1) es in
    let events = filter-numbered c 1 since es (omega arith) in
    let (all_taken, ends) = offer_all-numbered c since rest cursor h in
    let count : since + length rest ≡ length es = omega (arith, length-drop (since + 1 - 1) es) in
    rw same (rw events (all_taken, ends ∙ ap some count))

-- With a bound above 0, after any publications on any channels, a client whose cursor stands at
-- the position that it asks from, and that is told of no gap, takes every event that it is sent:
-- what it takes is everything its channel has carried after that position, and it then stands
-- where the channel does.
pub resume-CaughtUp :
    (keep c since : ℕ) (ops : List (ℕ × NewEvent)) (cursor : ChannelCursor)
    → 0 < keep
    → cursor c ≡ some since
    → let resumed = resume (memory_backlog (append_all keep ops no_channels)) c (some since) in
      resumed.gap ≡ none → CaughtUp c since (published_on c ops) cursor resumed
resume-CaughtUp keep c since ops cursor k h no_gap =
    let same = resume-due keep c since ops k in
    subst (CaughtUp c since (published_on c ops) cursor) (sym same) (
      due-CaughtUp keep c since (published_on c ops) cursor h
        (subst (λ (r : Resumed). r.gap ≡ none) same no_gap))
