-- ===== src/Realtime/Client/Polled.antt =====
-- Where a client stands after a poll.
use mortar.Prelude.{
  ℕ, ◌≡◌, refl, sym, ap, ◌∙◌, inl, inr, true, false, ◌&&◌, Option, none, some, [], ◌∷◌, ltb, ◌==◌,
  if◌then◌else◌, arith, Bool-cases, All, ==_iff,
}
use mortar.Realtime.Cursor.{ChannelCursor, seen_at, has, start, is_some}
use mortar.Realtime.Client.{
  Latest, takes_position, poll_latest, poll_events, poll_gaps, PollBody, polled,
}

-- The client has a position in the channel, and not 0 when the channel has moved on.
abbrev pub Stands : ChannelCursor → ℕ × ℕ → Type 0
Stands cursor (channel, latest) =
    (has cursor channel ≡ true) × ((ltb 0 latest && (seen_at cursor channel == 0)) ≡ false)

abbrev next : ChannelCursor → ℕ × ℕ → ChannelCursor
next cursor row = if takes_position cursor row.0 row.1 then start row.0 row.1 cursor else cursor

next-Stands : (cursor : ChannelCursor) (row : ℕ × ℕ) → Stands (next cursor row) row
next-Stands cursor (channel, latest) = of (cursor channel) refl
  where
    of :
        (o : Option ℕ)
        → cursor channel ≡ o
        → Stands (next cursor (channel, latest)) (channel, latest)
    of none e = rw e (grind (arith, e))
    of (some n) e = (grind (arith, e), grind (arith, e))

next-keeps :
    (cursor : ChannelCursor) (row other : ℕ × ℕ)
    → Stands cursor other
    → Stands (next cursor row) other
next-keeps cursor (channel, latest) (c, l) (s, t) = of (cursor c) refl
  where
    of : (o : Option ℕ) → cursor c ≡ o → Stands (next cursor (channel, latest)) (c, l)
    of none e = cc (sym s ∙ ap is_some e)
    of (some n) e = elim (Bool-cases (channel == c)) [
      | inl q ↦
          let e' : cursor channel ≡ some n = ap cursor ((==_iff channel c).0 q) ∙ e in
          (grind (arith, q, e, e'), grind (arith, q, e, e', t))
      | inr q ↦ (grind (arith, q, e, s), grind (arith, q, e, t))
    ]

poll_latest-keeps :
    (rows : Latest) (cursor : ChannelCursor) (other : ℕ × ℕ)
    → Stands cursor other
    → Stands (poll_latest rows cursor) other
unfolding poll_latest
poll_latest-keeps [] cursor other s = s
poll_latest-keeps (row ∷ rows) cursor other s =
    poll_latest-keeps rows (next cursor row) other (next-keeps cursor row other s)

poll_latest-Stands :
    (rows : Latest) (cursor : ChannelCursor) → All (Stands (poll_latest rows cursor)) rows
unfolding poll_latest
poll_latest-Stands [] cursor = tt
poll_latest-Stands (row ∷ rows) cursor = (
  poll_latest-keeps rows (next cursor row) row (next-Stands cursor row),
  poll_latest-Stands rows (next cursor row),
)

-- Wherever a client stood, after the answer to a poll it has a position in every channel whose
-- latest number the answer gives, and stands above 0 in each of those that have moved on from 0.
pub polled-Stands :
    (body : PollBody) (cursor : ChannelCursor) → All (Stands (polled body cursor).0) body.latest
unfolding polled
polled-Stands body cursor =
    poll_latest-Stands body.latest
      (poll_gaps body.gaps body.latest (poll_events body.events cursor).0).0
