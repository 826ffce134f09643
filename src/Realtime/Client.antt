-- ===== src/Realtime/Client.antt =====
-- packages/realtime/src/client.ts: what a client does with what it hears. The socket, the timers and
-- the address it polls are left out.
pub mod Polled
use mortar.Prelude.{
  ℕ, ◌*◌, ◌^◌, min, Bool, true, false, not, ◌&&◌, ◌||◌, Option, none, some, List, [], ◌∷◌, ◌++◌,
  ltb, ◌==◌, if◌then◌else◌,
}
use mortar.Realtime.Wire.{RealtimeEvent, ServerFrame, welcome, event, pong}
use mortar.Realtime.Cursor.{ChannelCursor, or_zero, seen_at, has, start, Verdict, take, skip, offer}

-- What the product and the server are told.
pub data Told : Type 0 where
  on_event : RealtimeEvent → Told
  on_resync : ℕ → Told
  subscribe : ℕ → ChannelCursor → Told

-- The entries of a record from channels to where they stand.
abbrev pub Latest : Type 0
Latest = List (ℕ × ℕ)

-- A `welcome` starts a channel in which the client stands at 0, or nowhere.
unfoldable pub welcomed : Latest → ChannelCursor → ChannelCursor
welcomed [] cursor = cursor
welcomed (row ∷ rows) cursor =
    welcomed rows (if seen_at cursor row.0 == 0 then start row.0 row.1 cursor else cursor)

-- `resync`
abbrev pub resync : ℕ → ChannelCursor → List Told
resync channel cursor = on_resync channel ∷ subscribe channel cursor ∷ []

abbrev pub on_verdict : RealtimeEvent → Verdict × ChannelCursor → ChannelCursor × List Told
on_verdict e (take, cursor) = (cursor, on_event e ∷ [])
on_verdict e (skip, cursor) = (cursor, [])
on_verdict e (Verdict.gap, cursor) = (cursor, resync e.channel cursor)

-- `receive`
unfoldable pub receive : ServerFrame → ChannelCursor → ChannelCursor × List Told
unfolding welcomed offer
receive (welcome channels) cursor = (welcomed channels cursor, [])
receive (event e) cursor = on_verdict e (offer e cursor)
receive (ServerFrame.gap channel from) cursor = (start channel from cursor, on_resync channel ∷ [])
receive (pong at) cursor = (cursor, [])

-- The body of a poll that was answered; a part that is absent is empty.
pub record PollBody : Type 0 where
  pub events : List RealtimeEvent
  pub gaps : List ℕ
  pub latest : Latest

abbrev pub on_polled : RealtimeEvent → Verdict → List Told
on_polled e take = on_event e ∷ []
on_polled e skip = []
on_polled e Verdict.gap = on_resync e.channel ∷ []

unfoldable pub poll_events : List RealtimeEvent → ChannelCursor → ChannelCursor × List Told
unfolding offer
poll_events [] cursor = (cursor, [])
poll_events (e ∷ es) cursor =
    let (verdict, moved) = offer e cursor in
    let (after, told) = poll_events es moved in (after, on_polled e verdict ++ told)

abbrev pub latest_of : Latest → ℕ → Option ℕ
latest_of [] channel = none
latest_of (row ∷ rows) channel = if row.0 == channel then some row.1 else latest_of rows channel

unfoldable pub poll_gaps : List ℕ → Latest → ChannelCursor → ChannelCursor × List Told
poll_gaps [] latest cursor = (cursor, [])
poll_gaps (channel ∷ channels) latest cursor =
    let (after, told) =
      poll_gaps channels latest (start channel (or_zero (latest_of latest channel)) cursor) in
    (after, on_resync channel ∷ told)

-- A channel that the client joins, or in which it was left behind at 0.
abbrev pub takes_position : ChannelCursor → ℕ → ℕ → Bool
takes_position cursor channel latest =
    not (has cursor channel) || ((seen_at cursor channel == 0) && ltb 0 latest)

unfoldable pub poll_latest : Latest → ChannelCursor → ChannelCursor
poll_latest [] cursor = cursor
poll_latest (row ∷ rows) cursor =
    poll_latest rows
      (if takes_position cursor row.0 row.1 then start row.0 row.1 cursor else cursor)

-- One poll.
unfoldable pub polled : PollBody → ChannelCursor → ChannelCursor × List Told
unfolding poll_events poll_gaps poll_latest
polled body cursor =
    let (moved, told) = poll_events body.events cursor in
    let (restarted, told_gaps) = poll_gaps body.gaps body.latest moved in
    (poll_latest body.latest restarted, told ++ told_gaps)

-- How long `fallBack` waits before it asks for a socket again, at its `retry`th turn.
abbrev pub retry_wait : Bool → ℕ → ℕ
retry_wait superseded retry = if superseded then 30000 else min 30000 (500 * 2 ^ min retry 6)
