-- ===== src/Realtime/Backlog.antt =====
-- packages/realtime/src/server/backlog.ts and resume.ts: the recent past of a channel, and what a
-- client that says where it stands is sent.
pub mod Carried
pub mod Window
use mortar.Prelude.{
  ℕ, suc, ◌+◌, ◌-◌, Bool, true, false, ◌||◌, Option, none, some, List, [], ◌∷◌, ◌++◌, filter, drop,
  length, ltb, leb, ◌==◌, if◌then◌else◌,
}
use mortar.Prelude.Int.{ℤ, pos, negsuc, ◌-ℤ◌, ltb_ℤ}
use mortar.Realtime.Wire.{RealtimeEvent, ServerFrame, gap, Channels, no_channels, put}

-- An event that has no number and no channel yet.
pub record NewEvent : Type 0 where
  pub type : ℕ
  pub content : ℕ
  pub at : ℕ

pub record Held : Type 0 where
  pub events : List RealtimeEvent
  pub next : ℕ

abbrev pub stored : ℕ → ℕ → NewEvent → RealtimeEvent
stored channel seq e = record {
  channel = channel;
  seq = seq;
  type = e.type;
  content = e.content;
  at = e.at;
}

abbrev pub held_or_new : Option Held → Held
held_or_new none = record { events = []; next = 1 }
held_or_new (some held) = held

-- `splice` of what is beyond the bound.
abbrev pub trim : ℕ → List RealtimeEvent → List RealtimeEvent
trim keep events = if ltb keep (length events) then drop (length events - keep) events else events

-- `push`, the number moved on, and the trimming.
abbrev pub push : ℕ → ℕ → NewEvent → Held → Held
push keep channel e held = record {
  events = trim keep (held.events ++ (stored channel held.next e ∷ []));
  next = held.next + 1;
}

-- `MemoryBacklog.append`
unfoldable pub append : ℕ → ℕ → NewEvent → Channels Held → RealtimeEvent × Channels Held
append keep channel e channels =
    let held = held_or_new (channels channel) in
    (stored channel held.next e, put channel (push keep channel e held) channels)

pub record Bounds : Type 0 where
  pub oldest : ℕ
  pub latest : ℕ
  pub first : Option ℕ

-- `BacklogPort`, to read from.
pub record BacklogPort : Type 0 where
  pub bounds : ℕ → Bounds
  pub since : ℕ → ℤ → List RealtimeEvent

abbrev pub events_of : Option Held → List RealtimeEvent
events_of none = []
events_of (some held) = held.events

abbrev pub later : ℤ → RealtimeEvent → Bool
later since e = ltb_ℤ since (pos e.seq)

-- `MemoryBacklog.since`
abbrev pub memory_since : Channels Held → ℕ → ℤ → List RealtimeEvent
memory_since channels channel since = filter (later since) (events_of (channels channel))

abbrev pub last_seq : ℕ → List RealtimeEvent → ℕ
last_seq seq [] = seq
last_seq seq (e ∷ es) = last_seq e.seq es

abbrev pub bounds_of : List RealtimeEvent → Bounds
bounds_of [] = record { oldest = 0; latest = 0; first = none }
bounds_of (e ∷ es) = record { oldest = e.seq; latest = last_seq e.seq es; first = none }

-- `MemoryBacklog.bounds`
abbrev pub memory_bounds : Channels Held → ℕ → Bounds
memory_bounds channels channel = bounds_of (events_of (channels channel))

abbrev pub memory_backlog : Channels Held → BacklogPort
memory_backlog channels = record { bounds = memory_bounds channels; since = memory_since channels }

pub record Resumed : Type 0 where
  pub events : List RealtimeEvent
  pub gap : Option ServerFrame
  pub latest : ℕ

abbrev pub or_one : Option ℕ → ℕ
or_one none = 1
or_one (some n) = n

-- 0 stands just before the first event of the channel.
unfoldable pub position_of : ℕ → Bounds → ℤ
unfolding ◌-ℤ◌
position_of since b = if since == 0 then pos (or_one b.first) -ℤ pos 1 else pos since

abbrev pub is_at : ℤ → ℕ → Bool
is_at (pos m) n = m == n
is_at (negsuc m) n = false

abbrev pub nothing_missed : ℕ → Resumed
nothing_missed latest = record { events = []; gap = none; latest = latest }

-- `resume`
unfoldable pub resume : BacklogPort → ℕ → Option ℕ → Resumed
unfolding ◌-ℤ◌ position_of
resume port channel none = nothing_missed (port.bounds channel).latest
resume port channel (some since) =
    let b = port.bounds channel in
    let position = position_of since b in
    if is_at position b.latest
    then nothing_missed b.latest
    else (if ltb_ℤ (pos b.latest) position || ltb_ℤ position (pos b.oldest -ℤ pos 1)
        then record { events = []; gap = some (gap channel b.latest); latest = b.latest }
        else record { events = port.since channel position; gap = none; latest = b.latest })
