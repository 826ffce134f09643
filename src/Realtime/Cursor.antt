-- ===== src/Realtime/Cursor.antt =====
-- packages/realtime/src/gaps.ts: what a client has seen, and what it has therefore missed.
pub mod Run
pub mod CatchUp
use mortar.Prelude.{
  ℕ, zero, suc, ◌+◌, ◌-◌, max, Bool, true, false, not, Option, none, some, List, [], ◌∷◌, any, ltb,
  leb, ◌==◌, if◌then◌else◌,
}
use mortar.Realtime.Wire.{RealtimeEvent, Channels, no_channels, put, delete}

-- `ChannelCursor`: where the client stands in each channel.
abbrev pub ChannelCursor : Type 0
ChannelCursor = Channels ℕ

abbrev pub or_zero : Option ℕ → ℕ
or_zero none = 0
or_zero (some n) = n

abbrev pub seen_at : ChannelCursor → ℕ → ℕ
seen_at cursor channel = or_zero (cursor channel)

abbrev pub is_some {ℓ} : {A : Type ℓ} → Option A → Bool
is_some none = false
is_some (some a) = true

abbrev pub has : ChannelCursor → ℕ → Bool
has cursor channel = is_some (cursor channel)

abbrev pub start : ℕ → ℕ → ChannelCursor → ChannelCursor
start channel seq cursor = put channel seq cursor

abbrev pub forget : ℕ → ChannelCursor → ChannelCursor
forget channel cursor = delete channel cursor

-- What `offer` answers.
pub data Verdict : Type 0 where
  take skip gap : Verdict

-- The verdict on a number, for a client that stands somewhere above 0.
abbrev pub judged : ℕ → ℕ → Verdict
judged seen seq = if leb seq seen then skip else (if ltb (seen + 1) seq then gap else take)

-- No position, or 0, stands before the channel's first event.
abbrev pub verdict_at : Option ℕ → ℕ → Verdict
verdict_at none seq = take
verdict_at (some seen) seq = if seen == 0 then take else judged seen seq

-- Only an event that is taken moves the cursor.
abbrev pub moved_by : Verdict → RealtimeEvent → ChannelCursor → ChannelCursor
moved_by take e cursor = put e.channel e.seq cursor
moved_by skip e cursor = cursor
moved_by gap e cursor = cursor

unfoldable pub offer : RealtimeEvent → ChannelCursor → Verdict × ChannelCursor
offer e cursor =
    let verdict = verdict_at (cursor e.channel) e.seq in (verdict, moved_by verdict e cursor)

-- `Math.max(...have)`, over a batch that is not empty.
abbrev pub highest : List RealtimeEvent → ℕ
highest [] = 0
highest (e ∷ es) = max e.seq (highest es)

abbrev pub have : List RealtimeEvent → ℕ → Bool
have es seq = any (λ e. e.seq == seq) es

-- The loop of `missing`, over the `n` numbers from `seq` on.
unfoldable pub missing_from : ℕ → ℕ → List RealtimeEvent → List ℕ
missing_from seq zero es = []
missing_from seq (suc n) es =
    if have es seq then missing_from (seq + 1) n es else seq ∷ missing_from (seq + 1) n es

-- `missing`: the numbers between where it stood and the highest that the batch lacks.
unfoldable pub missing : ℕ → List RealtimeEvent → List ℕ
unfolding missing_from
missing from [] = []
missing from (e ∷ es) = missing_from (from + 1) (highest (e ∷ es) - (from + 1)) (e ∷ es)
