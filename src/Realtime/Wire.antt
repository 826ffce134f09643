-- ===== src/Realtime/Wire.antt =====
-- packages/realtime/src/wire.ts: what crosses the connection. Channels are only compared, so they
-- are numbers here; so are the kinds of events and what they carry.
use mortar.Prelude.{ℕ, ◌==◌, Option, none, some, List, if◌then◌else◌}

pub record RealtimeEvent : Type 0 where
  pub channel : ℕ
  pub seq : ℕ
  pub type : ℕ
  pub content : ℕ
  pub at : ℕ

-- `ServerFrame`: a `welcome` says where each channel stands.
pub data ServerFrame : Type 0 where
  welcome : List (ℕ × ℕ) → ServerFrame
  event : RealtimeEvent → ServerFrame
  gap : (channel from : ℕ) → ServerFrame
  pong : ℕ → ServerFrame

-- A `Map` from channels, as a function.
abbrev pub Channels {ℓ} : Type ℓ → Type ℓ
Channels A = ℕ → Option A

module _ {ℓ} {A : Type ℓ} where
  abbrev pub no_channels : Channels A
  no_channels c = none

  abbrev pub put : ℕ → A → Channels A → Channels A
  put channel a m c = if channel == c then some a else m c

  abbrev pub delete : ℕ → Channels A → Channels A
  delete channel m c = if channel == c then none else m c
