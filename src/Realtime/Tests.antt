-- ===== src/Realtime/Tests.antt =====
-- Histories and clients to try the theorems of packages/realtime on.
use mortar.Prelude.{ℕ, ◌≡◌, refl, some, List, [], ◌∷◌, arith}
use mortar.Realtime.Wire.{RealtimeEvent, no_channels, put}
use mortar.Realtime.Backlog.{NewEvent, resume, memory_backlog, append}
use mortar.Realtime.Backlog.Window.{due, resume-due}
use mortar.Realtime.Backlog.Carried.{append_all, published_on}
use mortar.Realtime.Cursor.{ChannelCursor}
use mortar.Realtime.Cursor.Run.{offer_all, seqs_on, IsRunAfter, offer_all-IsRunAfter}
use mortar.Realtime.Cursor.CatchUp.{CaughtUp, resume-CaughtUp}

abbrev news : ℕ → NewEvent
news n = record { type = 1; content = n; at = 50 }

-- Three events on channel 7, one on channel 8 between them.
abbrev history : List (ℕ × NewEvent)
history = (7, news 1) ∷ (7, news 2) ∷ (8, news 9) ∷ (7, news 3) ∷ []

resume-due_example :
    resume (memory_backlog (append_all 2 history no_channels)) 7 (some 1)
    ≡ due 2 7 1 (published_on 7 history)
resume-due_example = resume-due 2 7 1 history (omega arith)

abbrev at_one : ChannelCursor
at_one = put 7 1 no_channels

resume-CaughtUp_example :
    CaughtUp 7 1
      (published_on 7 history)
      at_one
      (resume (memory_backlog (append_all 2 history no_channels)) 7 (some 1))
unfolding resume append
resume-CaughtUp_example = resume-CaughtUp 2 7 1 history at_one (omega arith) refl refl

abbrev arrived : ℕ → RealtimeEvent
arrived seq = record { channel = 7; seq = seq; type = 1; content = 0; at = 50 }

-- A duplicate, a jump and the next one.
abbrev arrivals : List RealtimeEvent
arrivals = arrived 1 ∷ arrived 3 ∷ arrived 2 ∷ arrived 3 ∷ []

offer_all-IsRunAfter_example :
    IsRunAfter 1 (seqs_on 7 (offer_all arrivals at_one).0) ((offer_all arrivals at_one).1 7)
offer_all-IsRunAfter_example = offer_all-IsRunAfter 7 1 arrivals at_one (omega arith) refl
