-- ===== src/Printing/Queue.antt =====
-- packages/printing/src/queue.ts, `enqueue` and `drain`: what waits for one printer. The loop of
-- `drain` rests while a job prints, so it is a step per job: `enqueue` starts it when it is not
-- running, and `finish` is the rest of one round, when the job that prints has ended.
pub mod Runs
pub mod InOrder
use mortar.Prelude.{ℕ, Bool, true, false, Option, none, some, List, [], ◌∷◌, ◌++◌, length}
use mortar.Printing.Job.{PrintJob, JobOutcome, QueueOptions, Effect, calls_back, print}

-- A job, and whether a callback came with it.
pub record Queued : Type 0 where
  pub job : PrintJob
  pub on_done : Bool

-- `running` is that a job prints.
pub record PrintQueue : Type 0 where
  pub printing : Option Queued
  pub waiting : List Queued

abbrev pub empty_queue : PrintQueue
empty_queue = record { printing = none; waiting = [] }

abbrev pub depth : PrintQueue → ℕ
depth q = length q.waiting

-- The head of the loop: takes the next job, or stops running.
abbrev pub next_round : List Queued → PrintQueue
next_round [] = record { printing = none; waiting = [] }
next_round (q ∷ qs) = record { printing = some q; waiting = qs }

abbrev pub drain : Option Queued → List Queued → PrintQueue
drain (some running) waiting = record { printing = some running; waiting = waiting }
drain none waiting = next_round waiting

unfoldable pub enqueue : PrintQueue → Queued → PrintQueue
enqueue q job = drain q.printing (q.waiting ++ (job ∷ []))

-- `onDone?.(outcome)`; what it throws is dropped.
abbrev pub callback : Queued → JobOutcome → List Effect
callback q outcome = elim q.on_done [ true ↦ calls_back q.job outcome ∷ [] | false ↦ [] ]

abbrev pub round_end :
    Queued → List Queued → Option JobOutcome × List Effect → PrintQueue × List Effect
round_end q waiting (some outcome, effects) = (next_round waiting, effects ++ callback q outcome)
round_end q waiting (none, effects) = (record { printing = none; waiting = waiting }, effects)

abbrev pub finish_of : QueueOptions → Option Queued → List Queued → PrintQueue × List Effect
unfolding print
finish_of options none waiting = (record { printing = none; waiting = waiting }, [])
finish_of options (some q) waiting = round_end q waiting (print options q.job)

-- One round ends: the job that prints is done, its callback is called, the next is taken. A `print`
-- that throws ends the loop.
unfoldable pub finish : QueueOptions → PrintQueue → PrintQueue × List Effect
unfolding print
finish options q = finish_of options q.printing q.waiting
