-- ===== src/Printing/Queue/Runs.antt =====
-- What comes to a queue, one step after the other, and what its jobs come to.
use mortar.Prelude.{
  ℕ, zero, suc, ◌≡◌, refl, sym, ap, ◌∙◌, Bool, false, Option, none, some, List, [], ◌∷◌, ◌++◌,
}
use mathlib.Core.List.{append_assoc}
use mortar.Printing.Job.{PrintJob, Reason, JobOutcome, QueueOptions, Effect, print}
use mortar.Printing.Queue.{Queued, PrintQueue, enqueue, callback, finish}

pub data Event : Type 0 where
  enqueues : Queued → Event
  finishes : Event

unfoldable pub handle : QueueOptions → PrintQueue → Event → PrintQueue × List Effect
unfolding finish enqueue
handle options q (enqueues job) = (enqueue q job, [])
handle options q finishes = finish options q

unfoldable pub run : QueueOptions → PrintQueue → List Event → PrintQueue × List Effect
unfolding handle
run options q [] = (q, [])
run options q (e ∷ es) =
    let (q', effects) = handle options q e in
    let (q'', more) = run options q' es in (q'', effects ++ more)

abbrev pub jobs : List Event → List Queued
jobs [] = []
jobs (enqueues job ∷ es) = job ∷ jobs es
jobs (finishes ∷ es) = jobs es

-- So many jobs end.
abbrev pub rounds : ℕ → List Event
rounds zero = []
rounds (suc n) = finishes ∷ rounds n

pub jobs-rounds : (es : List Event) (n : ℕ) → jobs (es ++ rounds n) ≡ jobs es
jobs-rounds [] zero = refl
jobs-rounds [] (suc n) = jobs-rounds [] n
jobs-rounds (enqueues job ∷ es) n = ap (λ l. job ∷ l) (jobs-rounds es n)
jobs-rounds (finishes ∷ es) n = jobs-rounds es n

-- What has not ended: the job that prints, and those that wait.
abbrev pub pending_of : Option Queued → List Queued → List Queued
pending_of none waiting = waiting
pending_of (some q) waiting = q ∷ waiting

abbrev pub pending : PrintQueue → List Queued
pending q = pending_of q.printing q.waiting

-- All that one job comes to: its attempts, and then its callback with its own outcome.
abbrev pub with_callback : Queued → Option JobOutcome × List Effect → List Effect
with_callback q (some outcome, effects) = effects ++ callback q outcome
with_callback q (none, effects) = effects

unfoldable pub work : QueueOptions → List Queued → List Effect
unfolding print
work options [] = []
work options (q ∷ qs) = with_callback q (print options q.job) ++ work options qs

-- A listener that never throws.
abbrev pub NeverThrows : Option (PrintJob → Reason → Bool) → Type 0
NeverThrows none = Unit
NeverThrows (some listener) = (job : PrintJob) (reason : Reason) → listener job reason ≡ false

pub work-append :
    (options : QueueOptions) (xs ys : List Queued)
    → work options (xs ++ ys) ≡ work options xs ++ work options ys
unfolding work
work-append options [] ys = refl
work-append options (x ∷ xs) ys =
    ap (λ l. with_callback x (print options x.job) ++ l) (work-append options xs ys)
    ∙ sym (append_assoc (with_callback x (print options x.job)) (work options xs) (work options ys))
