-- ===== src/Printing/Tests.antt =====
-- Jobs to try the theorems of packages/printing on.
use mortar.Prelude.{
  ℕ, zero, suc, ◌≡◌, refl, true, false, Option, none, some, List, [], ◌∷◌, ◌++◌, arith, ltb,
  if◌then◌else◌,
}
use mortar.Printing.Job.{PrintJob, Reason, Transport, QueueOptions, print, try_from}
use mortar.Printing.Queue.{Queued, empty_queue, enqueue, finish}
use mortar.Printing.Queue.Runs.{Event, enqueues, finishes, handle, run, rounds, work}
use mortar.Printing.Queue.InOrder.{run-drained}

-- A printer that lets the second attempt through, and one that never does.
abbrev busy : Transport
busy bytes attempt = if ltb attempt 2 then some 404 else none

abbrev out_of_paper : Transport
out_of_paper bytes attempt = some 500

abbrev job : ℕ → ℕ → PrintJob
job id printer = record { id = id; printer = printer; bytes = 9 }

abbrev printer : ℕ → Option Transport
printer zero = some busy
printer (suc zero) = some out_of_paper
printer (suc (suc n)) = none

abbrev options : QueueOptions
options = record {
  transport_for = printer;
  attempts = none;
  backoff_ms = none;
  on_failure = some (λ (j : PrintJob) (r : Reason). false);
}

abbrev queued : ℕ → ℕ → Queued
queued id printer = record { job = job id printer; on_done = true }

-- Two more jobs arrive while the first prints, one of them for a printer that is not there.
abbrev evening : List Event
evening = enqueues (queued 1 0) ∷ enqueues (queued 2 1) ∷ finishes ∷ enqueues (queued 3 7) ∷ []

run-drained_example :
    run options empty_queue (evening ++ rounds 2)
    ≡ (empty_queue, work options (queued 1 0 ∷ queued 2 1 ∷ queued 3 7 ∷ []))
unfolding run handle enqueue finish print try_from
run-drained_example = run-drained options (λ j r. refl) evening 2 (omega arith)
