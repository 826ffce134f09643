-- ===== src/Printing/Job.antt =====
-- packages/printing/src/queue.ts, `print`: a job, its attempts, and who is told. What a transport and
-- the listeners do is a parameter: whether the attempt of a number gets through, and whether being
-- told throws. Names, bytes and messages stand as numbers.
pub mod Attempts
use mortar.Prelude.{
  ℕ, zero, suc, ◌+◌, ◌-◌, ◌*◌, ◌^◌, Bool, true, false, Option, none, some, List, [], ◌∷◌, ◌++◌, ltb,
  if◌then◌else◌,
}

pub record PrintJob : Type 0 where
  pub id : ℕ
  pub printer : ℕ
  pub bytes : ℕ

pub data Reason : Type 0 where
  no_printer : ℕ → Reason
  message : ℕ → Reason
  blank : Reason

pub data JobOutcome : Type 0 where
  printed : ℕ → JobOutcome
  failed : ℕ → Reason → JobOutcome

-- The transport of a printer: the error of an attempt to send, or none.
abbrev pub Transport : Type 0
Transport = ℕ → ℕ → Option ℕ

-- `on_failure` says whether the listener throws.
pub record QueueOptions : Type 0 where
  pub transport_for : ℕ → Option Transport
  pub attempts : Option ℕ
  pub backoff_ms : Option (ℕ → ℕ)
  pub on_failure : Option (PrintJob → Reason → Bool)

-- What a queue does that others see.
pub data Effect : Type 0 where
  sends : PrintJob → ℕ → Effect
  sleeps : ℕ → Effect
  tells : PrintJob → Reason → Effect
  calls_back : PrintJob → JobOutcome → Effect

abbrev pub attempts_of : QueueOptions → ℕ
attempts_of options = elim options.attempts [ none ↦ 3 | some n ↦ n ]

abbrev pub backoff : QueueOptions → ℕ → ℕ
backoff options attempt = elim options.backoff_ms [
  | none ↦ 250 * 2 ^ (attempt - 1)
  | some f ↦ f attempt
]

-- The loop: with so many attempts left, the number of the next and the reason of the last.
-- What it answers is the attempt that got through, or the reason of the last one.
pub data Tried : Type 0 where
  through : ℕ → Tried
  out_of_attempts : Reason → Tried

abbrev pub tried_with :
    QueueOptions → PrintJob → ℕ → ℕ → Option ℕ → Tried × List Effect → Tried × List Effect
tried_with options job left attempt none rest = (through attempt, sends job attempt ∷ [])
tried_with options job left attempt (some e) rest = (
  rest.0,
  sends job attempt
      ∷ ((if ltb 0 left then sleeps (backoff options attempt) ∷ [] else []) ++ rest.1),
)

unfoldable pub try_from : QueueOptions → PrintJob → Transport → ℕ → ℕ → Reason → Tried × List Effect
try_from options job transport zero attempt reason = (out_of_attempts reason, [])
try_from options job transport (suc left) attempt reason =
    tried_with options job left attempt (transport job.bytes attempt)
      (try_from options job transport left (suc attempt) (reason_of (transport job.bytes attempt)))
  where
    reason_of : Option ℕ → Reason
    reason_of none = blank
    reason_of (some e) = message e

-- `onFailure?.`: none when it throws.
abbrev pub told :
    Option (PrintJob → Reason → Bool)
    → PrintJob
    → JobOutcome
    → Reason
    → List Effect
    → Option JobOutcome × List Effect
told none job outcome reason before = (some outcome, before)
told (some listener) job outcome reason before =
    (if listener job reason then none else some outcome, before ++ (tells job reason ∷ []))

abbrev pub after_tries :
    QueueOptions → PrintJob → ℕ → Tried × List Effect → Option JobOutcome × List Effect
after_tries options job attempts (through n, effects) = (some (printed n), effects)
after_tries options job attempts (out_of_attempts reason, effects) =
    told options.on_failure job (failed attempts reason) reason effects

abbrev pub print_by : QueueOptions → PrintJob → Option Transport → Option JobOutcome × List Effect
unfolding try_from
print_by options job none =
    told options.on_failure job (failed 0 (no_printer job.printer)) (no_printer job.printer) []
print_by options job (some transport) =
    after_tries options job (attempts_of options)
      (try_from options job transport (attempts_of options) 1 blank)

-- `print`: its outcome, none when it throws, and what it does.
unfoldable pub print : QueueOptions → PrintJob → Option JobOutcome × List Effect
unfolding try_from
print options job = print_by options job (options.transport_for job.printer)
