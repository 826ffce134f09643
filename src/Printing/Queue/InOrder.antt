-- ===== src/Printing/Queue/InOrder.antt =====
-- Jobs are printed one after the other, in the order they came, and each callback hears of its own.
use mortar.Prelude.{
  ℕ, zero, suc, ◌-◌, subst, ◌≤◌, ◌≡◌, refl, sym, ap, ◌∙◌, Bool, Option, none, some, List, [], ◌∷◌,
  ◌++◌, length, arith,
}
use mathlib.Core.List.{append_assoc, append-nil}
use mortar.Printing.Job.{
  PrintJob, Reason, JobOutcome, QueueOptions, Effect, print, told, Tried, after_tries, Transport,
  print_by, attempts_of, try_from, through, out_of_attempts, blank, printed,
}
use mortar.Printing.Queue.{
  Queued, PrintQueue, empty_queue, next_round, drain, enqueue, callback, round_end, finish_of,
  finish,
}
use mortar.Printing.Queue.Runs.{
  Event, enqueues, finishes, handle, run, jobs, rounds, jobs-rounds, pending_of, pending,
  with_callback, work, NeverThrows, work-append,
}

told-some :
    (told_to : Option (PrintJob → Reason → Bool)) (job : PrintJob) (outcome : JobOutcome)
    (reason : Reason) (before : List Effect)
    → NeverThrows told_to
    → (told told_to job outcome reason before).0 ≡ some outcome
told-some none job outcome reason before _ = refl
told-some (some listener) job outcome reason before quiet = rw (quiet job reason) refl

module _ (options : QueueOptions) (quiet : NeverThrows options.on_failure) where
  print-some : (job : PrintJob) → (outcome : JobOutcome) × ((print options job).0 ≡ some outcome)
  unfolding print
  print-some job = by (options.transport_for job.printer)
    where
      after :
          (r : Tried × List Effect)
          → (outcome : JobOutcome) × ((after_tries options job (attempts_of options) r).0
              ≡ some outcome)
      after (through n, effects) = (printed n, refl)
      after (out_of_attempts reason, effects) =
          (_, told-some options.on_failure job _ reason effects quiet)

      by :
          (transport : Option Transport)
          → (outcome : JobOutcome) × ((print_by options job transport).0 ≡ some outcome)
      by none = (_, told-some options.on_failure job _ _ [] quiet)
      by (some transport) = after (try_from options job transport (attempts_of options) 1 blank)

  -- Nothing waits behind an idle printer.
  abbrev Live : PrintQueue → Type 0
  Live q = q.printing ≡ none → q.waiting ≡ []

  -- What a step does, and what is then left to do, is what was left before it and came with it.
  abbrev Steps : PrintQueue → List Queued → PrintQueue × List Effect → Type 0
  Steps q new (q', effects) =
      Live q' × (effects ++ work options (pending q') ≡ work options (pending q ++ new))

  enqueue-Steps : (q : PrintQueue) (job : Queued) → Live q → Steps q (job ∷ []) (enqueue q job, [])
  unfolding enqueue work
  enqueue-Steps q job live = of q.printing q.waiting live
    where
      of :
          (printing : Option Queued) (waiting : List Queued)
          → (printing ≡ none → waiting ≡ [])
          → Steps
              (record { printing = printing; waiting = waiting })
              (job ∷ [])
              (drain printing (waiting ++ (job ∷ [])), [])
      of (some r) waiting l = ((λ e. cc), refl)
      of none [] l = ((λ e. cc), refl)
      of none (x ∷ xs) l = absurd (cc (l refl))

  next_round-Live : (waiting : List Queued) → Live (next_round waiting)
  next_round-Live [] e = refl
  next_round-Live (q ∷ qs) e = cc

  next_round-pending : (waiting : List Queued) → pending (next_round waiting) ≡ waiting
  next_round-pending [] = refl
  next_round-pending (q ∷ qs) = refl

  finish-Steps : (q : PrintQueue) → Live q → Steps q [] (finish options q)
  unfolding finish work
  finish-Steps q live = of q.printing q.waiting live
    where
      ended :
          (r : Queued) (waiting : List Queued) (p : Option JobOutcome × List Effect)
          (outcome : JobOutcome)
          → p.0 ≡ some outcome
          → Live (round_end r waiting p).0
            × ((round_end r waiting p).1 ++ work options (pending (round_end r waiting p).0)
                ≡ with_callback r p ++ work options waiting)
      ended r waiting (none, effects) outcome e = cc
      ended r waiting (some o, effects) outcome e = (
        next_round-Live waiting,
        ap (λ l. (effects ++ callback r o) ++ work options l) (next_round-pending waiting),
      )

      of :
          (printing : Option Queued) (waiting : List Queued)
          → (printing ≡ none → waiting ≡ [])
          → Steps
              (record { printing = printing; waiting = waiting })
              []
              (finish_of options printing waiting)
      of none waiting l = (l, ap (work options) (sym (append-nil waiting)))
      of (some r) waiting l =
          let (live', e) =
            ended r waiting (print options r.job) (print-some r.job).0 (print-some r.job).1 in
          (
            live',
            e
                ∙ ap (λ l. with_callback r (print options r.job) ++ work options l)
                    (sym (append-nil waiting)),
          )

  handle-Steps :
      (q : PrintQueue) (e : Event) → Live q → Steps q (jobs (e ∷ [])) (handle options q e)
  unfolding handle
  handle-Steps q (enqueues job) live = enqueue-Steps q job live
  handle-Steps q finishes live = finish-Steps q live

  run-Steps : (es : List Event) (q : PrintQueue) → Live q → Steps q (jobs es) (run options q es)
  unfolding run
  run-Steps [] q live = (live, ap (work options) (sym (append-nil (pending q))))
  run-Steps (e ∷ es) q live =
      let (q', effects) = handle options q e in
      let (live', h) = handle-Steps q e live in
      let (live'', h') = run-Steps es q' live' in
      let more = (run options q' es).1 in
      (
        live'',
        append_assoc effects more (work options (pending (run options q' es).0))
            ∙ ap (λ l. effects ++ l) (h' ∙ work-append options (pending q') (jobs es))
            ∙ sym (append_assoc effects (work options (pending q')) (work options (jobs es)))
            ∙ ap (λ l. l ++ work options (jobs es)) h
            ∙ sym (work-append options (pending q ++ jobs (e ∷ [])) (jobs es))
            ∙ ap (work options) (
                append_assoc (pending q) (jobs (e ∷ [])) (jobs es)
                ∙ ap (λ l. pending q ++ l) (jobs_cons e es)),
      )
    where
      jobs_cons : (e : Event) (es : List Event) → jobs (e ∷ []) ++ jobs es ≡ jobs (e ∷ es)
      jobs_cons (enqueues job) es = refl
      jobs_cons finishes es = refl

  -- When the listener for failures never throws, at any point what the queue has done, followed by
  -- what the jobs left in it come to, is what all the jobs queued so far come to, one wholly after
  -- the other in the order they came: attempts of two jobs never mix.
  pub run-work :
      (es : List Event)
      → (run options empty_queue es).1 ++ work options (pending (run options empty_queue es).0)
        ≡ work options (jobs es)
  run-work es = (run-Steps es empty_queue (λ e. refl)).1

  finish-pending :
      (q : PrintQueue) → Live q → length (pending (finish options q).0) ≤ length (pending q) - 1
  unfolding finish
  finish-pending q live = of q.printing q.waiting live
    where
      ended :
          (r : Queued) (waiting : List Queued) (p : Option JobOutcome × List Effect)
          (outcome : JobOutcome)
          → p.0 ≡ some outcome
          → length (pending (round_end r waiting p).0) ≤ length (r ∷ waiting) - 1
      ended r waiting (none, effects) outcome e = cc
      ended r waiting (some o, effects) outcome e =
          omega (arith, ap length (next_round-pending waiting))

      of :
          (printing : Option Queued) (waiting : List Queued)
          → (printing ≡ none → waiting ≡ [])
          → length (pending (finish_of options printing waiting).0)
            ≤ length (pending_of printing waiting) - 1
      of none waiting l = rw (l refl) (omega arith)
      of (some r) waiting l =
          ended r waiting (print options r.job) (print-some r.job).0 (print-some r.job).1

  rounds-pending :
      (n : ℕ) (q : PrintQueue)
      → Live q
      → length (pending q) ≤ n
      → length (pending (run options q (rounds n)).0) ≤ 0
  unfolding run handle
  rounds-pending zero q live l = l
  rounds-pending (suc n) q live l =
      rounds-pending n (finish options q).0 (finish-Steps q live).0
        (omega (arith, finish-pending q live))

  run-append :
      (xs ys : List Event) (q : PrintQueue)
      → (run options q (xs ++ ys)).0 ≡ (run options (run options q xs).0 ys).0
  unfolding run
  run-append [] ys q = refl
  run-append (x ∷ xs) ys q = run-append xs ys (handle options q x).0

  -- When the listener for failures never throws, then after any jobs have been queued and any
  -- rounds have ended in any order, as many further rounds as jobs are left empty the queue; and
  -- by then each job has been tried and its callback called with its own outcome, one job wholly
  -- after the other, in the order they came.
  pub run-drained :
      (es : List Event) (n : ℕ)
      → length (pending (run options empty_queue es).0) ≤ n
      → run options empty_queue (es ++ rounds n) ≡ (empty_queue, work options (jobs es))
  unfolding work
  run-drained es n l =
      let q = (run options empty_queue es).0 in
      let r = run options empty_queue (es ++ rounds n) in
      let none_left : length (pending r.0) ≤ 0 =
        subst (λ x. length (pending x) ≤ 0) (sym (run-append es (rounds n) empty_queue))
          (rounds-pending n q (run-Steps es empty_queue (λ e. refl)).0 l) in
      drained r none_left (run-work (es ++ rounds n) ∙ ap (work options) (jobs-rounds es n))
    where
      drained :
          (r : PrintQueue × List Effect)
          → length (pending r.0) ≤ 0
          → r.1 ++ work options (pending r.0) ≡ work options (jobs es)
          → r ≡ (empty_queue, work options (jobs es))
      drained (q, effects) z e = of q.printing q.waiting z e
        where
          same : PrintQueue → Type 0
          same x =
              ◌≡◌ {A = PrintQueue × List Effect} (x, effects) (empty_queue, work options (jobs es))

          of :
              (printing : Option Queued) (waiting : List Queued)
              → length (pending_of printing waiting) ≤ 0
              → effects ++ work options (pending_of printing waiting) ≡ work options (jobs es)
              → same (record { printing = printing; waiting = waiting })
          of none [] z e = ap (λ l. (empty_queue, l)) (sym (append-nil effects) ∙ e)
          of none (x ∷ xs) z e = absurd (omega arith)
          of (some x) xs z e = absurd (omega arith)
