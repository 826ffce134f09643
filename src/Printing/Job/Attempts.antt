-- ===== src/Printing/Job/Attempts.antt =====
-- How often a job is tried, and who is told.
use mortar.Prelude.{
  ℕ, zero, suc, ◌+◌, ◌≤◌, ◌<◌, ◌≡◌, ◌≢◌, refl, ap, ◌⊎◌, inl, inr, Option, none, some, List, [], ◌∷◌,
  ◌++◌, if◌then◌else◌, Bool, sum_by, arith, Option-cases, Bool-cases, ◌==◌, ==_iff,
}
use mortar.Printing.Job.{
  PrintJob, Reason, message, blank, JobOutcome, printed, failed, Transport, QueueOptions, Effect,
  sends, sleeps, tells, calls_back, attempts_of, Tried, through, out_of_attempts, tried_with,
  try_from, told, print, after_tries,
}

abbrev is_send : Effect → ℕ
is_send (sends job n) = 1
is_send (sleeps n) = 0
is_send (tells job reason) = 0
is_send (calls_back job outcome) = 0

abbrev is_tell : Effect → ℕ
is_tell (sends job n) = 0
is_tell (sleeps n) = 0
is_tell (tells job reason) = 1
is_tell (calls_back job outcome) = 0

abbrev pub sent : List Effect → ℕ
sent effects = sum_by is_send effects

abbrev pub times_told : List Effect → ℕ
times_told effects = sum_by is_tell effects

-- Attempt `n` is the first one from `start` on that gets through.
abbrev pub FirstThrough : (ℕ → Option ℕ) → ℕ → ℕ → Type 0
FirstThrough try start n =
    (start ≤ n) × (try n ≡ none) × ((i : ℕ) → start ≤ i → i < n → try i ≢ none)

abbrev pub AllFail : (ℕ → Option ℕ) → ℕ → ℕ → Type 0
AllFail try start end = (i : ℕ) → start ≤ i → i < end → try i ≢ none

module _ (options : QueueOptions) (job : PrintJob) (transport : Transport) where
  TriesWell : ℕ → ℕ → Tried × List Effect → Type 0
  TriesWell left attempt (tried, effects) =
      (times_told effects ≡ 0)
      × (((n : ℕ) × (tried ≡ through n)
            × FirstThrough (transport job.bytes) attempt n
            × (n < attempt + left)
            × (sent effects + attempt ≡ suc n))
          ⊎ ((reason : Reason) × (tried ≡ out_of_attempts reason)
              × AllFail (transport job.bytes) attempt (attempt + left)
              × (sent effects ≡ left)))

  tried_with-TriesWell :
      (left attempt m : ℕ) (rest : Tried × List Effect)
      → transport job.bytes attempt ≡ some m
      → TriesWell left (suc attempt) rest
      → TriesWell (suc left) attempt (tried_with options job left attempt (some m) rest)
  unfolding TriesWell
  tried_with-TriesWell left attempt m rest e (t, inl (n, q, (a, f, g), l, s)) =
      (ground (arith, t), inl (n, q, (omega arith, f, earlier), omega arith, ground (arith, s)))
    where
      earlier : (i : ℕ) → attempt ≤ i → i < n → transport job.bytes i ≢ none
      earlier i b c h = elim (Bool-cases (i == attempt)) [
        | inl d ↦ cc (h, e, ap (transport job.bytes) ((==_iff i attempt).0 d))
        | inr d ↦ g i (ground (arith, d)) c h
      ]
  tried_with-TriesWell left attempt m rest e (t, inr (reason, q, f, s)) =
      (ground (arith, t), inr (reason, q, all, ground (arith, s)))
    where
      all : AllFail (transport job.bytes) attempt (attempt + suc left)
      all i b c h = elim (Bool-cases (i == attempt)) [
        | inl d ↦ cc (h, e, ap (transport job.bytes) ((==_iff i attempt).0 d))
        | inr d ↦ f i (ground (arith, d)) (omega arith) h
      ]

  try_from-TriesWell :
      (left attempt : ℕ) (last : Reason)
      → TriesWell left attempt (try_from options job transport left attempt last)
  unfolding TriesWell try_from
  try_from-TriesWell zero attempt last =
      (refl, inr (last, refl, (λ i a b. absurd (omega arith)), refl))
  try_from-TriesWell (suc left) attempt last = elim (Option-cases (transport job.bytes attempt)) [
    | inl e ↦ rw e (
      refl,
      inl (
        attempt,
        refl,
        (omega arith, e, (λ i a b. absurd (omega arith))),
        omega arith,
        omega arith,
      ),
    )
    | inr (m, e) ↦ rw e (
        tried_with-TriesWell left attempt m
          (try_from options job transport left (suc attempt) (message m)) e
          (try_from-TriesWell left (suc attempt) (message m)))
  ]

abbrev pub listeners : Option (PrintJob → Reason → Bool) → ℕ
listeners none = 0
listeners (some listener) = 1

-- A failure with a reason, unless the listener threw when it was told.
abbrev pub FailedOrThrew :
    Option (PrintJob → Reason → Bool) → PrintJob → ℕ → Reason → Option JobOutcome → Type 0
FailedOrThrew none job attempts reason outcome = outcome ≡ some (failed attempts reason)
FailedOrThrew (some listener) job attempts reason outcome =
    outcome ≡ (if listener job reason then none else some (failed attempts reason))

sum_by-append {ℓ} :
    {A : Type ℓ} (f : A → ℕ) (xs ys : List A) → sum_by f (xs ++ ys) ≡ sum_by f xs + sum_by f ys
sum_by-append f [] ys = omega arith
sum_by-append f (x ∷ xs) ys = omega (arith, sum_by-append f xs ys)

module _ (job : PrintJob) (transport : Transport) where
  abbrev pub Failure :
      Option (PrintJob → Reason → Bool) → ℕ → Option JobOutcome × List Effect → Type 0
  Failure told_to attempts (outcome, effects) =
      (reason : Reason) × FailedOrThrew told_to job attempts reason outcome
      × AllFail (transport job.bytes) 1 (1 + attempts)
      × (sent effects ≡ attempts)
      × (times_told effects ≡ listeners told_to)

  told-Failure :
      (told_to : Option (PrintJob → Reason → Bool)) (attempts : ℕ) (reason : Reason)
      (effects : List Effect)
      → AllFail (transport job.bytes) 1 (1 + attempts)
      → sent effects ≡ attempts
      → times_told effects ≡ 0
      → Failure told_to attempts (told told_to job (failed attempts reason) reason effects)
  told-Failure none attempts reason effects f s t = (reason, refl, f, s, t)
  told-Failure (some listener) attempts reason effects f s t = (
    reason,
    refl,
    f,
    ground (arith, sum_by-append is_send effects (tells job reason ∷ []), s),
    ground (arith, sum_by-append is_tell effects (tells job reason ∷ []), t),
  )

  abbrev pub Success : ℕ → Option JobOutcome × List Effect → Type 0
  Success attempts (outcome, effects) =
      (n : ℕ) × (outcome ≡ some (printed n))
      × FirstThrough (transport job.bytes) 1 n
      × (n ≤ attempts)
      × (sent effects ≡ n)
      × (times_told effects ≡ 0)

  -- A job for a printer that is configured ends in one of two ways: it is printed at the first
  -- attempt that gets through, within the attempts allowed, sent so many times, and nobody is
  -- told; or every attempt allowed fails, it is sent so many times, the listener, where there is
  -- one, is told once, and the outcome is the failure unless the listener throws.
  pub print_outcome :
      (options : QueueOptions)
      → options.transport_for job.printer ≡ some transport
      → Success (attempts_of options) (print options job)
        ⊎ Failure options.on_failure (attempts_of options) (print options job)
  unfolding print TriesWell
  print_outcome options e = rw e (
      of (try_from options job transport attempts 1 blank)
        (try_from-TriesWell options job transport attempts 1 blank))
    where
      attempts : ℕ
      attempts = attempts_of options

      of :
          (r : Tried × List Effect)
          → TriesWell options job transport attempts 1 r
          → Success attempts (after_tries options job attempts r)
            ⊎ Failure options.on_failure attempts (after_tries options job attempts r)
      of (tried, effects) (t, inl (n, q, f, l, s)) =
          rw q (inl (n, refl, f, omega arith, omega arith, t))
      of (tried, effects) (t, inr (reason, q, f, s)) =
          rw q (inr (told-Failure options.on_failure attempts reason effects f s t))
