-- ===== src/Idempotency/Service/Meanwhile.antt =====
-- What may happen while a claim runs, and until its key expires.
use mortar.Prelude.{
  ℕ, ⊤, ◌+◌, ◌≤◌, ◌<◌, ◌≡◌, ◌≢◌, refl, ap, true, false, inl, inr, ◌⊎◌, Option, some, arith,
  Bool-cases, Option-cases,
}
use mortar.Idempotency.Record.{IdempotencyRecord, Identity, is_in_progress}
use mortar.Idempotency.Service.{IdempotencyService, Json, Begun, evaluate, has_id, is_claim}
use mortar.Idempotency.Service.Runs.{Call, begins, marks, completes, releases, purges, Respects}

-- A record of the digest `print`: still in progress and claimed at `now`, or answered with a status
-- as `S` says.
abbrev pub IsOpenOr : (S : Option ℕ → Type 0) → ℕ → ℕ → ℕ → IdempotencyRecord → Type 0
IsOpenOr S print now until r =
    (r.expires_at ≡ until)
    × (r.fingerprint ≡ print)
    × (((is_in_progress r.status ≡ true) × (r.claimed_at ≡ now))
        ⊎ ((is_in_progress r.status ≡ false) × S r.response_status))

-- Calls while the claim `id` may run: all before `lock` and `until`, none that releases the claim,
-- none that answers it with a status other than `S` says.
abbrev pub WhileClaimed : {Body : Type 0} → (S : Option ℕ → Type 0) → ℕ → ℕ → ℕ → Call Body → Type 0
WhileClaimed S id lock until (begins j w p t) = (j ≢ id) × (t ≤ lock) × (t < until)
WhileClaimed S id lock until (marks j st t) = j ≡ id → S (some st)
WhileClaimed S id lock until (completes j st body t) = j ≡ id → S (some st)
WhileClaimed S id lock until (releases j) = j ≢ id
WhileClaimed S id lock until (purges t) = t ≤ until

abbrev pub IsAnswered : ℕ → ℕ → ℕ → IdempotencyRecord → Type 0
IsAnswered status print until r =
    (r.expires_at ≡ until)
    × (r.fingerprint ≡ print)
    × (is_in_progress r.status ≡ false)
    × (r.response_status ≡ some status)

-- Calls before the key expires, none that answers the claim with another status.
abbrev pub UntilExpiry : {Body : Type 0} → ℕ → ℕ → ℕ → Call Body → Type 0
UntilExpiry id status until (begins j w p t) = (j ≢ id) × (t < until)
UntilExpiry id status until (marks j st t) = ⊤
UntilExpiry id status until (completes j st body t) = j ≡ id → st ≡ status
UntilExpiry id status until (releases j) = ⊤
UntilExpiry id status until (purges t) = t ≤ until

module _ {Body : Type 0} (json : Json Body) (service : IdempotencyService) (who : Identity)
    (id print now : ℕ) where
  module _ (S : Option ℕ → Type 0) where
    pub decided_open :
        (r : IdempotencyRecord) (p t : ℕ)
        → IsOpenOr S print now (now + service.ttl_ms) r
        → t ≤ now + service.lock_timeout_ms
        → t < now + service.ttl_ms
        → (a : Begun Body) × (evaluate json service r p t ≡ some a)
    unfolding evaluate
    decided_open r p t (e, _, o) k l = elim (Option-cases (evaluate json service r p t)) [
      | inl n ↦ absurd (elim o [
        | inl (_, c) ↦ ground (arith, e, c, n, k, l)
        | inr (f, _) ↦ ground (arith, e, f, n, l)
      ])
      | inr a ↦ a
    ]

    same_id : (r : IdempotencyRecord) (j : ℕ) → has_id id r ≡ true → has_id j r ≡ true → j ≡ id
    same_id r j e h = ground (arith, e, h)

    pub WhileClaimed-Respects :
        Respects json service who id
          (IsOpenOr S print now (now + service.ttl_ms))
          (WhileClaimed S id (now + service.lock_timeout_ms) (now + service.ttl_ms))
    unfolding evaluate
    WhileClaimed-Respects = record {
      fresh = λ j w p t c. c.0;
      decided = λ r j w p t h c. decided_open r p t h c.1 c.2;
      marked = λ r j st t e h c. elim (Bool-cases (is_claim j r)) [
        | inl i ↦ rw i (h.0, h.1, inr (refl, c (same_id r j e (ground (arith, i)))))
        | inr i ↦ rw i h
      ];
      answered = λ r j st body t e h c. elim (Bool-cases (has_id j r)) [
        | inl i ↦ rw i (h.0, h.1, inr (refl, c (same_id r j e i)))
        | inr i ↦ rw i h
      ];
      unreleased = λ r j e h c. ground (arith, e, c);
      unpurged = λ r t h c. ground (arith, h.0, c);
    }

  pub UntilExpiry-Respects :
      (st : ℕ)
      → Respects json service who id
          (IsAnswered st print (now + service.ttl_ms))
          (UntilExpiry id st (now + service.ttl_ms))
  unfolding evaluate
  UntilExpiry-Respects st = record {
    fresh = λ j w p t c. c.0;
    decided = λ r j w p t h c. decided_answered r p t h c.1;
    marked = λ r j st' t e h c. elim (Bool-cases (is_claim j r)) [
      | inl i ↦ absurd (ground (arith, i, h.2))
      | inr i ↦ rw i h
    ];
    answered = λ r j st' body t e h c. elim (Bool-cases (has_id j r)) [
      | inl i ↦ rw i (h.0, h.1, refl, ap some (c (ground (arith, e, i))))
      | inr i ↦ rw i h
    ];
    unreleased = λ r j e h c. ground (arith, h.2);
    unpurged = λ r t h c. ground (arith, h.0, c);
  }
    where
      decided_answered :
          (r : IdempotencyRecord) (p t : ℕ)
          → IsAnswered st print (now + service.ttl_ms) r
          → t < now + service.ttl_ms
          → (a : Begun Body) × (evaluate json service r p t ≡ some a)
      decided_answered r p t (e, _, f, _) l = elim (Option-cases (evaluate json service r p t)) [
        | inl n ↦ absurd (ground (arith, e, f, n, l))
        | inr a ↦ a
      ]
