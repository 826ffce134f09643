-- ===== src/Idempotency/Tests.antt =====
-- Keys to try the theorems of packages/idempotency on.
use mortar.Prelude.{ℕ, ◌≡◌, ◌≢◌, refl, true, false, Option, none, some, List, [], ◌∷◌, arith}
use mortar.Idempotency.Record.{in_progress, IdempotencyRecord, Identity}
use mortar.Idempotency.Service.{
  IdempotencyService, Json, proceed, replay, evaluate, begin, mark_done,
}
use mortar.Idempotency.Service.Runs.{Call, begins, completes, releases, purges, call, run}
use mortar.Idempotency.Service.Once.{begin_once, mark_done-replay}
use mortar.Idempotency.Claim.{fails, Handler, Request, intercept}
use mortar.Idempotency.Claim.Retry.{intercept-replay}

abbrev json : Json ℕ
json = record { stringify = λ n. some n; parse = λ n. n; null_text = 0 }

-- Keys live for 100, a claim for 10.
abbrev service : IdempotencyService
service = record { ttl_ms = 100; lock_timeout_ms = 10 }

abbrev who : Identity
who = record { tenant_id = none; scope = 2; key = 3 }

abbrev next_door : Identity
next_door = record { tenant_id = some 1; scope = 2; key = 3 }

abbrev claim : IdempotencyRecord
claim = record {
  id = 7;
  tenant_id = none;
  scope = 2;
  key = 3;
  fingerprint = 5;
  status = in_progress;
  response_status = none;
  response_body = none;
  claimed_at = 50;
  completed_at = none;
  expires_at = 150;
}

-- The key was claimed long ago, and nobody has come back.
abbrev abandoned : IdempotencyRecord
abandoned = record claim { id = 6; claimed_at = 0; expires_at = 100 }

abbrev meanwhile : List (Call ℕ)
meanwhile = begins 8 next_door 5 55 ∷ begins 9 who 5 56 ∷ purges 57 ∷ []

begin_once_example :
    (begin json service (run json service (claim ∷ []) meanwhile) 10 who 5 60).0 ≢ proceed claim
unfolding begin evaluate run call
begin_once_example =
    begin_once json service who 7 5 50 (abandoned ∷ []) (claim ∷ []) claim ((λ p. omega arith), tt)
      refl meanwhile 10 5 60 claim
      (
        ((λ p. omega arith), omega arith, omega arith),
        (((λ p. omega arith), omega arith, omega arith), (omega arith, tt)),
      )
      (omega arith) (omega arith)

abbrev later : List (Call ℕ)
later = releases 7 ∷ completes 7 201 (some 44) 62 ∷ begins 11 who 5 70 ∷ []

mark_done-replay_example :
    (b : Option ℕ) × (begin json service
        (run json service (mark_done (run json service (claim ∷ []) meanwhile) 7 201 60) later)
        12
        who
        5
        149
      ≡ (
        replay 201 b,
        run json service (mark_done (run json service (claim ∷ []) meanwhile) 7 201 60) later,
      ))
unfolding begin evaluate run call
mark_done-replay_example =
    mark_done-replay json service who 7 5 50 (abandoned ∷ []) (claim ∷ []) claim
      ((λ p. omega arith), tt) refl meanwhile later 201 60 12 149
      (
        ((λ p. omega arith), omega arith, omega arith),
        (((λ p. omega arith), omega arith, omega arith), (omega arith, tt)),
      )
      (tt, ((λ p. refl), (((λ p. omega arith), omega arith), tt))) (omega arith)

abbrev request : Request
request = record {
  required = true;
  key = some 3;
  tenant_id = none;
  scope = 2;
  fingerprint = 5;
  http_code = none;
  is_post = true;
}

abbrev writer : Handler ℕ
writer = record {
  commits = record { writes = false; at = 51 } ∷ record { writes = true; at = 52 } ∷ [];
  ending = fails true;
}

intercept-replay_example :
    (b : Option ℕ) × (begin json service
        (intercept json service [] 7 request 50 writer).1
        8
        who
        5
        60
      ≡ (replay 201 b, (intercept json service [] 7 request 50 writer).1))
unfolding begin evaluate
intercept-replay_example =
    intercept-replay json service [] (claim ∷ []) 7 request 50 3 writer claim refl tt refl 8 60 refl
      (omega arith)
