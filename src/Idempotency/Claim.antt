-- ===== src/Idempotency/Claim.antt =====
-- packages/idempotency/src/claim-in-flight.ts and interceptor.ts: a request with a key, from its
-- claim to its answer.
pub mod Retry
use mortar.Prelude.{ℕ, Bool, true, false, ◌||◌, Option, none, some, List, [], ◌∷◌, if◌then◌else◌}
use mortar.Idempotency.Record.{IdempotencyRecord, Identity}
use mortar.Idempotency.Service.{
  IdempotencyService, Json, Begun, proceed, replay, key_reused, still_running, duplicate_key, begin,
  mark_done, complete, release, or_else,
}

pub record ClaimInFlight : Type 0 where
  pub record_id : ℕ
  pub status : ℕ
  pub settled : Bool
  pub done : Bool

-- A transaction that the handler commits: whether it has written by then, and when.
pub record Commit : Type 0 where
  pub writes : Bool
  pub at : ℕ

-- How the handler ends: it answers, when the response is stored or the store fails; it fails, when
-- the claim is released or the release fails; or its process dies.
pub data Ending (Body : Type 0) : Type 0 where
  answers : Option Body → ℕ → Bool → Ending Body
  fails : Bool → Ending Body
  dies : Ending Body

pub record Handler (Body : Type 0) : Type 0 where
  pub commits : List Commit
  pub ending : Ending Body

-- `participant`, with the transaction that it joins.
unfoldable pub participant :
    ClaimInFlight → List IdempotencyRecord → Commit → ClaimInFlight × List IdempotencyRecord
participant claim rows c =
    if claim.settled || claim.done
    then (claim, rows)
    else (if c.writes
        then (record claim { done = true }, mark_done rows claim.record_id claim.status c.at)
        else (claim, rows))

unfoldable pub join_commits :
    ClaimInFlight → List IdempotencyRecord → List Commit → ClaimInFlight × List IdempotencyRecord
unfolding participant
join_commits claim rows [] = (claim, rows)
join_commits claim rows (c ∷ cs) =
    let joined = participant claim rows c in join_commits joined.0 joined.1 cs

-- `succeeded`: whether the request is answered, and the table.
unfoldable pub succeeded :
    {Body : Type 0}
    → Json Body
    → ClaimInFlight
    → List IdempotencyRecord
    → Option Body
    → ℕ
    → Bool
    → Bool × List IdempotencyRecord
succeeded json claim rows body now true =
    (true, complete json rows claim.record_id claim.status body now)
succeeded json claim rows body now false = (claim.done, rows)

unfoldable pub failed : ClaimInFlight → List IdempotencyRecord → Bool → List IdempotencyRecord
failed claim rows is_released =
    if claim.done then rows else (if is_released then release rows claim.record_id else rows)

-- What the caller hears.
pub data Response (Body : Type 0) : Type 0 where
  answered : Option Body → Response Body
  not_stored : Response Body
  handler_failed : Response Body
  no_answer : Response Body
  replayed : Option Body → Response Body
  refused : Begun Body → Response Body
  key_required : Response Body
  unguarded : Response Body

-- A request for a handler marked idempotent: `options`, the header, the identity without the key,
-- the digest of its payload, the `@HttpCode` and the method.
pub record Request : Type 0 where
  pub required : Bool
  pub key : Option ℕ
  pub tenant_id : Option ℕ
  pub scope : ℕ
  pub fingerprint : ℕ
  pub http_code : Option ℕ
  pub is_post : Bool

abbrev pub declared_status : Request → ℕ
declared_status q = or_else q.http_code (if q.is_post then 201 else 200)

abbrev pub ended :
    {Body : Type 0}
    → Json Body
    → ClaimInFlight × List IdempotencyRecord
    → Ending Body
    → Response Body × List IdempotencyRecord
ended json (claim, rows) (answers body now is_stored) =
    let (is_answered, after) = succeeded json claim rows body now is_stored in
    (if is_answered then answered body else not_stored, after)
ended json (claim, rows) (fails is_released) = (handler_failed, failed claim rows is_released)
ended json (claim, rows) dies = (no_answer, rows)

abbrev pub in_flight : ℕ → ℕ → ClaimInFlight
in_flight id status = record { record_id = id; status = status; settled = false; done = false }

abbrev pub handled :
    {Body : Type 0}
    → Json Body
    → Request
    → Handler Body
    → Begun Body × List IdempotencyRecord
    → Response Body × List IdempotencyRecord
handled json q h (proceed r, rows) =
    ended json (join_commits (in_flight r.id (declared_status q)) rows h.commits) h.ending
handled json q h (replay status body, rows) = (replayed body, rows)
handled json q h (key_reused, rows) = (refused key_reused, rows)
handled json q h (still_running, rows) = (refused still_running, rows)
handled json q h (duplicate_key, rows) = (refused duplicate_key, rows)

abbrev pub identity_of : Request → ℕ → Identity
identity_of q key = record { tenant_id = q.tenant_id; scope = q.scope; key = key }

abbrev pub keyed :
    {Body : Type 0}
    → Json Body
    → IdempotencyService
    → List IdempotencyRecord
    → ℕ
    → Request
    → ℕ
    → Handler Body
    → Option ℕ
    → Response Body × List IdempotencyRecord
keyed json service rows id q now h none = (if q.required then key_required else unguarded, rows)
keyed json service rows id q now h (some key) =
    handled json q h (begin json service rows id (identity_of q key) q.fingerprint now)

-- `intercept`, with the work of the handler left out: what it does to the keys, and the answer.
unfoldable pub intercept :
    {Body : Type 0}
    → Json Body
    → IdempotencyService
    → List IdempotencyRecord
    → ℕ
    → Request
    → ℕ
    → Handler Body
    → Response Body × List IdempotencyRecord
unfolding join_commits succeeded failed begin
intercept json service rows id q now h = keyed json service rows id q now h q.key
