-- ===== src/Idempotency/Service.antt =====
-- packages/idempotency/src/service.ts over its table. Each method is one transaction; an operation
-- that throws leaves the table as it was.
pub mod Runs
pub mod Claims
pub mod Meanwhile
pub mod Once
use mortar.Prelude.{
  ℕ, ◌+◌, ◌-◌, Bool, true, false, not, ◌&&◌, Option, none, some, List, [], ◌∷◌, map, filter, find,
  any, length, ltb, leb, ◌==◌, if◌then◌else◌,
}
use mortar.Idempotency.Record.{
  Status, in_progress, completed, IdempotencyRecord, Identity, is_for, is_in_progress,
}

pub record IdempotencyOptions : Type 0 where
  pub ttl_ms : Option ℕ
  pub lock_timeout_ms : Option ℕ

abbrev pub or_else : Option ℕ → ℕ → ℕ
or_else none n = n
or_else (some m) n = m

-- The service as its constructor makes it.
pub record IdempotencyService : Type 0 where
  pub ttl_ms : ℕ
  pub lock_timeout_ms : ℕ

abbrev pub service_of : IdempotencyOptions → IdempotencyService
service_of options = record {
  ttl_ms = or_else options.ttl_ms 86400000;
  lock_timeout_ms = or_else options.lock_timeout_ms 300000;
}

-- The printer and the parser of the runtime. A body for which there is no text, or that the printer
-- throws on, prints to none; `null_text` is the text of null.
pub record Json (Body : Type 0) : Type 0 where
  pub stringify : Body → Option ℕ
  pub parse : ℕ → Body
  pub null_text : ℕ

-- `BeginResult`, and the errors that `begin` throws. A stored null has no body.
pub data Begun (Body : Type 0) : Type 0 where
  proceed : IdempotencyRecord → Begun Body
  replay : ℕ → Option Body → Begun Body
  key_reused : Begun Body
  still_running : Begun Body
  duplicate_key : Begun Body

abbrev pub parsed : {Body : Type 0} → Json Body → Option ℕ → Option Body
parsed json none = none
parsed json (some text) = some (json.parse text)

-- `evaluate`: none when the claim may be taken over.
unfoldable pub evaluate :
    {Body : Type 0}
    → Json Body
    → IdempotencyService
    → IdempotencyRecord
    → ℕ
    → ℕ
    → Option (Begun Body)
evaluate json service existing print now =
    if leb existing.expires_at now
    then none
    else (if not (existing.fingerprint == print)
        then some key_reused
        else (if not (is_in_progress existing.status)
            then some
                (replay (or_else existing.response_status 200) (parsed json existing.response_body))
            else (if ltb service.lock_timeout_ms (now - existing.claimed_at)
                then none
                else some still_running)))

-- The record that a claim writes.
abbrev pub claimed : IdempotencyService → ℕ → Identity → ℕ → ℕ → IdempotencyRecord
claimed service id who print now = record {
  id = id;
  tenant_id = who.tenant_id;
  scope = who.scope;
  key = who.key;
  fingerprint = print;
  status = in_progress;
  response_status = none;
  response_body = none;
  claimed_at = now;
  completed_at = none;
  expires_at = now + service.ttl_ms;
}

-- The insert, which the unique index refuses when a record of the key is there.
abbrev pub save :
    {Body : Type 0}
    → List IdempotencyRecord
    → List IdempotencyRecord
    → Identity
    → IdempotencyRecord
    → Begun Body × List IdempotencyRecord
save before rows who r =
    if any (is_for who) rows then (duplicate_key, before) else (proceed r, r ∷ rows)

abbrev pub has_id : ℕ → IdempotencyRecord → Bool
has_id id r = r.id == id

abbrev pub remove : ℕ → List IdempotencyRecord → List IdempotencyRecord
remove id rows = filter (λ r. not (has_id id r)) rows

abbrev pub decide :
    {Body : Type 0}
    → Option (Begun Body)
    → List IdempotencyRecord
    → Identity
    → IdempotencyRecord
    → IdempotencyRecord
    → Begun Body × List IdempotencyRecord
decide (some decision) rows who existing r = (decision, rows)
decide none rows who existing r = save rows (remove existing.id rows) who r

abbrev pub begin_found :
    {Body : Type 0}
    → Json Body
    → IdempotencyService
    → Option IdempotencyRecord
    → List IdempotencyRecord
    → ℕ
    → Identity
    → ℕ
    → ℕ
    → Begun Body × List IdempotencyRecord
begin_found json service none rows id who print now =
    save rows rows who (claimed service id who print now)
begin_found json service (some existing) rows id who print now =
    decide (evaluate json service existing print now) rows who existing
      (claimed service id who print now)

-- `begin` of a request, by the digest of its payload; `id` is the one that the table gives.
unfoldable pub begin :
    {Body : Type 0}
    → Json Body
    → IdempotencyService
    → List IdempotencyRecord
    → ℕ
    → Identity
    → ℕ
    → ℕ
    → Begun Body × List IdempotencyRecord
unfolding evaluate
begin json service rows id who print now =
    begin_found json service (find (is_for who) rows) rows id who print now

abbrev pub mark_row : ℕ → ℕ → ℕ → IdempotencyRecord → IdempotencyRecord
mark_row id status now r =
    if has_id id r && is_in_progress r.status
    then record r {
      status = completed;
      response_status = some status;
      response_body = none;
      completed_at = some now;
    }
    else r

-- `markDone`
unfoldable pub mark_done : List IdempotencyRecord → ℕ → ℕ → ℕ → List IdempotencyRecord
mark_done rows id status now = map (mark_row id status now) rows

abbrev pub printed : Option ℕ → ℕ → ℕ
printed none null_text = null_text
printed (some text) null_text = text

-- `serializeResponse`; an undefined body is none.
abbrev pub serialize_response : {Body : Type 0} → Json Body → Option Body → ℕ
serialize_response json none = json.null_text
serialize_response json (some body) = printed (json.stringify body) json.null_text

abbrev pub complete_row : ℕ → ℕ → ℕ → ℕ → IdempotencyRecord → IdempotencyRecord
complete_row id status text now r =
    if has_id id r
    then record r {
      status = completed;
      response_status = some status;
      response_body = some text;
      completed_at = some now;
    }
    else r

unfoldable pub complete :
    {Body : Type 0}
    → Json Body
    → List IdempotencyRecord
    → ℕ
    → ℕ
    → Option Body
    → ℕ
    → List IdempotencyRecord
complete json rows id status body now =
    map (complete_row id status (serialize_response json body) now) rows

abbrev pub is_claim : ℕ → IdempotencyRecord → Bool
is_claim id r = has_id id r && is_in_progress r.status

unfoldable pub release : List IdempotencyRecord → ℕ → List IdempotencyRecord
release rows id = filter (λ r. not (is_claim id r)) rows

abbrev pub has_expired : ℕ → IdempotencyRecord → Bool
has_expired now r = ltb r.expires_at now

-- `purgeExpired`, with how many it deletes.
unfoldable pub purge_expired : List IdempotencyRecord → ℕ → ℕ × List IdempotencyRecord
purge_expired rows now =
    (length (filter (has_expired now) rows), filter (λ r. not (has_expired now r)) rows)
