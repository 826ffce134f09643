-- ===== src/Idempotency/Record.antt =====
-- packages/idempotency/src/entity.ts: a claimed key. Ids, keys, scopes, digests and stored texts are
-- told apart by equality only and stand as numbers; an instant is a number of milliseconds.
pub mod Identities
use mortar.Prelude.{ℕ, Bool, true, false, ◌&&◌, Option, none, some, ◌==◌}

pub data Status : Type 0 where
  in_progress completed : Status

pub record IdempotencyRecord : Type 0 where
  pub id : ℕ
  pub tenant_id : Option ℕ
  pub scope : ℕ
  pub key : ℕ
  pub fingerprint : ℕ
  pub status : Status
  pub response_status : Option ℕ
  pub response_body : Option ℕ
  pub claimed_at : ℕ
  pub completed_at : Option ℕ
  pub expires_at : ℕ

-- What a request repeats: its tenant, the operation and the key.
pub record Identity : Type 0 where
  pub tenant_id : Option ℕ
  pub scope : ℕ
  pub key : ℕ

-- Two requests without a tenant are of one: `IsNull()`, and the index over `COALESCE`.
abbrev pub same_tenant : Option ℕ → Option ℕ → Bool
same_tenant none none = true
same_tenant none (some b) = false
same_tenant (some a) none = false
same_tenant (some a) (some b) = a == b

abbrev pub is_for : Identity → IdempotencyRecord → Bool
is_for who r = same_tenant who.tenant_id r.tenant_id && (who.scope == r.scope) && (who.key == r.key)

abbrev pub is_in_progress : Status → Bool
is_in_progress in_progress = true
is_in_progress completed = false
