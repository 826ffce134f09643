-- ===== src/Redis/RateLimit.antt =====
-- packages/redis/src/rate-limit.ts: the script, and the limiter that runs it. The sorted sets of Redis
-- are a parameter with the documented laws of its commands; a script is one step. Instants are
-- milliseconds of one clock, and costs, limits and windows are whole.

pub mod Added
pub mod Allowance
pub mod Flood
use mortar.Prelude.{
  ℕ, zero, suc, ◌+◌, ◌-◌, ◌/◌, ◌≤◌, ◌<◌, ◌≡◌, ◌≢◌, Bool, true, false, Option, none, some, leb, ltb,
  if◌then◌else◌,
}

-- `now .. '-' .. i .. '-' .. math.random()`
pub record Entry : Type 0 where
  pub at : ℕ
  pub place : ℕ
  pub random : ℕ

pub record Redis : Type 1 where
  pub Sorted : Type 0
  -- no key
  pub nothing : Sorted
  -- ZSCORE
  pub score : Entry → Sorted → Option ℕ
  -- ZADD of one member
  pub zadd : ℕ → Entry → Sorted → Sorted
  -- ZREMRANGEBYSCORE from 0
  pub zremrangebyscore : ℕ → Sorted → Sorted
  pub zcard : Sorted → ℕ
  -- ZCOUNT of the scores from a number on
  pub zcount : ℕ → Sorted → ℕ
  -- the score of `ZRANGE key 0 0 WITHSCORES`
  pub oldest : Sorted → Option ℕ
  pub score-nothing : (e : Entry) → score e nothing ≡ none
  pub score-zadd : (s : ℕ) (e : Entry) (m : Sorted) → score e (zadd s e m) ≡ some s
  pub score_other : (s : ℕ) (e f : Entry) (m : Sorted) → f ≢ e → score f (zadd s e m) ≡ score f m
  pub score_gone :
      (j : ℕ) (e : Entry) (m : Sorted) → score e m ≡ none → score e (zremrangebyscore j m) ≡ none
  pub score_stays :
      (j s : ℕ) (e : Entry) (m : Sorted)
      → score e m ≡ some s
      → j < s
      → score e (zremrangebyscore j m) ≡ some s
  pub zcard_new :
      (s : ℕ) (e : Entry) (m : Sorted) → score e m ≡ none → zcard (zadd s e m) ≡ suc (zcard m)
  pub zcard_again :
      (s t : ℕ) (e : Entry) (m : Sorted) → score e m ≡ some t → zcard (zadd s e m) ≡ zcard m
  pub zcard_rest : (j : ℕ) (m : Sorted) → zcard (zremrangebyscore j m) ≤ zcard m
  pub zcount_new :
      (k s : ℕ) (e : Entry) (m : Sorted)
      → score e m ≡ none
      → zcount k (zadd s e m) ≡ (if leb k s then suc (zcount k m) else zcount k m)
  pub zcount_rest : (k j : ℕ) (m : Sorted) → j < k → zcount k (zremrangebyscore j m) ≡ zcount k m
  pub zcount-nothing : (k : ℕ) → zcount k nothing ≡ 0
  pub zcount_all : (m : Sorted) → zcount 0 m ≡ zcard m
  pub zcount_above :
      (j : ℕ) (m : Sorted) → zcount (suc j) (zremrangebyscore j m) ≡ zcard (zremrangebyscore j m)
  pub zcount-zcard : (k : ℕ) (m : Sorted) → zcount k m ≤ zcard m

pub record RateLimitResult : Type 0 where
  pub allowed : Bool
  pub remaining : ℕ
  pub retry_after : ℕ
  pub limit : ℕ

module _ (redis : Redis) where
  open redis use {Sorted, nothing, zadd, zremrangebyscore, zcard, oldest}

  -- The value of a key, and the instant at which PEXPIRE has it go.
  pub record Key : Type 0 where
    pub sorted : Sorted
    pub expires : ℕ

  -- What a command that runs at an instant finds.
  abbrev pub found : ℕ → Key → Sorted
  found now key = if leb key.expires now then nothing else key.sorted

  -- ZREMRANGEBYSCORE key 0 (now - window); no score is below 0.
  abbrev pub recent : ℕ → ℕ → Sorted → Sorted
  recent window now m = if leb window now then zremrangebyscore (now - window) m else m

  -- `math.ceil((oldest + window - now) / 1000)`, and the window when there is none.
  abbrev pub retry_in : ℕ → ℕ → Option ℕ → ℕ
  retry_in window now none = window
  retry_in window now (some first) = (first + window - now + 999) / 1000

  -- `for i = 1, cost`, from the place that has its turn.
  unfoldable pub add_all : ℕ → (ℕ → ℕ) → ℕ → ℕ → Sorted → Sorted
  add_all now random i zero m = m
  add_all now random i (suc left) m =
      add_all now random (suc i) left
        (zadd now (record { at = now; place = i; random = random i }) m)

  module _ (window limit : ℕ) where
    -- `used`
    abbrev pub used_at : ℕ → Key → ℕ
    used_at now key = zcard (recent window now (found now key))

    -- The draws of `math.random()` come with the call.
    unfoldable pub consume : ℕ → ℕ → (ℕ → ℕ) → Key → RateLimitResult × Key
    unfolding add_all
    consume cost now random key =
        let kept = recent window now (found now key) in
        let used = zcard kept in
        if ltb limit (used + cost)
        then (
          record {
            allowed = false;
            remaining = limit - used;
            retry_after = retry_in window now (oldest kept);
            limit = limit;
          },
          record { sorted = kept; expires = key.expires },
        )
        else (
          record {
            allowed = true;
            remaining = limit - used - cost;
            retry_after = 0;
            limit = limit;
          },
          record { sorted = add_all now random 1 cost kept; expires = now + window },
        )

    abbrev pub peek : ℕ → (ℕ → ℕ) → Key → RateLimitResult × Key
    peek = consume 0

  -- DEL
  abbrev pub reset : Key → Key
  reset key = record { sorted = nothing; expires = 0 }
