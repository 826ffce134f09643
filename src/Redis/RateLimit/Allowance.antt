-- ===== src/Redis/RateLimit/Allowance.antt =====
-- What packages/redis/src/rate-limit.ts lets through in any window.
use mortar.Prelude.{
  ℕ, suc, ◌+◌, ◌-◌, ◌≤◌, ◌<◌, ◌≡◌, refl, ◌∙◌, sym, inl, inr, ◌&&◌, none, List, [], ◌∷◌, arith,
  Bool-cases, leb, ltb, if◌then◌else◌,
}
use mortar.Redis.RateLimit.Added.{Unused, add_all-Unused, zcard-add_all, zcount-add_all}
use mortar.Redis.RateLimit.{Entry, Redis, Key, found, recent, add_all, used_at, consume}

-- A call of `consume`.
pub record Call : Type 0 where
  pub at : ℕ
  pub cost : ℕ
  pub random : ℕ → ℕ

-- The latest call first, before an instant, and no two in one millisecond.
abbrev pub InTime : ℕ → List Call → Type 0
InTime now [] = Unit
InTime now (c ∷ cs) = (c.at < now) × InTime c.at cs

-- What calls cost from an instant on, before another.
abbrev pub spent_in : ℕ → ℕ → List Call → ℕ
spent_in from to [] = 0
spent_in from to (c ∷ cs) =
    if leb from c.at && ltb c.at to then c.cost + spent_in from to cs else spent_in from to cs

-- What they cost from an instant on.
abbrev pub spent_from : ℕ → List Call → ℕ
spent_from from [] = 0
spent_from from (c ∷ cs) = if leb from c.at then c.cost + spent_from from cs else spent_from from cs

spent_in-le : (from to : ℕ) (cs : List Call) → spent_in from to cs ≤ spent_from from cs
spent_in-le from to [] = omega arith
spent_in-le from to (c ∷ cs) = ground (arith, spent_in-le from to cs)

module _ (redis : Redis) where
  open redis use {
    Sorted, zcount-zcard, zcount-nothing, zcount_all, zcount_above, zcount_rest, score_gone,
    score-nothing, score, zadd, zcard, zcount, zremrangebyscore, nothing, score_other, zcard_new,
    zcount_new,
  }

  module _ (window limit : ℕ) where
    zcount-recent :
        (now : ℕ) (m : Sorted)
        → zcount (suc now - window) (recent redis window now m) ≡ zcard (recent redis window now m)
    zcount-recent now m = elim (Bool-cases (leb window now)) [
      | inl cut ↦
          let from : suc now - window ≡ suc (now - window) = ground arith in
          rw (cut, from) (zcount_above (now - window) m)
      | inr early ↦
          let from : suc now - window ≡ 0 = ground arith in rw (early, from) (zcount_all m)
    ]

    -- The key before an instant, and the calls that were let through.
    record Before (now : ℕ) (key : Key redis) (through : List Call) : Type 0 where
      unused : (e : Entry) → now ≤ e.at → score e key.sorted ≡ none
      counted : (k : ℕ) → now < k + window → spent_from k through ≡ zcount k key.sorted
      ended : (k : ℕ) → key.expires < k + window → spent_from k through ≡ 0
      past : (k : ℕ) → now ≤ k → spent_from k through ≡ 0
      within : (k : ℕ) → spent_in k (k + window) through ≤ limit

    module _ (now : ℕ) (key : Key redis) (through : List Call)
        (before : Before now key through) where
      open before use {unused, counted, ended, past, within}

      found-unused : (e : Entry) → now ≤ e.at → score e (found redis now key) ≡ none
      found-unused e h = elim (Bool-cases (leb key.expires now)) [
        | inl gone ↦ rw gone (score-nothing e)
        | inr stays ↦ rw stays (unused e h)
      ]

      found-counted :
          (k : ℕ) → now < k + window → spent_from k through ≡ zcount k (found redis now key)
      found-counted k h = elim (Bool-cases (leb key.expires now)) [
        | inl gone ↦ rw (gone, zcount-nothing) (ended k (ground arith))
        | inr stays ↦ rw stays (counted k h)
      ]

      abbrev kept : Sorted
      kept = recent redis window now (found redis now key)

      kept-unused : (e : Entry) → now ≤ e.at → score e kept ≡ none
      kept-unused e h = elim (Bool-cases (leb window now)) [
        | inl cut ↦ rw cut (score_gone (now - window) e (found redis now key) (found-unused e h))
        | inr early ↦ rw early (found-unused e h)
      ]

      kept-counted : (k : ℕ) → now < k + window → spent_from k through ≡ zcount k kept
      kept-counted k h = elim (Bool-cases (leb window now)) [
        | inl cut ↦
            rw (cut, zcount_rest k (now - window) (found redis now key) (ground arith))
              (found-counted k h)
        | inr early ↦ rw early (found-counted k h)
      ]

      kept-zcard : spent_from (suc now - window) through ≡ zcard kept
      kept-zcard = kept-counted (suc now - window) (omega arith) ∙ zcount-recent now _

    module _ (c : Call) (key : Key redis) (through : List Call)
        (before : Before c.at key through) where
      open before use {ended, past, within}

      Before-refused :
          (later : ℕ)
          → c.at < later
          → Before later
              (record { sorted = kept c.at key through before; expires = key.expires })
              through
      Before-refused later h = record {
        unused = λ e g. kept-unused c.at key through before e (omega arith);
        counted = λ k g. kept-counted c.at key through before k (omega arith);
        ended = ended;
        past = λ k g. past k (omega arith);
        within = within;
      }

      abbrev with_all : Sorted
      with_all = add_all redis c.at c.random 1 c.cost (kept c.at key through before)

      kept-Unused : Unused redis c.at 1 (kept c.at key through before)
      kept-Unused e (inl h) = kept-unused c.at key through before e (omega arith)
      kept-Unused e (inr (h, g)) = kept-unused c.at key through before e (omega arith)

      with_all-counted :
          (k : ℕ) → c.at < k + window → spent_from k (c ∷ through) ≡ zcount k with_all
      with_all-counted k h =
          let all = zcount-add_all redis c.at c.random 1 c.cost k _ kept-Unused in
          let old = kept-counted c.at key through before k h in ground (arith, all, old)

      Before-allowed :
          (later : ℕ)
          → c.at < later
          → used_at redis window limit c.at key + c.cost ≤ limit
          → Before later (record { sorted = with_all; expires = c.at + window }) (c ∷ through)
      Before-allowed later h room = record {
        unused = λ e g. add_all-Unused redis c.at c.random 1 c.cost _ kept-Unused e (omega arith);
        counted = λ k g. with_all-counted k (omega arith);
        ended = λ k g. let old = past k (omega arith) in ground (arith, old);
        past = λ k g. let old = past k (omega arith) in ground (arith, old);
        within = λ k. elim (Bool-cases (ltb c.at (k + window))) [
          | inl inside ↦
              let counted = with_all-counted k (ground arith) in
              let all = zcard-add_all redis c.at c.random 1 c.cost _ kept-Unused in
              let most = zcount-zcard k with_all in
              let some_of = spent_in-le k (k + window) (c ∷ through) in
              omega (arith, counted, all, most, some_of)
          | inr beyond ↦ let old = within k in ground (arith, old)
        ];
      }

    -- The key, and the calls that were let through, the latest first.
    unfoldable pub after_calls : List Call → Key redis × List Call
    unfolding consume
    after_calls [] = (record { sorted = nothing; expires = 0 }, [])
    after_calls (c ∷ cs) =
        let (key, through) = after_calls cs in
        let (result, next) = consume redis window limit c.cost c.at c.random key in
        (next, if result.allowed then c ∷ through else through)

    after_calls-Before :
        (now : ℕ) (cs : List Call)
        → InTime now cs
        → Before now (after_calls cs).0 (after_calls cs).1
    unfolding after_calls consume
    after_calls-Before now [] _ = record {
      unused = λ e h. score-nothing e;
      counted = λ k h. sym (zcount-nothing k);
      ended = λ k h. refl;
      past = λ k h. refl;
      within = λ k. omega arith;
    }
    after_calls-Before now (c ∷ cs) (h, before) =
        let kept_so = after_calls-Before c.at cs before in
        let key = (after_calls cs).0 in
        elim (Bool-cases (ltb limit (used_at redis window limit c.at key + c.cost))) [
          | inl full ↦ rw full (Before-refused c key (after_calls cs).1 kept_so now h)
          | inr room ↦
              rw room (Before-allowed c key (after_calls cs).1 kept_so now h (ground arith))
        ]

    -- When no two calls fall in one millisecond, and all have one limit and one window, a call is
    -- allowed exactly when what it costs, with what the calls that were let through in the window
    -- that ends with it cost, is within the limit.
    pub consume-allowed :
        (c : Call) (cs : List Call)
        → InTime c.at cs
        → let (key, through) = after_calls cs in
          let (result, next) = consume redis window limit c.cost c.at c.random key in
          result.allowed ≡ leb (spent_from (suc c.at - window) through + c.cost) limit
    unfolding consume
    consume-allowed c cs h =
        let used = kept-zcard c.at _ _ (after_calls-Before c.at cs h) in
        elim (Bool-cases
          (ltb limit (used_at redis window limit c.at (after_calls cs).0 + c.cost))) [
            | inl full ↦ rw full (ground (arith, used))
            | inr room ↦ rw room (ground (arith, used))
          ]

    -- When no two calls fall in one millisecond, and all have one limit and one window, the calls
    -- that are let through in any span as long as the window come to no more than the limit.
    pub consume-within :
        (now k : ℕ) (cs : List Call)
        → InTime now cs
        → spent_in k (k + window) (after_calls cs).1 ≤ limit
    consume-within now k cs h = let before = after_calls-Before now cs h in before.within k
