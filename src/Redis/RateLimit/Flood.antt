-- ===== src/Redis/RateLimit/Flood.antt =====
-- Calls of packages/redis/src/rate-limit.ts within one millisecond, when each run of the script draws
-- the same: Redis seeds the draws of every script alike.
use mortar.Prelude.{
  ℕ, zero, suc, ◌+◌, ◌-◌, ◌≤◌, ◌<◌, ◌≡◌, refl, ap, inl, inr, true, false, some, arith, Bool-cases,
  Option-cases, leb, ltb,
}
use mortar.Redis.RateLimit.{Entry, Redis, Key, found, recent, add_all, used_at, consume}

module _ (redis : Redis) (window limit now : ℕ) (random : ℕ → ℕ) where
  open redis use {score, zcard, zadd, score_stays, score-zadd, zcard_new, zcard_again, zcard_rest}

  abbrev pub entry : Entry
  entry = record { at = now; place = 1; random = random 1 }

  -- So many calls of cost 1 in that millisecond.
  unfoldable pub again : ℕ → Key redis → Key redis
  again zero key = key
  again (suc n) key = (consume redis window limit 1 now random (again n key)).1

  -- The member of the first call is there, and one more would be let through.
  record Open (key : Key redis) : Type 0 where
    there : score entry key.sorted ≡ some now
    room : zcard key.sorted < limit
    lives : now < key.expires

  zcard-recent : (m : redis.Sorted) → zcard (recent redis window now m) ≤ zcard m
  zcard-recent m = elim (Bool-cases (leb window now)) [
    | inl cut ↦ rw cut (zcard_rest (now - window) m)
    | inr early ↦ rw early (omega arith)
  ]

  recent-there :
      (m : redis.Sorted)
      → 0 < window
      → score entry m ≡ some now
      → score entry (recent redis window now m) ≡ some now
  recent-there m h there = elim (Bool-cases (leb window now)) [
    | inl cut ↦ rw cut (score_stays (now - window) now entry m there (ground arith))
    | inr early ↦ rw early there
  ]

  -- What the call after it finds, where it leaves room.
  consume-room :
      (key : Key redis)
      → 0 < window
      → used_at redis window limit now key < limit
      → zcard (zadd now entry (recent redis window now (found redis now key))) < limit
      → ((consume redis window limit 1 now random key).0.allowed ≡ true)
        × Open (consume redis window limit 1 now random key).1
  unfolding consume add_all
  consume-room key h room next =
      let fits : ltb limit (used_at redis window limit now key + 1) ≡ false = ground arith in
      rw fits (refl, record { there = score-zadd now entry _; room = next; lives = omega arith })

  first-Open :
      (key : Key redis)
      → 0 < window
      → used_at redis window limit now key + 2 ≤ limit
      → ((consume redis window limit 1 now random key).0.allowed ≡ true)
        × Open (consume redis window limit 1 now random key).1
  first-Open key h room =
      let kept = recent redis window now (found redis now key) in
      consume-room key h (omega arith) (elim (Option-cases (score entry kept)) [
        | inl absent ↦ let new = zcard_new now entry kept absent in omega (arith, new)
        | inr (at, there) ↦ let same = zcard_again now at entry kept there in omega (arith, same)
      ])

  later-Open :
      (key : Key redis)
      → 0 < window
      → Open key
      → ((consume redis window limit 1 now random key).0.allowed ≡ true)
        × Open (consume redis window limit 1 now random key).1
  later-Open key h before =
      let alive : leb key.expires now ≡ false = let l = before.lives in ground arith in
      let there = recent-there key.sorted h before.there in
      let same = zcard_again now now entry _ there in
      let most = zcard-recent key.sorted in
      let room = before.room in
      let whole : found redis now key ≡ key.sorted = rw alive refl in
      let used = ap (λ m. zcard (recent redis window now m)) whole in
      let next = ap (λ m. zcard (zadd now entry (recent redis window now m))) whole in
      consume-room key h (omega (arith, used, most, room)) (omega (arith, next, same, most, room))

  again-Open :
      (key : Key redis) (n : ℕ)
      → 0 < window
      → used_at redis window limit now key + 2 ≤ limit
      → ((consume redis window limit 1 now random (again n key)).0.allowed ≡ true)
        × Open (consume redis window limit 1 now random (again n key)).1
  unfolding again
  again-Open key zero h room = first-Open key h room
  again-Open key (suc n) h room = later-Open (again (suc n) key) h (again-Open key n h room).1

  -- When the window is not empty, every run of the script draws the same and a key has room for
  -- two calls, calls of cost 1 in one millisecond are all allowed, however many there are.
  pub consume-flood :
      (key : Key redis) (n : ℕ)
      → 0 < window
      → used_at redis window limit now key + 2 ≤ limit
      → (consume redis window limit 1 now random (again n key)).0.allowed ≡ true
  consume-flood key n h room = (again-Open key n h room).0
