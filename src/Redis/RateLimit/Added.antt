-- ===== src/Redis/RateLimit/Added.antt =====
-- The members that a call of packages/redis/src/rate-limit.ts adds.
use mortar.Prelude.{
  ℕ, zero, suc, ◌+◌, ◌≤◌, ◌<◌, ◌≡◌, ◌⊎◌, refl, ap, ◌∙◌, inl, inr, none, arith, leb, if◌then◌else◌,
}
use mortar.Redis.RateLimit.{Entry, Redis, add_all}

module _ (redis : Redis) where
  open redis use {
    Sorted, zcount-zcard, zcount-nothing, zcount_all, zcount_above, zcount_rest, score_gone,
    score-nothing, score, zadd, zcard, zcount, zremrangebyscore, nothing, score_other, zcard_new,
    zcount_new,
  }

  -- No member is of an instant after this one, or of this one and a place from this one on.
  abbrev pub Unused : ℕ → ℕ → Sorted → Type 0
  Unused at place m =
      (e : Entry) → (at < e.at) ⊎ ((e.at ≡ at) × (place ≤ e.place)) → score e m ≡ none

  zadd-Unused :
      (now i d : ℕ) (m : Sorted)
      → Unused now i m
      → Unused now (suc i) (zadd now (record { at = now; place = i; random = d }) m)
  zadd-Unused now i d m free e (inl h) =
      score_other now _ e m (λ q. omega (arith, ap (λ f. f.at) q)) ∙ free e (inl h)
  zadd-Unused now i d m free e (inr (same, h)) =
      score_other now _ e m (λ q. omega (arith, ap (λ f. f.place) q))
      ∙ free e (inr (same, omega arith))

  pub add_all-Unused :
      (now : ℕ) (random : ℕ → ℕ) (i n : ℕ) (m : Sorted)
      → Unused now i m
      → (e : Entry) → now < e.at
      → score e (add_all redis now random i n m) ≡ none
  unfolding add_all
  add_all-Unused now random i zero m free e h = free e (inl h)
  add_all-Unused now random i (suc n) m free e h =
      add_all-Unused now random (suc i) n _ (zadd-Unused now i (random i) m free) e h

  pub zcard-add_all :
      (now : ℕ) (random : ℕ → ℕ) (i n : ℕ) (m : Sorted)
      → Unused now i m
      → zcard (add_all redis now random i n m) ≡ n + zcard m
  unfolding add_all
  zcard-add_all now random i zero m free = omega arith
  zcard-add_all now random i (suc n) m free =
      let new =
        zcard_new now (record { at = now; place = i; random = random i }) m
          (free _ (inr (refl, omega arith))) in
      let rest = zcard-add_all now random (suc i) n _ (zadd-Unused now i (random i) m free) in
      omega (arith, new, rest)

  pub zcount-add_all :
      (now : ℕ) (random : ℕ → ℕ) (i n k : ℕ) (m : Sorted)
      → Unused now i m
      → zcount k (add_all redis now random i n m)
        ≡ (if leb k now then n + zcount k m else zcount k m)
  unfolding add_all
  zcount-add_all now random i zero k m free = ground arith
  zcount-add_all now random i (suc n) k m free =
      let new =
        zcount_new k now (record { at = now; place = i; random = random i }) m
          (free _ (inr (refl, omega arith))) in
      let rest = zcount-add_all now random (suc i) n k _ (zadd-Unused now i (random i) m free) in
      ground (arith, new, rest)
