-- ===== src/Idempotency/Claim/Retry.antt =====
-- A request sent again after the first has ended, however it ended.
use mortar.Prelude.{
  ℕ, ◌+◌, ◌<◌, ◌≡◌, ◌≢◌, refl, sym, ap, ◌∙◌, subst, Bool, true, false, not, inl, inr, Option, none,
  some, List, [], ◌∷◌, filter, find, any, arith, All, Bool-cases,
}
use mortar.Idempotency.Record.{IdempotencyRecord, Identity, is_for}
use mortar.Idempotency.Service.{
  IdempotencyService, Json, proceed, replay, begin, claimed, mark_done, is_claim, release,
}
use mortar.Idempotency.Service.Runs.{Call, completes, run, call}
use mortar.Idempotency.Service.Once.{mark_done-replay}
use mortar.Idempotency.Service.Meanwhile.{UntilExpiry}
use mortar.Idempotency.Service.Claims.{begin-Claims}
use mortar.Idempotency.Claim.{
  ClaimInFlight, Commit, Ending, answers, fails, dies, Handler, Request, declared_status,
  identity_of, in_flight, ended, participant, join_commits, succeeded, failed, intercept,
}

any-filter {ℓ} :
    {A : Type ℓ} (p q : A → Bool) (xs : List A) → any p xs ≡ false → any p (filter q xs) ≡ false
any-filter p q [] e = refl
any-filter p q (x ∷ xs) e = ground (arith, any-filter p q xs)

find-none {ℓ} : {A : Type ℓ} (p : A → Bool) (xs : List A) → any p xs ≡ false → find p xs ≡ none
find-none p [] e = refl
find-none p (x ∷ xs) e = ground (arith, find-none p xs)

-- A key of which there is no record is claimed.
begin-proceed :
    {Body : Type 0} (json : Json Body) (service : IdempotencyService)
    (rows : List IdempotencyRecord) (j : ℕ) (who : Identity) (p t : ℕ)
    → any (is_for who) rows ≡ false
    → begin json service rows j who p t
      ≡ (proceed (claimed service j who p t), claimed service j who p t ∷ rows)
unfolding begin
begin-proceed json service rows j who p t e = rw (find-none (is_for who) rows e, e) refl

-- Transactions that write nothing leave the claim and the table.
join_commits-idle :
    (claim : ClaimInFlight) (rows : List IdempotencyRecord) (cs : List Commit)
    → All (λ c. c.writes ≡ false) cs
    → join_commits claim rows cs ≡ (claim, rows)
unfolding join_commits participant
join_commits-idle claim rows [] _ = refl
join_commits-idle claim rows (c ∷ cs) (e, es) =
    ground (arith, e, join_commits-idle claim rows cs es)

-- Once done, a claim takes no part in what is committed later.
join_commits-done :
    (claim : ClaimInFlight) (rows : List IdempotencyRecord) (cs : List Commit)
    → claim.done ≡ true
    → join_commits claim rows cs ≡ (claim, rows)
unfolding join_commits participant
join_commits-done claim rows [] _ = refl
join_commits-done claim rows (c ∷ cs) e = ground (arith, e, join_commits-done claim rows cs e)

-- The first transaction that writes marks the key done, once.
join_commits-mark_done :
    (id st : ℕ) (rows : List IdempotencyRecord) (cs : List Commit)
    → any (λ c. c.writes) cs ≡ true
    → (t : ℕ) × (join_commits (in_flight id st) rows cs
        ≡ (record (in_flight id st) { done = true }, mark_done rows id st t))
unfolding join_commits participant
join_commits-mark_done id st rows [] e = cc
join_commits-mark_done id st rows (c ∷ cs) e = elim (Bool-cases c.writes) [
  | inl w ↦ (
    c.at,
    rw w (
        join_commits-done (record (in_flight id st) { done = true }) (mark_done rows id st c.at) cs
          refl),
  )
  | inr n ↦ rw n (join_commits-mark_done id st rows cs (rw n at e))
]

module _ {Body : Type 0} (json : Json Body) (service : IdempotencyService)
    (rows rows' : List IdempotencyRecord) (id : ℕ) (q : Request) (now key : ℕ) (h : Handler Body)
    (r : IdempotencyRecord) (has_key : q.key ≡ some key) (fresh : All (λ x. x.id ≢ id) rows)
    (proceeds : begin json service rows id (identity_of q key) q.fingerprint now
      ≡ (proceed r, rows')) where
  intercept-ended :
      intercept json service rows id q now h
      ≡ ended json (join_commits (in_flight id (declared_status q)) rows' h.commits) h.ending
  unfolding intercept
  intercept-ended =
      let c =
        begin-Claims json service (identity_of q key) id q.fingerprint now rows rows' r fresh
          proceeds in
      rw (has_key, proceeds, c.is_claim) refl

  release-other :
      (rest : List IdempotencyRecord)
      → All (λ x. x.id ≢ id) rest
      → any (is_for (identity_of q key)) rest ≡ false
      → any
          (is_for (identity_of q key))
          (release (claimed service id (identity_of q key) q.fingerprint now ∷ rest) id)
        ≡ false
  unfolding release
  release-other rest f e =
      let l = any-filter (is_for (identity_of q key)) (λ r. not (is_claim id r)) rest e in
      ground (arith, l)

  nothing_left :
      All (λ c. c.writes ≡ false) h.commits
      → h.ending ≡ fails true
      → any (is_for (identity_of q key)) (intercept json service rows id q now h).1 ≡ false
  unfolding failed
  nothing_left idle e =
      let c =
        begin-Claims json service (identity_of q key) id q.fingerprint now rows rows' r fresh
          proceeds in
      let end = ap (λ x. x.1) intercept-ended in
      rw
        (end, join_commits-idle (in_flight id (declared_status q)) rows' h.commits idle, e, c.table)
        (release-other c.rest c.fresh c.none_else)

  -- What the end of a claim that is done does is what the service does.
  ended-run :
      (rows : List IdempotencyRecord)
      → (cs : List (Call Body)) × All (UntilExpiry id (declared_status q) (now + service.ttl_ms)) cs
        × ((ended json (record (in_flight id (declared_status q)) { done = true }, rows) h.ending).1
            ≡ run json service rows cs)
  unfolding run call succeeded failed
  ended-run rows = of h.ending
    where
      of :
          (e : Ending Body)
          → (cs : List (Call Body)) × All
              (UntilExpiry id (declared_status q) (now + service.ttl_ms))
              cs
            × ((ended json (record (in_flight id (declared_status q)) { done = true }, rows) e).1
                ≡ run json service rows cs)
      of (answers body t true) =
          (completes id (declared_status q) body t ∷ [], ((λ e. refl), tt), refl)
      of (answers body t false) = ([], tt, refl)
      of (fails b) = ([], tt, refl)
      of dies = ([], tt, refl)

  -- A request with a key that is told to proceed under a fresh id, and whose handler fails with no
  -- transaction that writes, when the release goes through, leaves the key free: a request with
  -- the same tenant, scope and key is told to proceed at any instant.
  pub intercept-proceed :
      (j p t : ℕ)
      → All (λ c. c.writes ≡ false) h.commits
      → h.ending ≡ fails true
      → begin json service (intercept json service rows id q now h).1 j (identity_of q key) p t ≡ (
        proceed (claimed service j (identity_of q key) p t),
        claimed service j (identity_of q key) p t ∷ (intercept json service rows id q now h).1,
      )
  intercept-proceed j p t idle e =
      begin-proceed json service (intercept json service rows id q now h).1 j (identity_of q key) p
        t (nothing_left idle e)

  -- A request with a key that is told to proceed under a fresh id, and whose handler commits a
  -- transaction that writes, however the handler ends after that, is not done again: the same
  -- request, sent before the key expires with no other call in between, is replayed with the
  -- status that the route declares.
  pub intercept-replay :
      (j t : ℕ)
      → any (λ c. c.writes) h.commits ≡ true
      → t < now + service.ttl_ms
      → (b : Option Body) × (begin json service
            (intercept json service rows id q now h).1
            j
            (identity_of q key)
            q.fingerprint
            t
          ≡ (replay (declared_status q) b, (intercept json service rows id q now h).1))
  unfolding run
  intercept-replay j t w l =
      let st = declared_status q in
      let (m, e) = join_commits-mark_done id st rows' h.commits w in
      let (cs, u, c) = ended-run (mark_done rows' id st m) in
      let d =
        mark_done-replay json service (identity_of q key) id q.fingerprint now rows rows' r fresh
          proceeds [] cs st m j t tt u l in
      subst
        (λ x.
          (b : Option Body) × (begin json service x j (identity_of q key) q.fingerprint t
            ≡ (replay st b, x)))
        (sym (ap (λ x. x.1) intercept-ended ∙ ap (λ x. (ended json x h.ending).1) e ∙ c)) d
