-- ===== src/Idempotency/Service/Once.antt =====
-- A key is claimed once, and a claim that was marked done in time is answered from then on.
use mortar.Prelude.{
  ℕ, ⊤, ◌+◌, ◌≤◌, ◌<◌, ◌≡◌, ◌≢◌, refl, ap, ◌∙◌, inl, inr, Option, some, List, arith, All, All-mono,
  All-map, find-map,
}
use mortar.Idempotency.Record.{IdempotencyRecord, Identity, is_for}
use mortar.Idempotency.Service.{
  IdempotencyService, Json, proceed, replay, evaluate, has_id, begin, claimed, mark_done, mark_row,
  or_else, parsed,
}
use mortar.Idempotency.Service.Runs.{Call, Stands, run, run-Stands, found_id}
use mortar.Idempotency.Service.Claims.{Alone, begin-Alone, evaluate-proceed}
use mortar.Idempotency.Service.Meanwhile.{
  IsOpenOr, WhileClaimed, IsAnswered, UntilExpiry, decided_open, WhileClaimed-Respects,
  UntilExpiry-Respects,
}

module _ {Body : Type 0} (json : Json Body) (service : IdempotencyService) (who : Identity)
    (id print now : ℕ) where
  claimed-Stands :
      (S : Option ℕ → Type 0) (rows : List IdempotencyRecord)
      → Alone json service who id print now rows
      → Stands json service who id (IsOpenOr S print now (now + service.ttl_ms)) rows
  claimed-Stands S rows (e, ids) = record {
    found = claimed service id who print now;
    at = e;
    is_so = (refl, refl, inl (refl, refl));
    ids = ids;
  }

  module _ (rows rows' : List IdempotencyRecord) (r : IdempotencyRecord)
      (fresh : All (λ x. x.id ≢ id) rows)
      (proceeds : begin json service rows id who print now ≡ (proceed r, rows')) where
    standing :
        (S : Option ℕ → Type 0) (cs : List (Call Body))
        → All (WhileClaimed S id (now + service.lock_timeout_ms) (now + service.ttl_ms)) cs
        → Stands json service who id
            (IsOpenOr S print now (now + service.ttl_ms))
            (run json service rows' cs)
    standing S cs h =
        run-Stands json service who id (IsOpenOr S print now (now + service.ttl_ms))
          (WhileClaimed S id (now + service.lock_timeout_ms) (now + service.ttl_ms))
          (WhileClaimed-Respects json service who id print now S) cs rows' h
          (claimed-Stands S rows'
            (begin-Alone json service who id print now rows rows' r fresh proceeds))

    -- After a request was told to proceed under a fresh id, and any calls within the lock timeout
    -- and before the expiry, none of which released the claim, no request with the same tenant,
    -- scope and key, whatever its payload, is told to proceed within that time.
    pub begin_once :
        (cs : List (Call Body)) (j p t : ℕ) (r' : IdempotencyRecord)
        → All (WhileClaimed (λ x. ⊤) id (now + service.lock_timeout_ms) (now + service.ttl_ms)) cs
        → t ≤ now + service.lock_timeout_ms
        → t < now + service.ttl_ms
        → (begin json service (run json service rows' cs) j who p t).0 ≢ proceed r'
    unfolding begin
    begin_once cs j p t r' h k l q =
        let s = standing (λ x. ⊤) cs h in
        let (a, d) = decided_open json service who id print now (λ x. ⊤) s.found p t s.is_so k l in
        evaluate-proceed json service who id print now s.found r' p t
          (d ∙ ap some (rw (s.at, d) at q))

    marked-Stands :
        (before : List IdempotencyRecord) (st t : ℕ)
        → Stands json service who id
            (IsOpenOr (λ x. x ≡ some st) print now (now + service.ttl_ms))
            before
        → Stands json service who id
            (IsAnswered st print (now + service.ttl_ms))
            (mark_done before id st t)
    unfolding mark_done
    marked-Stands before st t s =
        let f = mark_row id st t in
        let own =
          found_id json service who id
            (IsOpenOr (λ x. x ≡ some st) print now (now + service.ttl_ms)) before s in
        record {
          found = f s.found;
          at = find-map (is_for who) f before s.found (λ x. ground arith) s.at;
          is_so = elim s.is_so.2 [
            | inl (o, _) ↦ ground (arith, own, o, s.is_so.0, s.is_so.1)
            | inr (o, q) ↦ ground (arith, o, q, s.is_so.0, s.is_so.1)
          ];
          ids =
              All-map (λ x. has_id id x ≡ is_for who x) f before
                (All-mono (λ x. has_id id x ≡ is_for who x)
                  (λ x. has_id id (f x) ≡ is_for who (f x)) before (λ x e. ground (arith, e))
                  s.ids);
        }

    answered-replay :
        (rows : List IdempotencyRecord) (st j t : ℕ)
        → Stands json service who id (IsAnswered st print (now + service.ttl_ms)) rows
        → t < now + service.ttl_ms
        → (b : Option Body) × (begin json service rows j who print t ≡ (replay st b, rows))
    unfolding begin evaluate
    answered-replay rows st j t s l =
        (parsed json s.found.response_body, rw (s.at, replays s.found s.is_so) refl)
      where
        replays :
            (r : IdempotencyRecord)
            → IsAnswered st print (now + service.ttl_ms) r
            → evaluate json service r print t ≡ some (replay st (parsed json r.response_body))
        replays r (e, p, o, q) = ground (arith, e, p, o, l, ap (λ x. or_else x 200) q)

    -- A request that was told to proceed under a fresh id, and whose claim was marked done after
    -- any calls within the lock timeout and before the expiry, none of which released it, is
    -- answered from then on: after any calls before the expiry, releases of the claim included,
    -- the same request is replayed with the status of the claim, when every call that answered the
    -- claim gave that status, and it changes nothing.
    pub mark_done-replay :
        (cs cs' : List (Call Body)) (st t j t' : ℕ)
        → All
            (WhileClaimed
              (λ x. x ≡ some st)
              id
              (now + service.lock_timeout_ms)
              (now + service.ttl_ms))
            cs
        → All (UntilExpiry id st (now + service.ttl_ms)) cs'
        → t' < now + service.ttl_ms
        → (b : Option Body) × (begin json service
              (run json service (mark_done (run json service rows' cs) id st t) cs')
              j
              who
              print
              t'
            ≡ (replay st b, run json service (mark_done (run json service rows' cs) id st t) cs'))
    mark_done-replay cs cs' st t j t' h h' l =
        let before = run json service rows' cs in
        let after = mark_done before id st t in
        answered-replay (run json service after cs') st j t'
          (run-Stands json service who id (IsAnswered st print (now + service.ttl_ms))
            (UntilExpiry id st (now + service.ttl_ms))
            (UntilExpiry-Respects json service who id print now st) cs' after h'
            (marked-Stands before st t (standing (λ x. x ≡ some st) cs h)))
          l
