-- ===== src/Idempotency/Service/Runs.antt =====
-- Requests, completions, releases and purges, in any order, on one table, and what keeps a record
-- standing through them.
use mortar.Prelude.{
  ℕ, ◌≡◌, ◌≢◌, sym, ap, ◌∙◌, Bool, true, false, not, inl, inr, Option, none, some, some-injective,
  List, [], ◌∷◌, map, filter, find, any, arith, All, All-mono, All-filter, All-map, All-find,
  Bool-cases, Option-cases, find-true, find-filter, find-map,
}
use mortar.Idempotency.Record.{IdempotencyRecord, Identity, is_for}
use mortar.Idempotency.Service.{
  IdempotencyService, Json, Begun, evaluate, has_id, begin, decide, save, claimed, remove,
  mark_done, mark_row, complete, complete_row, serialize_response, is_claim, release, purge_expired,
  has_expired,
}
use mortar.Idempotency.Record.Identities.{is_for_other, find-is_for}

-- One call of the service, with the id that the table would give and the instant.
pub data Call (Body : Type 0) : Type 0 where
  begins : ℕ → Identity → ℕ → ℕ → Call Body
  marks : ℕ → ℕ → ℕ → Call Body
  completes : ℕ → ℕ → Option Body → ℕ → Call Body
  releases : ℕ → Call Body
  purges : ℕ → Call Body

module _ {Body : Type 0} (json : Json Body) (service : IdempotencyService) where
  unfoldable pub call : List IdempotencyRecord → Call Body → List IdempotencyRecord
  unfolding begin mark_done complete release purge_expired
  call rows (begins id who print now) = (begin json service rows id who print now).1
  call rows (marks id status now) = mark_done rows id status now
  call rows (completes id status body now) = complete json rows id status body now
  call rows (releases id) = release rows id
  call rows (purges now) = (purge_expired rows now).1

  unfoldable pub run : List IdempotencyRecord → List (Call Body) → List IdempotencyRecord
  unfolding call
  run rows [] = rows
  run rows (c ∷ cs) = run (call rows c) cs

  is_for-claimed : (w : Identity) (j p now : ℕ) → is_for w (claimed service j w p now) ≡ true
  is_for-claimed w j p now = ground arith

  module _ (who : Identity) (id : ℕ) (R : IdempotencyRecord → Type 0) where
    -- The key has a record, it is as `R` says, and it alone has this id.
    pub record Stands (rows : List IdempotencyRecord) : Type 0 where
      pub found : IdempotencyRecord
      pub at : find (is_for who) rows ≡ some found
      pub is_so : R found
      pub ids : All (λ r. has_id id r ≡ is_for who r) rows

    -- What calls of a kind must not do to a record as `R` says.
    pub record Respects (C : Call Body → Type 0) : Type 0 where
      pub fresh : (j : ℕ) (w : Identity) (p now : ℕ) → C (begins j w p now) → j ≢ id
      pub decided :
          (r : IdempotencyRecord) (j : ℕ) (w : Identity) (p now : ℕ)
          → R r
          → C (begins j w p now)
          → (a : Begun Body) × (evaluate json service r p now ≡ some a)
      pub marked :
          (r : IdempotencyRecord) (j st now : ℕ)
          → has_id id r ≡ true
          → R r
          → C (marks j st now)
          → R (mark_row j st now r)
      pub answered :
          (r : IdempotencyRecord) (j st : ℕ) (body : Option Body) (now : ℕ)
          → has_id id r ≡ true
          → R r
          → C (completes j st body now)
          → R (complete_row j st (serialize_response json body) now r)
      pub unreleased :
          (r : IdempotencyRecord) (j : ℕ)
          → has_id id r ≡ true
          → R r
          → C (releases j)
          → not (is_claim j r) ≡ true
      pub unpurged :
          (r : IdempotencyRecord) (now : ℕ) → R r → C (purges now) → not (has_expired now r) ≡ true

    module _ (rows : List IdempotencyRecord) (s : Stands rows) where
      Stands-map :
          (f : IdempotencyRecord → IdempotencyRecord)
          → ((r : IdempotencyRecord) → is_for who (f r) ≡ is_for who r)
          → ((r : IdempotencyRecord) → has_id id (f r) ≡ has_id id r)
          → R (f s.found)
          → Stands (map f rows)
      Stands-map f same same_id r = record {
        found = f s.found;
        at = find-map (is_for who) f rows s.found same s.at;
        is_so = r;
        ids =
            All-map (λ x. has_id id x ≡ is_for who x) f rows
              (All-mono (λ x. has_id id x ≡ is_for who x) (λ x. has_id id (f x) ≡ is_for who (f x))
                rows (λ x e. same_id x ∙ e ∙ sym (same x)) s.ids);
      }

      Stands-filter : (q : IdempotencyRecord → Bool) → q s.found ≡ true → Stands (filter q rows)
      Stands-filter q e = record {
        found = s.found;
        at = find-filter (is_for who) q rows s.found s.at e;
        is_so = s.is_so;
        ids = All-filter (λ x. has_id id x ≡ is_for who x) q rows s.ids;
      }

      pub found_id : has_id id s.found ≡ true
      found_id =
          let (e, h) =
            All-find (λ x. has_id id x ≡ is_for who x) (is_for who) rows s.found s.at s.ids in
          e ∙ h

      Stands-cons : (r : IdempotencyRecord) → is_for who r ≡ false → r.id ≢ id → Stands (r ∷ rows)
      Stands-cons r e ne = record {
        found = s.found;
        at = rw e s.at;
        is_so = s.is_so;
        ids = (ground (arith, e, ne), s.ids);
      }

    save-Stands :
        (before rows : List IdempotencyRecord) (w : Identity) (r : IdempotencyRecord)
        → Stands before
        → Stands rows
        → is_for who r ≡ false
        → r.id ≢ id
        → Stands (save {Body = Body} before rows w r).1
    save-Stands before rows w r sb s e ne = elim (Bool-cases (any (is_for w) rows)) [
      | inl h ↦ rw h sb
      | inr h ↦ rw h (Stands-cons rows s r e ne)
    ]

    module _ (C : Call Body → Type 0) (k : Respects C) where
      -- A claim that is written is for another key.
      claimed_other :
          (rows : List IdempotencyRecord) (s : Stands rows) (w : Identity) (r : IdempotencyRecord)
          → is_for w r ≡ true
          → find (is_for w) rows ≡ none
          → is_for who r ≡ false
      claimed_other rows s w r e h = elim (Bool-cases (is_for who r)) [
        | inl t ↦ cc (find-is_for who w r rows t e, s.at, h)
        | inr f ↦ f
      ]

      taken_over_other :
          (rows : List IdempotencyRecord) (s : Stands rows) (j : ℕ) (w : Identity) (p now : ℕ)
          (ex : IdempotencyRecord)
          → C (begins j w p now)
          → find (is_for w) rows ≡ some ex
          → evaluate json service ex p now ≡ none
          → is_for who ex ≡ false
      taken_over_other rows s j w p now ex c e h = elim (Bool-cases (is_for who ex)) [
        | inl t ↦
            let same =
              sym e ∙ find-is_for who w ex rows t (find-true (is_for w) rows ex e) ∙ s.at in
            let (a, d) = k.decided s.found j w p now s.is_so c in
            cc (ap (λ x. evaluate json service x p now) (some-injective _ _ same), d, h)
        | inr f ↦ f
      ]

      taken_over-Stands :
          (rows : List IdempotencyRecord) (s : Stands rows) (j : ℕ) (w : Identity) (p now : ℕ)
          (ex : IdempotencyRecord)
          → C (begins j w p now)
          → find (is_for w) rows ≡ some ex
          → evaluate json service ex p now ≡ none
          → Stands (save {Body = Body} rows (remove ex.id rows) w (claimed service j w p now)).1
      taken_over-Stands rows s j w p now ex c e h =
          let o = taken_over_other rows s j w p now ex c e h in
          let (i, t) = All-find (λ x. has_id id x ≡ is_for who x) (is_for w) rows ex e s.ids in
          let r = claimed service j w p now in
          save-Stands rows (remove ex.id rows) w r s
            (Stands-filter rows s (λ x. not (has_id ex.id x))
              (ground (arith, i, o, found_id rows s)))
            (is_for_other who w r ex (is_for-claimed w j p now) t o) (k.fresh j w p now c)

      begins-Stands :
          (rows : List IdempotencyRecord) (s : Stands rows) (j : ℕ) (w : Identity) (p now : ℕ)
          → C (begins j w p now)
          → Stands (begin json service rows j w p now).1
      unfolding begin
      begins-Stands rows s j w p now c = elim (Option-cases (find (is_for w) rows)) [
        | inl e ↦ rw e (
            save-Stands rows rows w (claimed service j w p now) s s
              (claimed_other rows s w (claimed service j w p now) (is_for-claimed w j p now) e)
              (k.fresh j w p now c))
        | inr (ex, e) ↦ rw e (taken ex e)
      ]
        where
          taken :
              (ex : IdempotencyRecord)
              → find (is_for w) rows ≡ some ex
              → Stands
                  (decide (evaluate json service ex p now) rows w ex (claimed service j w p now)).1
          taken ex e = elim (Option-cases (evaluate json service ex p now)) [
            | inl h ↦ rw h (taken_over-Stands rows s j w p now ex c e h)
            | inr (a, h) ↦ rw h s
          ]

      call-Stands :
          (rows : List IdempotencyRecord) (c : Call Body) → C c → Stands rows → Stands (call rows c)
      unfolding call mark_done complete release purge_expired
      call-Stands rows (begins j w p now) c s = begins-Stands rows s j w p now c
      call-Stands rows (marks j status now) c s =
          Stands-map rows s (mark_row j status now) (λ r. ground arith) (λ r. ground arith)
            (k.marked s.found j status now (found_id rows s) s.is_so c)
      call-Stands rows (completes j status body now) c s =
          let text = serialize_response json body in
          Stands-map rows s (complete_row j status text now) (λ r. ground arith) (λ r. ground arith)
            (k.answered s.found j status body now (found_id rows s) s.is_so c)
      call-Stands rows (releases j) c s =
          Stands-filter rows s (λ r. not (is_claim j r))
            (k.unreleased s.found j (found_id rows s) s.is_so c)
      call-Stands rows (purges now) c s =
          Stands-filter rows s (λ r. not (has_expired now r)) (k.unpurged s.found now s.is_so c)

      pub run-Stands :
          (cs : List (Call Body)) (rows : List IdempotencyRecord)
          → All C cs
          → Stands rows
          → Stands (run rows cs)
      unfolding run
      run-Stands [] rows _ s = s
      run-Stands (c ∷ cs) rows (h, hs) s = run-Stands cs (call rows c) hs (call-Stands rows c h s)
