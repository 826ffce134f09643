-- ===== src/Idempotency/Service/Claims.antt =====
-- What a request that is told to proceed leaves in the table.
use mortar.Prelude.{
  ℕ, ◌≡◌, ◌≢◌, refl, sym, ap, ◌∙◌, subst, true, false, not, inl, inr, some, List, [], ◌∷◌, find,
  any, arith, All, All-filter, Bool-cases, Option-cases,
}
use mortar.Idempotency.Record.{IdempotencyRecord, Identity, is_for}
use mortar.Idempotency.Service.{
  IdempotencyService, Json, proceed, evaluate, has_id, begin, decide, save, claimed, remove,
}

-- Of a table that `begin` has left after it said to proceed, the claim is the only record of its key.
module _ {Body : Type 0} (json : Json Body) (service : IdempotencyService) (who : Identity)
    (id print now : ℕ) where
  pub evaluate-proceed :
      (r r' : IdempotencyRecord) (p t : ℕ) → evaluate json service r p t ≢ some (proceed r')
  unfolding evaluate
  evaluate-proceed r r' p t = ground arith

  others :
      (rows : List IdempotencyRecord)
      → All (λ r. r.id ≢ id) rows
      → any (is_for who) rows ≡ false
      → All (λ r. has_id id r ≡ is_for who r) rows
  others [] _ e = tt
  others (r ∷ rows) (h, hs) e = elim (Bool-cases (is_for who r)) [
    | inl t ↦ cc (rw t at e)
    | inr f ↦ (ground (arith, h, f), others rows hs (rw f at e))
  ]

  is_for-claimed : is_for who (claimed service id who print now) ≡ true
  is_for-claimed = ground arith

  abbrev pub Alone : List IdempotencyRecord → Type 0
  Alone rows =
      (find (is_for who) rows ≡ some (claimed service id who print now))
      × All (λ r. has_id id r ≡ is_for who r) rows

  -- What `begin` leaves when it says to proceed: the claim, and records of other keys.
  pub record Claims (r : IdempotencyRecord) (after : List IdempotencyRecord) : Type 0 where
    pub rest : List IdempotencyRecord
    pub is_claim : r ≡ claimed service id who print now
    pub table : after ≡ claimed service id who print now ∷ rest
    pub none_else : any (is_for who) rest ≡ false
    pub fresh : All (λ x. x.id ≢ id) rest

  save-Claims :
      (before rows after : List IdempotencyRecord) (r : IdempotencyRecord)
      → All (λ x. x.id ≢ id) rows
      → save {Body = Body} before rows who (claimed service id who print now) ≡ (proceed r, after)
      → Claims r after
  save-Claims before rows after r f e = elim (Bool-cases (any (is_for who) rows)) [
    | inl t ↦ cc (rw t at e)
    | inr n ↦ record {
      rest = rows;
      is_claim = cc (rw n at e);
      table = sym (ap (λ x. x.1) (rw n at e));
      none_else = n;
      fresh = f;
    }
  ]

  pub begin-Claims :
      (rows after : List IdempotencyRecord) (r : IdempotencyRecord)
      → All (λ x. x.id ≢ id) rows
      → begin json service rows id who print now ≡ (proceed r, after)
      → Claims r after
  unfolding begin
  begin-Claims rows after r f e = elim (Option-cases (find (is_for who) rows)) [
    | inl n ↦ save-Claims rows rows after r f (rw n at e)
    | inr (ex, h) ↦ found ex (rw h at e)
  ]
    where
      found :
          (ex : IdempotencyRecord)
          → decide
              (evaluate json service ex print now)
              rows
              who
              ex
              (claimed service id who print now)
            ≡ (proceed r, after)
          → Claims r after
      found ex e = elim (Option-cases (evaluate json service ex print now)) [
        | inl n ↦
            save-Claims rows (remove ex.id rows) after r
              (All-filter (λ x. x.id ≢ id) (λ x. not (has_id ex.id x)) rows f) (rw n at e)
        | inr (a, h) ↦
            absurd (evaluate-proceed ex r print now (h ∙ ap some (ap (λ x. x.0) (rw h at e))))
      ]

  pub begin-Alone :
      (rows after : List IdempotencyRecord) (r : IdempotencyRecord)
      → All (λ x. x.id ≢ id) rows
      → begin json service rows id who print now ≡ (proceed r, after)
      → Alone after
  begin-Alone rows after r f e =
      let c = begin-Claims rows after r f e in
      subst Alone (sym c.table) (
        rw is_for-claimed refl,
        (ground (arith, is_for-claimed), others c.rest c.fresh c.none_else),
      )
