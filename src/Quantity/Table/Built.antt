-- ===== src/Quantity/Table/Built.antt =====
-- What a table of packages/quantity/src/table.ts that was built is worth.
use mortar.Prelude.{
  ℕ, suc, ◌≡◌, ◌≢◌, ◌⊎◌, ◌<◌, refl, ap, sym, subst, ◌∙◌, inl, inr, true, false, Option, none, some,
  List, [], ◌∷◌, length, All, arith, ◌==◌, Bool-cases, Option-cases, ==_iff, some-injective,
}
use mortar.Quantity.Table.{
  Decimals, UnitSpec, Factors, factor_of, spec_of, resolve, resolve_all, unit_table, UnitTable,
  Outcome, ok, problem, out_of_fuel, ◌>>=◌, duplicates, bad_base, built, duplicate, missing_base,
}
use mortar.Quantity.Table.Resolved.{
  waiting, waiting-le-length, Means, Entry, Explained, Good, resolve-Good,
}

module _ (decimals : Decimals) (units : List (UnitSpec decimals)) (base : ℕ) where
  open decimals use {D, one, times, more_than_zero}

  -- A unit that a table has a factor for.
  abbrev pub HasFactor : Factors decimals → UnitSpec decimals → Type 0
  HasFactor fs u = (f : D) × (factor_of decimals fs u.code ≡ some f)

  abbrev Kept : Factors decimals → Factors decimals → Type 0
  Kept r r' = (c : ℕ) (g : D) → factor_of decimals r c ≡ some g → factor_of decimals r' c ≡ some g

  abbrev Complete :
      Factors decimals → List (UnitSpec decimals) → Outcome (Factors decimals) → Type 0
  Complete r us (ok r') = Explained decimals units base r' × Kept r r' × All (HasFactor r') us
  Complete r us (problem reason u) = Unit
  Complete r us out_of_fuel = ⊥

  then-Complete :
      (r r' : Factors decimals) (u : UnitSpec decimals) (us : List (UnitSpec decimals)) (f : D)
      → factor_of decimals r' u.code ≡ some f
      → Kept r r'
      → (answer : Outcome (Factors decimals)) → Complete r' us answer
      → Complete r (u ∷ us) answer
  then-Complete r r' u us f e kept (ok r'') (explained, later, all) =
      (explained, λ c g q. later c g (kept c g q), ((f, later u.code f e), all))
  then-Complete r r' u us f e kept (problem reason v) _ = tt
  then-Complete r r' u us f e kept out_of_fuel h = absurd h

  Means-later :
      (spec : UnitSpec decimals) (f g : D) (c : ℕ) (rest : Factors decimals)
      → factor_of decimals rest c ≡ none
      → Means decimals units spec f rest
      → Means decimals units spec f ((c, g) ∷ rest)
  Means-later spec f g c rest fresh (inl t) = inl t
  Means-later spec f g c rest fresh (inr (p, h, t, q, e, m)) = elim (Bool-cases (c == p)) [
    | inl same ↦
        let wrong : ◌≡◌ {A = Option D} none (some h) =
          sym fresh ∙ ap (factor_of decimals rest) ((==_iff c p).0 same) ∙ e in
        cc
    | inr other ↦ inr (p, h, t, q, rw other e, m)
  ]

  -- The base, or a unit whose factor is what its specification makes of the factors of the table.
  abbrev Worth : Factors decimals → ℕ → D → Type 0
  Worth fs code f =
      ((code ≡ base) × (f ≡ one))
      ⊎ ((spec : UnitSpec decimals) × (spec_of decimals units code ≡ some spec)
          × Means decimals units spec f fs
          × (more_than_zero f ≡ true))

  Worth-here :
      (c : ℕ) (g : D) (rest : Factors decimals)
      → Entry decimals units base c g rest
      → Worth ((c, g) ∷ rest) c g
  Worth-here c g rest (inl (b, o, r)) = inl (b, o)
  Worth-here c g rest (inr (spec, at_c, means, more, fresh)) =
      inr (spec, at_c, Means-later spec g g c rest fresh means, more)

  Worth-later :
      (c : ℕ) (g : D) (rest : Factors decimals) (code : ℕ) (f : D)
      → Entry decimals units base c g rest
      → factor_of decimals rest code ≡ some f
      → Worth rest code f
      → Worth ((c, g) ∷ rest) code f
  Worth-later c g rest code f (inl (b, o, r)) e w =
      let wrong : ◌≡◌ {A = Option D} none (some f) = rw r at e in cc
  Worth-later c g rest code f (inr _) e (inl w) = inl w
  Worth-later c g rest code f (inr (_, _, _, _, fresh)) e (inr (spec, at_code, means, more)) =
      inr (spec, at_code, Means-later spec f g c rest fresh means, more)

  Worth-in :
      (fs : Factors decimals) (code : ℕ) (f : D)
      → Explained decimals units base fs
      → factor_of decimals fs code ≡ some f
      → Worth fs code f
  Worth-in [] code f x e = cc
  Worth-in ((c, g) ∷ rest) code f (entry, x) e = elim (Bool-cases (c == code)) [
    | inl same ↦
        let g-eq : g ≡ f = some-injective g f (rw same at e) in
        subst (λ k. Worth ((c, g) ∷ rest) k f) ((==_iff c code).0 same)
          (subst (λ h. Worth ((c, g) ∷ rest) c h) g-eq (Worth-here c g rest entry))
    | inr other ↦
        let later : factor_of decimals rest code ≡ some f = rw other at e in
        Worth-later c g rest code f entry later (Worth-in rest code f x later)
  ]

  module _ (fuel : ℕ) (enough : waiting decimals units [] units < fuel) where
    after_resolve :
        (r : Factors decimals) (u : UnitSpec decimals) (us : List (UnitSpec decimals))
        → ((r' : Factors decimals)
            → Explained decimals units base r'
            → Complete r' us (resolve_all decimals units fuel r' us))
        → (answer : Outcome (D × Factors decimals)) → Good decimals units base [] r u.code answer
        → Complete r (u ∷ us) (answer >>= λ a. resolve_all decimals units fuel a.1 us)
    after_resolve r u us ih (ok (f, r')) (explained, e, (kept, _)) =
        then-Complete r r' u us f e kept (resolve_all decimals units fuel r' us) (ih r' explained)
    after_resolve r u us ih (problem reason v) _ = tt
    after_resolve r u us ih out_of_fuel h = absurd h

    resolve_all-Complete :
        (r : Factors decimals) (us : List (UnitSpec decimals))
        → Explained decimals units base r
        → Complete r us (resolve_all decimals units fuel r us)
    unfolding resolve_all
    resolve_all-Complete r [] e = (e, λ c g q. q, tt)
    resolve_all-Complete r (u ∷ us) e =
        after_resolve r u us (λ r' e'. resolve_all-Complete r' us e')
          (resolve decimals units fuel [] r u.code)
          (resolve-Good decimals units base fuel [] r u.code enough e)

  -- What the whole of `unit_table` answers.
  abbrev Answer : Outcome (UnitTable decimals) → Type 0
  Answer (ok table) =
      (table.base ≡ base)
      × Explained decimals units base table.factors
      × All (HasFactor table.factors) units
  Answer (problem reason u) = Unit
  Answer out_of_fuel = ⊥

  built-Answer :
      (r : Factors decimals) (answer : Outcome (Factors decimals))
      → Complete r units answer
      → Answer (answer >>= λ fs. ok (built decimals base units fs))
  built-Answer r (ok fs) (explained, kept, all) = (refl, explained, all)
  built-Answer r (problem reason u) _ = tt
  built-Answer r out_of_fuel h = absurd h

  abbrev resolved : Outcome (Factors decimals)
  resolved = resolve_all decimals units (suc (length units)) ((base, one) ∷ []) units

  unit_table-twice :
      (code : ℕ)
      → duplicates decimals [] units ≡ some code
      → unit_table decimals units base ≡ problem duplicate code
  unfolding unit_table
  unit_table-twice code h = rw (h, unit_table)

  unit_table-bad :
      duplicates decimals [] units ≡ none
      → bad_base decimals (spec_of decimals units base) ≡ true
      → unit_table decimals units base ≡ problem missing_base base
  unfolding unit_table
  unit_table-bad h k = rw (h, unit_table) (rw k refl)

  unit_table-resolved :
      duplicates decimals [] units ≡ none
      → bad_base decimals (spec_of decimals units base) ≡ false
      → unit_table decimals units base ≡ (resolved >>= λ fs. ok (built decimals base units fs))
  unfolding unit_table
  unit_table-resolved h k = rw (h, unit_table) (rw k refl)

  unit_table-Answer : Answer (unit_table decimals units base)
  unit_table-Answer = elim (Option-cases (duplicates decimals [] units)) [
    | inr (code, twice) ↦ subst Answer (sym (unit_table-twice code twice)) tt
    | inl once ↦ elim (Bool-cases (bad_base decimals (spec_of decimals units base))) [
      | inl bad ↦ subst Answer (sym (unit_table-bad once bad)) tt
      | inr good ↦ subst Answer (sym (unit_table-resolved once good)) (
          built-Answer ((base, one) ∷ []) resolved (
            resolve_all-Complete (suc (length units))
              (omega (arith, waiting-le-length decimals units units)) ((base, one) ∷ []) units
              (inl (refl, refl, refl), tt)))
    ]
  ]

  -- Resolving the units of a table ends, cycles among them included: one round more than there are
  -- units is enough for every chain.
  pub unit_table-ne-out_of_fuel : unit_table decimals units base ≢ out_of_fuel
  unit_table-ne-out_of_fuel h = subst Answer h unit_table-Answer

  module _ (table : UnitTable decimals) (answered : unit_table decimals units base ≡ ok table) where
    answer : Answer (ok table)
    answer = subst Answer answered unit_table-Answer

    pub unit_table-Explained :
        (table.base ≡ base)
        × Explained decimals units base table.factors
        × All (HasFactor table.factors) units
    unit_table-Explained = answer

    -- In a table that was built, a factor is 1 and that of the base, or that of a unit that was
    -- specified, more than zero, and either the factor that its specification gives or the number
    -- it gives times the factor that the table has for the unit above it.
    pub unit_table-Means :
        (code : ℕ) (f : D)
        → factor_of decimals table.factors code ≡ some f
        → ((code ≡ base) × (f ≡ one))
          ⊎ ((spec : UnitSpec decimals) × (spec_of decimals units code ≡ some spec)
              × Means decimals units spec f table.factors
              × (more_than_zero f ≡ true))
    unit_table-Means code f e = Worth-in table.factors code f answer.1 e
