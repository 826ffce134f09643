-- ===== src/Quantity/Table/Resolved.antt =====
-- What packages/quantity/src/table.ts resolves: it ends, and every factor that it enters is explained
-- by its unit's specification and by the factors entered before it.
use mortar.Prelude.{
  ℕ, zero, suc, ◌≡◌, ◌⊎◌, ◌≤◌, ◌<◌, refl, ap, sym, subst, ◌∙◌, inl, inr, Bool, true, false, not,
  Option, none, some, List, [], ◌∷◌, filter, length, arith, ◌==◌, Bool-cases, Option-cases, ==_iff,
  ==_refl,
}
use mortar.Quantity.Table.{
  Decimals, UnitSpec, Factors, factor_of, spec_of, or_one, entered, by_spec, resolve, Outcome, ok,
  problem, out_of_fuel, ◌>>=◌, among,
}

module _ (decimals : Decimals) (units : List (UnitSpec decimals)) where
  open decimals use {D, one, times, more_than_zero, one_more_than_zero}

  -- The units that are not being resolved.
  pub waiting : List ℕ → List (UnitSpec decimals) → ℕ
  waiting resolving us = length (filter (λ u. not (among resolving u.code)) us)

  waiting-le :
      (code : ℕ) (resolving : List ℕ) (us : List (UnitSpec decimals))
      → waiting (code ∷ resolving) us ≤ waiting resolving us
  unfolding waiting
  waiting-le code resolving [] = omega arith
  waiting-le code resolving (u ∷ us) = ground (arith, waiting-le code resolving us)

  pub waiting-le-length : (us : List (UnitSpec decimals)) → waiting [] us ≤ length us
  unfolding waiting
  waiting-le-length [] = omega arith
  waiting-le-length (u ∷ us) = omega (arith, waiting-le-length us)

  -- A unit that comes to be resolved waits no longer.
  waiting-lt :
      (code : ℕ) (resolving : List ℕ) (us : List (UnitSpec decimals)) (spec : UnitSpec decimals)
      → spec_of decimals us code ≡ some spec
      → among resolving code ≡ false
      → waiting (code ∷ resolving) us < waiting resolving us
  unfolding waiting
  waiting-lt code resolving [] spec h k = cc
  waiting-lt code resolving (u ∷ us) spec h k = elim (Bool-cases (u.code == code)) [
    | inl e ↦ ground (arith, ==_iff u.code code, waiting-le code resolving us, k)
    | inr e ↦ ground (arith, waiting-lt code resolving us spec (rw e at h) k)
  ]

  -- What makes a factor that of a unit, given the factors entered before it.
  abbrev pub Means : UnitSpec decimals → D → Factors decimals → Type 0
  Means spec f rest =
      (spec.to_base ≡ some f)
      ⊎ ((p : ℕ) × (g : D) × (spec.to_base ≡ none)
          × (spec.parent ≡ some p)
          × (factor_of decimals rest p ≡ some g)
          × (f ≡ times (or_one decimals spec.how_many) g))

  module _ (base : ℕ) where
    -- The first entry is that of the base; every other is of a unit that had none, and more than zero.
    abbrev pub Entry : ℕ → D → Factors decimals → Type 0
    Entry c f rest =
        ((c ≡ base) × (f ≡ one) × (rest ≡ []))
        ⊎ ((spec : UnitSpec decimals) × (spec_of decimals units c ≡ some spec)
            × Means spec f rest
            × (more_than_zero f ≡ true)
            × (factor_of decimals rest c ≡ none))

    abbrev pub Explained : Factors decimals → Type 0
    Explained [] = Unit
    Explained ((c, f) ∷ rest) = Entry c f rest × Explained rest

    -- What was entered stays, and no unit that is being resolved is entered.
    abbrev pub Grown : List ℕ → Factors decimals → Factors decimals → Type 0
    Grown resolving r r' =
        ((c : ℕ) (g : D) → factor_of decimals r c ≡ some g → factor_of decimals r' c ≡ some g)
        × ((c : ℕ)
            → among resolving c ≡ true
            → factor_of decimals r c ≡ none
            → factor_of decimals r' c ≡ none)

    abbrev pub Good : List ℕ → Factors decimals → ℕ → Outcome (D × Factors decimals) → Type 0
    Good resolving r code (ok (f, r')) =
        Explained r' × (factor_of decimals r' code ≡ some f) × Grown resolving r r'
    Good resolving r code (problem reason u) = Unit
    Good resolving r code out_of_fuel = ⊥

    stays_entered :
        (r r' : Factors decimals) (code : ℕ) (f : D)
        → ((c : ℕ) (g : D) → factor_of decimals r c ≡ some g → factor_of decimals r' c ≡ some g)
        → factor_of decimals r code ≡ none
        → (c : ℕ) (g : D) → factor_of decimals r c ≡ some g
        → factor_of decimals ((code, f) ∷ r') c ≡ some g
    stays_entered r r' code f stays fresh c g known = elim (Bool-cases (code == c)) [
      | inl e ↦
          let same : code ≡ c = (==_iff code c).0 e in
          let wrong : ◌≡◌ {A = Option D} none (some g) =
            sym fresh ∙ ap (factor_of decimals r) same ∙ known in
          cc
      | inr e ↦ rw e (stays c g known)
    ]

    none_later :
        (resolving : List ℕ) (r r' : Factors decimals) (code : ℕ) (f : D)
        → among resolving code ≡ false
        → ((c : ℕ)
            → among (code ∷ resolving) c ≡ true
            → factor_of decimals r c ≡ none
            → factor_of decimals r' c ≡ none)
        → (c : ℕ) → among resolving c ≡ true
        → factor_of decimals r c ≡ none
        → factor_of decimals ((code, f) ∷ r') c ≡ none
    none_later resolving r r' code f new none_entered c busy gone = elim (Bool-cases (code == c)) [
      | inl e ↦
          let same : code ≡ c = (==_iff code c).0 e in
          let wrong : ◌≡◌ {A = Bool} false true = sym new ∙ ap (among resolving) same ∙ busy in cc
      | inr e ↦ rw e (none_entered c (rw e busy) gone)
    ]

    entered-Good :
        (resolving : List ℕ) (r r' : Factors decimals) (spec : UnitSpec decimals) (code : ℕ) (f : D)
        → spec_of decimals units code ≡ some spec
        → Means spec f r'
        → among resolving code ≡ false
        → factor_of decimals r code ≡ none
        → Explained r'
        → Grown (code ∷ resolving) r r'
        → Good resolving r code (entered decimals code f r')
    unfolding entered
    entered-Good resolving r r' spec code f at_code means new fresh explained
          (stays, none_entered) =
        elim (Bool-cases (more_than_zero f)) [
          | inr zero_or_less ↦ rw zero_or_less tt
          | inl more ↦
              let still : factor_of decimals r' code ≡ none =
                none_entered code (rw (==_refl code) refl) fresh in
              rw more (
                (inr (spec, at_code, means, more, still), explained),
                rw (==_refl code) refl,
                (
                  stays_entered r r' code f stays fresh,
                  none_later resolving r r' code f new none_entered,
                ),
              )
        ]

    through-Good :
        (resolving : List ℕ) (r : Factors decimals) (spec : UnitSpec decimals) (code p : ℕ)
        → spec_of decimals units code ≡ some spec
        → among resolving code ≡ false
        → factor_of decimals r code ≡ none
        → spec.to_base ≡ none
        → spec.parent ≡ some p
        → (above : Outcome (D × Factors decimals)) → Good (code ∷ resolving) r p above
        → Good resolving r code
            (above >>= λ a. entered decimals code (times (or_one decimals spec.how_many) a.0) a.1)
    through-Good resolving r spec code p at_code new fresh t q (ok (g, r')) (ex, at_p, grown) =
        entered-Good resolving r r' spec code (times (or_one decimals spec.how_many) g) at_code
          (inr (p, g, t, q, at_p, refl)) new fresh ex grown
    through-Good resolving r spec code p at_code new fresh t q (problem reason u) _ = tt
    through-Good resolving r spec code p at_code new fresh t q out_of_fuel h = absurd h

    by_spec-Good :
        (resolving : List ℕ) (r : Factors decimals) (spec : UnitSpec decimals) (code : ℕ)
        → spec_of decimals units code ≡ some spec
        → among resolving code ≡ false
        → factor_of decimals r code ≡ none
        → Explained r
        → (above : ℕ → Outcome (D × Factors decimals))
        → ((p : ℕ) → Good (code ∷ resolving) r p (above p))
        → (given : Option D) (parent : Option ℕ) → spec.to_base ≡ given
        → spec.parent ≡ parent
        → Good resolving r code (by_spec decimals code r above spec.how_many given parent)
    by_spec-Good resolving r spec code at_code new fresh e above ih (some d) parent t q =
        unfold by_spec in
        entered-Good resolving r r spec code d at_code (inl t) new fresh e (λ c g k. k, λ c b k. k)
    by_spec-Good resolving r spec code at_code new fresh e above ih none none t q =
        unfold by_spec in tt
    by_spec-Good resolving r spec code at_code new fresh e above ih none (some p) t q =
        unfold by_spec in
        through-Good resolving r spec code p at_code new fresh t q (above p) (ih p)

    resolve-by_spec :
        (fuel : ℕ) (resolving : List ℕ) (r : Factors decimals) (code : ℕ) (spec : UnitSpec decimals)
        → factor_of decimals r code ≡ none
        → among resolving code ≡ false
        → spec_of decimals units code ≡ some spec
        → resolve decimals units (suc fuel) resolving r code
          ≡ by_spec decimals code r
              (resolve decimals units fuel (code ∷ resolving) r)
              spec.how_many
              spec.to_base
              spec.parent
    unfolding resolve
    resolve-by_spec fuel resolving r code spec fresh new at_code =
        rw (fresh, resolve) (rw new (rw at_code refl))

    pub resolve-Good :
        (fuel : ℕ) (resolving : List ℕ) (r : Factors decimals) (code : ℕ)
        → waiting resolving units < fuel
        → Explained r
        → Good resolving r code (resolve decimals units fuel resolving r code)
    resolve-Good zero resolving r code h e = absurd (omega arith)
    resolve-Good (suc fuel) resolving r code h e = elim (Option-cases (factor_of decimals r code)) [
      | inr (known, k) ↦ unfold resolve in rw (k, resolve) (e, k, (λ c g q. q, λ c b q. q))
      | inl fresh ↦ elim (Bool-cases (among resolving code)) [
        | inl busy ↦ unfold resolve in rw (fresh, resolve) (rw busy tt)
        | inr new ↦ elim (Option-cases (spec_of decimals units code)) [
          | inl unknown ↦ unfold resolve in rw (fresh, resolve) (rw new (rw unknown tt))
          | inr (spec, at_code) ↦
              let fewer = waiting-lt code resolving units spec at_code new in
              subst (Good resolving r code)
                (sym (resolve-by_spec fuel resolving r code spec fresh new at_code))
                (by_spec-Good resolving r spec code at_code new fresh e
                  (resolve decimals units fuel (code ∷ resolving) r)
                  (λ p. resolve-Good fuel (code ∷ resolving) r p (omega arith) e) spec.to_base
                  spec.parent refl refl)
        ]
      ]
    ]
