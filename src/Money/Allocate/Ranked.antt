-- ===== src/Money/Allocate/Ranked.antt =====
-- The order in which packages/money/src/allocate.ts hands out what is left: by descending fraction.
use mortar.Prelude.{
  ℕ, zero, suc, ◌+◌, ◌<◌, ◌≡◌, ◌≢◌, refl, ap, ◌∙◌, subst, inl, inr, true, false, ◌||◌, List, [],
  ◌∷◌, map, take, All, Distinct, arith, some, Bool-cases, ==_iff, ◌==◌,
}
use mortar.Prelude.Sort.{insert_by, sort_by, IsSorted, sort_by-IsSorted, Distinct-sort_by}
use mortar.Money.Allocate.{Floats, slot, order_of, slots_from, after, Slot}
use mortar.Money.Allocate.Turns.{among}

module _ (floats : Floats) where
  open floats use {F, fraction, lt, lt_asym, lt_trans}

  after-asym : (x y : Slot floats) → after floats x y ≡ true → after floats y x ≡ false
  after-asym x y h = ground (arith, lt_asym x.part y.part, lt_asym y.part x.part)

  after_trans :
      (x y z : Slot floats)
      → after floats x y ≡ false
      → after floats y z ≡ false
      → after floats x z ≡ false
  after_trans x y z p q = ground (
    arith,
    lt_trans x.part y.part z.part,
    lt_trans y.part z.part x.part,
    lt_trans z.part x.part y.part,
  )

  abbrev pub ranked : List F → List (Slot floats)
  ranked vs = sort_by (after floats) (slots_from floats 0 vs)

  pub ranked-IsSorted : (vs : List F) → IsSorted (after floats) (ranked vs)
  ranked-IsSorted vs =
      sort_by-IsSorted (after floats) after-asym after_trans (slots_from floats 0 vs)

  abbrev pub indexes : List (Slot floats) → List ℕ
  indexes ss = map (λ s. s.index) ss

  pub indexes-take : (k : ℕ) (ss : List (Slot floats)) → take k (indexes ss) ≡ indexes (take k ss)
  indexes-take zero ss = refl
  indexes-take (suc k) [] = refl
  indexes-take (suc k) (s ∷ ss) = ap (λ is. s.index ∷ is) (indexes-take k ss)

  from-distinct :
      (i j : ℕ) (vs : List F)
      → i < j
      → All (λ (s : Slot floats). s.index ≢ i) (slots_from floats j vs)
  from-distinct i j [] h = tt
  from-distinct i j (v ∷ vs) h = (λ e. omega arith, from-distinct i (suc j) vs (omega arith))

  slots-Distinct :
      (i : ℕ) (vs : List F) → Distinct (λ (s : Slot floats). s.index) (slots_from floats i vs)
  slots-Distinct i [] = tt
  slots-Distinct i (v ∷ vs) = (from-distinct i (suc i) vs (omega arith), slots-Distinct (suc i) vs)

  All-indexes :
      (i : ℕ) (ss : List (Slot floats)) → All (λ s. s.index ≢ i) ss → All (λ k. k ≢ i) (indexes ss)
  All-indexes i [] h = tt
  All-indexes i (s ∷ ss) (h, hs) = (h, All-indexes i ss hs)

  indexes-Distinct :
      (ss : List (Slot floats)) → Distinct (λ s. s.index) ss → Distinct (λ k. k) (indexes ss)
  indexes-Distinct [] d = tt
  indexes-Distinct (s ∷ ss) (f, d) = (All-indexes s.index ss f, indexes-Distinct ss d)

  pub order-Distinct : (vs : List F) → Distinct (λ k. k) (order_of floats vs)
  order-Distinct vs = indexes-Distinct (ranked vs) (
      Distinct-sort_by (after floats) (λ s. s.index) (slots_from floats 0 vs) (slots-Distinct 0 vs))

  among-insert_by :
      (j : ℕ) (x : Slot floats) (ys : List (Slot floats))
      → among j (indexes (insert_by (after floats) x ys)) ≡ (x.index == j || among j (indexes ys))
  unfolding insert_by
  among-insert_by j x [] = refl
  among-insert_by j x (y ∷ ys) = ground (arith, among-insert_by j x ys)

  among-sort_by :
      (j : ℕ) (ss : List (Slot floats))
      → among j (indexes (sort_by (after floats) ss)) ≡ among j (indexes ss)
  unfolding sort_by
  among-sort_by j [] = refl
  among-sort_by j (s ∷ ss) =
      among-insert_by j s (sort_by (after floats) ss)
      ∙ ap (λ b. s.index == j || b) (among-sort_by j ss)

  -- A place of the list has its turn.
  among-slots :
      (i j : ℕ) (vs : List F) (v : F)
      → slot vs j ≡ some v
      → among (i + j) (indexes (slots_from floats i vs)) ≡ true
  among-slots i j [] v h = cc
  among-slots i zero (x ∷ vs) v h = ground arith
  among-slots i (suc j) (x ∷ vs) v h =
      let e : suc i + j ≡ i + suc j = omega arith in
      let later = among-slots (suc i) j vs v h in ground (arith, rw e at later)

  pub among-order :
      (j : ℕ) (vs : List F) (v : F) → slot vs j ≡ some v → among j (order_of floats vs) ≡ true
  among-order j vs v h =
      let e : 0 + j ≡ j = omega arith in
      among-sort_by j (slots_from floats 0 vs)
      ∙ subst (λ k. among k (indexes (slots_from floats 0 vs)) ≡ true) e (among-slots 0 j vs v h)

  module _ (P : Slot floats → Type 0) where
    find_index :
        (j : ℕ) (Q : Slot floats → Type 0) (ss : List (Slot floats))
        → among j (indexes ss) ≡ true
        → All P ss
        → All Q ss
        → (y : Slot floats) × (y.index ≡ j) × P y × Q y
    find_index j Q [] h _ _ = cc
    find_index j Q (s ∷ ss) h (p, ps) (q, qs) = elim (Bool-cases (s.index == j)) [
      | inl e ↦ (s, (==_iff s.index j).0 e, p, q)
      | inr e ↦ find_index j Q ss (rw e at h) ps qs
    ]

    -- One that has its turn among the first so many is not behind one that has not.
    pub ahead :
        (i j k : ℕ) (ss : List (Slot floats))
        → IsSorted (after floats) ss
        → All P ss
        → among i (indexes (take k ss)) ≡ true
        → among j (indexes (take k ss)) ≡ false
        → among j (indexes ss) ≡ true
        → (x : Slot floats) × (y : Slot floats) × (x.index ≡ i)
          × (y.index ≡ j)
          × (after floats x y ≡ false)
          × P x
          × P y
    ahead i j zero ss s p a b c = cc
    ahead i j (suc k) [] s p a b c = cc
    ahead i j (suc k) (x ∷ ss) (f, s) (p, ps) a b c = elim (Bool-cases (x.index == j)) [
      | inl e ↦ let wrong : true ≡ false = rw e at b in cc
      | inr other ↦ elim (Bool-cases (x.index == i)) [
        | inl e ↦
            let (y, at_j, py, behind) =
              find_index j (λ y. after floats x y ≡ false) ss (rw other at c) ps f in
            (x, y, (==_iff x.index i).0 e, at_j, behind, p, py)
        | inr e ↦ ahead i j k ss s ps (rw e at a) (rw other at b) (rw other at c)
      ]
    ]
