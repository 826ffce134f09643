-- ===== src/Money/Allocate/Lucky.antt =====
-- The places that get one of the units that are left, in packages/money/src/allocate.ts.
use mortar.Prelude.{
  ℕ, zero, suc, ◌+◌, ◌-◌, ◌*◌, ◌/◌, ◌%◌, ◌^◌, ◌≤◌, ◌<◌, ◌≡◌, refl, ap, ◌∙◌, sym, subst, true, false,
  List, [], ◌∷◌, map, length, take, All, arith, some, some-injective, if◌then◌else◌,
}
use mortar.Money.Allocate.{Floats, slot, order_of, Slot, slots_from, after, parts_of}
use mortar.Money.Allocate.Shares.{
  total, quotients, left-lt, length-order, floors-eq, length-map, exact,
}
use mortar.Money.Allocate.Turns.{among, slot-bump_all, hand_out-bump_all, Distinct-take}
use mortar.Money.Allocate.Ranked.{
  ranked, ranked-IsSorted, order-Distinct, among-order, indexes-take, ahead,
}
use mortar.Prelude.Sort.{All-sort_by}

pub slot-map {ℓ κ} :
    {A : Type ℓ} {B : Type κ} (f : A → B) (xs : List A) (j : ℕ) (x : A)
    → slot xs j ≡ some x
    → slot (map f xs) j ≡ some (f x)
slot-map f [] j x h = cc
slot-map f (y ∷ ys) zero x h = ap (λ z. some (f z)) (some-injective y x h)
slot-map f (y ∷ ys) (suc j) x h = slot-map f ys j x h

slot-le-total : (xs : List ℕ) (j w : ℕ) → slot xs j ≡ some w → w ≤ total xs
slot-le-total [] j w h = cc
slot-le-total (x ∷ xs) zero w h = ground arith
slot-le-total (x ∷ xs) (suc j) w h = omega (arith, slot-le-total xs j w h)

module _ (floats : Floats) (m : ℕ) (ws : List ℕ) (some_weight : 0 < total ws)
    (exactly : m * total ws < 2 ^ 52) where
  open floats use {F, quotient, floor, fraction, lt, fraction_order}

  abbrev values : List F
  values = exact floats m ws (total ws)

  -- The places that get one of the units that are left.
  abbrev pub lucky : List ℕ
  lucky = take (m - total (quotients m ws some_weight)) (order_of floats values)

  pub share_at :
      (j w : ℕ)
      → slot ws j ≡ some w
      → slot (parts_of floats m ws) j
        ≡ some (if among j lucky then suc (m * w / total ws) else m * w / total ws)
  unfolding parts_of
  share_at j w h =
      let fits : 0 + (m - total (quotients m ws some_weight)) ≤ length (order_of floats values) =
        omega (
          arith,
          left-lt m ws some_weight,
          length-order floats values,
          length-map (λ (w : ℕ). quotient (m * w) (total ws)) ws,
        ) in
      rw (floors-eq floats m ws some_weight exactly) (
        rw
          (hand_out-bump_all (order_of floats values) (m - total (quotients m ws some_weight)) 0
            (quotients m ws some_weight) fits)
          (slot-bump_all lucky j (quotients m ws some_weight) (m * w / total ws)
            (Distinct-take (m - total (quotients m ws some_weight)) (order_of floats values)
              (order-Distinct floats values))
            (slot-map (λ w. m * w / total ws) ws j w h)))

  abbrev Made : Slot floats → Type 0
  Made s = (w : ℕ) × (slot ws s.index ≡ some w) × (s.part ≡ fraction (quotient (m * w) (total ws)))

  slots-Made :
      (i : ℕ) (vs : List ℕ)
      → ((j v : ℕ) → slot vs j ≡ some v → slot ws (i + j) ≡ some v)
      → All Made (slots_from floats i (map (λ w. quotient (m * w) (total ws)) vs))
  slots-Made i [] h = tt
  slots-Made i (v ∷ vs) h = (
    (v, subst (λ k. slot ws k ≡ some v) (omega arith) (h 0 v refl), refl),
    slots-Made (suc i) vs (λ j u e. subst (λ k. slot ws k ≡ some u) (omega arith) (h (suc j) u e)),
  )

  ranked-Made : All Made (ranked floats values)
  ranked-Made =
      All-sort_by (after floats) Made (slots_from floats 0 values)
        (slots-Made 0 ws (λ j v e. subst (λ k. slot ws k ≡ some v) (omega arith) e))

  share-le : (j w : ℕ) → slot ws j ≡ some w → m * w < 2 ^ 52
  share-le j w h = let k = slot-le-total ws j w h in grind arith

  behind-le :
      (x y : Slot floats) (v w : ℕ)
      → after floats x y ≡ false
      → m * v < 2 ^ 52
      → m * w < 2 ^ 52
      → x.part ≡ fraction (quotient (m * v) (total ws))
      → y.part ≡ fraction (quotient (m * w) (total ws))
      → m * w % total ws ≤ m * v % total ws
  behind-le x y v w h b c p q =
      ground (arith, fraction_order (m * v) (m * w) (total ws) b c some_weight)

  -- The fractions of those that get a unit are no smaller than those of the others.
  pub lucky-le :
      (i j v w : ℕ)
      → slot ws i ≡ some v
      → slot ws j ≡ some w
      → among i lucky ≡ true
      → among j lucky ≡ false
      → m * w % total ws ≤ m * v % total ws
  lucky-le i j v w at_i at_j a b =
      let k = m - total (quotients m ws some_weight) in
      let (x, y, e, f, behind, (v', p, q), (w', r, s)) =
        ahead floats Made i j k (ranked floats values) (ranked-IsSorted floats values) ranked-Made
          (subst (λ is. among i is ≡ true) (indexes-take floats k (ranked floats values)) a)
          (subst (λ is. among j is ≡ false) (indexes-take floats k (ranked floats values)) b)
          (among-order floats j values (quotient (m * w) (total ws))
            (slot-map (λ (w : ℕ). quotient (m * w) (total ws)) ws j w at_j)) in
      let v-eq : v' ≡ v = some-injective v' v (sym p ∙ ap (slot ws) e ∙ at_i) in
      let w-eq : w' ≡ w = some-injective w' w (sym r ∙ ap (slot ws) f ∙ at_j) in
      behind-le x y v w behind (share-le i v at_i) (share-le j w at_j) (rw (sym v-eq) q)
        (rw (sym w-eq) s)
