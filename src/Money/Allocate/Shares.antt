-- ===== src/Money/Allocate/Shares.antt =====
-- What the shares of packages/money/src/allocate.ts come to.
use mortar.Prelude.{
  ℕ, zero, suc, ◌+◌, ◌-◌, ◌*◌, ◌/◌, ◌%◌, ◌^◌, ◌≤◌, ◌<◌, ◌≡◌, refl, ap, ◌∙◌, sym, List, [], ◌∷◌, map,
  length, All, sum_by, arith, some,
}
use native.Mathlib.Nat.{div-add-mod, mod-lt, lt_of_mul-lt-mul_left, mul-add, mul_comm}
use mortar.Prelude.Sort.{sort_by, All-sort_by, insert_by}
use mortar.Money.Allocate.{
  Floats, bump, hand_out, slot, order_of, slots_from, after, Slot, parts_of,
}

abbrev pub total : List ℕ → ℕ
total ws = sum_by (λ w. w) ws

total-bump : (i : ℕ) (xs : List ℕ) → i < length xs → total (bump i xs) ≡ suc (total xs)
unfolding bump
total-bump i [] h = absurd (omega arith)
total-bump zero (x ∷ xs) h = omega arith
total-bump (suc i) (x ∷ xs) h = omega (arith, total-bump i xs (omega arith))

length-bump : (i : ℕ) (xs : List ℕ) → length (bump i xs) ≡ length xs
unfolding bump
length-bump i [] = refl
length-bump zero (x ∷ xs) = refl
length-bump (suc i) (x ∷ xs) = ap suc (length-bump i xs)

-- Within its length, an order has a slot, and the place in it is one of the list.
slot-within :
    (n : ℕ) (order : List ℕ) (i : ℕ)
    → i < length order
    → All (λ k. k < n) order
    → (k : ℕ) × (slot order i ≡ some k) × (k < n)
slot-within n [] i h a = absurd (omega arith)
slot-within n (x ∷ xs) zero h (a, b) = (x, refl, a)
slot-within n (x ∷ xs) (suc i) h (a, b) = slot-within n xs i (omega arith) b

pub length-map {ℓ κ} :
    {A : Type ℓ} {B : Type κ} (f : A → B) (xs : List A) → length (map f xs) ≡ length xs
length-map f [] = refl
length-map f (x ∷ xs) = ap suc (length-map f xs)

-- Every unit that is left is handed out.
total-hand_out :
    (n : ℕ) (order : List ℕ) (k i : ℕ) (xs : List ℕ)
    → i < length order
    → All (λ j. j < n) order
    → length xs ≡ n
    → total (hand_out order k i xs) ≡ total xs + k
unfolding hand_out
total-hand_out n order zero i xs h a l = omega arith
total-hand_out n order (suc k) i xs h a l =
    let (j, e, b) = slot-within n order i h a in
    rw (e, hand_out)
      (omega (
        arith,
        total-hand_out n order k (suc i % length order) (bump j xs) (grind arith) a
            (length-bump j xs ∙ l),
        total-bump j xs (omega arith),
      ))

-- What division leaves of each, taken together.
total-quotients :
    (m t : ℕ) (ws : List ℕ)
    → t * total (map (λ w. m * w / t) ws) + total (map (λ w. m * w % t) ws) ≡ m * total ws
total-quotients m t [] = grind arith
total-quotients m t (w ∷ ws) = grind (arith, total-quotients m t ws, div-add-mod (m * w) t)

-- The quotients fall short of the whole by what division leaves, which is less than one each.
total-short :
    (m t : ℕ) (ws : List ℕ) → 0 < t → total (map (λ w. m * w % t) ws) + length ws ≤ t * length ws
total-short m t [] h = grind arith
total-short m t (w ∷ ws) h = grind (arith, total-short m t ws h, mod-lt (m * w) h)

pub length-pos : (ws : List ℕ) → 0 < total ws → 0 < length ws
length-pos [] h = absurd (omega arith)
length-pos (w ∷ ws) h = omega arith

left-short : (t m q r n : ℕ) → q ≤ m → t * q + r ≡ m * t → r + n ≤ t * n → 0 < n → m - q < n
left-short t m q r n h e b p =
    let whole : q + (m - q) ≡ m = omega arith in
    lt_of_mul-lt-mul_left t
      (omega (arith, mul-add t q (m - q), ap (λ (x : ℕ). t * x) whole, mul_comm t m))

module _ (m : ℕ) (ws : List ℕ) (some_weight : 0 < total ws) where
  abbrev pub quotients : List ℕ
  quotients = map (λ w. m * w / total ws) ws

  pub quotients-le : total quotients ≤ m
  quotients-le = grind (arith, total-quotients m (total ws) ws)

  pub left-lt : m - total quotients < length ws
  left-lt =
      left-short (total ws) m (total quotients) (total (map (λ w. m * w % total ws) ws)) (length ws)
        quotients-le (total-quotients m (total ws) ws) (total-short m (total ws) ws some_weight)
        (length-pos ws some_weight)

All-le-total : (ws : List ℕ) (n : ℕ) → total ws ≤ n → All (λ w. w ≤ n) ws
All-le-total [] n h = tt
All-le-total (w ∷ ws) n h = (omega arith, All-le-total ws n (omega arith))

module _ (floats : Floats) where
  open floats use {F, quotient, floor, floor-quotient}

  abbrev pub exact : ℕ → List ℕ → ℕ → List F
  exact m ws t = map (λ w. quotient (m * w) t) ws

  floors-quotients :
      (m t : ℕ) (ws : List ℕ)
      → 0 < t
      → m * t < 2 ^ 52
      → All (λ w. w ≤ t) ws
      → map floor (exact m ws t) ≡ map (λ w. m * w / t) ws
  floors-quotients m t [] h b _ = refl
  floors-quotients m t (w ∷ ws) h b (k, ks) =
      let e = floor-quotient (m * w) t (grind arith) h in rw (e, floors-quotients m t ws h b ks)

  indexes-within :
      (n i : ℕ) (vs : List F)
      → i + length vs ≤ n
      → All (λ (s : Slot floats). s.index < n) (slots_from floats i vs)
  indexes-within n i [] h = tt
  indexes-within n i (v ∷ vs) h = (omega arith, indexes-within n (suc i) vs (omega arith))

  All-index :
      (n : ℕ) (ss : List (Slot floats))
      → All (λ s. s.index < n) ss
      → All (λ k. k < n) (map (λ s. s.index) ss)
  All-index n [] h = tt
  All-index n (s ∷ ss) (h, hs) = (h, All-index n ss hs)

  order-within : (vs : List F) → All (λ k. k < length vs) (order_of floats vs)
  order-within vs = All-index (length vs) (sort_by (after floats) (slots_from floats 0 vs)) (
      All-sort_by (after floats) (λ s. s.index < length vs) (slots_from floats 0 vs)
        (indexes-within (length vs) 0 vs (omega arith)))

  length-insert_by :
      (x : Slot floats) (ys : List (Slot floats))
      → length (insert_by (after floats) x ys) ≡ suc (length ys)
  unfolding insert_by
  length-insert_by x [] = refl
  length-insert_by x (y ∷ ys) = ground (arith, length-insert_by x ys)

  length-slots :
      (i : ℕ) (vs : List F) → length (sort_by (after floats) (slots_from floats i vs)) ≡ length vs
  unfolding sort_by
  length-slots i [] = refl
  length-slots i (v ∷ vs) =
      length-insert_by (record { index = i; part = floats.fraction v })
        (sort_by (after floats) (slots_from floats (suc i) vs))
      ∙ ap suc (length-slots (suc i) vs)

  pub length-order : (vs : List F) → length (order_of floats vs) ≡ length vs
  length-order vs =
      length-map (λ (s : Slot floats). s.index) (sort_by (after floats) (slots_from floats 0 vs))
      ∙ length-slots 0 vs

  module _ (m : ℕ) (ws : List ℕ) (some_weight : 0 < total ws)
      (exactly : m * total ws < 2 ^ 52) where
    pub floors-eq : map floor (exact m ws (total ws)) ≡ quotients m ws some_weight
    floors-eq =
        floors-quotients m (total ws) ws some_weight exactly
          (All-le-total ws (total ws) (omega arith))

    -- The parts of a magnitude come to it.
    pub total-parts_of : total (parts_of floats m ws) ≡ m
    unfolding parts_of
    total-parts_of =
        let vs = exact m ws (total ws) in
        rw floors-eq (
          total-hand_out (length vs) (order_of floats vs) (m - total (quotients m ws some_weight)) 0
            (quotients m ws some_weight)
            (omega (
              arith,
              length-order vs,
              length-map (λ (w : ℕ). quotient (m * w) (total ws)) ws,
              length-pos ws some_weight,
            ))
            (order-within vs)
            (length-map (λ (w : ℕ). m * w / total ws) ws
              ∙ sym (length-map (λ (w : ℕ). quotient (m * w) (total ws)) ws))
          ∙ omega (arith, quotients-le m ws some_weight))
