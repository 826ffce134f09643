-- ===== src/Money/Allocate/Turns.antt =====
-- Who gets the units that are left, in packages/money/src/allocate.ts: the first places of the order,
-- one each.
use mortar.Prelude.{
  ℕ, zero, suc, ◌+◌, ◌%◌, ◌≤◌, ◌<◌, ◌≡◌, ◌≢◌, refl, ◌∙◌, subst, inl, inr, Bool, false, List, [],
  ◌∷◌, length, any, take, drop, All, Distinct, arith, some, Bool-cases, ==_iff, ◌==◌, if◌then◌else◌,
}
use native.Mathlib.Nat.{mod-eq_of_lt}
use mortar.Money.Allocate.{bump, hand_out, slot}

abbrev pub among : ℕ → List ℕ → Bool
among j is = any (λ i. i == j) is

slot-bump :
    (i j : ℕ) (xs : List ℕ) (v : ℕ)
    → slot xs j ≡ some v
    → slot (bump i xs) j ≡ some (if i == j then suc v else v)
unfolding bump
slot-bump i j [] v h = cc
slot-bump zero zero (x ∷ xs) v h = ground arith
slot-bump zero (suc j) (x ∷ xs) v h = ground arith
slot-bump (suc i) zero (x ∷ xs) v h = ground arith
slot-bump (suc i) (suc j) (x ∷ xs) v h = ground (arith, slot-bump i j xs v h)

abbrev pub bump_all : List ℕ → List ℕ → List ℕ
bump_all [] xs = xs
bump_all (i ∷ is) xs = bump_all is (bump i xs)

among-distinct : (i : ℕ) (is : List ℕ) → All (λ k. k ≢ i) is → among i is ≡ false
among-distinct i [] h = refl
among-distinct i (k ∷ is) (h, hs) = ground (arith, among-distinct i is hs)

pub slot-bump_all :
    (is : List ℕ) (j : ℕ) (xs : List ℕ) (v : ℕ)
    → Distinct (λ k. k) is
    → slot xs j ≡ some v
    → slot (bump_all is xs) j ≡ some (if among j is then suc v else v)
slot-bump_all [] j xs v d h = h
slot-bump_all (i ∷ is) j xs v (f, d) h = elim (Bool-cases (i == j)) [
  | inl e ↦
      let same : i ≡ j = (==_iff i j).0 e in
      let gone : among j is ≡ false =
        among-distinct j is (subst (λ k. All (λ l. l ≢ k) is) same f) in
      let here = slot-bump i j xs v h in
      rw e (slot-bump_all is j (bump i xs) (suc v) d (rw e at here) ∙ rw gone)
  | inr e ↦
      let here = slot-bump i j xs v h in rw e (slot-bump_all is j (bump i xs) v d (rw e at here))
]

drop-slot :
    (order : List ℕ) (i : ℕ)
    → i < length order
    → (k : ℕ) × (slot order i ≡ some k) × (drop i order ≡ k ∷ drop (suc i) order)
drop-slot [] i h = absurd (omega arith)
drop-slot (x ∷ xs) zero h = (x, refl, refl)
drop-slot (x ∷ xs) (suc i) h = drop-slot xs i (omega arith)

hand_out-turn :
    (order : List ℕ) (k i j : ℕ) (xs : List ℕ)
    → slot order i ≡ some j
    → suc i < length order
    → hand_out order (suc k) i xs ≡ hand_out order k (suc i) (bump j xs)
unfolding hand_out
hand_out-turn order k i j xs e h =
    let turn : suc i % length order ≡ suc i = mod-eq_of_lt h in rw (e, hand_out) (rw turn)

-- No place has a second turn while there are as many places as units.
pub hand_out-bump_all :
    (order : List ℕ) (k i : ℕ) (xs : List ℕ)
    → i + k ≤ length order
    → hand_out order k i xs ≡ bump_all (take k (drop i order)) xs
hand_out-bump_all order zero i xs h = unfold hand_out in refl
hand_out-bump_all order (suc zero) i xs h =
    let (j, e, d) = drop-slot order i (omega arith) in
    rw d (unfold hand_out in rw (e, hand_out) refl)
hand_out-bump_all order (suc (suc k)) i xs h =
    let (j, e, d) = drop-slot order i (omega arith) in
    rw d (
      hand_out-turn order (suc k) i j xs e (omega arith)
      ∙ hand_out-bump_all order (suc k) (suc i) (bump j xs) (omega arith))

All-take {ℓ} : {A : Type ℓ} (P : A → Type 0) (k : ℕ) (xs : List A) → All P xs → All P (take k xs)
All-take P zero xs h = tt
All-take P (suc k) [] h = tt
All-take P (suc k) (x ∷ xs) (h, hs) = (h, All-take P k xs hs)

pub Distinct-take : (k : ℕ) (xs : List ℕ) → Distinct (λ j. j) xs → Distinct (λ j. j) (take k xs)
Distinct-take zero xs d = tt
Distinct-take (suc k) [] d = tt
Distinct-take (suc k) (x ∷ xs) (f, d) = (All-take (λ y. y ≢ x) k xs f, Distinct-take k xs d)
