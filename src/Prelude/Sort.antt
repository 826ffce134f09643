-- ===== src/Prelude/Sort.antt =====
-- `Array.prototype.sort` with a comparator: the stable sort, as insertion from the right.
use mortar.Prelude.Tests.{if◌then◌else◌, Bool-cases}
use mortar.Prelude.Lists.{All, All-mono, Distinct, sum_by}
use Prim.Native.Nat.{ℕ, ◌+◌}
use mathlib.Core.Path.{◌≡◌, refl, sym}
use mathlib.Core.Logic.{inl, inr, ◌≢◌}
use mathlib.Core.Bool.{Bool, true, false}
use mathlib.Core.List.{List, [], ◌∷◌}
use native.Mathlib.Omega.{arith}

-- `after x y`: the comparator puts `x` strictly behind `y`.
module _ {ℓ} {A : Type ℓ} (after : A → A → Bool) where
  unfoldable pub insert_by : A → List A → List A
  insert_by x [] = x ∷ []
  insert_by x (y ∷ ys) = if after x y then y ∷ insert_by x ys else x ∷ y ∷ ys

  unfoldable pub sort_by : List A → List A
  unfolding insert_by
  sort_by [] = []
  sort_by (x ∷ xs) = insert_by x (sort_by xs)

  pub All-insert_by :
      (P : A → Type 0) (x : A) (ys : List A) → P x → All P ys → All P (insert_by x ys)
  unfolding insert_by
  All-insert_by P x [] p _ = (p, tt)
  All-insert_by P x (y ∷ ys) p (q, qs) = elim (Bool-cases (after x y)) [
    | inl e ↦ rw e (q, All-insert_by P x ys p qs)
    | inr e ↦ rw e (p, (q, qs))
  ]

  pub All-sort_by : (P : A → Type 0) (xs : List A) → All P xs → All P (sort_by xs)
  unfolding sort_by
  All-sort_by P [] h = tt
  All-sort_by P (x ∷ xs) (h, hs) = All-insert_by P x (sort_by xs) h (All-sort_by P xs hs)

  All-of_insert_by :
      (P : A → Type 0) (x : A) (ys : List A) → All P (insert_by x ys) → P x × All P ys
  unfolding insert_by
  All-of_insert_by P x [] h = h
  All-of_insert_by P x (y ∷ ys) h = elim (Bool-cases (after x y)) [
    | inl e ↦ let (q, qs) = rw e at h in let (p, ps) = All-of_insert_by P x ys qs in (p, (q, ps))
    | inr e ↦ rw e at h
  ]

  pub All-of_sort_by : (P : A → Type 0) (xs : List A) → All P (sort_by xs) → All P xs
  unfolding sort_by
  All-of_sort_by P [] h = tt
  All-of_sort_by P (x ∷ xs) h =
      let (p, ps) = All-of_insert_by P x (sort_by xs) h in (p, All-of_sort_by P xs ps)

  module _ (f : A → ℕ) where
    sum_by-insert_by : (x : A) (ys : List A) → sum_by f (insert_by x ys) ≡ f x + sum_by f ys
    unfolding insert_by
    sum_by-insert_by x [] = refl
    sum_by-insert_by x (y ∷ ys) = ground (arith, sum_by-insert_by x ys)

    pub sum_by-sort_by : (xs : List A) → sum_by f (sort_by xs) ≡ sum_by f xs
    unfolding sort_by
    sum_by-sort_by [] = refl
    sum_by-sort_by (x ∷ xs) = omega (arith, sum_by-insert_by x (sort_by xs), sum_by-sort_by xs)

  module _ (key : A → ℕ) where
    Distinct-insert_by :
        (x : A) (ys : List A)
        → All (λ y. key y ≢ key x) ys
        → Distinct key ys
        → Distinct key (insert_by x ys)
    unfolding insert_by
    Distinct-insert_by x [] f d = (tt, tt)
    Distinct-insert_by x (y ∷ ys) (f, fs) (g, d) = elim (Bool-cases (after x y)) [
      | inl e ↦
          rw e (
            All-insert_by (λ z. key z ≢ key y) x ys (λ p. f (sym p)) g,
            Distinct-insert_by x ys fs d,
          )
      | inr e ↦ rw e ((f, fs), (g, d))
    ]

    pub Distinct-sort_by : (xs : List A) → Distinct key xs → Distinct key (sort_by xs)
    unfolding sort_by
    Distinct-sort_by [] d = tt
    Distinct-sort_by (x ∷ xs) (f, d) =
        Distinct-insert_by x (sort_by xs) (All-sort_by (λ y. key y ≢ key x) xs f)
          (Distinct-sort_by xs d)

-- In order: no element that the comparator puts behind one further on.
abbrev pub IsSorted {ℓ} : {A : Type ℓ} → (A → A → Bool) → List A → Type 0
IsSorted after [] = Unit
IsSorted after (x ∷ xs) = All (λ y. after x y ≡ false) xs × IsSorted after xs

-- A comparator that is asymmetric, and whose "not behind" is transitive, sorts.
module _ {ℓ} {A : Type ℓ} (after : A → A → Bool)
    (asym : (x y : A) → after x y ≡ true → after y x ≡ false)
    (trans : (x y z : A) → after x y ≡ false → after y z ≡ false → after x z ≡ false) where
  insert_by-IsSorted :
      (x : A) (ys : List A) → IsSorted after ys → IsSorted after (insert_by after x ys)
  unfolding insert_by
  insert_by-IsSorted x [] s = (tt, tt)
  insert_by-IsSorted x (y ∷ ys) (g, s) = elim (Bool-cases (after x y)) [
    | inl e ↦ rw e (
      All-insert_by after (λ z. after y z ≡ false) x ys (asym x y e) g,
      insert_by-IsSorted x ys s,
    )
    | inr e ↦ rw e (
      (e, All-mono (λ z. after y z ≡ false) (λ z. after x z ≡ false) ys (λ z h. trans x y z e h) g),
      (g, s),
    )
  ]

  pub sort_by-IsSorted : (xs : List A) → IsSorted after (sort_by after xs)
  unfolding sort_by
  sort_by-IsSorted [] = tt
  sort_by-IsSorted (x ∷ xs) = insert_by-IsSorted x (sort_by after xs) (sort_by-IsSorted xs)
