-- ===== src/Prelude/Lists.antt =====
-- Lists measured and searched by native numbers and Boolean tests, and predicates on them.
use Prim.Native.Nat.{ℕ, zero, suc, ◌+◌}
use mathlib.Core.Path.{◌≡◌, sym, ap, ◌∙◌, subst}
use mathlib.Core.Logic.{◌≢◌, inl, inr}
use mathlib.Core.Bool.{Bool, true, false, ◌||◌, ◌&&◌}
use mathlib.Core.List.{List, [], ◌∷◌, ◌++◌, map}
use mathlib.Core.Option.{Option, none, some, some-injective}
use native.Mathlib.Omega.{arith}
use mortar.Prelude.Tests.{if◌then◌else◌, Bool-cases}

module _ {ℓ} {A : Type ℓ} where
  abbrev pub length : List A → ℕ
  length [] = 0
  length (x ∷ xs) = suc (length xs)

  abbrev pub filter : (A → Bool) → List A → List A
  filter p [] = []
  filter p (x ∷ xs) = if p x then x ∷ filter p xs else filter p xs

  abbrev pub any : (A → Bool) → List A → Bool
  any p [] = false
  any p (x ∷ xs) = p x || any p xs

  abbrev pub all : (A → Bool) → List A → Bool
  all p [] = true
  all p (x ∷ xs) = p x && all p xs

  -- The first element that passes a test: `Array.prototype.find`.
  abbrev pub find : (A → Bool) → List A → Option A
  find p [] = none
  find p (x ∷ xs) = if p x then some x else find p xs

  abbrev pub take : ℕ → List A → List A
  take zero xs = []
  take (suc n) [] = []
  take (suc n) (x ∷ xs) = x ∷ take n xs

  abbrev pub drop : ℕ → List A → List A
  drop zero xs = xs
  drop (suc n) [] = []
  drop (suc n) (x ∷ xs) = drop n xs

  abbrev pub All {κ} : (A → Type κ) → List A → Type κ
  All P [] = Unit
  All P (x ∷ xs) = P x × All P xs

  abbrev pub sum_by : (A → ℕ) → List A → ℕ
  sum_by f [] = 0
  sum_by f (x ∷ xs) = f x + sum_by f xs

  -- No two elements have one key.
  abbrev pub Distinct : (A → ℕ) → List A → Type 0
  Distinct key [] = Unit
  Distinct key (x ∷ xs) = All (λ y. key y ≢ key x) xs × Distinct key xs

  pub find-true : (p : A → Bool) (xs : List A) (x : A) → find p xs ≡ some x → p x ≡ true
  find-true p [] x h = cc
  find-true p (y ∷ ys) x h = elim (Bool-cases (p y)) [
    | inl e ↦ ap p (sym (some-injective y x (rw e at h))) ∙ e
    | inr e ↦ find-true p ys x (rw e at h)
  ]

  -- What a filter that keeps the element found leaves in front of it.
  pub find-filter :
      (p q : A → Bool) (xs : List A) (x : A)
      → find p xs ≡ some x
      → q x ≡ true
      → find p (filter q xs) ≡ some x
  find-filter p q [] x h k = cc
  find-filter p q (y ∷ ys) x h k = ground (arith, find-filter p q ys x)

  -- An update that does not change what is tested is made to the element found.
  pub find-map :
      (p : A → Bool) (f : A → A) (xs : List A) (x : A)
      → ((y : A) → p (f y) ≡ p y)
      → find p xs ≡ some x
      → find p (map f xs) ≡ some (f x)
  find-map p f [] x same h = cc
  find-map p f (y ∷ ys) x same h = ground (arith, same y, find-map p f ys x same)

  pub length-append : (xs ys : List A) → length (xs ++ ys) ≡ length xs + length ys
  length-append [] ys = omega arith
  length-append (x ∷ xs) ys = omega (arith, length-append xs ys)

module _ {ℓ κ} {A : Type ℓ} where
  pub All-map :
      (P : A → Type κ) (f : A → A) (xs : List A) → All (λ x. P (f x)) xs → All P (map f xs)
  All-map P f [] _ = tt
  All-map P f (x ∷ xs) (p, ps) = (p, All-map P f xs ps)

  pub All-find :
      (P : A → Type κ) (p : A → Bool) (xs : List A) (x : A)
      → find p xs ≡ some x
      → All P xs
      → P x × (p x ≡ true)
  All-find P p [] x h _ = cc
  All-find P p (y ∷ ys) x h (k, ks) = elim (Bool-cases (p y)) [
    | inl e ↦ let q = some-injective y x (rw e at h) in (subst P q k, ap p (sym q) ∙ e)
    | inr e ↦ All-find P p ys x (rw e at h) ks
  ]

  pub All-append : (P : A → Type κ) (xs ys : List A) → All P xs → All P ys → All P (xs ++ ys)
  All-append P [] ys _ q = q
  All-append P (x ∷ xs) ys (p, ps) q = (p, All-append P xs ys ps q)

  pub All-mono :
      (P : A → Type κ) (Q : A → Type κ) (xs : List A) → ((x : A) → P x → Q x) → All P xs → All Q xs
  All-mono P Q [] f _ = tt
  All-mono P Q (x ∷ xs) f (p, ps) = (f x p, All-mono P Q xs f ps)

  pub All-of : (P : A → Type κ) (xs : List A) → ((x : A) → P x) → All P xs
  All-of P [] f = tt
  All-of P (x ∷ xs) f = (f x, All-of P xs f)

  pub All-filter : (P : A → Type κ) (p : A → Bool) (xs : List A) → All P xs → All P (filter p xs)
  All-filter P p [] h = tt
  All-filter P p (x ∷ xs) (h, hs) = elim (Bool-cases (p x)) [
    | inl e ↦ rw e (h, All-filter P p xs hs)
    | inr e ↦ rw e (All-filter P p xs hs)
  ]

  pub All-zip :
      (P Q R : A → Type κ) (xs : List A)
      → ((x : A) → P x → Q x → R x)
      → All P xs
      → All Q xs
      → All R xs
  All-zip P Q R [] f _ _ = tt
  All-zip P Q R (x ∷ xs) f (p, ps) (q, qs) = (f x p q, All-zip P Q R xs f ps qs)

-- A relation from each element to those behind it, and to those before it.
module _ {ℓ} {A : Type ℓ} (R : A → A → Type 0) where
  abbrev pub Forward : List A → Type 0
  Forward [] = Unit
  Forward (x ∷ xs) = All (R x) xs × Forward xs

  abbrev pub Backward : List A → Type 0
  Backward [] = Unit
  Backward (x ∷ xs) = All (λ y. R y x) xs × Backward xs

  -- Both directions, and each element with itself, make every pair.
  pub All-pairs :
      (xs : List A) → ((x : A) → R x x) → Forward xs → Backward xs → All (λ a. All (R a) xs) xs
  All-pairs [] self f b = tt
  All-pairs (x ∷ xs) self (f, fs) (b, bs) = (
    (self x, f),
    All-zip (λ a. R a x) (λ a. All (R a) xs) (λ a. All (R a) (x ∷ xs)) xs (λ a p q. (p, q)) b
        (All-pairs xs self fs bs),
  )
