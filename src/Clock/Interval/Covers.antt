-- ===== src/Clock/Interval/Covers.antt =====
-- The instants that a list of intervals covers.
use mortar.Prelude.{
  ℕ, ◌≡◌, refl, ap, ◌∙◌, Bool, not, ◌&&◌, ◌||◌, List, [], ◌∷◌, ◌++◌, any, filter, arith, ltb, leb,
}
use mortar.Prelude.Sort.{insert_by, sort_by}
use mortar.Clock.Interval.{Interval, is_empty, starts_after}

abbrev pub within : ℕ → Interval → Bool
within t i = leb i.start t && ltb t i.end

abbrev pub covers : ℕ → List Interval → Bool
covers t is = any (within t) is

pub covers-append :
    (t : ℕ) (xs ys : List Interval) → covers t (xs ++ ys) ≡ (covers t xs || covers t ys)
covers-append t [] ys = refl
covers-append t (x ∷ xs) ys = ground (arith, covers-append t xs ys)

covers-insert_by :
    (t : ℕ) (x : Interval) (ys : List Interval)
    → covers t (insert_by starts_after x ys) ≡ (within t x || covers t ys)
unfolding insert_by
covers-insert_by t x [] = refl
covers-insert_by t x (y ∷ ys) = ground (arith, covers-insert_by t x ys)

pub covers-sort_by : (t : ℕ) (xs : List Interval) → covers t (sort_by starts_after xs) ≡ covers t xs
unfolding sort_by
covers-sort_by t [] = refl
covers-sort_by t (x ∷ xs) =
    covers-insert_by t x (sort_by starts_after xs) ∙ ap (λ b. within t x || b) (covers-sort_by t xs)

-- An interval of no duration covers nothing.
pub covers-filter :
    (t : ℕ) (xs : List Interval) → covers t (filter (λ i. not (is_empty i)) xs) ≡ covers t xs
covers-filter t [] = refl
covers-filter t (x ∷ xs) = ground (arith, covers-filter t xs)
