-- ===== src/Clock/Interval/Normal.antt =====
-- `normalise` covers the same instants, with intervals that are apart and in order.
use mortar.Prelude.{
  ℕ, ◌≤◌, ◌<◌, ◌≡◌, refl, ap, ◌∙◌, inl, inr, true, false, not, ◌||◌, List, [], ◌∷◌, filter, arith,
  leb, Bool-cases, All, All-mono,
}
use mortar.Prelude.Sort.{sort_by, IsSorted, sort_by-IsSorted, All-sort_by}
use mortar.Clock.Interval.{Interval, is_empty, starts_after, wider, merge, merge_all, normalise}
use mortar.Clock.Interval.Covers.{within, covers, covers-sort_by, covers-filter}

abbrev pub HasTime : Interval → Type 0
HasTime i = i.start < i.end

abbrev pub StartsFrom : ℕ → Interval → Type 0
StartsFrom s i = s ≤ i.start

-- Each has a duration, and none so much as touches one further on.
abbrev pub IsNormal : List Interval → Type 0
IsNormal [] = Unit
IsNormal (x ∷ xs) = HasTime x × All (λ y. x.end < y.start) xs × IsNormal xs

merge-StartsFrom :
    (s : ℕ) (last : Interval) (is : List Interval)
    → StartsFrom s last
    → All (StartsFrom s) is
    → All (StartsFrom s) (merge last is)
unfolding merge
merge-StartsFrom s last [] h _ = (h, tt)
merge-StartsFrom s last (i ∷ is) h (k, ks) = elim (Bool-cases (leb i.start last.end)) [
  | inl joins ↦ rw joins (merge-StartsFrom s (wider last i) is (ground arith) ks)
  | inr apart ↦ rw apart (h, merge-StartsFrom s i is k ks)
]

-- In order of their starts.
abbrev pub InOrder : List Interval → Type 0
InOrder [] = Unit
InOrder (x ∷ xs) = All (StartsFrom x.start) xs × InOrder xs

merge-IsNormal :
    (last : Interval) (is : List Interval)
    → HasTime last
    → All HasTime is
    → InOrder (last ∷ is)
    → IsNormal (merge last is)
unfolding merge
merge-IsNormal last [] h _ _ = (h, tt, tt)
merge-IsNormal last (i ∷ is) h (k, ks) ((s, ss), (r, rs)) =
    elim (Bool-cases (leb i.start last.end)) [
      | inl joins ↦ rw joins (merge-IsNormal (wider last i) is (ground arith) ks (ss, rs))
      | inr apart ↦
          let beyond = merge-StartsFrom i.start i is (omega arith) r in
          rw apart (
            h,
            All-mono (StartsFrom i.start) (λ y. last.end < y.start) (merge i is)
                (λ y p. ground arith) beyond,
            merge-IsNormal i is k ks (r, rs),
          )
    ]

merge-covers :
    (t : ℕ) (last : Interval) (is : List Interval)
    → HasTime last
    → All HasTime is
    → InOrder (last ∷ is)
    → covers t (merge last is) ≡ (within t last || covers t is)
unfolding merge
merge-covers t last [] h _ _ = refl
merge-covers t last (i ∷ is) h (k, ks) ((s, ss), (r, rs)) =
    elim (Bool-cases (leb i.start last.end)) [
      | inl joins ↦
          let both : (within t (wider last i) || covers t is)
              ≡ (within t last || covers t (i ∷ is)) =
            ground arith in
          rw joins (merge-covers t (wider last i) is (ground arith) ks (ss, rs) ∙ both)
      | inr apart ↦ rw apart (ap (λ b. within t last || b) (merge-covers t i is k ks (r, rs)))
    ]

-- The sorted, filtered list that `normalise` merges.
starts_asym : (x y : Interval) → starts_after x y ≡ true → starts_after y x ≡ false
starts_asym x y h = ground arith

starts_trans :
    (x y z : Interval)
    → starts_after x y ≡ false
    → starts_after y z ≡ false
    → starts_after x z ≡ false
starts_trans x y z p q = ground arith

InOrder-of_sorted : (is : List Interval) → IsSorted starts_after is → InOrder is
InOrder-of_sorted [] s = tt
InOrder-of_sorted (x ∷ xs) (f, s) = (
  All-mono (λ y. starts_after x y ≡ false) (StartsFrom x.start) xs (λ y h. ground arith) f,
  InOrder-of_sorted xs s,
)

HasTime-filter : (is : List Interval) → All HasTime (filter (λ i. not (is_empty i)) is)
HasTime-filter [] = tt
HasTime-filter (i ∷ is) = elim (Bool-cases (is_empty i)) [
  | inl e ↦ rw e (HasTime-filter is)
  | inr e ↦ rw e (ground arith, HasTime-filter is)
]

merge_all-IsNormal : (is : List Interval) → All HasTime is → InOrder is → IsNormal (merge_all is)
unfolding merge_all
merge_all-IsNormal [] _ _ = tt
merge_all-IsNormal (i ∷ is) (h, hs) o = merge-IsNormal i is h hs o

merge_all-covers :
    (t : ℕ) (is : List Interval)
    → All HasTime is
    → InOrder is
    → covers t (merge_all is) ≡ covers t is
unfolding merge_all
merge_all-covers t [] _ _ = refl
merge_all-covers t (i ∷ is) (h, hs) o = merge-covers t i is h hs o

module _ (is : List Interval) where
  abbrev ready : List Interval
  ready = sort_by starts_after (filter (λ i. not (is_empty i)) is)

  ready-HasTime : All HasTime ready
  ready-HasTime =
      All-sort_by starts_after HasTime (filter (λ i. not (is_empty i)) is) (HasTime-filter is)

  ready-InOrder : InOrder ready
  ready-InOrder =
      InOrder-of_sorted ready
        (sort_by-IsSorted starts_after starts_asym starts_trans (filter (λ i. not (is_empty i)) is))

  pub normalise-IsNormal : IsNormal (normalise is)
  unfolding normalise
  normalise-IsNormal = merge_all-IsNormal ready ready-HasTime ready-InOrder

  pub normalise-covers : (t : ℕ) → covers t (normalise is) ≡ covers t is
  unfolding normalise
  normalise-covers t =
      merge_all-covers t ready ready-HasTime ready-InOrder
      ∙ covers-sort_by t (filter (λ i. not (is_empty i)) is)
      ∙ covers-filter t is

  -- A normalised list holds only spans with a duration, in order, none touching another, and
  -- covers the same instants as before.
  pub normalise_lem : (t : ℕ) → IsNormal (normalise is) × (covers t (normalise is) ≡ covers t is)
  normalise_lem t = (normalise-IsNormal, normalise-covers t)
