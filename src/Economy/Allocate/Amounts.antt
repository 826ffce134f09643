-- ===== src/Economy/Allocate/Amounts.antt =====
-- How much an allocation takes: all that is asked or nothing, and from no lot more than it holds.
use mortar.Prelude.{
  ◌↔◌, ℕ, ◌+◌, ◌-◌, ◌<◌, ◌≡◌, refl, none, some, List, [], ◌∷◌, filter, arith, sum_by,
}
use mortar.Prelude.Sort.{sum_by-sort_by}
use mortar.Economy.Kinds.{CreditKind}
use mortar.Economy.Allocate.{Lot, Draw, after, is_open, ranked, take_from, draws_for}

abbrev pub left_in : Lot → ℕ
left_in lot = lot.remaining

abbrev pub drawn : Draw → ℕ
drawn d = d.amount

-- What is not taken is what the lots lack.
pub take_from-sum :
    (lots : List Lot) (left : ℕ)
    → let (draws, rest) = take_from lots left in
      (sum_by drawn draws + rest ≡ left) × (rest ≡ left - sum_by left_in lots)
unfolding take_from
take_from-sum [] left = omega arith
take_from-sum (lot ∷ lots) left =
    ground (arith, take_from-sum lots (left - Prim.Native.Nat.min lot.remaining left))

sum_by-open : (lots : List Lot) → sum_by left_in (filter is_open lots) ≡ sum_by left_in lots
sum_by-open [] = refl
sum_by-open (lot ∷ lots) = ground (arith, sum_by-open lots)

sum_by-ranked :
    (lots : List Lot) (order : List CreditKind)
    → sum_by left_in (ranked lots order) ≡ sum_by left_in lots
unfolding ranked
sum_by-ranked lots order =
    omega (arith, sum_by-sort_by (after order) left_in (filter is_open lots), sum_by-open lots)

-- The draws of an allocation that gives any add up to the amount asked.
pub draws_for-sum :
    (lots : List Lot) (amount : ℕ) (order : List CreditKind) (draws : List Draw)
    → draws_for lots amount order ≡ some draws
    → sum_by drawn draws ≡ amount
unfolding draws_for
draws_for-sum lots amount order draws e = ground (arith, take_from-sum (ranked lots order) amount)

-- An allocation is refused exactly when all that is left of the lots is less than what is asked.
pub draws_for-none :
    (lots : List Lot) (amount : ℕ) (order : List CreditKind)
    → (draws_for lots amount order ≡ none) ↔ (sum_by left_in lots < amount)
unfolding draws_for
draws_for-none lots amount order = (
  λ e. ground (arith, take_from-sum (ranked lots order) amount, sum_by-ranked lots order),
  λ h. ground (arith, take_from-sum (ranked lots order) amount, sum_by-ranked lots order),
)
