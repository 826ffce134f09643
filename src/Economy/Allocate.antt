-- ===== src/Economy/Allocate.antt =====
-- packages/game-economy/src/allocate.ts: which credits a debit draws on.
pub mod Amounts
pub mod Waits
pub mod Order
use mortar.Prelude.{
  ℕ, ◌+◌, ◌-◌, min, Bool, true, false, Option, none, some, List, [], ◌∷◌, filter, ltb, ◌==◌,
  if◌then◌else◌,
}
use mortar.Prelude.Int.{ℤ, pos, negsuc, ◌+ℤ◌, ◌-ℤ◌, ltb_ℤ}
use mortar.Prelude.Number.{Number, safe_positive}
use mortar.Prelude.Sort.{insert_by, sort_by}
use mortar.Economy.Kinds.{CreditKind, credit_eq}

pub record Lot : Type 0 where
  pub id : ℕ
  pub kind : CreditKind
  pub amount : ℕ
  pub remaining : ℕ
  pub seq : ℕ

pub record Draw : Type 0 where
  pub lot_id : ℕ
  pub amount : ℕ

-- `order.indexOf(kind)`, counted on from `i`; -1 when it is not there.
index_from : ℕ → CreditKind → List CreditKind → ℤ
index_from i kind [] = negsuc 0
index_from i kind (k ∷ ks) = if credit_eq k kind then pos i else index_from (i + 1) kind ks

-- The comparator `indexOf(one) - indexOf(other) || one.seq - other.seq` is above zero.
unfoldable pub after : List CreditKind → Lot → Lot → Bool
unfolding index_from ◌-ℤ◌
after order one other = elim (index_from 0 one.kind order -ℤ index_from 0 other.kind order) [
  | pos d ↦ if d == 0 then ltb other.seq one.seq else true
  | negsuc _ ↦ false
]

abbrev pub is_open : Lot → Bool
is_open lot = ltb 0 lot.remaining

unfoldable pub ranked : List Lot → List CreditKind → List Lot
unfolding after sort_by
ranked lots order = sort_by (after order) (filter is_open lots)

-- The loop over the ranked lots: the draws, and what is left to take.
unfoldable pub take_from : List Lot → ℕ → List Draw × ℕ
take_from [] left = ([], left)
take_from (lot ∷ lots) left =
    let taken = min lot.remaining left in
    let (draws, rest) = take_from lots (left - taken) in
    if left == 0 then ([], 0) else (record { lot_id = lot.id; amount = taken } ∷ draws, rest)

-- `draws`, or null when everything left is less than asked.
unfoldable pub draws_for : List Lot → ℕ → List CreditKind → Option (List Draw)
unfolding ranked take_from
draws_for lots amount order =
    let (draws, left) = take_from (ranked lots order) amount in
    if left == 0 then some draws else none

pub data Allocation : Type 0 where
  range_error : Allocation
  allocated : Option (List Draw) → Allocation

unfoldable pub allocate : List Lot → Number → List CreditKind → Allocation
unfolding draws_for
allocate lots amount order = elim (safe_positive amount) [
  | none ↦ range_error
  | some n ↦ allocated (draws_for lots n order)
]
