-- ===== src/Economy/Kinds.antt =====
-- packages/game-economy/src/kinds.ts, types.ts, balance-of.ts, is-refundable.ts, spend-order.ts:
-- the kinds of entries, a ledger's balance, and the two small rules. Identifiers (holders,
-- currencies, entries) are only compared, so they are numbers here.
use mortar.Prelude.{ℕ, Bool, true, false, ◌&&◌, List, [], ◌∷◌, length, any, all, ◌==◌}
use mortar.Prelude.Int.{ℤ, pos, minus}
use mortar.Prelude.Number.{Doubles}

pub data CreditKind : Type 0 where
  purchase grant : CreditKind

pub data DebitKind : Type 0 where
  spend refund reversal : DebitKind

-- The union of the two.
pub data EntryKind : Type 0 where
  credit : CreditKind → EntryKind
  debit : DebitKind → EntryKind

abbrev pub credit_eq : CreditKind → CreditKind → Bool
credit_eq purchase purchase = true
credit_eq purchase grant = false
credit_eq grant purchase = false
credit_eq grant grant = true

abbrev pub debit_eq : DebitKind → DebitKind → Bool
debit_eq spend spend = true
debit_eq refund refund = true
debit_eq reversal reversal = true
debit_eq spend refund = false
debit_eq spend reversal = false
debit_eq refund spend = false
debit_eq refund reversal = false
debit_eq reversal spend = false
debit_eq reversal refund = false

abbrev pub kind_eq : EntryKind → EntryKind → Bool
kind_eq (credit a) (credit b) = credit_eq a b
kind_eq (debit a) (debit b) = debit_eq a b
kind_eq (credit a) (debit b) = false
kind_eq (debit a) (credit b) = false

-- `CREDIT_KINDS`
abbrev pub credit_kinds : List CreditKind
credit_kinds = purchase ∷ grant ∷ []

pub record Movement : Type 0 where
  pub kind : EntryKind
  pub amount : ℕ

-- What a movement adds: `movement.amount`, or `-movement.amount`.
abbrev pub signed : Movement → ℤ
signed m = elim (m.kind) [ credit _ ↦ pos m.amount | debit _ ↦ minus m.amount ]

-- `balanceOf`, which adds in doubles, in the order of the rows that it is given.
module _ (doubles : Doubles) where
  -- One step of the `reduce`.
  abbrev pub moved : ℤ → Movement → ℤ
  moved sum m = doubles.plus sum (signed m)

  unfoldable pub balance_from : ℤ → List Movement → ℤ
  balance_from sum [] = sum
  balance_from sum (m ∷ ms) = balance_from (moved sum m) ms

  unfoldable pub balance_of : List Movement → ℤ
  unfolding balance_from
  balance_of = balance_from (pos 0)

-- A purchase, none of which is spent.
abbrev pub is_refundable : CreditKind → ℕ → ℕ → Bool
is_refundable purchase amount remaining = remaining == amount
is_refundable grant amount remaining = false

abbrev pub includes : CreditKind → List CreditKind → Bool
includes kind order = any (credit_eq kind) order

unfoldable pub is_spend_order : List CreditKind → Bool
is_spend_order order =
    length order == length credit_kinds && all (λ kind. includes kind order) credit_kinds
