-- ===== src/Quantity/Convert.antt =====
-- packages/quantity/src/convert.ts and quantity.ts.
use mortar.Prelude.{
  ℕ, ◌≡◌, Bool, true, false, not, ◌&&◌, Option, none, some, ◌==◌, if◌then◌else◌, Option-cases,
  ==_refl, inl, inr,
}
use mortar.Quantity.Table.{Decimals, UnitTable, factor_of}

module _ (decimals : Decimals) where
  open decimals use {D, times, divided_by}

  pub record Quantity : Type 0 where
    pub amount : D
    pub unit : ℕ

  pub data Converted : Type 0 where
    converted : Quantity → Converted
    unknown_unit : ℕ → Converted
    not_base : ℕ → Converted

  unfoldable pub to_base : Quantity → UnitTable decimals → Converted
  to_base value table = elim (factor_of decimals table.factors value.unit) [
    | none ↦ unknown_unit value.unit
    | some factor ↦ converted (record { amount = times value.amount factor; unit = table.base })
  ]

  unfoldable pub from_base : Quantity → ℕ → UnitTable decimals → Converted
  from_base base unit table =
      if not (base.unit == table.base)
      then not_base base.unit
      else elim (factor_of decimals table.factors unit) [
        | none ↦ unknown_unit unit
        | some factor ↦ converted (record { amount = divided_by base.amount factor; unit = unit })
      ]

  unfoldable pub convert : Quantity → ℕ → UnitTable decimals → Converted
  convert value unit table =
      if value.unit == unit
      then converted value
      else elim (factor_of decimals table.factors value.unit) [
        | none ↦ unknown_unit value.unit
        | some from ↦ elim (factor_of decimals table.factors unit) [
          | none ↦ unknown_unit unit
          | some to ↦
              converted (record { amount = divided_by (times value.amount from) to; unit = unit })
        ]
      ]

  abbrev is_some : Option D → Bool
  is_some none = false
  is_some (some d) = true

  unfoldable pub can_convert : Quantity → ℕ → UnitTable decimals → Bool
  can_convert value unit table =
      is_some (factor_of decimals table.factors value.unit)
      && is_some (factor_of decimals table.factors unit)

  -- What was converted to the base, from there to a unit; a problem stays.
  abbrev pub onward : Converted → ℕ → UnitTable decimals → Converted
  onward (converted base) unit table = from_base base unit table
  onward (unknown_unit u) unit table = unknown_unit u
  onward (not_base u) unit table = not_base u

  pub convert-onward :
      (value : Quantity) (unit : ℕ) (table : UnitTable decimals)
      → (value.unit == unit) ≡ false
      → convert value unit table ≡ onward (to_base value table) unit table
  unfolding convert to_base from_base
  convert-onward value unit table other =
      elim (Option-cases (factor_of decimals table.factors value.unit)) [
        | inl unknown ↦ rw other (rw (unknown, convert) (rw (unknown, to_base)))
        | inr (f, known) ↦
            rw other
              (rw (known, convert) (rw (known, to_base) (rw (==_refl table.base, from_base))))
      ]
