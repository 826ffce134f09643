-- ===== src/Quantity/Tests.antt =====
-- Units to try the theorems of packages/quantity on.
use mortar.Prelude.{ℕ, ◌*◌, ◌/◌, ◌≡◌, ◌≢◌, ◌⊎◌, refl, true, none, some, List, [], ◌∷◌, ltb, ◌==◌}
use mortar.Quantity.Table.{
  Decimals, UnitSpec, UnitTable, ok, problem, out_of_fuel, cycle, unit_table, duplicates,
  resolve_all, resolve, by_spec, entered, spec_of,
}
use mortar.Quantity.Table.Resolved.{Means}
use mortar.Quantity.Table.Built.{unit_table-ne-out_of_fuel, unit_table-Means}

-- Whole numbers serve as decimals.
abbrev wholes : Decimals
wholes = record {
  D = ℕ;
  one = 1;
  times = λ a b. a * b;
  divided_by = λ a b. a / b;
  equals_one = λ a. a == 1;
  more_than_zero = λ a. ltb 0 a;
  one_more_than_zero = refl;
}

-- A tray is six bottles, and a case four trays. Bottles are 0, trays 1 and cases 2.
abbrev crates : List (UnitSpec wholes)
crates =
    record { code = 2; to_base = none; parent = some 1; how_many = some 4 }
    ∷ record { code = 1; to_base = some 6; parent = none; how_many = none }
    ∷ []

abbrev crate_table : UnitTable wholes
crate_table = record { base = 0; codes = 0 ∷ 2 ∷ 1 ∷ []; factors = (2, 24) ∷ (1, 6) ∷ (0, 1) ∷ [] }

crates_built : unit_table wholes crates 0 ≡ ok crate_table
unfolding unit_table duplicates resolve_all resolve by_spec entered
crates_built = refl

-- A case of trays, and a tray of cases.
abbrev loop : List (UnitSpec wholes)
loop =
    record { code = 2; to_base = none; parent = some 1; how_many = some 4 }
    ∷ record { code = 1; to_base = none; parent = some 2; how_many = some 6 }
    ∷ []

loop_refused : unit_table wholes loop 0 ≡ problem cycle 2
unfolding unit_table duplicates resolve_all resolve by_spec entered
loop_refused = refl

unit_table-ne-out_of_fuel_example : unit_table wholes loop 0 ≢ out_of_fuel
unit_table-ne-out_of_fuel_example = unit_table-ne-out_of_fuel wholes loop 0

abbrev worth : ℕ
worth = 24

unit_table-Means_example :
    ((2 ≡ crate_table.base) × (worth ≡ wholes.one))
    ⊎ ((spec : UnitSpec wholes) × (spec_of wholes crates 2 ≡ some spec)
        × Means wholes crates spec worth crate_table.factors
        × (wholes.more_than_zero worth ≡ true))
unit_table-Means_example = unit_table-Means wholes crates 0 crate_table crates_built 2 worth refl
