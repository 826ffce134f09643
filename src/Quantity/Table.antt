-- ===== src/Quantity/Table.antt =====
-- packages/quantity/src/table.ts. Codes of units are numbers. Decimals and their arithmetic, of
-- decimal.js, are a parameter; a factor in a specification is a decimal already.
pub mod Resolved
pub mod Built
use mortar.Prelude.{
  ℕ, zero, suc, ◌≡◌, Bool, true, false, not, ◌&&◌, Option, none, some, List, [], ◌∷◌, ◌++◌, map,
  filter, any, find, length, ◌==◌, if◌then◌else◌,
}

pub record Decimals : Type 1 where
  pub D : Type 0
  pub one : D
  pub times : D → D → D
  pub divided_by : D → D → D
  pub equals_one : D → Bool
  -- `isMoreThanZero`
  pub more_than_zero : D → Bool
  pub one_more_than_zero : more_than_zero one ≡ true

pub data Reason : Type 0 where
  duplicate : Reason
  unknown_parent : Reason
  cycle : Reason
  not_positive : Reason
  missing_base : Reason

-- What `resolve` and `unitTable` end in: a value, a problem with a unit, or, on fuel, no end.
pub data Outcome (A : Type 0) : Type 0 where
  ok : A → Outcome A
  problem : Reason → ℕ → Outcome A
  out_of_fuel : Outcome A

infixl 5 ◌>>=◌
abbrev pub ◌>>=◌ : {A B : Type 0} → Outcome A → (A → Outcome B) → Outcome B
ok a >>= f = f a
problem r u >>= f = problem r u
out_of_fuel >>= f = out_of_fuel

abbrev pub among : List ℕ → ℕ → Bool
among codes code = any (λ c. c == code) codes

module _ (decimals : Decimals) where
  open decimals use {D, one, times, equals_one, more_than_zero}

  pub record UnitSpec : Type 0 where
    pub code : ℕ
    pub to_base : Option D
    pub parent : Option ℕ
    pub how_many : Option D

  -- `Map<string, Decimal>`, the newest first.
  abbrev pub Factors : Type 0
  Factors = List (ℕ × D)

  abbrev pub factor_of : Factors → ℕ → Option D
  factor_of [] code = none
  factor_of ((c, f) ∷ rest) code = if c == code then some f else factor_of rest code

  abbrev pub spec_of : List UnitSpec → ℕ → Option UnitSpec
  spec_of units code = find (λ u. u.code == code) units

  -- `spec.times ?? 1`
  abbrev pub or_one : Option D → D
  or_one none = one
  or_one (some d) = d

  -- A factor that is more than zero is entered.
  unfoldable pub entered : ℕ → D → Factors → Outcome (D × Factors)
  entered code factor resolved =
      if not (more_than_zero factor)
      then problem not_positive code
      else ok (factor, (code, factor) ∷ resolved)

  -- The factor of a unit, by its specification: given at once, or through the unit above it.
  unfoldable pub by_spec :
      ℕ
      → Factors
      → (ℕ → Outcome (D × Factors))
      → Option D
      → Option D
      → Option ℕ
      → Outcome (D × Factors)
  by_spec code resolved above how_many (some d) parent = entered code d resolved
  by_spec code resolved above how_many none none = problem not_positive code
  by_spec code resolved above how_many none (some p) =
      above p >>= λ r. entered code (times (or_one how_many) r.0) r.1

  -- `resolve`, with the units that are being resolved.
  unfoldable pub resolve : List UnitSpec → ℕ → List ℕ → Factors → ℕ → Outcome (D × Factors)
  resolve units zero resolving resolved code = out_of_fuel
  resolve units (suc fuel) resolving resolved code = elim (factor_of resolved code) [
    | some known ↦ ok (known, resolved)
    | none ↦ elim (among resolving code) [
      | true ↦ problem cycle code
      | false ↦ elim (spec_of units code) [
        | none ↦ problem unknown_parent code
        | some spec ↦
            by_spec code resolved (resolve units fuel (code ∷ resolving) resolved) spec.how_many
              spec.to_base spec.parent
      ]
    ]
  ]

  -- `for (const unit of units) resolve(unit.code, [])`
  unfoldable pub resolve_all : List UnitSpec → ℕ → Factors → List UnitSpec → Outcome Factors
  resolve_all units fuel resolved [] = ok resolved
  resolve_all units fuel resolved (u ∷ us) =
      resolve units fuel [] resolved u.code >>= λ r. resolve_all units fuel r.1 us

  -- The first code that a map has already.
  unfoldable pub duplicates : List ℕ → List UnitSpec → Option ℕ
  duplicates seen [] = none
  duplicates seen (u ∷ us) =
      let rest = duplicates (u.code ∷ seen) us in if among seen u.code then some u.code else rest

  -- `declaredBase.toBase ?? declaredBase.times`
  abbrev pub direct : Option D → Option D → Option D
  direct (some d) times = some d
  direct none times = times

  abbrev pub is_other : Option D → Bool
  is_other none = false
  is_other (some d) = not (equals_one d)

  abbrev pub bad_base : Option UnitSpec → Bool
  bad_base none = false
  bad_base (some spec) = is_other (direct spec.to_base spec.how_many)

  pub record UnitTable : Type 0 where
    pub base : ℕ
    pub codes : List ℕ
    pub factors : Factors

  abbrev pub built : ℕ → List UnitSpec → Factors → UnitTable
  built base units resolved = record {
    base = base;
    codes = base ∷ filter (λ c. not (c == base)) (map (λ u. u.code) units);
    factors = resolved;
  }

  unfoldable pub unit_table : List UnitSpec → ℕ → Outcome UnitTable
  unit_table units base = elim (duplicates [] units) [
    | some code ↦ problem duplicate code
    | none ↦
        if bad_base (spec_of units base)
        then problem missing_base base
        else (resolve_all units (suc (length units)) ((base, one) ∷ []) units >>= λ resolved.
            ok (built base units resolved))
  ]
