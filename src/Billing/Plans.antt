-- ===== src/Billing/Plans.antt =====
-- packages/billing/src/plans.ts. A price is of a type `P`, and `Math.round` of a number of units times
-- a price is a parameter, `charge`: it is arithmetic on floating-point numbers. A quantity is what
-- `Math.ceil` makes of it, a whole number.
pub mod PerUnit
use mortar.Prelude.{
  ℕ, ◌+◌, ◌-◌, min, Bool, true, false, Option, none, some, List, [], ◌∷◌, any, ltb, ◌==◌,
  if◌then◌else◌,
}

pub data Interval : Type 0 where
  month year : Interval

pub record Tier (P : Type 0) : Type 0 where
  pub up_to : Option ℕ
  pub unit_price : P

-- A limit that a plan names; none is unlimited. A name that is absent is unlimited too.
pub record Plan (P : Type 0) : Type 0 where
  pub code : ℕ
  pub name : ℕ
  pub interval : Interval
  pub currency : ℕ
  pub base_price : ℕ
  pub included_quantity : ℕ
  pub tiers : List (Tier P)
  pub limits : List (ℕ × Option ℕ)
  pub features : List ℕ
  pub trial_days : ℕ

-- The units that a tier takes; one without an end takes all.
abbrev pub in_band : ℕ → ℕ → Option ℕ → ℕ
in_band remaining floor none = remaining
in_band remaining floor (some ceiling) = min remaining (ceiling - floor)

-- Where the next band starts. Past a tier without an end nothing remains, and the loop ends.
abbrev pub next_floor : Option ℕ → ℕ
next_floor none = 0
next_floor (some ceiling) = ceiling

module _ {P : Type 0} (charge : ℕ → P → ℕ) where
  -- The loop over the tiers: what remains, and the total.
  unfoldable pub bands : List (Tier P) → ℕ → ℕ → ℕ → ℕ × ℕ
  bands [] remaining total floor = (remaining, total)
  bands (tier ∷ tiers) remaining total floor =
      let taken = in_band remaining floor tier.up_to in
      let rest =
        bands tiers (remaining - taken) (total + charge taken tier.unit_price)
          (next_floor tier.up_to) in
      if remaining == 0 then (remaining, total) else rest

  -- Past the last band, at its rate.
  unfoldable pub past_last : List (Tier P) → ℕ × ℕ → ℕ
  past_last [] (remaining, total) = total
  past_last (tier ∷ []) (remaining, total) =
      if ltb 0 remaining then total + charge remaining tier.unit_price else total
  past_last (tier ∷ next ∷ tiers) result = past_last (next ∷ tiers) result

  abbrev pub price_of : ℕ → ℕ → List (Tier P) → ℕ → ℕ
  unfolding bands past_last
  price_of base included [] billable = base
  price_of base included (tier ∷ tiers) billable =
      if billable == 0
      then base
      else past_last (tier ∷ tiers) (bands (tier ∷ tiers) billable base included)

  -- `priceFor`
  unfoldable pub price_for : Plan P → ℕ → ℕ
  unfolding bands past_last
  price_for plan quantity =
      price_of plan.base_price plan.included_quantity plan.tiers (quantity - plan.included_quantity)

abbrev pub limit_in : List (ℕ × Option ℕ) → ℕ → Option ℕ
limit_in [] key = none
limit_in (row ∷ rows) key = if row.0 == key then row.1 else limit_in rows key

abbrev pub limit_for : {P : Type 0} → Plan P → ℕ → Option ℕ
limit_for plan key = limit_in plan.limits key

abbrev pub is_below : ℕ → Option ℕ → Bool
is_below used none = true
is_below used (some limit) = ltb used limit

abbrev pub within_limit : {P : Type 0} → Plan P → ℕ → ℕ → Bool
within_limit plan key used = is_below used (limit_for plan key)

abbrev pub has_feature : {P : Type 0} → Plan P → ℕ → Bool
has_feature plan feature = any (λ f. f == feature) plan.features
