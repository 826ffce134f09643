-- ===== src/Billing/Tests.antt =====
-- Plans to try the theorems of packages/billing on.
use mortar.Prelude.{ℕ, ◌+◌, ◌*◌, ◌≡◌, refl, none, some, [], ◌∷◌, arith}
use mortar.Billing.Plans.{Interval, Plan, price_for}
use mortar.Billing.Plans.PerUnit.{units_of, price_for-units_of}

-- Whole prices, which need no rounding.
abbrev charge : ℕ → ℕ → ℕ
charge n price = n * price

-- Five included, then 20 each up to ten and 15 each up to thirty.
abbrev team : Plan ℕ
team = record {
  code = 1;
  name = 2;
  interval = Interval.month;
  currency = 3;
  base_price = 100;
  included_quantity = 5;
  tiers =
      record { up_to = some 10; unit_price = 20 }
      ∷ record { up_to = some 30; unit_price = 15 }
      ∷ [];
  limits = [];
  features = [];
  trial_days = 0;
}

price_for-units_of_example : price_for charge team 32 ≡ 100 + units_of charge team.tiers 5 27
price_for-units_of_example =
    price_for-units_of charge (λ p. omega arith) (λ a b p. grind arith) team 32
      (omega arith, (omega arith, tt))

price_for-team : price_for charge team 32 ≡ 530
unfolding price_for
price_for-team = refl

-- Ten included, though the first tier ends at five: units 11 to 25 are all charged 15, those past
-- 20 too.
abbrev early : Plan ℕ
early = record team {
  included_quantity = 10;
  tiers =
      record { up_to = some 5; unit_price = 20 }
      ∷ record { up_to = some 20; unit_price = 15 }
      ∷ record { up_to = none; unit_price = 10 }
      ∷ [];
}

price_for-early :
    (price_for charge early 25 ≡ 325) × (100 + units_of charge early.tiers 10 15 ≡ 300)
unfolding price_for
price_for-early = (refl, refl)
