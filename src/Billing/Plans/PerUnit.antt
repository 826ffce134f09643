-- ===== src/Billing/Plans/PerUnit.antt =====
-- A price by bands is the price of its units, one by one.
use mortar.Prelude.{
  ℕ, zero, suc, ◌+◌, ◌-◌, ◌≤◌, ◌<◌, ◌≡◌, refl, sym, ap, ◌∙◌, min, Bool, true, false, inl, inr,
  Option, none, some, List, [], ◌∷◌, leb, ltb, ◌==◌, if◌then◌else◌, arith, Bool-cases,
}
use mortar.Billing.Plans.{Tier, Plan, in_band, next_floor, bands, past_last, price_of, price_for}

abbrev pub covers : Option ℕ → ℕ → Bool
covers none u = true
covers (some c) u = leb u c

abbrev pub StartsBy : ℕ → Option ℕ → Type 0
StartsBy f none = Unit
StartsBy f (some c) = f ≤ c

abbrev pub end_or : ℕ → Option ℕ → ℕ
end_or f none = f
end_or f (some c) = c

-- Each tier ends no earlier than the one before it, the first no earlier than `f`.
abbrev pub Ascends : {P : Type 0} → ℕ → List (Tier P) → Type 0
Ascends f [] = Unit
Ascends f (tier ∷ tiers) = StartsBy f tier.up_to × Ascends (end_or f tier.up_to) tiers

-- The rate of the `u`th unit: of the first tier that reaches it, or of the last.
abbrev pub rate_at : {P : Type 0} → Tier P → List (Tier P) → ℕ → P
rate_at tier [] u = tier.unit_price
rate_at tier (next ∷ tiers) u =
    let later = rate_at next tiers u in if covers tier.up_to u then tier.unit_price else later

module _ {P : Type 0} (charge : ℕ → P → ℕ) where
  -- The `n` units after the first `f`, one by one.
  abbrev pub units : Tier P → List (Tier P) → ℕ → ℕ → ℕ
  units tier tiers f zero = 0
  units tier tiers f (suc n) = charge 1 (rate_at tier tiers (f + 1)) + units tier tiers (f + 1) n

  -- The tiers of a plan that has any.
  abbrev pub units_of : List (Tier P) → ℕ → ℕ → ℕ
  units_of [] f n = 0
  units_of (t ∷ ts) f n = units t ts f n

module _ {P : Type 0} (charge : ℕ → P → ℕ) (charge_zero : (p : P) → charge 0 p ≡ 0)
    (charge_add : (a b : ℕ) (p : P) → charge (a + b) p ≡ charge a p + charge b p) where
  suc_add : (a b : ℕ) → suc a + b ≡ suc (a + b)
  suc_add a b = omega arith

  units-add :
      (t : Tier P) (ts : List (Tier P)) (a b f : ℕ)
      → units charge t ts f (a + b) ≡ units charge t ts f a + units charge t ts (f + a) b
  units-add t ts zero b f =
      let count : units charge t ts f (0 + b) ≡ units charge t ts f b =
        ap (units charge t ts f) (omega arith) in
      let from : units charge t ts (f + 0) b ≡ units charge t ts f b =
        ap (λ g. units charge t ts g b) (omega arith) in
      omega (arith, count, from)
  units-add t ts (suc a) b f =
      let count : units charge t ts f (suc a + b) ≡ units charge t ts f (suc (a + b)) =
        ap (units charge t ts f) (suc_add a b) in
      let from : units charge t ts ((f + 1) + a) b ≡ units charge t ts (f + suc a) b =
        ap (λ g. units charge t ts g b) (omega arith) in
      omega (arith, count, from, units-add t ts a b (f + 1))

  units-flat :
      (t : Tier P) (ts : List (Tier P)) (p : P) (n f : ℕ)
      → ((k : ℕ) → f < k → k ≤ f + n → rate_at t ts k ≡ p)
      → units charge t ts f n ≡ charge n p
  units-flat t ts p zero f h = sym (charge_zero p)
  units-flat t ts p (suc n) f h =
      let first : charge 1 (rate_at t ts (f + 1)) ≡ charge 1 p =
        ap (charge 1) (h (f + 1) (omega arith) (omega arith)) in
      let rest = units-flat t ts p n (f + 1) (λ k a b. h k (omega arith) (omega arith)) in
      let whole : charge (suc n) p ≡ charge (1 + n) p = ap (λ m. charge m p) (omega arith) in
      omega (arith, first, rest, charge_add 1 n p, whole)

  units-next :
      (t s : Tier P) (ts : List (Tier P)) (n f : ℕ)
      → ((k : ℕ) → f < k → k ≤ f + n → covers t.up_to k ≡ false)
      → units charge t (s ∷ ts) f n ≡ units charge s ts f n
  units-next t s ts zero f h = refl
  units-next t s ts (suc n) f h =
      let first : charge 1 (rate_at t (s ∷ ts) (f + 1)) ≡ charge 1 (rate_at s ts (f + 1)) =
        rw (h (f + 1) (omega arith) (omega arith)) refl in
      omega (arith, first, units-next t s ts n (f + 1) (λ k a b. h k (omega arith) (omega arith)))

  past_last-zero :
      (t : Tier P) (ts : List (Tier P)) (total : ℕ) → past_last charge (t ∷ ts) (0, total) ≡ total
  unfolding past_last
  past_last-zero t [] total = refl
  past_last-zero t (s ∷ ts) total = past_last-zero s ts total

  -- Of a tier, the units that it takes, and those that are left to later tiers.
  taken_flat :
      (t : Tier P) (ts : List (Tier P)) (f c r : ℕ)
      → t.up_to ≡ some c
      → units charge t ts f (min r (c - f)) ≡ charge (min r (c - f)) t.unit_price
  taken_flat t ts f c r e =
      units-flat t ts t.unit_price (min r (c - f)) f
        (λ k a b. rate ts k (ap (λ o. covers o k) e ∙ ground arith))
    where
      rate : (ts : List (Tier P)) (k : ℕ) → covers t.up_to k ≡ true → rate_at t ts k ≡ t.unit_price
      rate [] k h = refl
      rate (s ∷ ts) k h = rw h refl

  units_endless :
      (t s : Tier P) (ts : List (Tier P)) (r f : ℕ)
      → t.up_to ≡ none
      → units charge t (s ∷ ts) f r ≡ charge r t.unit_price
  units_endless t s ts r f e =
      units-flat t (s ∷ ts) t.unit_price r f (λ k a b. rw (ap (λ o. covers o k) e) refl)

  units_later :
      (t s : Tier P) (ts : List (Tier P)) (c r f : ℕ)
      → t.up_to ≡ some c
      → f ≤ c
      → units charge t (s ∷ ts) (f + min r (c - f)) (r - min r (c - f))
        ≡ units charge s ts c (r - min r (c - f))
  units_later t s ts c r f e l = elim (Bool-cases (leb r (c - f))) [
    | inl h ↦
        let spent : r - min r (c - f) ≡ 0 = ground (arith, h) in
        ap (units charge t (s ∷ ts) (f + min r (c - f))) spent
        ∙ ap (units charge s ts c) (sym spent)
    | inr h ↦
        let end : f + min r (c - f) ≡ c = ground (arith, h, l) in
        ap (λ g. units charge t (s ∷ ts) g (r - min r (c - f))) end
        ∙ units-next t s ts (r - min r (c - f)) c (λ k a b. ap (λ o. covers o k) e ∙ ground arith)
  ]

  units_shared :
      (t s : Tier P) (ts : List (Tier P)) (c r f total : ℕ)
      → t.up_to ≡ some c
      → f ≤ c
      → (total + charge (min r (c - f)) t.unit_price) + units charge s ts c (r - min r (c - f))
        ≡ total + units charge t (s ∷ ts) f r
  units_shared t s ts c r f total e l =
      let b = min r (c - f) in
      let whole : units charge t (s ∷ ts) f (b + (r - b)) ≡ units charge t (s ∷ ts) f r =
        ap (units charge t (s ∷ ts) f) (omega arith) in
      omega (
        arith,
        taken_flat t (s ∷ ts) f c r e,
        units_later t s ts c r f e l,
        whole,
        units-add t (s ∷ ts) b (r - b) f,
      )

  some_left : (n : ℕ) → (suc n == 0) ≡ false
  some_left n = ground arith

  in_band_le : (r f : ℕ) (o : Option ℕ) → in_band r f o ≤ r
  in_band_le r f none = omega arith
  in_band_le r f (some c) = omega arith

  beyond :
      (r taken total : ℕ) (p : P)
      → taken ≤ r
      → (if ltb 0 (r - taken)
          then (total + charge taken p) + charge (r - taken) p
          else total + charge taken p)
        ≡ total + charge r p
  beyond r taken total p l = elim (Bool-cases (ltb 0 (r - taken))) [
    | inl t ↦
        let whole : charge r p ≡ charge (taken + (r - taken)) p =
          ap (λ m. charge m p) (rest r taken l) in
        rw t (omega (arith, whole, charge_add taken (r - taken) p))
    | inr n ↦ rw n (ap (λ m. total + charge m p) (ground (arith, n, l)))
  ]
    where
      rest : (r taken : ℕ) → taken ≤ r → r ≡ taken + (r - taken)
      rest r taken l = omega arith

  price_from : Tier P → List (Tier P) → ℕ → ℕ → ℕ → ℕ
  price_from t ts r total f = past_last charge (t ∷ ts) (bands charge (t ∷ ts) r total f)

  price_from-units :
      (t : Tier P) (ts : List (Tier P)) (r total f : ℕ)
      → Ascends f (t ∷ ts)
      → price_from t ts r total f ≡ total + units charge t ts f r
  unfolding price_from bands past_last
  price_from-units t ts zero total f h = omega (arith, past_last-zero t ts total)
  price_from-units t [] (suc n) total f h =
      let r = suc n in
      let taken = in_band r f t.up_to in
      let flat : units charge t [] f r ≡ charge r t.unit_price =
        units-flat t [] t.unit_price r f (λ k a b. refl) in
      rw (some_left n) (
        beyond (suc n) taken total t.unit_price (in_band_le r f t.up_to)
        ∙ ap (λ x. total + x) (sym flat))
  price_from-units t (s ∷ ts) (suc n) total f h =
      rw (some_left n) (by t.up_to refl h.0 h.1 (price_from-units s ts))
    where
      r : ℕ
      r = suc n

      by :
          (o : Option ℕ)
          → t.up_to ≡ o
          → StartsBy f o
          → Ascends (end_or f o) (s ∷ ts)
          → ((r' total' f' : ℕ)
              → Ascends f' (s ∷ ts)
              → price_from s ts r' total' f' ≡ total' + units charge s ts f' r')
          → price_from s ts
              (r - in_band r f o)
              (total + charge (in_band r f o) t.unit_price)
              (next_floor o)
            ≡ total + units charge t (s ∷ ts) f r
      by none e _ _ ih =
          let nothing : r - r ≡ 0 = omega arith in
          let spent : price_from s ts (r - r) (total + charge r t.unit_price) 0
              ≡ price_from s ts 0 (total + charge r t.unit_price) 0 =
            ap (λ x. price_from s ts x (total + charge r t.unit_price) 0) nothing in
          spent
          ∙ past_last-zero s ts (total + charge r t.unit_price)
          ∙ ap (λ x. total + x) (sym (units_endless t s ts r f e))
      by (some c) e l a ih =
          ih (r - min r (c - f)) (total + charge (min r (c - f)) t.unit_price) c a
          ∙ units_shared t s ts c r f total e l

  -- When each tier ends no earlier than the one before it, the first no earlier than the included
  -- quantity, and what is charged for no unit is nothing and for units together what is charged
  -- for them apart, the price of a quantity is the base price and, for each unit past the included
  -- quantity, the rate of the first tier that reaches that unit, or of the last tier.
  pub price_for-units_of :
      (plan : Plan P) (quantity : ℕ)
      → Ascends plan.included_quantity plan.tiers
      → price_for charge plan quantity
        ≡ plan.base_price
          + units_of charge plan.tiers plan.included_quantity (quantity - plan.included_quantity)
  unfolding price_for price_from
  price_for-units_of plan quantity h = of plan.tiers (quantity - plan.included_quantity) h
    where
      of :
          (tiers : List (Tier P)) (n : ℕ)
          → Ascends plan.included_quantity tiers
          → price_of charge plan.base_price plan.included_quantity tiers n
            ≡ plan.base_price + units_of charge tiers plan.included_quantity n
      of [] n h = omega arith
      of (t ∷ ts) zero h = omega arith
      of (t ∷ ts) (suc n) h =
          ap
            (λ b.
              if b
              then plan.base_price
              else price_from t ts (suc n) plan.base_price plan.included_quantity)
            (some_left n)
          ∙ price_from-units t ts (suc n) plan.base_price plan.included_quantity h
