-- ===== src/Money/Allocate/Fair.antt =====
-- What packages/money/src/allocate.ts answers: shares that add up, by the largest remainder.
use mortar.Prelude.{
  ℕ, zero, suc, ◌+◌, ◌*◌, ◌/◌, ◌%◌, ◌^◌, ◌≤◌, ◌<◌, ◌≡◌, ◌⊎◌, refl, ap, ◌∙◌, sym, inl, inr, true,
  false, List, [], ◌∷◌, map, any, all, arith, some, some-injective, Bool-cases, leb, ◌==◌,
  if◌then◌else◌,
}
use mortar.Prelude.Int.{ℤ, pos, negsuc, ◌+ℤ◌}
use mortar.Prelude.Number.{max_safe}
use mortar.Money.Allocate.{
  Floats, Ratio, slot, parts_of, allocate, shares, magnitude, signed, is_bad, weight,
}
use mortar.Money.Allocate.Shares.{total, total-parts_of}
use mortar.Money.Allocate.Lucky.{slot-map, share_at, lucky, lucky-le}
use mortar.Money.Allocate.Turns.{among}

abbrev pub sum_ℤ : List ℤ → ℤ
sum_ℤ [] = pos 0
sum_ℤ (a ∷ as') = a +ℤ sum_ℤ as'

signed-add : (a : ℤ) (x y : ℕ) → signed a (x + y) ≡ signed a x +ℤ signed a y
unfolding ◌+ℤ◌
signed-add (pos n) x y = ground arith
signed-add (negsuc n) zero zero = ground arith
signed-add (negsuc n) zero (suc y) = ground arith
signed-add (negsuc n) (suc x) zero = ground arith
signed-add (negsuc n) (suc x) (suc y) = ground arith

sum-signed : (a : ℤ) (xs : List ℕ) → sum_ℤ (map (signed a) xs) ≡ signed a (total xs)
sum-signed (pos n) [] = refl
sum-signed (negsuc n) [] = refl
sum-signed a (x ∷ xs) =
    ap (λ s. signed a x +ℤ s) (sum-signed a xs) ∙ sym (signed-add a x (total xs))

signed-magnitude : (a : ℤ) → signed a (magnitude a) ≡ a
signed-magnitude (pos n) = refl
signed-magnitude (negsuc n) = refl

magnitude-signed : (a : ℤ) (x : ℕ) → magnitude (signed a x) ≡ x
magnitude-signed (pos n) x = refl
magnitude-signed (negsuc n) zero = refl
magnitude-signed (negsuc n) (suc x) = refl

all-safe : (xs : List ℕ) (n : ℕ) → total xs ≤ n → all (λ v. leb v n) xs ≡ true
all-safe [] n h = refl
all-safe (x ∷ xs) n h = ground (arith, all-safe xs n (omega arith))

answer-of :
    (floats : Floats) (amount : ℤ) (ratios : List Ratio)
    → any is_bad ratios ≡ false
    → 0 < total (map weight ratios)
    → all (λ v. leb v max_safe) (parts_of floats (magnitude amount) (map weight ratios)) ≡ true
    → allocate floats amount ratios
      ≡ shares (map (signed amount) (parts_of floats (magnitude amount) (map weight ratios)))
unfolding allocate
answer-of floats amount [] fine pos_weight safe = absurd (omega arith)
answer-of floats amount (r ∷ rs) fine pos_weight safe =
    let weighs : (total (map weight (r ∷ rs)) == 0) ≡ false = ground arith in
    rw fine (rw weighs (rw safe refl))

shares-injective : (a b : List ℤ) → shares a ≡ shares b → a ≡ b
shares-injective a b h = cc

module _ (floats : Floats) (amount : ℤ) (ratios : List Ratio) (fine : any is_bad ratios ≡ false)
    (some_weight : 0 < total (map weight ratios)) (safe : magnitude amount ≤ max_safe)
    (exactly : magnitude amount * total (map weight ratios) < 2 ^ 52) where
  abbrev weights : List ℕ
  weights = map weight ratios

  abbrev parts : List ℕ
  parts = parts_of floats (magnitude amount) weights

  parts-total : total parts ≡ magnitude amount
  parts-total = total-parts_of floats (magnitude amount) weights some_weight exactly

  answer : allocate floats amount ratios ≡ shares (map (signed amount) parts)
  answer =
      answer-of floats amount ratios fine some_weight
        (all-safe parts max_safe (omega (arith, parts-total)))

  -- When the ratios are whole and not negative, and some ratio is above 0, and the amount is a
  -- safe number whose size times the total of the ratios is below 2^52, an allocation is answered
  -- and its shares add up to the amount.
  pub allocate-sum :
      (out : List ℤ) × (allocate floats amount ratios ≡ shares out) × (sum_ℤ out ≡ amount)
  allocate-sum = (
    map (signed amount) parts,
    answer,
    sum-signed amount parts ∙ rw parts-total (signed-magnitude amount),
  )

  -- The share of a weight, rounded down.
  abbrev pub rounded_down : ℕ → ℕ
  rounded_down w = magnitude amount * w / total weights

  abbrev chosen : List ℕ
  chosen = lucky floats (magnitude amount) weights some_weight exactly

  share_of :
      (j w : ℕ) (out : List ℤ) (a : ℤ)
      → allocate floats amount ratios ≡ shares out
      → slot weights j ≡ some w
      → slot out j ≡ some a
      → magnitude a ≡ (if among j chosen then suc (rounded_down w) else rounded_down w)
  share_of j w out a e at_w at_a =
      let given : map (signed amount) parts ≡ out = shares-injective _ _ (sym answer ∙ e) in
      let part : ℕ = if among j chosen then suc (rounded_down w) else rounded_down w in
      let at_part =
        slot-map (signed amount) parts j part
          (share_at floats (magnitude amount) weights some_weight exactly j w at_w) in
      let same : signed amount part ≡ a =
        some-injective (signed amount part) a (sym at_part ∙ ap (λ l. slot l j) given ∙ at_a) in
      ap magnitude (sym same) ∙ magnitude-signed amount part

  module _ (i v : ℕ) (out : List ℤ) (a : ℤ) (answered : allocate floats amount ratios ≡ shares out)
      (at_i : slot weights i ≡ some v) (out_i : slot out i ≡ some a) where
    share-cases :
        ((among i chosen ≡ true) × (magnitude a ≡ suc (rounded_down v)))
        ⊎ ((among i chosen ≡ false) × (magnitude a ≡ rounded_down v))
    share-cases =
        let given = share_of i v out a answered at_i out_i in
        elim (Bool-cases (among i chosen)) [
          | inl p ↦ inl (p, given ∙ rw p)
          | inr p ↦ inr (p, given ∙ rw p)
        ]

    pub allocate-near : (magnitude a ≡ rounded_down v) ⊎ (magnitude a ≡ suc (rounded_down v))
    allocate-near = elim share-cases [ inl (p, e) ↦ inr e | inr (p, e) ↦ inl e ]

    -- Under the same conditions, when one share is a unit larger in size than its weight comes to
    -- rounded down, and another is not, division leaves no less of the first than of the second:
    -- the units that are left go to the largest remainders.
    pub allocate-fair :
        (j w : ℕ) (b : ℤ)
        → slot weights j ≡ some w
        → slot out j ≡ some b
        → magnitude a ≡ suc (rounded_down v)
        → magnitude b ≡ rounded_down w
        → magnitude amount * w % total weights ≤ magnitude amount * v % total weights
    allocate-fair j w b at_j out_j more less = elim share-cases [
      | inr (p, e) ↦ absurd (omega arith)
      | inl (p, e) ↦ elim (Bool-cases (among j chosen)) [
        | inl q ↦
            let big : magnitude b ≡ suc (rounded_down w) =
              share_of j w out b answered at_j out_j ∙ rw q in
            absurd (omega arith)
        | inr q ↦
            lucky-le floats (magnitude amount) weights some_weight exactly i j v w at_i at_j p q
      ]
    ]
