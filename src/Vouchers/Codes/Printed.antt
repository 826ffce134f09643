-- ===== src/Vouchers/Codes/Printed.antt =====
-- Codes that packages/vouchers/src/codes.ts leaves as they are.
use mortar.Prelude.{
  ℕ, zero, suc, ◌<◌, ◌≡◌, refl, ap, inl, inr, Bool, true, false, not, ◌||◌, List, [], ◌∷◌, ◌++◌,
  map, filter, all, All, length, ◌==◌, arith, Bool-cases, ==_iff,
}
use mortar.Vouchers.Codes.{
  alphabet, in_alphabet, is_plain, substituted, groups, join, looks_like_code, letter, fresh_code,
  normalise_code,
}

abbrev pub IsPlain : ℕ → Type 0
IsPlain c = is_plain c ≡ true

-- A capital letter, a digit or a dash.
abbrev pub is_printed : ℕ → Bool
is_printed c = is_plain c || c == 45

abbrev pub IsPrinted : ℕ → Type 0
IsPrinted c = is_printed c ≡ true

abbrev dashless : List ℕ → List ℕ
dashless cs = filter (λ c. not (c == 45)) cs

substituted-IsPlain : (c : ℕ) → is_plain c ≡ true → is_plain (substituted c) ≡ true
substituted-IsPlain c h = ground arith

substituted_twice : (c : ℕ) → substituted (substituted c) ≡ substituted c
substituted_twice c = ground arith

-- The characters that are left of what was typed.
bare-IsPlain : (cs : List ℕ) → All IsPlain (map substituted (filter is_plain cs))
bare-IsPlain [] = tt
bare-IsPlain (c ∷ cs) = elim (Bool-cases (is_plain c)) [
  | inl p ↦ rw p (substituted-IsPlain c p, bare-IsPlain cs)
  | inr p ↦ rw p (bare-IsPlain cs)
]

abbrev IsFixed : ℕ → Type 0
IsFixed c = substituted c ≡ c

map-fixed : (cs : List ℕ) → map substituted (map substituted cs) ≡ map substituted cs
map-fixed [] = refl
map-fixed (c ∷ cs) = rw (substituted_twice c, map-fixed cs)

filter-append : (p : ℕ → Bool) (xs ys : List ℕ) → filter p (xs ++ ys) ≡ filter p xs ++ filter p ys
filter-append p [] ys = refl
filter-append p (x ∷ xs) ys = elim (Bool-cases (p x)) [
  | inl e ↦ rw e (ap (λ zs. x ∷ zs) (filter-append p xs ys))
  | inr e ↦ rw e (filter-append p xs ys)
]

join-groups :
    (g : List ℕ) (d : ℕ) (rest : List ℕ)
    → join (g ∷ groups (d ∷ rest)) ≡ g ++ 45 ∷ join (groups (d ∷ rest))
unfolding groups join
join-groups g d [] = refl
join-groups g d (e ∷ []) = refl
join-groups g d (e ∷ f ∷ rest) = refl

groups-three :
    (a b c : ℕ) (rest : List ℕ) → groups (a ∷ b ∷ c ∷ rest) ≡ (a ∷ b ∷ c ∷ []) ∷ groups rest
unfolding groups
groups-three a b c rest = refl

-- The dashes of a code are all that a filter takes out, and the groups all that it keeps.
module _ (p : ℕ → Bool) (no_dash : p 45 ≡ false)
    (plain : (c : ℕ) → is_plain c ≡ true → p c ≡ true) where
  filter-groups : (cs : List ℕ) → All IsPlain cs → filter p (join (groups cs)) ≡ cs
  filter-groups [] _ = unfold groups in unfold join in refl
  filter-groups (a ∷ []) (x, _) = unfold groups in unfold join in rw (plain a x)
  filter-groups (a ∷ b ∷ []) (x, (y, _)) = unfold groups in unfold join in rw (plain a x, plain b y)
  filter-groups (a ∷ b ∷ c ∷ []) (x, (y, (z, _))) =
      unfold groups in unfold join in rw (plain a x, plain b y, plain c z)
  filter-groups (a ∷ b ∷ c ∷ d ∷ rest) (x, (y, (z, w))) =
      rw (groups-three a b c (d ∷ rest), join-groups (a ∷ b ∷ c ∷ []) d rest)
        (rw (plain a x, plain b y, plain c z, no_dash)
          (ap (λ cs. a ∷ b ∷ c ∷ cs) (filter-groups (d ∷ rest) w)))

IsPrinted-groups : (cs : List ℕ) → All IsPlain cs → All IsPrinted (join (groups cs))
IsPrinted-groups [] _ = unfold groups in unfold join in tt
IsPrinted-groups (a ∷ []) (x, _) = unfold groups in unfold join in (rw x refl, tt)
IsPrinted-groups (a ∷ b ∷ []) (x, (y, _)) =
    unfold groups in unfold join in (rw x refl, (rw y refl, tt))
IsPrinted-groups (a ∷ b ∷ c ∷ []) (x, (y, (z, _))) =
    unfold groups in unfold join in (rw x refl, (rw y refl, (rw z refl, tt)))
IsPrinted-groups (a ∷ b ∷ c ∷ d ∷ rest) (x, (y, (z, w))) =
    rw (groups-three a b c (d ∷ rest), join-groups (a ∷ b ∷ c ∷ []) d rest)
      (rw x refl, (rw y refl, (rw z refl, (refl, IsPrinted-groups (d ∷ rest) w))))

plain-not_dash : (c : ℕ) → is_plain c ≡ true → not (c == 45) ≡ true
plain-not_dash c h = ground arith

letter-all :
    (p : ℕ → Bool) (cs : List ℕ) (n : ℕ) → all p cs ≡ true → n < length cs → p (letter cs n) ≡ true
letter-all p [] n h k = absurd (omega arith)
letter-all p (c ∷ cs) zero h k = ground arith
letter-all p (c ∷ cs) (suc n) h k = letter-all p cs n (ground arith) (omega arith)

-- What is drawn, at each of the places.
module _ (draw : ℕ → ℕ) (within : (n : ℕ) → draw n < 32) where
  abbrev drawn : List ℕ → List ℕ
  drawn places = map (λ n. letter alphabet (draw n)) places

  drawn-IsPlain : (places : List ℕ) → All IsPlain (drawn places)
  drawn-IsPlain [] = tt
  drawn-IsPlain (n ∷ ns) = (letter-all is_plain alphabet (draw n) refl (within n), drawn-IsPlain ns)

  drawn-fixed : (places : List ℕ) → map substituted (drawn places) ≡ drawn places
  drawn-fixed [] = refl
  drawn-fixed (n ∷ ns) =
      let same : substituted (letter alphabet (draw n)) ≡ letter alphabet (draw n) =
        (==_iff _ _).0 (letter-all (λ c. substituted c == c) alphabet (draw n) refl (within n)) in
      rw (same, drawn-fixed ns)

  drawn-in_alphabet : (places : List ℕ) → all in_alphabet (drawn places) ≡ true
  drawn-in_alphabet [] = refl
  drawn-in_alphabet (n ∷ ns) =
      rw (letter-all in_alphabet alphabet (draw n) refl (within n), drawn-in_alphabet ns)

abbrev twelve : List ℕ
twelve = 0 ∷ 1 ∷ 2 ∷ 3 ∷ 4 ∷ 5 ∷ 6 ∷ 7 ∷ 8 ∷ 9 ∷ 10 ∷ 11 ∷ []

fresh_code-groups :
    (draw : ℕ → ℕ) → fresh_code draw ≡ join (groups (map (λ n. letter alphabet (draw n)) twelve))
unfolding fresh_code groups
fresh_code-groups draw = refl

-- A text of capital letters, digits and dashes is its own capitals.
module _ (to_upper : List ℕ → List ℕ)
    (upper_printed : (cs : List ℕ) → All IsPrinted cs → to_upper cs ≡ cs) where
  -- A code of characters that stand for themselves is what it is normalised to.
  normalise-groups :
      (cs : List ℕ)
      → All IsPlain cs
      → map substituted cs ≡ cs
      → normalise_code to_upper (join (groups cs)) ≡ join (groups cs)
  unfolding normalise_code
  normalise-groups cs h e =
      rw (upper_printed (join (groups cs)) (IsPrinted-groups cs h))
        (rw (filter-groups is_plain refl (λ c p. p) cs h) (rw e refl))

  pub normalise_code_twice :
      (typed : List ℕ)
      → normalise_code to_upper (normalise_code to_upper typed) ≡ normalise_code to_upper typed
  normalise_code_twice typed =
      let bare = map substituted (filter is_plain (to_upper typed)) in
      let fixed =
        normalise-groups bare (bare-IsPlain (to_upper typed))
          (map-fixed (filter is_plain (to_upper typed))) in
      unfold normalise_code in fixed

  module _ (draw : ℕ → ℕ) (within : (n : ℕ) → draw n < 32) where
    pub fresh_code-fixed : normalise_code to_upper (fresh_code draw) ≡ fresh_code draw
    fresh_code-fixed = rw (fresh_code-groups draw) (
        normalise-groups (drawn draw within twelve) (drawn-IsPlain draw within twelve)
          (drawn-fixed draw within twelve))

pub fresh_code-looks_like :
    (draw : ℕ → ℕ) → ((n : ℕ) → draw n < 32) → looks_like_code (fresh_code draw) ≡ true
unfolding looks_like_code
fresh_code-looks_like draw within = rw (fresh_code-groups draw) (
    rw
      (filter-groups (λ c. not (c == 45)) refl plain-not_dash (drawn draw within twelve)
        (drawn-IsPlain draw within twelve))
      (drawn-in_alphabet draw within twelve))
