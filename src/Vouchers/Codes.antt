-- ===== src/Vouchers/Codes.antt =====
-- packages/vouchers/src/codes.ts, and what nestjs/vouchers.service.ts does with a code: freshCode, the
-- allocation of a code in issue, and byCode. A text is the list of its UTF-16 units. `toUpperCase`
-- and `randomInt` are parameters, and so is what a row holds besides its code.

pub mod Printed
pub mod Found
mod Tests
use mortar.Prelude.{
  ℕ, zero, suc, ◌+◌, ◌<◌, ◌≡◌, Bool, true, false, not, ◌&&◌, ◌||◌, Option, none, some, List, [],
  ◌∷◌, ◌++◌, map, filter, any, all, All, length, ltb, leb, ◌==◌, if◌then◌else◌,
}

-- 0 to 9, then the letters but for I, L, O and U.
abbrev pub alphabet : List ℕ
alphabet =
    48 ∷ 49 ∷ 50 ∷ 51 ∷ 52 ∷ 53 ∷ 54 ∷ 55 ∷ 56 ∷ 57 ∷ 65 ∷ 66 ∷ 67 ∷ 68 ∷ 69 ∷ 70 ∷ 71 ∷ 72 ∷ 74
    ∷ 75 ∷ 77 ∷ 78 ∷ 80 ∷ 81 ∷ 82 ∷ 83 ∷ 84 ∷ 86 ∷ 87 ∷ 88 ∷ 89 ∷ 90 ∷ []

abbrev pub in_alphabet : ℕ → Bool
in_alphabet c = any (λ a. a == c) alphabet

-- `[0-9A-Z]`
abbrev pub is_plain : ℕ → Bool
is_plain c = (leb 48 c && leb c 57) || (leb 65 c && leb c 90)

-- `.replace(/[IL]/g, '1').replace(/O/g, '0')`
abbrev pub substituted : ℕ → ℕ
substituted c = if c == 73 || c == 76 then 49 else (if c == 79 then 48 else c)

-- Groups of three, the last of what is left.
unfoldable pub groups : List ℕ → List (List ℕ)
groups [] = []
groups (a ∷ []) = (a ∷ []) ∷ []
groups (a ∷ b ∷ []) = (a ∷ b ∷ []) ∷ []
groups (a ∷ b ∷ c ∷ rest) = (a ∷ b ∷ c ∷ []) ∷ groups rest

-- `.join('-')`
unfoldable pub join : List (List ℕ) → List ℕ
join [] = []
join (g ∷ []) = g
join (g ∷ h ∷ gs) = g ++ 45 ∷ join (h ∷ gs)

unfoldable pub looks_like_code : List ℕ → Bool
looks_like_code code =
    let bare = filter (λ c. not (c == 45)) code in length bare == 12 && all in_alphabet bare

abbrev pub same_text : List ℕ → List ℕ → Bool
same_text [] [] = true
same_text [] (y ∷ ys) = false
same_text (x ∷ xs) [] = false
same_text (x ∷ xs) (y ∷ ys) = (x == y) && same_text xs ys

-- `alphabet[n]`; past its end a text is given `undefined`, which no draw is.
abbrev pub letter : List ℕ → ℕ → ℕ
letter [] n = 0
letter (c ∷ cs) zero = c
letter (c ∷ cs) (suc n) = letter cs n

-- A group that starts at a place, from what was drawn for each place.
abbrev pub drawn_group : (ℕ → ℕ) → ℕ → List ℕ
drawn_group draw place =
    letter alphabet (draw place)
    ∷ letter alphabet (draw (place + 1))
    ∷ letter alphabet (draw (place + 2))
    ∷ []

unfoldable pub fresh_code : (ℕ → ℕ) → List ℕ
unfolding join
fresh_code draw =
    join (drawn_group draw 0 ∷ drawn_group draw 3 ∷ drawn_group draw 6 ∷ drawn_group draw 9 ∷ [])

pub data Issued (V : Type 0) : Type 0 where
  issued : List (List ℕ × V) → List ℕ → Issued V
  not_a_code : Issued V
  in_use : Issued V
  could_not_allocate : Issued V

-- An empty text is falsy, and counts as no code.
abbrev pub given : Option (List ℕ) → Option (List ℕ)
given none = none
given (some []) = none
given (some (c ∷ cs)) = some (c ∷ cs)

module _ (to_upper : List ℕ → List ℕ) where
  unfoldable pub normalise_code : List ℕ → List ℕ
  unfolding groups join
  normalise_code typed = join (groups (map substituted (filter is_plain (to_upper typed))))

  module _ {V : Type 0} where
    -- `findOne({ where: { code } })`
    unfoldable pub with_code : List (List ℕ × V) → List ℕ → Option V
    with_code [] code = none
    with_code ((c, v) ∷ rows) code =
        let rest = with_code rows code in if same_text c code then some v else rest

    abbrev pub is_taken : Option V → Bool
    is_taken none = false
    is_taken (some v) = true

    -- The loop of `issue`, for so many attempts; `draws` gives what each attempt draws.
    unfoldable pub issue_in :
        ℕ → ℕ → Option (List ℕ) → (ℕ → ℕ → ℕ) → V → List (List ℕ × V) → Issued V
    issue_in zero attempt supplied draws v rows = could_not_allocate
    issue_in (suc left) attempt none draws v rows =
        let code = fresh_code (draws attempt) in
        let again = issue_in left (suc attempt) none draws v rows in
        if not (looks_like_code code)
        then not_a_code
        else (if is_taken (with_code rows code)
            then again
            else issued (rows ++ (code, v) ∷ []) code)
    issue_in (suc left) attempt (some typed) draws v rows =
        let code = normalise_code typed in
        if not (looks_like_code code)
        then not_a_code
        else (if is_taken (with_code rows code)
            then in_use
            else issued (rows ++ (code, v) ∷ []) code)

    unfoldable pub issue : Option (List ℕ) → (ℕ → ℕ → ℕ) → V → List (List ℕ × V) → Issued V
    issue supplied draws v rows = issue_in 5 0 (given supplied) draws v rows

    -- `none`: not found.
    unfoldable pub by_code : List (List ℕ × V) → List ℕ → Option V
    by_code rows typed =
        let code = normalise_code typed in
        if not (looks_like_code code) then none else with_code rows code
