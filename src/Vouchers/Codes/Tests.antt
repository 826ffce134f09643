-- ===== src/Vouchers/Codes/Tests.antt =====
-- Codes to try the theorems of packages/vouchers/src/codes.ts on.
use mortar.Prelude.{
  ℕ, ◌+◌, ◌-◌, ◌%◌, ◌<◌, ◌≡◌, refl, ◌&&◌, none, some, List, [], ◌∷◌, ◌++◌, map, All, leb, arith,
  if◌then◌else◌,
}
use mortar.Vouchers.Codes.{
  normalise_code, looks_like_code, fresh_code, issued, with_code, issue_in, issue, by_code,
}
use mortar.Vouchers.Codes.Printed.{IsPrinted}
use mortar.Vouchers.Codes.Found.{by_code-issue}

-- `toUpperCase` of ASCII.
abbrev capital : ℕ → ℕ
capital c = if leb 97 c && leb c 122 then c - 32 else c

abbrev capitals : List ℕ → List ℕ
capitals cs = map capital cs

capitals-printed : (cs : List ℕ) → All IsPrinted cs → capitals cs ≡ cs
capitals-printed [] _ = refl
capitals-printed (c ∷ cs) (h, hs) =
    let same : capital c ≡ c = ground arith in rw (same, capitals-printed cs hs)

-- `o1l 2b`, and what it is read as.
abbrev typed : List ℕ
typed = 111 ∷ 49 ∷ 108 ∷ 32 ∷ 50 ∷ 98 ∷ []

read_as : normalise_code capitals typed ≡ 48 ∷ 49 ∷ 49 ∷ 45 ∷ 50 ∷ 66 ∷ []
unfolding normalise_code
read_as = refl

abbrev draws : ℕ → ℕ → ℕ
draws a n = (a + n) % 32

within : (a n : ℕ) → draws a n < 32
within a n = omega arith

-- 012-345-678-9AB
abbrev first_code : List ℕ
first_code = 48 ∷ 49 ∷ 50 ∷ 45 ∷ 51 ∷ 52 ∷ 53 ∷ 45 ∷ 54 ∷ 55 ∷ 56 ∷ 45 ∷ 57 ∷ 65 ∷ 66 ∷ []

-- 123-456-789-ABC
abbrev second_code : List ℕ
second_code = 49 ∷ 50 ∷ 51 ∷ 45 ∷ 52 ∷ 53 ∷ 54 ∷ 45 ∷ 55 ∷ 56 ∷ 57 ∷ 45 ∷ 65 ∷ 66 ∷ 67 ∷ []

abbrev one_row : List (List ℕ × ℕ)
one_row = (first_code, 500) ∷ []

-- The first code drawn is in use.
second_issued :
    issue capitals none draws 900 one_row ≡ issued (one_row ++ (second_code, 900) ∷ []) second_code
unfolding issue issue_in with_code fresh_code looks_like_code
second_issued = refl

first_found : by_code capitals one_row first_code ≡ some 500
unfolding by_code normalise_code looks_like_code with_code
first_found = refl

read_again : normalise_code capitals (32 ∷ second_code) ≡ second_code
unfolding normalise_code
read_again = refl

by_code-issue_example :
    (by_code capitals (one_row ++ (second_code, 900) ∷ []) (32 ∷ second_code) ≡ some 900)
    × (by_code capitals (one_row ++ (second_code, 900) ∷ []) second_code ≡ some 900)
by_code-issue_example =
    by_code-issue capitals capitals-printed draws within 900 one_row none
      (one_row ++ (second_code, 900) ∷ []) second_code (32 ∷ second_code) second_issued read_again
