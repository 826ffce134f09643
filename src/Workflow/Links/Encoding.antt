-- ===== src/Workflow/Links/Encoding.antt =====
-- packages/workflow/src/links/encoding.ts. A text is the list of its UTF-16 units. `btoa` and `atob`
-- are those of the platform, as its standard says.
pub mod Symbols
pub mod RoundTrip
pub mod Equal
use mortar.Prelude.{
  ℕ, zero, suc, ◌+◌, ◌-◌, ◌*◌, ◌/◌, ◌%◌, Bool, true, false, not, ◌&&◌, ◌||◌, Option, none, some,
  List, [], ◌∷◌, ◌++◌, map, filter, length, ltb, leb, ◌==◌, if◌then◌else◌,
}

-- The alphabet of base64: A to Z, a to z, 0 to 9, `+` and `/`.
unfoldable pub symbol : ℕ → ℕ
symbol n =
    if ltb n 26
    then 65 + n
    else (if ltb n 52
        then 97 + (n - 26)
        else (if ltb n 62 then 48 + (n - 52) else (if n == 62 then 43 else 47)))

unfoldable pub value_of : ℕ → Option ℕ
value_of c =
    if leb 65 c && leb c 90
    then some (c - 65)
    else (if leb 97 c && leb c 122
        then some (c - 97 + 26)
        else (if leb 48 c && leb c 57
            then some (c - 48 + 52)
            else (if c == 43 then some 62 else (if c == 47 then some 63 else none))))

-- `btoa`, with its padding of `=`.
unfoldable pub btoa : List ℕ → List ℕ
btoa [] = []
btoa (a ∷ []) = symbol (a / 4) ∷ symbol ((a % 4) * 16) ∷ 61 ∷ 61 ∷ []
btoa (a ∷ b ∷ []) =
    symbol (a / 4) ∷ symbol ((a % 4) * 16 + b / 16) ∷ symbol ((b % 16) * 4) ∷ 61 ∷ []
btoa (a ∷ b ∷ c ∷ rest) =
    symbol (a / 4)
    ∷ symbol ((a % 4) * 16 + b / 16)
    ∷ symbol ((b % 16) * 4 + c / 64)
    ∷ symbol (c % 64)
    ∷ btoa rest

-- `.replace(/\+/g, '-').replace(/\//g, '_')`, and back.
unfoldable pub url_symbol : ℕ → ℕ
url_symbol c = if c == 43 then 45 else (if c == 47 then 95 else c)

unfoldable pub plain_symbol : ℕ → ℕ
plain_symbol c = if c == 45 then 43 else (if c == 95 then 47 else c)

abbrev pub is_nil : List ℕ → Bool
is_nil [] = true
is_nil (c ∷ cs) = false

-- `.replace(/=+$/, '')`
unfoldable pub strip_padding : List ℕ → List ℕ
strip_padding [] = []
strip_padding (c ∷ cs) =
    let rest = strip_padding cs in if c == 61 && is_nil rest then [] else c ∷ rest

unfoldable pub to_base64_url : List ℕ → List ℕ
to_base64_url bytes = strip_padding (map url_symbol (btoa bytes))

abbrev pub is_space : ℕ → Bool
is_space c = c == 9 || c == 10 || c == 12 || c == 13 || c == 32

-- At most two `=` at the end.
unfoldable pub strip_two : List ℕ → List ℕ
strip_two [] = []
strip_two (c ∷ []) = if c == 61 then [] else c ∷ []
strip_two (c ∷ d ∷ []) = if d == 61 then (if c == 61 then [] else c ∷ []) else c ∷ d ∷ []
strip_two (c ∷ d ∷ e ∷ rest) = c ∷ strip_two (d ∷ e ∷ rest)

abbrev pub join_one : Option ℕ → Option ℕ → Option (List ℕ)
join_one (some a) (some b) = some ((a * 4 + b / 16) ∷ [])
join_one none b = none
join_one (some a) none = none

abbrev pub join_two : Option ℕ → Option ℕ → Option ℕ → Option (List ℕ)
join_two (some a) (some b) (some c) = some ((a * 4 + b / 16) ∷ ((b % 16) * 16 + c / 4) ∷ [])
join_two none b c = none
join_two (some a) none c = none
join_two (some a) (some b) none = none

abbrev pub join_three :
    Option ℕ → Option ℕ → Option ℕ → Option ℕ → Option (List ℕ) → Option (List ℕ)
join_three (some a) (some b) (some c) (some d) (some rest) =
    some ((a * 4 + b / 16) ∷ ((b % 16) * 16 + c / 4) ∷ ((c % 4) * 64 + d) ∷ rest)
join_three none b c d rest = none
join_three (some a) none c d rest = none
join_three (some a) (some b) none d rest = none
join_three (some a) (some b) (some c) none rest = none
join_three (some a) (some b) (some c) (some d) none = none

unfoldable pub decode_symbols : List ℕ → Option (List ℕ)
decode_symbols [] = some []
decode_symbols (a ∷ []) = none
decode_symbols (a ∷ b ∷ []) = join_one (value_of a) (value_of b)
decode_symbols (a ∷ b ∷ c ∷ []) = join_two (value_of a) (value_of b) (value_of c)
decode_symbols (a ∷ b ∷ c ∷ d ∷ rest) =
    join_three (value_of a) (value_of b) (value_of c) (value_of d) (decode_symbols rest)

unfoldable pub unpadded : List ℕ → List ℕ
unpadded text = if length text % 4 == 0 then strip_two text else text

-- `atob`: none where it throws.
unfoldable pub atob : List ℕ → Option (List ℕ)
atob text = decode_symbols (unpadded (filter (λ c. not (is_space c)) text))

-- `padEnd`, by so many `=`.
unfoldable pub padding : ℕ → List ℕ
padding zero = []
padding (suc n) = 61 ∷ padding n

unfoldable pub from_base64_url : List ℕ → Option (List ℕ)
from_base64_url value = atob (map plain_symbol value ++ padding ((4 - length value % 4) % 4))

-- The units of a text, 0 past its end: what a `NaN` comes to under `^`.
abbrev pub tail : List ℕ → List ℕ
tail [] = []
tail (c ∷ cs) = cs

abbrev pub unit_at_start : List ℕ → ℕ
unit_at_start [] = 0
unit_at_start (c ∷ cs) = c

-- The loop of `timingSafeEqual`, with whether a difference was seen: `a ^ b` is 0 when they agree.
unfoldable pub differs : ℕ → List ℕ → List ℕ → Bool → Bool
differs zero a b seen = seen
differs (suc n) a b seen =
    differs n (tail a) (tail b) (seen || not (unit_at_start a == unit_at_start b))

abbrev pub longer : ℕ → ℕ → ℕ
longer a b = if leb a b then b else a

unfoldable pub timing_safe_equal : List ℕ → List ℕ → Bool
unfolding differs
timing_safe_equal a b =
    not (differs (longer (length a) (length b)) a b (not (length a == length b)))
