-- ===== src/Messaging/Segments.antt =====
-- packages/messaging/src/segments.ts. A text is the list of its code points.
pub mod Bounds
use mortar.Prelude.{
  ℕ, ◌+◌, ◌-◌, ◌*◌, ◌/◌, Bool, true, false, ◌||◌, List, [], ◌∷◌, ◌++◌, any, length, leb, ◌==◌,
  if◌then◌else◌,
}

abbrev first_row : List ℕ
first_row =
    64 ∷ 163 ∷ 36 ∷ 165 ∷ 232 ∷ 233 ∷ 249 ∷ 236 ∷ 242 ∷ 199 ∷ 10 ∷ 216 ∷ 248 ∷ 13 ∷ 197 ∷ 229 ∷ []

abbrev second_row : List ℕ
second_row = 916 ∷ 95 ∷ 934 ∷ 915 ∷ 923 ∷ 937 ∷ 928 ∷ 936 ∷ 931 ∷ 920 ∷ 926 ∷ []

abbrev third_row : List ℕ
third_row =
    198 ∷ 230 ∷ 223 ∷ 201 ∷ 32 ∷ 33 ∷ 34 ∷ 35 ∷ 164 ∷ 37 ∷ 38 ∷ 39 ∷ 40 ∷ 41 ∷ 42 ∷ 43 ∷ 44 ∷ 45
    ∷ 46 ∷ 47 ∷ 48 ∷ 49 ∷ 50 ∷ 51 ∷ 52 ∷ 53 ∷ 54 ∷ 55 ∷ 56 ∷ 57 ∷ 58 ∷ 59 ∷ 60 ∷ 61 ∷ 62 ∷ 63 ∷ []

abbrev fourth_row : List ℕ
fourth_row =
    161 ∷ 65 ∷ 66 ∷ 67 ∷ 68 ∷ 69 ∷ 70 ∷ 71 ∷ 72 ∷ 73 ∷ 74 ∷ 75 ∷ 76 ∷ 77 ∷ 78 ∷ 79 ∷ 80 ∷ 81 ∷ 82
    ∷ 83 ∷ 84 ∷ 85 ∷ 86 ∷ 87 ∷ 88 ∷ 89 ∷ 90 ∷ 196 ∷ 214 ∷ 209 ∷ 220 ∷ 167 ∷ []

abbrev fifth_row : List ℕ
fifth_row =
    191 ∷ 97 ∷ 98 ∷ 99 ∷ 100 ∷ 101 ∷ 102 ∷ 103 ∷ 104 ∷ 105 ∷ 106 ∷ 107 ∷ 108 ∷ 109 ∷ 110 ∷ 111 ∷ 112
    ∷ 113 ∷ 114 ∷ 115 ∷ 116 ∷ 117 ∷ 118 ∷ 119 ∷ 120 ∷ 121 ∷ 122 ∷ 228 ∷ 246 ∷ 241 ∷ 252 ∷ 224 ∷ []

-- `GSM`, row by row as the source joins it.
unfoldable pub gsm_alphabet : List ℕ
gsm_alphabet = first_row ++ second_row ++ third_row ++ fourth_row ++ fifth_row

unfoldable pub gsm_extended : List ℕ
gsm_extended = 94 ∷ 123 ∷ 125 ∷ 92 ∷ 91 ∷ 126 ∷ 93 ∷ 124 ∷ 8364 ∷ []

abbrev pub has : List ℕ → ℕ → Bool
has set character = any (λ c. c == character) set

unfoldable pub is_gsm_character : ℕ → Bool
is_gsm_character c = has gsm_alphabet c || has gsm_extended c

pub data Encoding : Type 0 where
  gsm unicode : Encoding

pub record SegmentCount : Type 0 where
  pub characters : ℕ
  pub segments : ℕ
  pub encoding : Encoding
  pub remaining : ℕ
  pub offenders : List ℕ

-- `Set.prototype.add`, which keeps the order in which elements came.
abbrev pub add : ℕ → List ℕ → List ℕ
add c set = if has set c then set else set ++ (c ∷ [])

-- The loop: the offenders and the places so far.
unfoldable pub tally : List ℕ → List ℕ → ℕ → List ℕ × ℕ
tally [] offenders units = (offenders, units)
tally (c ∷ cs) offenders units =
    let plain = tally cs offenders (units + 1) in
    let escaped = tally cs offenders (units + 2) in
    let offending = tally cs (add c offenders) (units + 1) in
    if has gsm_alphabet c then plain else (if has gsm_extended c then escaped else offending)

abbrev pub is_nil : List ℕ → Bool
is_nil [] = true
is_nil (c ∷ cs) = false

abbrev pub encoding_of : List ℕ → Encoding
encoding_of [] = gsm
encoding_of (c ∷ cs) = unicode

abbrev pub single : Encoding → ℕ
single gsm = 160
single unicode = 70

abbrev pub concatenated : Encoding → ℕ
concatenated gsm = 153
concatenated unicode = 67

-- `Math.ceil` of a quotient.
abbrev pub ceil_div : ℕ → ℕ → ℕ
ceil_div a b = (a + b - 1) / b

abbrev pub segments_of : Encoding → ℕ → ℕ
segments_of e n = if leb n (single e) then 1 else ceil_div n (concatenated e)

abbrev pub capacity : Encoding → ℕ → ℕ
capacity e segments = if segments == 1 then single e else segments * concatenated e

abbrev pub places : Encoding → ℕ → ℕ → ℕ
places gsm characters units = units
places unicode characters units = characters

abbrev pub count_with : List ℕ → List ℕ × ℕ → SegmentCount
count_with [] (offenders, units) = record {
  characters = 0;
  segments = 0;
  encoding = encoding_of offenders;
  remaining = single (encoding_of offenders);
  offenders = [];
}
count_with (c ∷ cs) (offenders, units) =
    let e = encoding_of offenders in
    let n = places e (length (c ∷ cs)) units in
    record {
      characters = length (c ∷ cs);
      segments = segments_of e n;
      encoding = e;
      remaining = capacity e (segments_of e n) - n;
      offenders = offenders;
    }

-- `countSegments`
unfoldable pub count_segments : List ℕ → SegmentCount
unfolding tally
count_segments text = count_with text (tally text [] 0)
