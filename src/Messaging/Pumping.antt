-- ===== src/Messaging/Pumping.antt =====
-- packages/messaging/src/pumping.ts. A telephone number is the list of its UTF-16 units.
pub mod Caps
use mortar.Prelude.{
  ℕ, ◌+◌, Bool, true, false, not, ◌&&◌, ◌||◌, Option, none, some, List, [], ◌∷◌, any, filter,
  length, take, ltb, leb, ◌==◌, if◌then◌else◌,
}
use mortar.Messaging.Gsm.{equal}

-- `+` and three digits.
abbrev pub range : ℕ → ℕ → ℕ → List ℕ
range a b c = 43 ∷ (48 + a) ∷ (48 + b) ∷ (48 + c) ∷ []

unfoldable pub never_a_client : List (List ℕ)
never_a_client =
    range 8 7 0
    ∷ range 8 7 1
    ∷ range 8 7 2
    ∷ range 8 7 3
    ∷ range 8 7 4
    ∷ range 8 7 5
    ∷ range 8 7 6
    ∷ range 8 7 7
    ∷ range 8 7 8
    ∷ range 8 7 9
    ∷ range 8 8 1
    ∷ range 8 8 2
    ∷ range 8 8 3
    ∷ []

pub record SmsRiskInput : Type 0 where
  pub phone : List ℕ
  pub sent_this_hour : ℕ
  pub countries_today : List (List ℕ)
  pub segments : ℕ
  pub hourly_cap : Option ℕ
  pub country_cap : Option ℕ

pub data SmsRefusal : Type 0 where
  not_international premium_range hourly_cap country_spread : SmsRefusal

pub record SmsRisk : Type 0 where
  pub allowed : Bool
  pub refusal : Option SmsRefusal
  pub country : List ℕ

abbrev pub or_default : Option ℕ → ℕ → ℕ
or_default none n = n
or_default (some m) n = m

-- DEFAULT_HOURLY_CAP and DEFAULT_COUNTRY_CAP.
abbrev pub hourly_cap_of : SmsRiskInput → ℕ
hourly_cap_of input = or_default input.hourly_cap 50

abbrev pub country_cap_of : SmsRiskInput → ℕ
country_cap_of input = or_default input.country_cap 3

abbrev pub between : ℕ → ℕ → ℕ → Bool
between low high u = leb low u && leb u high

-- `\s`
unfoldable pub is_space : ℕ → Bool
is_space u =
    between 9 13 u
    || u == 32
    || u == 160
    || u == 5760
    || between 8192 8202 u
    || between 8232 8233 u
    || u == 8239
    || u == 8287
    || u == 12288
    || u == 65279

abbrev pub is_punctuation : ℕ → Bool
is_punctuation u = is_space u || u == 40 || u == 41 || u == 45

unfoldable pub bare : List ℕ → List ℕ
unfolding is_space
bare phone = filter (λ u. not (is_punctuation u)) phone

abbrev pub starts_with : List ℕ → List ℕ → Bool
starts_with phone [] = true
starts_with [] (p ∷ ps) = false
starts_with (u ∷ us) (p ∷ ps) = u == p && starts_with us ps

-- The digits that a code of two may end in: `2[07]`, `3[0-469]`, `4[013-9]`, `5[1-8]`, `6[0-6]`,
-- `8[1246]` and `9[0-58]`.
unfoldable pub is_two_digit : ℕ → ℕ → Bool
is_two_digit a b =
    (a == 50 && (b == 48 || b == 55))
    || (a == 51 && (between 48 52 b || b == 54 || b == 57))
    || (a == 52 && (b == 48 || b == 49 || between 51 57 b))
    || (a == 53 && between 49 56 b)
    || (a == 54 && between 48 54 b)
    || (a == 56 && (b == 49 || b == 50 || b == 52 || b == 54))
    || (a == 57 && (between 48 53 b || b == 56))

abbrev pub is_one_digit : ℕ → Bool
is_one_digit a = a == 49 || a == 55

-- How much of a number that starts with `+` is its country code.
abbrev pub code_length : List ℕ → ℕ
unfolding is_two_digit
code_length [] = 4
code_length (a ∷ []) = if is_one_digit a then 2 else 4
code_length (a ∷ b ∷ rest) = if is_one_digit a then 2 else (if is_two_digit a b then 3 else 4)

-- The text 'unknown'.
abbrev pub unknown : List ℕ
unknown = 117 ∷ 110 ∷ 107 ∷ 110 ∷ 111 ∷ 119 ∷ 110 ∷ []

abbrev pub code_of : List ℕ → List ℕ
unfolding is_two_digit
code_of [] = unknown
code_of (u ∷ us) = if u == 43 then take (code_length us) (u ∷ us) else unknown

-- `countryCodeOf`
unfoldable pub country_code_of : List ℕ → List ℕ
unfolding is_two_digit
country_code_of phone = code_of (filter (λ u. between 48 57 u || u == 43) phone)

abbrev pub has_country : List (List ℕ) → List ℕ → Bool
has_country countries country = any (equal country) countries

-- The size of a `Set` of what is in a list.
abbrev pub distinct : List (List ℕ) → ℕ
distinct [] = 0
distinct (c ∷ cs) = if has_country cs c then distinct cs else 1 + distinct cs

abbrev pub refused : SmsRefusal → List ℕ → SmsRisk
refused refusal country = record { allowed = false; refusal = some refusal; country = country }

-- `assessSmsRisk`, of a number as it is judged.
abbrev pub assessed : SmsRiskInput → List ℕ → List ℕ → SmsRisk
assessed input phone country =
    if not (starts_with phone (43 ∷ [])) || ltb (length phone) 8
    then refused not_international country
    else (if any (starts_with phone) never_a_client
        then refused premium_range country
        else (if ltb (hourly_cap_of input) (input.sent_this_hour + input.segments)
            then refused SmsRefusal.hourly_cap country
            else (if not (has_country input.countries_today country)
                  && leb (country_cap_of input) (distinct input.countries_today)
                then refused country_spread country
                else record { allowed = true; refusal = none; country = country })))

unfoldable pub assess_sms_risk : SmsRiskInput → SmsRisk
assess_sms_risk input = assessed input (bare input.phone) (country_code_of (bare input.phone))
