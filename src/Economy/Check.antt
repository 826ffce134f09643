-- ===== src/Economy/Check.antt =====
-- packages/game-economy/src/nestjs/check-request.ts: what a request may be refused for before
-- anything is locked. A text is its list of UTF-16 code units.
use mortar.Prelude.{
  ℕ, zero, suc, Bool, true, false, ◌&&◌, ◌||◌, Option, none, some, List, [], ◌∷◌, ◌++◌, length, all,
  ltb, leb, ◌==◌, if◌then◌else◌,
}
use mortar.Prelude.Number.{Number, safe_positive}

abbrev pub Text : Type 0
Text = List ℕ

-- White space and line ends, which `trim` drops.
abbrev is_space : ℕ → Bool
is_space c =
    leb 9 c && leb c 13
    || c == 32
    || c == 160
    || c == 0x1680
    || leb 0x2000 c && leb c 0x200a
    || c == 0x2028
    || c == 0x2029
    || c == 0x202f
    || c == 0x205f
    || c == 0x3000
    || c == 0xfeff

pub data Field : Type 0 where
  holder_id currency amount reason reference idempotency_key : Field

-- `text`: what it adds to the errors.
unfoldable pub text_errors : Field → Text → ℕ → List Field
text_errors field value most =
    if all is_space value || ltb most (length value) then field ∷ [] else []

abbrev pub optional_errors {ℓ} : {A : Type ℓ} → (A → List Field) → Option A → List Field
optional_errors check none = []
optional_errors check (some a) = check a

unfoldable pub amount_errors : Number → List Field
amount_errors n = elim (safe_positive n) [ none ↦ amount ∷ [] | some _ ↦ [] ]

-- The texts of a request; `currency` and `amount` are absent in a refund.
pub record Asked : Type 0 where
  pub holder_id : Text
  pub currency : Option Text
  pub amount : Option Number
  pub reason : Text
  pub reference : Option Text
  pub idempotency_key : Text

unfoldable pub check_request : Asked → List Field
unfolding text_errors amount_errors
check_request r =
    text_errors holder_id r.holder_id 128
    ++ optional_errors (λ t. text_errors currency t 32) r.currency
    ++ optional_errors amount_errors r.amount
    ++ text_errors reason r.reason 128
    ++ optional_errors (λ t. text_errors reference t 256) r.reference
    ++ text_errors idempotency_key r.idempotency_key 256

-- `UUID`: eight, four, four, four and twelve hexadecimal digits with dashes between.
abbrev is_hex : ℕ → Bool
is_hex c = leb b'0' c && leb c b'9' || leb b'a' c && leb c b'f' || leb b'A' c && leb c b'F'

pub data Symbol : Type 0 where
  hex dash : Symbol

abbrev digits : ℕ → List Symbol → List Symbol
digits zero rest = rest
digits (suc n) rest = hex ∷ digits n rest

abbrev uuid_shape : List Symbol
uuid_shape = digits 8 (dash ∷ digits 4 (dash ∷ digits 4 (dash ∷ digits 4 (dash ∷ digits 12 []))))

fits : List Symbol → Text → Bool
fits [] [] = true
fits [] (c ∷ cs) = false
fits (s ∷ ss) [] = false
fits (hex ∷ ss) (c ∷ cs) = is_hex c && fits ss cs
fits (dash ∷ ss) (c ∷ cs) = c == b'-' && fits ss cs

unfoldable pub is_uuid : Text → Bool
unfolding fits
is_uuid = fits uuid_shape
