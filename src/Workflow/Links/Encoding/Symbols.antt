-- ===== src/Workflow/Links/Encoding/Symbols.antt =====
-- The symbols of base64url, and how those of some bytes are read.
use mortar.Prelude.{
  ℕ, ◌+◌, ◌*◌, ◌/◌, ◌%◌, ◌<◌, ◌≡◌, refl, ap, false, some, List, [], ◌∷◌, ◌==◌, arith, All,
}
use mortar.Workflow.Links.Encoding.{
  symbol, value_of, url_symbol, plain_symbol, is_space, decode_symbols,
}

abbrev pub IsByte : ℕ → Type 0
IsByte b = b < 256

abbrev pub IsSymbol : ℕ → Type 0
IsSymbol c = (n : ℕ) × (n < 64) × (c ≡ symbol n)

pub value_of-symbol : (n : ℕ) → n < 64 → value_of (symbol n) ≡ some n
unfolding value_of symbol
value_of-symbol n h = ground arith

pub plain_url : (n : ℕ) → n < 64 → plain_symbol (url_symbol (symbol n)) ≡ symbol n
unfolding plain_symbol url_symbol symbol
plain_url n h = ground arith

pub url_ne : (n : ℕ) → n < 64 → (url_symbol (symbol n) == 61) ≡ false
unfolding url_symbol symbol
url_ne n h = ground arith

pub symbol_ne : (n : ℕ) → n < 64 → (symbol n == 61) ≡ false
unfolding symbol
symbol_ne n h = ground arith

pub symbol-is_space : (n : ℕ) → n < 64 → is_space (symbol n) ≡ false
unfolding symbol
symbol-is_space n h = ground arith

-- The symbols of some bytes, without padding.
unfoldable pub core : List ℕ → List ℕ
core [] = []
core (a ∷ []) = symbol (a / 4) ∷ symbol ((a % 4) * 16) ∷ []
core (a ∷ b ∷ []) = symbol (a / 4) ∷ symbol ((a % 4) * 16 + b / 16) ∷ symbol ((b % 16) * 4) ∷ []
core (a ∷ b ∷ c ∷ rest) =
    symbol (a / 4)
    ∷ symbol ((a % 4) * 16 + b / 16)
    ∷ symbol ((b % 16) * 4 + c / 64)
    ∷ symbol (c % 64)
    ∷ core rest

pub core-IsSymbol : (bytes : List ℕ) → All IsByte bytes → All IsSymbol (core bytes)
unfolding core
core-IsSymbol [] _ = tt
core-IsSymbol (a ∷ []) (h, _) = ((_, omega arith, refl), ((_, omega arith, refl), tt))
core-IsSymbol (a ∷ b ∷ []) (h, (k, _)) =
    ((_, omega arith, refl), ((_, omega arith, refl), ((_, omega arith, refl), tt)))
core-IsSymbol (a ∷ b ∷ c ∷ rest) (h, (k, (l, hs))) = (
  (_, omega arith, refl),
  (
    (_, omega arith, refl),
    ((_, omega arith, refl), ((_, omega arith, refl), core-IsSymbol rest hs)),
  ),
)

pub first_byte : (a b : ℕ) → b < 256 → (a / 4) * 4 + ((a % 4) * 16 + b / 16) / 16 ≡ a
first_byte a b h = omega arith

pub middle_byte : (a b : ℕ) → b < 256 → (((a % 4) * 16 + b / 16) % 16) * 16 + ((b % 16) * 4) / 4 ≡ b
middle_byte a b h = omega arith

pub second_byte :
    (a b c : ℕ)
    → b < 256
    → c < 256
    → (((a % 4) * 16 + b / 16) % 16) * 16 + ((b % 16) * 4 + c / 64) / 4 ≡ b
second_byte a b c h k = omega arith

pub last_byte : (b c : ℕ) → c < 256 → (((b % 16) * 4 + c / 64) % 4) * 64 + c % 64 ≡ c
last_byte b c h = omega arith

pub decode_symbols-core :
    (bytes : List ℕ) → All IsByte bytes → decode_symbols (core bytes) ≡ some bytes
unfolding core decode_symbols
decode_symbols-core [] _ = refl
decode_symbols-core (a ∷ []) (h, _) =
    rw (value_of-symbol (a / 4) (omega arith), value_of-symbol ((a % 4) * 16) (omega arith))
      (ap (λ x. some (x ∷ [])) (omega arith))
decode_symbols-core (a ∷ b ∷ []) (h, (k, _)) =
    rw
      (
        value_of-symbol (a / 4) (omega arith),
        value_of-symbol ((a % 4) * 16 + b / 16) (omega arith),
        value_of-symbol ((b % 16) * 4) (omega arith),
      )
      (λ i. some (first_byte a b k i ∷ middle_byte a b k i ∷ []))
decode_symbols-core (a ∷ b ∷ c ∷ rest) (h, (k, (l, hs))) =
    rw
      (
        value_of-symbol (a / 4) (omega arith),
        value_of-symbol ((a % 4) * 16 + b / 16) (omega arith),
        value_of-symbol ((b % 16) * 4 + c / 64) (omega arith),
        value_of-symbol (c % 64) (omega arith),
        decode_symbols-core rest hs,
      )
      (λ i. some (first_byte a b k i ∷ second_byte a b c k l i ∷ last_byte b c l i ∷ rest))
