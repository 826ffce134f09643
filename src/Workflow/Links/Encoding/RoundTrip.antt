-- ===== src/Workflow/Links/Encoding/RoundTrip.antt =====
-- Bytes come back from their base64url text, and two texts are equal when they are found so.
use mortar.Prelude.{
  ℕ, zero, suc, ◌+◌, ◌-◌, ◌*◌, ◌/◌, ◌%◌, ◌≤◌, ◌<◌, ◌≡◌, refl, sym, ap, ◌∙◌, subst, Bool, true,
  false, not, some, List, [], ◌∷◌, ◌++◌, map, filter, length, ◌==◌, if◌then◌else◌, arith, All,
}
use mortar.Workflow.Links.Encoding.{
  symbol, btoa, url_symbol, plain_symbol, is_nil, strip_padding, to_base64_url, is_space, strip_two,
  decode_symbols, unpadded, atob, padding, from_base64_url,
}
use mortar.Workflow.Links.Encoding.Symbols.{
  IsByte, IsSymbol, plain_url, url_ne, symbol_ne, symbol-is_space, core, core-IsSymbol,
  decode_symbols-core,
}

strip_padding-cons :
    (c : ℕ) (cs : List ℕ) → (c == 61) ≡ false → strip_padding (c ∷ cs) ≡ c ∷ strip_padding cs
unfolding strip_padding
strip_padding-cons c cs e = rw e refl

-- How much padding `btoa` writes.
pads : List ℕ → ℕ
pads [] = 0
pads (a ∷ []) = 2
pads (a ∷ b ∷ []) = 1
pads (a ∷ b ∷ c ∷ rest) = pads rest

btoa-core : (bytes : List ℕ) → btoa bytes ≡ core bytes ++ padding (pads bytes)
unfolding btoa core padding pads
btoa-core [] = refl
btoa-core (a ∷ []) = refl
btoa-core (a ∷ b ∷ []) = refl
btoa-core (a ∷ b ∷ c ∷ rest) =
    ap
      (λ l.
        symbol (a / 4)
        ∷ symbol ((a % 4) * 16 + b / 16)
        ∷ symbol ((b % 16) * 4 + c / 64)
        ∷ symbol (c % 64)
        ∷ l)
      (btoa-core rest)

-- It is what makes the length a multiple of 4.
pads_lem :
    (bytes : List ℕ)
    → (pads bytes ≤ 2)
      × ((4 - length (core bytes) % 4) % 4 ≡ pads bytes)
      × ((length (core bytes) + pads bytes) % 4 ≡ 0)
unfolding core pads
pads_lem [] = (omega arith, refl, refl)
pads_lem (a ∷ []) = (omega arith, refl, refl)
pads_lem (a ∷ b ∷ []) = (omega arith, refl, refl)
pads_lem (a ∷ b ∷ c ∷ rest) =
    let (l, e, m) = pads_lem rest in (l, omega (arith, e), omega (arith, m))

strip_padding-padding : (n : ℕ) → strip_padding (map url_symbol (padding n)) ≡ []
unfolding strip_padding padding url_symbol
strip_padding-padding zero = refl
strip_padding-padding (suc n) = rw (strip_padding-padding n) refl

strip_padding-map :
    (xs : List ℕ) (n : ℕ)
    → All IsSymbol xs
    → strip_padding (map url_symbol (xs ++ padding n)) ≡ map url_symbol xs
strip_padding-map [] n _ = strip_padding-padding n
strip_padding-map (x ∷ xs) n ((v, l, e), hs) =
    strip_padding-cons (url_symbol x) (map url_symbol (xs ++ padding n))
      (ap (λ c. url_symbol c == 61) e ∙ url_ne v l)
    ∙ ap (λ l. url_symbol x ∷ l) (strip_padding-map xs n hs)

plain_map : (xs : List ℕ) → All IsSymbol xs → map plain_symbol (map url_symbol xs) ≡ xs
plain_map [] _ = refl
plain_map (x ∷ xs) ((v, l, e), hs) =
    λ i. (ap (λ c. plain_symbol (url_symbol c)) e ∙ plain_url v l ∙ sym e) i ∷ plain_map xs hs i

length-map : (f : ℕ → ℕ) (xs : List ℕ) → length (map f xs) ≡ length xs
length-map f [] = refl
length-map f (x ∷ xs) = ap suc (length-map f xs)

length-padding : (xs : List ℕ) (n : ℕ) → length (xs ++ padding n) ≡ length xs + n
unfolding padding
length-padding [] zero = refl
length-padding [] (suc n) = omega (arith, length-padding [] n)
length-padding (x ∷ xs) n = omega (arith, length-padding xs n)

abbrev keeps : ℕ → Bool
keeps c = not (is_space c)

filter-padding : (n : ℕ) → filter keeps (padding n) ≡ padding n
unfolding padding
filter-padding zero = refl
filter-padding (suc n) = ap (λ l. 61 ∷ l) (filter-padding n)

keeps-symbol : (v : ℕ) → v < 64 → keeps (symbol v) ≡ true
keeps-symbol v l = rw (symbol-is_space v l) refl

filter-symbols :
    (xs : List ℕ) (n : ℕ) → All IsSymbol xs → filter keeps (xs ++ padding n) ≡ xs ++ padding n
filter-symbols [] n _ = filter-padding n
filter-symbols (x ∷ xs) n ((v, l, e), hs) =
    rw (ap keeps e ∙ keeps-symbol v l) (ap (λ l. x ∷ l) (filter-symbols xs n hs))

symbol_other : (x : ℕ) → IsSymbol x → (x == 61) ≡ false
symbol_other x (v, l, e) = ap (λ c. c == 61) e ∙ symbol_ne v l

strip_two-padding :
    (xs : List ℕ) (n : ℕ) → n ≤ 2 → All IsSymbol xs → strip_two (xs ++ padding n) ≡ xs
unfolding strip_two padding
strip_two-padding [] zero h _ = refl
strip_two-padding [] (suc zero) h _ = refl
strip_two-padding [] (suc (suc zero)) h _ = refl
strip_two-padding [] (suc (suc (suc n))) h _ = absurd (omega arith)
strip_two-padding (x ∷ []) zero h (s, _) = rw (symbol_other x s) refl
strip_two-padding (x ∷ []) (suc zero) h (s, _) = rw (symbol_other x s) refl
strip_two-padding (x ∷ []) (suc (suc zero)) h _ = refl
strip_two-padding (x ∷ []) (suc (suc (suc n))) h _ = absurd (omega arith)
strip_two-padding (x ∷ y ∷ []) zero h (s, (t, _)) = rw (symbol_other y t) refl
strip_two-padding (x ∷ y ∷ []) (suc n) h (s, t) =
    ap (λ l. x ∷ l) (strip_two-padding (y ∷ []) (suc n) h t)
strip_two-padding (x ∷ y ∷ z ∷ zs) n h (s, t) =
    ap (λ l. x ∷ l) (strip_two-padding (y ∷ z ∷ zs) n h t)

unpadded-core :
    (bytes : List ℕ)
    → All IsByte bytes
    → unpadded (filter keeps (core bytes ++ padding (pads bytes))) ≡ core bytes
unfolding unpadded
unpadded-core bytes h =
    let s = core-IsSymbol bytes h in
    let (l, _, m) = pads_lem bytes in
    ap unpadded (filter-symbols (core bytes) (pads bytes) s)
    ∙ ap
        (λ b.
          if b
          then strip_two (core bytes ++ padding (pads bytes))
          else core bytes ++ padding (pads bytes))
        (==_of (ap (λ n. n % 4) (length-padding (core bytes) (pads bytes)) ∙ m))
    ∙ strip_two-padding (core bytes) (pads bytes) l s
  where
    ==_of : {n : ℕ} → n ≡ 0 → (n == 0) ≡ true
    ==_of {n = n} e = ap (λ x. x == 0) e

to_base64_url-core :
    (bytes : List ℕ) → All IsByte bytes → to_base64_url bytes ≡ map url_symbol (core bytes)
unfolding to_base64_url
to_base64_url-core bytes h =
    ap (λ l. strip_padding (map url_symbol l)) (btoa-core bytes)
    ∙ strip_padding-map (core bytes) (pads bytes) (core-IsSymbol bytes h)

-- No symbol is a dot.
abbrev pub IsUrl : ℕ → Type 0
IsUrl c = (c == 46) ≡ false

url_symbol-IsUrl : (n : ℕ) → n < 64 → IsUrl (url_symbol (symbol n))
unfolding url_symbol symbol
url_symbol-IsUrl n h = ground arith

map-IsUrl : (xs : List ℕ) → All IsSymbol xs → All IsUrl (map url_symbol xs)
map-IsUrl [] _ = tt
map-IsUrl (x ∷ xs) ((v, l, e), hs) =
    (ap (λ c. url_symbol c == 46) e ∙ url_symbol-IsUrl v l, map-IsUrl xs hs)

pub to_base64_url-IsUrl : (bytes : List ℕ) → All IsByte bytes → All IsUrl (to_base64_url bytes)
to_base64_url-IsUrl bytes h =
    subst (All IsUrl) (sym (to_base64_url-core bytes h))
      (map-IsUrl (core bytes) (core-IsSymbol bytes h))

core-is_nil : (bytes : List ℕ) → is_nil (map url_symbol (core bytes)) ≡ is_nil bytes
unfolding core
core-is_nil [] = refl
core-is_nil (a ∷ []) = refl
core-is_nil (a ∷ b ∷ []) = refl
core-is_nil (a ∷ b ∷ c ∷ rest) = refl

pub to_base64_url-is_nil :
    (bytes : List ℕ) → All IsByte bytes → is_nil (to_base64_url bytes) ≡ is_nil bytes
to_base64_url-is_nil bytes h = ap is_nil (to_base64_url-core bytes h) ∙ core-is_nil bytes

-- The bytes of a text in base64url, read again, are what they were.
pub from_base64_url-to_base64_url :
    (bytes : List ℕ) → All IsByte bytes → from_base64_url (to_base64_url bytes) ≡ some bytes
unfolding from_base64_url atob
from_base64_url-to_base64_url bytes h =
    let s = core-IsSymbol bytes h in
    let (_, p, _) = pads_lem bytes in
    ap from_base64_url (to_base64_url-core bytes h)
    ∙ (λ i. atob (
        plain_map (core bytes) s i ++ padding ((4 - length-map url_symbol (core bytes) i % 4) % 4)))
    ∙ ap (λ n. atob (core bytes ++ padding n)) p
    ∙ ap decode_symbols (unpadded-core bytes h)
    ∙ decode_symbols-core bytes h
