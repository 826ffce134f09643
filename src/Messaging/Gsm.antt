-- ===== src/Messaging/Gsm.antt =====
-- packages/messaging/src/gsm.ts. What a character comes to by canonical decomposition, its combining
-- marks dropped, is a parameter.
pub mod Cheap
use mortar.Prelude.{
  ℕ, Bool, true, false, not, ◌&&◌, Option, none, some, List, [], ◌∷◌, ◌++◌, all, ◌==◌,
  if◌then◌else◌,
}
use mortar.Messaging.Segments.{is_gsm_character, is_nil, add}

-- `IRREDUCIBLE`
unfoldable pub irreducible : List (ℕ × List ℕ)
irreducible =
    (273, 100 ∷ [])
    ∷ (272, 68 ∷ [])
    ∷ (240, 100 ∷ [])
    ∷ (208, 68 ∷ [])
    ∷ (254, 116 ∷ 104 ∷ [])
    ∷ (222, 84 ∷ 104 ∷ [])
    ∷ (322, 108 ∷ [])
    ∷ (321, 76 ∷ [])
    ∷ (295, 104 ∷ [])
    ∷ (294, 72 ∷ [])
    ∷ (305, 105 ∷ [])
    ∷ (304, 73 ∷ [])
    ∷ (339, 111 ∷ 101 ∷ [])
    ∷ (338, 79 ∷ 69 ∷ [])
    ∷ (8216, 39 ∷ [])
    ∷ (8217, 39 ∷ [])
    ∷ (8218, 39 ∷ [])
    ∷ (8220, 34 ∷ [])
    ∷ (8221, 34 ∷ [])
    ∷ (8222, 34 ∷ [])
    ∷ (8211, 45 ∷ [])
    ∷ (8212, 45 ∷ [])
    ∷ (8230, 46 ∷ 46 ∷ 46 ∷ [])
    ∷ (160, 32 ∷ [])
    ∷ (8239, 32 ∷ [])
    ∷ (8226, 42 ∷ [])
    ∷ (171, 34 ∷ [])
    ∷ (187, 34 ∷ [])
    ∷ []

abbrev pub lookup : ℕ → List (ℕ × List ℕ) → Option (List ℕ)
lookup c [] = none
lookup c (row ∷ rows) = if c == row.0 then some row.1 else lookup c rows

pub record GsmTransliteration : Type 0 where
  pub text : List ℕ
  pub changed : Bool
  pub untranslatable : List ℕ

abbrev pub equal : List ℕ → List ℕ → Bool
equal [] [] = true
equal [] (b ∷ bs) = false
equal (a ∷ as') [] = false
equal (a ∷ as') (b ∷ bs) = a == b && equal as' bs

-- What stands for a character that is not in the alphabet, and whether it is reported.
abbrev pub replaced : ℕ → Option (List ℕ) → List ℕ → List ℕ × Bool
replaced c (some mapped) stripped = (mapped, false)
replaced c none stripped =
    if not (is_nil stripped) && all is_gsm_character stripped
    then (stripped, false)
    else (c ∷ [], true)

unfoldable pub piece : (ℕ → List ℕ) → ℕ → List ℕ × Bool
piece strip c =
    if is_gsm_character c then (c ∷ [], false) else replaced c (lookup c irreducible) (strip c)

unfoldable pub rewrite : (ℕ → List ℕ) → List ℕ → List ℕ → List ℕ → List ℕ × List ℕ
rewrite strip [] result untranslatable = (result, untranslatable)
rewrite strip (c ∷ cs) result untranslatable =
    rewrite strip cs (result ++ (piece strip c).0)
      (if (piece strip c).1 then add c untranslatable else untranslatable)

-- `transliterateToGsm`
unfoldable pub transliterate_to_gsm : (ℕ → List ℕ) → List ℕ → GsmTransliteration
unfolding rewrite
transliterate_to_gsm strip text =
    let (result, untranslatable) = rewrite strip text [] [] in
    record { text = result; changed = not (equal result text); untranslatable = untranslatable }
