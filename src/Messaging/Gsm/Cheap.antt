-- ===== src/Messaging/Gsm/Cheap.antt =====
-- A text that is transliterated with nothing reported is sent in the cheap alphabet.
use mortar.Prelude.{
  ℕ, ◌≡◌, refl, sym, ap, ◌∙◌, Bool, true, false, not, ◌&&◌, Option, none, some, some-injective, inl,
  inr, List, [], ◌∷◌, ◌++◌, all, ◌==◌, if◌then◌else◌, arith, Bool-cases,
}
use mathlib.Core.List.{append_assoc, append-nil}
use mortar.Messaging.Segments.{
  is_nil, gsm_alphabet, gsm_extended, is_gsm_character, gsm, unicode, add, count_segments,
}
use mortar.Messaging.Segments.Bounds.{needed, count_segments_lem, is_nil-add}
use mortar.Messaging.Gsm.{irreducible, lookup, replaced, piece, rewrite, transliterate_to_gsm}

all-append {ℓ} :
    {A : Type ℓ} (p : A → Bool) (xs ys : List A) → all p (xs ++ ys) ≡ (all p xs && all p ys)
all-append p [] ys = refl
all-append p (x ∷ xs) ys = ground (arith, all-append p xs ys)

-- Every replacement of the table is in the alphabet.
all_cheap : all (λ (row : ℕ × List ℕ). all is_gsm_character row.1) irreducible ≡ true
unfolding irreducible is_gsm_character gsm_alphabet gsm_extended
all_cheap = refl

lookup-all :
    (c : ℕ) (rows : List (ℕ × List ℕ)) (text : List ℕ)
    → all (λ (row : ℕ × List ℕ). all is_gsm_character row.1) rows ≡ true
    → lookup c rows ≡ some text
    → all is_gsm_character text ≡ true
lookup-all c [] text e h = cc
lookup-all c (row ∷ rows) text e h = elim (Bool-cases (c == row.0)) [
  | inl t ↦ ap (all is_gsm_character) (sym (some-injective _ _ (rw t at h))) ∙ ground (arith, e)
  | inr f ↦ lookup-all c rows text (ground (arith, e)) (rw f at h)
]

next-is_nil :
    (c : ℕ) (u : List ℕ) (b : Bool) → is_nil (if b then add c u else u) ≡ (is_nil u && not b)
next-is_nil c u true = ground (arith, is_nil-add c u)
next-is_nil c u false = ground arith

module _ (strip : ℕ → List ℕ) where
  all-piece : (c : ℕ) → all is_gsm_character (piece strip c).0 ≡ not (piece strip c).1
  unfolding piece
  all-piece c = elim (Bool-cases (is_gsm_character c)) [
    | inl t ↦ rw t (ground (arith, t))
    | inr f ↦ rw f (of f (lookup c irreducible) refl)
  ]
    where
      plain :
          (stripped : List ℕ)
          → is_gsm_character c ≡ false
          → all is_gsm_character (replaced c none stripped).0 ≡ not (replaced c none stripped).1
      plain stripped f =
          elim (Bool-cases (not (is_nil stripped) && all is_gsm_character stripped)) [
            | inl t ↦ rw t (ground (arith, t))
            | inr n ↦ rw n (ground (arith, f))
          ]

      of :
          is_gsm_character c ≡ false
          → (found : Option (List ℕ)) → lookup c irreducible ≡ found
          → all is_gsm_character (replaced c found (strip c)).0 ≡ not (replaced c found (strip c)).1
      of f none e = plain (strip c) f
      of f (some text) e = lookup-all c irreducible text all_cheap e

  abbrev none_reported : List ℕ → Bool
  none_reported text = all (λ c. not (piece strip c).1) text

  rewrite-all :
      (text result u : List ℕ)
      → all is_gsm_character (rewrite strip text result u).0
        ≡ (all is_gsm_character result && none_reported text)
  unfolding rewrite
  rewrite-all [] result u = ground arith
  rewrite-all (c ∷ cs) result u =
      let next = if (piece strip c).1 then add c u else u in
      ground (
        arith,
        rewrite-all cs (result ++ (piece strip c).0) next,
        all-append is_gsm_character result (piece strip c).0,
        all-piece c,
      )

  rewrite-is_nil :
      (text result u : List ℕ)
      → is_nil (rewrite strip text result u).1 ≡ (is_nil u && none_reported text)
  unfolding rewrite
  rewrite-is_nil [] result u = ground arith
  rewrite-is_nil (c ∷ cs) result u = ground (
    arith,
    rewrite-is_nil cs (result ++ (piece strip c).0) (if (piece strip c).1 then add c u else u),
    next-is_nil c u (piece strip c).1,
  )

  piece-same : (c : ℕ) → is_gsm_character c ≡ true → (piece strip c).0 ≡ c ∷ []
  unfolding piece
  piece-same c e = rw e refl

  rewrite-same :
      (text result u : List ℕ)
      → all is_gsm_character text ≡ true
      → (rewrite strip text result u).0 ≡ result ++ text
  unfolding rewrite
  rewrite-same [] result u e = sym (append-nil result)
  rewrite-same (c ∷ cs) result u e =
      rewrite-same cs (result ++ (piece strip c).0) (if (piece strip c).1 then add c u else u)
        (ground (arith, e))
      ∙ ap (λ l. (result ++ l) ++ cs) (piece-same c (ground (arith, e)))
      ∙ append_assoc result (c ∷ []) cs

  count_segments-encoding : (text : List ℕ) → (count_segments text).encoding ≡ needed text
  unfolding count_segments
  count_segments-encoding [] = refl
  count_segments-encoding (c ∷ cs) = (count_segments_lem c cs).0

  -- Whatever characters decompose to, a transliterated text is charged in the cheap alphabet
  -- exactly when no character is reported as untranslatable, and a text that is in that alphabet
  -- already comes out as it was.
  pub transliterate_to_gsm-encoding :
      (text : List ℕ)
      → ((count_segments (transliterate_to_gsm strip text).text).encoding
          ≡ (if is_nil (transliterate_to_gsm strip text).untranslatable then gsm else unicode))
        × (all is_gsm_character text ≡ true → (transliterate_to_gsm strip text).text ≡ text)
  unfolding transliterate_to_gsm
  transliterate_to_gsm-encoding text = (
    count_segments-encoding (rewrite strip text [] []).0
        ∙ ap (λ b. if b then gsm else unicode)
            (rewrite-all text [] [] ∙ sym (rewrite-is_nil text [] [])),
    rewrite-same text [] [],
  )
