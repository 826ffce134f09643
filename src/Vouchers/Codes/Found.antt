-- ===== src/Vouchers/Codes/Found.antt =====
-- A voucher that was issued is found by its code: issue and byCode of
-- packages/vouchers/src/nestjs/vouchers.service.ts.
use mortar.Prelude.{
  ℕ, zero, suc, ◌<◌, ◌≡◌, ◌⊎◌, refl, sym, subst, ◌∙◌, inl, inr, true, false, Option, none, some,
  List, [], ◌∷◌, ◌++◌, All, Bool-cases, Option-cases, ==_refl,
}
use mortar.Vouchers.Codes.{
  looks_like_code, same_text, fresh_code, normalise_code, with_code, Issued, issued, not_a_code,
  in_use, could_not_allocate, is_taken, given, issue_in, issue, by_code,
}
use mortar.Vouchers.Codes.Printed.{
  IsPrinted, normalise_code_twice, fresh_code-fixed, fresh_code-looks_like,
}

same_text_refl : (xs : List ℕ) → same_text xs xs ≡ true
same_text_refl [] = refl
same_text_refl (x ∷ xs) = rw (==_refl x, same_text_refl xs)

abbrev pub Rows : Type 0 → Type 0
Rows V = List (List ℕ × V)

module _ (to_upper : List ℕ → List ℕ)
    (upper_printed : (cs : List ℕ) → All IsPrinted cs → to_upper cs ≡ cs) {V : Type 0} where
  with_code-last :
      (rows : Rows V) (code : List ℕ) (v : V)
      → with_code to_upper rows code ≡ none
      → with_code to_upper (rows ++ (code, v) ∷ []) code ≡ some v
  unfolding with_code
  with_code-last [] code v h = rw (same_text_refl code)
  with_code-last ((c, u) ∷ rows) code v h = elim (Bool-cases (same_text c code)) [
    | inl e ↦ let wrong : ◌≡◌ {A = Option V} (some u) none = rw e at h in cc
    | inr e ↦ rw e (with_code-last rows code v (rw e at h))
  ]

  with_code-earlier :
      (rows : Rows V) (code other : List ℕ) (v u : V)
      → with_code to_upper rows other ≡ some u
      → with_code to_upper (rows ++ (code, v) ∷ []) other ≡ some u
  unfolding with_code
  with_code-earlier [] code other v u h = cc
  with_code-earlier ((c, w) ∷ rows) code other v u h = elim (Bool-cases (same_text c other)) [
    | inl e ↦ rw e (rw e at h)
    | inr e ↦ rw e (with_code-earlier rows code other v u (rw e at h))
  ]

  module _ (draws : ℕ → ℕ → ℕ) (within : (a n : ℕ) → draws a n < 32) (v : V) (rows : Rows V) where
    -- A row more, under a code that is new, looks like one, and stands for itself.
    abbrev IsNew : Rows V → List ℕ → Type 0
    IsNew after code =
        (after ≡ rows ++ (code, v) ∷ [])
        × (looks_like_code code ≡ true)
        × (with_code to_upper rows code ≡ none)
        × (normalise_code to_upper code ≡ code)

    Answered : Issued V → Type 0
    Answered (issued after code) = IsNew after code
    Answered not_a_code = Unit
    Answered in_use = Unit
    Answered could_not_allocate = Unit

    issue_in-Answered :
        (left attempt : ℕ) (supplied : Option (List ℕ))
        → Answered (issue_in to_upper left attempt supplied draws v rows)
    unfolding issue_in Answered
    issue_in-Answered zero attempt supplied = tt
    issue_in-Answered (suc left) attempt none =
        let code = fresh_code (draws attempt) in
        rw (fresh_code-looks_like (draws attempt) (within attempt), issue_in)
          (elim (Option-cases (with_code to_upper rows code)) [
            | inl free ↦ rw free (
              refl,
              fresh_code-looks_like (draws attempt) (within attempt),
              free,
              fresh_code-fixed to_upper upper_printed (draws attempt) (within attempt),
            )
            | inr (u, taken) ↦ rw taken (issue_in-Answered left (suc attempt) none)
          ])
    issue_in-Answered (suc left) attempt (some typed) =
        let code = normalise_code to_upper typed in
        elim (Bool-cases (looks_like_code code)) [
          | inr odd ↦ rw odd tt
          | inl fine ↦ elim (Option-cases (with_code to_upper rows code)) [
            | inl free ↦
                rw (fine, free)
                  (refl, fine, free, normalise_code_twice to_upper upper_printed typed)
            | inr (u, taken) ↦ rw (fine, taken) tt
          ]
        ]

    issued-IsNew :
        (supplied : Option (List ℕ)) (after : Rows V) (code : List ℕ)
        → issue to_upper supplied draws v rows ≡ issued after code
        → IsNew after code
    unfolding issue Answered
    issued-IsNew supplied after code e = subst Answered e (issue_in-Answered 5 0 (given supplied))

    by_code-with_code :
        (after : Rows V) (code typed : List ℕ)
        → looks_like_code code ≡ true
        → normalise_code to_upper typed ≡ code
        → by_code to_upper after typed ≡ with_code to_upper after code
    unfolding by_code
    by_code-with_code after code typed fine same = rw same (rw fine refl)

    -- When capitals, digits and dashes are their own capitals and draws stay within the alphabet,
    -- a voucher that was issued under a code is found by whatever is typed that reads as that
    -- code, and by the code as it is printed.
    pub by_code-issue :
        (supplied : Option (List ℕ)) (after : Rows V) (code typed : List ℕ)
        → issue to_upper supplied draws v rows ≡ issued after code
        → normalise_code to_upper typed ≡ code
        → (by_code to_upper after typed ≡ some v) × (by_code to_upper after code ≡ some v)
    by_code-issue supplied after code typed e same =
        let (rows_e, fine, free, fixed) = issued-IsNew supplied after code e in
        let last : with_code to_upper after code ≡ some v =
          rw rows_e (with_code-last rows code v free) in
        (
          by_code-with_code after code typed fine same ∙ last,
          by_code-with_code after code code fine fixed ∙ last,
        )

    by_code-later :
        (typed code : List ℕ) (u : V)
        → by_code to_upper rows typed ≡ some u
        → by_code to_upper (rows ++ (code, v) ∷ []) typed ≡ some u
    unfolding by_code
    by_code-later typed code u h =
        elim (Bool-cases (looks_like_code (normalise_code to_upper typed))) [
          | inl fine ↦
              rw fine
                (with_code-earlier rows code (normalise_code to_upper typed) v u (rw fine at h))
          | inr odd ↦ let wrong : ◌≡◌ {A = Option V} none (some u) = rw odd at h in cc
        ]

    pub by_code-issue_other :
        (supplied : Option (List ℕ)) (after : Rows V) (code typed : List ℕ) (u : V)
        → issue to_upper supplied draws v rows ≡ issued after code
        → by_code to_upper rows typed ≡ some u
        → by_code to_upper after typed ≡ some u
    by_code-issue_other supplied after code typed u e found =
        let (rows_e, fine, free, fixed) = issued-IsNew supplied after code e in
        rw rows_e (by_code-later typed code u found)

    -- What an attempt draws is in use.
    abbrev pub IsTaken : ℕ → Type 0
    IsTaken a = is_taken to_upper (with_code to_upper rows (fresh_code (draws a))) ≡ true

    abbrev attempts : ℕ → ℕ → List ℕ
    attempts zero a = []
    attempts (suc n) a = a ∷ attempts n (suc a)

    abbrev Settled : ℕ → ℕ → Issued V → Type 0
    Settled left a answer =
        ((after : Rows V) × (code : List ℕ) × (answer ≡ issued after code))
        ⊎ ((answer ≡ could_not_allocate) × All IsTaken (attempts left a))

    Settled-later :
        (left a : ℕ) (answer : Issued V)
        → IsTaken a
        → Settled left (suc a) answer
        → Settled (suc left) a answer
    Settled-later left a answer t (inl given) = inl given
    Settled-later left a answer t (inr (e, ts)) = inr (e, (t, ts))

    issue_in-again :
        (left a : ℕ)
        → IsTaken a
        → issue_in to_upper (suc left) a none draws v rows
          ≡ issue_in to_upper left (suc a) none draws v rows
    unfolding issue_in
    issue_in-again left a taken = rw (fresh_code-looks_like (draws a) (within a)) (rw taken refl)

    issue_in-free :
        (left a : ℕ)
        → is_taken to_upper (with_code to_upper rows (fresh_code (draws a))) ≡ false
        → issue_in to_upper (suc left) a none draws v rows
          ≡ issued (rows ++ (fresh_code (draws a), v) ∷ []) (fresh_code (draws a))
    unfolding issue_in
    issue_in-free left a free = rw (fresh_code-looks_like (draws a) (within a)) (rw free refl)

    issue_in-Settled : (left a : ℕ) → Settled left a (issue_in to_upper left a none draws v rows)
    issue_in-Settled zero a = unfold issue_in in inr (refl, tt)
    issue_in-Settled (suc left) a =
        elim (Bool-cases (is_taken to_upper (with_code to_upper rows (fresh_code (draws a))))) [
          | inl taken ↦
              subst (Settled (suc left) a) (sym (issue_in-again left a taken))
                (Settled-later left a _ taken (issue_in-Settled left (suc a)))
          | inr free ↦ inl (
            rows ++ (fresh_code (draws a), v) ∷ [],
            fresh_code (draws a),
            issue_in-free left a free,
          )
        ]

    pub issue_settles :
        ((after : Rows V) × (code : List ℕ) × (issue to_upper none draws v rows
            ≡ issued after code))
        ⊎ ((issue to_upper none draws v rows ≡ could_not_allocate)
            × All IsTaken (0 ∷ 1 ∷ 2 ∷ 3 ∷ 4 ∷ []))
    unfolding issue
    issue_settles = issue_in-Settled 5 0
