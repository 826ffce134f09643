-- ===== src/Workflow/Links/Encoding/Equal.antt =====
-- The comparison of two texts, which never stops early, is equality.
use mortar.Prelude.{
  ℕ, zero, suc, ◌≡◌, refl, sym, ap, ◌∙◌, Bool, true, false, not, inl, inr, List, [], ◌∷◌, length,
  ◌==◌, ==_iff, arith, Bool-cases,
}
use mortar.Workflow.Links.Encoding.{timing_safe_equal, differs, tail, unit_at_start, longer}

differs-same : (n : ℕ) (a : List ℕ) → differs n a a false ≡ false
unfolding differs
differs-same zero a = refl
differs-same (suc n) a =
    ap (λ b. differs n (tail a) (tail a) (not b)) (==_same (unit_at_start a))
    ∙ differs-same n (tail a)
  where
    ==_same : (u : ℕ) → (u == u) ≡ true
    ==_same u = ground arith

pub timing_safe_equal_refl : (a : List ℕ) → timing_safe_equal a a ≡ true
unfolding timing_safe_equal
timing_safe_equal_refl a =
    ap (λ b. not (differs (longer (length a) (length a)) a a (not b))) (==_same (length a))
    ∙ ap not (differs-same (longer (length a) (length a)) a)
  where
    ==_same : (u : ℕ) → (u == u) ≡ true
    ==_same u = ground arith

differs-seen : (n : ℕ) (a b : List ℕ) → differs n a b true ≡ true
unfolding differs
differs-seen zero a b = refl
differs-seen (suc n) a b = differs-seen n (tail a) (tail b)

differs-eq : (a b : List ℕ) → length a ≡ length b → differs (length a) a b false ≡ false → a ≡ b
unfolding differs
differs-eq [] [] e h = refl
differs-eq [] (y ∷ ys) e h = absurd (omega (arith, e))
differs-eq (x ∷ xs) [] e h = absurd (omega (arith, e))
differs-eq (x ∷ xs) (y ∷ ys) e h = elim (Bool-cases (x == y)) [
  | inl t ↦
      let same : x ≡ y = (==_iff x y).0 t in
      let rest : xs ≡ ys =
        differs-eq xs ys (omega (arith, e))
          (sym (ap (λ c. differs (length xs) xs ys (not c)) t) ∙ h) in
      (λ i. same i ∷ rest i)
  | inr f ↦
      absurd (
        cc
          (differs-seen (length xs) xs ys, sym (ap (λ c. differs (length xs) xs ys (not c)) f) ∙ h))
]

pub timing_safe_equal-eq : (a b : List ℕ) → timing_safe_equal a b ≡ true → a ≡ b
unfolding timing_safe_equal
timing_safe_equal-eq a b h = elim (Bool-cases (length a == length b)) [
  | inl t ↦
      let e : length a ≡ length b = (==_iff (length a) (length b)).0 t in
      let p : longer (length a) (length b) ≡ length a = ground (arith, e) in
      differs-eq a b e (
        sym (ap (λ c. differs (length a) a b (not c)) t)
        ∙ sym (ap (λ n. differs n a b (not (length a == length b))) p)
        ∙ none_seen)
  | inr f ↦
      let n = longer (length a) (length b) in
      absurd (cc (differs-seen n a b, sym (ap (λ c. differs n a b (not c)) f) ∙ none_seen))
]
  where
    unseen : (b : Bool) → not b ≡ true → b ≡ false
    unseen true e = cc
    unseen false e = refl

    none_seen : differs (longer (length a) (length b)) a b (not (length a == length b)) ≡ false
    none_seen = unseen _ h
