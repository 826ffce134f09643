-- ===== src/Clock/Interval/Sets.antt =====
-- `intersectAll` and `subtract` are the intersection and the difference of what is covered.
use mortar.Prelude.{
  ℕ, zero, suc, ◌+◌, ◌≤◌, ◌<◌, ◌≡◌, refl, ap, ◌∙◌, inl, inr, max, false, not, ◌&&◌, ◌||◌, List, [],
  ◌∷◌, length, arith, ltb, leb, Bool-cases, All, All-mono,
}
use mortar.Clock.Interval.{
  Interval, intersect, pushed, meet, intersect_all, span, cut, cut_all, subtract, clamp, normalise,
}
use mortar.Clock.Interval.Covers.{within, covers, covers-append}
use mortar.Clock.Interval.Normal.{
  StartsFrom, InOrder, IsNormal, normalise-IsNormal, normalise-covers,
}

-- No interval from here on covers an instant before `s`.
covers_before : (t s : ℕ) (is : List Interval) → t < s → All (StartsFrom s) is → covers t is ≡ false
covers_before t s [] h _ = refl
covers_before t s (i ∷ is) h (k, ks) = ground (arith, covers_before t s is h ks)

covers-span : (t start end : ℕ) → covers t (span start end) ≡ (leb start t && ltb t end)
covers-span t start end = ground arith

IsNormal-InOrder : (is : List Interval) → IsNormal is → InOrder is
IsNormal-InOrder [] n = tt
IsNormal-InOrder (i ∷ is) (h, f, n) = (
  All-mono (λ y. i.end < y.start) (StartsFrom i.start) is (λ y p. omega arith) f,
  IsNormal-InOrder is n,
)

cut-covers :
    (t cursor end : ℕ) (busy : List Interval)
    → InOrder busy
    → covers t (cut cursor end busy) ≡ (leb cursor t && ltb t end && not (covers t busy))
unfolding cut
cut-covers t cursor end [] o = covers-span t cursor end ∙ ground arith
cut-covers t cursor end (taken ∷ busy) (s, ss) =
    let early = λ (x : t < taken.start). covers_before t taken.start busy x s in
    elim (Bool-cases (leb taken.end cursor)) [
      | inl past ↦ rw past (cut-covers t cursor end busy ss ∙ ground arith)
      | inr still ↦ elim (Bool-cases (leb end taken.start)) [
        | inl beyond ↦ rw (still, beyond) (covers-span t cursor end ∙ ground (arith, early))
        | inr meets ↦ elim (Bool-cases (leb end (max cursor taken.end))) [
          | inl done ↦
              rw (still, meets, done)
                (covers-append t (span cursor taken.start) (span (max cursor taken.end) end)
                  ∙ ground (
                    arith,
                    early,
                    covers-span t cursor taken.start,
                    covers-span t (max cursor taken.end) end,
                  ))
          | inr more ↦
              rw (still, meets, more)
                (covers-append t (span cursor taken.start) (cut (max cursor taken.end) end busy)
                  ∙ ground (
                    arith,
                    early,
                    covers-span t cursor taken.start,
                    cut-covers t (max cursor taken.end) end busy ss,
                  ))
        ]
      ]
    ]

cut_all-covers :
    (t : ℕ) (is busy : List Interval)
    → InOrder busy
    → covers t (cut_all is busy) ≡ (covers t is && not (covers t busy))
unfolding cut_all
cut_all-covers t [] busy o = refl
cut_all-covers t (i ∷ is) busy o =
    covers-append t (cut i.start i.end busy) (cut_all is busy)
    ∙ ground (arith, cut-covers t i.start i.end busy o, cut_all-covers t is busy o)

-- An instant is covered after a subtraction exactly when it was covered before and is not covered
-- by what is removed.
pub subtract-covers :
    (t : ℕ) (from remove : List Interval)
    → covers t (subtract from remove) ≡ (covers t from && not (covers t remove))
unfolding subtract
subtract-covers t from remove =
    cut_all-covers t (normalise from) (normalise remove)
      (IsNormal-InOrder (normalise remove) (normalise-IsNormal remove))
    ∙ ap (λ b. b && not (covers t (normalise remove))) (normalise-covers from t)
    ∙ ap (λ b. covers t from && not b) (normalise-covers remove t)

intersect-covers :
    (t : ℕ) (a b : Interval) (is : List Interval)
    → covers t (pushed (intersect a b) is) ≡ ((within t a && within t b) || covers t is)
unfolding intersect
intersect-covers t a b is = ground arith

after_end :
    (t : ℕ) (i : Interval) (is : List Interval)
    → All (λ y. i.end < y.start) is
    → t < i.end
    → covers t is ≡ false
after_end t i is f h =
    covers_before t i.end is h
      (All-mono (λ y. i.end < y.start) (StartsFrom i.end) is (λ y p. omega arith) f)

meet-covers :
    (t n : ℕ) (left right : List Interval)
    → length left + length right ≤ n
    → IsNormal left
    → IsNormal right
    → covers t (meet n left right) ≡ (covers t left && covers t right)
unfolding meet
meet-covers t zero [] right h _ _ = refl
meet-covers t zero (a ∷ left) right h _ _ = absurd (omega arith)
meet-covers t (suc n) [] right h _ _ = refl
meet-covers t (suc n) (a ∷ left) [] h _ _ = ground arith
meet-covers t (suc n) (a ∷ left) (b ∷ right) h (p, f, m) (q, g, k) =
    elim (Bool-cases (ltb a.end b.end)) [
      | inl left_first ↦ rw left_first (
          intersect-covers t a b (meet n left (b ∷ right))
          ∙ ground (
            arith,
            meet-covers t n left (b ∷ right) (omega arith) m (q, g, k),
            after_end t b right g,
          ))
      | inr right_first ↦ rw right_first (
          intersect-covers t a b (meet n (a ∷ left) right)
          ∙ ground (
            arith,
            meet-covers t n (a ∷ left) right (omega arith) (p, f, m) k,
            after_end t a left f,
          ))
    ]

-- An instant is covered by the intersection of two lists exactly when both lists cover it.
pub intersect_all-covers :
    (t : ℕ) (a b : List Interval) → covers t (intersect_all a b) ≡ (covers t a && covers t b)
unfolding intersect_all
intersect_all-covers t a b =
    meet-covers t (length (normalise a) + length (normalise b)) (normalise a) (normalise b)
      (omega arith) (normalise-IsNormal a) (normalise-IsNormal b)
    ∙ ap (λ x. x && covers t (normalise b)) (normalise-covers a t)
    ∙ ap (λ x. covers t a && x) (normalise-covers b t)

pub clamp-covers :
    (t : ℕ) (is : List Interval) (bounds : Interval)
    → covers t (clamp is bounds) ≡ (covers t is && within t bounds)
unfolding clamp
clamp-covers t is bounds = intersect_all-covers t is (bounds ∷ []) ∙ ground arith
