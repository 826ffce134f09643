-- ===== src/Messaging/Segments/Bounds.antt =====
-- A message is charged the least number of segments that hold it, in the cheap alphabet when it can.
use mortar.Prelude.{
  ℕ, ◌+◌, ◌-◌, ◌≤◌, ◌≡◌, refl, sym, true, false, not, ◌&&◌, List, [], ◌∷◌, all, length, sum_by,
  if◌then◌else◌, arith,
}
use mortar.Messaging.Segments.{
  is_nil, gsm_alphabet, gsm_extended, has, is_gsm_character, Encoding, gsm, unicode, add, tally,
  segments_of, capacity, count_with, count_segments,
}

-- The places of a character in the cheap alphabet.
abbrev pub weight : ℕ → ℕ
weight c = if has gsm_extended c && not (has gsm_alphabet c) then 2 else 1

-- The encoding that the alphabet of a text needs, and the places that it then takes.
abbrev pub needed : List ℕ → Encoding
needed text = if all is_gsm_character text then gsm else unicode

abbrev pub cost : List ℕ → ℕ
cost text = if all is_gsm_character text then sum_by weight text else length text

pub is_nil-add : (c : ℕ) (set : List ℕ) → is_nil (add c set) ≡ false
is_nil-add c [] = refl
is_nil-add c (x ∷ xs) = ground arith

tally-offenders :
    (text offenders : List ℕ) (units : ℕ)
    → is_nil (tally text offenders units).0 ≡ (is_nil offenders && all is_gsm_character text)
unfolding tally is_gsm_character
tally-offenders [] offenders units = ground arith
tally-offenders (c ∷ cs) offenders units = ground (
  arith,
  tally-offenders cs offenders (units + 1),
  tally-offenders cs offenders (units + 2),
  tally-offenders cs (add c offenders) (units + 1),
  is_nil-add c offenders,
)

tally-units :
    (text offenders : List ℕ) (units : ℕ)
    → (tally text offenders units).1 ≡ units + sum_by weight text
unfolding tally
tally-units [] offenders units = omega arith
tally-units (c ∷ cs) offenders units = ground (
  arith,
  tally-units cs offenders (units + 1),
  tally-units cs offenders (units + 2),
  tally-units cs (add c offenders) (units + 1),
)

capacity-segments_of : (e : Encoding) (n : ℕ) → n ≤ capacity e (segments_of e n)
capacity-segments_of gsm n = ground arith
capacity-segments_of unicode n = ground arith

segments_of_least : (e : Encoding) (n k : ℕ) → 1 ≤ k → n ≤ capacity e k → segments_of e n ≤ k
segments_of_least gsm n k a b = ground arith
segments_of_least unicode n k a b = ground arith

room :
    (e : Encoding) (n : ℕ) → n + (capacity e (segments_of e n) - n) ≡ capacity e (segments_of e n)
room gsm n = omega (arith, capacity-segments_of gsm n)
room unicode n = omega (arith, capacity-segments_of unicode n)

-- A text that is not empty is counted in the cheap alphabet exactly when each of its characters is
-- in that alphabet; the places it takes and the places said to remain are what its segments hold;
-- and no smaller number of segments, of at least one, holds it.
pub count_segments_lem :
    (c : ℕ) (cs : List ℕ)
    → ((count_segments (c ∷ cs)).encoding ≡ needed (c ∷ cs))
      × (cost (c ∷ cs) + (count_segments (c ∷ cs)).remaining
          ≡ capacity (needed (c ∷ cs)) (count_segments (c ∷ cs)).segments)
      × ((k : ℕ)
          → 1 ≤ k
          → cost (c ∷ cs) ≤ capacity (needed (c ∷ cs)) k
          → (count_segments (c ∷ cs)).segments ≤ k)
unfolding count_segments
count_segments_lem c cs =
    of (tally (c ∷ cs) [] 0) (tally-offenders (c ∷ cs) [] 0)
      (omega (arith, tally-units (c ∷ cs) [] 0))
  where
    of :
        (t : List ℕ × ℕ)
        → is_nil t.0 ≡ (true && all is_gsm_character (c ∷ cs))
        → t.1 ≡ sum_by weight (c ∷ cs)
        → ((count_with (c ∷ cs) t).encoding ≡ needed (c ∷ cs))
          × (cost (c ∷ cs) + (count_with (c ∷ cs) t).remaining
              ≡ capacity (needed (c ∷ cs)) (count_with (c ∷ cs) t).segments)
          × ((k : ℕ)
              → 1 ≤ k
              → cost (c ∷ cs) ≤ capacity (needed (c ∷ cs)) k
              → (count_with (c ∷ cs) t).segments ≤ k)
    of ([], units) o u =
        let o' = sym o in
        rw (u, o')
          (refl, room gsm (sum_by weight (c ∷ cs)), segments_of_least gsm (sum_by weight (c ∷ cs)))
    of (x ∷ xs, units) o u =
        let o' = sym o in
        rw o' (refl, room unicode (length (c ∷ cs)), segments_of_least unicode (length (c ∷ cs)))
