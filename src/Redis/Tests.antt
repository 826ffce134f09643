-- ===== src/Redis/Tests.antt =====
-- Sorted sets as lists, and calls to try the theorems of packages/redis on.
use mortar.Prelude.{
  ℕ, suc, ◌+◌, ◌≤◌, ◌<◌, ◌≡◌, ◌≢◌, refl, Bool, true, false, ◌&&◌, Option, none, some, List, [], ◌∷◌,
  filter, length, arith, leb, ltb, ◌==◌, ==_refl, if◌then◌else◌, Bool-cases, inl, inr,
  some-injective,
}
use mortar.Redis.RateLimit.{Entry, Redis, Key, consume}
use mortar.Redis.RateLimit.Allowance.{
  Call, spent_in, spent_from, after_calls, consume-within, consume-allowed,
}
use mortar.Redis.RateLimit.Flood.{again, consume-flood}

abbrev same : Entry → Entry → Bool
same e f = e.at == f.at && e.place == f.place && e.random == f.random

same_refl : (e : Entry) → same e e ≡ true
same_refl e = rw (==_refl e.at, ==_refl e.place, ==_refl e.random) refl

same-eq : (e f : Entry) → same e f ≡ true → e ≡ f
same-eq e f h =
    let p : e.at ≡ f.at = ground arith in
    let q : e.place ≡ f.place = ground arith in
    let r : e.random ≡ f.random = ground arith in
    λ i. record { at = p i; place = q i; random = r i }

abbrev Row : Type 0
Row = Entry × ℕ

abbrev score_in : Entry → List Row → Option ℕ
score_in e [] = none
score_in e ((f, s) ∷ m) = if same e f then some s else score_in e m

abbrev add : ℕ → Entry → List Row → List Row
add s e [] = (e, s) ∷ []
add s e ((f, t) ∷ m) = let rest = add s e m in if same e f then (f, s) ∷ m else (f, t) ∷ rest

abbrev remove : ℕ → List Row → List Row
remove j m = filter (λ r. ltb j r.1) m

abbrev count : ℕ → List Row → ℕ
count k m = length (filter (λ r. leb k r.1) m)

abbrev lower : ℕ → Option ℕ → Option ℕ
lower s none = some s
lower s (some t) = some (if ltb t s then t else s)

abbrev first_score : List Row → Option ℕ
first_score [] = none
first_score ((f, s) ∷ m) = lower s (first_score m)

score-add : (s : ℕ) (e : Entry) (m : List Row) → score_in e (add s e m) ≡ some s
score-add s e [] = rw (same_refl e) refl
score-add s e ((f, t) ∷ m) = ground (arith, score-add s e m)

other_same :
    (s : ℕ) (e f : Entry) (m : List Row) → same f e ≡ false → score_in f (add s e m) ≡ score_in f m
other_same s e f [] h = rw h refl
other_same s e f ((g, t) ∷ m) h = ground (arith, other_same s e f m)

other : (s : ℕ) (e f : Entry) (m : List Row) → f ≢ e → score_in f (add s e m) ≡ score_in f m
other s e f m h = elim (Bool-cases (same f e)) [
  | inl equal ↦ absurd (h (same-eq f e equal))
  | inr differs ↦ other_same s e f m differs
]

gone : (j : ℕ) (e : Entry) (m : List Row) → score_in e m ≡ none → score_in e (remove j m) ≡ none
gone j e [] h = refl
gone j e ((f, s) ∷ m) h = ground (arith, gone j e m)

stays :
    (j s : ℕ) (e : Entry) (m : List Row)
    → score_in e m ≡ some s
    → j < s
    → score_in e (remove j m) ≡ some s
stays j s e [] h g = cc
stays j s e ((f, t) ∷ m) h g = grind (arith, stays j s e m, some-injective)

card_new :
    (s : ℕ) (e : Entry) (m : List Row) → score_in e m ≡ none → length (add s e m) ≡ suc (length m)
card_new s e [] h = refl
card_new s e ((f, t) ∷ m) h = ground (arith, card_new s e m)

card_again :
    (s t : ℕ) (e : Entry) (m : List Row) → score_in e m ≡ some t → length (add s e m) ≡ length m
card_again s t e [] h = cc
card_again s t e ((f, u) ∷ m) h = ground (arith, card_again s t e m)

card_rest : (j : ℕ) (m : List Row) → length (remove j m) ≤ length m
card_rest j [] = omega arith
card_rest j ((f, s) ∷ m) = ground (arith, card_rest j m)

count_new :
    (k s : ℕ) (e : Entry) (m : List Row)
    → score_in e m ≡ none
    → count k (add s e m) ≡ (if leb k s then suc (count k m) else count k m)
count_new k s e [] h = ground arith
count_new k s e ((f, t) ∷ m) h = ground (arith, count_new k s e m)

count_rest : (k j : ℕ) (m : List Row) → j < k → count k (remove j m) ≡ count k m
count_rest k j [] h = refl
count_rest k j ((f, s) ∷ m) h = ground (arith, count_rest k j m)

count_all : (m : List Row) → count 0 m ≡ length m
count_all [] = refl
count_all ((f, s) ∷ m) = ground (arith, count_all m)

count_above : (j : ℕ) (m : List Row) → count (suc j) (remove j m) ≡ length (remove j m)
count_above j [] = refl
count_above j ((f, s) ∷ m) = ground (arith, count_above j m)

count-le : (k : ℕ) (m : List Row) → count k m ≤ length m
count-le k [] = omega arith
count-le k ((f, s) ∷ m) = ground (arith, count-le k m)

abbrev lists : Redis
lists = record {
  Sorted = List Row;
  nothing = [];
  score = score_in;
  zadd = add;
  zremrangebyscore = remove;
  zcard = length;
  zcount = count;
  oldest = first_score;
  score-nothing = λ e. refl;
  score-zadd = score-add;
  score_other = other;
  score_gone = gone;
  score_stays = stays;
  zcard_new = card_new;
  zcard_again = card_again;
  zcard_rest = card_rest;
  zcount_new = count_new;
  zcount_rest = count_rest;
  zcount-nothing = λ k. refl;
  zcount_all = count_all;
  zcount_above = count_above;
  zcount-zcard = count-le;
}

-- Two calls of cost 2 a minute, the second a second after the first, and one later.
abbrev call_at : ℕ → Call
call_at at = record { at = at; cost = 2; random = λ i. 7 }

abbrev calls : List Call
calls = call_at 61000 ∷ call_at 2000 ∷ call_at 1000 ∷ []

third_through : (after_calls lists 60000 3 calls).1 ≡ call_at 61000 ∷ call_at 1000 ∷ []
unfolding after_calls consume
third_through = refl

consume-within_example : spent_in 2000 62000 (after_calls lists 60000 3 calls).1 ≤ 3
consume-within_example =
    consume-within lists 60000 3 61001 2000 calls (omega arith, (omega arith, (omega arith, tt)))

consume-allowed_example :
    let (key, through) = after_calls lists 60000 3 calls in
    let (result, next) = consume lists 60000 3 2 61500 (λ i. 7) key in
    result.allowed ≡ leb (spent_from 1501 through + 2) 3
consume-allowed_example =
    consume-allowed lists 60000 3 (call_at 61500) calls
      (omega arith, (omega arith, (omega arith, tt)))

abbrev fresh : Key lists
fresh = record { sorted = []; expires = 0 }

consume-flood_example :
    (consume lists 60000 5 1 1000 (λ i. 7) (again lists 60000 5 1000 (λ i. 7) 100 fresh)).0.allowed
    ≡ true
consume-flood_example =
    consume-flood lists 60000 5 1000 (λ i. 7) fresh 100 (omega arith) (omega arith)
