-- ===== src/Clock/Interval.antt =====
-- packages/clock/src/interval.ts: half-open spans of time. An instant is a whole number of
-- milliseconds counted from a moment before every instant in use, so the differences and the order
-- are those of the source.
pub mod Covers
pub mod Normal
pub mod Sets
use mortar.Prelude.{
  ℕ, zero, suc, ◌+◌, ◌-◌, min, max, Bool, true, false, not, ◌&&◌, Option, none, some, List, [], ◌∷◌,
  ◌++◌, filter, length, sum_by, ltb, leb, if◌then◌else◌,
}
use mortar.Prelude.Sort.{sort_by}

pub record Interval : Type 0 where
  pub start : ℕ
  pub end : ℕ

abbrev pub is_empty : Interval → Bool
is_empty i = leb i.end i.start

-- `Math.max(0, end - start)`: the subtraction stops at 0.
abbrev pub duration_ms : Interval → ℕ
duration_ms i = i.end - i.start

abbrev pub overlaps : Interval → Interval → Bool
overlaps a b = not (is_empty a) && not (is_empty b) && ltb a.start b.end && ltb b.start a.end

abbrev pub contains : Interval → Interval → Bool
contains outer inner = leb outer.start inner.start && leb inner.end outer.end

unfoldable pub intersect : Interval → Interval → Option Interval
intersect a b =
    let start = max a.start b.start in
    let end = min a.end b.end in
    if ltb start end then some (record { start = start; end = end }) else none

-- The comparator `a.start - b.start` is above zero.
abbrev pub starts_after : Interval → Interval → Bool
starts_after a b = ltb b.start a.start

-- The last interval, as far as the later of the two ends.
abbrev pub wider : Interval → Interval → Interval
wider last i = record { start = last.start; end = if ltb last.end i.end then i.end else last.end }

-- The loop of `normalise`, with the last interval that it has pushed.
unfoldable pub merge : Interval → List Interval → List Interval
merge last [] = last ∷ []
merge last (i ∷ is) =
    let joined = merge (wider last i) is in
    let apart = last ∷ merge i is in if leb i.start last.end then joined else apart

unfoldable pub merge_all : List Interval → List Interval
unfolding merge
merge_all [] = []
merge_all (i ∷ is) = merge i is

unfoldable pub normalise : List Interval → List Interval
unfolding merge_all sort_by
normalise is = merge_all (sort_by starts_after (filter (λ i. not (is_empty i)) is))

abbrev pub pushed : Option Interval → List Interval → List Interval
pushed none is = is
pushed (some i) is = i ∷ is

-- The loop of `intersectAll`, for at most so many rounds.
unfoldable pub meet : ℕ → List Interval → List Interval → List Interval
unfolding intersect
meet zero left right = []
meet (suc n) [] right = []
meet (suc n) (a ∷ left) [] = []
meet (suc n) (a ∷ left) (b ∷ right) =
    let on_left = meet n left (b ∷ right) in
    let on_right = meet n (a ∷ left) right in
    pushed (intersect a b) (if ltb a.end b.end then on_left else on_right)

-- Each round moves on in one of the two lists.
unfoldable pub intersect_all : List Interval → List Interval → List Interval
unfolding meet normalise
intersect_all a b =
    let left = normalise a in
    let right = normalise b in meet (length left + length right) left right

abbrev pub span : ℕ → ℕ → List Interval
span start end = if ltb start end then record { start = start; end = end } ∷ [] else []

-- The inner loop of `subtract`: what is left from `cursor` to `end`.
unfoldable pub cut : ℕ → ℕ → List Interval → List Interval
cut cursor end [] = span cursor end
cut cursor end (taken ∷ busy) =
    let moved = max cursor taken.end in
    let skipped = cut cursor end busy in
    let rest = cut moved end busy in
    if leb taken.end cursor
    then skipped
    else (if leb end taken.start
        then span cursor end
        else span cursor taken.start ++ (if leb end moved then span moved end else rest))

unfoldable pub cut_all : List Interval → List Interval → List Interval
unfolding cut
cut_all [] busy = []
cut_all (i ∷ is) busy = cut i.start i.end busy ++ cut_all is busy

unfoldable pub subtract : List Interval → List Interval → List Interval
unfolding cut_all normalise
subtract from remove = cut_all (normalise from) (normalise remove)

unfoldable pub clamp : List Interval → Interval → List Interval
unfolding intersect_all
clamp intervals bounds = intersect_all intervals (bounds ∷ [])

-- `totalMinutes`, in milliseconds.
unfoldable pub total_ms : List Interval → ℕ
unfolding normalise
total_ms intervals = sum_by duration_ms (normalise intervals)
