-- ===== src/Clock/Tests.antt =====
-- Spans to try the theorems of packages/clock on.
use mortar.Prelude.{ℕ, ◌≡◌, List, [], ◌∷◌, ◌&&◌, not}
use mortar.Clock.Interval.{Interval, subtract}
use mortar.Clock.Interval.Covers.{covers}
use mortar.Clock.Interval.Sets.{subtract-covers}

abbrev from_to : ℕ → ℕ → Interval
from_to start end = record { start = start; end = end }

-- A day in two parts that touch, and a break in it.
abbrev day : List Interval
day = from_to 12 17 ∷ from_to 9 12 ∷ []

abbrev breaks : List Interval
breaks = from_to 11 13 ∷ []

subtract-covers_example :
    covers 12 (subtract day breaks) ≡ (covers 12 day && not (covers 12 breaks))
subtract-covers_example = subtract-covers 12 day breaks
