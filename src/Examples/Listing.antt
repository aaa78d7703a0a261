-- ===== src/Examples/Listing.antt =====
-- The theorems on the order of a student's list, at a list with a stage of each block.
use campus_internship.Prelude.{ℕ, ◌+◌, ◌≡◌, true, none, List, [], ◌∷◌, select, Text, text}
use campus_internship.Prelude.Sorting.{Ordered}
use campus_internship.Shared.Enums.{s2, pending}
use campus_internship.Shared.Calendar.{Date}
use campus_internship.Api.Snapshot.{FrozenPeriod}
use campus_internship.Api.Stages.Listing.{ListItem, past, sort_by_nearest_start}
use campus_internship.Api.Stages.Listing.Order.{InOrder, sort_by_nearest_start-Ordered}
use campus_internship.Api.Stages.Listing.Stable.{has_rank, sort_by_nearest_start-stable}
use campus_internship.Examples.Fixtures.{day_2026}

abbrev parse : Text → Date
parse [] = 0
parse (d ∷ s) = d

abbrev item : ℕ → List FrozenPeriod → ListItem
item id periods = record {
  id = id;
  status = pending;
  submitted_at = none;
  school_year = text "2025-2026";
  semester = s2;
  mandatory = true;
  organism_name = none;
  periods = periods;
}

abbrev period : ℕ → FrozenPeriod
period n = record { id = n; start_date = day_2026 n ∷ []; end_date = day_2026 (n + 5) ∷ [] }

abbrev items : List ListItem
items =
    item 1 []
    ∷ item 2 (period 10 ∷ [])
    ∷ item 3 (period 60 ∷ [])
    ∷ item 4 (period 10 ∷ [])
    ∷ item 5 (period 50 ∷ [])
    ∷ []

sort_by_nearest_start-Ordered_example :
    Ordered (InOrder parse (day_2026 40)) (sort_by_nearest_start parse (day_2026 40) items)
sort_by_nearest_start-Ordered_example = sort_by_nearest_start-Ordered parse (day_2026 40) items

sort_by_nearest_start-stable_example :
    select
      (has_rank parse (day_2026 40) (past (day_2026 10)))
      (sort_by_nearest_start parse (day_2026 40) items)
    ≡ select (has_rank parse (day_2026 40) (past (day_2026 10))) items
sort_by_nearest_start-stable_example =
    sort_by_nearest_start-stable parse (day_2026 40) (past (day_2026 10)) items
