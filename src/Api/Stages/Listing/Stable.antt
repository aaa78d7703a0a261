-- ===== src/Api/Stages/Listing/Stable.antt =====
-- The sort of the list loses no stage and keeps the order of the database where it has no rule.
use campus_internship.Prelude.{
  ◌==◌, ◌≡◌, refl, ap, ◌∙◌, Bool, true, false, List, [], ◌∷◌, ◌++◌, map, select, All, arith,
  Bool-cases, inl, inr, if◌then◌else◌, Text,
}
use mathlib.Core.List.{append-nil}
use campus_internship.Prelude.Sorting.{
  sort_by, All-weaken, All-map, sort_by-All, select-sort_by, select_cong, select-map, select_none,
  select_whole, select-append,
}
use campus_internship.Shared.Calendar.{Date}
use campus_internship.Api.Stages.Listing.{
  ListItem, RankedStage, Blocks, Rank, upcoming, past, no_period, rank_of, nearest_first,
  most_recent_first, sort_by_nearest_start,
}
use campus_internship.Api.Stages.Listing.Splitting.{
  stage_of, no_blocks, with_rank, blocks_of, blocks_of-IsRanked, split_blocks_lem, IsUpcoming,
  IsPast, HasNoPeriod, IsRanked, rank_eq,
}
use campus_internship.Api.Stages.Listing.Order.{joined}

module _ (parse : Text → Date) (now : Date) where
  abbrev rank : ListItem → Rank
  rank = rank_of parse now

  -- the stages that the sort cannot tell apart
  abbrev pub has_rank : Rank → ListItem → Bool
  has_rank r s = rank_eq (rank s) r

  abbrev timed : Date → RankedStage → Bool
  timed t x = x.ranking_start_time == t

  -- what the sorted blocks hold of a rank
  abbrev of_rank : Rank → Blocks → List ListItem
  of_rank (upcoming t) b = map stage_of (select (timed t) b.upcoming_stages)
  of_rank (past t) b = map stage_of (select (timed t) b.past_stages)
  of_rank no_period b = b.stages_without_period

  of_rank-with_rank :
      (r q : Rank) (s : ListItem) (b : Blocks)
      → of_rank r (with_rank q s b) ≡ (if rank_eq q r then s ∷ of_rank r b else of_rank r b)
  of_rank-with_rank (upcoming t) (upcoming u) s b = elim (Bool-cases (u == t)) [
    | inl e ↦ rw e
    | inr e ↦ rw e
  ]
  of_rank-with_rank (upcoming t) (past u) s b = refl
  of_rank-with_rank (upcoming t) no_period s b = refl
  of_rank-with_rank (past t) (upcoming u) s b = refl
  of_rank-with_rank (past t) (past u) s b = elim (Bool-cases (u == t)) [
    | inl e ↦ rw e
    | inr e ↦ rw e
  ]
  of_rank-with_rank (past t) no_period s b = refl
  of_rank-with_rank no_period (upcoming u) s b = refl
  of_rank-with_rank no_period (past u) s b = refl
  of_rank-with_rank no_period no_period s b = refl

  of_rank-blocks_of :
      (r : Rank) (ss : List ListItem) → of_rank r (blocks_of rank ss) ≡ select (has_rank r) ss
  unfolding blocks_of
  of_rank-blocks_of (upcoming t) [] = refl
  of_rank-blocks_of (past t) [] = refl
  of_rank-blocks_of no_period [] = refl
  of_rank-blocks_of r (s ∷ ss) =
      of_rank-with_rank r (rank s) s (blocks_of rank ss)
      ∙ ap (λ rest. if rank_eq (rank s) r then s ∷ rest else rest) (of_rank-blocks_of r ss)

  -- a sorted block, and what it holds of a rank
  select-block :
      (le : RankedStage → RankedStage → Bool) (r : Rank) (t : Date)
      → ((x y : RankedStage) → timed t x ≡ true → timed t y ≡ true → le x y ≡ true)
      → (xs : List RankedStage) → All (λ x. has_rank r x.stage ≡ timed t x) xs
      → select (has_rank r) (map stage_of (sort_by le xs)) ≡ map stage_of (select (timed t) xs)
  select-block le r t same xs h =
      select-map (has_rank r) stage_of (sort_by le xs)
      ∙ ap (map stage_of) (
          select_cong (λ x. has_rank r x.stage) (timed t) (sort_by le xs) (sort_by-All le _ xs h)
          ∙ select-sort_by le (timed t) same xs)

  select-other :
      (le : RankedStage → RankedStage → Bool) (r : Rank) (xs : List RankedStage)
      → All (λ x. has_rank r x.stage ≡ false) xs
      → select (has_rank r) (map stage_of (sort_by le xs)) ≡ []
  select-other le r xs h =
      select_none (has_rank r) (map stage_of (sort_by le xs))
        (All-map _ stage_of (λ x e. e) (sort_by le xs) (sort_by-All le _ xs h))

  select-joined :
      (r : Rank) (b : Blocks)
      → IsRanked rank b
      → select (has_rank r) (joined parse now b) ≡ of_rank r b
  select-joined (upcoming t) b h =
      select-append (has_rank (upcoming t)) (map stage_of (sort_by nearest_first b.upcoming_stages))
        (map stage_of (sort_by most_recent_first b.past_stages) ++ b.stages_without_period)
      ∙ rw (
        select-append (has_rank (upcoming t))
            (map stage_of (sort_by most_recent_first b.past_stages)) b.stages_without_period,
        select-block nearest_first (upcoming t) t (λ x y e g. ground arith) b.upcoming_stages
            (All-weaken (λ (x : RankedStage) (e : IsUpcoming rank x). rw e) b.upcoming_stages h.0),
        select-other most_recent_first (upcoming t) b.past_stages
            (All-weaken (λ (x : RankedStage) (e : IsPast rank x). rw e) b.past_stages h.1.0),
        select_none (has_rank (upcoming t)) b.stages_without_period (
            All-weaken (λ (x : ListItem) (e : HasNoPeriod rank x). rw e) b.stages_without_period
              h.1.1),
        append-nil (map stage_of (select (timed t) b.upcoming_stages)),
      )
  select-joined (past t) b h =
      select-append (has_rank (past t)) (map stage_of (sort_by nearest_first b.upcoming_stages))
        (map stage_of (sort_by most_recent_first b.past_stages) ++ b.stages_without_period)
      ∙ rw (
        select-append (has_rank (past t)) (map stage_of (sort_by most_recent_first b.past_stages))
            b.stages_without_period,
        select-other nearest_first (past t) b.upcoming_stages
            (All-weaken (λ (x : RankedStage) (e : IsUpcoming rank x). rw e) b.upcoming_stages h.0),
        select-block most_recent_first (past t) t (λ x y e g. ground arith) b.past_stages
            (All-weaken (λ (x : RankedStage) (e : IsPast rank x). rw e) b.past_stages h.1.0),
        select_none (has_rank (past t)) b.stages_without_period (
            All-weaken (λ (x : ListItem) (e : HasNoPeriod rank x). rw e) b.stages_without_period
              h.1.1),
        append-nil (map stage_of (select (timed t) b.past_stages)),
      )
  select-joined no_period b h =
      select-append (has_rank (no_period)) (map stage_of (sort_by nearest_first b.upcoming_stages))
        (map stage_of (sort_by most_recent_first b.past_stages) ++ b.stages_without_period)
      ∙ rw (
        select-append (has_rank (no_period))
            (map stage_of (sort_by most_recent_first b.past_stages)) b.stages_without_period,
        select-other nearest_first (no_period) b.upcoming_stages
            (All-weaken (λ (x : RankedStage) (e : IsUpcoming rank x). rw e) b.upcoming_stages h.0),
        select-other most_recent_first (no_period) b.past_stages
            (All-weaken (λ (x : RankedStage) (e : IsPast rank x). rw e) b.past_stages h.1.0),
        select_whole (has_rank no_period) b.stages_without_period (
            All-weaken (λ (x : ListItem) (e : HasNoPeriod rank x). rw e) b.stages_without_period
              h.1.1),
      )

  -- Sorting the list by start keeps every stage, once, and the stages of the same block with the
  -- same ranking time stay in the order in which the database returned them.
  pub sort_by_nearest_start-stable :
      (r : Rank) (stages : List ListItem)
      → select (has_rank r) (sort_by_nearest_start parse now stages) ≡ select (has_rank r) stages
  unfolding sort_by_nearest_start
  sort_by_nearest_start-stable r stages =
      rw (split_blocks_lem parse now stages no_blocks)
        (select-joined r (blocks_of rank stages) (blocks_of-IsRanked rank stages))
      ∙ of_rank-blocks_of r stages
