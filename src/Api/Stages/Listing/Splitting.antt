-- ===== src/Api/Stages/Listing/Splitting.antt =====
-- The three blocks of the list sorted by start, and what the loop puts into them.
use campus_internship.Prelude.{
  ◌≤◌, ◌==◌, ◌≡◌, refl, ap, ◌∙◌, Bool, true, false, List, [], ◌∷◌, ◌++◌, All, Text,
}
use mathlib.Core.List.{append_assoc, append-nil}
use campus_internship.Shared.Calendar.{Date}
use campus_internship.Api.Stages.Listing.{
  ListItem, RankedStage, Blocks, Rank, upcoming, past, no_period, rank_of, place, split_blocks,
}

-- what may come before what: upcoming stages by their nearest start, then past ones by their latest
-- start, the most recent first, then stages without a period
abbrev pub NotAfter : Rank → Rank → Type 0
NotAfter (upcoming t) (upcoming u) = t ≤ u
NotAfter (upcoming t) _ = Unit
NotAfter (past t) (past u) = u ≤ t
NotAfter (past t) no_period = Unit
NotAfter no_period no_period = Unit
NotAfter _ _ = ⊥

abbrev pub rank_eq : Rank → Rank → Bool
rank_eq (upcoming t) (upcoming u) = t == u
rank_eq (past t) (past u) = t == u
rank_eq no_period no_period = true
rank_eq _ _ = false

abbrev pub stage_of : RankedStage → ListItem
stage_of r = r.stage

-- a stage put before the block of its rank
abbrev pub with_rank : Rank → ListItem → Blocks → Blocks
with_rank (upcoming t) s b = record b {
  upcoming_stages = record { stage = s; ranking_start_time = t } ∷ b.upcoming_stages;
}
with_rank (past t) s b = record b {
  past_stages = record { stage = s; ranking_start_time = t } ∷ b.past_stages;
}
with_rank no_period s b = record b { stages_without_period = s ∷ b.stages_without_period }

abbrev pub no_blocks : Blocks
no_blocks = record { upcoming_stages = []; past_stages = []; stages_without_period = [] }

abbrev pub append_blocks : Blocks → Blocks → Blocks
append_blocks b d = record {
  upcoming_stages = b.upcoming_stages ++ d.upcoming_stages;
  past_stages = b.past_stages ++ d.past_stages;
  stages_without_period = b.stages_without_period ++ d.stages_without_period;
}

module _ (rank : ListItem → Rank) where
  -- the stages of each block, in the order of the list
  unfoldable pub blocks_of : List ListItem → Blocks
  blocks_of [] = no_blocks
  blocks_of (s ∷ ss) = with_rank (rank s) s (blocks_of ss)

  abbrev pub IsUpcoming : RankedStage → Type 0
  IsUpcoming r = rank r.stage ≡ upcoming r.ranking_start_time

  abbrev pub IsPast : RankedStage → Type 0
  IsPast r = rank r.stage ≡ past r.ranking_start_time

  abbrev pub HasNoPeriod : ListItem → Type 0
  HasNoPeriod s = rank s ≡ no_period

  -- each block holds stages of its rank
  abbrev pub IsRanked : Blocks → Type 0
  IsRanked b =
      All IsUpcoming b.upcoming_stages
      × (All IsPast b.past_stages × All HasNoPeriod b.stages_without_period)

  with_rank-IsRanked :
      (r : Rank) (s : ListItem) (b : Blocks) → rank s ≡ r → IsRanked b → IsRanked (with_rank r s b)
  with_rank-IsRanked (upcoming t) s b e h = ((e, h.0), h.1)
  with_rank-IsRanked (past t) s b e h = (h.0, ((e, h.1.0), h.1.1))
  with_rank-IsRanked no_period s b e h = (h.0, (h.1.0, (e, h.1.1)))

  pub blocks_of-IsRanked : (ss : List ListItem) → IsRanked (blocks_of ss)
  unfolding blocks_of
  blocks_of-IsRanked [] = (tt, (tt, tt))
  blocks_of-IsRanked (s ∷ ss) =
      with_rank-IsRanked (rank s) s (blocks_of ss) refl (blocks_of-IsRanked ss)

module _ (parse : Text → Date) (now : Date) where
  append-place :
      (r : Rank) (s : ListItem) (b d : Blocks)
      → append_blocks (place parse now r s b) d ≡ append_blocks b (with_rank r s d)
  append-place (upcoming t) s b d =
      ap (λ u. record (append_blocks b d) { upcoming_stages = u })
        (append_assoc b.upcoming_stages (record { stage = s; ranking_start_time = t } ∷ [])
          d.upcoming_stages)
  append-place (past t) s b d =
      ap (λ u. record (append_blocks b d) { past_stages = u })
        (append_assoc b.past_stages (record { stage = s; ranking_start_time = t } ∷ [])
          d.past_stages)
  append-place no_period s b d =
      ap (λ u. record (append_blocks b d) { stages_without_period = u })
        (append_assoc b.stages_without_period (s ∷ []) d.stages_without_period)

  -- the loop separates the stages by rank
  pub split_blocks_lem :
      (ss : List ListItem) (b : Blocks)
      → split_blocks parse now ss b ≡ append_blocks b (blocks_of (rank_of parse now) ss)
  unfolding split_blocks blocks_of
  split_blocks_lem [] b =
      rw
        (append-nil b.upcoming_stages, append-nil b.past_stages, append-nil b.stages_without_period)
  split_blocks_lem (s ∷ ss) b =
      split_blocks_lem ss (place parse now (rank_of parse now s) s b)
      ∙ append-place (rank_of parse now s) s b (blocks_of (rank_of parse now) ss)
