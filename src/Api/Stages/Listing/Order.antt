-- ===== src/Api/Stages/Listing/Order.antt =====
-- The order of the list: three blocks, each by its own rule, ties as the database returned them.
use campus_internship.Prelude.{◌≤◌, List, [], ◌∷◌, ◌++◌, map, All, All-append, arith, leb→le, Text}
use campus_internship.Prelude.Sorting.{
  sort_by, Ordered, Ordered-append, All-cross, All-map, Ordered-map, sort_by-All, sort_by-Ordered,
}
use campus_internship.Shared.Calendar.{Date}
use campus_internship.Api.Stages.Listing.{
  ListItem, RankedStage, Blocks, Rank, upcoming, past, no_period, rank_of, nearest_first,
  most_recent_first, sort_by_nearest_start,
}
use campus_internship.Api.Stages.Listing.Ranking.{midnight, HasRank, starts_of, rank_of-HasRank}
use campus_internship.Api.Stages.Listing.Splitting.{
  NotAfter, stage_of, no_blocks, blocks_of, IsUpcoming, IsPast, HasNoPeriod, IsRanked,
  blocks_of-IsRanked, split_blocks_lem,
}

abbrev FirstRank : Rank → Type 0
FirstRank (upcoming t) = Unit
FirstRank _ = ⊥

abbrev BegunRank : Rank → Type 0
BegunRank (past t) = Unit
BegunRank _ = ⊥

FirstRank-BegunRank : (r q : Rank) → FirstRank r → BegunRank q → NotAfter r q
FirstRank-BegunRank (upcoming t) (past u) h k = tt
FirstRank-BegunRank (upcoming t) (upcoming _) h k = elim k [ ]
FirstRank-BegunRank (upcoming t) no_period h k = elim k [ ]
FirstRank-BegunRank (past _) q h k = elim h [ ]
FirstRank-BegunRank no_period q h k = elim h [ ]

FirstRank-no_period : (r : Rank) → FirstRank r → NotAfter r no_period
FirstRank-no_period (upcoming t) h = tt
FirstRank-no_period (past _) h = elim h [ ]
FirstRank-no_period no_period h = elim h [ ]

BegunRank-no_period : (r : Rank) → BegunRank r → NotAfter r no_period
BegunRank-no_period (past t) h = tt
BegunRank-no_period (upcoming _) h = elim h [ ]
BegunRank-no_period no_period h = elim h [ ]

module _ (parse : Text → Date) (now : Date) where
  abbrev pub RankedInOrder : ListItem → ListItem → Type 0
  RankedInOrder s t = NotAfter (rank_of parse now s) (rank_of parse now t)

  abbrev Earlier : RankedStage → RankedStage → Type 0
  Earlier x y = x.ranking_start_time ≤ y.ranking_start_time

  abbrev Later : RankedStage → RankedStage → Type 0
  Later x y = y.ranking_start_time ≤ x.ranking_start_time

  upcoming-Ordered :
      (xs : List RankedStage)
      → All (IsUpcoming (rank_of parse now)) xs
      → Ordered RankedInOrder (map stage_of (sort_by nearest_first xs))
  upcoming-Ordered xs h =
      Ordered-map RankedInOrder stage_of
        (λ (x y : RankedStage) (e : IsUpcoming (rank_of parse now) x)
            (f : IsUpcoming (rank_of parse now) y) (r : Earlier x y).
          rw (e, f) r)
        (sort_by nearest_first xs) (sort_by-All nearest_first (IsUpcoming (rank_of parse now)) xs h)
        (sort_by-Ordered nearest_first Earlier
          (λ x y e. leb→le x.ranking_start_time y.ranking_start_time e) (λ x y e. ground arith)
          (λ x y z r q. omega arith) xs)

  past-Ordered :
      (xs : List RankedStage)
      → All (IsPast (rank_of parse now)) xs
      → Ordered RankedInOrder (map stage_of (sort_by most_recent_first xs))
  past-Ordered xs h =
      Ordered-map RankedInOrder stage_of
        (λ (x y : RankedStage) (e : IsPast (rank_of parse now) x) (f : IsPast (rank_of parse now) y)
            (r : Later x y).
          rw (e, f) r)
        (sort_by most_recent_first xs)
        (sort_by-All most_recent_first (IsPast (rank_of parse now)) xs h)
        (sort_by-Ordered most_recent_first Later
          (λ x y e. leb→le y.ranking_start_time x.ranking_start_time e) (λ x y e. ground arith)
          (λ x y z r q. omega arith) xs)

  without_period-Ordered :
      (xs : List ListItem) → All (HasNoPeriod (rank_of parse now)) xs → Ordered RankedInOrder xs
  without_period-Ordered [] h = tt
  without_period-Ordered (x ∷ xs) h = (row xs h.1, without_period-Ordered xs h.1)
    where
      row :
          (zs : List ListItem) → All (HasNoPeriod (rank_of parse now)) zs → All (RankedInOrder x) zs
      row [] m = tt
      row (z ∷ zs) m = (rw (h.0, m.0) tt, row zs m.1)

  -- the three blocks, sorted, one after the other
  abbrev pub joined : Blocks → List ListItem
  joined b =
      map stage_of (sort_by nearest_first b.upcoming_stages)
      ++ (map stage_of (sort_by most_recent_first b.past_stages) ++ b.stages_without_period)

  abbrev ComesFirst : ListItem → Type 0
  ComesFirst s = FirstRank (rank_of parse now s)

  abbrev HasBegun : ListItem → Type 0
  HasBegun s = BegunRank (rank_of parse now s)

  All-across :
      (us vs ws : List ListItem)
      → All (λ x. All (RankedInOrder x) vs) us
      → All (λ x. All (RankedInOrder x) ws) us
      → All (λ x. All (RankedInOrder x) (vs ++ ws)) us
  All-across [] vs ws h k = tt
  All-across (x ∷ us) vs ws h k =
      (All-append (RankedInOrder x) vs ws h.0 k.0, All-across us vs ws h.1 k.1)

  joined-Ordered : (b : Blocks) → IsRanked (rank_of parse now) b → Ordered RankedInOrder (joined b)
  joined-Ordered b h =
      let rank : ListItem → Rank = rank_of parse now in
      let ups : List ListItem = map stage_of (sort_by nearest_first b.upcoming_stages) in
      let downs : List ListItem = map stage_of (sort_by most_recent_first b.past_stages) in
      let u : All ComesFirst ups =
        All-map ComesFirst stage_of (λ x e. rw e tt) (sort_by nearest_first b.upcoming_stages)
          (sort_by-All nearest_first (IsUpcoming rank) b.upcoming_stages h.0) in
      let p : All HasBegun downs =
        All-map HasBegun stage_of (λ x e. rw e tt) (sort_by most_recent_first b.past_stages)
          (sort_by-All most_recent_first (IsPast rank) b.past_stages h.1.0) in
      let n : All (HasNoPeriod rank) b.stages_without_period = h.1.1 in
      Ordered-append RankedInOrder ups (downs ++ b.stages_without_period)
        (upcoming-Ordered b.upcoming_stages h.0)
        (Ordered-append RankedInOrder downs b.stages_without_period
          (past-Ordered b.past_stages h.1.0) (without_period-Ordered b.stages_without_period n)
          (All-cross RankedInOrder (λ x y e f. rw f (BegunRank-no_period (rank x) e)) downs
            b.stages_without_period p n))
        (All-across ups downs b.stages_without_period
          (All-cross RankedInOrder (λ x y e f. FirstRank-BegunRank (rank x) (rank y) e f) ups downs
            u p)
          (All-cross RankedInOrder (λ x y e f. rw f (FirstRank-no_period (rank x) e)) ups
            b.stages_without_period u n))

  -- what a stage comes before, by the starts of its periods and of the other's
  abbrev pub InOrder : ListItem → ListItem → Type 0
  InOrder s t =
      (r q : Rank) × (HasRank (midnight now) (starts_of parse s) r
        × (HasRank (midnight now) (starts_of parse t) q × NotAfter r q))

  row-InOrder : (s : ListItem) (ts : List ListItem) → All (RankedInOrder s) ts → All (InOrder s) ts
  row-InOrder s [] h = tt
  row-InOrder s (t ∷ ts) h = (
    (
      rank_of parse now s,
      rank_of parse now t,
      (rank_of-HasRank parse now s, (rank_of-HasRank parse now t, h.0)),
    ),
    row-InOrder s ts h.1,
  )

  list-InOrder : (ss : List ListItem) → Ordered RankedInOrder ss → Ordered InOrder ss
  list-InOrder [] h = tt
  list-InOrder (s ∷ ss) h = (row-InOrder s ss h.0, list-InOrder ss h.1)

  -- The list sorted by start: first the stages with a period that starts today or later, the nearest
  -- such start first, then those whose periods all start before today, the latest start first, and
  -- those without a period at the end; each entry is in this order with every later one.
  pub sort_by_nearest_start-Ordered :
      (stages : List ListItem) → Ordered InOrder (sort_by_nearest_start parse now stages)
  unfolding sort_by_nearest_start
  sort_by_nearest_start-Ordered stages = rw (split_blocks_lem parse now stages no_blocks) (
      list-InOrder (joined (blocks_of (rank_of parse now) stages)) (
        joined-Ordered (blocks_of (rank_of parse now) stages)
          (blocks_of-IsRanked (rank_of parse now) stages)))
