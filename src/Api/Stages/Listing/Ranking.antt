-- ===== src/Api/Stages/Listing/Ranking.antt =====
-- The rank of a stage in the list sorted by start, stated by its periods alone.
use campus_internship.Prelude.{
  ◌/◌, ◌*◌, ◌≤◌, ◌<◌, ◌≡◌, refl, List, [], ◌∷◌, map, select, leb, ltb, All, Some, arith, Bool-cases,
  inl, inr, Text,
}
use campus_internship.Prelude.Selecting.{All-zip}
use campus_internship.Shared.Calendar.{Date}
use campus_internship.Api.Snapshot.{FrozenPeriod}
use campus_internship.Api.Stages.Listing.{
  ListItem, Rank, upcoming, past, no_period, minimum, maximum, rank_of, rank_of_times,
  start_of_today_utc,
}

-- `upcoming t`: of the starts that are today or later, the nearest is `t`; `past t`: all starts are
-- before today, and the latest is `t`; `no_period`: there is none
abbrev pub HasRank : Date → List Date → Rank → Type 0
HasRank today starts (upcoming t) =
    Some (λ u. (today ≤ u) × (u ≡ t)) starts × All (λ u. today ≤ u → t ≤ u) starts
HasRank today starts (past t) = Some (λ u. u ≡ t) starts × All (λ u. (u < today) × (u ≤ t)) starts
HasRank today starts no_period = starts ≡ []

minimum_bounds :
    (t : Date) (us : List Date) (m : Date)
    → minimum t us ≡ m
    → Some (λ u. u ≡ m) (t ∷ us) × All (λ u. m ≤ u) (t ∷ us)
unfolding minimum
minimum_bounds t [] m e = (inl e, (omega arith, tt))
minimum_bounds t (u ∷ us) m e = elim (Bool-cases (ltb u t)) [
  | inl b ↦
      let rest : minimum u us ≡ m = rw (← e, b) refl in ground (arith, minimum_bounds u us m rest)
  | inr b ↦
      let rest : minimum t us ≡ m = rw (← e, b) refl in ground (arith, minimum_bounds t us m rest)
]

maximum_bounds :
    (t : Date) (us : List Date) (m : Date)
    → maximum t us ≡ m
    → Some (λ u. u ≡ m) (t ∷ us) × All (λ u. u ≤ m) (t ∷ us)
unfolding maximum
maximum_bounds t [] m e = (inl e, (omega arith, tt))
maximum_bounds t (u ∷ us) m e = elim (Bool-cases (ltb t u)) [
  | inl b ↦
      let rest : maximum u us ≡ m = rw (← e, b) refl in ground (arith, maximum_bounds u us m rest)
  | inr b ↦
      let rest : maximum t us ≡ m = rw (← e, b) refl in ground (arith, maximum_bounds t us m rest)
]

module _ (today : Date) where
  Some-ahead :
      (m : Date) (ts : List Date)
      → Some (λ u. u ≡ m) (select (leb today) ts)
      → Some (λ u. (today ≤ u) × (u ≡ m)) ts
  Some-ahead m [] h = absurd h
  Some-ahead m (t ∷ ts) h = ground (arith, Some-ahead m ts)

  All-ahead :
      (m : Date) (ts : List Date)
      → All (λ u. m ≤ u) (select (leb today) ts)
      → All (λ u. today ≤ u → m ≤ u) ts
  All-ahead m [] h = tt
  All-ahead m (t ∷ ts) h = ground (arith, All-ahead m ts)

  none_ahead : (ts : List Date) → select (leb today) ts ≡ [] → All (λ u. u < today) ts
  none_ahead [] e = tt
  none_ahead (t ∷ ts) e = ground (arith, none_ahead ts)

  rank_of_times-HasRank :
      (ts later : List Date)
      → select (leb today) ts ≡ later
      → HasRank today ts (rank_of_times ts later)
  rank_of_times-HasRank [] later e = refl
  rank_of_times-HasRank (t ∷ ts) [] e =
      let bounds = maximum_bounds t ts (maximum t ts) refl in
      (bounds.0, All-zip (λ u h k. (h, k)) (t ∷ ts) (none_ahead (t ∷ ts) e) bounds.1)
  rank_of_times-HasRank (t ∷ ts) (u ∷ us) e =
      let bounds = minimum_bounds u us (minimum u us) refl in
      (
        Some-ahead (minimum u us) (t ∷ ts) (rw e bounds.0),
        All-ahead (minimum u us) (t ∷ ts) (rw e bounds.1),
      )

abbrev pub starts_of : (Text → Date) → ListItem → List Date
starts_of parse s = map (λ (p : FrozenPeriod). parse p.start_date) s.periods

-- the start of the day of an instant, in UTC
abbrev pub midnight : Date → Date
midnight now = now / 86400000 * 86400000

-- the code ranks every stage by these rules
pub rank_of-HasRank :
    (parse : Text → Date) (now : Date) (s : ListItem)
    → HasRank (midnight now) (starts_of parse s) (rank_of parse now s)
unfolding rank_of start_of_today_utc
rank_of-HasRank parse now s = rank_of_times-HasRank (midnight now) (starts_of parse s) _ refl
