-- ===== src/Api/Stages/Queue/Counts.antt =====
-- The number of other live requests that the queue shows.
use campus_internship.Prelude.{
  ℕ, ◌≡◌, ◌==◌, refl, ap, ◌∙◌, Bool, true, false, not, ◌&&◌, any, Option, none, some, List, [], ◌∷◌,
  map, select, length, All, arith, Bool-cases, inl, inr, Text,
}
use campus_internship.Prelude.Sorting.{All-weaken, select_cong}
use campus_internship.Prelude.Selecting.{
  All-everywhere, All-zip, select-select, none_of, none_of_back, All-into, All-select, All-unselect,
  any_self,
}
use campus_internship.Api.Schema.{Uuid, Stage, Db}
use campus_internship.Api.Prisma.{Client, IsClient}
use campus_internship.Api.Referents.{Tuple, tuple_eq}
use campus_internship.Api.Referents.Table.{tuple_eq→eq}
use campus_internship.Api.Stages.Queue.{
  tuple_of_stage, tuple_key, map_get, is_live, is_pending, GroupBy, queued, in_queue,
  live_stage_counts, live_count,
}
use campus_internship.Api.Stages.Queue.Keys.{has_bar, tuple_key_iff}

-- the rows of a tuple
abbrev pub of_tuple : Tuple → Stage → Bool
of_tuple k s = tuple_eq (tuple_of_stage s) k

abbrev pub count_of : Tuple → List Stage → ℕ
count_of k rows = length (select (of_tuple k) rows)

-- the live requests of a tuple
abbrev pub live_of : Tuple → List Stage → ℕ
live_of k rows = length (select (λ s. is_live s && of_tuple k s) rows)

-- The documented behaviour of `groupBy` with `_count`: each group counts the rows of its tuple, and
-- each row has a group.
pub record IsGroupBy (group_by : GroupBy) : Type 0 where
  pub counts :
      (rows : List Stage) → All (λ (g : Tuple × ℕ). g.1 ≡ count_of g.0 rows) (group_by rows)
  pub covers :
      (rows : List Stage)
      → All
          (λ s. any (λ (g : Tuple × ℕ). tuple_eq g.0 (tuple_of_stage s)) (group_by rows) ≡ true)
          rows

abbrev is_count : Option ℕ → ℕ → Bool
is_count none n = false
is_count (some m) n = m == n

is_count→eq : (o : Option ℕ) (n : ℕ) → is_count o n ≡ true → o ≡ some n
is_count→eq none n e = cc
is_count→eq (some m) n e = let same : m ≡ n = ground arith in ap some same

is_count_refl : (o : Option ℕ) (n : ℕ) → o ≡ some n → is_count o n ≡ true
is_count_refl none n e = cc
is_count_refl (some m) n e = let same : m ≡ n = cc in ground arith

module _ (show_id : Uuid → Text) (no_bar : (id : Uuid) → has_bar (show_id id) ≡ false)
    (show_eq : (i j : Uuid) → show_id i ≡ show_id j → i ≡ j) where
  abbrev entries : List (Tuple × ℕ) → List (Text × ℕ)
  entries groups = map (λ (g : Tuple × ℕ). (tuple_key show_id g.0, g.1)) groups

  abbrev in_groups : Tuple → List (Tuple × ℕ) → Bool
  in_groups k groups = any (λ (g : Tuple × ℕ). tuple_eq g.0 k) groups

  map_get-missing :
      (k : Tuple) (groups : List (Tuple × ℕ))
      → in_groups k groups ≡ false
      → map_get (tuple_key show_id k) (entries groups) ≡ none
  unfolding map_get
  map_get-missing k [] e = refl
  map_get-missing k (g ∷ groups) e =
      let miss : tuple_eq g.0 k ≡ false = ground arith in
      let rest : in_groups k groups ≡ false = ground arith in
      rw (map_get-missing k groups rest, tuple_key_iff show_id no_bar show_eq g.0 k, miss)

  -- a lookup finds the number of its tuple, where all groups have the right number
  map_get-group :
      (k : Tuple) (n : Tuple → ℕ) (groups : List (Tuple × ℕ))
      → All (λ (g : Tuple × ℕ). g.1 ≡ n g.0) groups
      → in_groups k groups ≡ true
      → map_get (tuple_key show_id k) (entries groups) ≡ some (n k)
  unfolding map_get
  map_get-group k n [] h e = cc
  map_get-group k n (g ∷ groups) h e = elim (Bool-cases (in_groups k groups)) [
    | inl t ↦ rw (map_get-group k n groups h.1 t)
    | inr f ↦
        let here : tuple_eq g.0 k ≡ true = ground arith in
        let same : g.0 ≡ k = tuple_eq→eq g.0 k here in
        rw (map_get-missing k groups f, tuple_key_iff show_id no_bar show_eq g.0 k, here)
          (ap some (h.0 ∙ ap n same))
  ]

  module _ (c : Client) (law : IsClient c) (group_by : GroupBy) (groups_law : IsGroupBy group_by)
      (order_keeps : (A : Type 0) (r : A → A → Bool) (rows : List A) (p : A → Bool)
        → any p (c.order_by A r rows) ≡ any p rows) where
    abbrev group_rows : Db → List Stage
    group_rows db = select (λ s. in_queue c group_by show_id db s.student_id && is_live s) db.stages

    in_queue-rows :
        (db : Db) (id : Uuid)
        → in_queue c group_by show_id db id
          ≡ any (λ (t : Stage). t.student_id == id) (select is_pending db.stages)
    unfolding queued
    in_queue-rows db id =
        order_keeps Stage _ (c.find_many Stage is_pending db.stages) _
        ∙ ap (any (λ (t : Stage). t.student_id == id))
            (law.find_many_lem Stage is_pending db.stages)

    -- a pending request is among the rows that are grouped
    pending-grouped :
        (db : Db)
        → All
            (λ s.
              is_pending s ≡ true
              → (in_queue c group_by show_id db s.student_id && is_live s) ≡ true)
            db.stages
    pending-grouped db =
        All-weaken (λ s h t. let q = in_queue-rows db s.student_id ∙ h t in ground (arith, q))
          db.stages
          (All-unselect _ is_pending db.stages (
            any_self (λ (t s : Stage). t.student_id == s.student_id) (λ s. ground arith)
              (select is_pending db.stages)))

    groups_of : (db : Db) → live_stage_counts c group_by show_id db ≡ group_by (group_rows db)
    unfolding live_stage_counts
    groups_of db = ap group_by (law.find_many_lem Stage _ db.stages)

    counted :
        (db : Db) (s : Stage)
        → in_groups (tuple_of_stage s) (group_by (group_rows db)) ≡ true
        → live_count c group_by show_id db s ≡ some (count_of (tuple_of_stage s) (group_rows db))
    unfolding live_count
    counted db s h =
        ap (λ groups. map_get (tuple_key show_id (tuple_of_stage s)) (entries groups))
          (groups_of db)
        ∙ map_get-group (tuple_of_stage s) (λ k. count_of k (group_rows db))
            (group_by (group_rows db)) (groups_law.counts (group_rows db)) h

    same_test :
        (db : Db) (s : Stage)
        → in_queue c group_by show_id db s.student_id ≡ true
        → (r : Stage)
        → ((in_queue c group_by show_id db r.student_id && is_live r)
            && of_tuple (tuple_of_stage s) r)
          ≡ (is_live r && of_tuple (tuple_of_stage s) r)
    same_test db s h r = elim (Bool-cases (of_tuple (tuple_of_stage s) r)) [
      | inl t ↦
          let owner : r.student_id ≡ s.student_id = ground arith in
          let queued : in_queue c group_by show_id db r.student_id ≡ true =
            ap (in_queue c group_by show_id db) owner ∙ h in
          ground (arith, queued)
      | inr f ↦ ground arith
    ]

    -- all the live rows of the tuple of a request in the queue are grouped
    same_count :
        (db : Db) (s : Stage)
        → in_queue c group_by show_id db s.student_id ≡ true
        → count_of (tuple_of_stage s) (group_rows db) ≡ live_of (tuple_of_stage s) db.stages
    same_count db s h = ap length (
        select-select (of_tuple (tuple_of_stage s)) _ db.stages
        ∙ select_cong _ _ db.stages (All-everywhere (same_test db s h) db.stages))

    rows_counted :
        (db : Db)
        → All
            (λ s.
              is_pending s ≡ true
              → live_count c group_by show_id db s ≡ some (live_of (tuple_of_stage s) db.stages))
            db.stages
    rows_counted db =
        All-zip
          (λ s grouped covered t.
            counted db s (covered t) ∙ ap some (same_count db s (ground (arith, grouped t))))
          db.stages (pending-grouped db)
          (All-unselect _ is_pending db.stages (
            All-select _ is_pending (λ s. in_queue c group_by show_id db s.student_id && is_live s)
              db.stages (pending-grouped db) (groups_law.covers (group_rows db))))

    -- Each request of the admin's queue finds its own group, whose number is that of the live requests with
    -- the same student, school year, semester and kind, so that no lookup misses; where the text of an
    -- id has no separator and is that of no other id, the database groups rows as documented, and
    -- ordering rows neither adds nor drops any.
    pub live_count-queued :
        (db : Db)
        → All
            (λ s. live_count c group_by show_id db s ≡ some (live_of (tuple_of_stage s) db.stages))
            (queued c group_by show_id db)
    unfolding queued
    live_count-queued db =
        let test : Stage → Bool = λ s.
          is_count (live_count c group_by show_id db s) (live_of (tuple_of_stage s) db.stages) in
        let rows : All (λ s. test s ≡ true) (select is_pending db.stages) =
          All-weaken (λ s e. is_count_refl _ _ e) (select is_pending db.stages)
            (All-into _ is_pending db.stages (rows_counted db)) in
        All-weaken (λ s e. is_count→eq _ _ e) (queued c group_by show_id db)
          (none_of_back test (queued c group_by show_id db) (
            order_keeps Stage _ (c.find_many Stage is_pending db.stages) (λ s. not (test s))
            ∙ ap (any (λ s. not (test s))) (law.find_many_lem Stage is_pending db.stages)
            ∙ none_of test (select is_pending db.stages) rows))
