-- ===== src/Api/Referents/Assignment.antt =====
-- The table of assignments as a map from student, school year, semester and kind to a referent.
use campus_internship.Prelude.{
  ◌≡◌, refl, sym, ap, ◌∙◌, false, Option, none, some, List, [], ◌∷◌, ◌++◌, Bool-cases, inl, inr,
}
use campus_internship.Api.Http.{PrismaCode, Result, ok, err, js_error}
use campus_internship.Api.Schema.{Uuid, ReferentAssignment, Db}
use campus_internship.Api.World.{World, M, ◌>>=◌, ◌>>◌, map_result, try_write, query, or_throw}
use campus_internship.Api.World.ReadOnly.{ReadOnly, read_only_rules}
use campus_internship.Api.Prisma.{Client, IsClient, find?, upserted, created}
use campus_internship.Api.Prisma.Tables.{created-ok}
use campus_internship.Api.Referents.{
  AssignReferentRequest, ReferentListItem, Tuple, tuple_eq, requested_tuple, new_assignment,
  referent_item, assign,
}
use campus_internship.Api.Referents.Table.{
  referent_of, put, OneRowEach, tuple_eq→eq, is_row, reassigned, referent_of-reassigned,
  referent_of-other, referent_of-appended, referent_of-beside, reassigned-OneRowEach,
  appended-OneRowEach,
}

module _ (c : Client) (law : IsClient c) (dto : AssignReferentRequest) where
  abbrev key : Tuple
  key = requested_tuple dto

  abbrev upsert_rows : List ReferentAssignment → Result (List ReferentAssignment)
  upsert_rows rows =
      c.upsert ReferentAssignment (is_row key dto.referent_id)
        (λ a. record a { referent_id = dto.referent_id }) (new_assignment dto) rows

  -- the database after the write, and after the reads that follow it
  abbrev after : Result (List ReferentAssignment) → Db → Db
  after (ok rows) db = record db { assignments = rows }
  after (err e) db = db

  referent_item-ReadOnly : (id : Uuid) → ReadOnly (referent_item c id)
  unfolding referent_item
  referent_item-ReadOnly id = search (read_only_rules) depth 12

  abbrev read_back : M ReferentListItem
  read_back =
      query (λ db. c.find_first ReferentAssignment (is_row key dto.referent_id) db.assignments)
      >>= λ found.
          (or_throw found (js_error "Inconsistent query result") >>= λ assignment.
          referent_item c assignment.referent_id)

  read_back-ReadOnly : ReadOnly read_back
  read_back-ReadOnly = search (read_only_rules, referent_item-ReadOnly) depth 12

  write_then-read_back :
      (w : World) (r : Result (List ReferentAssignment))
      → ((try_write (λ db. map_result (λ rows. record db { assignments = rows }) r) >> read_back)
          w).1.db
        ≡ after r w.db
  unfolding ◌>>=◌
  write_then-read_back w (ok rows) =
      read_back-ReadOnly.keeps (record w { db = record w.db { assignments = rows } })
  write_then-read_back w (err x) = refl

  assign_lem : (w : World) → (assign c dto w).1.db ≡ after (upsert_rows w.db.assignments) w.db
  unfolding assign ◌>>=◌
  assign_lem w = write_then-read_back w (upsert_rows w.db.assignments)

  -- what the write leaves, whether it finds a row or not, and whether it is refused or not
  abbrev written :
      List ReferentAssignment → Option ReferentAssignment → Result (List ReferentAssignment)
  written rows found =
      upserted (c.insert_fails ReferentAssignment) (is_row key dto.referent_id)
        (λ a. record a { referent_id = dto.referent_id }) (new_assignment dto) rows found

  created-OneRowEach :
      (code : Option PrismaCode) (rows : List ReferentAssignment) (db : Db)
      → OneRowEach db.assignments
      → OneRowEach rows
      → OneRowEach (after (created code rows) db).assignments
  created-OneRowEach none rows db h k = k
  created-OneRowEach (some code) rows db h k = h

  written-OneRowEach :
      (found : Option ReferentAssignment) (db : Db)
      → find? (is_row key dto.referent_id) db.assignments ≡ found
      → OneRowEach db.assignments
      → OneRowEach (after (written db.assignments found) db).assignments
  written-OneRowEach none db e h =
      created-OneRowEach _ _ db h
        (appended-OneRowEach key dto.referent_id db.assignments (new_assignment dto) e refl h)
  written-OneRowEach (some x) db e h =
      created-OneRowEach _ _ db h (reassigned-OneRowEach key dto.referent_id db.assignments h)

  -- Assigning a referent, whether it succeeds or fails, leaves at most one row for each student, school
  -- year, semester and kind of internship, where the table had at most one before.
  pub assign-OneRowEach :
      (w : World) → OneRowEach w.db.assignments → OneRowEach (assign c dto w).1.db.assignments
  assign-OneRowEach w h =
      let lem : upsert_rows w.db.assignments
          ≡ written w.db.assignments (find? (is_row key dto.referent_id) w.db.assignments) =
        law.upsert_lem ReferentAssignment _ _ _ w.db.assignments in
      rw (assign_lem w, lem)
        (written-OneRowEach (find? (is_row key dto.referent_id) w.db.assignments) w.db refl h)

  read_back_ok :
      (w : World) (r : Result (List ReferentAssignment)) (item : ReferentListItem)
      → ((try_write (λ db. map_result (λ rows. record db { assignments = rows }) r) >> read_back)
          w).0
        ≡ ok item
      → (rows : List ReferentAssignment) × (r ≡ ok rows)
  unfolding ◌>>=◌
  read_back_ok w (ok rows) item e = (rows, refl)
  read_back_ok w (err x) item e = cc

  put_lem :
      (before rows : List ReferentAssignment) (k : Tuple)
      → referent_of key rows ≡ some dto.referent_id
      → (tuple_eq key k ≡ false → referent_of k rows ≡ referent_of k before)
      → referent_of k rows ≡ put key dto.referent_id (λ j. referent_of j before) k
  put_lem before rows k here there = elim (Bool-cases (tuple_eq key k)) [
    | inl t ↦ rw t (ap (λ j. referent_of j rows) (sym (tuple_eq→eq key k t)) ∙ here)
    | inr f ↦ rw f (there f)
  ]

  written-put :
      (found : Option ReferentAssignment) (before rows : List ReferentAssignment) (k : Tuple)
      → find? (is_row key dto.referent_id) before ≡ found
      → written before found ≡ ok rows
      → referent_of k rows ≡ put key dto.referent_id (λ j. referent_of j before) k
  written-put none before rows k e done = rw (sym (created-ok _ _ rows done)) (
      put_lem before (before ++ new_assignment dto ∷ []) k
        (referent_of-appended key dto.referent_id before (new_assignment dto) e refl)
        (λ f. referent_of-beside key dto.referent_id k before (new_assignment dto) refl f))
  written-put (some x) before rows k e done = rw (sym (created-ok _ _ rows done)) (
      put_lem before (reassigned key dto.referent_id before) k
        (referent_of-reassigned key dto.referent_id before x e)
        (λ f. referent_of-other key dto.referent_id k before f))

  -- An assignment that succeeds changes the map from tuples to referents at the tuple of the request
  -- alone, where it puts the referent of the request; and it changes no other table, so that no
  -- request for an internship and no snapshot changes.
  pub assign-refines :
      (w : World) (item : ReferentListItem) (k : Tuple)
      → (assign c dto w).0 ≡ ok item
      → (referent_of k (assign c dto w).1.db.assignments
          ≡ put (requested_tuple dto) dto.referent_id (λ j. referent_of j w.db.assignments) k)
        × ((assign c dto w).1.db ≡ record w.db { assignments = (assign c dto w).1.db.assignments })
  unfolding assign ◌>>=◌
  assign-refines w item k done =
      let lem : upsert_rows w.db.assignments
          ≡ written w.db.assignments (find? (is_row key dto.referent_id) w.db.assignments) =
        law.upsert_lem ReferentAssignment _ _ _ w.db.assignments in
      let (rows, e) = read_back_ok w (upsert_rows w.db.assignments) item done in
      let at : (assign c dto w).1.db ≡ record w.db { assignments = rows } =
        assign_lem w ∙ ap (λ r. after r w.db) e in
      rw at (
        written-put (find? (is_row key dto.referent_id) w.db.assignments) w.db.assignments rows k
            refl (sym lem ∙ e),
        refl,
      )
