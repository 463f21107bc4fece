-- ===== src/Pipeline/StorePg/Table.antt =====
-- The table `ingest_stages` read as a status for each run and stage.
use ragent.Common.{
  String, ◌≡◌, refl, subst, ◌∙◌, ap, inl, inr, Bool, false, ◌&&◌, Option, none, some, List, [], ◌∷◌,
  if◌then◌else◌, str_eq, eq_iff, eq_refl, contains, arith, Bool-cases,
}
use ragent.Pipeline.StorePg.{
  Status, Row, pending, is_row, upsert, new_row, insert_pending, stages_where,
}

unfoldable pub status_of : List Row → String → String → Option Status
status_of [] r n = none
status_of (row ∷ rows) r n = if is_row r n row then some row.status else status_of rows r n

abbrev pub holds : (Status → Bool) → Option Status → Bool
holds test none = false
holds test (some status) = test status

-- The unique constraint of the table.
abbrev pub Unique : List Row → Type 0
Unique [] = Unit
Unique (row ∷ rows) = (status_of rows row.run_id row.stage ≡ none) × Unique rows

absent_everywhere :
    (rows : List Row) (test : Status → Bool) (r n : String)
    → status_of rows r n ≡ none
    → contains (stages_where r test rows) n ≡ false
unfolding stages_where status_of
absent_everywhere [] test r n h = refl
absent_everywhere (row ∷ rows) test r n h = ground (arith, absent_everywhere rows test r n)

-- Under the unique constraint, a SELECT over a run reads the status of each stage.
pub contains-stages_where :
    (rows : List Row) (test : Status → Bool) (r n : String)
    → Unique rows
    → contains (stages_where r test rows) n ≡ holds test (status_of rows r n)
unfolding stages_where status_of
contains-stages_where [] test r n h = refl
contains-stages_where (row ∷ rows) test r n (alone, h) = ground (
  arith,
  contains-stages_where rows test r n,
  eq_iff row.run_id r,
  eq_iff row.stage n,
  absent_everywhere rows test row.run_id row.stage,
)

module _ (new : Row) (change : Row → Row)
    (keeps : (row : Row)
      → ((change row).run_id ≡ row.run_id) × ((change row).stage ≡ row.stage)) where
  abbrev changed : Option Status → Option Status → Option Status
  changed none by = some new.status
  changed (some _) by = by

  -- An upsert changes the row of its key, or makes one.
  pub status_of-upsert_ne :
      (rows : List Row) (r n : String)
      → (str_eq new.run_id r && str_eq new.stage n) ≡ false
      → status_of (upsert new change rows) r n ≡ status_of rows r n
  unfolding status_of upsert
  status_of-upsert_ne [] r n h = rw h refl
  status_of-upsert_ne (row ∷ rows) r n h =
      let (run, stage) = keeps row in
      ground (
        arith,
        status_of-upsert_ne rows r n,
        eq_iff row.run_id r,
        eq_iff row.stage n,
        eq_iff row.run_id new.run_id,
        eq_iff row.stage new.stage,
        eq_iff new.run_id r,
        eq_iff new.stage n,
        eq_iff (change row).run_id r,
        eq_iff (change row).stage n,
      )

  pub Unique-upsert : (rows : List Row) → Unique rows → Unique (upsert new change rows)
  unfolding upsert status_of
  Unique-upsert [] h = (refl, tt)
  Unique-upsert (row ∷ rows) (alone, h) = elim (Bool-cases (is_row new.run_id new.stage row)) [
    | inl here ↦ let (run, stage) = keeps row in rw (here, run, stage) (alone, h)
    | inr there ↦ rw there (
      status_of-upsert_ne rows row.run_id row.stage (
            ground (
              arith,
              eq_iff row.run_id new.run_id,
              eq_iff row.stage new.stage,
              eq_iff new.run_id row.run_id,
              eq_iff new.stage row.stage,
            ))
          ∙ alone,
      Unique-upsert rows h,
    )
  ]

  -- The status of the key after an upsert that leaves a new row and a changed one alike.
  pub status_of-upsert_self :
      (status : Status) (rows : List Row)
      → new.status ≡ status
      → ((row : Row) → (change row).status ≡ status)
      → status_of (upsert new change rows) new.run_id new.stage ≡ some status
  unfolding status_of upsert
  status_of-upsert_self status [] e h = rw (eq_refl new.run_id, eq_refl new.stage) (ap some e)
  status_of-upsert_self status (row ∷ rows) e h =
      elim (Bool-cases (is_row new.run_id new.stage row)) [
        | inl here ↦ let (run, stage) = keeps row in rw (here, run, stage, here) (ap some (h row))
        | inr there ↦ rw (there, there) (status_of-upsert_self status rows e h)
      ]

pub status_of-upsert :
    (new : Row) (change : Row → Row) (status : Status) (rows : List Row) (r n : String)
    → ((row : Row) → ((change row).run_id ≡ row.run_id) × ((change row).stage ≡ row.stage))
    → new.status ≡ status
    → ((row : Row) → (change row).status ≡ status)
    → status_of (upsert new change rows) r n
      ≡ (if str_eq new.run_id r && str_eq new.stage n then some status else status_of rows r n)
status_of-upsert new change status rows r n keeps e h =
    elim (Bool-cases (str_eq new.run_id r && str_eq new.stage n)) [
      | inl here ↦
          let self = status_of-upsert_self new change keeps status rows e h in
          let run : new.run_id ≡ r = (eq_iff new.run_id r).0 (ground (arith)) in
          let stage : new.stage ≡ n = (eq_iff new.stage n).0 (ground (arith)) in
          rw here (
            subst (λ x. status_of (upsert new change rows) r x ≡ some status) stage
              (subst (λ x. status_of (upsert new change rows) x new.stage ≡ some status) run self))
      | inr there ↦ rw there (status_of-upsert_ne new change keeps rows r n there)
    ]

-- A row that is there is left alone, and any other is pending.
abbrev pub or_pending : Option Status → Option Status
or_pending none = some pending
or_pending (some status) = some status

insert_one :
    (run_id stage : String) (rows : List Row) (r n : String)
    → status_of (upsert (new_row run_id stage pending) (λ row. row) rows) r n ≡ (
        if str_eq run_id r && str_eq stage n
        then or_pending (status_of rows r n)
        else status_of rows r n)
unfolding status_of upsert
insert_one run_id stage [] r n = ground (arith)
insert_one run_id stage (row ∷ rows) r n = ground (
  arith,
  insert_one run_id stage rows r n,
  eq_iff row.run_id r,
  eq_iff row.stage n,
  eq_iff row.run_id run_id,
  eq_iff row.stage stage,
  eq_iff run_id r,
  eq_iff stage n,
)

pub status_of-insert_pending :
    (run_id : String) (stages : List String) (rows : List Row) (r n : String)
    → status_of (insert_pending run_id stages rows) r n ≡ (
        if str_eq run_id r && contains stages n
        then or_pending (status_of rows r n)
        else status_of rows r n)
unfolding insert_pending
status_of-insert_pending run_id [] rows r n = ground (arith)
status_of-insert_pending run_id (stage ∷ stages) rows r n =
    let rows' = upsert (new_row run_id stage pending) (λ row. row) rows in
    ground
      (arith, status_of-insert_pending run_id stages rows' r n, insert_one run_id stage rows r n)

pub Unique-insert_pending :
    (run_id : String) (stages : List String) (rows : List Row)
    → Unique rows
    → Unique (insert_pending run_id stages rows)
unfolding insert_pending
Unique-insert_pending run_id [] rows h = h
Unique-insert_pending run_id (stage ∷ stages) rows h =
    let new = new_row run_id stage pending in
    Unique-insert_pending run_id stages (upsert new (λ row. row) rows)
      (Unique-upsert new (λ row. row) (λ row. (refl, refl)) rows h)
