-- ===== src/Assignments/Laws.antt =====
-- What an update and a read of the table do.
use policy_assignment_system.Prelude.{
  ◌≤◌, ◌<◌, leb, ltb, none, Option, String, ◌≡◌, ◌≢◌, refl, ◌⊎◌, ◌↔◌, inl, inr, true, false,
  Bool-cases, ◌&&◌, some, List, In, In-map, In-of_map, In-keep, In-of_keep, arith, eq_iff, str_eq,
}
use policy_assignment_system.Prelude.Sorting.{In-sort, In-of_sort}
use policy_assignment_system.Dates.{Date}
use policy_assignment_system.Assignments.{
  Assignment, effective_on, find_for_employee_as_of, end_row, close,
}

-- A row in force for an employee on a day.
pub record IsCurrent (organization_id employee_id : String) (as_of : Date) (row : Assignment)
    : Type 0 where
  pub organization : row.organization_id ≡ organization_id
  pub employee : row.employee_id ≡ employee_id
  pub in_force : effective_on as_of row ≡ true

module _ (organization_id employee_id : String) (as_of : Date) (rows : List Assignment) where
  -- The read gives the rows in force for the employee on the day, and no others.
  pub find_for_employee_as_of_iff :
      (row : Assignment)
      → In row (find_for_employee_as_of organization_id employee_id as_of rows)
        ↔ (In row rows × IsCurrent organization_id employee_id as_of row)
  unfolding find_for_employee_as_of
  find_for_employee_as_of_iff row = (
    λ m.
        let (n, h) = In-of_keep _ rows (In-of_sort _ row _ m) in
        let (o, e, f) = parts h in (n, record { organization = o; employee = e; in_force = f }),
    λ (n, c). In-sort _ row _ (In-keep _ rows n (whole c.organization c.employee c.in_force)),
  )
    where
      parts :
          (str_eq row.organization_id organization_id
              && str_eq row.employee_id employee_id
              && effective_on as_of row)
            ≡ true
          → (row.organization_id ≡ organization_id)
            × (row.employee_id ≡ employee_id)
            × (effective_on as_of row ≡ true)
      parts h =
          ground
            (arith, eq_iff row.organization_id organization_id, eq_iff row.employee_id employee_id)

      whole :
          row.organization_id ≡ organization_id
          → row.employee_id ≡ employee_id
          → effective_on as_of row ≡ true
          → (str_eq row.organization_id organization_id
              && str_eq row.employee_id employee_id
              && effective_on as_of row)
            ≡ true
      whole o e f =
          ground
            (arith, eq_iff row.organization_id organization_id, eq_iff row.employee_id employee_id)

-- The row as an end on the day leaves it.
abbrev pub ended : Date → Assignment → Assignment
ended as_of row = record row { effective_to = some as_of }

module _ (organization_id id : String) (as_of : Date) where
  pub end_row-hit :
      (row : Assignment)
      → row.id ≡ id
      → row.organization_id ≡ organization_id
      → end_row organization_id id as_of row ≡ ended as_of row
  unfolding end_row
  end_row-hit row e f =
      rw ((eq_iff row.id id).1 e, (eq_iff row.organization_id organization_id).1 f) refl

  pub end_row-miss : (row : Assignment) → row.id ≢ id → end_row organization_id id as_of row ≡ row
  unfolding end_row
  end_row-miss row differ = elim (Bool-cases (str_eq row.id id)) [
    | inl same ↦ absurd (differ ((eq_iff row.id id).0 same))
    | inr other ↦ rw other refl
  ]

  pub end_row-cases :
      (row : Assignment)
      → (end_row organization_id id as_of row ≡ ended as_of row)
        ⊎ ((end_row organization_id id as_of row ≡ row)
            × ¬ ((row.id ≡ id) × (row.organization_id ≡ organization_id)))
  unfolding end_row
  end_row-cases row =
      elim (Bool-cases (str_eq row.id id && str_eq row.organization_id organization_id)) [
        | inl hit ↦ rw hit (inl refl)
        | inr miss ↦ rw miss (inr (refl, λ (e, f). refuse miss e f))
      ]
    where
      refuse :
          (str_eq row.id id && str_eq row.organization_id organization_id) ≡ false
          → row.id ≡ id
          → row.organization_id ≡ organization_id
          → ⊥
      refuse miss e f = ground (arith, eq_iff row.id id, eq_iff row.organization_id organization_id)

  pub In-close :
      (row : Assignment) (rows : List Assignment)
      → In row rows
      → In (end_row organization_id id as_of row) (close organization_id id as_of rows)
  unfolding close
  In-close row rows m = In-map (end_row organization_id id as_of) row rows m

  pub In-of_close :
      (row : Assignment) (rows : List Assignment)
      → In row (close organization_id id as_of rows)
      → (old : Assignment) × In old rows × (row ≡ end_row organization_id id as_of old)
  unfolding close
  In-of_close row rows m = In-of_map (end_row organization_id id as_of) rows m

-- What is ended on a day is not in force on it.
pub ended-out_of_force :
    (as_of : Date) (row : Assignment) → effective_on as_of (ended as_of row) ≡ false
unfolding effective_on
ended-out_of_force as_of row = ground arith

effective_on_iff :
    (as_of : Date) (row : Assignment)
    → (effective_on as_of row ≡ true)
      ↔ ((row.effective_from ≤ as_of) × ((end : Date) → row.effective_to ≡ some end → as_of < end))
unfolding effective_on
effective_on_iff as_of row = window row.effective_to
  where
    window :
        (o : Option Date)
        → ((leb row.effective_from as_of && elim o [ none ↦ true | some end ↦ ltb as_of end ])
            ≡ true)
          ↔ ((row.effective_from ≤ as_of) × ((end : Date) → o ≡ some end → as_of < end))
    window none = (λ h. (ground arith, λ end e. cc e), λ (h, _). ground arith)
    window (some t) = (
      λ h. (ground arith, λ end e. before end (ground arith) (some-injective e)),
      λ (h, k). let l = k t refl in ground arith,
    )
      where
        before : (end : Date) → as_of < t → t ≡ end → as_of < end
        before end l e = omega (arith, l, e)

        some-injective : {a b : Date} → some a ≡ some b → a ≡ b
        some-injective e = cc e

-- The read of a day gives exactly the rows of the table that are the employee's in the organization,
-- start on the day or before, and, where they have an end, end after the day.
pub find_for_employee_as_of-in_force :
    (organization_id employee_id : String) (as_of : Date) (rows : List Assignment)
    (row : Assignment)
    → In row (find_for_employee_as_of organization_id employee_id as_of rows) ↔ (
        In row rows
        × (row.organization_id ≡ organization_id)
        × (row.employee_id ≡ employee_id)
        × (row.effective_from ≤ as_of)
        × ((end : Date) → row.effective_to ≡ some end → as_of < end))
find_for_employee_as_of-in_force organization_id employee_id as_of rows row = (
  λ m.
      let (n, c) = (find_for_employee_as_of_iff organization_id employee_id as_of rows row).0 m in
      let (from, to) = (effective_on_iff as_of row).0 c.in_force in
      (n, c.organization, c.employee, from, to),
  λ (n, o, e, from, to).
      (find_for_employee_as_of_iff organization_id employee_id as_of rows row).1 (
        n,
        record {
          organization = o;
          employee = e;
          in_force = (effective_on_iff as_of row).1 (from, to);
        },
      ),
)
