-- ===== src/Reconcile/History.antt =====
-- A run never deletes a row: it ends some and adds others.
use policy_assignment_system.Prelude.{
  String, ◌≡◌, ◌≢◌, refl, sym, ap, ◌∙◌, subst, ◌⊎◌, inl, inr, true, false, not, Bool-cases, Option,
  none, some, List, In, In-of_keep, In-map, In-of_map, In-keep, includes, includes_iff, map, arith,
}
use policy_assignment_system.Dates.{Date}
use policy_assignment_system.Engine.{ResolutionResult}
use policy_assignment_system.Assignments.{Assignment, find_for_employee_as_of}
use policy_assignment_system.Assignments.Laws.{IsCurrent, find_for_employee_as_of_iff, ended}
use policy_assignment_system.Reconcile.{
  Store, assignment_key, current_key, is_desired, close_all, log_run, materialize,
}
use policy_assignment_system.Reconcile.Writes.{
  close_all-keeps, close_all-ends, close_all-from, inserted_all-keeps, inserted_all-from,
}
use policy_assignment_system.Reconcile.Refusals.{completed, materialize-cases}
use policy_assignment_system.Reconcile.Current.{Keyed, to_remove, to_create}

-- In force on the day, for the employee, without a winner of its key.
abbrev pub IsObsolete : String → String → Date → ResolutionResult → Assignment → Type 0
IsObsolete organization_id employee_id as_of resolution row =
    IsCurrent organization_id employee_id as_of row
    × ¬ In (current_key row) (map assignment_key resolution.winners)

-- What a row of a table may be after a run.
abbrev pub IsTraced : String → String → Date → List Assignment → Assignment → Type 0
IsTraced organization_id employee_id as_of before row =
    In row before
    ⊎ ((old : Assignment) × In old before × (row ≡ ended as_of old))
    ⊎ ((row.organization_id ≡ organization_id)
        × (row.employee_id ≡ employee_id)
        × (row.effective_from ≡ as_of)
        × (row.effective_to ≡ none))

module _ (new_id : List Assignment → String) (organization_id : String) (actor_id : Option String)
    (employee_id : String) (resolution : ResolutionResult) (as_of evaluated_at : Date)
    (store : Store) where
  -- The table that the run leaves; a run that is rolled back leaves the one it found.
  abbrev pub table_after : List Assignment
  table_after =
      elim (materialize new_id organization_id actor_id employee_id resolution as_of evaluated_at
        store) [ none ↦ store.assignments | some (after, _) ↦ after.assignments ]

  abbrev table_written : List Assignment
  table_written =
      (completed new_id organization_id actor_id employee_id resolution as_of evaluated_at
        store).0.assignments

  table_after-cases : (table_after ≡ store.assignments) ⊎ (table_after ≡ table_written)
  table_after-cases =
      elim (materialize-cases new_id organization_id actor_id employee_id resolution as_of
        evaluated_at store) [
          | inl (e, _) ↦ inl (rw (table_after, e) refl)
          | inr e ↦ inr (rw (table_after, e) refl)
        ]

  removing : List Assignment
  removing =
      to_remove new_id organization_id actor_id employee_id resolution.winners as_of
        store.assignments

  In-removing :
      (row : Assignment)
      → In row removing
      → In row store.assignments × IsObsolete organization_id employee_id as_of resolution row
  unfolding removing
  In-removing row m =
      let (n, unwanted) =
        In-of_keep _ (find_for_employee_as_of organization_id employee_id as_of store.assignments)
          m in
      let (k, c) =
        (find_for_employee_as_of_iff organization_id employee_id as_of store.assignments row).0 n in
      (
        k,
        (
          c,
          λ wanted.
              clash unwanted
                ((includes_iff (map assignment_key resolution.winners) (current_key row)).1 wanted),
        ),
      )
    where
      clash :
          not (is_desired resolution.winners row) ≡ true
          → is_desired resolution.winners row ≡ true
          → ⊥
      clash h k = ground arith

  removing-In :
      (row : Assignment)
      → In row store.assignments
      → IsObsolete organization_id employee_id as_of resolution row
      → In row removing
  unfolding removing
  removing-In row m (c, unwanted) =
      In-keep (λ r. not (is_desired resolution.winners r))
        (find_for_employee_as_of organization_id employee_id as_of store.assignments)
        ((find_for_employee_as_of_iff organization_id employee_id as_of store.assignments row).1
          (m, c))
        (refused (Bool-cases (is_desired resolution.winners row)))
    where
      refused :
          (is_desired resolution.winners row ≡ true) ⊎ (is_desired resolution.winners row ≡ false)
          → not (is_desired resolution.winners row) ≡ true
      refused (inl wanted) = absurd (
          unwanted
            ((includes_iff (map assignment_key resolution.winners) (current_key row)).0 wanted))
      refused (inr h) = ap not h

  abbrev table_closed : List Assignment
  table_closed = (close_all organization_id actor_id employee_id as_of removing store).assignments

  table_closed-In : (row : Assignment) → In row table_closed → In row table_written
  unfolding log_run removing
  table_closed-In row m =
      inserted_all-keeps organization_id actor_id employee_id as_of new_id row
        (to_create new_id organization_id actor_id employee_id resolution.winners as_of
          store.assignments)
        _ m

  written_keeps_history :
      Keyed store.assignments
      → (row : Assignment) → In row store.assignments
      → In row table_written
        ⊎ (IsObsolete organization_id employee_id as_of resolution row
            × In (ended as_of row) table_written)
  written_keeps_history keyed row m =
      elim (Bool-cases (includes (map (λ r. r.id) removing) row.id)) [
        | inl named ↦
            let (r, n, e) =
              In-of_map (λ r. r.id) removing
                ((includes_iff (map (λ r. r.id) removing) row.id).0 named) in
            let (k, gone) = In-removing r n in
            inr (
              subst (IsObsolete organization_id employee_id as_of resolution)
                  (sym (keyed row r m k e)) gone,
              table_closed-In (ended as_of row) (
                  close_all-ends organization_id actor_id employee_id as_of row removing store
                    (r, n, e, ap (λ x. x.organization_id) (keyed row r m k e) ∙ gone.0.organization)
                    m),
            )
        | inr unnamed ↦ inl (
            table_closed-In row (
              close_all-keeps organization_id actor_id employee_id as_of row removing store
                (apart unnamed) m))
      ]
    where
      apart :
          includes (map (λ r. r.id) removing) row.id ≡ false
          → (r : Assignment) → In r removing
          → row.id ≢ r.id
      apart unnamed r n same =
          let named = (includes_iff (map (λ r. r.id) removing) row.id).1 (
            subst (λ x. In x (map (λ r. r.id) removing)) (sym same)
              (In-map (λ r. r.id) r removing n)) in
          cc (unnamed, named)

  written-IsTraced :
      (row : Assignment)
      → In row table_written
      → IsTraced organization_id employee_id as_of store.assignments row
  unfolding log_run
  written-IsTraced row m =
      elim (inserted_all-from organization_id actor_id employee_id as_of new_id row
        (to_create new_id organization_id actor_id employee_id resolution.winners as_of
          store.assignments)
        _ m) [
          | inl n ↦
              elim (close_all-from organization_id actor_id employee_id as_of row
                (to_remove new_id organization_id actor_id employee_id resolution.winners as_of
                  store.assignments)
                store n) [ inl (k, _) ↦ inl k | inr old ↦ inr (inl old) ]
          | inr (_, _, made) ↦
              inr (inr (made.organization, made.employee, made.start, made.open_ended))
        ]

  -- With ids as keys, a row of the table is still in it after a run, as it was; or it was in force
  -- for the employee with a key that no winner has, and is there with its end on the day.
  pub materialize_keeps_history :
      Keyed store.assignments
      → (row : Assignment) → In row store.assignments
      → In row table_after
        ⊎ (IsObsolete organization_id employee_id as_of resolution row
            × In (ended as_of row) table_after)
  materialize_keeps_history keyed row m = elim table_after-cases [
    | inl e ↦ inl (subst (In row) (sym e) m)
    | inr e ↦ rw e (written_keeps_history keyed row m)
  ]

  -- Every row after a run was in the table before it, or was and got the day as its end, or is a row
  -- of the employee that starts on the day and has no end.
  pub materialize-IsTraced :
      (row : Assignment)
      → In row table_after
      → IsTraced organization_id employee_id as_of store.assignments row
  materialize-IsTraced row m = elim table_after-cases [
    | inl e ↦ inl (rw e at m)
    | inr e ↦ written-IsTraced row (rw e at m)
  ]
