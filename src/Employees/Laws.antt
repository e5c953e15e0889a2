-- ===== src/Employees/Laws.antt =====
-- apps/api/src/services/employee.ts: create, the update and terminate each keep every flag right.
use policy_assignment_system.Prelude.{
  String, ◌≡◌, ◌≢◌, refl, sym, ap, ◌∙◌, subst, ◌⊎◌, inl, inr, true, false, Bool-cases, Option-cases,
  Option, none, some, List, [], ◌∷◌, ltb, In, arith, eq_iff, str_eq-differ,
}
use policy_assignment_system.Dates.{Date}
use policy_assignment_system.Rules.Writes.{eq_text}
use policy_assignment_system.Rules.Requests.{or_else}
use policy_assignment_system.FanOut.{distinct}
use policy_assignment_system.FanOut.Laws.{In-distinct}
use policy_assignment_system.Employees.{
  Employee, is_active, find_employee, reports_to, count_direct_reports,
}
use policy_assignment_system.Employees.Service.{
  UpdateEmployeeRecord, EmployeeStore, EmployeeEnv, EmployeeOutcome, failed, done, present,
  manager_refusal,
}
use policy_assignment_system.Employees.Requests.{
  CreateEmployeeInput, has_email, refusal_of, new_employee, insert_employee, create_employee,
  patched, update_employee, moved_to, takes_email, record_update, apply_update,
}
use policy_assignment_system.Employees.Termination.{ended_row, record_termination, terminate}
use policy_assignment_system.Employees.Flags.{IsConsistent, IsConsistentBut, find_employee_sound}
use policy_assignment_system.Employees.Moves.{changed-IsConsistentBut, created-IsConsistentBut}
use policy_assignment_system.Employees.Sync.{sync_each-IsConsistent}

-- What an outcome leaves is consistent.
abbrev pub Leaves : EmployeeOutcome → Type 0
Leaves (failed error) = Unit
Leaves (done row store) = IsConsistent store.employees

-- A new employee's id is nobody's, and nobody's manager's.
abbrev pub IsFresh : EmployeeEnv → EmployeeStore → Type 0
IsFresh env store =
    (r : Employee)
    → In r store.employees
    → (r.id ≢ env.employee_id) × (r.manager_id ≢ some env.employee_id)

In-present : (id : String) (ids : List (Option String)) → In (some id) ids → In id (present ids)
In-present id (none ∷ ids) (inl e) = cc e
In-present id (none ∷ ids) (inr m) = In-present id ids m
In-present id (some x ∷ ids) (inl e) = inl (cc e)
In-present id (some x ∷ ids) (inr m) = inr (In-present id ids m)
In-present id [] m = elim m [ ]

-- A manager of those given is looked at.
In-looked_at :
    (id : String) (ids : List (Option String)) → In (some id) ids → In id (distinct (present ids))
In-looked_at id ids m = In-distinct id (present ids) (In-present id ids m)

consistent-but :
    (organization_id : String) (rows : List Employee)
    → IsConsistent rows
    → IsConsistentBut organization_id [] rows
consistent-but organization_id rows ok = record {
  keyed = ok.keyed;
  flags = λ row m. inr (ok.flags row m);
}

but-none :
    (organization_id : String) (rows : List Employee)
    → IsConsistentBut organization_id [] rows
    → IsConsistent rows
but-none organization_id rows ok = record {
  keyed = ok.keyed;
  flags =
      λ row m. elim (ok.flags row m) [ inl (_, nowhere) ↦ elim nowhere [ ] | inr right ↦ right ];
}

-- A manager who is not looked at has the same reports as before.
reports_to-unlisted :
    (manager : Option String) (m : String) (ids : List (Option String))
    → In manager ids
    → ¬ In m (distinct (present ids))
    → reports_to manager m ≡ false
reports_to-unlisted none m ids h unlisted = refl
reports_to-unlisted (some s) m ids h unlisted =
    str_eq-differ s m
      (λ e. unlisted (subst (λ x. In x (distinct (present ids))) e (In-looked_at s ids h)))

eq_text_sound : (a b : Option String) → eq_text a b ≡ true → a ≡ b
eq_text_sound none none h = refl
eq_text_sound (some s) (some t) h = ap (λ x. some x) ((eq_iff s t).0 h)
eq_text_sound none (some t) h = cc h
eq_text_sound (some s) none h = cc h

-- A patch leaves the manager, or moves the employee to another.
pub moved_to-cases :
    (patch : UpdateEmployeeRecord) (before : Employee)
    → ((moved_to patch before ≡ none)
        × (or_else patch.manager_id before.manager_id ≡ before.manager_id))
      ⊎ ((next : Option String) × (moved_to patch before ≡ some next)
          × (or_else patch.manager_id before.manager_id ≡ next))
moved_to-cases patch before = by_patch patch.manager_id refl
  where
    by_patch :
        (given : Option (Option String))
        → patch.manager_id ≡ given
        → ((moved_to patch before ≡ none)
            × (or_else patch.manager_id before.manager_id ≡ before.manager_id))
          ⊎ ((next : Option String) × (moved_to patch before ≡ some next)
              × (or_else patch.manager_id before.manager_id ≡ next))
    by_patch none e = inl (rw (moved_to, e) refl, rw e refl)
    by_patch (some next) e = elim (Bool-cases (eq_text next before.manager_id)) [
      | inl same ↦
          inl (rw (moved_to, e, same) refl, rw e (eq_text_sound next before.manager_id same))
      | inr other ↦ inr (next, rw (moved_to, e, other) refl, rw e refl)
    ]

module _ (env : EmployeeEnv) (organization_id actor_id : String) (store : EmployeeStore)
    (ok : IsConsistent store.employees) where
  refused_self :
      (input : CreateEmployeeInput)
      → IsFresh env store
      → refusal_of organization_id none input.manager_id store.employees ≡ none
      → input.manager_id ≢ some env.employee_id
  unfolding manager_refusal
  refused_self input fresh accepted e =
      elim (Option-cases (find_employee organization_id env.employee_id store.employees)) [
        | inl nobody ↦ cc (rw (e, nobody) at accepted)
        | inr (row, found) ↦
            let (m, same, _) =
              find_employee_sound organization_id env.employee_id store.employees found in
            absurd ((fresh row m).0 same)
      ]

  pub create_employee-Leaves :
      IsFresh env store
      → (input : CreateEmployeeInput)
      → Leaves (create_employee env organization_id actor_id input store)
  unfolding create_employee insert_employee
  create_employee-Leaves fresh input =
      elim (Bool-cases (has_email organization_id input.email store.employees)) [
        | inl taken ↦ rw (Leaves, create_employee, taken) tt
        | inr free ↦
            elim (Option-cases (refusal_of organization_id none input.manager_id store.employees)) [
              | inr (error, e) ↦ rw (Leaves, create_employee, free, e) tt
              | inl accepted ↦
                  rw (Leaves, create_employee, free, accepted)
                    (sync_each-IsConsistent env organization_id actor_id _ _ _ (
                      created-IsConsistentBut organization_id store.employees ok
                        (new_employee env organization_id input) refl refl fresh
                        (refused_self input fresh accepted)
                        (distinct (present (input.manager_id ∷ [])))
                        (λ m e. In-looked_at m (input.manager_id ∷ []) (inl (sym e)))))
            ]
      ]

  -- The rows after a patch, where it moves the employee.
  moved-IsConsistentBut :
      (id : String) (patch : UpdateEmployeeRecord) (before : Employee) (next : Option String)
      → find_employee organization_id id store.employees ≡ some before
      → or_else patch.manager_id before.manager_id ≡ next
      → IsConsistentBut organization_id (distinct (present (before.manager_id ∷ next ∷ []))) (
          update_employee organization_id id
            (patched patch (ltb 0 (count_direct_reports organization_id id store.employees)))
            store.employees)
  moved-IsConsistentBut id patch before next found same =
      let (held, same_id, home) = find_employee_sound organization_id id store.employees found in
      changed-IsConsistentBut organization_id id store.employees ok before found
        (patched patch (ltb 0 (count_direct_reports organization_id id store.employees)))
        (λ row. refl) (λ row. refl)
        (sym (
          ok.flags before held
          ∙ ap (ltb 0) (
              ap (λ o. count_direct_reports o before.id store.employees) home
              ∙ ap (λ m. count_direct_reports organization_id m store.employees) same_id)))
        (distinct (present (before.manager_id ∷ next ∷ [])))
        (λ m unlisted.
          rw
            (
              reports_to-unlisted before.manager_id m (before.manager_id ∷ next ∷ []) (inl refl)
                  unlisted,
              same,
              reports_to-unlisted next m (before.manager_id ∷ next ∷ []) (inr (inl refl)) unlisted,
            )
            refl)

  unmoved-IsConsistent :
      (id : String) (patch : UpdateEmployeeRecord) (before : Employee)
      → find_employee organization_id id store.employees ≡ some before
      → or_else patch.manager_id before.manager_id ≡ before.manager_id
      → IsConsistent (
          update_employee organization_id id
            (patched patch (ltb 0 (count_direct_reports organization_id id store.employees)))
            store.employees)
  unmoved-IsConsistent id patch before found same =
      let (held, same_id, home) = find_employee_sound organization_id id store.employees found in
      but-none organization_id _ (
        changed-IsConsistentBut organization_id id store.employees ok before found
          (patched patch (ltb 0 (count_direct_reports organization_id id store.employees)))
          (λ row. refl) (λ row. refl)
          (sym (
            ok.flags before held
            ∙ ap (ltb 0) (
                ap (λ o. count_direct_reports o before.id store.employees) home
                ∙ ap (λ m. count_direct_reports organization_id m store.employees) same_id)))
          [] (λ m unlisted. rw same refl))

  pub apply_update-Leaves :
      (id : String) (patch : UpdateEmployeeRecord) (effective_from : Option Date)
      → Leaves (apply_update env organization_id actor_id id patch effective_from store)
  unfolding apply_update record_update
  apply_update-Leaves id patch effective_from =
      elim (Option-cases (find_employee organization_id id store.employees)) [
        | inl missing ↦ rw (Leaves, apply_update, missing) tt
        | inr (before, found) ↦
            elim (Bool-cases (takes_email organization_id patch.email before store.employees)) [
              | inl taken ↦ rw (Leaves, apply_update, found, taken) tt
              | inr free ↦
                  elim (Option-cases (
                    refusal_of organization_id (some id) (or_else (moved_to patch before) none)
                      store.employees)) [
                        | inr (error, e) ↦ rw (Leaves, apply_update, found, free, e) tt
                        | inl accepted ↦ elim (moved_to-cases patch before) [
                          | inl (unmoved, same) ↦
                              rw (Leaves, apply_update, found, free, accepted, unmoved)
                                (unmoved-IsConsistent id patch before found same)
                          | inr (next, moved, same) ↦
                              rw (Leaves, apply_update, found, free, accepted, moved)
                                (sync_each-IsConsistent env organization_id actor_id _ _ _
                                  (moved-IsConsistentBut id patch before next found same))
                        ]
                      ]
            ]
      ]

  pub terminate-Leaves :
      (id : String) (terminated_on : Option Date)
      → Leaves (terminate env organization_id actor_id id terminated_on store)
  unfolding terminate record_termination
  terminate-Leaves id terminated_on =
      elim (Option-cases (find_employee organization_id id store.employees)) [
        | inl missing ↦ rw (Leaves, terminate, missing) tt
        | inr (before, found) ↦ elim (Bool-cases (is_active before.status)) [
          | inr gone ↦ rw (Leaves, terminate, found, gone) tt
          | inl working ↦
              rw (Leaves, terminate, found, working)
                (sync_each-IsConsistent env organization_id actor_id _ _ _
                  (ended_IsConsistentBut before found))
        ]
      ]
    where
      ended_IsConsistentBut :
          (before : Employee)
          → find_employee organization_id id store.employees ≡ some before
          → IsConsistentBut organization_id (distinct (present (before.manager_id ∷ []))) (
              update_employee organization_id before.id
                (ended_row (or_else terminated_on env.today))
                store.employees)
      ended_IsConsistentBut before found =
          let (_, same_id, _) = find_employee_sound organization_id id store.employees found in
          changed-IsConsistentBut organization_id before.id store.employees ok before
            (subst (λ x. find_employee organization_id x store.employees ≡ some before)
              (sym same_id) found)
            (ended_row (or_else terminated_on env.today)) (λ row. refl) (λ row. refl) refl
            (distinct (present (before.manager_id ∷ [])))
            (λ m unlisted. ground (
              arith,
              reports_to-unlisted before.manager_id m (before.manager_id ∷ []) (inl refl) unlisted,
            ))
