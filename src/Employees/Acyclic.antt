-- ===== src/Employees/Acyclic.antt =====
-- apps/api/src/services/employee.ts: an update that moves an employee to a manager closes no cycle.
use policy_assignment_system.Prelude.{
  ℕ, String, ◌≡◌, refl, sym, ap, ◌∙◌, subst, inl, inr, Bool, false, Bool-cases, Bool-clash,
  Option-cases, Option, none, some, List, [], ◌∷◌, In-of_map, ltb, str_eq,
}
use policy_assignment_system.Dates.{Date}
use policy_assignment_system.Rules.Requests.{or_else}
use policy_assignment_system.FanOut.{distinct}
use policy_assignment_system.Employees.{
  Employee, is_row, is_active, find_employee, count_direct_reports,
}
use policy_assignment_system.Employees.Chart.{is_in_subtree}
use policy_assignment_system.Employees.Chart.Laws.{IsBelow, HasLevels}
use policy_assignment_system.Employees.Chart.Cycles.{IsReassigned, reassigned-acyclic}
use policy_assignment_system.Employees.Service.{
  UpdateEmployeeRecord, EmployeeStore, EmployeeEnv, done, present, manager_refusal, diff_attributes,
}
use policy_assignment_system.Employees.Requests.{
  sync_move, patched, update_employee, moved_to, takes_email, record_update, apply_update,
}
use policy_assignment_system.Employees.Flags.{is_row_iff}
use policy_assignment_system.Employees.Edges.{HasSameEdges, sync_each-HasSameEdges}

-- A manager who is not refused stands outside of the employee's subtree.
accepted-outside :
    (organization_id id manager : String) (rows : List Employee)
    → manager_refusal organization_id (some id) manager rows ≡ none
    → is_in_subtree organization_id id manager rows ≡ false
unfolding manager_refusal
accepted-outside organization_id id manager rows accepted =
    elim (Bool-cases (is_in_subtree organization_id id manager rows)) [
      | inr outside ↦ outside
      | inl inside ↦ elim (Bool-cases (str_eq manager id)) [
        | inl itself ↦ cc (rw itself at accepted)
        | inr other ↦ elim (Option-cases (find_employee organization_id manager rows)) [
          | inl missing ↦ cc (rw (other, missing) at accepted)
          | inr (row, found) ↦ elim (Bool-cases (is_active row.status)) [
            | inl at_work ↦ cc (rw (other, found, at_work, inside) at accepted)
            | inr gone ↦ cc (rw (other, found, gone) at accepted)
          ]
        ]
      ]
    ]

module _ (organization_id id manager : String) (rows : List Employee) (patch : UpdateEmployeeRecord)
    (is_manager : Bool) (given : patch.manager_id ≡ some (some manager)) where
  -- The edges after the update, whatever happens to the flags.
  updated-IsReassigned :
      (next : List Employee)
      → HasSameEdges (update_employee organization_id id (patched patch is_manager) rows) next
      → IsReassigned organization_id rows id manager next
  updated-IsReassigned next same row top r =
      let (middle, m, e, f, g) = same row r.listed in
      let (old, n, h) = In-of_map _ rows m in
      elim (Bool-cases (is_row organization_id id old)) [
        | inl hit ↦
            let changed : middle ≡ patched patch is_manager old = h ∙ (rw hit refl) in
            inl (
              sym e ∙ (ap (λ x. x.id) changed ∙ ((is_row_iff organization_id id old).0 hit).0),
              injective (
                  sym r.edge
                  ∙ (sym g
                      ∙ (ap (λ x. x.manager_id) changed
                          ∙ ap (λ m. or_else m old.manager_id) given))),
            )
        | inr miss ↦
            let unchanged : middle ≡ old = h ∙ (rw miss refl) in
            let home = ap (λ x. x.organization_id) (sym unchanged) ∙ (f ∙ r.organization) in
            let here = ap (λ x. x.id) (sym unchanged) ∙ e in
            inr (
              old,
              record {
                listed = n;
                organization = home;
                edge = ap (λ x. x.manager_id) (sym unchanged) ∙ (g ∙ r.edge);
              },
              here,
              λ k. Bool-clash miss ((is_row_iff organization_id id old).1 (here ∙ k, home)),
            )
      ]
    where
      injective : {a b : String} → some a ≡ some b → a ≡ b
      injective e = cc e

-- In an organization whose chart has at most 64 levels: after an update that was accepted and that moved
-- an employee to a manager, nobody is above themselves.
pub apply_update-acyclic :
    (env : EmployeeEnv) (organization_id actor_id id manager : String)
    (patch : UpdateEmployeeRecord) (effective_from : Option Date) (store next : EmployeeStore)
    (before row : Employee) (level : String → ℕ) (x : String)
    → HasLevels organization_id store.employees level
    → find_employee organization_id id store.employees ≡ some before
    → patch.manager_id ≡ some (some manager)
    → moved_to patch before ≡ some (some manager)
    → apply_update env organization_id actor_id id patch effective_from store ≡ done row next
    → ¬ IsBelow organization_id next.employees x x
unfolding apply_update record_update
apply_update-acyclic env organization_id actor_id id manager patch effective_from store next before
      row level x levels found given moved success =
    elim (Bool-cases (takes_email organization_id patch.email before store.employees)) [
      | inl taken ↦ cc (rw (apply_update, found, taken) at success)
      | inr free ↦
          elim (Option-cases (manager_refusal organization_id (some id) manager store.employees)) [
            | inr (error, e) ↦ cc (rw (apply_update, found, free, moved, e) at success)
            | inl accepted ↦
                reassigned-acyclic organization_id store.employees level levels id manager before
                  found (accepted-outside organization_id id manager store.employees accepted)
                  (updated-IsReassigned organization_id id manager store.employees patch is_manager
                    given next.employees
                    (subst (λ s. HasSameEdges rows s.employees)
                      (stores (rw (apply_update, found, free, moved, accepted) at success))
                      (subst (λ m. HasSameEdges rows (after_move m).employees) (sym moved)
                        (sync_each-HasSameEdges env organization_id actor_id
                          (or_else effective_from env.today)
                          (distinct (present (before.manager_id ∷ some manager ∷ []))) written))))
                  x
          ]
    ]
  where
    is_manager : Bool
    is_manager = ltb 0 (count_direct_reports organization_id id store.employees)

    rows : List Employee
    rows = update_employee organization_id id (patched patch is_manager) store.employees

    written : EmployeeStore
    written =
        record_update env organization_id actor_id before (patched patch is_manager before)
          (diff_attributes before patch is_manager) (or_else effective_from env.today) rows store

    after_move : Option (Option String) → EmployeeStore
    after_move m =
        sync_move env organization_id actor_id before m (or_else effective_from env.today) written

    stores : {a b : Employee} {s t : EmployeeStore} → done a s ≡ done b t → s ≡ t
    stores e = cc e
