-- ===== src/Employees/Termination.antt =====
-- apps/api/src/services/employee.ts: terminate, with the memberships and assignments that it ends.
use policy_assignment_system.Prelude.{
  String, Bool, true, false, not, ◌&&◌, Option, none, some, [], ◌∷◌, ◌++◌, keep, map, length,
  str_eq, if◌then◌else◌,
}
use policy_assignment_system.Dates.{Date, to_iso_date}
use policy_assignment_system.Outbox.{other, enqueue}
use policy_assignment_system.Assignments.{Assignment}
use policy_assignment_system.Rules.Requests.{or_else}
use policy_assignment_system.Employees.{terminated, Employee, is_active, find_employee}
use policy_assignment_system.Employees.Service.{
  EmployeeGroup, ended, EmployeeStore, EmployeeEnv, employee_not_found, already_terminated,
  EmployeeOutcome, failed, done, employee_payload, enqueue_employee, sync_each, sync_manager_flags,
}
use policy_assignment_system.Employees.Requests.{update_employee}

abbrev pub end_membership : String → Date → EmployeeGroup → EmployeeGroup
end_membership employee_id effective_to row = elim row.effective_to [
  | some end ↦ row
  | none ↦
      if str_eq row.employee_id employee_id
      then record row { effective_to = some effective_to }
      else row
]

abbrev pub end_assignment : String → String → Date → Assignment → Assignment
end_assignment organization_id employee_id effective_to row = elim row.effective_to [
  | some end ↦ row
  | none ↦
      if str_eq row.organization_id organization_id && str_eq row.employee_id employee_id
      then record row { effective_to = some effective_to }
      else row
]

abbrev pub is_open : {A : Type 0} → Option A → Bool
is_open none = true
is_open (some end) = false

abbrev pub ended_row : Date → Employee → Employee
ended_row terminated_on row = record row { status = terminated; terminated_on = some terminated_on }

-- What `terminate` writes before it looks at the manager's flag.
unfoldable pub record_termination :
    EmployeeEnv → String → String → Employee → Date → EmployeeStore → EmployeeStore
unfolding enqueue
record_termination env organization_id actor_id before terminated_on store =
    let is_ended_membership =
      λ (row : EmployeeGroup). is_open row.effective_to && str_eq row.employee_id before.id in
    let is_ended_assignment = λ (row : Assignment).
      is_open row.effective_to
      && str_eq row.organization_id organization_id
      && str_eq row.employee_id before.id in
    record store {
      employees =
          update_employee organization_id before.id (ended_row terminated_on) store.employees;
      memberships = map (end_membership before.id terminated_on) store.memberships;
      assignments = map (end_assignment organization_id before.id terminated_on) store.assignments;
      audits =
          store.audits
          ++ record {
            actor_id = actor_id;
            entity_id = before.id;
            before_state = some before;
            after_state = ended_row terminated_on before;
            detail =
                ended (to_iso_date terminated_on)
                  (length (keep is_ended_membership store.memberships))
                  (length (keep is_ended_assignment store.assignments));
          }
            ∷ [];
      outbox =
          enqueue_employee env organization_id "employee.terminated" before.id
            (employee_payload before.id other other) store.outbox;
    }

unfoldable pub terminate :
    EmployeeEnv → String → String → String → Option Date → EmployeeStore → EmployeeOutcome
unfolding find_employee record_termination sync_each
terminate env organization_id actor_id id terminated_on_input store =
    elim (find_employee organization_id id store.employees) [
      | none ↦ failed employee_not_found
      | some before ↦
          let terminated_on = or_else terminated_on_input env.today in
          if not (is_active before.status)
          then failed already_terminated
          else done (ended_row terminated_on before) (
              sync_manager_flags env organization_id actor_id (before.manager_id ∷ []) terminated_on
                (record_termination env organization_id actor_id before terminated_on store))
    ]
