-- ===== src/Employees/Requests.antt =====
-- apps/api/src/services/employee.ts: create, the shared path of PUT and PATCH, and terminate.
use policy_assignment_system.Prelude.{
  String, Bool, false, not, ◌&&◌, Option, none, some, List, [], ◌∷◌, ◌++◌, map, any, length, ltb,
  ◌==◌, str_eq, if◌then◌else◌,
}
use policy_assignment_system.Dates.{Date, to_iso_date}
use policy_assignment_system.Outbox.{other, text, enqueue}
use policy_assignment_system.Rules.Writes.{eq_text}
use policy_assignment_system.Rules.Requests.{or_else}
use policy_assignment_system.Employees.{
  active, Employee, is_row, find_employee, count_direct_reports,
}
use policy_assignment_system.Employees.Service.{
  UpdateEmployeeRecord, AttributeChange, created, updated, EmployeeStore, EmployeeEnv,
  EmployeeError, employee_not_found, already_exists, EmployeeOutcome, failed, done, show_bool,
  diff_attributes, attribute_names, write_history, employee_payload, enqueue_employee,
  changed_field, sync_each, sync_manager_flags, manager_refusal,
}

pub record CreateEmployeeInput : Type 0 where
  pub name : String
  pub email : String
  pub hire_date : Date
  pub employment_type : String
  pub department : Option String
  pub role : Option String
  pub location : Option String
  pub state : Option String
  pub country : Option String
  pub manager_id : Option String
  pub effective_from : Option Date

-- `findByEmail`, as a test
abbrev pub has_email : String → String → List Employee → Bool
has_email organization_id email rows =
    any (λ row. str_eq row.email email && str_eq row.organization_id organization_id) rows

-- Why the manager that a request names is refused, if it names one.
abbrev pub refusal_of :
    String → Option String → Option String → List Employee → Option EmployeeError
refusal_of organization_id employee_id none rows = none
refusal_of organization_id employee_id (some manager_id) rows =
    manager_refusal organization_id employee_id manager_id rows

abbrev pub new_employee : EmployeeEnv → String → CreateEmployeeInput → Employee
new_employee env organization_id input = record {
  id = env.employee_id;
  organization_id = organization_id;
  name = input.name;
  email = input.email;
  hire_date = input.hire_date;
  employment_type = input.employment_type;
  department = input.department;
  role = input.role;
  location = input.location;
  state = input.state;
  country = input.country;
  manager_id = input.manager_id;
  is_manager = false;
  status = active;
  terminated_on = none;
}

abbrev seeded_value : String → Option String → List AttributeChange
seeded_value attribute none = []
seeded_value attribute (some value) =
    record { attribute = attribute; old_value = none; new_value = some value } ∷ []

-- The tracked attributes that a new employee has.
abbrev seeded : Employee → List AttributeChange
seeded row =
    seeded_value "department" row.department
    ++ seeded_value "state" row.state
    ++ seeded_value "country" row.country
    ++ seeded_value "location" row.location
    ++ seeded_value "employmentType" (some row.employment_type)
    ++ seeded_value "role" row.role
    ++ seeded_value "managerId" row.manager_id
    ++ seeded_value "isManager" (some (show_bool row.is_manager))
    ++ seeded_value "hireDate" (some (to_iso_date row.hire_date))

-- What `create` writes before it looks at the manager's flag.
unfoldable pub insert_employee :
    EmployeeEnv → String → String → Date → Employee → EmployeeStore → EmployeeStore
unfolding enqueue write_history
insert_employee env organization_id actor_id effective_from row store = record store {
  employees = store.employees ++ row ∷ [];
  history = write_history row.id (seeded row) effective_from actor_id store.history;
  audits =
      store.audits
      ++ record {
        actor_id = actor_id;
        entity_id = row.id;
        before_state = none;
        after_state = row;
        detail = created;
      }
        ∷ [];
  outbox =
      enqueue_employee env organization_id "employee.created" row.id
        (employee_payload row.id other (text (to_iso_date effective_from))) store.outbox;
}

unfoldable pub create_employee :
    EmployeeEnv → String → String → CreateEmployeeInput → EmployeeStore → EmployeeOutcome
unfolding insert_employee sync_each manager_refusal
create_employee env organization_id actor_id input store =
    let effective_from = or_else input.effective_from input.hire_date in
    let row = new_employee env organization_id input in
    if has_email organization_id input.email store.employees
    then failed already_exists
    else elim (refusal_of organization_id none input.manager_id store.employees) [
      | some error ↦ failed error
      | none ↦ done row (
          sync_manager_flags env organization_id actor_id (input.manager_id ∷ []) effective_from
            (insert_employee env organization_id actor_id effective_from row store))
    ]

-- The row after the update; its flag is the one that was derived.
abbrev pub patched : UpdateEmployeeRecord → Bool → Employee → Employee
patched patch is_manager row = record row {
  name = or_else patch.name row.name;
  email = or_else patch.email row.email;
  hire_date = or_else patch.hire_date row.hire_date;
  employment_type = or_else patch.employment_type row.employment_type;
  department = or_else patch.department row.department;
  role = or_else patch.role row.role;
  location = or_else patch.location row.location;
  state = or_else patch.state row.state;
  country = or_else patch.country row.country;
  manager_id = or_else patch.manager_id row.manager_id;
  is_manager = is_manager;
}

abbrev pub update_employee : String → String → (Employee → Employee) → List Employee → List Employee
update_employee organization_id id change rows =
    map (λ row. if is_row organization_id id row then change row else row) rows

-- The manager that a patch moves the employee to, if it moves them at all.
abbrev pub moved_to : UpdateEmployeeRecord → Employee → Option (Option String)
moved_to patch before = elim patch.manager_id [
  | none ↦ none
  | some next ↦ if eq_text next before.manager_id then none else some next
]

abbrev pub takes_email : String → Option String → Employee → List Employee → Bool
takes_email organization_id none before rows = false
takes_email organization_id (some email) before rows =
    not (str_eq email "") && not (str_eq email before.email) && has_email organization_id email rows

-- What the transaction writes, up to the flags of the two managers.
unfoldable pub record_update :
    EmployeeEnv
    → String
    → String
    → Employee
    → Employee
    → List AttributeChange
    → Date
    → List Employee
    → EmployeeStore
    → EmployeeStore
unfolding enqueue write_history
record_update env organization_id actor_id before row changes effective_from rows store =
    let names = attribute_names changes in
    let none_changed = length changes == 0 in
    record store {
      employees = rows;
      history =
          if none_changed
          then store.history
          else write_history before.id changes effective_from actor_id store.history;
      audits =
          store.audits
          ++ record {
            actor_id = actor_id;
            entity_id = before.id;
            before_state = some before;
            after_state = row;
            detail = updated names (to_iso_date effective_from);
          }
            ∷ [];
      outbox =
          if none_changed
          then store.outbox
          else enqueue_employee env organization_id "employee.attributes_changed" before.id
              (employee_payload before.id (changed_field names) (text (to_iso_date effective_from)))
              store.outbox;
    }

abbrev pub sync_move :
    EmployeeEnv
    → String
    → String
    → Employee
    → Option (Option String)
    → Date
    → EmployeeStore
    → EmployeeStore
sync_move env organization_id actor_id before none effective_from store = store
sync_move env organization_id actor_id before (some next) effective_from store =
    sync_manager_flags env organization_id actor_id (before.manager_id ∷ next ∷ []) effective_from
      store

-- `applyUpdate`. The update of a row that was just found finds it again, so the count of updated rows
-- is not looked at.
unfoldable pub apply_update :
    EmployeeEnv
    → String
    → String
    → String
    → UpdateEmployeeRecord
    → Option Date
    → EmployeeStore
    → EmployeeOutcome
unfolding find_employee diff_attributes manager_refusal record_update sync_each
apply_update env organization_id actor_id id patch effective_from_input store =
    elim (find_employee organization_id id store.employees) [
      | none ↦ failed employee_not_found
      | some before ↦
          let effective_from = or_else effective_from_input env.today in
          let is_manager = ltb 0 (count_direct_reports organization_id id store.employees) in
          let moved = moved_to patch before in
          let rows =
            update_employee organization_id id (patched patch is_manager) store.employees in
          let row = patched patch is_manager before in
          if takes_email organization_id patch.email before store.employees
          then failed already_exists
          else elim (refusal_of organization_id (some id) (or_else moved none) store.employees) [
            | some error ↦ failed error
            | none ↦ done row (
                sync_move env organization_id actor_id before moved effective_from (
                  record_update env organization_id actor_id before row
                    (diff_attributes before patch is_manager) effective_from rows store))
          ]
    ]
