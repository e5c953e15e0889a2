-- ===== src/Employees/Service.antt =====
-- apps/api/src/services/employee.ts: the operations that write employees, with the history of the
-- attributes, the audit rows and the outbox rows that they leave. An id is no empty text, a key that a
-- request leaves out is absent, and an audit row holds the employee's row itself.
use policy_assignment_system.Prelude.{
  ℕ, String, Bool, true, false, not, ◌&&◌, Option, none, some, List, [], ◌∷◌, ◌++◌, map, includes,
  ltb, str_eq, if◌then◌else◌,
}
use policy_assignment_system.Dates.{Date, to_iso_date}
use policy_assignment_system.Outbox.{OutboxEvent, OutboxPayload, Field, other, text, array, enqueue}
use policy_assignment_system.Assignments.{Assignment}
use policy_assignment_system.FanOut.{distinct}
use policy_assignment_system.Rules.Writes.{eq_text, eq_enabled}
use policy_assignment_system.Employees.{
  Employee, is_active, is_row, find_employee, count_direct_reports,
}
use policy_assignment_system.Employees.Chart.{is_in_subtree}

-- What a patch sets; `isManager` is derived and never taken from it.
pub record UpdateEmployeeRecord : Type 0 where
  pub name : Option String
  pub email : Option String
  pub hire_date : Option Date
  pub employment_type : Option String
  pub department : Option (Option String)
  pub role : Option (Option String)
  pub location : Option (Option String)
  pub state : Option (Option String)
  pub country : Option (Option String)
  pub manager_id : Option (Option String)

pub record AttributeChange : Type 0 where
  pub attribute : String
  pub old_value : Option String
  pub new_value : Option String

pub record AttributeHistory : Type 0 where
  pub employee_id : String
  pub attribute : String
  pub old_value : Option String
  pub new_value : Option String
  pub effective_from : Date
  pub effective_to : Option Date
  pub changed_by : String

pub record EmployeeGroup : Type 0 where
  pub employee_id : String
  pub group_id : String
  pub effective_from : Date
  pub effective_to : Option Date

pub data EmployeeAuditDetail : Type 0 where
  created : EmployeeAuditDetail
  updated : (changed_attributes : List String) (effective_from : String) → EmployeeAuditDetail
  derived : (effective_from : String) (direct_reports : ℕ) → EmployeeAuditDetail
  ended : (terminated_on : String) (memberships assignments : ℕ) → EmployeeAuditDetail

pub record EmployeeAudit : Type 0 where
  pub actor_id : String
  pub entity_id : String
  pub before_state : Option Employee
  pub after_state : Employee
  pub detail : EmployeeAuditDetail

pub record EmployeeStore : Type 0 where
  pub employees : List Employee
  pub history : List AttributeHistory
  pub memberships : List EmployeeGroup
  pub assignments : List Assignment
  pub audits : List EmployeeAudit
  pub outbox : List OutboxEvent

-- The clocks, and the ids that the database gives.
pub record EmployeeEnv : Type 0 where
  pub today : Date
  pub now : Date
  pub employee_id : String
  pub event_id : List OutboxEvent → String

pub data EmployeeError : Type 0 where
  employee_not_found already_exists already_terminated manager_is_self manager_not_found :
      EmployeeError
  manager_terminated manager_cycle : EmployeeError

pub data EmployeeOutcome : Type 0 where
  failed : EmployeeError → EmployeeOutcome
  done : Employee → EmployeeStore → EmployeeOutcome

-- `stringify` of a boolean
abbrev pub show_bool : Bool → String
show_bool true = "true"
show_bool false = "false"

-- One attribute of `diffAttributes`: nothing if the patch leaves it out, or sets what it is.
abbrev pub change_of : String → Option String → Option (Option String) → List AttributeChange
change_of attribute old none = []
change_of attribute old (some new) =
    if eq_text old new
    then []
    else record { attribute = attribute; old_value = old; new_value = new } ∷ []

abbrev pub given {ℓ κ} : {A : Type ℓ} {B : Type κ} → (A → B) → Option A → Option (Option B)
given f none = none
given f (some a) = some (some (f a))

unfoldable pub diff_attributes : Employee → UpdateEmployeeRecord → Bool → List AttributeChange
diff_attributes before patch is_manager =
    change_of "department" before.department patch.department
    ++ change_of "state" before.state patch.state
    ++ change_of "country" before.country patch.country
    ++ change_of "location" before.location patch.location
    ++ change_of "employmentType" (some before.employment_type)
        (given (λ s. s) patch.employment_type)
    ++ change_of "role" before.role patch.role
    ++ change_of "managerId" before.manager_id patch.manager_id
    ++ change_of "isManager" (some (show_bool before.is_manager))
        (some (some (show_bool is_manager)))
    ++ change_of "hireDate" (some (to_iso_date before.hire_date))
        (given to_iso_date patch.hire_date)

-- `closeOpenRows`, for one row
abbrev pub close_open_row : String → List String → Date → AttributeHistory → AttributeHistory
close_open_row employee_id attributes effective_to row = elim row.effective_to [
  | some end ↦ row
  | none ↦
      if str_eq row.employee_id employee_id && includes attributes row.attribute
      then record row { effective_to = some effective_to }
      else row
]

abbrev pub attribute_names : List AttributeChange → List String
attribute_names changes = map (λ change. change.attribute) changes

unfoldable pub write_history :
    String → List AttributeChange → Date → String → List AttributeHistory → List AttributeHistory
write_history employee_id changes effective_from actor_id rows =
    map (close_open_row employee_id (attribute_names changes) effective_from) rows
    ++ map
        (λ change. record {
          employee_id = employee_id;
          attribute = change.attribute;
          old_value = change.old_value;
          new_value = change.new_value;
          effective_from = effective_from;
          effective_to = none;
          changed_by = actor_id;
        })
        changes

abbrev pub employee_payload : String → Field → Field → OutboxPayload
employee_payload id changed effective_from = record {
  employee_id = text id;
  changed_attributes = changed;
  effective_from = effective_from;
  rule_id = other;
  rule_version = other;
  group_id = other;
  deleted_on = other;
}

abbrev pub enqueue_employee :
    EmployeeEnv → String → String → String → OutboxPayload → List OutboxEvent → List OutboxEvent
enqueue_employee env organization_id event_type id payload rows =
    enqueue (env.event_id rows) env.now none organization_id event_type "employee" id payload rows

abbrev pub changed_field : List String → Field
changed_field attributes = array (map (λ s. some s) attributes)

-- `setIsManager`
abbrev pub set_is_manager : String → String → Bool → List Employee → List Employee
set_is_manager organization_id id value rows =
    map (λ row. if is_row organization_id id row then record row { is_manager = value } else row)
      rows

-- `syncManagerFlags` for one manager.
unfoldable pub sync_manager_flag :
    EmployeeEnv → String → String → Date → String → EmployeeStore → EmployeeStore
unfolding find_employee enqueue write_history
sync_manager_flag env organization_id actor_id effective_from manager_id store =
    elim (find_employee organization_id manager_id store.employees) [
      | none ↦ store
      | some before ↦
          let reports = count_direct_reports organization_id manager_id store.employees in
          let is_manager = ltb 0 reports in
          let change : AttributeChange = record {
            attribute = "isManager";
            old_value = some (show_bool before.is_manager);
            new_value = some (show_bool is_manager);
          } in
          if eq_enabled before.is_manager is_manager then store else record store {
            employees = set_is_manager organization_id manager_id is_manager store.employees;
            history = write_history manager_id (change ∷ []) effective_from actor_id store.history;
            audits =
                store.audits
                ++ record {
                  actor_id = actor_id;
                  entity_id = manager_id;
                  before_state = some before;
                  after_state = record before { is_manager = is_manager };
                  detail = derived (to_iso_date effective_from) reports;
                }
                  ∷ [];
            outbox =
                enqueue_employee env organization_id "employee.attributes_changed" manager_id
                  (employee_payload manager_id (changed_field ("isManager" ∷ []))
                    (text (to_iso_date effective_from)))
                  store.outbox;
          }
    ]

-- `syncManagerFlags`: the managers that there are, each once.
unfoldable pub sync_each :
    EmployeeEnv → String → String → Date → List String → EmployeeStore → EmployeeStore
unfolding sync_manager_flag
sync_each env organization_id actor_id effective_from [] store = store
sync_each env organization_id actor_id effective_from (id ∷ ids) store =
    sync_each env organization_id actor_id effective_from ids
      (sync_manager_flag env organization_id actor_id effective_from id store)

abbrev pub present : List (Option String) → List String
present [] = []
present (none ∷ ids) = present ids
present (some id ∷ ids) = id ∷ present ids

abbrev pub sync_manager_flags :
    EmployeeEnv → String → String → List (Option String) → Date → EmployeeStore → EmployeeStore
sync_manager_flags env organization_id actor_id manager_ids effective_from store =
    sync_each env organization_id actor_id effective_from (distinct (present manager_ids)) store

-- `requireEligibleManager`: why a manager is refused. A new employee has no id yet.
unfoldable pub manager_refusal :
    String → Option String → String → List Employee → Option EmployeeError
unfolding find_employee is_in_subtree
manager_refusal organization_id employee_id manager_id rows =
    if elim employee_id [ none ↦ false | some id ↦ str_eq manager_id id ]
    then some manager_is_self
    else elim (find_employee organization_id manager_id rows) [
      | none ↦ some manager_not_found
      | some manager ↦
          if not (is_active manager.status) then some manager_terminated else elim employee_id [
            | none ↦ none
            | some id ↦
                if is_in_subtree organization_id id manager_id rows
                then some manager_cycle
                else none
          ]
    ]
