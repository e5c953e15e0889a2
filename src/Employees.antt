-- ===== src/Employees.antt =====
-- packages/core/src/repositories/employee.repository.ts: the table of employees, with the reads and
-- writes that the org chart rests on.
pub mod Chart
pub mod Service
pub mod Requests
pub mod Termination
pub mod Flags
pub mod Sync
pub mod Edges
pub mod Moves
pub mod Acyclic
pub mod Laws
pub mod Reachable
mod Tests
use policy_assignment_system.Prelude.{
  ℕ, String, Bool, true, false, ◌&&◌, Option, none, some, List, [], ◌∷◌, keep, map, length, str_eq,
  if◌then◌else◌,
}
use policy_assignment_system.Dates.{Date}

pub data EmploymentStatus : Type 0 where
  active terminated : EmploymentStatus

pub record Employee : Type 0 where
  pub id : String
  pub organization_id : String
  pub name : String
  pub email : String
  pub hire_date : Date
  pub employment_type : String
  pub department : Option String
  pub role : Option String
  pub location : Option String
  pub state : Option String
  pub country : Option String
  pub manager_id : Option String
  pub is_manager : Bool
  pub status : EmploymentStatus
  pub terminated_on : Option Date

abbrev pub is_active : EmploymentStatus → Bool
is_active active = true
is_active terminated = false

abbrev pub is_row : String → String → Employee → Bool
is_row organization_id id row = str_eq row.id id && str_eq row.organization_id organization_id

-- `findById`
unfoldable pub find_employee : String → String → List Employee → Option Employee
find_employee organization_id id [] = none
find_employee organization_id id (row ∷ rows) =
    let rest = find_employee organization_id id rows in
    if is_row organization_id id row then some row else rest

abbrev pub reports_to : Option String → String → Bool
reports_to none id = false
reports_to (some manager) id = str_eq manager id

-- The rows that name a manager, in an organization.
abbrev pub is_report : String → String → Employee → Bool
is_report organization_id manager_id row =
    str_eq row.organization_id organization_id && reports_to row.manager_id manager_id

-- `countDirectReports`: those of them who are active.
abbrev pub counts_for : String → String → Employee → Bool
counts_for organization_id manager_id row =
    is_report organization_id manager_id row && is_active row.status

abbrev pub count_direct_reports : String → String → List Employee → ℕ
count_direct_reports organization_id manager_id rows =
    length (keep (counts_for organization_id manager_id) rows)
