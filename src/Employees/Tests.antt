-- ===== src/Employees/Tests.antt =====
-- Two employees, one of whom comes to report to the other.
use policy_assignment_system.Prelude.{
  ℕ, String, ◌≡◌, ◌⊎◌, ◌↔◌, refl, inl, inr, subst, true, false, Option, none, some, List, [], ◌∷◌,
  In, map, arith, ◌<◌, str_eq, if◌then◌else◌,
}
use policy_assignment_system.FanOut.{distinct}
use policy_assignment_system.Employees.{Employee, active, find_employee}
use policy_assignment_system.Employees.Chart.{is_in_subtree, walk, find_subtree_ids}
use policy_assignment_system.Employees.Chart.Laws.{IsBelow, HasLevels, is_in_subtree_iff}
use policy_assignment_system.Employees.Service.{
  write_history, AttributeHistory, AttributeChange, UpdateEmployeeRecord, EmployeeStore,
  EmployeeEnv, EmployeeOutcome, failed, done, sync_each, manager_refusal, manager_cycle,
}
use policy_assignment_system.Employees.Requests.{
  CreateEmployeeInput, new_employee, create_employee, insert_employee, apply_update, patched,
}
use policy_assignment_system.Employees.Reachable.{
  HasReport, start, create_step, Reachable-IsConsistent,
}
use policy_assignment_system.Employees.Acyclic.{apply_update-acyclic}

abbrev person : String → Option String → Employee
person id manager_id = record {
  id = id;
  organization_id = "o1";
  name = id;
  email = id;
  hire_date = 0;
  employment_type = "FULL_TIME";
  department = none;
  role = none;
  location = none;
  state = none;
  country = none;
  manager_id = manager_id;
  is_manager = false;
  status = active;
  terminated_on = none;
}

abbrev store_of : List Employee → EmployeeStore
store_of rows = record {
  employees = rows;
  history = [];
  memberships = [];
  assignments = [];
  audits = [];
  outbox = [];
}

abbrev env : EmployeeEnv
env = record { today = 0; now = 0; employee_id = "ann"; event_id = λ rows. "v1" }

abbrev ann : CreateEmployeeInput
ann = record {
  name = "ann";
  email = "ann";
  hire_date = 0;
  employment_type = "FULL_TIME";
  department = none;
  role = none;
  location = none;
  state = none;
  country = none;
  manager_id = none;
  effective_from = none;
}

abbrev hired : EmployeeStore
hired = insert_employee env "o1" "u1" 0 (new_employee env "o1" ann) (store_of [])

hired_test :
    create_employee env "o1" "u1" ann (store_of []) ≡ done (new_employee env "o1" ann) hired
unfolding create_employee sync_each distinct
hired_test = refl

Reachable-IsConsistent_example :
    ((r s : Employee) → In r hired.employees → In s hired.employees → r.id ≡ s.id → r ≡ s)
    × ((row : Employee)
        → In row hired.employees
        → (row.is_manager ≡ true) ↔ HasReport row.organization_id row.id hired.employees)
Reachable-IsConsistent_example = Reachable-IsConsistent (
    create_step (start refl) env "o1" "u1" ann (new_employee env "o1" ann) (λ r m. elim m [ ])
      hired_test)

-- Bob reports to Ann.
abbrev rows : List Employee
rows = person "ann" none ∷ person "bob" (some "ann") ∷ person "cat" none ∷ []

abbrev level : String → ℕ
level id = if str_eq id "bob" then 1 else 0

rows-HasLevels : HasLevels "o1" rows level
rows-HasLevels = record {
  lower = λ row top r. by_row row top r.listed r.edge;
  few = λ id. ground arith;
}
  where
    injective : {a b : String} → some a ≡ some b → a ≡ b
    injective e = cc e

    by_row :
        (row : Employee) (top : String)
        → In row rows
        → row.manager_id ≡ some top
        → level top < level row.id
    by_row row top (inl e) f = cc (rw e at f)
    by_row row top (inr (inl e)) f =
        subst (λ x. level x < level row.id) (injective (rw e at f)) (rw e (omega arith))
    by_row row top (inr (inr (inl e))) f = cc (rw e at f)
    by_row row top (inr (inr (inr m))) f = elim m [ ]

ann_found : find_employee "o1" "ann" rows ≡ some (person "ann" none)
unfolding find_employee
ann_found = refl

abbrev ann_id : String
ann_id = "ann"

abbrev bob_id : String
bob_id = "bob"

is_in_subtree_iff_example :
    (is_in_subtree "o1" ann_id bob_id rows ≡ true)
    ↔ ((bob_id ≡ ann_id) ⊎ IsBelow "o1" rows ann_id bob_id)
is_in_subtree_iff_example =
    is_in_subtree_iff "o1" rows rows-HasLevels ann_id bob_id (person "ann" none) ann_found

-- Ann is to report to Cat.
abbrev to_cat : UpdateEmployeeRecord
to_cat = record {
  name = none;
  email = none;
  hire_date = none;
  employment_type = none;
  department = none;
  role = none;
  location = none;
  state = none;
  country = none;
  manager_id = some (some "cat");
}

abbrev store_after : EmployeeOutcome → EmployeeStore
store_after (failed error) = store_of []
store_after (done row store) = store

abbrev moved : EmployeeOutcome
moved = apply_update env "o1" "u1" "ann" to_cat none (store_of rows)

moved_success : moved ≡ done (patched to_cat true (person "ann" none)) (store_after moved)
unfolding apply_update find_employee manager_refusal is_in_subtree find_subtree_ids walk
moved_success = refl

apply_update-acyclic_example : ¬ IsBelow "o1" (store_after moved).employees "bob" "bob"
apply_update-acyclic_example =
    apply_update-acyclic env "o1" "u1" "ann" "cat" to_cat none (store_of rows) (store_after moved)
      (person "ann" none) (patched to_cat true (person "ann" none)) level "bob" rows-HasLevels
      ann_found refl refl moved_success

-- Bob is below Ann, so Ann cannot report to him.
cycle_test :
    apply_update env "o1" "u1" "ann"
      (record to_cat { manager_id = some (some "bob") })
      none
      (store_of rows)
    ≡ failed manager_cycle
unfolding apply_update find_employee manager_refusal is_in_subtree find_subtree_ids walk
cycle_test = refl

-- A change that is backdated before the start of the open row: the row is ended before it began, and the
-- row before it and the new one are both in force from day 50 to day 100.
abbrev department_row : ℕ → Option ℕ → AttributeHistory
department_row effective_from effective_to = record {
  employee_id = "ann";
  attribute = "department";
  old_value = none;
  new_value = none;
  effective_from = effective_from;
  effective_to = effective_to;
  changed_by = "u1";
}

abbrev new_department : AttributeChange
new_department = record { attribute = "department"; old_value = none; new_value = some "Sales" }

backdated_test :
    map
      (λ row. row.effective_to)
      (write_history "ann"
        (new_department ∷ [])
        50
        "u1"
        (department_row 0 (some 100) ∷ department_row 100 none ∷ []))
    ≡ some 100 ∷ some 50 ∷ none ∷ []
unfolding write_history
backdated_test = refl
