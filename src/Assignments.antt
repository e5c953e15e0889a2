-- ===== src/Assignments.antt =====
-- packages/core/src/repositories/assignment.repository.ts: the table of assignments and what
-- reconciliation asks of it. A table is the list of its rows; the id of a new row is the database's,
-- and a parameter.
pub mod Laws
use policy_assignment_system.Prelude.{
  ℕ, ◌-◌, String, Bool, true, false, ◌&&◌, Option, none, some, List, [], ◌∷◌, ◌++◌, keep, map, leb,
  ltb, str_eq, if◌then◌else◌, ℤ, sub_ℕ,
}
use policy_assignment_system.Prelude.Sorting.{sort}
use policy_assignment_system.Dates.{Date}
use policy_assignment_system.Engine.{Cardinality, ResolutionStatus}

pub record Assignment : Type 0 where
  pub id : String
  pub organization_id : String
  pub employee_id : String
  pub policy_id : String
  pub category_id : String
  pub cardinality : Cardinality
  pub source_rule_id : String
  pub source_rule_version : ℕ
  pub effective_from : Date
  pub effective_to : Option Date
  pub resolution_status : ResolutionStatus
  pub resolution_reason : String

-- `effectiveFrom <= asOf AND (effectiveTo IS NULL OR effectiveTo > asOf)`
unfoldable pub effective_on : Date → Assignment → Bool
effective_on as_of row =
    leb row.effective_from as_of && elim row.effective_to [ none ↦ true | some end ↦ ltb as_of end ]

abbrev newest_first : Assignment → Assignment → ℤ
newest_first left right = sub_ℕ right.effective_from left.effective_from

-- The rows in force on a day, newest first.
unfoldable pub find_for_employee_as_of : String → String → Date → List Assignment → List Assignment
find_for_employee_as_of organization_id employee_id as_of rows = sort newest_first (
    keep
      (λ row.
        str_eq row.organization_id organization_id
        && str_eq row.employee_id employee_id
        && effective_on as_of row)
      rows)

-- What a row is after `UPDATE ... SET effective_to WHERE id AND organization_id`.
unfoldable pub end_row : String → String → Date → Assignment → Assignment
end_row organization_id id effective_to row =
    if str_eq row.id id && str_eq row.organization_id organization_id
    then record row { effective_to = some effective_to }
    else row

unfoldable pub close : String → String → Date → List Assignment → List Assignment
close organization_id id effective_to rows = map (end_row organization_id id effective_to) rows
