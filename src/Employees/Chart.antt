-- ===== src/Employees/Chart.antt =====
-- packages/core/src/repositories/employee.repository.ts: the recursive query that walks down the org
-- chart, and the two reads that are made of it. One step of the query goes from a row to those who
-- report to it; it stops at a depth of 64, and on a branch at whoever the branch has visited.
pub mod Laws
pub mod Cycles
use policy_assignment_system.Prelude.{
  ℕ, zero, suc, String, Bool, true, false, not, Option, none, some, List, [], ◌∷◌, ◌++◌, keep, map,
  includes, str_eq, if◌then◌else◌,
}
use mathlib.Core.List.{flat_map}
use policy_assignment_system.Employees.{Employee, is_report, find_employee}

-- `MAX_ORG_CHART_DEPTH`
abbrev pub max_org_chart_depth : ℕ
max_org_chart_depth = 64

abbrev pub report_ids : String → List Employee → String → List String
report_ids organization_id rows id = map (λ row. row.id) (keep (is_report organization_id id) rows)

-- A row and all that the query finds below it, where `left` more steps are allowed and `path` has been
-- visited.
unfoldable pub walk : String → List Employee → ℕ → List String → String → List String
unfolding flat_map
walk organization_id rows zero path id = id ∷ []
walk organization_id rows (suc left) path id =
    id
    ∷ flat_map
        (λ child.
          let below = walk organization_id rows left (child ∷ path) child in
          if includes path child then [] else below)
        (report_ids organization_id rows id)

-- The query: nothing if the root is not in the organization. The first step has depth 1.
unfoldable pub find_subtree_ids : String → String → List Employee → List String
unfolding walk find_employee
find_subtree_ids organization_id root rows = elim (find_employee organization_id root rows) [
  | none ↦ []
  | some employee ↦ walk organization_id rows 63 (root ∷ []) root
]

unfoldable pub is_in_subtree : String → String → String → List Employee → Bool
unfolding find_subtree_ids
is_in_subtree organization_id root candidate rows =
    if str_eq root candidate
    then true
    else includes (find_subtree_ids organization_id root rows) candidate
