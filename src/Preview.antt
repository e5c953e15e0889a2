-- ===== src/Preview.antt =====
-- packages/core/src/services/resolution.ts: `preview`, which resolves an employee twice, as they are
-- and with some attributes changed, and reports the difference. The winners stand for their DTOs.
pub mod Laws
mod Tests
use policy_assignment_system.Prelude.{
  String, Bool, not, Option, none, some, List, [], ◌∷◌, keep, map, includes, concat, str_eq,
  if◌then◌else◌,
}
use policy_assignment_system.Dates.{Date}
use policy_assignment_system.Engine.{EngineEmployee, ResolutionResult, ResolvedPolicy}
use policy_assignment_system.Engine.Resolve.{resolve}
use policy_assignment_system.Reconcile.{Loads, evaluate}

-- `none` leaves an attribute alone, and `some none` clears it.
pub record EmployeeOverrides : Type 0 where
  pub department : Option (Option String)
  pub state : Option (Option String)
  pub country : Option (Option String)
  pub location : Option (Option String)
  pub employment_type : Option String
  pub role : Option (Option String)
  pub is_manager : Option Bool
  pub hire_date : Option Date
  pub group_ids : Option (List String)

-- `changes.x ?? x`
abbrev pub or_else : {A : Type 0} → Option A → A → A
or_else none old = old
or_else (some new) old = new

unfoldable pub with_changes : EngineEmployee → List String → EmployeeOverrides → EngineEmployee
with_changes employee group_ids changes = record {
  id = employee.id;
  department = or_else changes.department employee.department;
  state = or_else changes.state employee.state;
  country = or_else changes.country employee.country;
  location = or_else changes.location employee.location;
  employment_type = or_else changes.employment_type employee.employment_type;
  role = or_else changes.role employee.role;
  is_manager = or_else changes.is_manager employee.is_manager;
  hire_date = or_else changes.hire_date employee.hire_date;
  group_ids = or_else changes.group_ids group_ids;
}

-- `${categoryId}|${policyId}`
abbrev pub policy_key : ResolvedPolicy → String
policy_key winner = concat (winner.category_id ∷ "|" ∷ winner.policy_id ∷ [])

-- `map.set(policyKey(winner), winner)`: the values of the Map, in the order of its keys.
set : ResolvedPolicy → List ResolvedPolicy → List ResolvedPolicy
set winner [] = winner ∷ []
set winner (held ∷ rest) =
    if str_eq (policy_key held) (policy_key winner) then winner ∷ rest else held ∷ set winner rest

-- `new Map(winners.map(...))`, from a Map.
collect : List ResolvedPolicy → List ResolvedPolicy → List ResolvedPolicy
unfolding set
collect [] values = values
collect (winner ∷ winners) values = collect winners (set winner values)

abbrev pub has_key : List ResolvedPolicy → ResolvedPolicy → Bool
has_key values winner = includes (map policy_key values) (policy_key winner)

pub record PreviewResult : Type 0 where
  pub added : List ResolvedPolicy
  pub removed : List ResolvedPolicy
  pub unchanged : List ResolvedPolicy
  pub resolution : ResolutionResult

unfoldable pub difference : ResolutionResult → ResolutionResult → PreviewResult
unfolding collect
difference baseline hypothetical =
    let before = collect baseline.winners [] in
    let after = collect hypothetical.winners [] in
    record {
      added = keep (λ winner. not (has_key before winner)) after;
      removed = keep (λ winner. not (has_key after winner)) before;
      unchanged = keep (has_key before) after;
      resolution = hypothetical;
    }

-- For an employee that is found, whatever their status.
unfoldable pub preview : EngineEmployee → Loads → Date → EmployeeOverrides → PreviewResult
unfolding difference with_changes
preview employee loads as_of changes = difference (evaluate employee loads as_of) (
    resolve (record {
      employee = with_changes employee loads.group_ids changes;
      rules = loads.rules;
      as_of = as_of;
    }))
