-- ===== src/FanOut.antt =====
-- packages/core/src/services/rule-fan-out.ts: the employees whom a change of a rule may concern. An
-- employee is read with the groups that they are in on the day; the table is in the order of the
-- query. The columns hold conditions: the branch for a malformed one is left out. A date is a day.
pub mod Laws
pub mod Edits
mod Tests
use policy_assignment_system.Prelude.{
  ℕ, ◌-◌, String, Bool, true, false, not, ◌&&◌, ◌||◌, Option, none, some, List, [], ◌∷◌, ◌++◌, map,
  keep, length, str_eq, ◌==◌, if◌then◌else◌, ℤ, pos, pos_part, leb_ℤ,
}
use policy_assignment_system.Dates.{Date, day_of}
use policy_assignment_system.Conditions.{EmployeeContext, RuleConditions, evaluate_conditions}
use policy_assignment_system.Engine.{EngineEmployee}
use policy_assignment_system.Engine.Triage.{build_employee_context}
use policy_assignment_system.Assignments.{Assignment}
use policy_assignment_system.Reconcile.{EmployeeStatus, working, terminated}
use policy_assignment_system.Narrowing.{
  CandidateFilter, narrow_conditions, is_exhaustive, is_unnarrowed, selects,
}
use policy_assignment_system.Rules.{PolicyRule, PolicyRuleVersion, find_rule}

pub record Staff : Type 0 where
  pub organization_id : String
  pub status : EmployeeStatus
  pub employee : EngineEmployee

-- What the service reads: the tables, and the groups of an employee on a day.
pub record FanOutReads : Type 0 where
  pub rules : List PolicyRule
  pub versions : List PolicyRuleVersion
  pub assignments : List Assignment
  pub staff : List Staff
  pub groups_on : Date → String → List String

pub record FanOutResult : Type 0 where
  pub employee_ids : List String
  pub swept_whole_organization : Bool
  pub from_current : ℕ
  pub from_previous : ℕ
  pub from_assignments : ℕ

pub record Matching : Type 0 where
  pub ids : List String
  pub swept : Bool

abbrev is_working : EmployeeStatus → Bool
is_working working = true
is_working terminated = false

-- `Array.from(new Set(ids))`
unfoldable pub distinct : List String → List String
distinct [] = []
distinct (id ∷ ids) = id ∷ keep (λ other. not (str_eq other id)) (distinct ids)

abbrev pub context_of : FanOutReads → Date → Staff → EmployeeContext
context_of reads as_of row =
    build_employee_context
      (record row.employee { group_ids = reads.groups_on as_of row.employee.id }) as_of

abbrev pub is_candidate : FanOutReads → String → CandidateFilter → Date → Staff → Bool
is_candidate reads organization_id filter as_of row =
    str_eq row.organization_id organization_id
    && is_working row.status
    && selects filter (context_of reads as_of row) (day_of row.employee.hire_date)

-- `findCandidates`
abbrev pub find_candidates : FanOutReads → String → CandidateFilter → Date → List Staff
find_candidates reads organization_id filter as_of =
    keep (is_candidate reads organization_id filter as_of) reads.staff

abbrev pub is_match : FanOutReads → RuleConditions → Date → Staff → Bool
is_match reads conditions as_of row =
    (evaluate_conditions conditions (context_of reads as_of row)).matched

unfoldable pub matching : FanOutReads → String → RuleConditions → Date → Matching
unfolding evaluate_conditions selects
matching reads organization_id conditions as_of =
    let narrowed = narrow_conditions conditions (day_of as_of) in
    let candidates = find_candidates reads organization_id narrowed.filter as_of in
    record {
      ids =
          if is_exhaustive narrowed
          then map (λ row. row.employee.id) candidates
          else map (λ row. row.employee.id) (keep (is_match reads conditions as_of) candidates);
      swept = is_unnarrowed narrowed.filter;
    }

-- `findVersion`
unfoldable pub find_version : String → ℕ → List PolicyRuleVersion → Option PolicyRuleVersion
find_version rule_id version [] = none
find_version rule_id version (row ∷ rows) =
    let rest = find_version rule_id version rows in
    if str_eq row.rule_id rule_id && row.version == version then some row else rest

abbrev nobody : Matching
nobody = record { ids = []; swept = false }

unfoldable pub previous_matching : FanOutReads → String → String → Option ℤ → Date → Matching
unfolding find_version matching
previous_matching reads organization_id rule_id none as_of = nobody
previous_matching reads organization_id rule_id (some version) as_of =
    if leb_ℤ version (pos 1)
    then nobody
    else elim (find_version rule_id (pos_part version - 1) reads.versions) [
      | none ↦ nobody
      | some snapshot ↦ matching reads organization_id snapshot.state.json.conditions as_of
    ]

-- The employees of the assignments that come from a rule.
abbrev pub holder_ids : FanOutReads → String → String → List String
holder_ids reads organization_id rule_id =
    map (λ row. row.employee_id)
      (keep (λ row. str_eq row.organization_id organization_id && str_eq row.source_rule_id rule_id)
        reads.assignments)

fan_out_rule : FanOutReads → String → PolicyRule → String → Option ℤ → Date → FanOutResult
unfolding matching previous_matching distinct
fan_out_rule reads organization_id rule rule_id rule_version as_of =
    let current = matching reads organization_id rule.state.json.conditions as_of in
    let previous = previous_matching reads organization_id rule_id rule_version as_of in
    let holders = holder_ids reads organization_id rule_id in
    record {
      employee_ids = distinct (current.ids ++ (previous.ids ++ holders));
      swept_whole_organization = current.swept || previous.swept;
      from_current = length current.ids;
      from_previous = length previous.ids;
      from_assignments = length holders;
    }

-- A rule that names an employee concerns that one alone.
abbrev pub target_of : PolicyRule → Option String
target_of rule = elim rule.state.employee_id [
  | none ↦ none
  | some id ↦ if str_eq id "" then none else some id
]

unfoldable pub affected_employee_ids :
    FanOutReads → String → String → Option ℤ → Date → FanOutResult
unfolding find_rule fan_out_rule distinct
affected_employee_ids reads organization_id rule_id rule_version as_of =
    elim (find_rule organization_id rule_id reads.rules) [
      | none ↦
          let ids = distinct (holder_ids reads organization_id rule_id) in
          record {
            employee_ids = ids;
            swept_whole_organization = false;
            from_current = 0;
            from_previous = 0;
            from_assignments = length ids;
          }
      | some rule ↦ elim (target_of rule) [
        | some id ↦ record {
          employee_ids = id ∷ [];
          swept_whole_organization = false;
          from_current = 1;
          from_previous = 0;
          from_assignments = 0;
        }
        | none ↦ fan_out_rule reads organization_id rule rule_id rule_version as_of
      ]
    ]
