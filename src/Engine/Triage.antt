-- ===== src/Engine/Triage.antt =====
-- packages/core/src/engine/resolve.ts: the employee context, the texts that explain a decision, and
-- the gates that a rule passes before it becomes a candidate.
pub mod Laws
use policy_assignment_system.Prelude.{
  ℕ, String, Bool, true, false, not, ◌==◌, Option, none, some, List, [], ◌∷◌, if◌then◌else◌, concat,
  show, str_eq,
}
use policy_assignment_system.Dates.{Date, tenure_days_as_of, is_effective_on, to_iso_date}
use policy_assignment_system.Conditions.{
  AttributeValues, ConditionClause, ConditionEvaluation, EmployeeContext, evaluate_conditions,
  explain_failure, explain_match,
}
use policy_assignment_system.Engine.{
  EngineEmployee, EngineRule, RuleTrailEntry, ResolvedPolicy, ResolutionDecision, not_matched,
  skipped_disabled, skipped_out_of_window, skipped_policy_inactive, ResolutionStatus, automatic,
  manual_override, is_manual, is_active, is_one_only, status_name, rule_type_name,
}
use policy_assignment_system.Engine.Order.{band_of}

unfoldable pub build_employee_context : EngineEmployee → Date → EmployeeContext
build_employee_context employee as_of = record {
  employee_id = employee.id;
  department_name = employee.department;
  state_name = employee.state;
  country_name = employee.country;
  location_name = employee.location;
  employment = employee.employment_type;
  role_name = employee.role;
  tenure = tenure_days_as_of employee.hire_date as_of;
  manages = employee.is_manager;
  group_ids = employee.group_ids;
}

-- Why the loser lost, by the key that decided it.
unfoldable pub explain_loss : EngineRule → EngineRule → String
explain_loss winner loser =
    if not (winner.priority == loser.priority)
    then concat (
        "priority "
        ∷ show winner.priority
        ∷ " beat "
        ∷ show loser.priority
        ∷ ": rule \""
        ∷ winner.name
        ∷ "\" won"
        ∷ [])
    else if not (band_of winner == band_of loser)
    then concat (
        "priority "
        ∷ show loser.priority
        ∷ " tied, so rule type decided: "
        ∷ rule_type_name winner.rule_type
        ∷ " (band "
        ∷ show (band_of winner)
        ∷ ") beat "
        ∷ rule_type_name loser.rule_type
        ∷ " (band "
        ∷ show (band_of loser)
        ∷ ")"
        ∷ [])
    else if not (winner.created_at == loser.created_at)
    then concat (
        "priority "
        ∷ show loser.priority
        ∷ " and rule type "
        ∷ rule_type_name loser.rule_type
        ∷ " tied, so age decided: the older rule \""
        ∷ winner.name
        ∷ "\" won"
        ∷ [])
    else concat (
        "priority "
        ∷ show loser.priority
        ∷ ", rule type "
        ∷ rule_type_name loser.rule_type
        ∷ " and creation time all tied, so the rule id decided: "
        ∷ winner.id
        ∷ " sorts before "
        ∷ loser.id
        ∷ [])

-- Why the winner won.
unfoldable pub explain_win : EngineRule → ConditionEvaluation → ℕ → String
explain_win rule evaluation competitors =
    let matched = explain_match evaluation.matched_clauses in
    if not (is_one_only rule.cardinality)
    then concat
        (matched ∷ "; category \"" ∷ rule.category_key ∷ "\" allows multiple assignments" ∷ [])
    else if competitors == 0
    then concat
        (matched ∷ "; the only matching rule in category \"" ∷ rule.category_key ∷ "\"" ∷ [])
    else concat (
        matched
        ∷ "; won on priority "
        ∷ show rule.priority
        ∷ " against "
        ∷ show competitors
        ∷ " other matching rule"
        ∷ (if competitors == 1 then "" else "s")
        ∷ [])

clauses_of : Option ConditionEvaluation → List ConditionClause
clauses_of none = []
clauses_of (some evaluation) = evaluation.matched_clauses

failed_of : Option ConditionEvaluation → Option ConditionClause
failed_of none = none
failed_of (some evaluation) = evaluation.failed_clause

values_of : Option ConditionEvaluation → AttributeValues
values_of none = []
values_of (some evaluation) = evaluation.attribute_values

unfoldable pub trail_entry :
    EngineRule → ResolutionDecision → String → Option ConditionEvaluation → RuleTrailEntry
unfolding clauses_of failed_of values_of
trail_entry rule decision reason evaluation = record {
  rule_id = rule.id;
  rule_version = rule.version;
  rule_name = rule.name;
  rule_type = rule.rule_type;
  priority = rule.priority;
  policy_id = rule.policy_id;
  category_id = rule.category_id;
  decision = decision;
  reason = reason;
  matched_clauses = clauses_of evaluation;
  failed_clause = failed_of evaluation;
  attribute_values = values_of evaluation;
}

resolution_status_of : EngineRule → ResolutionStatus
resolution_status_of rule = if is_manual rule.rule_type then manual_override else automatic

unfoldable pub to_resolved_policy : EngineRule → String → ResolvedPolicy
unfolding resolution_status_of
to_resolved_policy rule reason = record {
  policy_id = rule.policy_id;
  policy_name = rule.policy_name;
  category_id = rule.category_id;
  category_key = rule.category_key;
  category_name = rule.category_name;
  cardinality = rule.cardinality;
  rule_id = rule.id;
  rule_version = rule.version;
  rule_name = rule.name;
  rule_type = rule.rule_type;
  priority = rule.priority;
  resolution_status = resolution_status_of rule;
  reason = reason;
}

-- A rule that passed every gate and matched, with its evaluation.
pub record Candidate : Type 0 where
  pub rule : EngineRule
  pub evaluation : ConditionEvaluation

-- What the loop of `resolve` does with one rule: a trail entry, or a candidate.
pub data Triage : Type 0 where
  pushed : RuleTrailEntry → Triage
  kept : Candidate → Triage

-- A manual rule of somebody else.
targets_another : EngineRule → EngineEmployee → Bool
targets_another rule employee = elim rule.employee_id [
  | none ↦ false
  | some target ↦ not (str_eq target employee.id)
]

target_text : Option String → String
target_text none = "null"
target_text (some target) = target

window_text : EngineRule → String
window_text rule = elim rule.effective_to [
  | none ↦ concat (to_iso_date rule.effective_from ∷ " onwards" ∷ [])
  | some end ↦
      concat (to_iso_date rule.effective_from ∷ " to " ∷ to_iso_date end ∷ " (exclusive)" ∷ [])
]

mismatch_text : ConditionEvaluation → EmployeeContext → String
mismatch_text evaluation context = elim evaluation.failed_clause [
  | none ↦ "conditions did not match"
  | some failed ↦ explain_failure failed context
]

-- The last gate: the conditions.
triage_conditions : EngineRule → EmployeeContext → ConditionEvaluation → Triage
unfolding mismatch_text
triage_conditions rule context evaluation =
    if not evaluation.matched
    then pushed (trail_entry rule not_matched (mismatch_text evaluation context) (some evaluation))
    else kept (record { rule = rule; evaluation = evaluation })

unfoldable pub triage : EngineEmployee → Date → EmployeeContext → EngineRule → Triage
unfolding targets_another target_text window_text triage_conditions
triage employee as_of context rule =
    if targets_another rule employee
    then pushed (
        trail_entry rule not_matched
          (concat (
            "manual override targets a different employee ("
            ∷ target_text rule.employee_id
            ∷ ")"
            ∷ []))
          none)
    else if not rule.enabled
    then pushed (trail_entry rule skipped_disabled "rule is disabled" none)
    else if not (
        is_effective_on
          (record { effective_from = rule.effective_from; effective_to = rule.effective_to }) as_of)
    then pushed (
        trail_entry rule skipped_out_of_window
          (concat (
            "as of "
            ∷ to_iso_date as_of
            ∷ " the rule is outside its effective window: "
            ∷ window_text rule
            ∷ []))
          none)
    else if not (is_active rule.policy_status)
    then pushed (
        trail_entry rule skipped_policy_inactive
          (concat (
            "policy \""
            ∷ rule.policy_name
            ∷ "\" is "
            ∷ status_name rule.policy_status
            ∷ ", not ACTIVE"
            ∷ []))
          none)
    else triage_conditions rule context (evaluate_conditions rule.conditions context)
