-- ===== src/Engine/Triage/Laws.antt =====
-- The gates: which rules become candidates.
use policy_assignment_system.Prelude.{
  ◌≡◌, ◌⊎◌, ◌↔◌, true, false, not, none, some, All, arith, eq_iff, str_eq,
}
use policy_assignment_system.Dates.{Date, is_effective_on}
use policy_assignment_system.Dates.Laws.{Covers, is_effective_on_iff}
use policy_assignment_system.Conditions.{EmployeeContext, evaluate_conditions}
use policy_assignment_system.Conditions.Laws.{Holds, evaluate_conditions-matched_iff}
use policy_assignment_system.Engine.{EngineEmployee, EngineRule, RuleTrailEntry, active}
use policy_assignment_system.Engine.Triage.{
  Candidate, pushed, kept, triage, targets_another, trail_entry,
}

-- What a rule needs to compete for an employee on a day.
pub record IsEligible (employee : EngineEmployee) (as_of : Date) (context : EmployeeContext)
    (rule : EngineRule) : Type 0 where
  pub for_employee : (rule.employee_id ≡ none) ⊎ (rule.employee_id ≡ some employee.id)
  pub enabled : rule.enabled ≡ true
  pub in_window : Covers rule.effective_from rule.effective_to as_of
  pub policy_active : rule.policy_status ≡ active
  pub conditions_hold : All (Holds context) rule.conditions.clauses

abbrev pub candidate_of : EmployeeContext → EngineRule → Candidate
candidate_of context rule = record {
  rule = rule;
  evaluation = evaluate_conditions rule.conditions context;
}

module _ (employee : EngineEmployee) (as_of : Date) (context : EmployeeContext)
    (rule : EngineRule) where
  triage-gates : (triage employee as_of context rule ≡ kept (candidate_of context rule)) ↔ (
      (targets_another rule employee ≡ false)
      × (rule.enabled ≡ true)
      × (is_effective_on
            (record { effective_from = rule.effective_from; effective_to = rule.effective_to })
            as_of
          ≡ true)
      × (rule.policy_status ≡ active)
      × ((evaluate_conditions rule.conditions context).matched ≡ true))
  unfolding triage
  triage-gates = ground arith

  targets_another_iff :
      (targets_another rule employee ≡ false)
      ↔ ((rule.employee_id ≡ none) ⊎ (rule.employee_id ≡ some employee.id))
  unfolding targets_another
  targets_another_iff =
      elim rule.employee_id
        as (λ target.
          ((elim target [ none ↦ false | some t ↦ not (str_eq t employee.id) ]) ≡ false)
          ↔ ((target ≡ none) ⊎ (target ≡ some employee.id))) [
            | none ↦ ground arith
            | some t ↦ ground (arith, eq_iff t employee.id)
          ]

  -- A rule becomes a candidate, with its own evaluation, exactly if it is eligible.
  pub triage-kept_iff :
      (triage employee as_of context rule ≡ kept (candidate_of context rule))
      ↔ IsEligible employee as_of context rule
  triage-kept_iff = (
    λ e.
        let (mine, enabled, window, live, matched) = triage-gates.0 e in
        record {
          for_employee = targets_another_iff.0 mine;
          enabled = enabled;
          in_window = (is_effective_on_iff rule.effective_from rule.effective_to as_of).0 window;
          policy_active = live;
          conditions_hold = (evaluate_conditions-matched_iff rule.conditions context).0 matched;
        },
    λ h. triage-gates.1 (
      targets_another_iff.1 h.for_employee,
      h.enabled,
      (is_effective_on_iff rule.effective_from rule.effective_to as_of).1 h.in_window,
      h.policy_active,
      (evaluate_conditions-matched_iff rule.conditions context).1 h.conditions_hold,
    ),
  )

  -- What is kept is the rule with its own evaluation; what is pushed is an entry for the rule.
  pub triage-cases :
      (triage employee as_of context rule ≡ kept (candidate_of context rule))
      ⊎ ((entry : RuleTrailEntry) × (triage employee as_of context rule ≡ pushed entry)
          × (entry.rule_id ≡ rule.id)
          × (entry.category_id ≡ rule.category_id))
  unfolding triage trail_entry
  triage-cases = ground arith
