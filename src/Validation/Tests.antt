-- ===== src/Validation/Tests.antt =====
-- Conditions that are accepted, and some that are not.
use policy_assignment_system.Prelude.{◌≡◌, ◌↔◌, refl, none, some, [], ◌∷◌}
use policy_assignment_system.Conditions.{
  ConditionClause, department, gte, single, text, attribute_name, operator_name,
}
use policy_assignment_system.Narrowing.Tests.{in_us, some_group}
use policy_assignment_system.Validation.{
  only_numeric, duplicate, clause_issue, conditions_issues, has_type,
}
use policy_assignment_system.Validation.Types.{WellTyped, clause_issue-none_iff}

abbrev ordered_text : ConditionClause
ordered_text = record { attribute = department; op = gte; value = single (text "Sales") }

ordered_text_test : clause_issue ordered_text ≡ some (only_numeric ordered_text)
unfolding clause_issue
ordered_text_test = refl

duplicate_test :
    conditions_issues (record { clauses = some_group ∷ some_group ∷ [] })
    ≡ duplicate some_group ∷ []
unfolding conditions_issues clause_issue has_type attribute_name operator_name
duplicate_test = refl

clause_issue-none_iff_example : (clause_issue in_us ≡ none) ↔ WellTyped in_us
clause_issue-none_iff_example = clause_issue-none_iff in_us
