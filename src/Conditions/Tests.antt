-- ===== src/Conditions/Tests.antt =====
-- The evaluator at one context, and its properties there.
use policy_assignment_system.Prelude.{
  String, ◌≡◌, refl, ◌⊎◌, ◌↔◌, inl, true, not, ◌&&◌, none, some, [], ◌∷◌, map, In, pos,
}
use policy_assignment_system.Conditions.{
  department, tenure_days, group_id, eq, neq, is_in, not_in, gte, single, many, text, num,
  ConditionClause, ConditionValue, RuleConditions, EmployeeContext, evaluate_conditions, string_of,
  as_list, read_attribute, explain_failure, explain_match,
}
use policy_assignment_system.Conditions.Laws.{
  MatchesAll, FailsAt, asks, unset, evaluate_conditions-splits, negations, group_membership,
}

abbrev bob : EmployeeContext
bob = record {
  employee_id = "e2";
  department_name = none;
  state_name = some "CA";
  country_name = some "US";
  location_name = none;
  employment = "FULL_TIME";
  role_name = none;
  tenure = 400;
  manages = true;
  group_ids = "g1" ∷ "g2" ∷ [];
}

abbrev one_year : ConditionClause
one_year = record { attribute = tenure_days; op = gte; value = single (num (pos 365)) }

abbrev not_sales : ConditionClause
not_sales = record { attribute = department; op = neq; value = single (text "Sales") }

abbrev conditions : RuleConditions
conditions = record { clauses = one_year ∷ not_sales ∷ [] }

abbrev groups : ConditionValue
groups = many (text "g2" ∷ text "g3" ∷ [])

explain_failure_test :
    explain_failure not_sales bob ≡ "condition department neq Sales did not match (not set)"
unfolding explain_failure
explain_failure_test = refl

explain_match_test : explain_match (one_year ∷ []) ≡ "matched tenureDays gte 365"
unfolding explain_match
explain_match_test = refl

evaluate_conditions-splits_example :
    MatchesAll bob (evaluate_conditions conditions bob) conditions.clauses
    ⊎ FailsAt bob (evaluate_conditions conditions bob) conditions.clauses
evaluate_conditions-splits_example = evaluate_conditions-splits conditions bob

negations_example :
    (asks department bob neq (single (text "Sales")) ≡ (
      not (unset (read_attribute department bob))
      && not (asks department bob eq (single (text "Sales")))))
    × (asks department bob not_in groups
        ≡ (not (unset (read_attribute department bob)) && not (asks department bob is_in groups)))
negations_example = negations department bob (text "Sales") groups

group_membership_example :
    (asks group_id bob eq groups ≡ true)
    ↔ ((g : String) × In g (map string_of (as_list groups)) × In g ("g1" ∷ "g2" ∷ []))
group_membership_example = group_membership eq groups bob (inl refl)
