-- ===== src/Narrowing/Tests.antt =====
-- A query that finds an employee, and two that do not do what the conditions ask.
use policy_assignment_system.Prelude.{◌≡◌, refl, All, true, false, none, some, [], ◌∷◌, pos}
use policy_assignment_system.Dates.{civil_of}
use policy_assignment_system.Conditions.{
  ConditionClause, RuleConditions, EmployeeContext, country, tenure_days, group_id, eq, is_in, gte,
  gt, single, many, text, num, fraction, evaluate_conditions, matches_clause,
}
use policy_assignment_system.Narrowing.{narrow_conditions, selects, is_exhaustive, is_unnarrowed}
use policy_assignment_system.Narrowing.Candidates.{IsExact}
use policy_assignment_system.Narrowing.Steps.{is_strict_fraction}

abbrev pub carol : EmployeeContext
carol = record {
  employee_id = "e3";
  department_name = none;
  state_name = none;
  country_name = some "US";
  location_name = none;
  employment = "FULL_TIME";
  role_name = none;
  tenure = 400;
  manages = true;
  group_ids = "g1" ∷ "g2" ∷ [];
}

abbrev pub in_us : ConditionClause
in_us = record { attribute = country; op = is_in; value = many (text "CA" ∷ text "US" ∷ []) }

abbrev a_year : ConditionClause
a_year = record { attribute = tenure_days; op = gte; value = single (num (pos 365)) }

abbrev pub some_group : ConditionClause
some_group = record { attribute = group_id; op = is_in; value = many (text "g2" ∷ text "g3" ∷ []) }

abbrev pub conditions : RuleConditions
conditions = record { clauses = in_us ∷ a_year ∷ some_group ∷ [] }

pub conditions_hold : (evaluate_conditions conditions carol).matched ≡ true
unfolding evaluate_conditions matches_clause
conditions_hold = refl

pub All-IsExact : All IsExact conditions.clauses
unfolding is_strict_fraction
All-IsExact = (refl, (refl, (refl, tt)))

-- Two clauses on groups whose lists have nothing in common make an empty list, which the query does
-- not restrict by: everybody is selected, and nothing is left to evaluate.
abbrev disjoint : RuleConditions
disjoint = record {
  clauses =
      record { attribute = group_id; op = eq; value = single (text "g1") }
      ∷ record { attribute = group_id; op = is_in; value = many (text "g9" ∷ []) }
      ∷ [];
}

disjoint-selects_test : selects (narrow_conditions disjoint 1000).filter carol 600 ≡ true
unfolding narrow_conditions selects
disjoint-selects_test = refl

disjoint_exhaustive_test : is_exhaustive (narrow_conditions disjoint 1000) ≡ true
unfolding narrow_conditions
disjoint_exhaustive_test = refl

disjoint_unmatched_test : (evaluate_conditions disjoint carol).matched ≡ false
unfolding evaluate_conditions matches_clause
disjoint_unmatched_test = refl

-- Somebody hired after the day has a tenure of no days, which `tenureDays gte 0` matches; but the
-- query asks for a hire date of that day or before.
abbrev any_tenure : RuleConditions
any_tenure = record {
  clauses = record { attribute = tenure_days; op = gte; value = single (num (pos 0)) } ∷ [];
}

future_matched_test : (evaluate_conditions any_tenure (record carol { tenure = 0 })).matched ≡ true
unfolding evaluate_conditions matches_clause
future_matched_test = refl

future_unselected_test :
    selects (narrow_conditions any_tenure 1000).filter (record carol { tenure = 0 }) 1001 ≡ false
unfolding narrow_conditions selects
future_unselected_test = refl

unnarrowed_test : is_unnarrowed (narrow_conditions (record { clauses = [] }) 1000).filter ≡ true
unfolding narrow_conditions is_unnarrowed
unnarrowed_test = refl

narrowed_test : is_unnarrowed (narrow_conditions conditions 1000).filter ≡ false
unfolding narrow_conditions is_unnarrowed
narrowed_test = refl

-- `tenureDays gt 1.5`, asked on the 28th of a month: someone hired two days before matches, but the date
-- that the query asks for, 2.5 days before, is cut down to three days before.
abbrev fractional : RuleConditions
fractional = record {
  clauses =
      record { attribute = tenure_days; op = gt; value = single (fraction "1.5" (pos 1)) } ∷ [];
}

day_test : (civil_of 1000).day ≡ 28
unfolding civil_of
day_test = refl

fractional_matched_test :
    (evaluate_conditions fractional (record carol { tenure = 2 })).matched ≡ true
unfolding evaluate_conditions matches_clause
fractional_matched_test = refl

fractional_unselected_test :
    selects (narrow_conditions fractional 1000).filter (record carol { tenure = 2 }) 998 ≡ false
unfolding narrow_conditions selects civil_of
fractional_unselected_test = refl
