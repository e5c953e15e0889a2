-- ===== src/FanOut/Tests.antt =====
-- A rule for Sales becomes one for Support: both departments are reached, and who holds it.
use policy_assignment_system.Prelude.{String, ◌≡◌, refl, false, none, some, [], ◌∷◌, pos}
use policy_assignment_system.Conditions.{RuleConditions, department, eq, single, text}
use policy_assignment_system.Engine.Triage.{build_employee_context}
use policy_assignment_system.Reconcile.{EmployeeStatus, working, terminated}
use policy_assignment_system.Narrowing.{narrow_conditions}
use policy_assignment_system.Rules.{RuleState, PolicyRule, RuleStore, rule_updated, as_written}
use policy_assignment_system.Rules.Writes.{insert_rule}
use policy_assignment_system.Rules.Tests.{env, created, created_store}
use policy_assignment_system.FanOut.{Staff, FanOutReads, affected_employee_ids}
use policy_assignment_system.Rules.Edits.{edited, edited_store}

abbrev in_support : RuleConditions
in_support = record {
  clauses = record { attribute = department; op = eq; value = single (text "Support") } ∷ [];
}

abbrev moved : RuleState
moved = record created.state { json = record { conditions = in_support; key_order = as_written } }

abbrev staff_member : String → String → EmployeeStatus → Staff
staff_member id team status = record {
  organization_id = "o1";
  status = status;
  employee = record {
    id = id;
    department = some team;
    state = none;
    country = none;
    location = none;
    employment_type = "FULL_TIME";
    role = none;
    is_manager = false;
    hire_date = 0;
    group_ids = [];
  };
}

abbrev reads_of : RuleStore → FanOutReads
reads_of store = record {
  rules = store.rules;
  versions = store.versions;
  assignments = [];
  staff =
      staff_member "e1" "Sales" working
      ∷ staff_member "e2" "Support" working
      ∷ staff_member "e3" "Legal" working
      ∷ staff_member "e4" "Sales" terminated
      ∷ [];
  groups_on = λ day id. [];
}

created_fan_out_test :
    (affected_employee_ids (reads_of created_store) "o1" "r1" (some (pos 1)) 864000000).employee_ids
    ≡ "e1" ∷ []
unfolding affected_employee_ids insert_rule narrow_conditions build_employee_context
created_fan_out_test = refl

abbrev moved_rule : PolicyRule
moved_rule = edited created moved

abbrev moved_store : RuleStore
moved_store = edited_store env "o1" "u1" created moved rule_updated "rule.updated" created_store
