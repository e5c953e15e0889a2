-- ===== src/Rules/Tests.antt =====
-- A rule is created, edited, turned off and deleted.
use policy_assignment_system.Prelude.{
  arith, ◌+◌, ◌≡◌, ◌↔◌, refl, true, false, none, some, [], ◌∷◌, ◌++◌, pos,
}
use policy_assignment_system.Dates.{is_effective_on}
use policy_assignment_system.Conditions.{RuleConditions, department, eq, single, text}
use policy_assignment_system.Engine.{by_department, priority_band}
use policy_assignment_system.Outbox.{OutboxEvent}
use policy_assignment_system.Relay.{fan_out, plan, text_of}
use policy_assignment_system.Rules.{
  as_written, RuleState, PolicyRule, RuleStore, RuleEnv, rule_created, rule_updated,
  invalid_effective_range, failed, done, find_rule, rule_payload,
}
use policy_assignment_system.Rules.Writes.{
  stored, has_evaluable_change, new_rule, enqueue_rule, insert_rule, apply_edit,
}
use policy_assignment_system.Rules.Requests.{
  CreateRuleInput, PatchRuleInput, create, patch, set_enabled, soft_delete, initial_state, perform,
  create_rule,
}
use policy_assignment_system.Rules.Json.{same_json}
use policy_assignment_system.Rules.Versions.{Unchanged, has_evaluable_change-false_iff}
use policy_assignment_system.Rules.Reachable.{
  StoreIsExplained, Reachable, start, step, Reachable-IsExplained,
}
use policy_assignment_system.Rules.Laws.{
  period_of, IsEdit, soft_delete-retires, apply_edit-effects, set_enabled-back, enqueue_rule-plan,
}

abbrev in_sales : RuleConditions
in_sales = record {
  clauses = record { attribute = department; op = eq; value = single (text "Sales") } ∷ [];
}

abbrev pub env : RuleEnv
env = record {
  today = 864000000;
  now = 864000000;
  rule_id = "r1";
  event_id = "v1";
  policies = λ organization_id id. some "Laptop";
  employees = λ organization_id id. none;
}

abbrev input : CreateRuleInput
input = record {
  policy_id = "p1";
  employee_id = none;
  name = "Sales laptops";
  rule_type = by_department;
  priority = none;
  conditions = in_sales;
  enabled = none;
  effective_from = 0;
  effective_to = none;
}

abbrev empty_store : RuleStore
empty_store = record { rules = []; versions = []; audits = []; outbox = [] }

abbrev pub created : PolicyRule
created = new_rule env "o1" by_department (initial_state input)

abbrev pub created_store : RuleStore
created_store = insert_rule env "u1" rule_created created empty_store

created_test : perform env "o1" "u1" (create input) empty_store ≡ done created created_store
unfolding perform create_rule
created_test = refl

pub created_found : find_rule "o1" "r1" created_store.rules ≡ some created
unfolding find_rule insert_rule
created_found = refl

created-Reachable : Reachable created_store
created-Reachable =
    step (start refl refl) env "o1" "u1" (create input) created (λ r m. elim m [ ]) created_test

pub created_explained : StoreIsExplained created_store
created_explained = Reachable-IsExplained created-Reachable

Reachable-IsExplained_example : StoreIsExplained created_store
Reachable-IsExplained_example = Reachable-IsExplained created-Reachable

soft_delete-retires_example :
    (rule : PolicyRule) × (next : RuleStore) × (perform env "o1" "u1"
        (soft_delete "r1")
        created_store
      ≡ done rule next)
    × (find_rule "o1" "r1" next.rules ≡ some rule)
    × (rule.state.enabled ≡ false)
    × (is_effective_on (period_of rule.state) 950400000 ≡ false)
soft_delete-retires_example =
    soft_delete-retires env "o1" "u1" "r1" created_store created created_found 950400000
      (omega arith)

abbrev renamed : RuleState
renamed = record created.state { name = "Laptops" }

apply_edit-effects_example :
    (rule : PolicyRule) × (after : RuleStore) × (apply_edit env "o1" "u1" created renamed
        rule_updated "rule.updated" created_store
      ≡ done rule after)
    × IsEdit env "o1" "u1" "r1" created_store created created_found renamed "rule.updated" rule
        after
apply_edit-effects_example =
    apply_edit-effects env "o1" "u1" "r1" created_store created created_found renamed rule_updated
      "rule.updated"

set_enabled-back_example :
    (first : PolicyRule) × (middle : RuleStore) × (perform env "o1" "u1"
        (set_enabled "r1" false)
        created_store
      ≡ done first middle)
    × ((second : PolicyRule) × (last : RuleStore) × (perform env "o1" "u1"
            (set_enabled "r1" true)
            middle
          ≡ done second last)
        × (second.state ≡ stored created.state)
        × (second.version ≡ 1 + 2))
set_enabled-back_example =
    set_enabled-back env env "o1" "u1" "r1" created_store created true created_found refl

enqueue_rule-plan_example :
    (row : OutboxEvent) × (enqueue_rule env "rule.created" created [] ≡ [] ++ row ∷ [])
    × (row.aggregate_id ≡ "r1")
    × (plan row ≡ fan_out "r1" (some (pos 1)) (text_of (rule_payload created).effective_from))
enqueue_rule-plan_example =
    enqueue_rule-plan env "rule.created" created [] (λ e. cc e) (λ e. cc e) (λ e. cc e)

has_evaluable_change-false_iff_example :
    (has_evaluable_change created.state renamed ≡ false) ↔ Unchanged created.state renamed
has_evaluable_change-false_iff_example = has_evaluable_change-false_iff created.state renamed

-- The conditions that the column gave back, sent once more: the keys come in another order, and the
-- edit counts as a change.
same_conditions_test :
    has_evaluable_change created.state
      (record created.state { json = record { conditions = in_sales; key_order = as_written } })
    ≡ true
unfolding has_evaluable_change same_json priority_band
same_conditions_test = refl

-- A rule that was deleted before its start cannot be renamed: its window is empty.
abbrev no_patch : PatchRuleInput
no_patch = record {
  policy_id = none;
  name = none;
  priority = none;
  conditions = none;
  enabled = none;
  effective_from = none;
  effective_to = none;
}

abbrev withdrawn : PolicyRule
withdrawn = record created {
  state = record created.state { effective_from = 950400000; effective_to = some 950400000 };
}

rename_withdrawn_test :
    perform env "o1" "u1"
      (patch "r1" (record no_patch { name = some "Laptops" }))
      (record empty_store { rules = withdrawn ∷ [] })
    ≡ failed invalid_effective_range
unfolding perform find_rule
rename_withdrawn_test = refl
