-- ===== src/Rules/Requests.antt =====
-- apps/api/src/services/rule.ts: the operations on rules that the controllers call.
use policy_assignment_system.Prelude.{
  ℕ, String, Bool, true, false, not, ◌&&◌, Option, none, some, [], ◌∷◌, concat, leb, str_eq,
  if◌then◌else◌,
}
use policy_assignment_system.Dates.{Date}
use policy_assignment_system.Conditions.{RuleConditions}
use policy_assignment_system.Engine.{RuleType, manual, is_manual, priority_band}
use policy_assignment_system.Rules.{
  as_written, JsonConditions, RuleState, PolicyRule, RuleAction, rule_created, rule_updated,
  rule_priority_changed, rule_enabled, rule_disabled, rule_deleted, override_created,
  override_deleted, RuleStore, RuleEnv, policy_not_found, employee_not_found, rule_not_found,
  not_an_override, invalid_effective_range, Outcome, failed, done, find_rule,
}
use policy_assignment_system.Rules.Writes.{new_rule, insert_rule, apply_edit, retire}

pub record CreateRuleInput : Type 0 where
  pub policy_id : String
  pub employee_id : Option String
  pub name : String
  pub rule_type : RuleType
  pub priority : Option ℕ
  pub conditions : RuleConditions
  pub enabled : Option Bool
  pub effective_from : Date
  pub effective_to : Option Date

-- `effectiveTo` may be left out, be null, or be a date.
pub record PatchRuleInput : Type 0 where
  pub policy_id : Option String
  pub name : Option String
  pub priority : Option ℕ
  pub conditions : Option RuleConditions
  pub enabled : Option Bool
  pub effective_from : Option Date
  pub effective_to : Option (Option Date)

pub record CreateOverrideInput : Type 0 where
  pub policy_id : String
  pub name : Option String
  pub priority : Option ℕ
  pub effective_from : Date
  pub effective_to : Option Date

-- `given ?? fallback`
abbrev pub or_else {ℓ} : {A : Type ℓ} → Option A → A → A
or_else none fallback = fallback
or_else (some given) fallback = given

abbrev pub is_missing {ℓ} : {A : Type ℓ} → Option A → Bool
is_missing none = true
is_missing (some a) = false

abbrev pub given_conditions : Option RuleConditions → JsonConditions → JsonConditions
given_conditions none before = before
given_conditions (some conditions) before = record {
  conditions = conditions;
  key_order = as_written;
}

-- The state of a new rule: without a priority it takes its type's band.
abbrev pub initial_state : CreateRuleInput → RuleState
initial_state input = record {
  policy_id = input.policy_id;
  employee_id = input.employee_id;
  name = input.name;
  priority = or_else input.priority (priority_band input.rule_type);
  json = record { conditions = input.conditions; key_order = as_written };
  enabled = or_else input.enabled true;
  effective_from = input.effective_from;
  effective_to = input.effective_to;
}

-- An employee is named, not by an empty text, and is not there.
abbrev pub names_nobody : RuleEnv → String → Option String → Bool
names_nobody env organization_id none = false
names_nobody env organization_id (some id) =
    not (str_eq id "") && is_missing (env.employees organization_id id)

-- `createRule`
unfoldable pub create_rule :
    RuleEnv → String → String → CreateRuleInput → RuleAction → RuleStore → Outcome
unfolding insert_rule
create_rule env organization_id actor_id input action store =
    if is_missing (env.policies organization_id input.policy_id)
    then failed policy_not_found
    else if names_nobody env organization_id input.employee_id
    then failed employee_not_found
    else let rule = new_rule env organization_id input.rule_type (initial_state input) in
      done rule (insert_rule env actor_id action rule store)

-- A policy is given that is neither the rule's nor there.
abbrev pub names_no_policy : RuleEnv → String → Option String → PolicyRule → Bool
names_no_policy env organization_id none before = false
names_no_policy env organization_id (some id) before =
    not (str_eq id "")
    && not (str_eq id before.state.policy_id)
    && is_missing (env.policies organization_id id)

abbrev pub patched : PatchRuleInput → RuleState → RuleState
patched input before = record {
  policy_id = or_else input.policy_id before.policy_id;
  employee_id = before.employee_id;
  name = or_else input.name before.name;
  priority = or_else input.priority before.priority;
  json = given_conditions input.conditions before.json;
  enabled = or_else input.enabled before.enabled;
  effective_from = or_else input.effective_from before.effective_from;
  effective_to = or_else input.effective_to before.effective_to;
}

-- What `assertSaneWindow` refuses.
abbrev pub is_insane_window : RuleState → Bool
is_insane_window state = elim state.effective_to [
  | none ↦ false
  | some end ↦ leb end state.effective_from
]

-- `requireRule`, and what an operation does with the rule.
abbrev pub with_rule : String → String → RuleStore → (PolicyRule → Outcome) → Outcome
with_rule organization_id id store act = elim (find_rule organization_id id store.rules) [
  | none ↦ failed rule_not_found
  | some before ↦ act before
]

-- What the controllers ask for.
pub data Request : Type 0 where
  create : CreateRuleInput → Request
  patch : (id : String) → PatchRuleInput → Request
  set_priority : (id : String) → ℕ → Request
  set_enabled : (id : String) → Bool → Request
  soft_delete : (id : String) → Request
  create_override : (employee_id : String) → CreateOverrideInput → Request
  delete_override : (id : String) → Request

abbrev pub override_input : String → String → String → CreateOverrideInput → CreateRuleInput
override_input policy_name employee_name employee_id input = record {
  policy_id = input.policy_id;
  employee_id = some employee_id;
  name =
      or_else input.name
        (concat ("Manual override: " ∷ policy_name ∷ " for " ∷ employee_name ∷ []));
  rule_type = manual;
  priority = some (or_else input.priority (priority_band manual));
  conditions = record { clauses = [] };
  enabled = none;
  effective_from = input.effective_from;
  effective_to = input.effective_to;
}

unfoldable pub perform : RuleEnv → String → String → Request → RuleStore → Outcome
unfolding create_rule apply_edit retire
perform env organization_id actor_id (create input) store =
    create_rule env organization_id actor_id input rule_created store
perform env organization_id actor_id (patch id input) store =
    with_rule organization_id id store (λ before.
      if names_no_policy env organization_id input.policy_id before
      then failed policy_not_found
      else if is_insane_window (patched input before.state)
      then failed invalid_effective_range
      else apply_edit env organization_id actor_id before (patched input before.state) rule_updated
          "rule.updated" store)
perform env organization_id actor_id (set_priority id priority) store =
    with_rule organization_id id store (λ before.
      apply_edit env organization_id actor_id before (record before.state { priority = priority })
        rule_priority_changed "rule.updated" store)
perform env organization_id actor_id (set_enabled id enabled) store =
    with_rule organization_id id store (λ before.
      apply_edit env organization_id actor_id before (record before.state { enabled = enabled })
        (if enabled then rule_enabled else rule_disabled)
        (if enabled then "rule.enabled" else "rule.disabled") store)
perform env organization_id actor_id (soft_delete id) store =
    with_rule organization_id id store
      (λ before. retire env organization_id actor_id before rule_deleted store)
perform env organization_id actor_id (create_override employee_id input) store =
    elim (env.employees organization_id employee_id) [
      | none ↦ failed employee_not_found
      | some employee_name ↦ elim (env.policies organization_id input.policy_id) [
        | none ↦ failed policy_not_found
        | some policy_name ↦
            create_rule env organization_id actor_id
              (override_input policy_name employee_name employee_id input) override_created store
      ]
    ]
perform env organization_id actor_id (delete_override id) store =
    with_rule organization_id id store (λ before.
      if is_manual before.rule_type
      then retire env organization_id actor_id before override_deleted store
      else failed not_an_override)
