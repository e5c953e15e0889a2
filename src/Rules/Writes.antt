-- ===== src/Rules/Writes.antt =====
-- apps/api/src/services/rule.ts: the two transactions that write rules, the one that creates
-- and the one that edits, with what they call in the repositories of rules and of versions.
use policy_assignment_system.Prelude.{
  ℕ, ◌+◌, String, Bool, true, false, not, ◌&&◌, ◌||◌, Option, none, some, List, [], ◌∷◌, ◌++◌, map,
  keep, length, ltb, ◌==◌, str_eq, if◌then◌else◌,
}
use policy_assignment_system.Dates.{Date}
use policy_assignment_system.Engine.{RuleType}
use policy_assignment_system.Outbox.{OutboxEvent, enqueue}
use policy_assignment_system.Rules.{
  as_stored, RuleState, PolicyRule, PolicyRuleVersion, RuleAction, RuleStore, RuleEnv,
  rule_not_found, Outcome, failed, done, find_rule, audit_snapshot, rule_payload,
}
use policy_assignment_system.Rules.Json.{same_json}

-- What the columns hold of a state.
abbrev pub stored : RuleState → RuleState
stored state = record state { json = record state.json { key_order = as_stored } }

abbrev pub eq_text : Option String → Option String → Bool
eq_text none none = true
eq_text (some s) (some t) = str_eq s t
eq_text _ _ = false

abbrev pub eq_date : Option Date → Option Date → Bool
eq_date none none = true
eq_date (some s) (some t) = s == t
eq_date _ _ = false

abbrev pub eq_enabled : Bool → Bool → Bool
eq_enabled a b = if a then b else not b

-- The fields that the engine reads: all but the name.
unfoldable pub has_evaluable_change : RuleState → RuleState → Bool
unfolding same_json
has_evaluable_change before next =
    not (str_eq before.policy_id next.policy_id)
    || not (eq_text before.employee_id next.employee_id)
    || not (before.priority == next.priority)
    || not (eq_enabled before.enabled next.enabled)
    || not (before.effective_from == next.effective_from)
    || not (eq_date before.effective_to next.effective_to)
    || not (same_json before.json next.json)

-- The immutable snapshot of a rule's current version.
abbrev pub snapshot : String → PolicyRule → PolicyRuleVersion
snapshot actor_id rule = record {
  rule_id = rule.id;
  version = rule.version;
  rule_type = rule.rule_type;
  state = stored rule.state;
  created_by = some actor_id;
}

unfoldable pub enqueue_rule : RuleEnv → String → PolicyRule → List OutboxEvent → List OutboxEvent
unfolding enqueue
enqueue_rule env event_type rule rows =
    enqueue env.event_id env.now none rule.organization_id event_type "policy_rule" rule.id
      (rule_payload rule) rows

abbrev pub new_rule : RuleEnv → String → RuleType → RuleState → PolicyRule
new_rule env organization_id rule_type state = record {
  id = env.rule_id;
  organization_id = organization_id;
  rule_type = rule_type;
  version = 1;
  state = stored state;
}

-- The transaction of `createRule`.
unfoldable pub insert_rule : RuleEnv → String → RuleAction → PolicyRule → RuleStore → RuleStore
unfolding enqueue_rule
insert_rule env actor_id action rule store = record {
  rules = store.rules ++ rule ∷ [];
  versions = store.versions ++ snapshot actor_id rule ∷ [];
  audits =
      store.audits
      ++ record {
        actor_id = actor_id;
        action = action;
        entity_id = rule.id;
        before_state = none;
        after_state = audit_snapshot rule;
        minted_version = none;
      }
        ∷ [];
  outbox = enqueue_rule env "rule.created" rule store.outbox;
}

abbrev pub names : String → String → PolicyRule → Bool
names organization_id id rule = str_eq rule.id id && str_eq rule.organization_id organization_id

-- What `UPDATE ... WHERE id AND organization_id` makes of a row.
unfoldable pub update_row : String → String → RuleState → ℕ → PolicyRule → PolicyRule
update_row organization_id id next version rule =
    if names organization_id id rule
    then record rule { state = stored next; version = version }
    else rule

-- The table after the update; the count of rows is `matching_rows`.
abbrev pub update_rules : String → String → RuleState → ℕ → List PolicyRule → List PolicyRule
update_rules organization_id id next version rules =
    map (update_row organization_id id next version) rules

abbrev pub matching_rows : String → String → List PolicyRule → ℕ
matching_rows organization_id id rules = length (keep (names organization_id id) rules)

abbrev pub next_version : PolicyRule → RuleState → ℕ
next_version before next =
    if has_evaluable_change before.state next then before.version + 1 else before.version

-- What the transaction of `applyEdit` adds, once it has read back the row.
unfoldable pub record_edit :
    RuleEnv
    → String
    → PolicyRule
    → RuleState
    → RuleAction
    → String
    → List PolicyRule
    → PolicyRule
    → RuleStore
    → RuleStore
unfolding has_evaluable_change enqueue_rule
record_edit env actor_id before next action event_type rules row store =
    let evaluable = has_evaluable_change before.state next in
    record {
      rules = rules;
      versions = if evaluable then store.versions ++ snapshot actor_id row ∷ [] else store.versions;
      audits =
          store.audits
          ++ record {
            actor_id = actor_id;
            action = action;
            entity_id = before.id;
            before_state = some (audit_snapshot before);
            after_state = audit_snapshot row;
            minted_version = if evaluable then some (before.version + 1) else none;
          }
            ∷ [];
      outbox = if evaluable then enqueue_rule env event_type row store.outbox else store.outbox;
    }

-- `applyEdit`: `before` was read ahead of the transaction.
unfoldable pub apply_edit :
    RuleEnv → String → String → PolicyRule → RuleState → RuleAction → String → RuleStore → Outcome
unfolding update_row find_rule record_edit has_evaluable_change
apply_edit env organization_id actor_id before next action event_type store =
    let rules =
      update_rules organization_id before.id next (next_version before next) store.rules in
    if matching_rows organization_id before.id store.rules == 0
    then failed rule_not_found
    else elim (find_rule organization_id before.id rules) [
      | none ↦ failed rule_not_found
      | some row ↦ done row (record_edit env actor_id before next action event_type rules row store)
    ]

-- The state that `retire` asks for: disabled, and ended on the day, or on its start if that is later.
abbrev pub retired : Date → RuleState → RuleState
retired today state = record state {
  enabled = false;
  effective_to = some (if ltb today state.effective_from then state.effective_from else today);
}

-- `retire`
unfoldable pub retire : RuleEnv → String → String → PolicyRule → RuleAction → RuleStore → Outcome
unfolding apply_edit
retire env organization_id actor_id before action store =
    apply_edit env organization_id actor_id before (retired env.today before.state) action
      "rule.deleted" store
