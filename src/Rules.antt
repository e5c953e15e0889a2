-- ===== src/Rules.antt =====
-- apps/api/src/services/rule.ts: the state of a rule, its row, its snapshots and the events that its
-- edits leave. The fields of `RuleState` are kept together in a rule and in a snapshot. A date is
-- parsed already.
pub mod Json
pub mod Writes
pub mod Requests
pub mod Versions
pub mod Minting
pub mod Edits
pub mod Reachable
pub mod Laws
pub mod Tests
use policy_assignment_system.Prelude.{
  ℕ, String, Bool, Option, none, some, List, str_eq, ◌&&◌, pos, if◌then◌else◌, [], ◌∷◌,
}
use policy_assignment_system.Dates.{Date, to_iso_date}
use policy_assignment_system.Conditions.{RuleConditions}
use policy_assignment_system.Engine.{RuleType}
use policy_assignment_system.Outbox.{OutboxEvent, OutboxPayload, Field, other, text, integer}

-- In which order the keys of a JSON object come: as the program wrote it, or as the jsonb column gives
-- it back, which orders the keys by itself.
pub data KeyOrder : Type 0 where
  as_written as_stored : KeyOrder

pub record JsonConditions : Type 0 where
  pub conditions : RuleConditions
  pub key_order : KeyOrder

pub record RuleState : Type 0 where
  pub policy_id : String
  pub employee_id : Option String
  pub name : String
  pub priority : ℕ
  pub json : JsonConditions
  pub enabled : Bool
  pub effective_from : Date
  pub effective_to : Option Date

pub record PolicyRule : Type 0 where
  pub id : String
  pub organization_id : String
  pub rule_type : RuleType
  pub version : ℕ
  pub state : RuleState

pub record PolicyRuleVersion : Type 0 where
  pub rule_id : String
  pub version : ℕ
  pub rule_type : RuleType
  pub state : RuleState
  pub created_by : Option String

pub data RuleAction : Type 0 where
  rule_created rule_updated rule_priority_changed rule_enabled rule_disabled rule_deleted :
      RuleAction
  override_created override_deleted : RuleAction

-- A rule as an audit row shows it.
pub record AuditSnapshot : Type 0 where
  pub version : ℕ
  pub rule_type : RuleType
  pub state : RuleState
  pub effective_from : String
  pub effective_to : Option String

pub record RuleAudit : Type 0 where
  pub actor_id : String
  pub action : RuleAction
  pub entity_id : String
  pub before_state : Option AuditSnapshot
  pub after_state : AuditSnapshot
  pub minted_version : Option ℕ

pub record RuleStore : Type 0 where
  pub rules : List PolicyRule
  pub versions : List PolicyRuleVersion
  pub audits : List RuleAudit
  pub outbox : List OutboxEvent

-- What a request takes from outside: the two clocks, the ids that the database gives to a new rule
-- and to a new outbox row, and the reads of policies (their names) and employees (theirs).
pub record RuleEnv : Type 0 where
  pub today : Date
  pub now : Date
  pub rule_id : String
  pub event_id : String
  pub policies : String → String → Option String
  pub employees : String → String → Option String

pub data RuleError : Type 0 where
  policy_not_found employee_not_found rule_not_found not_an_override invalid_effective_range :
      RuleError

-- A request that fails leaves the store as it was.
pub data Outcome : Type 0 where
  failed : RuleError → Outcome
  done : PolicyRule → RuleStore → Outcome

-- `findById`
unfoldable pub find_rule : String → String → List PolicyRule → Option PolicyRule
find_rule organization_id id [] = none
find_rule organization_id id (rule ∷ rules) =
    let rest = find_rule organization_id id rules in
    if str_eq rule.id id && str_eq rule.organization_id organization_id then some rule else rest

abbrev pub audit_snapshot : PolicyRule → AuditSnapshot
audit_snapshot rule = record {
  version = rule.version;
  rule_type = rule.rule_type;
  state = rule.state;
  effective_from = to_iso_date rule.state.effective_from;
  effective_to = elim rule.state.effective_to [ none ↦ none | some end ↦ some (to_iso_date end) ];
}

abbrev pub text_or_null : Option String → Field
text_or_null none = other
text_or_null (some s) = text s

-- The payload of a rule's event, as far as the relay reads it.
abbrev pub rule_payload : PolicyRule → OutboxPayload
rule_payload rule = record {
  employee_id = text_or_null rule.state.employee_id;
  changed_attributes = other;
  effective_from = text (to_iso_date rule.state.effective_from);
  rule_id = text rule.id;
  rule_version = integer (pos rule.version);
  group_id = other;
  deleted_on = other;
}
