-- ===== src/Engine.antt =====
-- packages/core/src/engine/types.ts, packages/shared/src/enums.ts and the priority bands of
-- packages/shared/src/constants.ts: the vocabulary of the resolution engine. Its steps are in the
-- modules below: the order of rules, the gates, the decision in one category, and `resolve`.
pub mod Order
pub mod Triage
pub mod Decide
pub mod Resolve
use policy_assignment_system.Prelude.{ℕ, String, Bool, true, false, Option, none, some, List}
use policy_assignment_system.Dates.{Date}
use policy_assignment_system.Conditions.{AttributeValues, ConditionClause, RuleConditions}

pub data Cardinality : Type 0 where
  one_only several : Cardinality

pub data PolicyStatus : Type 0 where
  draft active archived : PolicyStatus

pub data RuleType : Type 0 where
  manual by_role by_department by_location by_tenure by_group default : RuleType

pub data ResolutionStatus : Type 0 where
  automatic manual_override : ResolutionStatus

pub data ResolutionDecision : Type 0 where
  matched_won matched_lost not_matched skipped_disabled skipped_out_of_window
        skipped_policy_inactive :
      ResolutionDecision

pub record EngineEmployee : Type 0 where
  pub id : String
  pub department : Option String
  pub state : Option String
  pub country : Option String
  pub location : Option String
  pub employment_type : String
  pub role : Option String
  pub is_manager : Bool
  pub hire_date : Date
  pub group_ids : List String

pub record EngineRule : Type 0 where
  pub id : String
  pub version : ℕ
  pub name : String
  pub rule_type : RuleType
  pub priority : ℕ
  pub conditions : RuleConditions
  pub enabled : Bool
  pub effective_from : Date
  pub effective_to : Option Date
  pub created_at : Date
  pub employee_id : Option String
  pub policy_id : String
  pub policy_name : String
  pub policy_status : PolicyStatus
  pub category_id : String
  pub category_key : String
  pub category_name : String
  pub cardinality : Cardinality

pub record RuleTrailEntry : Type 0 where
  pub rule_id : String
  pub rule_version : ℕ
  pub rule_name : String
  pub rule_type : RuleType
  pub priority : ℕ
  pub policy_id : String
  pub category_id : String
  pub decision : ResolutionDecision
  pub reason : String
  pub matched_clauses : List ConditionClause
  pub failed_clause : Option ConditionClause
  pub attribute_values : AttributeValues

pub record ResolvedPolicy : Type 0 where
  pub policy_id : String
  pub policy_name : String
  pub category_id : String
  pub category_key : String
  pub category_name : String
  pub cardinality : Cardinality
  pub rule_id : String
  pub rule_version : ℕ
  pub rule_name : String
  pub rule_type : RuleType
  pub priority : ℕ
  pub resolution_status : ResolutionStatus
  pub reason : String

pub record CategoryResolution : Type 0 where
  pub category_id : String
  pub category_key : String
  pub category_name : String
  pub cardinality : Cardinality
  pub winners : List ResolvedPolicy
  pub trail : List RuleTrailEntry

pub record ResolveInput : Type 0 where
  pub employee : EngineEmployee
  pub rules : List EngineRule
  pub as_of : Date

pub record ResolutionResult : Type 0 where
  pub employee_id : String
  pub as_of : Date
  pub categories : List CategoryResolution
  pub winners : List ResolvedPolicy
  pub trail : List RuleTrailEntry
  pub tenure_days : ℕ

-- `RULE_TYPE_PRIORITY_BANDS`
unfoldable pub priority_band : RuleType → ℕ
priority_band manual = 1000
priority_band by_role = 800
priority_band by_department = 600
priority_band by_location = 400
priority_band by_tenure = 300
priority_band by_group = 200
priority_band default = 100

abbrev pub is_manual : RuleType → Bool
is_manual manual = true
is_manual _ = false

abbrev pub is_active : PolicyStatus → Bool
is_active active = true
is_active _ = false

abbrev pub is_one_only : Cardinality → Bool
is_one_only one_only = true
is_one_only several = false

pub status_name : PolicyStatus → String
status_name draft = "DRAFT"
status_name active = "ACTIVE"
status_name archived = "ARCHIVED"

pub rule_type_name : RuleType → String
rule_type_name manual = "MANUAL"
rule_type_name by_role = "ROLE"
rule_type_name by_department = "DEPARTMENT"
rule_type_name by_location = "LOCATION"
rule_type_name by_tenure = "TENURE"
rule_type_name by_group = "GROUP"
rule_type_name default = "DEFAULT"
