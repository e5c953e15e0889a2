-- ===== src/Validation.antt =====
-- apps/api/src/validators/conditions.ts: which conditions the API lets an administrator save.
pub mod Laws
pub mod Types
mod Tests
use policy_assignment_system.Prelude.{
  String, Bool, true, false, not, ◌&&◌, Option, none, some, List, [], ◌∷◌, ◌++◌, includes, concat,
  if◌then◌else◌,
}
use policy_assignment_system.Conditions.{
  ConditionAttribute, tenure_days, is_manager, attribute_name, ConditionOperator, operator_name,
  is_in, not_in, gte, lte, gt, lt, ConditionScalar, text, num, fraction, bool, ConditionValue,
  single, many, ConditionClause, RuleConditions,
}

pub data ScalarType : Type 0 where
  number boolean string : ScalarType

-- The value type each attribute expects.
unfoldable pub expected_type : ConditionAttribute → ScalarType
expected_type tenure_days = number
expected_type is_manager = boolean
expected_type _ = string

-- `typeof value === expected`
unfoldable pub has_type : ScalarType → ConditionScalar → Bool
has_type number (num n) = true
has_type number (fraction s n) = true
has_type boolean (bool b) = true
has_type string (text s) = true
has_type _ _ = false

-- `LIST_OPERATORS.includes(op)`
abbrev pub is_list_op : ConditionOperator → Bool
is_list_op is_in = true
is_list_op not_in = true
is_list_op _ = false

-- `ORDERED_OPERATORS.includes(op)`
abbrev pub is_ordered_op : ConditionOperator → Bool
is_ordered_op gte = true
is_ordered_op lte = true
is_ordered_op gt = true
is_ordered_op lt = true
is_ordered_op _ = false

abbrev pub is_number : ScalarType → Bool
is_number number = true
is_number _ = false

pub data Issue : Type 0 where
  empty_list : Issue
  requires_array requires_single only_numeric wrong_type duplicate : ConditionClause → Issue

-- The loop over the values.
type_issue : ConditionClause → List ConditionScalar → Option Issue
unfolding expected_type has_type
type_issue clause [] = none
type_issue clause (value ∷ values) =
    let rest = type_issue clause values in
    if not (has_type (expected_type clause.attribute) value) then some (wrong_type clause) else rest

ordered_issue : ConditionClause → List ConditionScalar → Option Issue
unfolding type_issue expected_type
ordered_issue clause values =
    if is_ordered_op clause.op && not (is_number (expected_type clause.attribute))
    then some (only_numeric clause)
    else type_issue clause values

-- The first issue of a clause, if it has one: `z.array(scalar).min(1)`, then `conditionClauseSchema`.
unfoldable pub clause_issue : ConditionClause → Option Issue
unfolding ordered_issue
clause_issue clause = elim clause.value [
  | many [] ↦ some empty_list
  | many (v ∷ vs) ↦
      if is_list_op clause.op then ordered_issue clause (v ∷ vs) else some (requires_single clause)
  | single v ↦
      if is_list_op clause.op then some (requires_array clause) else ordered_issue clause (v ∷ [])
]

-- `${clause.attribute}:${clause.op}`
abbrev pub clause_key : ConditionClause → String
clause_key clause = concat (attribute_name clause.attribute ∷ ":" ∷ operator_name clause.op ∷ [])

-- The loop that finds duplicates: `seen` holds the keys of the clauses before.
duplicate_issues : List String → List ConditionClause → List Issue
duplicate_issues seen [] = []
duplicate_issues seen (clause ∷ clauses) =
    let rest = duplicate_issues (clause_key clause ∷ seen) clauses in
    if includes seen (clause_key clause) then duplicate clause ∷ rest else rest

clause_issues : List ConditionClause → List Issue
unfolding clause_issue
clause_issues [] = []
clause_issues (clause ∷ clauses) =
    let rest = clause_issues clauses in
    elim (clause_issue clause) [ none ↦ rest | some issue ↦ issue ∷ rest ]

-- `ruleConditionsSchema`: conditions are accepted where there is no issue.
unfoldable pub conditions_issues : RuleConditions → List Issue
unfolding clause_issues duplicate_issues
conditions_issues conditions =
    clause_issues conditions.clauses ++ duplicate_issues [] conditions.clauses
