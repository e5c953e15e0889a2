-- ===== src/Conditions.antt =====
-- packages/shared/src/conditions.ts and packages/core/src/engine/conditions.ts: the grammar of rule
-- conditions and its evaluator. A JavaScript number is an integer, or a fraction, which stands as its text, `String(value)`,
-- with the integer below it, `Math.floor(value)`: the numbers it is compared with are whole.
pub mod Laws
pub mod Columns
mod Tests
use policy_assignment_system.Prelude.{
  ℕ, String, Bool, true, false, not, ◌&&◌, Option, none, some, List, [], ◌∷◌, ◌++◌, map, any,
  includes, if◌then◌else◌, concat, join, show_ℤ, str_eq, ℤ, pos, ltb_ℤ, leb_ℤ, eq_ℤ,
}

pub data ConditionAttribute : Type 0 where
  department state country location employment_type role tenure_days is_manager group_id :
      ConditionAttribute

pub data ConditionOperator : Type 0 where
  eq neq is_in not_in gte lte gt lt : ConditionOperator

pub data ConditionScalar : Type 0 where
  text : String → ConditionScalar
  num : ℤ → ConditionScalar
  fraction : String → ℤ → ConditionScalar
  bool : Bool → ConditionScalar

pub data ConditionValue : Type 0 where
  single : ConditionScalar → ConditionValue
  many : List ConditionScalar → ConditionValue

pub record ConditionClause : Type 0 where
  pub attribute : ConditionAttribute
  pub op : ConditionOperator
  pub value : ConditionValue

-- The envelope has one version, so it is its list `all`.
pub record RuleConditions : Type 0 where
  pub clauses : List ConditionClause

pub record EmployeeContext : Type 0 where
  pub employee_id : String
  pub department_name : Option String
  pub state_name : Option String
  pub country_name : Option String
  pub location_name : Option String
  pub employment : String
  pub role_name : Option String
  pub tenure : ℕ
  pub manages : Bool
  pub group_ids : List String

-- What an employee has for an attribute: `ConditionScalar | string[] | null`.
pub data Actual : Type 0 where
  absent : Actual
  scalar : ConditionScalar → Actual
  texts : List String → Actual

-- An object keyed by attribute, in the order in which its keys were first assigned.
abbrev pub AttributeValues : Type 0
AttributeValues = List (ConditionAttribute × Actual)

pub record ConditionEvaluation : Type 0 where
  pub matched : Bool
  pub matched_clauses : List ConditionClause
  pub failed_clause : Option ConditionClause
  pub attribute_values : AttributeValues

-- `String(value)`
unfoldable pub string_of : ConditionScalar → String
unfolding show_ℤ
string_of (text s) = s
string_of (num n) = show_ℤ n
string_of (fraction s n) = s
string_of (bool b) = if b then "true" else "false"

render_value : ConditionValue → String
unfolding string_of
render_value (many items) = join ", " (map string_of items)
render_value (single value) = string_of value

unfoldable pub attribute_name : ConditionAttribute → String
attribute_name department = "department"
attribute_name state = "state"
attribute_name country = "country"
attribute_name location = "location"
attribute_name employment_type = "employmentType"
attribute_name role = "role"
attribute_name tenure_days = "tenureDays"
attribute_name is_manager = "isManager"
attribute_name group_id = "groupId"

unfoldable pub operator_name : ConditionOperator → String
operator_name eq = "eq"
operator_name neq = "neq"
operator_name is_in = "in"
operator_name not_in = "notIn"
operator_name gte = "gte"
operator_name lte = "lte"
operator_name gt = "gt"
operator_name lt = "lt"

is_eq : ConditionOperator → Bool
is_eq eq = true
is_eq _ = false

render_clause : ConditionClause → String
unfolding render_value attribute_name operator_name is_eq
render_clause clause =
    if is_eq clause.op
    then concat (attribute_name clause.attribute ∷ "=" ∷ render_value clause.value ∷ [])
    else concat (
        attribute_name clause.attribute
        ∷ " "
        ∷ operator_name clause.op
        ∷ " "
        ∷ render_value clause.value
        ∷ [])

render_actual : Actual → String
unfolding string_of
render_actual absent = "(not set)"
render_actual (texts []) = "(none)"
render_actual (texts (t ∷ ts)) = join ", " (t ∷ ts)
render_actual (scalar value) = string_of value

-- A nullable column.
abbrev pub nullable : Option String → Actual
nullable none = absent
nullable (some s) = scalar (text s)

unfoldable pub read_attribute : ConditionAttribute → EmployeeContext → Actual
read_attribute department context = nullable context.department_name
read_attribute state context = nullable context.state_name
read_attribute country context = nullable context.country_name
read_attribute location context = nullable context.location_name
read_attribute employment_type context = scalar (text context.employment)
read_attribute role context = nullable context.role_name
read_attribute tenure_days context = scalar (num (pos context.tenure))
read_attribute is_manager context = scalar (bool context.manages)
read_attribute group_id context = texts context.group_ids

unfoldable pub as_list : ConditionValue → List ConditionScalar
as_list (many items) = items
as_list (single value) = value ∷ []

unfoldable pub matches_groups : ConditionOperator → ConditionValue → List String → Bool
unfolding string_of as_list
matches_groups op value group_ids =
    let wanted = map string_of (as_list value) in
    let found = any (λ id. includes group_ids id) wanted in
    elim op [ eq ↦ found | is_in ↦ found | neq ↦ not found | not_in ↦ not found | _ ↦ false ]

compare_ordered : ConditionOperator → ℤ → ℤ → Bool
compare_ordered gte actual value = leb_ℤ value actual
compare_ordered lte actual value = leb_ℤ actual value
compare_ordered gt actual value = ltb_ℤ value actual
compare_ordered lt actual value = ltb_ℤ actual value
compare_ordered _ actual value = false

-- A whole number against one that lies between `below` and the next whole number.
compare_fraction : ConditionOperator → ℤ → ℤ → Bool
compare_fraction gte actual below = ltb_ℤ below actual
compare_fraction lte actual below = leb_ℤ actual below
compare_fraction gt actual below = ltb_ℤ below actual
compare_fraction lt actual below = leb_ℤ actual below
compare_fraction _ actual below = false

-- The actual number is a tenure, which is whole.
unfoldable pub matches_ordered : ConditionOperator → ConditionValue → ConditionScalar → Bool
unfolding compare_ordered compare_fraction
matches_ordered op (single (num value)) (num actual) = compare_ordered op actual value
matches_ordered op (single (fraction s below)) (num actual) = compare_fraction op actual below
matches_ordered op _ _ = false

-- `===`
unfoldable pub scalar_eq : ConditionScalar → ConditionScalar → Bool
scalar_eq (text s) (text t) = str_eq s t
scalar_eq (num m) (num n) = eq_ℤ m n
scalar_eq (fraction s m) (fraction t n) = str_eq s t && eq_ℤ m n
scalar_eq (bool true) (bool b) = b
scalar_eq (bool false) (bool b) = not b
scalar_eq _ _ = false

-- `NUMERIC_ATTRIBUTES.includes(attribute)`
is_numeric : ConditionAttribute → Bool
is_numeric tenure_days = true
is_numeric _ = false

-- All but the numeric attributes compare as text.
normalize : ConditionAttribute → ConditionScalar → ConditionScalar
unfolding is_numeric string_of
normalize attribute value = if is_numeric attribute then value else text (string_of value)

is_single : ConditionValue → Bool
is_single (single _) = true
is_single (many _) = false

-- Is `left` one of the values, each normalised? A single value stands for itself.
equals_any : ConditionAttribute → ConditionScalar → ConditionValue → Bool
unfolding as_list normalize scalar_eq
equals_any attribute left value = any (λ v. scalar_eq (normalize attribute v) left) (as_list value)

unfoldable pub matches_scalar : ConditionClause → ConditionScalar → Bool
unfolding equals_any is_single matches_ordered
matches_scalar clause actual =
    let equal = equals_any clause.attribute (normalize clause.attribute actual) clause.value in
    let one = is_single clause.value in
    elim clause.op [
      | eq ↦ one && equal
      | neq ↦ one && not equal
      | is_in ↦ equal
      | not_in ↦ not equal
      | other ↦ matches_ordered other clause.value actual
    ]

-- A value that is not set matches nothing, not even `neq` and `notIn`. (A list here is cast to a
-- scalar in the source; only the group attribute has one, and it is taken before.)
matches_actual : ConditionClause → Actual → Bool
unfolding matches_scalar
matches_actual clause (scalar value) = matches_scalar clause value
matches_actual clause absent = false
matches_actual clause (texts _) = false

group_list : Actual → List String
group_list (texts ids) = ids
group_list _ = []

is_group : ConditionAttribute → Bool
is_group group_id = true
is_group _ = false

unfoldable pub matches_clause : ConditionClause → EmployeeContext → Bool
unfolding matches_actual matches_groups read_attribute group_list is_group
matches_clause clause context =
    let actual = read_attribute clause.attribute context in
    if is_group clause.attribute
    then matches_groups clause.op clause.value (group_list actual)
    else matches_actual clause actual

abbrev same_attribute : ConditionAttribute → ConditionAttribute → Bool
same_attribute a b = str_eq (attribute_name a) (attribute_name b)

-- `values[attribute] = actual`: a key keeps the place where it was first assigned.
assign : AttributeValues → ConditionAttribute → Actual → AttributeValues
unfolding attribute_name
assign [] attribute actual = (attribute, actual) ∷ []
assign ((a, v) ∷ values) attribute actual =
    if same_attribute a attribute
    then (a, actual) ∷ values
    else (a, v) ∷ assign values attribute actual

read_all : List ConditionClause → EmployeeContext → AttributeValues → AttributeValues
unfolding assign read_attribute
read_all [] context values = values
read_all (clause ∷ clauses) context values =
    read_all clauses context
      (assign values clause.attribute (read_attribute clause.attribute context))

read_attribute_values : List ConditionClause → EmployeeContext → AttributeValues
unfolding read_all
read_attribute_values clauses context = read_all clauses context []

-- The loop over the clauses: `done` are those that have held so far.
evaluate_from :
    List ConditionClause
    → EmployeeContext
    → AttributeValues
    → List ConditionClause
    → ConditionEvaluation
evaluate_from [] context values done = record {
  matched = true;
  matched_clauses = done;
  failed_clause = none;
  attribute_values = values;
}
evaluate_from (clause ∷ clauses) context values done =
    let rest = evaluate_from clauses context values (done ++ clause ∷ []) in
    if not (matches_clause clause context)
    then record {
      matched = false;
      matched_clauses = done;
      failed_clause = some clause;
      attribute_values = values;
    }
    else rest

unfoldable pub evaluate_conditions : RuleConditions → EmployeeContext → ConditionEvaluation
unfolding evaluate_from read_attribute_values
evaluate_conditions conditions context =
    evaluate_from conditions.clauses context (read_attribute_values conditions.clauses context) []

unfoldable pub explain_failure : ConditionClause → EmployeeContext → String
unfolding render_clause render_actual read_attribute
explain_failure clause context = concat (
    "condition "
    ∷ render_clause clause
    ∷ " did not match "
    ∷ render_actual (read_attribute clause.attribute context)
    ∷ [])

unfoldable pub explain_match : List ConditionClause → String
unfolding render_clause
explain_match [] = "rule has no conditions and applies to everyone in scope"
explain_match (clause ∷ clauses) =
    concat ("matched " ∷ join " and " (map render_clause (clause ∷ clauses)) ∷ [])
