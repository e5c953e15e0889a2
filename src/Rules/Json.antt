-- ===== src/Rules/Json.antt =====
-- `JSON.stringify` of conditions, compared: two texts are equal if the values are, and the keys come
-- in the same order.
use policy_assignment_system.Prelude.{
  ◌≡◌, ◌↔◌, refl, sym, ap, ◌∙◌, String, if◌then◌else◌, Bool, true, false, ◌&&◌, List, [], ◌∷◌,
  arith, str_eq, eq_iff, eq_ℤ, eq_of_eq_ℤ, eq_ℤ_refl,
}
use policy_assignment_system.Conditions.{
  ConditionAttribute, department, state, country, location, employment_type, role, tenure_days,
  is_manager, group_id, ConditionOperator, eq, neq, is_in, not_in, gte, lte, gt, lt,
  ConditionScalar, text, num, fraction, bool, ConditionValue, single, many, ConditionClause,
  attribute_name, operator_name,
}
use policy_assignment_system.Rules.{KeyOrder, as_written, as_stored, JsonConditions}

abbrev eq_bool : Bool → Bool → Bool
eq_bool true true = true
eq_bool false false = true
eq_bool _ _ = false

eq_scalar : ConditionScalar → ConditionScalar → Bool
eq_scalar (text s) (text t) = str_eq s t
eq_scalar (num m) (num n) = eq_ℤ m n
eq_scalar (fraction s m) (fraction t n) = str_eq s t && eq_ℤ m n
eq_scalar (bool b) (bool c) = eq_bool b c
eq_scalar _ _ = false

eq_scalars : List ConditionScalar → List ConditionScalar → Bool
unfolding eq_scalar
eq_scalars [] [] = true
eq_scalars (v ∷ vs) (w ∷ ws) = eq_scalar v w && eq_scalars vs ws
eq_scalars _ _ = false

eq_value : ConditionValue → ConditionValue → Bool
unfolding eq_scalars
eq_value (single v) (single w) = eq_scalar v w
eq_value (many vs) (many ws) = eq_scalars vs ws
eq_value _ _ = false

-- An attribute and an operator are written by their names.
eq_clause : ConditionClause → ConditionClause → Bool
unfolding eq_value
eq_clause c d =
    str_eq (attribute_name c.attribute) (attribute_name d.attribute)
    && str_eq (operator_name c.op) (operator_name d.op)
    && eq_value c.value d.value

eq_clauses : List ConditionClause → List ConditionClause → Bool
unfolding eq_clause
eq_clauses [] [] = true
eq_clauses (c ∷ cs) (d ∷ ds) = eq_clause c d && eq_clauses cs ds
eq_clauses _ _ = false

abbrev eq_key_order : KeyOrder → KeyOrder → Bool
eq_key_order as_written as_written = true
eq_key_order as_stored as_stored = true
eq_key_order _ _ = false

-- `JSON.stringify(left) === JSON.stringify(right)`
unfoldable pub same_json : JsonConditions → JsonConditions → Bool
unfolding eq_clauses
same_json left right =
    eq_key_order left.key_order right.key_order
    && eq_clauses left.conditions.clauses right.conditions.clauses

eq_scalar_iff : (v w : ConditionScalar) → (eq_scalar v w ≡ true) ↔ (v ≡ w)
unfolding eq_scalar
eq_scalar_iff (text s) (text t) = ground (arith, eq_iff s t)
eq_scalar_iff (num m) (num n) = ground (arith, eq_of_eq_ℤ m n, eq_ℤ_refl m)
eq_scalar_iff (fraction s m) (fraction t n) =
    ground (arith, eq_iff s t, eq_of_eq_ℤ m n, eq_ℤ_refl m)
eq_scalar_iff (bool b) (bool c) = ground arith
eq_scalar_iff (text s) (fraction t n) = ground arith
eq_scalar_iff (num m) (fraction t n) = ground arith
eq_scalar_iff (bool b) (fraction t n) = ground arith
eq_scalar_iff (fraction s m) (text t) = ground arith
eq_scalar_iff (fraction s m) (num n) = ground arith
eq_scalar_iff (fraction s m) (bool b) = ground arith
eq_scalar_iff (text s) (num n) = ground arith
eq_scalar_iff (text s) (bool n) = ground arith
eq_scalar_iff (num s) (text n) = ground arith
eq_scalar_iff (num s) (bool n) = ground arith
eq_scalar_iff (bool s) (text n) = ground arith
eq_scalar_iff (bool s) (num n) = ground arith

eq_scalars_iff : (vs ws : List ConditionScalar) → (eq_scalars vs ws ≡ true) ↔ (vs ≡ ws)
unfolding eq_scalars
eq_scalars_iff [] [] = ground arith
eq_scalars_iff [] (w ∷ ws) = ground arith
eq_scalars_iff (v ∷ vs) [] = ground arith
eq_scalars_iff (v ∷ vs) (w ∷ ws) = ground (arith, eq_scalar_iff v w, eq_scalars_iff vs ws)

eq_value_iff : (v w : ConditionValue) → (eq_value v w ≡ true) ↔ (v ≡ w)
unfolding eq_value
eq_value_iff (single v) (single w) = ground (arith, eq_scalar_iff v w)
eq_value_iff (many vs) (many ws) = ground (arith, eq_scalars_iff vs ws)
eq_value_iff (single v) (many ws) = ground arith
eq_value_iff (many vs) (single w) = ground arith

-- The attribute and the operator of a name.
abbrev attribute_named : String → ConditionAttribute
attribute_named s =
    if str_eq s "department"
    then department
    else if str_eq s "state"
    then state
    else if str_eq s "country"
    then country
    else if str_eq s "location"
    then location
    else if str_eq s "employmentType"
    then employment_type
    else if str_eq s "role"
    then role
    else if str_eq s "tenureDays"
    then tenure_days
    else if str_eq s "isManager"
    then is_manager
    else group_id

abbrev operator_named : String → ConditionOperator
operator_named s =
    if str_eq s "eq"
    then eq
    else if str_eq s "neq"
    then neq
    else if str_eq s "in"
    then is_in
    else if str_eq s "notIn"
    then not_in
    else if str_eq s "gte"
    then gte
    else if str_eq s "lte"
    then lte
    else if str_eq s "gt"
    then gt
    else lt

named-attribute_name : (a : ConditionAttribute) → attribute_named (attribute_name a) ≡ a
unfolding attribute_name
named-attribute_name department = refl
named-attribute_name state = refl
named-attribute_name country = refl
named-attribute_name location = refl
named-attribute_name employment_type = refl
named-attribute_name role = refl
named-attribute_name tenure_days = refl
named-attribute_name is_manager = refl
named-attribute_name group_id = refl

named-operator_name : (op : ConditionOperator) → operator_named (operator_name op) ≡ op
unfolding operator_name
named-operator_name eq = refl
named-operator_name neq = refl
named-operator_name is_in = refl
named-operator_name not_in = refl
named-operator_name gte = refl
named-operator_name lte = refl
named-operator_name gt = refl
named-operator_name lt = refl

attribute_name_iff :
    (a b : ConditionAttribute) → (str_eq (attribute_name a) (attribute_name b) ≡ true) ↔ (a ≡ b)
attribute_name_iff a b = (
  λ h.
      sym (named-attribute_name a)
      ∙ (ap attribute_named ((eq_iff (attribute_name a) (attribute_name b)).0 h)
          ∙ named-attribute_name b),
  λ e. (eq_iff (attribute_name a) (attribute_name b)).1 (ap attribute_name e),
)

operator_name_iff :
    (a b : ConditionOperator) → (str_eq (operator_name a) (operator_name b) ≡ true) ↔ (a ≡ b)
operator_name_iff a b = (
  λ h.
      sym (named-operator_name a)
      ∙ (ap operator_named ((eq_iff (operator_name a) (operator_name b)).0 h)
          ∙ named-operator_name b),
  λ e. (eq_iff (operator_name a) (operator_name b)).1 (ap operator_name e),
)

eq_clause_iff : (c d : ConditionClause) → (eq_clause c d ≡ true) ↔ (c ≡ d)
unfolding eq_clause
eq_clause_iff c d = ground (
  arith,
  attribute_name_iff c.attribute d.attribute,
  operator_name_iff c.op d.op,
  eq_value_iff c.value d.value,
)

eq_clauses_iff : (cs ds : List ConditionClause) → (eq_clauses cs ds ≡ true) ↔ (cs ≡ ds)
unfolding eq_clauses
eq_clauses_iff [] [] = ground arith
eq_clauses_iff [] (d ∷ ds) = ground arith
eq_clauses_iff (c ∷ cs) [] = ground arith
eq_clauses_iff (c ∷ cs) (d ∷ ds) = ground (arith, eq_clause_iff c d, eq_clauses_iff cs ds)

eq_key_order_iff : (a b : KeyOrder) → (eq_key_order a b ≡ true) ↔ (a ≡ b)
eq_key_order_iff as_written as_written = ground arith
eq_key_order_iff as_stored as_stored = ground arith
eq_key_order_iff as_written as_stored = ground arith
eq_key_order_iff as_stored as_written = ground arith

pub same_json_iff : (left right : JsonConditions) → (same_json left right ≡ true) ↔ (left ≡ right)
unfolding same_json
same_json_iff left right = ground (
  arith,
  eq_key_order_iff left.key_order right.key_order,
  eq_clauses_iff left.conditions.clauses right.conditions.clauses,
)
