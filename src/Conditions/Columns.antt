-- ===== src/Conditions/Columns.antt =====
-- What a clause that holds says of the value that it reads.
use policy_assignment_system.Prelude.{
  String, ◌≡◌, refl, ◌⊎◌, inl, inr, Bool, true, false, Option, none, some, In, In-of_any, any,
  eq_iff, ℤ, pos, leb_ℤ, ltb_ℤ, arith,
}
use policy_assignment_system.Conditions.{
  ConditionAttribute, department, state, country, location, employment_type, role, tenure_days,
  is_manager, group_id, ConditionOperator, eq, is_in, gte, gt, lte, lt, ConditionScalar, text, num,
  fraction, bool, ConditionValue, single, EmployeeContext, Actual, scalar, as_list, string_of,
  scalar_eq, normalize, nullable, read_attribute, matches_clause, matches_actual, matches_scalar,
  equals_any,
}
use policy_assignment_system.Conditions.Laws.{asks}

-- The attributes that are columns of text.
unfoldable pub is_column : ConditionAttribute → Bool
is_column department = true
is_column state = true
is_column country = true
is_column location = true
is_column employment_type = true
is_column role = true
is_column _ = false

abbrev pub NamesValue : ConditionValue → Actual → Type 0
NamesValue value actual =
    (s : String) × (v : ConditionScalar) × (actual ≡ scalar (text s))
    × In v (as_list value)
    × (string_of v ≡ s)

named :
    (value : ConditionValue) (s : String)
    → any (λ v. scalar_eq (text (string_of v)) (text s)) (as_list value) ≡ true
    → (v : ConditionScalar) × In v (as_list value) × (string_of v ≡ s)
unfolding scalar_eq
named value s h =
    let (v, m, e) = In-of_any _ (as_list value) h in (v, m, (eq_iff (string_of v) s).0 e)

named_by_eq :
    (attribute : ConditionAttribute) (value : ConditionValue) (s : String)
    → is_column attribute ≡ true
    → matches_scalar (record { attribute = attribute; op = eq; value = value }) (text s) ≡ true
    → any (λ v. scalar_eq (text (string_of v)) (text s)) (as_list value) ≡ true
unfolding is_column matches_scalar equals_any normalize
named_by_eq department value s c h = ground arith
named_by_eq state value s c h = ground arith
named_by_eq country value s c h = ground arith
named_by_eq location value s c h = ground arith
named_by_eq employment_type value s c h = ground arith
named_by_eq role value s c h = ground arith
named_by_eq tenure_days value s c h = cc c
named_by_eq is_manager value s c h = cc c
named_by_eq group_id value s c h = cc c

named_by_in :
    (attribute : ConditionAttribute) (value : ConditionValue) (s : String)
    → is_column attribute ≡ true
    → matches_scalar (record { attribute = attribute; op = is_in; value = value }) (text s) ≡ true
    → any (λ v. scalar_eq (text (string_of v)) (text s)) (as_list value) ≡ true
unfolding is_column matches_scalar equals_any normalize
named_by_in department value s c h = ground arith
named_by_in state value s c h = ground arith
named_by_in country value s c h = ground arith
named_by_in location value s c h = ground arith
named_by_in employment_type value s c h = ground arith
named_by_in role value s c h = ground arith
named_by_in tenure_days value s c h = cc c
named_by_in is_manager value s c h = cc c
named_by_in group_id value s c h = cc c

nullable-NamesValue :
    (attribute : ConditionAttribute) (op : ConditionOperator) (value : ConditionValue)
    (column : Option String)
    → is_column attribute ≡ true
    → (op ≡ eq) ⊎ (op ≡ is_in)
    → matches_actual (record { attribute = attribute; op = op; value = value }) (nullable column)
      ≡ true
    → NamesValue value (nullable column)
unfolding matches_actual
nullable-NamesValue attribute op value none c o h = cc h
nullable-NamesValue attribute op value (some s) c (inl e) h =
    let (v, m, f) = named value s (named_by_eq attribute value s c (rw e at h)) in
    (s, v, refl, m, f)
nullable-NamesValue attribute op value (some s) c (inr e) h =
    let (v, m, f) = named value s (named_by_in attribute value s c (rw e at h)) in
    (s, v, refl, m, f)

-- Where `eq` or `in` holds on a column, the column has one of the values named.
pub asks-NamesValue :
    (attribute : ConditionAttribute) (op : ConditionOperator) (value : ConditionValue)
    (context : EmployeeContext)
    → is_column attribute ≡ true
    → (op ≡ eq) ⊎ (op ≡ is_in)
    → asks attribute context op value ≡ true
    → NamesValue value (read_attribute attribute context)
unfolding matches_clause is_column read_attribute
asks-NamesValue department op value context c o h =
    nullable-NamesValue department op value context.department_name c o h
asks-NamesValue state op value context c o h =
    nullable-NamesValue state op value context.state_name c o h
asks-NamesValue country op value context c o h =
    nullable-NamesValue country op value context.country_name c o h
asks-NamesValue location op value context c o h =
    nullable-NamesValue location op value context.location_name c o h
asks-NamesValue employment_type op value context c o h =
    nullable-NamesValue employment_type op value (some context.employment) c o h
asks-NamesValue role op value context c o h =
    nullable-NamesValue role op value context.role_name c o h
asks-NamesValue tenure_days op value context c o h = cc c
asks-NamesValue is_manager op value context c o h = cc c
asks-NamesValue group_id op value context c o h = cc c

same_manager :
    (b m : Bool) (context : EmployeeContext)
    → asks is_manager (record context { manages = m }) eq (single (bool b)) ≡ true
    → m ≡ b
unfolding matches_clause string_of
same_manager true true context h = refl
same_manager false false context h = refl
same_manager true false context h = cc h
same_manager false true context h = cc h

pub asks-manager :
    (b : Bool) (context : EmployeeContext)
    → asks is_manager context eq (single (bool b)) ≡ true
    → context.manages ≡ b
asks-manager b context h = same_manager b context.manages context h

module _ (n : ℤ) (context : EmployeeContext) where
  pub asks-gte :
      asks tenure_days context gte (single (num n)) ≡ true → leb_ℤ n (pos context.tenure) ≡ true
  unfolding matches_clause
  asks-gte h = h

  pub asks-lte :
      asks tenure_days context lte (single (num n)) ≡ true → leb_ℤ (pos context.tenure) n ≡ true
  unfolding matches_clause
  asks-lte h = h

  pub asks-gt :
      asks tenure_days context gt (single (num n)) ≡ true → ltb_ℤ n (pos context.tenure) ≡ true
  unfolding matches_clause
  asks-gt h = h

  pub asks-lt :
      asks tenure_days context lt (single (num n)) ≡ true → ltb_ℤ (pos context.tenure) n ≡ true
  unfolding matches_clause
  asks-lt h = h

-- A bound that is not whole.
module _ (s : String) (n : ℤ) (context : EmployeeContext) where
  pub asks-gte_fraction :
      asks tenure_days context gte (single (fraction s n)) ≡ true
      → ltb_ℤ n (pos context.tenure) ≡ true
  unfolding matches_clause
  asks-gte_fraction h = h

  pub asks-lte_fraction :
      asks tenure_days context lte (single (fraction s n)) ≡ true
      → leb_ℤ (pos context.tenure) n ≡ true
  unfolding matches_clause
  asks-lte_fraction h = h
