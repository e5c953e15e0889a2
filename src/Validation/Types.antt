-- ===== src/Validation/Types.antt =====
-- What it is for a clause to be well typed, apart from the validator.
use policy_assignment_system.Prelude.{
  String, ◌≡◌, refl, ◌⊎◌, ◌↔◌, inl, inr, Bool, true, false, none, List, [], ◌∷◌, All, arith, ℤ,
}
use policy_assignment_system.Conditions.{
  ConditionAttribute, department, state, country, location, employment_type, role, tenure_days,
  is_manager, group_id, ConditionOperator, eq, neq, is_in, not_in, gte, lte, gt, lt,
  ConditionScalar, text, num, fraction, bool, ConditionValue, single, many, ConditionClause,
}
use policy_assignment_system.Validation.{
  string, expected_type, has_type, is_list_op, is_ordered_op, clause_issue,
}
use policy_assignment_system.Validation.Laws.{HasType, Accepted, clause_issue-IsAccepted}

-- A number for the tenure, a Boolean for the manager's flag, a text for any other attribute.
abbrev pub IsOfType : ConditionAttribute → ConditionScalar → Type 0
IsOfType tenure_days v = ((n : ℤ) × (v ≡ num n)) ⊎ ((s : String) × (n : ℤ) × (v ≡ fraction s n))
IsOfType is_manager v = (b : Bool) × (v ≡ bool b)
IsOfType _ v = (s : String) × (v ≡ text s)

-- A clause whose operator fits its value and its attribute: a list that is not empty for `in` and
-- `notIn`; a single value for `eq` and `neq`, and for `gte`, `lte`, `gt` and `lt`, which compare
-- nothing but the tenure; and values of the attribute's type.
abbrev WellTypedValue : ConditionAttribute → ConditionOperator → ConditionValue → Type 0
WellTypedValue attribute op (many []) = ⊥
WellTypedValue attribute op (many (v ∷ vs)) =
    ((op ≡ is_in) ⊎ (op ≡ not_in)) × All (IsOfType attribute) (v ∷ vs)
WellTypedValue attribute op (single v) =
    ((op ≡ eq)
      ⊎ (op ≡ neq)
      ⊎ (((op ≡ gte) ⊎ (op ≡ lte) ⊎ (op ≡ gt) ⊎ (op ≡ lt)) × (attribute ≡ tenure_days)))
    × IsOfType attribute v

abbrev pub WellTyped : ConditionClause → Type 0
WellTyped clause = WellTypedValue clause.attribute clause.op clause.value

by_text : (v : ConditionScalar) → (has_type string v ≡ true) ↔ ((s : String) × (v ≡ text s))
unfolding has_type
by_text (text s) = (λ _. (s, refl), λ _. refl)
by_text (num n) = (λ h. cc h, λ (s, e). cc e)
by_text (fraction t n) = (λ h. cc h, λ (s, e). cc e)
by_text (bool b) = (λ h. cc h, λ (s, e). cc e)

HasType-iff :
    (attribute : ConditionAttribute) (v : ConditionScalar)
    → HasType attribute v ↔ IsOfType attribute v
unfolding expected_type has_type
HasType-iff department v = by_text v
HasType-iff state v = by_text v
HasType-iff country v = by_text v
HasType-iff location v = by_text v
HasType-iff employment_type v = by_text v
HasType-iff role v = by_text v
HasType-iff group_id v = by_text v
HasType-iff is_manager (bool b) = (λ _. (b, refl), λ _. refl)
HasType-iff is_manager (text s) = (λ h. cc h, λ (b, e). cc e)
HasType-iff is_manager (num n) = (λ h. cc h, λ (b, e). cc e)
HasType-iff is_manager (fraction s n) = (λ h. cc h, λ (b, e). cc e)
HasType-iff tenure_days (num n) = (λ _. inl (n, refl), λ _. refl)
HasType-iff tenure_days (fraction s n) = (λ _. inr (s, n, refl), λ _. refl)
HasType-iff tenure_days (text s) =
    (λ h. cc h, λ h. elim h [ inl (n, e) ↦ cc e | inr (t, n, e) ↦ cc e ])
HasType-iff tenure_days (bool b) =
    (λ h. cc h, λ h. elim h [ inl (n, e) ↦ cc e | inr (t, n, e) ↦ cc e ])

All-iff :
    (attribute : ConditionAttribute) (vs : List ConditionScalar)
    → All (HasType attribute) vs ↔ All (IsOfType attribute) vs
All-iff attribute [] = (λ _. tt, λ _. tt)
All-iff attribute (v ∷ vs) =
    let (to, from) = HasType-iff attribute v in
    let (all, back) = All-iff attribute vs in (λ (h, k). (to h, all k), λ (h, k). (from h, back k))

operators_iff :
    (attribute : ConditionAttribute) (op : ConditionOperator)
    → ((is_list_op op ≡ true) ↔ ((op ≡ is_in) ⊎ (op ≡ not_in)))
      × (((is_list_op op ≡ false) × ((is_ordered_op op ≡ false) ⊎ (attribute ≡ tenure_days))) ↔ (
          (op ≡ eq)
          ⊎ (op ≡ neq)
          ⊎ (((op ≡ gte) ⊎ (op ≡ lte) ⊎ (op ≡ gt) ⊎ (op ≡ lt)) × (attribute ≡ tenure_days))))
operators_iff attribute op = (ground arith, ground arith)

Accepted-iff :
    (attribute : ConditionAttribute) (op : ConditionOperator) (value : ConditionValue)
    → Accepted attribute op value ↔ WellTypedValue attribute op value
Accepted-iff attribute op (many []) = (λ h. h, λ h. h)
Accepted-iff attribute op (many (v ∷ vs)) =
    let (list, _) = operators_iff attribute op in
    let (all, back) = All-iff attribute (v ∷ vs) in
    (λ (o, h). (list.0 o, all h), λ (o, h). (list.1 o, back h))
Accepted-iff attribute op (single v) =
    let (_, one) = operators_iff attribute op in
    let (to, from) = HasType-iff attribute v in
    (λ (o, k, h). (one.0 (o, k), to h), λ (o, h). let (p, q) = one.1 o in (p, q, from h))

-- A clause has no issue exactly if it is well typed: a list that is not empty for `in` and `notIn`, a
-- single value for the others, of which `gte`, `lte`, `gt` and `lt` are for the tenure only, and values
-- of the attribute's type, numbers for the tenure, a Boolean for the manager's flag, texts otherwise.
pub clause_issue-none_iff :
    (clause : ConditionClause) → (clause_issue clause ≡ none) ↔ WellTyped clause
clause_issue-none_iff clause =
    let (to, from) = clause_issue-IsAccepted clause in
    let (all, back) = Accepted-iff clause.attribute clause.op clause.value in
    (λ h. all (to h), λ w. from (back w))
