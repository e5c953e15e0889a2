-- ===== src/Validation/Laws.antt =====
-- What conditions are accepted, and what narrowing may rely on.
use policy_assignment_system.Prelude.{
  ℕ, ◌-◌, ◌≤◌, String, ◌≡◌, refl, sym, ◌⊎◌, ◌↔◌, inl, inr, Bool, true, false, ◌&&◌, ◌||◌,
  Bool-cases, Bool-clash, Option-cases, none, List, [], ◌∷◌, ◌++◌, In, All, includes, includes_iff,
  arith,
}
use policy_assignment_system.Conditions.{
  ConditionAttribute, department, state, country, location, employment_type, role, tenure_days,
  is_manager, group_id, ConditionOperator, eq, neq, is_in, not_in, gte, lte, gt, lt,
  ConditionScalar, ConditionValue, single, many, ConditionClause, RuleConditions, EmployeeContext,
  evaluate_conditions,
}
use policy_assignment_system.Narrowing.{positive_op, narrow_conditions, selects}
use policy_assignment_system.Narrowing.Sound.{is_group_list, at_most_one_list}
use policy_assignment_system.Narrowing.Candidates.{IsExact, selects_complete}
use policy_assignment_system.Validation.{
  expected_type, has_type, is_list_op, is_ordered_op, is_number, Issue, type_issue, ordered_issue,
  clause_issue, clause_key, duplicate_issues, clause_issues, conditions_issues,
}

abbrev pub HasType : ConditionAttribute → ConditionScalar → Type 0
HasType attribute value = has_type (expected_type attribute) value ≡ true

abbrev pub Accepted : ConditionAttribute → ConditionOperator → ConditionValue → Type 0
Accepted attribute op (many []) = ⊥
Accepted attribute op (many (v ∷ vs)) = (is_list_op op ≡ true) × All (HasType attribute) (v ∷ vs)
Accepted attribute op (single v) =
    (is_list_op op ≡ false)
    × ((is_ordered_op op ≡ false) ⊎ (attribute ≡ tenure_days))
    × HasType attribute v

abbrev pub IsAccepted : ConditionClause → Type 0
IsAccepted clause = Accepted clause.attribute clause.op clause.value

type_issue-none_iff :
    (clause : ConditionClause) (values : List ConditionScalar)
    → (type_issue clause values ≡ none) ↔ All (HasType clause.attribute) values
unfolding type_issue
type_issue-none_iff clause [] = (λ _. tt, λ _. refl)
type_issue-none_iff clause (v ∷ values) =
    let (to, from) = type_issue-none_iff clause values in
    elim (Bool-cases (has_type (expected_type clause.attribute) v)) [
      | inl good ↦ rw good (λ e. (refl, to e), λ h. from h.1)
      | inr bad ↦ rw bad (λ e. cc e, λ h. cc (h.0))
    ]

is_number_iff :
    (attribute : ConditionAttribute)
    → (is_number (expected_type attribute) ≡ true) ↔ (attribute ≡ tenure_days)
unfolding expected_type
is_number_iff attribute = ground arith

ordered_issue-none_iff :
    (clause : ConditionClause) (values : List ConditionScalar)
    → (ordered_issue clause values ≡ none) ↔ (
        ((is_ordered_op clause.op ≡ false) ⊎ (clause.attribute ≡ tenure_days))
        × All (HasType clause.attribute) values)
unfolding ordered_issue
ordered_issue-none_iff clause values =
    ground (arith, type_issue-none_iff clause values, is_number_iff clause.attribute)

list_op-unordered : (op : ConditionOperator) → is_list_op op ≡ true → is_ordered_op op ≡ false
list_op-unordered op h = ground arith

pub clause_issue-IsAccepted :
    (clause : ConditionClause) → (clause_issue clause ≡ none) ↔ IsAccepted clause
unfolding clause_issue
clause_issue-IsAccepted clause = by_value clause.attribute clause.op clause.value
  where
    by_value :
        (attribute : ConditionAttribute) (op : ConditionOperator) (value : ConditionValue)
        → let c : ConditionClause = record { attribute = attribute; op = op; value = value } in
          (clause_issue c ≡ none) ↔ IsAccepted c
    by_value attribute op (many []) = (λ e. cc e, λ w. elim w [ ])
    by_value attribute op (many (v ∷ vs)) =
        let c : ConditionClause = record {
          attribute = attribute;
          op = op;
          value = many (v ∷ vs);
        } in
        ground (arith, ordered_issue-none_iff c (v ∷ vs), list_op-unordered op)
    by_value attribute op (single v) =
        let c : ConditionClause = record { attribute = attribute; op = op; value = single v } in
        ground (arith, ordered_issue-none_iff c (v ∷ []))

clause_issues-cons :
    (clause : ConditionClause) (clauses : List ConditionClause)
    → clause_issues (clause ∷ clauses) ≡ []
    → (clause_issue clause ≡ none) × (clause_issues clauses ≡ [])
unfolding clause_issues
clause_issues-cons clause clauses h = elim (Option-cases (clause_issue clause)) [
  | inl e ↦ (e, rw (clause_issues, e) at h)
  | inr (issue, e) ↦ cc (rw (clause_issues, e) at h)
]

duplicate_issues-cons :
    (seen : List String) (clause : ConditionClause) (clauses : List ConditionClause)
    → duplicate_issues seen (clause ∷ clauses) ≡ []
    → (includes seen (clause_key clause) ≡ false)
      × (duplicate_issues (clause_key clause ∷ seen) clauses ≡ [])
unfolding duplicate_issues
duplicate_issues-cons seen clause clauses h =
    elim (Bool-cases (includes seen (clause_key clause))) [
      | inl old ↦ cc (rw old at h)
      | inr new ↦ (new, rw new at h)
    ]

abbrev list_key : String
list_key = clause_key (record { attribute = group_id; op = is_in; value = many [] })

-- An accepted clause that asks for a group of a list is `groupId in`.
is_group_list-key :
    (clause : ConditionClause)
    → IsAccepted clause
    → is_group_list clause ≡ true
    → clause_key clause ≡ list_key
unfolding is_group_list positive_op
is_group_list-key clause w h = by_parts clause.attribute clause.op clause.value w h
  where
    by_parts :
        (attribute : ConditionAttribute) (op : ConditionOperator) (value : ConditionValue)
        → Accepted attribute op value
        → is_group_list (record { attribute = attribute; op = op; value = value }) ≡ true
        → clause_key (record { attribute = attribute; op = op; value = value }) ≡ list_key
    by_parts group_id is_in value w h = refl
    by_parts group_id eq (many []) w h = elim w [ ]
    by_parts group_id eq (many (v ∷ vs)) w h = cc (w.0)
    by_parts group_id eq (single v) w h = cc h
    by_parts group_id neq value w h = cc h
    by_parts group_id not_in value w h = cc h
    by_parts group_id gte value w h = cc h
    by_parts group_id lte value w h = cc h
    by_parts group_id gt value w h = cc h
    by_parts group_id lt value w h = cc h
    by_parts department op value w h = cc h
    by_parts state op value w h = cc h
    by_parts country op value w h = cc h
    by_parts location op value w h = cc h
    by_parts employment_type op value w h = cc h
    by_parts role op value w h = cc h
    by_parts tenure_days op value w h = cc h
    by_parts is_manager op value w h = cc h

at_most_one_list-of_issues :
    (wide : Bool) (seen : List String) (clauses : List ConditionClause)
    → (wide ≡ true → In list_key seen)
    → clause_issues clauses ≡ []
    → duplicate_issues seen clauses ≡ []
    → at_most_one_list wide clauses ≡ true
unfolding at_most_one_list
at_most_one_list-of_issues wide seen [] known c d = refl
at_most_one_list-of_issues wide seen (clause ∷ clauses) known c d =
    let (sound, c') = clause_issues-cons clause clauses c in
    let (new, d') = duplicate_issues-cons seen clause clauses d in
    let w = (clause_issue-IsAccepted clause).0 sound in
    let rest =
      at_most_one_list-of_issues (wide || is_group_list clause) (clause_key clause ∷ seen) clauses
        (next w) c' d' in
    rw (once new w, rest) refl
  where
    next :
        IsAccepted clause
        → (wide || is_group_list clause) ≡ true
        → In list_key (clause_key clause ∷ seen)
    next w h = elim (Bool-cases wide) [
      | inl e ↦ inr (known e)
      | inr e ↦ inl (sym (is_group_list-key clause w (rw e at h)))
    ]

    once :
        includes seen (clause_key clause) ≡ false
        → IsAccepted clause
        → (wide && is_group_list clause) ≡ false
    once new w = elim (Bool-cases wide) [
      | inr e ↦ rw e refl
      | inl e ↦ elim (Bool-cases (is_group_list clause)) [
        | inr f ↦ rw (e, f) refl
        | inl f ↦
            let old =
              (includes_iff seen (clause_key clause)).1
                (rw (is_group_list-key clause w f) (known e)) in
            absurd (Bool-clash new old)
      ]
    ]

append_nil_parts : (xs ys : List Issue) → xs ++ ys ≡ [] → (xs ≡ []) × (ys ≡ [])
append_nil_parts [] ys h = (refl, h)
append_nil_parts (x ∷ xs) ys h = cc h

-- Conditions that the API accepts ask for a group out of a list at most once.
accepted-at_most_one_list :
    (conditions : RuleConditions)
    → conditions_issues conditions ≡ []
    → at_most_one_list false conditions.clauses ≡ true
unfolding conditions_issues
accepted-at_most_one_list conditions h =
    let (c, d) = append_nil_parts (clause_issues conditions.clauses) _ h in
    at_most_one_list-of_issues false [] conditions.clauses (λ e. cc e) c d

pub accepted_selects_complete :
    (context : EmployeeContext) (as_of hired : ℕ) (conditions : RuleConditions)
    → hired ≤ as_of
    → context.tenure ≡ as_of - hired
    → conditions_issues conditions ≡ []
    → All IsExact conditions.clauses
    → (evaluate_conditions conditions context).matched ≡ true
    → selects (narrow_conditions conditions as_of).filter context hired ≡ true
accepted_selects_complete context as_of hired conditions past tenure accepted exact matched =
    selects_complete context as_of hired past tenure conditions
      (accepted-at_most_one_list conditions accepted) exact matched
