-- ===== src/Conditions/Laws.antt =====
-- What the evaluator decides.
use mathlib.Core.List.{append_assoc, append-nil}
use policy_assignment_system.Prelude.{
  String, ◌≡◌, refl, sym, ◌↔◌, ◌⊎◌, inl, inr, Bool, true, false, not, ◌&&◌, none, some, List, [],
  ◌∷◌, ◌++◌, map, any, includes, includes_iff, In-of_any, any-of_In, All, In, arith, Bool-cases,
}
use policy_assignment_system.Conditions.{
  ConditionAttribute, department, state, country, location, employment_type, role, tenure_days,
  is_manager, group_id, ConditionOperator, eq, neq, is_in, not_in, ConditionClause, ConditionValue,
  ConditionScalar, single, RuleConditions, EmployeeContext, Actual, absent, ConditionEvaluation,
  AttributeValues, string_of, as_list, read_attribute, matches_clause, evaluate_from,
  evaluate_conditions, read_attribute_values,
}

abbrev pub Holds : EmployeeContext → ConditionClause → Type 0
Holds context clause = matches_clause clause context ≡ true

-- The clauses before the first that fails, that clause, and what follows it.
pub record FailsAt (context : EmployeeContext) (e : ConditionEvaluation)
    (clauses : List ConditionClause) : Type 0 where
  pub failing : ConditionClause
  pub after : List ConditionClause
  pub split : clauses ≡ e.matched_clauses ++ failing ∷ after
  pub held : All (Holds context) e.matched_clauses
  pub fails : matches_clause failing context ≡ false
  pub named : e.failed_clause ≡ some failing
  pub unmatched : e.matched ≡ false

pub record MatchesAll (context : EmployeeContext) (e : ConditionEvaluation)
    (clauses : List ConditionClause) : Type 0 where
  pub all_listed : e.matched_clauses ≡ clauses
  pub held : All (Holds context) clauses
  pub unnamed : e.failed_clause ≡ none
  pub matched : e.matched ≡ true

module _ (context : EmployeeContext) where
  All-concat :
      (xs : List ConditionClause) (x : ConditionClause)
      → All (Holds context) xs
      → Holds context x
      → All (Holds context) (xs ++ x ∷ [])
  All-concat [] x h p = (p, tt)
  All-concat (y ∷ xs) x (q, h) p = (q, All-concat xs x h p)

  evaluate_from-splits :
      (clauses : List ConditionClause) (values : AttributeValues) (done : List ConditionClause)
      → All (Holds context) done
      → MatchesAll context (evaluate_from clauses context values done) (done ++ clauses)
        ⊎ FailsAt context (evaluate_from clauses context values done) (done ++ clauses)
  unfolding evaluate_from
  evaluate_from-splits [] values done h = inl (record {
    all_listed = sym (append-nil done);
    held = rw append-nil h;
    unnamed = refl;
    matched = refl;
  })
  evaluate_from-splits (clause ∷ clauses) values done h =
      elim (Bool-cases (matches_clause clause context)) [
        | inl holds ↦ rw holds (
            rw (append_assoc done (clause ∷ []) clauses) at (
              evaluate_from-splits clauses values (done ++ clause ∷ [])
                (All-concat done clause h holds)))
        | inr fails ↦ rw fails (
            inr (record {
              failing = clause;
              after = clauses;
              split = refl;
              held = h;
              fails = fails;
              named = refl;
              unmatched = refl;
            }))
      ]

-- An evaluation either matches, with every clause held and listed, or stops at the first clause
-- that fails: it lists the clauses before it, all held, names that clause, and does not match.
pub evaluate_conditions-splits :
    (conditions : RuleConditions) (context : EmployeeContext)
    → MatchesAll context (evaluate_conditions conditions context) conditions.clauses
      ⊎ FailsAt context (evaluate_conditions conditions context) conditions.clauses
unfolding evaluate_conditions
evaluate_conditions-splits conditions context =
    evaluate_from-splits context conditions.clauses
      (read_attribute_values conditions.clauses context) [] tt

All-middle-fails :
    (context : EmployeeContext) (xs : List ConditionClause) (x : ConditionClause)
    (ys : List ConditionClause)
    → All (Holds context) (xs ++ x ∷ ys)
    → Holds context x
All-middle-fails context [] x ys h = h.0
All-middle-fails context (z ∷ xs) x ys h = All-middle-fails context xs x ys h.1

pub evaluate_conditions-matched_iff :
    (conditions : RuleConditions) (context : EmployeeContext)
    → ((evaluate_conditions conditions context).matched ≡ true)
      ↔ All (Holds context) conditions.clauses
evaluate_conditions-matched_iff conditions context =
    elim (evaluate_conditions-splits conditions context) [
      | inl m ↦ (λ _. m.held, λ _. m.matched)
      | inr f ↦ (
        λ e. cc (f.unmatched),
        λ h.
            let held = All-middle-fails context _ f.failing f.after (rw f.split at h) in
            cc (f.fails, held),
      )
    ]

-- The value of an attribute is missing.
abbrev pub unset : Actual → Bool
unset absent = true
unset _ = false

abbrev pub asks : ConditionAttribute → EmployeeContext → ConditionOperator → ConditionValue → Bool
asks attribute context op value =
    matches_clause (record { attribute = attribute; op = op; value = value }) context

-- `notIn` is the negation of `in`, and at a single value `neq` that of `eq`, except that none of
-- the four holds where the employee has no value for the attribute.
pub negations :
    (attribute : ConditionAttribute) (context : EmployeeContext) (value : ConditionScalar)
    (values : ConditionValue)
    → let set = not (unset (read_attribute attribute context)) in
      (asks attribute context neq (single value)
        ≡ (set && not (asks attribute context eq (single value))))
      × (asks attribute context not_in values ≡ (set && not (asks attribute context is_in values)))
unfolding matches_clause
negations department context value values = ground arith
negations state context value values = ground arith
negations country context value values = ground arith
negations location context value values = ground arith
negations employment_type context value values = ground arith
negations role context value values = ground arith
negations tenure_days context value values = ground arith
negations is_manager context value values = ground arith
negations group_id context value values = ground arith

any-includes_iff :
    (ids wanted : List String)
    → (any (λ id. includes ids id) wanted ≡ true) ↔ ((g : String) × In g wanted × In g ids)
any-includes_iff ids wanted = (
  λ h. let (g, m, e) = In-of_any _ wanted h in (g, m, (includes_iff ids g).0 e),
  λ (g, m, n). any-of_In _ wanted m ((includes_iff ids g).1 n),
)

-- On groups `eq` and `in` mean one thing: that the employee is in one of the groups named.
pub group_membership :
    (op : ConditionOperator) (value : ConditionValue) (context : EmployeeContext)
    → (op ≡ eq) ⊎ (op ≡ is_in)
    → (asks group_id context op value ≡ true)
      ↔ ((g : String) × In g (map string_of (as_list value)) × In g context.group_ids)
unfolding matches_clause
group_membership op value context (inl e) =
    rw e (any-includes_iff context.group_ids (map string_of (as_list value)))
group_membership op value context (inr e) =
    rw e (any-includes_iff context.group_ids (map string_of (as_list value)))
