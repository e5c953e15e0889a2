-- ===== src/Narrowing/Candidates.antt =====
-- Narrowing drops no employee that the conditions match.
use policy_assignment_system.Prelude.{
  ℕ, ◌-◌, ◌≤◌, ◌≡◌, refl, Bool, true, false, ◌&&◌, ◌||◌, Option-cases, inl, inr, List, [], ◌∷◌,
  ◌++◌, All, arith, if◌then◌else◌,
}
use policy_assignment_system.Conditions.{
  ConditionClause, RuleConditions, EmployeeContext, evaluate_conditions,
}
use policy_assignment_system.Conditions.Laws.{Holds, evaluate_conditions-matched_iff}
use policy_assignment_system.Narrowing.{
  CandidateFilter, NarrowedConditions, no_filter, selects, narrow_clause, narrow_from,
  narrow_conditions, in_column, is_manager_as, not_before, not_after,
}
use policy_assignment_system.Narrowing.Steps.{Admits, is_strict_fraction}
use policy_assignment_system.Narrowing.Sound.{
  is_group_list, at_most_one_list, Admits-selects, Admits-widen, narrow_clause-Admits,
}

-- A clause that does not compare by `gt` or `lt` with a number that is not whole.
abbrev pub IsExact : ConditionClause → Type 0
IsExact clause = is_strict_fraction clause.op clause.value ≡ false

split_limit :
    (seen here rest : Bool)
    → (if seen && here then false else rest) ≡ true
    → ((seen && here) ≡ false) × (rest ≡ true)
split_limit seen here rest h = ground arith

Admits-no_filter : (context : EmployeeContext) (hired : ℕ) → Admits false no_filter context hired
unfolding in_column is_manager_as not_before not_after
Admits-no_filter context hired = record {
  departments = refl;
  states = refl;
  countries = refl;
  locations = refl;
  employment_types = refl;
  roles = refl;
  manager = refl;
  from = refl;
  to = refl;
  groups = tt;
}

module _ (context : EmployeeContext) (as_of hired : ℕ) (past : hired ≤ as_of)
    (tenure : context.tenure ≡ as_of - hired) where
  narrow_from-Admits :
      (wide : Bool) (clauses : List ConditionClause) (n : NarrowedConditions)
      → at_most_one_list wide clauses ≡ true
      → All IsExact clauses
      → All (Holds context) clauses
      → Admits wide n.filter context hired
      → (w : Bool) × Admits w (narrow_from as_of clauses n).filter context hired
  unfolding narrow_from at_most_one_list
  narrow_from-Admits wide [] n limit exact held a = (wide, a)
  narrow_from-Admits wide (clause ∷ clauses) n limit (here_exact, exact) (holds, held) a =
      let (here, later) =
        split_limit wide (is_group_list clause)
          (at_most_one_list (wide || is_group_list clause) clauses) limit in
      let next =
        narrow_clause-Admits context as_of hired past tenure wide clause.attribute clause.op
          clause.value n.filter here here_exact holds a in
      elim (Option-cases (narrow_clause as_of clause n.filter)) [
        | inl e ↦
            rw (narrow_from, e)
              (narrow_from-Admits (wide || is_group_list clause) clauses
                (record n { residual = n.residual ++ clause ∷ [] }) later exact held
                (Admits-widen wide (is_group_list clause) n.filter context hired a))
        | inr (f, e) ↦
            rw (narrow_from, e)
              (narrow_from-Admits (wide || is_group_list clause) clauses (record n { filter = f })
                later exact held (rw e at next))
      ]

  pub selects_complete :
      (conditions : RuleConditions)
      → at_most_one_list false conditions.clauses ≡ true
      → All IsExact conditions.clauses
      → (evaluate_conditions conditions context).matched ≡ true
      → selects (narrow_conditions conditions as_of).filter context hired ≡ true
  unfolding narrow_conditions
  selects_complete conditions limit exact matched =
      let held = (evaluate_conditions-matched_iff conditions context).0 matched in
      let (w, a) =
        narrow_from-Admits false conditions.clauses _ limit exact held
          (Admits-no_filter context hired) in
      Admits-selects _ context hired (lift w _ a)
    where
      lift :
          (w : Bool) (f : CandidateFilter) → Admits w f context hired → Admits true f context hired
      lift true f a = a
      lift false f a = Admits-widen false true f context hired a
