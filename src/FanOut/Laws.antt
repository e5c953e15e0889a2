-- ===== src/FanOut/Laws.antt =====
-- Who is in a fan-out: everyone whom the rule matched or matches, and everyone who holds it, once each.
use policy_assignment_system.Prelude.{
  ◌-◌, ◌≤◌, String, ◌≡◌, refl, sym, subst, inl, inr, Bool, true, not, Bool-cases, Option-cases,
  Option, none, some, List, [], ◌∷◌, ◌++◌, keep, In, In-map, In-keep, In-of_keep, Distinct, All,
  arith, str_eq, eq_iff, ℤ,
}
use policy_assignment_system.Dates.{Date, day_of, tenure_days_as_of, days_between}
use policy_assignment_system.Conditions.{RuleConditions}
use policy_assignment_system.Engine.Triage.{build_employee_context}
use policy_assignment_system.Reconcile.{working}
use policy_assignment_system.Narrowing.{narrow_conditions, is_exhaustive, selects}
use policy_assignment_system.Validation.{conditions_issues}
use policy_assignment_system.Narrowing.Candidates.{IsExact}
use policy_assignment_system.Validation.Laws.{accepted_selects_complete}
use policy_assignment_system.Rules.{PolicyRule, find_rule}
use policy_assignment_system.FanOut.{
  Staff, FanOutReads, distinct, context_of, find_candidates, is_match, matching, previous_matching,
  holder_ids, fan_out_rule, target_of, affected_employee_ids,
}

pub In-distinct : (id : String) (ids : List String) → In id ids → In id (distinct ids)
unfolding distinct
In-distinct id (x ∷ ids) (inl e) = inl e
In-distinct id (x ∷ ids) (inr m) = elim (Bool-cases (str_eq id x)) [
  | inl same ↦ inl ((eq_iff id x).0 same)
  | inr other ↦ inr (In-keep _ (distinct ids) (In-distinct id ids m) (rw other refl))
]
In-distinct id [] m = elim m [ ]

Distinct-keep : (p : String → Bool) (ids : List String) → Distinct ids → Distinct (keep p ids)
Distinct-keep p [] d = tt
Distinct-keep p (id ∷ ids) (new, d) = elim (Bool-cases (p id)) [
  | inl kept ↦ rw kept (λ m. new (In-of_keep p ids m).0, Distinct-keep p ids d)
  | inr lost ↦ rw lost (Distinct-keep p ids d)
]

Distinct-distinct : (ids : List String) → Distinct (distinct ids)
unfolding distinct
Distinct-distinct [] = tt
Distinct-distinct (id ∷ ids) = (
  λ m. gone ((In-of_keep _ (distinct ids) m).1),
  Distinct-keep _ (distinct ids) (Distinct-distinct ids),
)
  where
    gone : not (str_eq id id) ≡ true → ⊥
    gone h = ground (arith, (eq_iff id id).1 refl)

pub target_of-none : (rule : PolicyRule) → rule.state.employee_id ≡ none → target_of rule ≡ none
target_of-none rule e = rw (target_of, e) refl

module _ (reads : FanOutReads) (organization_id rule_id : String) (rule_version : Option ℤ)
    (as_of : Date) where
  abbrev ids : List String
  ids = (affected_employee_ids reads organization_id rule_id rule_version as_of).employee_ids

  affected-gone :
      find_rule organization_id rule_id reads.rules ≡ none
      → ids ≡ distinct (holder_ids reads organization_id rule_id)
  unfolding affected_employee_ids
  affected-gone gone = rw (ids, affected_employee_ids, gone) refl

  affected-target :
      (rule : PolicyRule) (id : String)
      → find_rule organization_id rule_id reads.rules ≡ some rule
      → target_of rule ≡ some id
      → ids ≡ id ∷ []
  unfolding affected_employee_ids
  affected-target rule id found target = rw (ids, affected_employee_ids, found, target) refl

  pub affected-general :
      (rule : PolicyRule)
      → find_rule organization_id rule_id reads.rules ≡ some rule
      → target_of rule ≡ none
      → ids
        ≡ distinct (
            (matching reads organization_id rule.state.json.conditions as_of).ids
            ++ ((previous_matching reads organization_id rule_id rule_version as_of).ids
                ++ holder_ids reads organization_id rule_id))
  unfolding affected_employee_ids fan_out_rule
  affected-general rule found general = rw (ids, affected_employee_ids, found, general) refl

  -- Nobody is in a fan-out twice.
  pub affected-Distinct : Distinct ids
  affected-Distinct = elim (Option-cases (find_rule organization_id rule_id reads.rules)) [
    | inl gone ↦ subst Distinct (sym (affected-gone gone)) (Distinct-distinct _)
    | inr (rule, found) ↦ elim (Option-cases (target_of rule)) [
      | inl general ↦
          subst Distinct (sym (affected-general rule found general)) (Distinct-distinct _)
      | inr (id, e) ↦ subst Distinct (sym (affected-target rule id found e)) (λ m. elim m [ ], tt)
    ]
  ]

-- An employee who works for the organization and was hired by the day.
pub record IsCandidate (reads : FanOutReads) (organization_id : String) (as_of : Date) (row : Staff)
    : Type 0 where
  pub listed : In row reads.staff
  pub organization : row.organization_id ≡ organization_id
  pub at_work : row.status ≡ working
  pub hired : day_of row.employee.hire_date ≤ day_of as_of

tenure-context :
    (reads : FanOutReads) (as_of : Date) (row : Staff)
    → (context_of reads as_of row).tenure ≡ day_of as_of - day_of row.employee.hire_date
unfolding build_employee_context tenure_days_as_of days_between
tenure-context reads as_of row = ground arith

module _ (reads : FanOutReads) (organization_id : String) (as_of : Date) (row : Staff)
    (candidate : IsCandidate reads organization_id as_of row) where
  -- Where conditions were accepted and exact, an employee who matches them is found.
  pub matching_complete :
      (conditions : RuleConditions)
      → conditions_issues conditions ≡ []
      → All IsExact conditions.clauses
      → is_match reads conditions as_of row ≡ true
      → In row.employee.id (matching reads organization_id conditions as_of).ids
  unfolding matching
  matching_complete conditions accepted exact matched =
      elim (Bool-cases (is_exhaustive (narrow_conditions conditions (day_of as_of)))) [
        | inl all ↦ rw all (In-map (λ r. r.employee.id) row _ found)
        | inr some_left ↦
            rw some_left (In-map (λ r. r.employee.id) row _ (In-keep _ _ found matched))
      ]
    where
      selected :
          selects
            (narrow_conditions conditions (day_of as_of)).filter
            (context_of reads as_of row)
            (day_of row.employee.hire_date)
          ≡ true
      selected =
          accepted_selects_complete (context_of reads as_of row) (day_of as_of)
            (day_of row.employee.hire_date) conditions candidate.hired
            (tenure-context reads as_of row) accepted exact matched

      found : In row (
          find_candidates reads organization_id
            (narrow_conditions conditions (day_of as_of)).filter
            as_of)
      found = In-keep _ reads.staff candidate.listed (
          rw
            (
              (eq_iff row.organization_id organization_id).1 candidate.organization,
              candidate.at_work,
              selected,
            )
            refl)
