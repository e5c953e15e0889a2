-- ===== src/Engine/Resolve/Fill.antt =====
-- The buckets after the whole loop: what stands in each, and that each rule has its place.
use mathlib.Core.List.{append-nil, append_assoc}
use policy_assignment_system.Prelude.{
  String, ◌≡◌, refl, sym, ap, subst, ◌∙◌, inl, inr, List, [], ◌∷◌, ◌++◌, In, In-of_map,
  In-append_left, In-append_right, In-append_cases, Distinct, eq_iff, str_eq, if◌then◌else◌,
  Bool-cases,
}
use policy_assignment_system.Dates.{Date}
use policy_assignment_system.Conditions.{EmployeeContext}
use policy_assignment_system.Engine.{EngineEmployee, EngineRule}
use policy_assignment_system.Engine.Triage.{Candidate, Triage, kept, triage}
use policy_assignment_system.Engine.Triage.Laws.{candidate_of, triage-cases}
use policy_assignment_system.Engine.Decide.{CategoryBucket}
use policy_assignment_system.Engine.Resolve.{file, fill}
use policy_assignment_system.Engine.Resolve.Buckets.{
  category_ids, candidates_at, picked, candidates_at-file, candidates_at-Distinct, Distinct-file,
  IsFrom, IsFrom-file, In-category_ids-own, In-category_ids-kept,
}

module _ (employee : EngineEmployee) (as_of : Date) (context : EmployeeContext) where
  abbrev pub outcome_of : EngineRule → Triage
  outcome_of = triage employee as_of context

  -- The candidates of one category, in the order of the rules.
  pub candidates_in : String → List EngineRule → List Candidate
  candidates_in id [] = []
  candidates_in id (rule ∷ rules) =
      (if str_eq rule.category_id id then picked (outcome_of rule) else [])
      ++ candidates_in id rules

  candidates_at-fill_from :
      (id : String) (rules : List EngineRule) (bs : List CategoryBucket)
      → candidates_at id (fill employee as_of context rules bs)
        ≡ candidates_at id bs ++ candidates_in id rules
  unfolding fill candidates_in
  candidates_at-fill_from id [] bs = sym (append-nil _)
  candidates_at-fill_from id (rule ∷ rules) bs =
      candidates_at-fill_from id rules (file rule (outcome_of rule) bs)
      ∙ ap (λ cs. cs ++ candidates_in id rules) (candidates_at-file id rule (outcome_of rule) bs)
      ∙ append_assoc (candidates_at id bs) _ _

  Distinct-fill_from :
      (rules : List EngineRule) (bs : List CategoryBucket)
      → Distinct (category_ids bs)
      → Distinct (category_ids (fill employee as_of context rules bs))
  unfolding fill
  Distinct-fill_from [] bs d = d
  Distinct-fill_from (rule ∷ rules) bs d =
      Distinct-fill_from rules (file rule (outcome_of rule) bs)
        (Distinct-file rule (outcome_of rule) bs d)

  IsFrom-fill-IsFrom :
      (all rules : List EngineRule) (bs : List CategoryBucket)
      → ((r : EngineRule) → In r rules → In r all)
      → ((b : CategoryBucket) → In b bs → IsFrom all b)
      → (b : CategoryBucket) → In b (fill employee as_of context rules bs)
      → IsFrom all b
  unfolding fill
  IsFrom-fill-IsFrom all [] bs sub h b m = h b m
  IsFrom-fill-IsFrom all (rule ∷ rules) bs sub h b m =
      IsFrom-fill-IsFrom all rules (file rule (outcome_of rule) bs) (λ r n. sub r (inr n))
        (IsFrom-file all rule (outcome_of rule) bs (sub rule (inl refl)) h) b m

  In-category_ids-fill_kept :
      (id : String) (rules : List EngineRule) (bs : List CategoryBucket)
      → In id (category_ids bs)
      → In id (category_ids (fill employee as_of context rules bs))
  unfolding fill
  In-category_ids-fill_kept id [] bs m = m
  In-category_ids-fill_kept id (rule ∷ rules) bs m =
      In-category_ids-fill_kept id rules (file rule (outcome_of rule) bs)
        (In-category_ids-kept id rule (outcome_of rule) bs m)

  In-category_ids-fill_from :
      (r : EngineRule) (rules : List EngineRule) (bs : List CategoryBucket)
      → In r rules
      → In r.category_id (category_ids (fill employee as_of context rules bs))
  unfolding fill
  In-category_ids-fill_from r [] bs m = elim m [ ]
  In-category_ids-fill_from r (rule ∷ rules) bs (inl e) =
      In-category_ids-fill_kept r.category_id rules (file rule (outcome_of rule) bs)
        (rw e (In-category_ids-own rule (outcome_of rule) bs))
  In-category_ids-fill_from r (rule ∷ rules) bs (inr m) =
      In-category_ids-fill_from r rules (file rule (outcome_of rule) bs) m

  In-picked :
      (id : String) (r : EngineRule)
      → r.category_id ≡ id
      → outcome_of r ≡ kept (candidate_of context r)
      → In (candidate_of context r) (if str_eq r.category_id id then picked (outcome_of r) else [])
  In-picked id r e k = rw ((eq_iff r.category_id id).1 e, k) (inl refl)

  In-of_picked :
      (id : String) (c : Candidate) (r : EngineRule)
      → In c (if str_eq r.category_id id then picked (outcome_of r) else [])
      → (r.category_id ≡ id)
        × (outcome_of r ≡ kept (candidate_of context r))
        × (c ≡ candidate_of context r)
  In-of_picked id c r m = elim (Bool-cases (str_eq r.category_id id)) [
    | inl same ↦ elim (triage-cases employee as_of context r) [
      | inl k ↦ ((eq_iff r.category_id id).0 same, k, In-single (rw (same, k) at m))
      | inr (entry, k, _, _) ↦ absurd (rw (same, k) at m)
    ]
    | inr other ↦ absurd (rw other at m)
  ]
    where
      In-single : {x : Candidate} → In c (x ∷ []) → c ≡ x
      In-single (inl e) = e
      In-single (inr n) = elim n [ ]

  In-candidates_in :
      (id : String) (r : EngineRule) (rules : List EngineRule)
      → In r rules
      → r.category_id ≡ id
      → outcome_of r ≡ kept (candidate_of context r)
      → In (candidate_of context r) (candidates_in id rules)
  unfolding candidates_in
  In-candidates_in id r [] m e k = elim m [ ]
  In-candidates_in id r (rule ∷ rules) (inl q) e k =
      In-append_left _ (if str_eq rule.category_id id then picked (outcome_of rule) else []) _ (
        subst
          (λ x.
            In (candidate_of context r)
              (if str_eq x.category_id id then picked (outcome_of x) else []))
          q (In-picked id r e k))
  In-candidates_in id r (rule ∷ rules) (inr m) e k =
      In-append_right _ (if str_eq rule.category_id id then picked (outcome_of rule) else []) _
        (In-candidates_in id r rules m e k)

  In-of_candidates_in :
      (id : String) (c : Candidate) (rules : List EngineRule)
      → In c (candidates_in id rules)
      → (r : EngineRule) × In r rules
        × (r.category_id ≡ id)
        × (outcome_of r ≡ kept (candidate_of context r))
        × (c ≡ candidate_of context r)
  unfolding candidates_in
  In-of_candidates_in id c [] m = elim m [ ]
  In-of_candidates_in id c (rule ∷ rules) m =
      elim (In-append_cases c (if str_eq rule.category_id id then picked (outcome_of rule) else [])
        _ m) [
          | inl here ↦ let (e, k, q) = In-of_picked id c rule here in (rule, inl refl, e, k, q)
          | inr later ↦
              let (r, n, e, k, q) = In-of_candidates_in id c rules later in (r, inr n, e, k, q)
        ]

module _ (employee : EngineEmployee) (as_of : Date) (context : EmployeeContext)
    (rules : List EngineRule) where
  abbrev pub buckets : List CategoryBucket
  buckets = fill employee as_of context rules []

  pub buckets-Distinct : Distinct (category_ids buckets)
  buckets-Distinct = Distinct-fill_from employee as_of context rules [] tt

  -- Every bucket stands for the category of one of the rules, with that rule's cardinality.
  pub buckets-IsFrom : (b : CategoryBucket) → In b buckets → IsFrom rules b
  buckets-IsFrom b m =
      IsFrom-fill-IsFrom employee as_of context rules rules [] (λ r n. n) (λ x n. elim n [ ]) b m

  -- Every rule's category has a bucket.
  pub bucket-of :
      (r : EngineRule)
      → In r rules
      → (b : CategoryBucket) × In b buckets × (r.category_id ≡ b.category_id)
  bucket-of r m =
      In-of_map (λ y. y.category_id) buckets
        (In-category_ids-fill_from employee as_of context r rules [] m)

  bucket-candidates :
      (b : CategoryBucket)
      → In b buckets
      → b.candidates ≡ candidates_in employee as_of context b.category_id rules
  unfolding candidates_at
  bucket-candidates b m =
      sym (candidates_at-Distinct buckets b buckets-Distinct m)
      ∙ candidates_at-fill_from employee as_of context b.category_id rules []

  -- The candidates of a bucket are the eligible rules of its category.
  pub In-bucket :
      (b : CategoryBucket) (r : EngineRule)
      → In b buckets
      → In r rules
      → r.category_id ≡ b.category_id
      → triage employee as_of context r ≡ kept (candidate_of context r)
      → In (candidate_of context r) b.candidates
  In-bucket b r m n e k =
      rw (bucket-candidates b m)
        (In-candidates_in employee as_of context b.category_id r rules n e k)

  pub In-of_bucket :
      (b : CategoryBucket) (c : Candidate)
      → In b buckets
      → In c b.candidates
      → (r : EngineRule) × In r rules
        × (r.category_id ≡ b.category_id)
        × (triage employee as_of context r ≡ kept (candidate_of context r))
        × (c ≡ candidate_of context r)
  In-of_bucket b c m n =
      In-of_candidates_in employee as_of context b.category_id c rules
        (subst (In c) (bucket-candidates b m) n)
