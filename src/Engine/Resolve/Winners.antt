-- ===== src/Engine/Resolve/Winners.antt =====
-- Who wins, stated without buckets, sorting or loops.
use policy_assignment_system.Prelude.{
  ◌≡◌, ◌≢◌, sym, ap, subst, ◌∙◌, ◌⊎◌, inl, inr, false, List, In, In-map, In-of_map, In-flat_map,
  In-of_flat_map, Bool-cases, eq_iff, str_eq, pos, ◌≤ℤ◌,
}
use policy_assignment_system.Prelude.Sorting.{In-sort, In-of_sort}
use policy_assignment_system.Conditions.{EmployeeContext}
use policy_assignment_system.Engine.{
  CategoryResolution, EngineRule, ResolveInput, ResolvedPolicy, one_only,
}
use policy_assignment_system.Engine.Order.{Outranks, compare_rules}
use policy_assignment_system.Engine.Order.Laws.{Outranks-of_le, Outranks-asymm}
use policy_assignment_system.Engine.Triage.{Candidate, build_employee_context, to_resolved_policy}
use policy_assignment_system.Engine.Triage.Laws.{IsEligible, candidate_of, triage-kept_iff}
use policy_assignment_system.Engine.Decide.{CategoryBucket, category_of, decide}
use policy_assignment_system.Engine.Decide.Laws.{decide-Sound, decide_complete}
use policy_assignment_system.Engine.Resolve.{resolve, compare_categories}
use policy_assignment_system.Engine.Resolve.Fill.{
  buckets, buckets-IsFrom, bucket-of, In-bucket, In-of_bucket,
}

-- What the database gives: an id is the key of one rule, and a category has one cardinality.
pub record IsConsistent (rules : List EngineRule) : Type 0 where
  pub keys : (r s : EngineRule) → In r rules → In s rules → r.id ≡ s.id → r ≡ s
  pub cardinalities :
      (r s : EngineRule)
      → In r rules
      → In s rules
      → r.category_id ≡ s.category_id
      → r.cardinality ≡ s.cardinality

abbrev pub context_of : ResolveInput → EmployeeContext
context_of input = build_employee_context input.employee input.as_of

abbrev pub Eligible : ResolveInput → EngineRule → Type 0
Eligible input = IsEligible input.employee input.as_of (context_of input)

-- A rule that competes with another: of the same category and, unless that is SINGLE, for the same
-- policy.
abbrev pub Rivals : EngineRule → EngineRule → Type 0
Rivals r s =
    (s.id ≢ r.id)
    × (s.category_id ≡ r.category_id)
    × ((r.cardinality ≡ one_only) ⊎ (s.policy_id ≡ r.policy_id))

-- The specification of a win: eligible, and ahead of every eligible rival.
pub record Wins (input : ResolveInput) (r : EngineRule) : Type 0 where
  pub eligible : Eligible input r
  pub ahead : (s : EngineRule) → In s input.rules → Eligible input s → Rivals r s → Outranks r s

module _ (input : ResolveInput) where
  abbrev input_buckets : List CategoryBucket
  input_buckets = buckets input.employee input.as_of (context_of input) input.rules

  In-winners :
      (b : CategoryBucket) (w : ResolvedPolicy)
      → In b input_buckets
      → In w (decide b).winners
      → In w (resolve input).winners
  unfolding resolve
  In-winners b w m n =
      In-flat_map (λ category. category.winners) w (category_of b) _
        (In-sort compare_categories (category_of b) _ (In-map category_of b input_buckets m)) n

  In-of_winners :
      (w : ResolvedPolicy)
      → In w (resolve input).winners
      → (b : CategoryBucket) × In b input_buckets × In w (decide b).winners
  unfolding resolve
  In-of_winners w m =
      let (category, n, k) = In-of_flat_map (λ (c : CategoryResolution). c.winners) w _ m in
      let (b, i, e) =
        In-of_map category_of input_buckets (In-of_sort compare_categories category _ n) in
      (b, i, subst (λ (c : CategoryResolution). In w c.winners) e k)

module _ (input : ResolveInput) (consistent : IsConsistent input.rules) where
  bucket-cardinality :
      (b : CategoryBucket) (r : EngineRule)
      → In b (input_buckets input)
      → In r input.rules
      → r.category_id ≡ b.category_id
      → r.cardinality ≡ b.cardinality
  bucket-cardinality b r m i e =
      let (s, j, f, k) =
        buckets-IsFrom input.employee input.as_of (context_of input) input.rules b m in
      consistent.cardinalities r s i j (e ∙ sym f) ∙ k

  decided_sound :
      (b : CategoryBucket) (w : ResolvedPolicy)
      → In b (input_buckets input)
      → In w (decide b).winners
      → (r : EngineRule) × In r input.rules
        × Wins input r
        × (w ≡ to_resolved_policy r w.reason)
        × (r.category_id ≡ b.category_id)
  decided_sound b w n k =
      let (c, j, made, least) = decide-Sound b w k in
      let (r, i, e, passed, q) =
        In-of_bucket input.employee input.as_of (context_of input) input.rules b c n j in
      (
        r,
        i,
        record {
          eligible = (triage-kept_iff input.employee input.as_of (context_of input) r).0 passed;
          ahead = λ s l el (ne, same, rival).
              Outranks-of_le r s (λ f. ne (sym f))
                (subst (λ x. compare_rules x.rule s ≤ℤ pos 0) q
                  (least (candidate_of (context_of input) s)
                    (In-bucket input.employee input.as_of (context_of input) input.rules b s n l
                      (same ∙ e)
                      ((triage-kept_iff input.employee input.as_of (context_of input) s).1 el))
                    (competes c r s (bucket-cardinality b r n i e) q rival)));
        },
        subst (λ x. w ≡ to_resolved_policy x.rule w.reason) q made,
        e,
      )
    where
      competes :
          (c : Candidate) (r s : EngineRule)
          → r.cardinality ≡ b.cardinality
          → c ≡ candidate_of (context_of input) r
          → (r.cardinality ≡ one_only) ⊎ (s.policy_id ≡ r.policy_id)
          → (b.cardinality ≡ one_only) ⊎ (s.policy_id ≡ c.rule.policy_id)
      competes c r s same q (inl one) = inl (sym same ∙ one)
      competes c r s same q (inr policy) = inr (policy ∙ sym (ap (λ x. x.rule.policy_id) q))

  -- Every winner is made from a rule that wins: an eligible rule that outranks each eligible rule of
  -- its category (where the category is not SINGLE, each that gives the same policy).
  pub resolve-winner_sound :
      (w : ResolvedPolicy)
      → In w (resolve input).winners
      → (r : EngineRule) × In r input.rules × Wins input r × (w ≡ to_resolved_policy r w.reason)
  resolve-winner_sound w m =
      let (b, n, k) = In-of_winners input w m in
      let (r, i, wins, made, _) = decided_sound b w n k in (r, i, wins, made)

  -- Two rules that win a SINGLE category, or one policy of a category, are one rule.
  pub Wins-unique :
      (r s : EngineRule)
      → In r input.rules
      → In s input.rules
      → Wins input r
      → Wins input s
      → s.category_id ≡ r.category_id
      → (r.cardinality ≡ one_only) ⊎ (s.policy_id ≡ r.policy_id)
      → s ≡ r
  Wins-unique r s i j wr ws e rival = elim (Bool-cases (str_eq s.id r.id)) [
    | inl same ↦ consistent.keys s r j i ((eq_iff s.id r.id).0 same)
    | inr differ ↦
        let distinct : s.id ≢ r.id = λ f. clash differ f in
        absurd (
          Outranks-asymm r s (wr.ahead s j ws.eligible (distinct, e, rival))
            (ws.ahead r i wr.eligible ((λ f. distinct (sym f)), sym e, mirror rival)))
  ]
    where
      clash : str_eq s.id r.id ≡ false → ¬ (s.id ≡ r.id)
      clash differ f = let same = (eq_iff s.id r.id).1 f in cc (same, differ)

      mirror :
          (r.cardinality ≡ one_only) ⊎ (s.policy_id ≡ r.policy_id)
          → (s.cardinality ≡ one_only) ⊎ (r.policy_id ≡ s.policy_id)
      mirror (inl one) = inl (consistent.cardinalities s r j i e ∙ one)
      mirror (inr policy) = inr (sym policy)

  -- Every rule of the input that wins has a winner made from it.
  pub resolve-winner_complete :
      (r : EngineRule)
      → In r input.rules
      → Wins input r
      → (w : ResolvedPolicy) × In w (resolve input).winners × (w ≡ to_resolved_policy r w.reason)
  unfolding to_resolved_policy
  resolve-winner_complete r i wins =
      let (b, n, e) = bucket-of input.employee input.as_of (context_of input) input.rules r i in
      let (w, k, rival) = decide_complete b (candidate_of (context_of input) r) (
        In-bucket input.employee input.as_of (context_of input) input.rules b r n i e
          ((triage-kept_iff input.employee input.as_of (context_of input) r).1 wins.eligible)) in
      let (s, j, other, made, f) = decided_sound b w n k in
      let same =
        Wins-unique r s i j wins other (f ∙ sym e)
          (shared b w s (bucket-cardinality b r n i e) made rival) in
      (w, In-winners input b w n k, subst (λ x. w ≡ to_resolved_policy x w.reason) same made)
    where
      shared :
          (b : CategoryBucket) (w : ResolvedPolicy) (s : EngineRule)
          → r.cardinality ≡ b.cardinality
          → w ≡ to_resolved_policy s w.reason
          → (b.cardinality ≡ one_only) ⊎ (w.policy_id ≡ r.policy_id)
          → (r.cardinality ≡ one_only) ⊎ (s.policy_id ≡ r.policy_id)
      shared b w s same made (inl one) = inl (same ∙ one)
      shared b w s same made (inr policy) = inr (sym (ap (λ v. v.policy_id) made) ∙ policy)
