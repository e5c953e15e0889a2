-- ===== src/Engine/Decide/Laws.antt =====
-- What both branches of the decision in a category have in common.
use mathlib.Core.List.{Perm}
use mathlib.Core.List.Perm
use policy_assignment_system.Prelude.{
  String, ◌≤◌, ◌≡◌, refl, subst, ◌⊎◌, inl, inr, List, [], In, Distinct, map, length, pos, ◌≤ℤ◌,
}
use policy_assignment_system.Prelude.Sorting.{
  sort, sort-IsSorted, sort-perm, In-sort, In-of_sort, IsSorted,
}
use policy_assignment_system.Engine.{Cardinality, ResolvedPolicy, one_only, several}
use policy_assignment_system.Engine.Order.Laws.{compare_rules_total, compare_rules_trans}
use policy_assignment_system.Engine.Triage.{Candidate}
use policy_assignment_system.Engine.Decide.{
  CategoryBucket, compare_candidates, decide, decide_single, decide_several, owner_of,
}
use policy_assignment_system.Engine.Decide.Single.{
  IsMadeFrom, decide_single_sound, decide_single-complete, decide_single-length, decide_single-ids,
  decide_single-Distinct,
}
use policy_assignment_system.Engine.Decide.Several.{
  IsFree, decide_several_sound, decide_several_complete, decide_several-Distinct,
  decide_several-ids,
}

-- In a SINGLE category all candidates compete, in a MULTIPLE one those for one policy.
abbrev pub Competes : Cardinality → Candidate → Candidate → Type 0
Competes cardinality c d = (cardinality ≡ one_only) ⊎ (d.rule.policy_id ≡ c.rule.policy_id)

abbrev ordered : CategoryBucket → List Candidate
ordered b = sort compare_candidates b.candidates

ordered-IsSorted : (b : CategoryBucket) → IsSorted compare_candidates (ordered b)
ordered-IsSorted b =
    sort-IsSorted compare_candidates (λ x y z. compare_rules_trans x.rule y.rule z.rule)
      (λ x y. compare_rules_total x.rule y.rule) b.candidates

Cardinality-cases : (k : Cardinality) → (k ≡ one_only) ⊎ (k ≡ several)
Cardinality-cases one_only = inl refl
Cardinality-cases several = inr refl

decide-one_only :
    (b : CategoryBucket) → b.cardinality ≡ one_only → decide b ≡ decide_single (ordered b)
unfolding decide
decide-one_only b e = rw e

decide-several :
    (b : CategoryBucket) → b.cardinality ≡ several → decide b ≡ decide_several [] (ordered b)
unfolding decide
decide-several b e = rw e

IsFree-nil : (policy : String) → IsFree [] policy
unfolding owner_of
IsFree-nil policy = refl

abbrev Sound : CategoryBucket → ResolvedPolicy → Type 0
Sound b w =
    (c : Candidate) × In c b.candidates
    × IsMadeFrom w c
    × ((d : Candidate)
        → In d b.candidates
        → Competes b.cardinality c d
        → compare_candidates c d ≤ℤ pos 0)

-- A winner is made from a candidate that comes after none of those it competes with.
pub decide-Sound : (b : CategoryBucket) (w : ResolvedPolicy) → In w (decide b).winners → Sound b w
decide-Sound b w m = elim (Cardinality-cases b.cardinality) [
  | inl e ↦
      let (c, n, made, least) =
        decide_single_sound (ordered b) (ordered-IsSorted b) w
          (subst (λ d. In w d.winners) (decide-one_only b e) m) in
      (
        c,
        In-of_sort compare_candidates c b.candidates n,
        made,
        λ d k _. least d (In-sort compare_candidates d b.candidates k),
      )
  | inr e ↦
      let (c, n, made, _, least) =
        decide_several_sound [] (ordered b) (ordered-IsSorted b) w
          (subst (λ d. In w d.winners) (decide-several b e) m) in
      (
        c,
        In-of_sort compare_candidates c b.candidates n,
        made,
        λ d k same. least d (In-sort compare_candidates d b.candidates k) (policy c d e same),
      )
]
  where
    policy :
        (c d : Candidate)
        → b.cardinality ≡ several
        → Competes b.cardinality c d
        → d.rule.policy_id ≡ c.rule.policy_id
    policy c d e (inl one) = cc (e, one)
    policy c d e (inr same) = same

-- Where there is a candidate, its category, or its policy, has a winner.
pub decide_complete :
    (b : CategoryBucket) (c : Candidate)
    → In c b.candidates
    → (w : ResolvedPolicy) × In w (decide b).winners
      × ((b.cardinality ≡ one_only) ⊎ (w.policy_id ≡ c.rule.policy_id))
decide_complete b c m = elim (Cardinality-cases b.cardinality) [
  | inl e ↦
      let (w, n) =
        decide_single-complete (ordered b) c (In-sort compare_candidates c b.candidates m) in
      (w, rw (decide-one_only b e) n, inl e)
  | inr e ↦
      let (w, n, same) =
        decide_several_complete [] (ordered b) c (In-sort compare_candidates c b.candidates m)
          (IsFree-nil c.rule.policy_id) in
      (w, rw (decide-several b e) n, inr same)
]

-- In a SINGLE category there is at most one winner, and in any category no policy wins twice.
pub decide_limits :
    (b : CategoryBucket)
    → ((b.cardinality ≡ several) ⊎ (length (decide b).winners ≤ 1))
      × Distinct (map (λ w. w.policy_id) (decide b).winners)
decide_limits b = elim (Cardinality-cases b.cardinality) [
  | inl e ↦
      rw (decide-one_only b e)
        (inr (decide_single-length (ordered b)), decide_single-Distinct (ordered b))
  | inr e ↦
      rw (decide-several b e) (inl e, decide_several-Distinct [] (ordered b) (ordered-IsSorted b))
]

-- Each candidate of the bucket gets one entry.
pub decide-ids-perm :
    (b : CategoryBucket)
    → Perm (map (λ e. e.rule_id) (decide b).entries) (map (λ c. c.rule.id) b.candidates)
decide-ids-perm b = elim (Cardinality-cases b.cardinality) [
  | inl e ↦
      rw (decide-one_only b e, decide_single-ids)
        (Perm.map _ (sort-perm compare_candidates b.candidates))
  | inr e ↦
      rw (decide-several b e, decide_several-ids)
        (Perm.map _ (sort-perm compare_candidates b.candidates))
]
