-- ===== src/Engine/Decide/Several.antt =====
-- The MULTIPLE branch: one winner for each policy, the first candidate in order that produces it.
use policy_assignment_system.Prelude.{
  String, ◌≡◌, refl, sym, ap, subst, ◌∙◌, inl, inr, false, none, some, List, [], ◌∷◌, map, In,
  In-of_All, In-of_map, Distinct, arith, eq_iff, str_eq, Bool-cases, Option-cases, pos, ◌≤ℤ◌,
}
use policy_assignment_system.Prelude.Sorting.{IsSorted}
use policy_assignment_system.Engine.{EngineRule, ResolvedPolicy}
use policy_assignment_system.Engine.Order.Laws.{compare_rules_refl}
use policy_assignment_system.Engine.Triage.{Candidate, to_resolved_policy, trail_entry}
use policy_assignment_system.Engine.Decide.{
  compare_candidates, Decided, decide_several, owner_of, won, won_entry, claimed_entry,
}
use policy_assignment_system.Engine.Decide.Single.{IsMadeFrom}

abbrev pub Claimed : Type 0
Claimed = List (String × EngineRule)

-- Nothing has claimed the policy so far.
abbrev pub IsFree : Claimed → String → Type 0
IsFree claimed policy = owner_of policy claimed ≡ none

owner_of-cons :
    (p k : String) (r : EngineRule) (claimed : Claimed)
    → IsFree ((k, r) ∷ claimed) p
    → (str_eq k p ≡ false) × IsFree claimed p
unfolding owner_of
owner_of-cons p k r claimed h = ground arith

owner_of-cons_ne :
    (p k : String) (r : EngineRule) (claimed : Claimed)
    → str_eq k p ≡ false
    → IsFree claimed p
    → IsFree ((k, r) ∷ claimed) p
unfolding owner_of
owner_of-cons_ne p k r claimed e h = ground arith

module _ (claimed : Claimed) (c : Candidate) (cs : List Candidate) where
  -- The rounds after the policy has been claimed.
  abbrev after_claim : Decided
  after_claim = decide_several ((c.rule.policy_id, c.rule) ∷ claimed) cs

  module _ (owner : EngineRule) (taken : owner_of c.rule.policy_id claimed ≡ some owner) where
    winners-lose : (decide_several claimed (c ∷ cs)).winners ≡ (decide_several claimed cs).winners
    unfolding decide_several
    winners-lose = rw (taken, decide_several)

    entries-lose :
        (decide_several claimed (c ∷ cs)).entries
        ≡ claimed_entry owner c ∷ (decide_several claimed cs).entries
    unfolding decide_several
    entries-lose = rw (taken, decide_several)

  module _ (free : IsFree claimed c.rule.policy_id) where
    winners-win : (decide_several claimed (c ∷ cs)).winners ≡ won c ∷ after_claim.winners
    unfolding decide_several
    winners-win = rw (free, decide_several)

    entries-win : (decide_several claimed (c ∷ cs)).entries ≡ won_entry c ∷ after_claim.entries
    unfolding decide_several
    entries-win = rw (free, decide_several)

not-In-nil : (claimed : Claimed) (w : ResolvedPolicy) → ¬ In w (decide_several claimed []).winners
unfolding decide_several
not-In-nil claimed w m = m

won-IsMadeFrom : (c : Candidate) → IsMadeFrom (won c) c
unfolding won to_resolved_policy
won-IsMadeFrom c = refl

policy_id-won : (c : Candidate) → (won c).policy_id ≡ c.rule.policy_id
unfolding won to_resolved_policy
policy_id-won c = refl

-- What a winner stands for: the first candidate in order for a policy that was free.
abbrev pub IsFirst : Claimed → List Candidate → ResolvedPolicy → Type 0
IsFirst claimed ordered w =
    (c : Candidate) × In c ordered
    × IsMadeFrom w c
    × IsFree claimed c.rule.policy_id
    × ((d : Candidate)
        → In d ordered
        → d.rule.policy_id ≡ c.rule.policy_id
        → compare_candidates c d ≤ℤ pos 0)

IsFirst-cons :
    (claimed : Claimed) (c : Candidate) (cs : List Candidate) (w : ResolvedPolicy)
    → (¬ IsFree claimed c.rule.policy_id)
    → IsFirst claimed cs w
    → IsFirst claimed (c ∷ cs) w
IsFirst-cons claimed c cs w taken (x, m, made, free, least) = (x, inr m, made, free, first)
  where
    first :
        (d : Candidate)
        → In d (c ∷ cs)
        → d.rule.policy_id ≡ x.rule.policy_id
        → compare_candidates x d ≤ℤ pos 0
    first d (inl e) same =
        absurd (taken (subst (IsFree claimed) (sym same ∙ ap (λ y. y.rule.policy_id) e) free))
    first d (inr n) same = least d n same

IsFirst-cons_claimed :
    (claimed : Claimed) (c : Candidate) (cs : List Candidate) (w : ResolvedPolicy)
    → IsFirst ((c.rule.policy_id, c.rule) ∷ claimed) cs w
    → IsFirst claimed (c ∷ cs) w
IsFirst-cons_claimed claimed c cs w (x, m, made, free, least) = (x, inr m, made, rest.1, first)
  where
    rest : (str_eq c.rule.policy_id x.rule.policy_id ≡ false) × IsFree claimed x.rule.policy_id
    rest = owner_of-cons x.rule.policy_id c.rule.policy_id c.rule claimed free

    first :
        (d : Candidate)
        → In d (c ∷ cs)
        → d.rule.policy_id ≡ x.rule.policy_id
        → compare_candidates x d ≤ℤ pos 0
    first d (inl e) same =
        let equal =
          (eq_iff c.rule.policy_id x.rule.policy_id).1
            (sym (ap (λ y. y.rule.policy_id) e) ∙ same) in
        cc (equal, rest.0)
    first d (inr n) same = least d n same

pub decide_several_sound :
    (claimed : Claimed) (ordered : List Candidate)
    → IsSorted compare_candidates ordered
    → (w : ResolvedPolicy) → In w (decide_several claimed ordered).winners
    → IsFirst claimed ordered w
decide_several_sound claimed [] s w m = absurd (not-In-nil claimed w m)
decide_several_sound claimed (c ∷ cs) (below, s) w m =
    elim (Option-cases (owner_of c.rule.policy_id claimed)) [
      | inl free ↦ elim (subst (In w) (winners-win claimed c cs free) m) [
        | inl e ↦ (c, inl refl, subst (λ v. IsMadeFrom v c) (sym e) (won-IsMadeFrom c), free, first)
        | inr n ↦
            IsFirst-cons_claimed claimed c cs w
              (decide_several_sound ((c.rule.policy_id, c.rule) ∷ claimed) cs s w n)
      ]
      | inr (owner, taken) ↦
          IsFirst-cons claimed c cs w (λ free. cc (taken, free))
            (decide_several_sound claimed cs s w
              (subst (In w) (winners-lose claimed c cs owner taken) m))
    ]
  where
    first :
        (d : Candidate)
        → In d (c ∷ cs)
        → d.rule.policy_id ≡ c.rule.policy_id
        → compare_candidates c d ≤ℤ pos 0
    first d (inl same) _ = rw same (compare_rules_refl c.rule)
    first d (inr later) _ = In-of_All (λ y. compare_candidates c y ≤ℤ pos 0) cs below later

-- Every policy that is free and has a candidate gets a winner.
pub decide_several_complete :
    (claimed : Claimed) (ordered : List Candidate) (c : Candidate)
    → In c ordered
    → IsFree claimed c.rule.policy_id
    → (w : ResolvedPolicy) × In w (decide_several claimed ordered).winners
      × (w.policy_id ≡ c.rule.policy_id)
decide_several_complete claimed [] c m free = elim m [ ]
decide_several_complete claimed (d ∷ cs) c m free =
    elim (Option-cases (owner_of d.rule.policy_id claimed)) [
      | inl open_ ↦ elim (Bool-cases (str_eq d.rule.policy_id c.rule.policy_id)) [
        | inl same ↦ (
          won d,
          rw (winners-win claimed d cs open_) (inl refl),
          policy_id-won d ∙ (eq_iff d.rule.policy_id c.rule.policy_id).0 same,
        )
        | inr differs ↦
            let (w, i, e) =
              decide_several_complete ((d.rule.policy_id, d.rule) ∷ claimed) cs c
                (later (λ e. other differs e) m)
                (owner_of-cons_ne c.rule.policy_id d.rule.policy_id d.rule claimed differs free) in
            (w, rw (winners-win claimed d cs open_) (inr i), e)
      ]
      | inr (owner, taken) ↦
          let (w, i, e) =
            decide_several_complete claimed cs c
              (later (λ e. cc (taken, free, ap (λ y. owner_of y.rule.policy_id claimed) e)) m)
              free in
          (w, rw (winners-lose claimed d cs owner taken) i, e)
    ]
  where
    later : ¬ (c ≡ d) → In c (d ∷ cs) → In c cs
    later h (inl e) = absurd (h e)
    later h (inr n) = n

    other : str_eq d.rule.policy_id c.rule.policy_id ≡ false → ¬ (c ≡ d)
    other differs e =
        let equal =
          (eq_iff d.rule.policy_id c.rule.policy_id).1 (ap (λ y. y.rule.policy_id) (sym e)) in
        cc (equal, differs)

Distinct-nil :
    (claimed : Claimed) → Distinct (map (λ w. w.policy_id) (decide_several claimed []).winners)
unfolding decide_several
Distinct-nil claimed = tt

policy_id-IsMadeFrom :
    (w : ResolvedPolicy) (c : Candidate) → IsMadeFrom w c → w.policy_id ≡ c.rule.policy_id
unfolding to_resolved_policy
policy_id-IsMadeFrom w c made = ap (λ v. v.policy_id) made

-- A policy that has just been claimed has no later winner.
unclaimed :
    (claimed : Claimed) (c : Candidate) (cs : List Candidate)
    → IsSorted compare_candidates cs
    → ¬ In (won c).policy_id (map (λ w. w.policy_id) (after_claim claimed c cs).winners)
unclaimed claimed c cs s m =
    let (w, i, e) = In-of_map (λ v. v.policy_id) _ m in
    let (x, _, made, free, _) =
      decide_several_sound ((c.rule.policy_id, c.rule) ∷ claimed) cs s w i in
    let differs = (owner_of-cons x.rule.policy_id c.rule.policy_id c.rule claimed free).0 in
    let equal =
      (eq_iff c.rule.policy_id x.rule.policy_id).1
        (sym (policy_id-won c) ∙ e ∙ policy_id-IsMadeFrom w x made) in
    cc (equal, differs)

-- No policy is assigned twice.
pub decide_several-Distinct :
    (claimed : Claimed) (ordered : List Candidate)
    → IsSorted compare_candidates ordered
    → Distinct (map (λ w. w.policy_id) (decide_several claimed ordered).winners)
decide_several-Distinct claimed [] s = Distinct-nil claimed
decide_several-Distinct claimed (c ∷ cs) (below, s) =
    elim (Option-cases (owner_of c.rule.policy_id claimed)) [
      | inl free ↦ rw (winners-win claimed c cs free) (
        unclaimed claimed c cs s,
        decide_several-Distinct ((c.rule.policy_id, c.rule) ∷ claimed) cs s,
      )
      | inr (owner, taken) ↦
          rw (winners-lose claimed c cs owner taken) (decide_several-Distinct claimed cs s)
    ]

ids-nil : (claimed : Claimed) → map (λ e. e.rule_id) (decide_several claimed []).entries ≡ []
unfolding decide_several
ids-nil claimed = refl

-- Every candidate gets its one entry.
pub decide_several-ids :
    (claimed : Claimed) (ordered : List Candidate)
    → map (λ e. e.rule_id) (decide_several claimed ordered).entries ≡ map (λ c. c.rule.id) ordered
unfolding won_entry claimed_entry trail_entry
decide_several-ids claimed [] = ids-nil claimed
decide_several-ids claimed (c ∷ cs) = elim (Option-cases (owner_of c.rule.policy_id claimed)) [
  | inl free ↦
      rw (entries-win claimed c cs free)
        (ap (◌∷◌ c.rule.id) (decide_several-ids ((c.rule.policy_id, c.rule) ∷ claimed) cs))
  | inr (owner, taken) ↦
      rw (entries-lose claimed c cs owner taken)
        (ap (◌∷◌ c.rule.id) (decide_several-ids claimed cs))
]
