-- ===== src/Engine/Decide/Single.antt =====
-- The SINGLE branch: at most one winner, the first candidate in order.
use policy_assignment_system.Prelude.{
  ◌≤◌, ◌≡◌, refl, ap, inl, inr, List, [], ◌∷◌, map, length, Distinct, In, In-of_All, arith, pos,
  ◌≤ℤ◌,
}
use policy_assignment_system.Prelude.Sorting.{IsSorted}
use policy_assignment_system.Engine.{ResolvedPolicy}
use policy_assignment_system.Engine.Order.Laws.{compare_rules_refl}
use policy_assignment_system.Engine.Triage.{Candidate, to_resolved_policy, trail_entry}
use policy_assignment_system.Engine.Decide.{
  compare_candidates, decide_single, losing_entries, losing_entry,
}

-- A winner made from a candidate.
abbrev pub IsMadeFrom : ResolvedPolicy → Candidate → Type 0
IsMadeFrom w c = w ≡ to_resolved_policy c.rule w.reason

pub decide_single-length : (ordered : List Candidate) → length (decide_single ordered).winners ≤ 1
unfolding decide_single
decide_single-length [] = omega arith
decide_single-length (c ∷ cs) = omega arith

pub decide_single-Distinct :
    (ordered : List Candidate) → Distinct (map (λ w. w.policy_id) (decide_single ordered).winners)
unfolding decide_single
decide_single-Distinct [] = tt
decide_single-Distinct (c ∷ cs) = ((λ m. m), tt)

pub decide_single_sound :
    (ordered : List Candidate)
    → IsSorted compare_candidates ordered
    → (w : ResolvedPolicy) → In w (decide_single ordered).winners
    → (c : Candidate) × In c ordered
      × IsMadeFrom w c
      × ((d : Candidate) → In d ordered → compare_candidates c d ≤ℤ pos 0)
unfolding decide_single to_resolved_policy
decide_single_sound [] s w m = elim m [ ]
decide_single_sound (c ∷ cs) s w (inl e) = (c, inl refl, ground arith, least)
  where
    least : (d : Candidate) → In d (c ∷ cs) → compare_candidates c d ≤ℤ pos 0
    least d (inl same) = rw same (compare_rules_refl c.rule)
    least d (inr later) = In-of_All (λ y. compare_candidates c y ≤ℤ pos 0) cs s.0 later
decide_single_sound (c ∷ cs) s w (inr m) = elim m [ ]

pub decide_single-complete :
    (ordered : List Candidate) (c : Candidate)
    → In c ordered
    → (w : ResolvedPolicy) × In w (decide_single ordered).winners
unfolding decide_single
decide_single-complete [] c m = elim m [ ]
decide_single-complete (c ∷ cs) d m = (_, inl refl)

losing_entries-ids :
    (winner : Candidate) (losers : List Candidate)
    → map (λ e. e.rule_id) (losing_entries winner losers) ≡ map (λ c. c.rule.id) losers
unfolding losing_entries losing_entry trail_entry
losing_entries-ids winner [] = refl
losing_entries-ids winner (c ∷ cs) = ap (◌∷◌ c.rule.id) (losing_entries-ids winner cs)

-- Every candidate gets its one entry.
pub decide_single-ids :
    (ordered : List Candidate)
    → map (λ e. e.rule_id) (decide_single ordered).entries ≡ map (λ c. c.rule.id) ordered
unfolding decide_single trail_entry
decide_single-ids [] = refl
decide_single-ids (c ∷ cs) = ap (◌∷◌ c.rule.id) (losing_entries-ids c cs)
