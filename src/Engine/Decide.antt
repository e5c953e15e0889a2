-- ===== src/Engine/Decide.antt =====
-- packages/core/src/engine/resolve.ts: what is decided inside one category, from its candidates.
pub mod Laws
pub mod Single
pub mod Several
use policy_assignment_system.Prelude.{
  String, Option, none, some, List, [], ◌∷◌, ◌++◌, length, if◌then◌else◌, concat, str_eq, ℤ,
}
use policy_assignment_system.Prelude.Sorting.{sort}
use policy_assignment_system.Engine.{
  Cardinality, CategoryResolution, EngineRule, RuleTrailEntry, ResolvedPolicy, matched_won,
  matched_lost, is_one_only,
}
use policy_assignment_system.Engine.Order.{compare_rules}
use policy_assignment_system.Engine.Triage.{
  Candidate, explain_loss, explain_win, trail_entry, to_resolved_policy,
}

-- Everything that the engine has collected for one category.
pub record CategoryBucket : Type 0 where
  pub category_id : String
  pub category_key : String
  pub category_name : String
  pub cardinality : Cardinality
  pub candidates : List Candidate
  pub trail : List RuleTrailEntry

-- The arrays `winners` and `decided`.
pub record Decided : Type 0 where
  pub winners : List ResolvedPolicy
  pub entries : List RuleTrailEntry

abbrev pub compare_candidates : Candidate → Candidate → ℤ
compare_candidates left right = compare_rules left.rule right.rule

pub losing_entry : Candidate → Candidate → RuleTrailEntry
losing_entry winner loser =
    trail_entry loser.rule matched_lost (explain_loss winner.rule loser.rule)
      (some loser.evaluation)

pub losing_entries : Candidate → List Candidate → List RuleTrailEntry
losing_entries winner [] = []
losing_entries winner (loser ∷ losers) = losing_entry winner loser ∷ losing_entries winner losers

-- SINGLE: the first in order wins.
unfoldable pub decide_single : List Candidate → Decided
unfolding losing_entries losing_entry
decide_single [] = record { winners = []; entries = [] }
decide_single (winner ∷ losers) =
    let reason = explain_win winner.rule winner.evaluation (length losers) in
    record {
      winners = to_resolved_policy winner.rule reason ∷ [];
      entries =
          trail_entry winner.rule matched_won reason (some winner.evaluation)
          ∷ losing_entries winner losers;
    }

-- `claimed.get(policyId)`
unfoldable pub owner_of : String → List (String × EngineRule) → Option EngineRule
owner_of policy_id [] = none
owner_of policy_id ((key, rule) ∷ claimed) =
    if str_eq key policy_id then some rule else owner_of policy_id claimed

claimed_entry : EngineRule → Candidate → RuleTrailEntry
claimed_entry owner candidate =
    trail_entry candidate.rule matched_lost
      (concat (
        "policy \""
        ∷ candidate.rule.policy_name
        ∷ "\" is already assigned by a higher-ordered rule: "
        ∷ explain_loss owner candidate.rule
        ∷ []))
      (some candidate.evaluation)

won : Candidate → ResolvedPolicy
won candidate =
    to_resolved_policy candidate.rule (explain_win candidate.rule candidate.evaluation 0)

won_entry : Candidate → RuleTrailEntry
won_entry candidate =
    trail_entry candidate.rule matched_won (explain_win candidate.rule candidate.evaluation 0)
      (some candidate.evaluation)

-- One round of the loop of the MULTIPLE branch, in front of what the later rounds give.
lose_round : EngineRule → Candidate → Decided → Decided
unfolding claimed_entry
lose_round owner candidate later = record later {
  entries = claimed_entry owner candidate ∷ later.entries;
}

win_round : Candidate → Decided → Decided
unfolding won won_entry
win_round candidate later = record {
  winners = won candidate ∷ later.winners;
  entries = won_entry candidate ∷ later.entries;
}

-- MULTIPLE: every policy is kept once, for the first in order that produces it.
unfoldable pub decide_several : List (String × EngineRule) → List Candidate → Decided
unfolding owner_of lose_round win_round
decide_several claimed [] = record { winners = []; entries = [] }
decide_several claimed (candidate ∷ rest) = elim (owner_of candidate.rule.policy_id claimed) [
  | some owner ↦ lose_round owner candidate (decide_several claimed rest)
  | none ↦
      win_round candidate
        (decide_several ((candidate.rule.policy_id, candidate.rule) ∷ claimed) rest)
]

unfoldable pub decide : CategoryBucket → Decided
unfolding decide_single decide_several
decide bucket =
    let ordered = sort compare_candidates bucket.candidates in
    if is_one_only bucket.cardinality then decide_single ordered else decide_several [] ordered

-- The bucket's part of the result.
unfoldable pub category_of : CategoryBucket → CategoryResolution
unfolding decide
category_of bucket =
    let decided = decide bucket in
    record {
      category_id = bucket.category_id;
      category_key = bucket.category_key;
      category_name = bucket.category_name;
      cardinality = bucket.cardinality;
      winners = decided.winners;
      trail = decided.entries ++ bucket.trail;
    }
