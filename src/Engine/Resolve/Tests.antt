-- ===== src/Engine/Resolve/Tests.antt =====
-- An employee and two rules of one SINGLE category: runs, and the properties at this input.
use mathlib.Core.List.{Perm, flat_map}
use policy_assignment_system.Prelude.{
  ◌*◌, ◌≤◌, ◌≡◌, refl, sym, ap, subst, ◌∙◌, ◌⊎◌, ◌↔◌, inl, inr, true, false, none, some, [], ◌∷◌,
  map, In, Distinct, length, arith, eq_iff, pos, ◌<ℤ◌,
}
use policy_assignment_system.Dates.{ms_per_day}
use policy_assignment_system.Conditions.{ConditionClause, department, eq, single, text}
use policy_assignment_system.Engine.{
  EngineEmployee, EngineRule, ResolveInput, ResolvedPolicy, by_department, default, active,
  one_only, several,
}
use policy_assignment_system.Dates.{is_effective_on}
use policy_assignment_system.Conditions.{evaluate_conditions, matches_clause, explain_match}
use policy_assignment_system.Engine.Decide.{CategoryBucket, decide}
use policy_assignment_system.Engine.Decide.Laws.{decide_limits}
use policy_assignment_system.Engine.Triage.{
  build_employee_context, trail_entry, explain_win, explain_loss,
}
use policy_assignment_system.Engine.Order.{Outranks, compare_rules}
use policy_assignment_system.Engine.Order.Laws.{compare_rules-lt_iff}
use policy_assignment_system.Engine.Triage.{kept, triage, to_resolved_policy}
use policy_assignment_system.Engine.Triage.Laws.{IsEligible, candidate_of, triage-kept_iff}
use policy_assignment_system.Engine.Resolve.{resolve}
use policy_assignment_system.Engine.Resolve.Winners.{
  IsConsistent, Wins, Eligible, Rivals, context_of, resolve-winner_sound, resolve-winner_complete,
}
use policy_assignment_system.Engine.Resolve.Trail.{resolve-trail-perm}

abbrev pub alice : EngineEmployee
alice = record {
  id = "e1";
  department = some "Engineering";
  state = none;
  country = some "US";
  location = none;
  employment_type = "FULL_TIME";
  role = none;
  is_manager = false;
  hire_date = 738000 * ms_per_day;
  group_ids = "g1" ∷ [];
}

abbrev pub in_engineering : ConditionClause
in_engineering = record { attribute = department; op = eq; value = single (text "Engineering") }

abbrev pub fallback : EngineRule
fallback = record {
  id = "r2";
  version = 1;
  name = "Everyone";
  rule_type = default;
  priority = 100;
  conditions = record { clauses = [] };
  enabled = true;
  effective_from = 730000 * ms_per_day;
  effective_to = none;
  created_at = 1;
  employee_id = none;
  policy_id = "p2";
  policy_name = "Standard leave";
  policy_status = active;
  category_id = "c1";
  category_key = "time_off";
  category_name = "Time off";
  cardinality = one_only;
}

abbrev pub engineers : EngineRule
engineers = record fallback {
  id = "r1";
  name = "Engineers";
  rule_type = by_department;
  priority = 600;
  conditions = record { clauses = in_engineering ∷ [] };
  policy_id = "p1";
  policy_name = "Engineering leave";
}

abbrev sample : ResolveInput
sample = record { employee = alice; rules = fallback ∷ engineers ∷ []; as_of = 739000 * ms_per_day }

sample_winners : map (λ w. w.rule_id) (resolve sample).winners ≡ "r1" ∷ []
unfolding resolve flat_map is_effective_on evaluate_conditions matches_clause build_employee_context
    compare_rules to_resolved_policy
sample_winners = refl

sample_reasons :
    map (λ e. e.reason) (resolve sample).trail
    ≡ "matched department=Engineering; won on priority 600 against 1 other matching rule"
      ∷ "priority 600 beat 100: rule \"Engineers\" won" ∷ []
unfolding resolve flat_map is_effective_on evaluate_conditions matches_clause build_employee_context
    compare_rules trail_entry explain_win explain_loss explain_match
sample_reasons = refl

engineers-Eligible : Eligible sample engineers
unfolding build_employee_context matches_clause
engineers-Eligible = record {
  for_employee = inl refl;
  enabled = refl;
  in_window = omega arith;
  policy_active = refl;
  conditions_hold = (refl, tt);
}

engineers-Wins : Wins sample engineers
engineers-Wins = record { eligible = engineers-Eligible; ahead = ahead }
  where
    ahead :
        (s : EngineRule)
        → In s sample.rules
        → Eligible sample s
        → Rivals engineers s
        → Outranks engineers s
    ahead s (inl e) _ _ = subst (λ x. Outranks engineers x) (sym e) (inl (omega arith))
    ahead s (inr (inl e)) _ rival = absurd (rival.0 (ap (λ x. x.id) e))
    ahead s (inr (inr m)) _ _ = elim m [ ]

sample-IsConsistent : IsConsistent sample.rules
sample-IsConsistent = record { keys = keys; cardinalities = cardinalities }
  where
    is_one : (r : EngineRule) → In r sample.rules → r.cardinality ≡ one_only
    is_one r (inl e) = ap (λ x. x.cardinality) e
    is_one r (inr (inl e)) = ap (λ x. x.cardinality) e
    is_one r (inr (inr m)) = elim m [ ]

    cardinalities :
        (r s : EngineRule)
        → In r sample.rules
        → In s sample.rules
        → r.category_id ≡ s.category_id
        → r.cardinality ≡ s.cardinality
    cardinalities r s i j _ = is_one r i ∙ sym (is_one s j)

    apart : ¬ (fallback.id ≡ engineers.id)
    apart e = let h : false ≡ true = (eq_iff fallback.id engineers.id).1 e in cc h

    keys : (r s : EngineRule) → In r sample.rules → In s sample.rules → r.id ≡ s.id → r ≡ s
    keys r s (inl e) (inl f) _ = e ∙ sym f
    keys r s (inr (inl e)) (inr (inl f)) _ = e ∙ sym f
    keys r s (inl e) (inr (inl f)) same =
        absurd (apart (sym (ap (λ x. x.id) e) ∙ same ∙ ap (λ x. x.id) f))
    keys r s (inr (inl e)) (inl f) same =
        absurd (apart (sym (ap (λ x. x.id) f) ∙ sym same ∙ ap (λ x. x.id) e))
    keys r s (inr (inr m)) _ _ = elim m [ ]
    keys r s _ (inr (inr m)) _ = elim m [ ]

engineers_listed : In engineers sample.rules
engineers_listed = inr (inl refl)

compare_rules-lt_iff_example :
    (compare_rules engineers fallback <ℤ pos 0) ↔ Outranks engineers fallback
compare_rules-lt_iff_example = compare_rules-lt_iff engineers fallback

triage-kept_iff_example :
    (triage alice sample.as_of (context_of sample) engineers
      ≡ kept (candidate_of (context_of sample) engineers))
    ↔ IsEligible alice sample.as_of (context_of sample) engineers
triage-kept_iff_example = triage-kept_iff alice sample.as_of (context_of sample) engineers

resolve-winner_complete_example :
    (w : ResolvedPolicy) × In w (resolve sample).winners
    × (w ≡ to_resolved_policy engineers w.reason)
resolve-winner_complete_example =
    resolve-winner_complete sample sample-IsConsistent engineers engineers_listed engineers-Wins

resolve-winner_sound_example :
    (r : EngineRule) × In r sample.rules
    × Wins sample r
    × (resolve-winner_complete_example.0
        ≡ to_resolved_policy r resolve-winner_complete_example.0.reason)
resolve-winner_sound_example =
    resolve-winner_sound sample sample-IsConsistent resolve-winner_complete_example.0
      resolve-winner_complete_example.1

resolve-trail-perm_example : Perm (map (λ e. e.rule_id) (resolve sample).trail) ("r2" ∷ "r1" ∷ [])
resolve-trail-perm_example = resolve-trail-perm sample

abbrev bucket : CategoryBucket
bucket = record {
  category_id = "c1";
  category_key = "time_off";
  category_name = "Time off";
  cardinality = one_only;
  candidates =
      candidate_of (context_of sample) fallback ∷ candidate_of (context_of sample) engineers ∷ [];
  trail = [];
}

decide_limits_example :
    ((one_only ≡ several) ⊎ (length (decide bucket).winners ≤ 1))
    × Distinct (map (λ w. w.policy_id) (decide bucket).winners)
decide_limits_example = decide_limits bucket
