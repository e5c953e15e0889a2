-- ===== src/Engine/Resolve/Trail.antt =====
-- The trail has one entry for each rule, whatever became of it.
use mathlib.Core.List.{
  Perm, perm_middle, perm_append_singleton, perm_append_comm, append_assoc, map-append, flat_map,
  append-nil,
}
use mathlib.Core.List.Perm
use policy_assignment_system.Prelude.{
  String, ◌≡◌, inl, inr, List, [], ◌∷◌, ◌++◌, map, Bool-cases, str_eq, flat_map-perm,
}
use policy_assignment_system.Prelude.Sorting.{sort-perm}
use policy_assignment_system.Dates.{Date}
use policy_assignment_system.Conditions.{EmployeeContext}
use policy_assignment_system.Engine.{
  CategoryResolution, EngineEmployee, EngineRule, ResolveInput, RuleTrailEntry,
}
use policy_assignment_system.Engine.Triage.{
  Candidate, Triage, pushed, kept, triage, build_employee_context,
}
use policy_assignment_system.Engine.Triage.Laws.{triage-cases}
use policy_assignment_system.Engine.Decide.{CategoryBucket, category_of, decide}
use policy_assignment_system.Engine.Decide.Laws.{decide-ids-perm}
use policy_assignment_system.Engine.Resolve.{resolve, compare_categories, file, fill, push}

abbrev entry_ids : List RuleTrailEntry → List String
entry_ids = map λ e. e.rule_id

abbrev candidate_ids : List Candidate → List String
candidate_ids = map λ c. c.rule.id

-- The rules that a bucket holds.
abbrev bucket_ids : CategoryBucket → List String
bucket_ids b = entry_ids b.trail ++ candidate_ids b.candidates

abbrev held_ids : List CategoryBucket → List String
held_ids = flat_map bucket_ids

abbrev outcome_id : Triage → String
outcome_id (pushed e) = e.rule_id
outcome_id (kept c) = c.rule.id

push-perm :
    (o : Triage) (b : CategoryBucket) → Perm (bucket_ids (push o b)) (outcome_id o ∷ bucket_ids b)
unfolding push
push-perm (pushed e) b =
    rw (map-append, append_assoc) (perm_middle (entry_ids b.trail) (candidate_ids b.candidates))
push-perm (kept c) b =
    rw (map-append, ← append_assoc) (perm_append_singleton c.rule.id (bucket_ids b))

file-perm :
    (rule : EngineRule) (o : Triage) (bs : List CategoryBucket)
    → Perm (held_ids (file rule o bs)) (outcome_id o ∷ held_ids bs)
unfolding file flat_map
file-perm rule (pushed e) [] = Perm.rfl
file-perm rule (kept c) [] = Perm.rfl
file-perm rule o (b ∷ bs) = elim (Bool-cases (str_eq b.category_id rule.category_id)) [
  | inl same ↦ rw same (Perm.append_right (held_ids bs) (push-perm o b))
  | inr other ↦ rw other (
      Perm.trans (Perm.append_left (bucket_ids b) (file-perm rule o bs))
        (perm_middle (bucket_ids b) (held_ids bs)))
]

category_of-perm : (b : CategoryBucket) → Perm (entry_ids (category_of b).trail) (bucket_ids b)
unfolding category_of
category_of-perm b = rw map-append (
    Perm.trans (perm_append_comm (entry_ids (decide b).entries) (entry_ids b.trail))
      (Perm.append_left (entry_ids b.trail) (decide-ids-perm b)))

module _ (employee : EngineEmployee) (as_of : Date) (context : EmployeeContext) where
  outcome_id-triage : (r : EngineRule) → outcome_id (triage employee as_of context r) ≡ r.id
  outcome_id-triage r = elim (triage-cases employee as_of context r) [
    | inl k ↦ rw k
    | inr (entry, k, same, _) ↦ rw k same
  ]

  fill-perm :
      (rules : List EngineRule) (bs : List CategoryBucket)
      → Perm
          (held_ids (fill employee as_of context rules bs))
          (map (λ r. r.id) rules ++ held_ids bs)
  unfolding fill
  fill-perm [] bs = Perm.rfl
  fill-perm (r ∷ rules) bs =
      let o = triage employee as_of context r in
      Perm.trans (fill-perm rules (file r o bs)) (
        Perm.trans (Perm.append_left _ (file-perm r o bs))
          (rw (outcome_id-triage r) (perm_middle (map (λ x. x.id) rules) (held_ids bs))))

map-flat_map-perm :
    (bs : List CategoryBucket)
    → Perm (entry_ids (flat_map (λ c. c.trail) (map category_of bs))) (held_ids bs)
unfolding flat_map
map-flat_map-perm [] = Perm.rfl
map-flat_map-perm (b ∷ bs) = rw map-append (Perm.append (category_of-perm b) (map-flat_map-perm bs))

-- The trail of a resolution names each rule of the input exactly as often as the input lists it:
-- one entry for each rule, winners, losers and skipped rules alike.
pub resolve-trail-perm :
    (input : ResolveInput)
    → Perm (map (λ e. e.rule_id) (resolve input).trail) (map (λ r. r.id) input.rules)
unfolding resolve flat_map
resolve-trail-perm input =
    let context = build_employee_context input.employee input.as_of in
    let bs = fill input.employee input.as_of context input.rules [] in
    Perm.trans
      (Perm.map (λ (e : RuleTrailEntry). e.rule_id)
        (flat_map-perm (λ (c : CategoryResolution). c.trail)
          (sort-perm compare_categories (map category_of bs))))
      (Perm.trans (map-flat_map-perm bs)
        (rw append-nil at (fill-perm input.employee input.as_of context input.rules [])))
