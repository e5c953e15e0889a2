-- ===== src/Engine/Resolve.antt =====
-- packages/core/src/engine/resolve.ts: `resolve`.
pub mod Buckets
pub mod Fill
pub mod Winners
pub mod Trail
pub mod Tests
use mathlib.Core.List.{flat_map}
use policy_assignment_system.Prelude.{
  String, List, [], ◌∷◌, ◌++◌, map, if◌then◌else◌, str_eq, text_lt, ℤ, pos, negsuc,
}
use policy_assignment_system.Prelude.Sorting.{sort}
use policy_assignment_system.Dates.{Date}
use policy_assignment_system.Conditions.{EmployeeContext}
use policy_assignment_system.Engine.{
  CategoryResolution, EngineEmployee, EngineRule, ResolveInput, ResolutionResult,
}
use policy_assignment_system.Engine.Triage.{
  Candidate, Triage, pushed, kept, triage, build_employee_context,
}
use policy_assignment_system.Engine.Decide.{CategoryBucket, category_of}

new_bucket : EngineRule → CategoryBucket
new_bucket rule = record {
  category_id = rule.category_id;
  category_key = rule.category_key;
  category_name = rule.category_name;
  cardinality = rule.cardinality;
  candidates = [];
  trail = [];
}

push : Triage → CategoryBucket → CategoryBucket
push (pushed entry) bucket = record bucket { trail = bucket.trail ++ entry ∷ [] }
push (kept candidate) bucket = record bucket { candidates = bucket.candidates ++ candidate ∷ [] }

-- `bucketFor`, and the push onto the bucket that it returns. The map's entries stand in the order
-- in which they were made, which is the order of `buckets.values()`.
pub file : EngineRule → Triage → List CategoryBucket → List CategoryBucket
unfolding push new_bucket
file rule outcome [] = push outcome (new_bucket rule) ∷ []
file rule outcome (bucket ∷ buckets) =
    if str_eq bucket.category_id rule.category_id
    then push outcome bucket ∷ buckets
    else bucket ∷ file rule outcome buckets

-- The loop over the rules.
pub fill :
    EngineEmployee
    → Date
    → EmployeeContext
    → List EngineRule
    → List CategoryBucket
    → List CategoryBucket
unfolding file triage
fill employee as_of context [] buckets = buckets
fill employee as_of context (rule ∷ rules) buckets =
    fill employee as_of context rules (file rule (triage employee as_of context rule) buckets)

-- By key, then by id.
pub compare_categories : CategoryResolution → CategoryResolution → ℤ
compare_categories left right =
    if str_eq left.category_key right.category_key
    then if text_lt left.category_id right.category_id then negsuc 0 else pos 1
    else if text_lt left.category_key right.category_key
    then negsuc 0
    else pos 1

unfoldable pub resolve : ResolveInput → ResolutionResult
unfolding fill compare_categories category_of sort
resolve input =
    let context = build_employee_context input.employee input.as_of in
    let buckets = fill input.employee input.as_of context input.rules [] in
    let categories = sort compare_categories (map category_of buckets) in
    record {
      employee_id = input.employee.id;
      as_of = input.as_of;
      categories = categories;
      winners = flat_map (λ category. category.winners) categories;
      trail = flat_map (λ category. category.trail) categories;
      tenure_days = context.tenure;
    }
