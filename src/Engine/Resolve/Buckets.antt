-- ===== src/Engine/Resolve/Buckets.antt =====
-- The loop over the rules groups them by category.
use mathlib.Core.List.{append-nil}
use policy_assignment_system.Prelude.{
  String, ◌≡◌, refl, sym, subst, ◌⊎◌, inl, inr, false, List, [], ◌∷◌, ◌++◌, map, In, In-map,
  Distinct, arith, eq_iff, str_eq, if◌then◌else◌, Bool-cases,
}
use policy_assignment_system.Engine.{EngineRule}
use policy_assignment_system.Engine.Triage.{Candidate, Triage, pushed, kept}
use policy_assignment_system.Engine.Decide.{CategoryBucket}
use policy_assignment_system.Engine.Resolve.{file, push}

abbrev pub category_ids : List CategoryBucket → List String
category_ids = map λ b. b.category_id

-- The candidates that stand under a category.
unfoldable pub candidates_at : String → List CategoryBucket → List Candidate
candidates_at id [] = []
candidates_at id (b ∷ bs) = if str_eq b.category_id id then b.candidates else candidates_at id bs

abbrev pub picked : Triage → List Candidate
picked (pushed _) = []
picked (kept c) = c ∷ []

-- Filing one rule adds to its own category only.
pub candidates_at-file :
    (id : String) (rule : EngineRule) (outcome : Triage) (bs : List CategoryBucket)
    → candidates_at id (file rule outcome bs)
      ≡ candidates_at id bs ++ (if str_eq rule.category_id id then picked outcome else [])
unfolding candidates_at file
candidates_at-file id rule (pushed e) [] = ground (arith, eq_iff rule.category_id id)
candidates_at-file id rule (kept c) [] = ground (arith, eq_iff rule.category_id id)
candidates_at-file id rule (pushed e) (b ∷ bs) =
    elim (Bool-cases (str_eq b.category_id rule.category_id)) [
      | inl same ↦ rw same (
          ground (
            arith,
            eq_iff rule.category_id id,
            eq_iff b.category_id id,
            (eq_iff b.category_id rule.category_id).0 same,
            append-nil b.candidates,
            append-nil (candidates_at id bs),
          ))
      | inr other ↦ rw other (
          ground (
            arith,
            eq_iff rule.category_id id,
            eq_iff b.category_id id,
            eq_iff b.category_id rule.category_id,
            candidates_at-file id rule (pushed e) bs,
            append-nil b.candidates,
          ))
    ]
candidates_at-file id rule (kept c) (b ∷ bs) =
    elim (Bool-cases (str_eq b.category_id rule.category_id)) [
      | inl same ↦ rw same (
          ground (
            arith,
            eq_iff rule.category_id id,
            eq_iff b.category_id id,
            (eq_iff b.category_id rule.category_id).0 same,
            append-nil b.candidates,
            append-nil (candidates_at id bs),
          ))
      | inr other ↦ rw other (
          ground (
            arith,
            eq_iff rule.category_id id,
            eq_iff b.category_id id,
            eq_iff b.category_id rule.category_id,
            candidates_at-file id rule (kept c) bs,
            append-nil b.candidates,
          ))
    ]

pub candidates_at-Distinct :
    (bs : List CategoryBucket) (b : CategoryBucket)
    → Distinct (category_ids bs)
    → In b bs
    → candidates_at b.category_id bs ≡ b.candidates
unfolding candidates_at
candidates_at-Distinct [] b d m = elim m [ ]
candidates_at-Distinct (x ∷ bs) b d (inl e) =
    rw e (ground (arith, eq_iff x.category_id x.category_id))
candidates_at-Distinct (x ∷ bs) b (fresh, d) (inr m) =
    let other : ¬ (x.category_id ≡ b.category_id) = λ e.
      fresh (subst (λ i. In i (category_ids bs)) (sym e) (In-map (λ y. y.category_id) b bs m)) in
    ground (arith, other, eq_iff x.category_id b.category_id, candidates_at-Distinct bs b d m)

In-category_ids-file :
    (id : String) (rule : EngineRule) (outcome : Triage) (bs : List CategoryBucket)
    → In id (category_ids (file rule outcome bs))
    → In id (category_ids bs) ⊎ (id ≡ rule.category_id)
unfolding file
In-category_ids-file id rule (pushed e) [] m = ground arith
In-category_ids-file id rule (kept e) [] m = ground arith
In-category_ids-file id rule (pushed e) (b ∷ bs) m =
    ground (arith, In-category_ids-file id rule (pushed e) bs)
In-category_ids-file id rule (kept e) (b ∷ bs) m =
    ground (arith, In-category_ids-file id rule (kept e) bs)

pub Distinct-file :
    (rule : EngineRule) (outcome : Triage) (bs : List CategoryBucket)
    → Distinct (category_ids bs)
    → Distinct (category_ids (file rule outcome bs))
unfolding file
Distinct-file rule (pushed e) [] d = ((λ m. m), tt)
Distinct-file rule (kept c) [] d = ((λ m. m), tt)
Distinct-file rule outcome (b ∷ bs) (fresh, d) =
    elim (Bool-cases (str_eq b.category_id rule.category_id)) [
      | inl same ↦ rw same (ids_push outcome)
      | inr other ↦ rw other (
        (λ m. elim (In-category_ids-file b.category_id rule outcome bs m) [
          | inl old ↦ fresh old
          | inr e ↦ absurd (clash other e)
        ]),
        Distinct-file rule outcome bs d,
      )
    ]
  where
    ids_push : (o : Triage) → Distinct (category_ids (push o b ∷ bs))
    ids_push (pushed e) = (fresh, d)
    ids_push (kept c) = (fresh, d)

    clash : str_eq b.category_id rule.category_id ≡ false → b.category_id ≡ rule.category_id → ⊥
    clash other e = let same = (eq_iff b.category_id rule.category_id).1 e in cc (same, other)

-- A bucket takes its category and its cardinality from a rule.
abbrev pub IsFrom : List EngineRule → CategoryBucket → Type 0
IsFrom rules b =
    (r : EngineRule) × In r rules
    × (r.category_id ≡ b.category_id)
    × (r.cardinality ≡ b.cardinality)

pub IsFrom-file :
    (rules : List EngineRule) (rule : EngineRule) (outcome : Triage) (bs : List CategoryBucket)
    → In rule rules
    → ((b : CategoryBucket) → In b bs → IsFrom rules b)
    → (b : CategoryBucket) → In b (file rule outcome bs)
    → IsFrom rules b
unfolding file
IsFrom-file rules rule (pushed e) [] i h b (inl q) = rw q (rule, i, refl, refl)
IsFrom-file rules rule (kept e) [] i h b (inl q) = rw q (rule, i, refl, refl)
IsFrom-file rules rule outcome [] i h b (inr m) = elim m [ ]
IsFrom-file rules rule outcome (x ∷ bs) i h b m =
    elim (Bool-cases (str_eq x.category_id rule.category_id)) [
      | inl same ↦ at_head outcome (rw same at m)
      | inr other ↦ elim (let n : In b (x ∷ file rule outcome bs) = rw other at m in n) [
        | inl q ↦ h b (inl q)
        | inr n ↦ IsFrom-file rules rule outcome bs i (λ y k. h y (inr k)) b n
      ]
    ]
  where
    at_head : (o : Triage) → In b (push o x ∷ bs) → IsFrom rules b
    at_head (pushed e) (inl q) = rw q (h x (inl refl))
    at_head (kept c) (inl q) = rw q (h x (inl refl))
    at_head o (inr n) = h b (inr n)

pub In-category_ids-own :
    (rule : EngineRule) (outcome : Triage) (bs : List CategoryBucket)
    → In rule.category_id (category_ids (file rule outcome bs))
unfolding file
In-category_ids-own rule (pushed e) [] = inl refl
In-category_ids-own rule (kept e) [] = inl refl
In-category_ids-own rule (pushed e) (b ∷ bs) =
    ground (arith, eq_iff b.category_id rule.category_id, In-category_ids-own rule (pushed e) bs)
In-category_ids-own rule (kept e) (b ∷ bs) =
    ground (arith, eq_iff b.category_id rule.category_id, In-category_ids-own rule (kept e) bs)

pub In-category_ids-kept :
    (id : String) (rule : EngineRule) (outcome : Triage) (bs : List CategoryBucket)
    → In id (category_ids bs)
    → In id (category_ids (file rule outcome bs))
unfolding file
In-category_ids-kept id rule outcome [] m = elim m [ ]
In-category_ids-kept id rule (pushed e) (b ∷ bs) m =
    ground (arith, In-category_ids-kept id rule (pushed e) bs)
In-category_ids-kept id rule (kept e) (b ∷ bs) m =
    ground (arith, In-category_ids-kept id rule (kept e) bs)
