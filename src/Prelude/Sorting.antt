-- ===== src/Prelude/Sorting.antt =====
-- `xs.sort(compare)`: a stable sort by a comparison that answers with a sign. Among items that
-- compare equal the earlier stays first.
use mathlib.Core.Logic.{◌⊎◌, inl, inr}
use mathlib.Core.List.{List, [], ◌∷◌, Perm}
use mathlib.Core.List.Perm
use native.Mathlib.Omega.{arith}
use policy_assignment_system.Prelude.Tests.{if◌then◌else◌, Bool-cases}
use policy_assignment_system.Prelude.Lists.{In, All}
use policy_assignment_system.Prelude.Int.{ℤ, pos, ltb_ℤ, ◌≤ℤ◌}

module _ {A : Type 0} (compare : A → A → ℤ) where
  insert : A → List A → List A
  insert x [] = x ∷ []
  insert x (y ∷ ys) =
      let later = y ∷ insert x ys in if ltb_ℤ (pos 0) (compare x y) then later else x ∷ y ∷ ys

  unfoldable pub sort : List A → List A
  unfolding insert
  sort [] = []
  sort (x ∷ xs) = insert x (sort xs)

  insert-perm : (x : A) (xs : List A) → Perm (insert x xs) (x ∷ xs)
  unfolding insert
  insert-perm x [] = Perm.rfl
  insert-perm x (y ∷ ys) = elim (Bool-cases (ltb_ℤ (pos 0) (compare x y))) [
    | inl after ↦ rw after (Perm.trans (Perm.cons y (insert-perm x ys)) (Perm.swap x y ys))
    | inr before ↦ rw before Perm.rfl
  ]

  pub sort-perm : (xs : List A) → Perm (sort xs) xs
  unfolding sort
  sort-perm [] = Perm.rfl
  sort-perm (x ∷ xs) = Perm.trans (insert-perm x (sort xs)) (Perm.cons x (sort-perm xs))

  In-insert : (a x : A) (xs : List A) → In a (x ∷ xs) → In a (insert x xs)
  unfolding insert
  In-insert a x [] m = m
  In-insert a x (y ∷ ys) m = ground (arith, In-insert a x ys)

  In-of_insert : (a x : A) (xs : List A) → In a (insert x xs) → In a (x ∷ xs)
  unfolding insert
  In-of_insert a x [] m = m
  In-of_insert a x (y ∷ ys) m = ground (arith, In-of_insert a x ys)

  pub In-sort : (a : A) (xs : List A) → In a xs → In a (sort xs)
  unfolding sort
  In-sort a [] m = m
  In-sort a (x ∷ xs) (inl e) = In-insert a x (sort xs) (inl e)
  In-sort a (x ∷ xs) (inr m) = In-insert a x (sort xs) (inr (In-sort a xs m))

  pub In-of_sort : (a : A) (xs : List A) → In a (sort xs) → In a xs
  unfolding sort
  In-of_sort a [] m = m
  In-of_sort a (x ∷ xs) m = elim (In-of_insert a x (sort xs) m) [
    | inl e ↦ inl e
    | inr n ↦ inr (In-of_sort a xs n)
  ]

  -- Each item comes before or level with all that follow it.
  abbrev pub IsSorted : List A → Type 0
  IsSorted [] = Unit
  IsSorted (x ∷ xs) = All (λ y. compare x y ≤ℤ pos 0) xs × IsSorted xs

  module _
      (trans : (x y z : A) → compare x y ≤ℤ pos 0 → compare y z ≤ℤ pos 0 → compare x z ≤ℤ pos 0)
      (total : (x y : A) → (compare x y ≤ℤ pos 0) ⊎ (compare y x ≤ℤ pos 0)) where
    All-insert :
        (z x : A) (xs : List A)
        → compare z x ≤ℤ pos 0
        → All (λ y. compare z y ≤ℤ pos 0) xs
        → All (λ y. compare z y ≤ℤ pos 0) (insert x xs)
    unfolding insert
    All-insert z x [] h k = (h, tt)
    All-insert z x (y ∷ ys) h k = ground (arith, All-insert z x ys h k.1)

    All-trans :
        (x y : A) (ys : List A)
        → compare x y ≤ℤ pos 0
        → All (λ z. compare y z ≤ℤ pos 0) ys
        → All (λ z. compare x z ≤ℤ pos 0) ys
    All-trans x y [] h k = tt
    All-trans x y (z ∷ ys) h (p, k) = (trans x y z h p, All-trans x y ys h k)

    insert-IsSorted : (x : A) (xs : List A) → IsSorted xs → IsSorted (insert x xs)
    unfolding insert
    insert-IsSorted x [] s = (tt, tt)
    insert-IsSorted x (y ∷ ys) (below, s) = elim (Bool-cases (ltb_ℤ (pos 0) (compare x y))) [
      | inl after ↦
          rw after (All-insert y x ys (ground (arith, total x y)) below, insert-IsSorted x ys s)
      | inr before ↦
          let first : compare x y ≤ℤ pos 0 = ground arith in
          rw before ((first, All-trans x y ys first below), (below, s))
    ]

    pub sort-IsSorted : (xs : List A) → IsSorted (sort xs)
    unfolding sort
    sort-IsSorted [] = tt
    sort-IsSorted (x ∷ xs) = insert-IsSorted x (sort xs) (sort-IsSorted xs)
