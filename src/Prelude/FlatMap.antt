-- ===== src/Prelude/FlatMap.antt =====
-- Membership in `xs.flatMap(f)`.
use mathlib.Core.Path.{refl}
use mathlib.Core.Logic.{inl, inr, ∥∥₁_elim}
use mathlib.Core.List.{
  List, [], ◌∷◌, ◌++◌, flat_map, Perm, Permᴰ, Perm-prop, append_assoc, perm_append_comm,
}
use mathlib.Core.List.Perm
use policy_assignment_system.Prelude.Lists.{In}
use policy_assignment_system.Prelude.Members.{In-append_left, In-append_right, In-append_cases}

pub perm_swap_front {ℓ} :
    {A : Type ℓ} (xs ys zs : List A) → Perm (xs ++ (ys ++ zs)) (ys ++ (xs ++ zs))
perm_swap_front xs ys zs =
    rw (← append_assoc xs ys zs, ← append_assoc ys xs zs)
      (Perm.append_right zs (perm_append_comm xs ys))

module _ {A B : Type 0} (f : A → List B) where
  pub In-flat_map : (b : B) (a : A) (xs : List A) → In a xs → In b (f a) → In b (flat_map f xs)
  unfolding flat_map
  In-flat_map b a [] m n = elim m [ ]
  In-flat_map b a (x ∷ xs) (inl e) n = In-append_left b (f x) _ (rw e at n)
  In-flat_map b a (x ∷ xs) (inr m) n = In-append_right b (f x) _ (In-flat_map b a xs m n)

  pub In-of_flat_map : (b : B) (xs : List A) → In b (flat_map f xs) → (a : A) × In a xs × In b (f a)
  unfolding flat_map
  In-of_flat_map b [] m = elim m [ ]
  In-of_flat_map b (x ∷ xs) m = elim (In-append_cases b (f x) (flat_map f xs) m) [
    | inl here ↦ (x, inl refl, here)
    | inr later ↦ let (a, n, k) = In-of_flat_map b xs later in (a, inr n, k)
  ]

  -- Rearranging the items rearranges the result.
  flat_map-permᴰ : {xs ys : List A} → Permᴰ xs ys → Perm (flat_map f xs) (flat_map f ys)
  unfolding flat_map
  flat_map-permᴰ Permᴰ.nil = Perm.nil
  flat_map-permᴰ (Permᴰ.cons {l₁ = xs} {l₂ = ys} e p) =
      rw e (Perm.append_left (f _) (flat_map-permᴰ p))
  flat_map-permᴰ (Permᴰ.swap {a' = c} {b' = d} {l = l} e k) =
      rw (e, k) (perm_swap_front (f d) (f c) (flat_map f l))
  flat_map-permᴰ (Permᴰ.trans p q) = Perm.trans (flat_map-permᴰ p) (flat_map-permᴰ q)

  pub flat_map-perm : {xs ys : List A} → Perm xs ys → Perm (flat_map f xs) (flat_map f ys)
  flat_map-perm p = ∥∥₁_elim p Perm-prop flat_map-permᴰ
