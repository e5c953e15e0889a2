-- ===== src/Prelude/Members.antt =====
-- Membership: in the results of `some`, `every`, `filter`, `map` and concatenation, and as a test on
-- texts.
use Prim.Native.String.{String}
use mathlib.Core.Path.{◌≡◌, refl, sym, ap, ◌∙◌, subst}
use mathlib.Core.Logic.{◌⊎◌, ◌≢◌, inl, inr, ◌↔◌}
use mathlib.Core.Bool.{Bool, true, false}
use mathlib.Core.List.{List, [], ◌∷◌, ◌++◌, map}
use native.Mathlib.Omega.{arith}
use text.Mathlib.TextEquality.{eq_iff}
use policy_assignment_system.Prelude.Tests.{Bool-cases}
use policy_assignment_system.Prelude.Lists.{any, keep, In, All}
use policy_assignment_system.Prelude.Text.{str_eq}

module _ {A : Type 0} where
  pub In-append_left : (a : A) (xs ys : List A) → In a xs → In a (xs ++ ys)
  In-append_left a (x ∷ xs) ys (inl e) = inl e
  In-append_left a (x ∷ xs) ys (inr m) = inr (In-append_left a xs ys m)
  In-append_left a [] ys m = elim m [ ]

  pub In-append_right : (a : A) (xs ys : List A) → In a ys → In a (xs ++ ys)
  In-append_right a [] ys m = m
  In-append_right a (x ∷ xs) ys m = inr (In-append_right a xs ys m)

  pub In-append_cases : (a : A) (xs ys : List A) → In a (xs ++ ys) → In a xs ⊎ In a ys
  In-append_cases a [] ys m = inr m
  In-append_cases a (x ∷ xs) ys (inl e) = inl (inl e)
  In-append_cases a (x ∷ xs) ys (inr m) = elim (In-append_cases a xs ys m) [
    | inl h ↦ inl (inr h)
    | inr h ↦ inr h
  ]

  -- An item put at the end.
  pub In-snoc_cases : (a x : A) (xs : List A) → In a (xs ++ x ∷ []) → In a xs ⊎ (a ≡ x)
  In-snoc_cases a x xs m = elim (In-append_cases a xs (x ∷ []) m) [
    | inl h ↦ inl h
    | inr (inl e) ↦ inr e
    | inr (inr h) ↦ elim h [ ]
  ]

  pub In-snoc_last : (x : A) (xs : List A) → In x (xs ++ x ∷ [])
  In-snoc_last x xs = In-append_right x xs (x ∷ []) (inl refl)

  pub any-of_In : (p : A → Bool) {a : A} (xs : List A) → In a xs → p a ≡ true → any p xs ≡ true
  any-of_In p (x ∷ xs) (inl e) h = ground (arith, ap p e)
  any-of_In p (x ∷ xs) (inr m) h = ground (arith, any-of_In p xs m h)
  any-of_In p [] m h = elim m [ ]

  pub In-of_any : (p : A → Bool) (xs : List A) → any p xs ≡ true → (a : A) × In a xs × (p a ≡ true)
  In-of_any p [] h = cc
  In-of_any p (x ∷ xs) h = elim (Bool-cases (p x)) [
    | inl here ↦ (x, inl refl, here)
    | inr later ↦ let (a, m, q) = In-of_any p xs (rw later at h) in (a, inr m, q)
  ]

  pub In-keep : (p : A → Bool) {a : A} (xs : List A) → In a xs → p a ≡ true → In a (keep p xs)
  In-keep p (x ∷ xs) (inl e) h = rw (ap p (sym e) ∙ h) (inl e)
  In-keep p (x ∷ xs) (inr m) h = elim (Bool-cases (p x)) [
    | inl kept ↦ rw kept (inr (In-keep p xs m h))
    | inr lost ↦ rw lost (In-keep p xs m h)
  ]
  In-keep p [] m h = elim m [ ]

  pub In-of_keep : (p : A → Bool) {a : A} (xs : List A) → In a (keep p xs) → In a xs × (p a ≡ true)
  In-of_keep p [] m = elim m [ ]
  In-of_keep p {a} (x ∷ xs) m = elim (Bool-cases (p x)) [
    | inl kept ↦ from_kept kept (In-of_keep p xs) (rw kept at m)
    | inr lost ↦ let (n, h) = In-of_keep p xs (rw lost at m) in (inr n, h)
  ]
    where
      from_kept :
          p x ≡ true
          → (In a (keep p xs) → In a xs × (p a ≡ true))
          → In a (x ∷ keep p xs)
          → In a (x ∷ xs) × (p a ≡ true)
      from_kept kept ih (inl e) = (inl e, ap p e ∙ kept)
      from_kept kept ih (inr n) = (inr (ih n).0, (ih n).1)

  pub keep-nil : (p : A → Bool) (xs : List A) → ((a : A) → In a xs → p a ≡ false) → keep p xs ≡ []
  keep-nil p [] h = refl
  keep-nil p (x ∷ xs) h = rw (h x (inl refl), keep-nil p xs (λ a m. h a (inr m))) refl

  pub All-of_In {κ} : (P : A → Type κ) (xs : List A) → ((a : A) → In a xs → P a) → All P xs
  All-of_In P [] h = tt
  All-of_In P (x ∷ xs) h = (h x (inl refl), All-of_In P xs (λ a m. h a (inr m)))

  pub In-of_All {κ} : (P : A → Type κ) {a : A} (xs : List A) → All P xs → In a xs → P a
  In-of_All P (x ∷ xs) (p, h) (inl e) = subst P (sym e) p
  In-of_All P (x ∷ xs) (p, h) (inr m) = In-of_All P xs h m
  In-of_All P [] h m = elim m [ ]

module _ {A B : Type 0} (f : A → B) where
  pub In-map : (a : A) (xs : List A) → In a xs → In (f a) (map f xs)
  In-map a (x ∷ xs) (inl e) = inl (ap f e)
  In-map a (x ∷ xs) (inr m) = inr (In-map a xs m)
  In-map a [] m = elim m [ ]

  pub In-of_map : {b : B} (xs : List A) → In b (map f xs) → (a : A) × In a xs × (b ≡ f a)
  In-of_map (x ∷ xs) (inl e) = (x, inl refl, e)
  In-of_map (x ∷ xs) (inr m) = let (a, n, e) = In-of_map xs m in (a, inr n, e)
  In-of_map [] m = elim m [ ]

-- `xs.includes(x)`
abbrev pub includes : List String → String → Bool
includes xs x = any (λ y. str_eq y x) xs

pub includes_iff : (xs : List String) (x : String) → (includes xs x ≡ true) ↔ In x xs
includes_iff xs x = (
  λ h. let (y, m, e) = In-of_any _ xs h in subst (λ z. In z xs) ((eq_iff y x).0 e) m,
  λ m. any-of_In (λ y. str_eq y x) xs m ((eq_iff x x).1 refl),
)

pub str_eq-differ : (s t : String) → s ≢ t → str_eq s t ≡ false
str_eq-differ s t h = elim (Bool-cases (str_eq s t)) [
  | inl e ↦ absurd (h ((eq_iff s t).0 e))
  | inr e ↦ e
]
