-- ===== src/Narrowing/Laws.antt =====
-- What one clause that holds says of the value that it pushes into the query.
use policy_assignment_system.Prelude.{
  ℕ, ◌-◌, ◌≤◌, String, ◌≡◌, refl, sym, ap, ◌∙◌, subst, inl, inr, true, Option, none, some, List, [],
  ◌∷◌, In, In-keep, includes, includes_iff, arith, ℤ, pos, negsuc, succ, pred, leb_ℤ, ltb_ℤ, keep,
  Bool, false, if◌then◌else◌,
}
use policy_assignment_system.Dates.{civil_of}
use policy_assignment_system.Conditions.{
  ConditionScalar, text, num, fraction, bool, ConditionValue, single, many, Actual, scalar, as_list,
  string_of, nullable,
}
use policy_assignment_system.Conditions.Columns.{NamesValue}
use policy_assignment_system.Narrowing.{
  all_texts, as_string_list, intersect, nonempty, earlier, later, days_before, whole_days,
  in_column, not_before, not_after,
}

-- Listed where there is a list.
abbrev pub Listed : Option (List String) → String → Type 0
Listed none s = Unit
Listed (some ss) s = In s ss

all_texts-Listed :
    (items : List ConditionScalar) (v : ConditionScalar)
    → In v items
    → Listed (all_texts items) (string_of v)
unfolding all_texts string_of
all_texts-Listed [] v m = elim m [ ]
all_texts-Listed (text s ∷ items) v (inl e) =
    elim (all_texts items)
      as (λ o. Listed (elim o [ none ↦ none | some ss ↦ some (s ∷ ss) ]) (string_of v)) [
        | none ↦ tt
        | some ss ↦ inl (ap string_of e)
      ]
all_texts-Listed (text s ∷ items) v (inr m) =
    (elim (all_texts items)
        as (λ o.
          Listed o (string_of v)
          → Listed (elim o [ none ↦ none | some ss ↦ some (s ∷ ss) ]) (string_of v)) [
            | none ↦ λ _. tt
            | some ss ↦ λ n. inr n
          ])
      (all_texts-Listed items v m)
all_texts-Listed (num n ∷ items) v m = tt
all_texts-Listed (fraction s n ∷ items) v m = tt
all_texts-Listed (bool b ∷ items) v m = tt

pub as_string_list-Listed :
    (value : ConditionValue) (v : ConditionScalar)
    → In v (as_list value)
    → Listed (as_string_list value) (string_of v)
unfolding as_string_list as_list string_of
as_string_list-Listed (single (text s)) v (inl e) = inl (ap string_of e)
as_string_list-Listed (single (text s)) v (inr m) = elim m [ ]
as_string_list-Listed (single (num n)) v m = tt
as_string_list-Listed (single (fraction s n)) v m = tt
as_string_list-Listed (single (bool b)) v m = tt
as_string_list-Listed (many items) v m = all_texts-Listed items v m

pub nonempty-Listed : (o : Option (List String)) (s : String) → Listed o s → Listed (nonempty o) s
unfolding nonempty
nonempty-Listed none s m = tt
nonempty-Listed (some []) s m = tt
nonempty-Listed (some (x ∷ ss)) s m = m

-- The text of an actual value.
pub value_of : Actual → Option String
value_of (scalar (text s)) = some s
value_of _ = none

pub nullable-value_of : (o : Option String) → value_of (nullable o) ≡ o
unfolding value_of
nullable-value_of none = refl
nullable-value_of (some s) = refl

-- The column has a value that the list, if any, contains.
abbrev pub ColumnListed : Option (List String) → Option String → Type 0
ColumnListed listed column = (s : String) × (column ≡ some s) × Listed listed s

pub column-Listed :
    (value : ConditionValue) (actual : Actual) (column : Option String)
    → value_of actual ≡ column
    → NamesValue value actual
    → ColumnListed (nonempty (as_string_list value)) column
unfolding value_of
column-Listed value actual column e (s, v, f, m, g) = (
  s,
  sym e ∙ ap value_of f,
  nonempty-Listed (as_string_list value) s
      (subst (λ x. Listed (as_string_list value) x) g (as_string_list-Listed value v m)),
)

pub intersect-in_column :
    (o : Option (List String)) (ss : List String) (column : Option String)
    → in_column o column ≡ true
    → ColumnListed (some ss) column
    → in_column (some (intersect o ss)) column ≡ true
unfolding in_column intersect
intersect-in_column none ss column h (s, e, m) = rw e ((includes_iff ss s).1 m)
intersect-in_column (some old) ss column h (s, e, m) =
    let k = (includes_iff old s).0 (rw e at h) in
    rw e (
      (includes_iff (keep (includes ss) old) s).1
        (In-keep (includes ss) old k ((includes_iff ss s).1 m)))

-- The bounds on the day of hire.
module _ (as_of hired : ℕ) (past : hired ≤ as_of) where
  pub earlier-not_after :
      (o : Option ℤ) (bound : ℤ)
      → not_after o hired ≡ true
      → leb_ℤ (pos hired) bound ≡ true
      → not_after (some (earlier o bound)) hired ≡ true
  unfolding not_after earlier
  earlier-not_after none bound h k = k
  earlier-not_after (some old) bound h k = ground arith

  pub later-not_before :
      (o : Option ℤ) (bound : ℤ)
      → not_before o hired ≡ true
      → leb_ℤ bound (pos hired) ≡ true
      → not_before (some (later o bound)) hired ≡ true
  unfolding not_before later
  later-not_before none bound h k = k
  later-not_before (some old) bound h k = ground arith

  pub days_before-le :
      (n : ℤ)
      → leb_ℤ n (pos (as_of - hired)) ≡ true
      → leb_ℤ (pos hired) (days_before as_of n) ≡ true
  unfolding days_before
  days_before-le (pos n) h = ground arith
  days_before-le (negsuc n) h = ground arith

  pub days_before-ge :
      (n : ℤ)
      → leb_ℤ (pos (as_of - hired)) n ≡ true
      → leb_ℤ (days_before as_of n) (pos hired) ≡ true
  unfolding days_before
  days_before-ge (pos n) h = ground arith
  days_before-ge (negsuc n) h = ground arith

pub whole_days-whole : (as_of : ℕ) (n : ℤ) → whole_days as_of n false ≡ n
unfolding whole_days
whole_days-whole as_of n = refl

pub whole_days-le :
    (as_of : ℕ) (n a : ℤ) → ltb_ℤ n a ≡ true → leb_ℤ (whole_days as_of n true) a ≡ true
unfolding whole_days
whole_days-le as_of n a h = below (ltb_ℤ n (pos (civil_of as_of).day))
  where
    below : (early : Bool) → leb_ℤ (if early then succ n else n) a ≡ true
    below true = ground arith
    below false = ground arith

pub whole_days-ge :
    (as_of : ℕ) (n a : ℤ) → leb_ℤ a n ≡ true → leb_ℤ a (whole_days as_of n true) ≡ true
unfolding whole_days
whole_days-ge as_of n a h = above (ltb_ℤ n (pos (civil_of as_of).day))
  where
    above : (early : Bool) → leb_ℤ a (if early then succ n else n) ≡ true
    above true = ground arith
    above false = ground arith

pub succ-le : (n a : ℤ) → ltb_ℤ n a ≡ true → leb_ℤ (succ n) a ≡ true
succ-le n a h = ground arith

pub le-pred : (n a : ℤ) → ltb_ℤ a n ≡ true → leb_ℤ a (pred n) ≡ true
le-pred n a h = ground arith
