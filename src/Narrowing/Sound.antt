-- ===== src/Narrowing/Sound.antt =====
-- One round of the loop of narrowing keeps an employee that matches.
use policy_assignment_system.Prelude.{
  ℕ, ◌-◌, ◌≤◌, String, ◌≡◌, refl, sym, ◌∙◌, subst, ◌⊎◌, inl, inr, Bool, true, false, ◌&&◌, ◌||◌,
  Option, none, some, List, [], ◌∷◌, In, In-of_map, In-of_keep, includes, includes_iff, any-of_In,
  arith, map, if◌then◌else◌,
}
use policy_assignment_system.Conditions.{
  ConditionAttribute, department, state, country, location, employment_type, role, tenure_days,
  is_manager, group_id, ConditionOperator, eq, neq, is_in, not_in, gte, gt, lte, lt, text, num,
  fraction, bool, ConditionValue, single, many, ConditionClause, EmployeeContext, as_list,
  string_of, read_attribute,
}
use policy_assignment_system.Conditions.Laws.{Holds, asks, group_membership}
use policy_assignment_system.Conditions.Columns.{is_column}
use policy_assignment_system.Narrowing.{
  CandidateFilter, as_string_list, nonempty, positive_op, intersect, pushed_values, in_groups,
  selects, narrow_clause, push_texts, with_column,
}
use policy_assignment_system.Narrowing.Steps.{
  Fits, Admits, AdmitsOption, pushed_values-Pushed, department-Admits, state-Admits, country-Admits,
  location-Admits, employment_type-Admits, role-Admits, manager-Admits, tenure-Admits,
  is_strict_fraction,
}
use policy_assignment_system.Narrowing.Laws.{
  Listed, as_string_list-Listed, nonempty-Listed, nullable-value_of,
}

is_many : ConditionValue → Bool
is_many (many _) = true
is_many (single _) = false

is_group : ConditionAttribute → Bool
is_group group_id = true
is_group _ = false

-- A clause that asks for one group of a list.
unfoldable pub is_group_list : ConditionClause → Bool
unfolding is_many is_group
is_group_list clause = is_group clause.attribute && (positive_op clause.op && is_many clause.value)

unfoldable pub at_most_one_list : Bool → List ConditionClause → Bool
unfolding is_group_list
at_most_one_list seen [] = true
at_most_one_list seen (clause ∷ clauses) =
    let rest = at_most_one_list (seen || is_group_list clause) clauses in
    if seen && is_group_list clause then false else rest

pub Fits-widen :
    (wide more : Bool) (o : Option (List String)) (ids : List String)
    → Fits wide o ids
    → Fits (wide || more) o ids
Fits-widen wide more none ids h = tt
Fits-widen wide more (some gs) ids (inl h) = inl h
Fits-widen true more (some gs) ids (inr (_, m)) = inr (refl, m)
Fits-widen false more (some gs) ids (inr (e, m)) = cc e

Fits-intersect :
    (wide more : Bool) (o : Option (List String)) (gs ids : List String)
    → Fits wide o ids
    → (g : String) × In g gs × In g ids
    → ((g : String) → In g gs → In g ids) ⊎ ((wide ≡ false) × (more ≡ true))
    → Fits (wide || more) (some (intersect o gs)) ids
unfolding intersect
Fits-intersect wide more none gs ids h member (inl every) = inl every
Fits-intersect wide more none gs ids h member (inr (e, k)) = inr (rw (e, k) refl, member)
Fits-intersect wide more (some old) gs ids (inl h) member _ =
    inl (λ g m. h g (In-of_keep (includes gs) old m).0)
Fits-intersect wide more (some old) gs ids (inr _) member (inl every) =
    inl (λ g m. every g ((includes_iff gs g).0 (In-of_keep (includes gs) old m).1))
Fits-intersect wide more (some old) gs ids (inr (e, _)) member (inr (f, _)) = cc (e, f)

-- An employee that matches is in the query.
pub Admits-selects :
    (f : CandidateFilter) (context : EmployeeContext) (hired : ℕ)
    → Admits true f context hired
    → selects f context hired ≡ true
unfolding selects
Admits-selects f context hired a =
    rw
      (
        a.departments, a.states, a.countries, a.locations, a.employment_types, a.roles, a.manager,
        a.from, a.to,
      )
      (grouped f.groups a.groups)
  where
    grouped :
        (o : Option (List String))
        → Fits true o context.group_ids
        → in_groups o context.group_ids ≡ true
    grouped none h = refl
    grouped (some []) h = refl
    grouped (some (g ∷ gs)) (inl every) =
        any-of_In (includes (g ∷ gs)) context.group_ids (every g (inl refl))
          ((includes_iff (g ∷ gs) g).1 (inl refl))
    grouped (some (g ∷ gs)) (inr (_, (x, m, n))) =
        any-of_In (includes (g ∷ gs)) context.group_ids n ((includes_iff (g ∷ gs) x).1 m)

-- What a clause on groups that holds says of the groups that it pushes.
abbrev GroupsPushed : Bool → Bool → Option (List String) → List String → Type 0
GroupsPushed wide more none ids = Unit
GroupsPushed wide more (some gs) ids =
    ((g : String) × In g gs × In g ids)
    × (((g : String) → In g gs → In g ids) ⊎ ((wide ≡ false) × (more ≡ true)))

GroupsPushed-of_Listed :
    (wide more : Bool) (o : Option (List String)) (ids : List String) (g : String)
    → Listed o g
    → In g ids
    → ((x : String) → Listed o x → In x ids) ⊎ ((wide ≡ false) × (more ≡ true))
    → GroupsPushed wide more o ids
GroupsPushed-of_Listed wide more none ids g m n h = tt
GroupsPushed-of_Listed wide more (some gs) ids g m n h = ((g, m, n), h)

-- For either operator that is pushed.
member-GroupsPushed :
    (wide : Bool) (value : ConditionValue) (ids : List String)
    → (wide && is_many value) ≡ false
    → ((g : String) × In g (map string_of (as_list value)) × In g ids)
    → GroupsPushed wide (is_many value) (nonempty (as_string_list value)) ids
unfolding is_many as_string_list nonempty as_list string_of
member-GroupsPushed wide (single (text s)) ids h (g, inl e, n) =
    ((s, inl refl, subst (λ x. In x ids) e n), inl (λ x m. mine x m))
  where
    mine : (x : String) → In x (s ∷ []) → In x ids
    mine x (inl f) = subst (λ y. In y ids) (e ∙ sym f) n
    mine x (inr m) = elim m [ ]
member-GroupsPushed wide (single (text s)) ids h (g, inr m, n) = elim m [ ]
member-GroupsPushed wide (single (num k)) ids h member = tt
member-GroupsPushed wide (single (fraction s k)) ids h member = tt
member-GroupsPushed wide (single (bool b)) ids h member = tt
member-GroupsPushed wide (many items) ids h (g, m, n) =
    let (v, k, e) = In-of_map string_of items m in
    GroupsPushed-of_Listed wide true (nonempty (as_string_list (many items))) ids g
      (subst (λ x. Listed (nonempty (as_string_list (many items))) x) (sym e)
        (nonempty-Listed (as_string_list (many items)) (string_of v)
          (as_string_list-Listed (many items) v k)))
      n (inr (ground arith, refl))

group-Admits :
    (wide more : Bool) (f : CandidateFilter) (context : EmployeeContext) (hired : ℕ)
    → Admits wide f context hired
    → (o : Option (List String)) → GroupsPushed wide more o context.group_ids
    → AdmitsOption (wide || more) (push_texts group_id o f) context hired
unfolding push_texts with_column
group-Admits wide more f context hired a none h = tt
group-Admits wide more f context hired a (some gs) (member, kind) = record {
  departments = a.departments;
  states = a.states;
  countries = a.countries;
  locations = a.locations;
  employment_types = a.employment_types;
  roles = a.roles;
  manager = a.manager;
  from = a.from;
  to = a.to;
  groups = Fits-intersect wide more f.groups gs context.group_ids a.groups member kind;
}

pushed-GroupsPushed :
    (wide : Bool) (op : ConditionOperator) (value : ConditionValue) (context : EmployeeContext)
    → (wide && (positive_op op && is_many value)) ≡ false
    → asks group_id context op value ≡ true
    → GroupsPushed wide (positive_op op && is_many value) (pushed_values op value) context.group_ids
unfolding pushed_values positive_op
pushed-GroupsPushed wide eq value context h k =
    member-GroupsPushed wide value context.group_ids h
      ((group_membership eq value context (inl refl)).0 k)
pushed-GroupsPushed wide is_in value context h k =
    member-GroupsPushed wide value context.group_ids h
      ((group_membership is_in value context (inr refl)).0 k)
pushed-GroupsPushed wide neq value context h k = tt
pushed-GroupsPushed wide not_in value context h k = tt
pushed-GroupsPushed wide gte value context h k = tt
pushed-GroupsPushed wide lte value context h k = tt
pushed-GroupsPushed wide gt value context h k = tt
pushed-GroupsPushed wide lt value context h k = tt

pub Admits-widen :
    (wide more : Bool) (f : CandidateFilter) (context : EmployeeContext) (hired : ℕ)
    → Admits wide f context hired
    → Admits (wide || more) f context hired
Admits-widen wide more f context hired a = record {
  departments = a.departments;
  states = a.states;
  countries = a.countries;
  locations = a.locations;
  employment_types = a.employment_types;
  roles = a.roles;
  manager = a.manager;
  from = a.from;
  to = a.to;
  groups = Fits-widen wide more f.groups context.group_ids a.groups;
}

module _ (context : EmployeeContext) (as_of hired : ℕ) (past : hired ≤ as_of)
    (tenure : context.tenure ≡ as_of - hired) where
  pub narrow_clause-Admits :
      (wide : Bool) (attribute : ConditionAttribute) (op : ConditionOperator)
      (value : ConditionValue) (f : CandidateFilter)
      → let clause : ConditionClause = record { attribute = attribute; op = op; value = value } in
        (wide && is_group_list clause) ≡ false
        → is_strict_fraction op value ≡ false
        → Holds context clause
        → Admits wide f context hired
        → AdmitsOption (wide || is_group_list clause) (narrow_clause as_of clause f) context hired
  unfolding narrow_clause is_group_list is_group is_column read_attribute
  narrow_clause-Admits wide department op value f limit exact h a =
      department-Admits wide false f context hired (Admits-widen wide false f context hired a)
        (pushed_values op value)
        (pushed_values-Pushed department op value context context.department_name refl
          (nullable-value_of context.department_name) h)
  narrow_clause-Admits wide state op value f limit exact h a =
      state-Admits wide false f context hired (Admits-widen wide false f context hired a)
        (pushed_values op value)
        (pushed_values-Pushed state op value context context.state_name refl
          (nullable-value_of context.state_name) h)
  narrow_clause-Admits wide country op value f limit exact h a =
      country-Admits wide false f context hired (Admits-widen wide false f context hired a)
        (pushed_values op value)
        (pushed_values-Pushed country op value context context.country_name refl
          (nullable-value_of context.country_name) h)
  narrow_clause-Admits wide location op value f limit exact h a =
      location-Admits wide false f context hired (Admits-widen wide false f context hired a)
        (pushed_values op value)
        (pushed_values-Pushed location op value context context.location_name refl
          (nullable-value_of context.location_name) h)
  narrow_clause-Admits wide employment_type op value f limit exact h a =
      employment_type-Admits wide false f context hired (Admits-widen wide false f context hired a)
        (pushed_values op value)
        (pushed_values-Pushed employment_type op value context (some context.employment) refl
          (nullable-value_of (some context.employment)) h)
  narrow_clause-Admits wide role op value f limit exact h a =
      role-Admits wide false f context hired (Admits-widen wide false f context hired a)
        (pushed_values op value)
        (pushed_values-Pushed role op value context context.role_name refl
          (nullable-value_of context.role_name) h)
  narrow_clause-Admits wide is_manager op value f limit exact h a =
      manager-Admits wide false f context hired (Admits-widen wide false f context hired a) op value
        h
  narrow_clause-Admits wide tenure_days op value f limit exact h a =
      tenure-Admits wide false f context hired (Admits-widen wide false f context hired a) as_of
        past tenure op value exact h
  narrow_clause-Admits wide group_id op value f limit exact h a =
      group-Admits wide (positive_op op && is_many value) f context hired a (pushed_values op value)
        (pushed-GroupsPushed wide op value context limit h)
