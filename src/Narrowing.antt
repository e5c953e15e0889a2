-- ===== src/Narrowing.antt =====
-- packages/core/src/engine/candidates.ts, and `findCandidates` of
-- packages/core/src/repositories/employee.repository.ts: which part of a rule's conditions becomes a
-- query, and which employees the query selects. A Date is a whole day here, `asOf` and the hire dates
-- being days, and as a bound it may lie before the start of time, so it is an integer.
pub mod Laws
pub mod Steps
pub mod Sound
pub mod Candidates
pub mod Tests
use policy_assignment_system.Prelude.{
  ℕ, ◌+◌, String, Bool, true, false, not, ◌&&◌, Option, none, some, List, [], ◌∷◌, ◌++◌, keep, any,
  includes, if◌then◌else◌, ℤ, pos, negsuc, succ, pred, sub_ℕ, ltb_ℤ, leb_ℤ,
}
use policy_assignment_system.Dates.{civil_of}
use policy_assignment_system.Conditions.{
  ConditionAttribute, department, state, country, location, employment_type, role, tenure_days,
  is_manager, group_id, ConditionOperator, eq, is_in, gte, gt, lte, lt, ConditionScalar, text, num,
  fraction, bool, ConditionValue, single, many, ConditionClause, RuleConditions, EmployeeContext,
}

-- Each field is absent, and then no constraint, or present.
pub record CandidateFilter : Type 0 where
  pub departments : Option (List String)
  pub states : Option (List String)
  pub countries : Option (List String)
  pub locations : Option (List String)
  pub employment_types : Option (List String)
  pub roles : Option (List String)
  pub manager : Option Bool
  pub hire_date_from : Option ℤ
  pub hire_date_to : Option ℤ
  pub groups : Option (List String)

pub record NarrowedConditions : Type 0 where
  pub filter : CandidateFilter
  pub residual : List ConditionClause

abbrev pub no_filter : CandidateFilter
no_filter = record {
  departments = none;
  states = none;
  countries = none;
  locations = none;
  employment_types = none;
  roles = none;
  manager = none;
  hire_date_from = none;
  hire_date_to = none;
  groups = none;
}

all_texts : List ConditionScalar → Option (List String)
all_texts [] = some []
all_texts (text s ∷ items) = elim (all_texts items) [ none ↦ none | some ss ↦ some (s ∷ ss) ]
all_texts (num n ∷ items) = none
all_texts (fraction s n ∷ items) = none
all_texts (bool b ∷ items) = none

unfoldable pub as_string_list : ConditionValue → Option (List String)
unfolding all_texts
as_string_list (single (text s)) = some (s ∷ [])
as_string_list (single (num n)) = none
as_string_list (single (fraction s n)) = none
as_string_list (single (bool b)) = none
as_string_list (many items) = all_texts items

pub intersect : Option (List String) → List String → List String
intersect none incoming = incoming
intersect (some existing) incoming = keep (includes incoming) existing

-- asOf - n
pub days_before : ℕ → ℤ → ℤ
days_before as_of (pos n) = sub_ℕ as_of n
days_before as_of (negsuc n) = pos (as_of + n + 1)

-- `setUTCDate` drops the fraction of the day of the month that it is given, towards zero: of a tenure
-- between `n` and the next whole number, it takes the next one away from a day of the month after
-- `n`, and `n` from any other.
pub whole_days : ℕ → ℤ → Bool → ℤ
whole_days as_of n fractional =
    if fractional && ltb_ℤ n (pos (civil_of as_of).day) then succ n else n

pub hire_date_for_tenure : ℕ → ℤ → Bool → ℤ
unfolding days_before whole_days
hire_date_for_tenure as_of n fractional = days_before as_of (whole_days as_of n fractional)

pub earlier : Option ℤ → ℤ → ℤ
earlier none bound = bound
earlier (some old) bound = if ltb_ℤ old bound then old else bound

pub later : Option ℤ → ℤ → ℤ
later none bound = bound
later (some old) bound = if ltb_ℤ bound old then old else bound

unfoldable pub positive_op : ConditionOperator → Bool
positive_op eq = true
positive_op is_in = true
positive_op _ = false

pub nonempty : Option (List String) → Option (List String)
nonempty none = none
nonempty (some []) = none
nonempty (some (s ∷ ss)) = some (s ∷ ss)

-- The texts that a clause pushes into the query.
pub pushed_values : ConditionOperator → ConditionValue → Option (List String)
unfolding positive_op nonempty as_string_list
pushed_values op value = if positive_op op then nonempty (as_string_list value) else none

pub with_column : ConditionAttribute → List String → CandidateFilter → CandidateFilter
unfolding intersect
with_column department ss f = record f { departments = some (intersect f.departments ss) }
with_column state ss f = record f { states = some (intersect f.states ss) }
with_column country ss f = record f { countries = some (intersect f.countries ss) }
with_column location ss f = record f { locations = some (intersect f.locations ss) }
with_column employment_type ss f = record f {
  employment_types = some (intersect f.employment_types ss);
}
with_column role ss f = record f { roles = some (intersect f.roles ss) }
with_column group_id ss f = record f { groups = some (intersect f.groups ss) }
with_column _ ss f = f

pub push_texts :
    ConditionAttribute → Option (List String) → CandidateFilter → Option CandidateFilter
unfolding with_column
push_texts attribute none f = none
push_texts attribute (some ss) f = some (with_column attribute ss f)

pub push_manager : ConditionOperator → ConditionValue → CandidateFilter → Option CandidateFilter
push_manager eq (single (bool b)) f = some (record f { manager = some b })
push_manager _ _ f = none

-- The bound `n`, or, where it is fractional, one between `n` and the next whole number; a fraction is
-- one after 1 is added or taken away, too.
pub push_bound : ℕ → ConditionOperator → ℤ → Bool → CandidateFilter → Option CandidateFilter
unfolding earlier later hire_date_for_tenure
push_bound as_of gte n fractional f = some (record f {
  hire_date_to = some (earlier f.hire_date_to (hire_date_for_tenure as_of n fractional));
})
push_bound as_of gt n fractional f = some (record f {
  hire_date_to = some (earlier f.hire_date_to (hire_date_for_tenure as_of (succ n) fractional));
})
push_bound as_of lte n fractional f = some (record f {
  hire_date_from = some (later f.hire_date_from (hire_date_for_tenure as_of n fractional));
})
push_bound as_of lt n fractional f = some (record f {
  hire_date_from = some (later f.hire_date_from (hire_date_for_tenure as_of (pred n) fractional));
})
push_bound as_of _ n fractional f = none

pub push_tenure : ℕ → ConditionOperator → ConditionValue → CandidateFilter → Option CandidateFilter
unfolding push_bound
push_tenure as_of op (single (num n)) f = push_bound as_of op n false f
push_tenure as_of op (single (fraction s n)) f = push_bound as_of op n true f
push_tenure as_of op _ f = none

-- One round of the loop: the new filter, or `none` for a clause that is left over.
pub narrow_clause : ℕ → ConditionClause → CandidateFilter → Option CandidateFilter
unfolding push_texts push_manager push_tenure pushed_values
narrow_clause as_of clause f = elim clause.attribute [
  | is_manager ↦ push_manager clause.op clause.value f
  | tenure_days ↦ push_tenure as_of clause.op clause.value f
  | attribute ↦ push_texts attribute (pushed_values clause.op clause.value) f
]

pub narrow_from : ℕ → List ConditionClause → NarrowedConditions → NarrowedConditions
unfolding narrow_clause
narrow_from as_of [] n = n
narrow_from as_of (clause ∷ clauses) n = elim (narrow_clause as_of clause n.filter) [
  | some f ↦ narrow_from as_of clauses (record n { filter = f })
  | none ↦ narrow_from as_of clauses (record n { residual = n.residual ++ clause ∷ [] })
]

unfoldable pub narrow_conditions : RuleConditions → ℕ → NarrowedConditions
unfolding narrow_from
narrow_conditions conditions as_of =
    narrow_from as_of conditions.clauses (record { filter = no_filter; residual = [] })

abbrev pub is_absent : {A : Type 0} → Option A → Bool
is_absent none = true
is_absent (some _) = false

abbrev pub is_exhaustive : NarrowedConditions → Bool
is_exhaustive n = elim n.residual [ [] ↦ true | _ ↦ false ]

pub in_column : Option (List String) → Option String → Bool
in_column none value = true
in_column (some ss) none = false
in_column (some ss) (some s) = includes ss s

pub is_manager_as : Option Bool → Bool → Bool
is_manager_as none actual = true
is_manager_as (some true) actual = actual
is_manager_as (some false) actual = not actual

pub not_before : Option ℤ → ℕ → Bool
not_before none day = true
not_before (some bound) day = leb_ℤ bound (pos day)

pub not_after : Option ℤ → ℕ → Bool
not_after none day = true
not_after (some bound) day = leb_ℤ (pos day) bound

-- An empty list of groups is no constraint.
in_groups : Option (List String) → List String → Bool
in_groups none ids = true
in_groups (some []) ids = true
in_groups (some (g ∷ gs)) ids = any (includes (g ∷ gs)) ids

-- The `where` of `findCandidates`, for an active employee of the organisation with the columns and
-- open memberships of the context, hired on the day.
unfoldable pub selects : CandidateFilter → EmployeeContext → ℕ → Bool
unfolding in_column is_manager_as not_before not_after in_groups
selects f context hired =
    in_column f.departments context.department_name
    && in_column f.states context.state_name
    && in_column f.countries context.country_name
    && in_column f.locations context.location_name
    && in_column f.employment_types (some context.employment)
    && in_column f.roles context.role_name
    && is_manager_as f.manager context.manages
    && not_before f.hire_date_from hired
    && not_after f.hire_date_to hired
    && in_groups f.groups context.group_ids

-- `Object.keys(filter).length === 0`
pub is_unnarrowed : CandidateFilter → Bool
is_unnarrowed f =
    is_absent f.departments
    && is_absent f.states
    && is_absent f.countries
    && is_absent f.locations
    && is_absent f.employment_types
    && is_absent f.roles
    && is_absent f.manager
    && is_absent f.hire_date_from
    && is_absent f.hire_date_to
    && is_absent f.groups
