-- ===== src/Narrowing/Steps.antt =====
-- How each part of a filter takes a clause that holds.
use policy_assignment_system.Prelude.{
  ℕ, ◌-◌, ◌≤◌, String, ◌≡◌, refl, ap, ◌⊎◌, inl, inr, Bool, true, false, ◌||◌, not, Option, none,
  some, List, In, pos, succ, pred,
}
use policy_assignment_system.Conditions.{
  ConditionAttribute, department, state, country, location, employment_type, role, tenure_days,
  is_manager, ConditionOperator, eq, neq, is_in, not_in, gte, gt, lte, lt, text, num, fraction,
  bool, ConditionValue, single, many, EmployeeContext, read_attribute,
}
use policy_assignment_system.Conditions.Laws.{asks}
use policy_assignment_system.Conditions.Columns.{
  is_column, asks-NamesValue, asks-manager, asks-gte, asks-lte, asks-gt, asks-lt, asks-gte_fraction,
  asks-lte_fraction,
}
use policy_assignment_system.Narrowing.{
  CandidateFilter, as_string_list, nonempty, pushed_values, in_column, is_manager_as, not_before,
  not_after, push_texts, push_manager, push_tenure, push_bound, with_column, hire_date_for_tenure,
  whole_days,
}
use policy_assignment_system.Narrowing.Laws.{
  ColumnListed, value_of, column-Listed, intersect-in_column, earlier-not_after, later-not_before,
  days_before-le, days_before-ge, whole_days-le, whole_days-ge, succ-le, le-pred,
}

-- The bounds that the query may get wrong: more, or less, than a number of days that is not whole.
unfoldable pub is_strict_fraction : ConditionOperator → ConditionValue → Bool
is_strict_fraction gt (single (fraction s n)) = true
is_strict_fraction lt (single (fraction s n)) = true
is_strict_fraction _ _ = false

-- What the groups of a filter say of an employee that matches: all are theirs or, once a list has
-- been pushed, some is.
abbrev pub Fits : Bool → Option (List String) → List String → Type 0
Fits wide none ids = Unit
Fits wide (some gs) ids =
    ((g : String) → In g gs → In g ids) ⊎ ((wide ≡ true) × ((g : String) × In g gs × In g ids))

pub record Admits (wide : Bool) (f : CandidateFilter) (context : EmployeeContext) (hired : ℕ)
    : Type 0 where
  pub departments : in_column f.departments context.department_name ≡ true
  pub states : in_column f.states context.state_name ≡ true
  pub countries : in_column f.countries context.country_name ≡ true
  pub locations : in_column f.locations context.location_name ≡ true
  pub employment_types : in_column f.employment_types (some context.employment) ≡ true
  pub roles : in_column f.roles context.role_name ≡ true
  pub manager : is_manager_as f.manager context.manages ≡ true
  pub from : not_before f.hire_date_from hired ≡ true
  pub to : not_after f.hire_date_to hired ≡ true
  pub groups : Fits wide f.groups context.group_ids

abbrev pub AdmitsOption : Bool → Option CandidateFilter → EmployeeContext → ℕ → Type 0
AdmitsOption wide none context hired = Unit
AdmitsOption wide (some f) context hired = Admits wide f context hired

abbrev pub Pushed : Option (List String) → Option String → Type 0
Pushed none column = Unit
Pushed (some ss) column = ColumnListed (some ss) column

Pushed-of_Listed :
    (o : Option (List String)) (column : Option String) → ColumnListed o column → Pushed o column
Pushed-of_Listed none column h = tt
Pushed-of_Listed (some ss) column h = h

pub pushed_values-Pushed :
    (attribute : ConditionAttribute) (op : ConditionOperator) (value : ConditionValue)
    (context : EmployeeContext) (column : Option String)
    → is_column attribute ≡ true
    → value_of (read_attribute attribute context) ≡ column
    → asks attribute context op value ≡ true
    → Pushed (pushed_values op value) column
unfolding pushed_values
pushed_values-Pushed attribute eq value context column c e h =
    Pushed-of_Listed (nonempty (as_string_list value)) column (
      column-Listed value (read_attribute attribute context) column e
        (asks-NamesValue attribute eq value context c (inl refl) h))
pushed_values-Pushed attribute is_in value context column c e h =
    Pushed-of_Listed (nonempty (as_string_list value)) column (
      column-Listed value (read_attribute attribute context) column e
        (asks-NamesValue attribute is_in value context c (inr refl) h))
pushed_values-Pushed attribute neq value context column c e h = tt
pushed_values-Pushed attribute not_in value context column c e h = tt
pushed_values-Pushed attribute gte value context column c e h = tt
pushed_values-Pushed attribute lte value context column c e h = tt
pushed_values-Pushed attribute gt value context column c e h = tt
pushed_values-Pushed attribute lt value context column c e h = tt

module _ (wide more : Bool) (f : CandidateFilter) (context : EmployeeContext) (hired : ℕ)
    (a : Admits (wide || more) f context hired) where
  pub department-Admits :
      (o : Option (List String))
      → Pushed o context.department_name
      → AdmitsOption (wide || more) (push_texts department o f) context hired
  unfolding push_texts with_column
  department-Admits none h = tt
  department-Admits (some ss) h = record {
    departments = intersect-in_column f.departments ss context.department_name a.departments h;
    states = a.states;
    countries = a.countries;
    locations = a.locations;
    employment_types = a.employment_types;
    roles = a.roles;
    manager = a.manager;
    from = a.from;
    to = a.to;
    groups = a.groups;
  }

  pub state-Admits :
      (o : Option (List String))
      → Pushed o context.state_name
      → AdmitsOption (wide || more) (push_texts state o f) context hired
  unfolding push_texts with_column
  state-Admits none h = tt
  state-Admits (some ss) h = record {
    departments = a.departments;
    states = intersect-in_column f.states ss context.state_name a.states h;
    countries = a.countries;
    locations = a.locations;
    employment_types = a.employment_types;
    roles = a.roles;
    manager = a.manager;
    from = a.from;
    to = a.to;
    groups = a.groups;
  }

  pub country-Admits :
      (o : Option (List String))
      → Pushed o context.country_name
      → AdmitsOption (wide || more) (push_texts country o f) context hired
  unfolding push_texts with_column
  country-Admits none h = tt
  country-Admits (some ss) h = record {
    departments = a.departments;
    states = a.states;
    countries = intersect-in_column f.countries ss context.country_name a.countries h;
    locations = a.locations;
    employment_types = a.employment_types;
    roles = a.roles;
    manager = a.manager;
    from = a.from;
    to = a.to;
    groups = a.groups;
  }

  pub location-Admits :
      (o : Option (List String))
      → Pushed o context.location_name
      → AdmitsOption (wide || more) (push_texts location o f) context hired
  unfolding push_texts with_column
  location-Admits none h = tt
  location-Admits (some ss) h = record {
    departments = a.departments;
    states = a.states;
    countries = a.countries;
    locations = intersect-in_column f.locations ss context.location_name a.locations h;
    employment_types = a.employment_types;
    roles = a.roles;
    manager = a.manager;
    from = a.from;
    to = a.to;
    groups = a.groups;
  }

  pub employment_type-Admits :
      (o : Option (List String))
      → Pushed o (some context.employment)
      → AdmitsOption (wide || more) (push_texts employment_type o f) context hired
  unfolding push_texts with_column
  employment_type-Admits none h = tt
  employment_type-Admits (some ss) h = record {
    departments = a.departments;
    states = a.states;
    countries = a.countries;
    locations = a.locations;
    employment_types =
        intersect-in_column f.employment_types ss (some context.employment) a.employment_types h;
    roles = a.roles;
    manager = a.manager;
    from = a.from;
    to = a.to;
    groups = a.groups;
  }

  pub role-Admits :
      (o : Option (List String))
      → Pushed o context.role_name
      → AdmitsOption (wide || more) (push_texts role o f) context hired
  unfolding push_texts with_column
  role-Admits none h = tt
  role-Admits (some ss) h = record {
    departments = a.departments;
    states = a.states;
    countries = a.countries;
    locations = a.locations;
    employment_types = a.employment_types;
    roles = intersect-in_column f.roles ss context.role_name a.roles h;
    manager = a.manager;
    from = a.from;
    to = a.to;
    groups = a.groups;
  }

  pub manager-Admits :
      (op : ConditionOperator) (value : ConditionValue)
      → asks is_manager context op value ≡ true
      → AdmitsOption (wide || more) (push_manager op value f) context hired
  unfolding push_manager is_manager_as
  manager-Admits eq (single (bool b)) h = record {
    departments = a.departments;
    states = a.states;
    countries = a.countries;
    locations = a.locations;
    employment_types = a.employment_types;
    roles = a.roles;
    manager = same b context.manages (asks-manager b context h);
    from = a.from;
    to = a.to;
    groups = a.groups;
  }
    where
      same : (b m : Bool) → m ≡ b → is_manager_as (some b) m ≡ true
      same true m e = e
      same false m e = ap not e
  manager-Admits eq (single (text s)) h = tt
  manager-Admits eq (single (num n)) h = tt
  manager-Admits eq (single (fraction s n)) h = tt
  manager-Admits eq (many items) h = tt
  manager-Admits neq value h = tt
  manager-Admits is_in value h = tt
  manager-Admits not_in value h = tt
  manager-Admits gte value h = tt
  manager-Admits lte value h = tt
  manager-Admits gt value h = tt
  manager-Admits lt value h = tt

  module _ (as_of : ℕ) (past : hired ≤ as_of) (tenure : context.tenure ≡ as_of - hired) where
    pub tenure-Admits :
        (op : ConditionOperator) (value : ConditionValue)
        → is_strict_fraction op value ≡ false
        → asks tenure_days context op value ≡ true
        → AdmitsOption (wide || more) (push_tenure as_of op value f) context hired
    unfolding push_tenure push_bound hire_date_for_tenure whole_days is_strict_fraction
    tenure-Admits gte (single (num n)) exact h = record {
      departments = a.departments;
      states = a.states;
      countries = a.countries;
      locations = a.locations;
      employment_types = a.employment_types;
      roles = a.roles;
      manager = a.manager;
      from = a.from;
      to =
          earlier-not_after as_of hired past f.hire_date_to _ a.to
            (days_before-le as_of hired past n (rw tenure at (asks-gte n context h)));
      groups = a.groups;
    }
    tenure-Admits gt (single (num n)) exact h = record {
      departments = a.departments;
      states = a.states;
      countries = a.countries;
      locations = a.locations;
      employment_types = a.employment_types;
      roles = a.roles;
      manager = a.manager;
      from = a.from;
      to = earlier-not_after as_of hired past f.hire_date_to _ a.to (
          days_before-le as_of hired past (succ n)
            (succ-le n (pos (as_of - hired)) (rw tenure at (asks-gt n context h))));
      groups = a.groups;
    }
    tenure-Admits lte (single (num n)) exact h = record {
      departments = a.departments;
      states = a.states;
      countries = a.countries;
      locations = a.locations;
      employment_types = a.employment_types;
      roles = a.roles;
      manager = a.manager;
      from =
          later-not_before as_of hired past f.hire_date_from _ a.from
            (days_before-ge as_of hired past n (rw tenure at (asks-lte n context h)));
      to = a.to;
      groups = a.groups;
    }
    tenure-Admits lt (single (num n)) exact h = record {
      departments = a.departments;
      states = a.states;
      countries = a.countries;
      locations = a.locations;
      employment_types = a.employment_types;
      roles = a.roles;
      manager = a.manager;
      from = later-not_before as_of hired past f.hire_date_from _ a.from (
          days_before-ge as_of hired past (pred n)
            (le-pred n (pos (as_of - hired)) (rw tenure at (asks-lt n context h))));
      to = a.to;
      groups = a.groups;
    }
    tenure-Admits gte (single (fraction s n)) exact h = record {
      departments = a.departments;
      states = a.states;
      countries = a.countries;
      locations = a.locations;
      employment_types = a.employment_types;
      roles = a.roles;
      manager = a.manager;
      from = a.from;
      to = earlier-not_after as_of hired past f.hire_date_to _ a.to (
          days_before-le as_of hired past (whole_days as_of n true) (
            whole_days-le as_of n (pos (as_of - hired))
              (rw tenure at (asks-gte_fraction s n context h))));
      groups = a.groups;
    }
    tenure-Admits lte (single (fraction s n)) exact h = record {
      departments = a.departments;
      states = a.states;
      countries = a.countries;
      locations = a.locations;
      employment_types = a.employment_types;
      roles = a.roles;
      manager = a.manager;
      from = later-not_before as_of hired past f.hire_date_from _ a.from (
          days_before-ge as_of hired past (whole_days as_of n true) (
            whole_days-ge as_of n (pos (as_of - hired))
              (rw tenure at (asks-lte_fraction s n context h))));
      to = a.to;
      groups = a.groups;
    }
    tenure-Admits eq (single (num n)) exact h = tt
    tenure-Admits neq (single (num n)) exact h = tt
    tenure-Admits is_in (single (num n)) exact h = tt
    tenure-Admits not_in (single (num n)) exact h = tt
    tenure-Admits gt (single (fraction s n)) exact h = cc exact
    tenure-Admits lt (single (fraction s n)) exact h = cc exact
    tenure-Admits eq (single (fraction s n)) exact h = tt
    tenure-Admits neq (single (fraction s n)) exact h = tt
    tenure-Admits is_in (single (fraction s n)) exact h = tt
    tenure-Admits not_in (single (fraction s n)) exact h = tt
    tenure-Admits op (single (text s)) exact h = tt
    tenure-Admits op (single (bool b)) exact h = tt
    tenure-Admits op (many items) exact h = tt
