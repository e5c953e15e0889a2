-- ===== src/Preview/Laws.antt =====
-- What the three lists of a preview hold.
use policy_assignment_system.Prelude.{
  String, ◌≡◌, refl, sym, ap, ◌∙◌, subst, ◌⊎◌, inl, inr, ◌↔◌, true, not, Bool-cases, List, [], ◌∷◌,
  keep, map, In, In-map, In-of_map, In-keep, In-of_keep, includes_iff, str_eq, eq_iff, arith,
}
use policy_assignment_system.Dates.{Date}
use policy_assignment_system.Engine.{EngineEmployee, ResolvedPolicy}
use policy_assignment_system.Reconcile.{Loads, evaluate}
use policy_assignment_system.Engine.Resolve.{resolve}
use policy_assignment_system.Preview.{
  or_else, EmployeeOverrides, with_changes, policy_key, set, collect, has_key, difference, preview,
}

abbrev pub keys : List ResolvedPolicy → List String
keys = map policy_key

set-keys_iff :
    (w : ResolvedPolicy) (values : List ResolvedPolicy) (k : String)
    → In k (keys (set w values)) ↔ ((k ≡ policy_key w) ⊎ In k (keys values))
unfolding set
set-keys_iff w [] k = (λ m. m, λ m. m)
set-keys_iff w (v ∷ values) k = elim (Bool-cases (str_eq (policy_key v) (policy_key w))) [
  | inl same ↦
      let e = (eq_iff (policy_key v) (policy_key w)).0 same in
      rw same (
        λ m. elim m [ inl f ↦ inl f | inr n ↦ inr (inr n) ],
        λ m. elim m [ inl f ↦ inl f | inr (inl f) ↦ inl (f ∙ e) | inr (inr n) ↦ inr n ],
      )
  | inr other ↦
      let (to, from) = set-keys_iff w values k in
      rw other (
        λ m. elim m [
          | inl f ↦ inr (inl f)
          | inr n ↦ elim (to n) [ inl f ↦ inl f | inr i ↦ inr (inr i) ]
        ],
        λ m. elim m [
          | inl f ↦ inr (from (inl f))
          | inr (inl f) ↦ inl f
          | inr (inr n) ↦ inr (from (inr n))
        ],
      )
]

collect-keys_iff :
    (winners values : List ResolvedPolicy) (k : String)
    → In k (keys (collect winners values)) ↔ (In k (keys winners) ⊎ In k (keys values))
unfolding collect
collect-keys_iff [] values k = (λ m. inr m, λ m. elim m [ inl n ↦ elim n [ ] | inr n ↦ n ])
collect-keys_iff (w ∷ winners) values k =
    let (to, from) = collect-keys_iff winners (set w values) k in
    let (put, unput) = set-keys_iff w values k in
    (
      λ m. elim (to m) [
        | inl n ↦ inl (inr n)
        | inr n ↦ elim (put n) [ inl e ↦ inl (inl e) | inr i ↦ inr i ]
      ],
      λ m. elim m [
        | inl (inl e) ↦ from (inr (unput (inl e)))
        | inl (inr n) ↦ from (inl n)
        | inr n ↦ from (inr (unput (inr n)))
      ],
    )

-- The keys of a Map are those of the winners it is made from.
collected_iff :
    (winners : List ResolvedPolicy) (k : String)
    → In k (keys (collect winners [])) ↔ In k (keys winners)
collected_iff winners k =
    let (to, from) = collect-keys_iff winners [] k in
    (λ m. elim (to m) [ inl n ↦ n | inr n ↦ elim n [ ] ], λ m. from (inl m))

module _ (values others : List ResolvedPolicy) (k : String) where
  kept_iff : In k (keys (keep (has_key others) values)) ↔ (In k (keys values) × In k (keys others))
  kept_iff = (
    λ m.
        let (w, n, e) = In-of_map policy_key _ m in
        let (i, h) = In-of_keep (has_key others) values n in
        (
          subst (λ x. In x (keys values)) (sym e) (In-map policy_key w values i),
          subst (λ x. In x (keys others)) (sym e) ((includes_iff (keys others) (policy_key w)).0 h),
        ),
    λ (m, n).
        let (w, i, e) = In-of_map policy_key values m in
        subst (λ x. In x (keys (keep (has_key others) values))) (sym e)
          (In-map policy_key w _ (
            In-keep (has_key others) values i (
              (includes_iff (keys others) (policy_key w)).1
                (subst (λ x. In x (keys others)) e n)))),
  )

  absent_of :
      (w : ResolvedPolicy) → not (has_key others w) ≡ true → ¬ In (policy_key w) (keys others)
  absent_of w h m = let there = (includes_iff (keys others) (policy_key w)).1 m in ground arith

  of_absent :
      (w : ResolvedPolicy) → ¬ In (policy_key w) (keys others) → not (has_key others w) ≡ true
  of_absent w h = elim (Bool-cases (has_key others w)) [
    | inl there ↦ absurd (h ((includes_iff (keys others) (policy_key w)).0 there))
    | inr missing ↦ ap not missing
  ]

  dropped_iff :
      In k (keys (keep (λ w. not (has_key others w)) values))
      ↔ (In k (keys values) × ¬ In k (keys others))
  dropped_iff = (
    λ m.
        let (w, n, e) = In-of_map policy_key _ m in
        let (i, h) = In-of_keep _ values n in
        (
          subst (λ x. In x (keys values)) (sym e) (In-map policy_key w values i),
          λ there. absent_of w h (subst (λ x. In x (keys others)) e there),
        ),
    λ (m, n).
        let (w, i, e) = In-of_map policy_key values m in
        subst (λ x. In x (keys (keep (λ v. not (has_key others v)) values))) (sym e)
          (In-map policy_key w _ (
            In-keep (λ v. not (has_key others v)) values i
              (of_absent w (λ there. n (subst (λ x. In x (keys others)) (sym e) there))))),
  )

module _ (before after : List ResolvedPolicy) (k : String) where
  collected_kept_iff :
      In k (keys (keep (has_key (collect before [])) (collect after [])))
      ↔ (In k (keys after) × In k (keys before))
  collected_kept_iff =
      let (to, from) = kept_iff (collect after []) (collect before []) k in
      (
        λ m. ((collected_iff after k).0 (to m).0, (collected_iff before k).0 (to m).1),
        λ (m, n). from ((collected_iff after k).1 m, (collected_iff before k).1 n),
      )

  collected_dropped_iff :
      In k (keys (keep (λ w. not (has_key (collect before []) w)) (collect after [])))
      ↔ (In k (keys after) × ¬ In k (keys before))
  collected_dropped_iff =
      let (to, from) = dropped_iff (collect after []) (collect before []) k in
      (
        λ m. ((collected_iff after k).0 (to m).0, λ n. (to m).1 ((collected_iff before k).1 n)),
        λ (m, n). from ((collected_iff after k).1 m, λ there. n ((collected_iff before k).0 there)),
      )

-- The employee with each changed attribute in place of their own.
abbrev pub changed : EngineEmployee → List String → EmployeeOverrides → EngineEmployee
changed employee group_ids changes = record {
  id = employee.id;
  department = or_else changes.department employee.department;
  state = or_else changes.state employee.state;
  country = or_else changes.country employee.country;
  location = or_else changes.location employee.location;
  employment_type = or_else changes.employment_type employee.employment_type;
  role = or_else changes.role employee.role;
  is_manager = or_else changes.is_manager employee.is_manager;
  hire_date = or_else changes.hire_date employee.hire_date;
  group_ids = or_else changes.group_ids group_ids;
}

-- A preview returns the resolution of the employee with each changed attribute in place of their own,
-- under the same rules and for the same day, and splits the policies by what the changes do: added
-- are those of its winners that are not among the winners of the employee as they are, removed those
-- of the latter that are not among the former, and unchanged those of both.
pub preview-keys_iff :
    (employee : EngineEmployee) (loads : Loads) (as_of : Date) (changes : EmployeeOverrides)
    (k : String)
    → let result = preview employee loads as_of changes in
      let before = keys (evaluate employee loads as_of).winners in
      let hypothetical = resolve (record {
        employee = changed employee loads.group_ids changes;
        rules = loads.rules;
        as_of = as_of;
      }) in
      let after = keys hypothetical.winners in
      (result.resolution ≡ hypothetical)
      × (In k (keys result.added) ↔ (In k after × ¬ In k before))
      × (In k (keys result.removed) ↔ (In k before × ¬ In k after))
      × (In k (keys result.unchanged) ↔ (In k after × In k before))
unfolding preview difference with_changes
preview-keys_iff employee loads as_of changes k =
    let before = (evaluate employee loads as_of).winners in
    let after = (preview employee loads as_of changes).resolution.winners in
    (
      refl,
      collected_dropped_iff before after k,
      collected_dropped_iff after before k,
      collected_kept_iff before after k,
    )
