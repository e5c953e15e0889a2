-- ===== src/Employees/Sync.antt =====
-- apps/api/src/services/employee.ts: `syncManagerFlags` makes the flags of the managers that it is given
-- agree with the org chart, and leaves the other flags as they are.
use policy_assignment_system.Prelude.{
  String, ◌≡◌, refl, sym, ap, ◌∙◌, subst, ◌⊎◌, inl, inr, Bool, true, false, Bool-cases, Bool-clash,
  Option-cases, none, some, List, [], ◌∷◌, map, ltb, In, In-of_map, arith, if◌then◌else◌,
}
use policy_assignment_system.Dates.{Date}
use policy_assignment_system.Rules.Writes.{eq_enabled}
use policy_assignment_system.Employees.{
  Employee, is_row, find_employee, counts_for, count_direct_reports,
}
use policy_assignment_system.Employees.Service.{
  EmployeeStore, EmployeeEnv, set_is_manager, sync_manager_flag, sync_each,
}
use policy_assignment_system.Employees.Flags.{
  FlagIsRight, IsConsistent, IsConsistentBut, count-map, keyed-map, is_row_iff, find_employee_sound,
  find_employee_complete,
}

module _ (organization_id : String) (manager_id : String) (ids : List String)
    (rows : List Employee) where
  -- The manager whose flag is to be set is not listed, or has the right flag already.
  settled-but :
      IsConsistentBut organization_id (manager_id ∷ ids) rows
      → ((row : Employee)
          → In row rows
          → row.id ≡ manager_id
          → row.organization_id ≡ organization_id
          → FlagIsRight rows row)
      → IsConsistentBut organization_id ids rows
  settled-but ok right = record {
    keyed = ok.keyed;
    flags = λ row m. elim (ok.flags row m) [
      | inl (o, inl same) ↦ inr (right row m same o)
      | inl (o, inr listed) ↦ inl (o, listed)
      | inr already ↦ inr already
    ];
  }

  value : Bool
  value = ltb 0 (count_direct_reports organization_id manager_id rows)

  set_row : Employee → Employee
  set_row row =
      if is_row organization_id manager_id row then record row { is_manager = value } else row

  set_row-hit :
      (row : Employee)
      → is_row organization_id manager_id row ≡ true
      → set_row row ≡ record row { is_manager = value }
  unfolding set_row
  set_row-hit row hit = rw hit refl

  set_row-miss :
      (row : Employee) → is_row organization_id manager_id row ≡ false → set_row row ≡ row
  unfolding set_row
  set_row-miss row miss = rw miss refl

  set_row-cases :
      (row : Employee)
      → ((set_row row ≡ record row { is_manager = value })
          × (row.id ≡ manager_id)
          × (row.organization_id ≡ organization_id))
        ⊎ ((set_row row ≡ row)
            × ¬ ((row.id ≡ manager_id) × (row.organization_id ≡ organization_id)))
  set_row-cases row = elim (Bool-cases (is_row organization_id manager_id row)) [
    | inl hit ↦
        let (e, f) = (is_row_iff organization_id manager_id row).0 hit in
        inl (set_row-hit row hit, e, f)
    | inr miss ↦ inr (
      set_row-miss row miss,
      λ (e, f). Bool-clash miss ((is_row_iff organization_id manager_id row).1 (e, f)),
    )
  ]

  set_row-counts :
      (o m : String) (row : Employee) → counts_for o m (set_row row) ≡ counts_for o m row
  set_row-counts o m row = elim (set_row-cases row) [
    | inl (e, _, _) ↦ rw e refl
    | inr (e, _) ↦ ap (counts_for o m) e
  ]

  set_row-id : (row : Employee) → (set_row row).id ≡ row.id
  set_row-id row = elim (set_row-cases row) [
    | inl (e, _, _) ↦ ap (λ x. x.id) e
    | inr (e, _) ↦ ap (λ x. x.id) e
  ]

  same_count :
      (o m : String) → count_direct_reports o m (map set_row rows) ≡ count_direct_reports o m rows
  same_count o m = count-map set_row o m rows (λ row _. set_row-counts o m row)

  -- Right for the rows that are left, or still listed.
  abbrev Settled : Employee → Type 0
  Settled row =
      ((row.organization_id ≡ organization_id) × In row.id ids) ⊎ FlagIsRight (map set_row rows) row

  set_row-Settled :
      IsConsistentBut organization_id (manager_id ∷ ids) rows
      → (old : Employee) → In old rows
      → Settled (set_row old)
  unfolding value
  set_row-Settled ok old n = elim (set_row-cases old) [
    | inl (e, same_id, same_org) ↦ subst Settled (sym e) (inr (now_right same_id same_org))
    | inr (e, other) ↦ subst Settled (sym e) (elim (ok.flags old n) [
      | inl (o, inl same) ↦ absurd (other (same, o))
      | inl (o, inr listed) ↦ inl (o, listed)
      | inr right ↦ inr (right ∙ sym (ap (ltb 0) (same_count old.organization_id old.id)))
    ])
  ]
    where
      now_right :
          old.id ≡ manager_id
          → old.organization_id ≡ organization_id
          → value ≡ ltb 0 (count_direct_reports old.organization_id old.id (map set_row rows))
      now_right e f = sym (
          ap (ltb 0) (
            same_count old.organization_id old.id
            ∙ (ap (λ o. count_direct_reports o old.id rows) f
                ∙ ap (λ m. count_direct_reports organization_id m rows) e)))

  set-IsConsistentBut :
      IsConsistentBut organization_id (manager_id ∷ ids) rows
      → IsConsistentBut organization_id ids (map set_row rows)
  set-IsConsistentBut ok = record {
    keyed = keyed-map set_row rows set_row-id ok.keyed;
    flags = λ row m.
        let (old, n, e) = In-of_map set_row rows m in
        subst Settled (sym e) (set_row-Settled ok old n);
  }

eq_enabled_sound : (a b : Bool) → eq_enabled a b ≡ true → a ≡ b
eq_enabled_sound a b h = ground arith

module _ (env : EmployeeEnv) (organization_id actor_id : String) (effective_from : Date)
    (manager_id : String) (store : EmployeeStore) where
  abbrev pub synced : List Employee
  synced =
      (sync_manager_flag env organization_id actor_id effective_from manager_id store).employees

  abbrev pub should_manage : Bool
  should_manage = ltb 0 (count_direct_reports organization_id manager_id store.employees)

  pub synced-missing :
      find_employee organization_id manager_id store.employees ≡ none → synced ≡ store.employees
  unfolding sync_manager_flag
  synced-missing nobody = rw (synced, sync_manager_flag, nobody) refl

  pub synced-same :
      (before : Employee)
      → find_employee organization_id manager_id store.employees ≡ some before
      → eq_enabled before.is_manager should_manage ≡ true
      → synced ≡ store.employees
  unfolding sync_manager_flag
  synced-same before found same = rw (synced, sync_manager_flag, found, same) refl

  pub synced-set :
      (before : Employee)
      → find_employee organization_id manager_id store.employees ≡ some before
      → eq_enabled before.is_manager should_manage ≡ false
      → synced ≡ set_is_manager organization_id manager_id should_manage store.employees
  unfolding sync_manager_flag
  synced-set before found differs = rw (synced, sync_manager_flag, found, differs) refl

  -- One more manager's flag agrees with the chart.
  sync_manager_flag-IsConsistentBut :
      (ids : List String)
      → IsConsistentBut organization_id (manager_id ∷ ids) store.employees
      → IsConsistentBut organization_id ids synced
  unfolding set_row value
  sync_manager_flag-IsConsistentBut ids ok =
      elim (Option-cases (find_employee organization_id manager_id store.employees)) [
        | inl nobody ↦ subst (IsConsistentBut organization_id ids) (sym (synced-missing nobody)) (
            settled-but organization_id manager_id ids store.employees ok (λ row m e f.
              absurd (
                find_employee_complete organization_id manager_id store.employees row m e f
                  nobody)))
        | inr (before, found) ↦ elim (Bool-cases (eq_enabled before.is_manager should_manage)) [
          | inr differs ↦
              subst (IsConsistentBut organization_id ids) (sym (synced-set before found differs))
                (set-IsConsistentBut organization_id manager_id ids store.employees ok)
          | inl same ↦
              subst (IsConsistentBut organization_id ids) (sym (synced-same before found same)) (
                settled-but organization_id manager_id ids store.employees ok
                  (λ row m e f. already before found same row m e f))
        ]
      ]
    where
      already :
          (before : Employee)
          → find_employee organization_id manager_id store.employees ≡ some before
          → eq_enabled before.is_manager should_manage ≡ true
          → (row : Employee) → In row store.employees
          → row.id ≡ manager_id
          → row.organization_id ≡ organization_id
          → FlagIsRight store.employees row
      already before found same row m e f =
          let (n, g, _) = find_employee_sound organization_id manager_id store.employees found in
          let one = ok.keyed row before m n (e ∙ sym g) in
          ap (λ x. x.is_manager) one
          ∙ (eq_enabled_sound before.is_manager should_manage same
              ∙ sym (
                  ap (ltb 0) (
                    ap (λ o. count_direct_reports o row.id store.employees) f
                    ∙ ap (λ x. count_direct_reports organization_id x store.employees) e)))

-- All the managers' flags agree with the chart afterwards.
pub sync_each-IsConsistent :
    (env : EmployeeEnv) (organization_id actor_id : String) (effective_from : Date)
    (ids : List String) (store : EmployeeStore)
    → IsConsistentBut organization_id ids store.employees
    → IsConsistent (sync_each env organization_id actor_id effective_from ids store).employees
unfolding sync_each
sync_each-IsConsistent env organization_id actor_id effective_from [] store ok = record {
  keyed = ok.keyed;
  flags =
      λ row m. elim (ok.flags row m) [ inl (_, nowhere) ↦ elim nowhere [ ] | inr right ↦ right ];
}
sync_each-IsConsistent env organization_id actor_id effective_from (id ∷ ids) store ok =
    sync_each-IsConsistent env organization_id actor_id effective_from ids
      (sync_manager_flag env organization_id actor_id effective_from id store)
      (sync_manager_flag-IsConsistentBut env organization_id actor_id effective_from id store ids
        ok)
