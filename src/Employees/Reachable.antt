-- ===== src/Employees/Reachable.antt =====
-- apps/api/src/services/employee.ts: requests one after another keep every flag right.
use policy_assignment_system.Prelude.{
  String, ◌≡◌, refl, sym, ◌∙◌, subst, ◌↔◌, inl, true, ◌&&◌, Option, none, some, List, [], ◌∷◌, keep,
  length, ltb, In, In-keep, In-of_keep, arith, str_eq, eq_iff,
}
use policy_assignment_system.Dates.{Date}
use policy_assignment_system.Employees.{
  EmploymentStatus, active, terminated, Employee, is_active, reports_to, counts_for,
  count_direct_reports,
}
use policy_assignment_system.Employees.Service.{
  UpdateEmployeeRecord, EmployeeStore, EmployeeEnv, done,
}
use policy_assignment_system.Employees.Requests.{CreateEmployeeInput, create_employee, apply_update}
use policy_assignment_system.Employees.Termination.{terminate}
use policy_assignment_system.Employees.Flags.{IsConsistent}
use policy_assignment_system.Employees.Laws.{
  Leaves, IsFresh, create_employee-Leaves, apply_update-Leaves, terminate-Leaves,
}

-- Somebody of the organization who is active names the employee as their manager.
abbrev pub HasReport : String → String → List Employee → Type 0
HasReport organization_id id rows =
    (report : Employee) × In report rows
    × (report.organization_id ≡ organization_id)
    × (report.manager_id ≡ some id)
    × (report.status ≡ active)

counts_for_iff :
    (organization_id id : String) (row : Employee)
    → (counts_for organization_id id row ≡ true) ↔ (
        (row.organization_id ≡ organization_id)
        × (row.manager_id ≡ some id)
        × (row.status ≡ active))
counts_for_iff organization_id id row = by_fields row.manager_id row.status
  where
    by_fields :
        (manager : Option String) (status : EmploymentStatus)
        → ((str_eq row.organization_id organization_id && reports_to manager id && is_active status)
            ≡ true)
          ↔ ((row.organization_id ≡ organization_id) × (manager ≡ some id) × (status ≡ active))
    by_fields none status = ground arith
    by_fields (some m) active =
        ground (arith, eq_iff row.organization_id organization_id, eq_iff m id)
    by_fields (some m) terminated = ground arith

-- The stores that requests lead to from one without employees.
pub data Reachable : EmployeeStore → Type 0 where
  start : {store : EmployeeStore} → (store.employees ≡ []) → Reachable store
  create_step :
      {store next : EmployeeStore}
      → Reachable store
      → (env : EmployeeEnv) (organization_id actor_id : String) (input : CreateEmployeeInput)
        (row : Employee)
      → IsFresh env store
      → create_employee env organization_id actor_id input store ≡ done row next
      → Reachable next
  update_step :
      {store next : EmployeeStore}
      → Reachable store
      → (env : EmployeeEnv) (organization_id actor_id id : String) (patch : UpdateEmployeeRecord)
        (effective_from : Option Date) (row : Employee)
      → apply_update env organization_id actor_id id patch effective_from store ≡ done row next
      → Reachable next
  terminate_step :
      {store next : EmployeeStore}
      → Reachable store
      → (env : EmployeeEnv) (organization_id actor_id id : String) (terminated_on : Option Date)
        (row : Employee)
      → terminate env organization_id actor_id id terminated_on store ≡ done row next
      → Reachable next

Reachable-counted : {store : EmployeeStore} → Reachable store → IsConsistent store.employees
Reachable-counted (start e) = rw e nothing_yet
  where
    nothing_yet : IsConsistent []
    nothing_yet = record { keyed = λ r s m. elim m [ ]; flags = λ row m. elim m [ ] }
Reachable-counted (create_step before env organization_id actor_id input row fresh e) =
    subst Leaves e
      (create_employee-Leaves env organization_id actor_id _ (Reachable-counted before) fresh input)
Reachable-counted (update_step before env organization_id actor_id id patch effective_from row e) =
    subst Leaves e (
      apply_update-Leaves env organization_id actor_id _ (Reachable-counted before) id patch
        effective_from)
Reachable-counted (terminate_step before env organization_id actor_id id terminated_on row e) =
    subst Leaves e
      (terminate-Leaves env organization_id actor_id _ (Reachable-counted before) id terminated_on)

counted_iff :
    (organization_id id : String) (rows : List Employee)
    → (ltb 0 (count_direct_reports organization_id id rows) ≡ true)
      ↔ HasReport organization_id id rows
counted_iff organization_id id rows = (
  λ h.
      let (row, m) = nonempty (keep (counts_for organization_id id) rows) h in
      let (n, e) = In-of_keep (counts_for organization_id id) rows m in
      let (o, r, a) = (counts_for_iff organization_id id row).0 e in (row, n, o, r, a),
  λ (row, n, o, r, a). inhabited row (keep (counts_for organization_id id) rows) (
      In-keep (counts_for organization_id id) rows n
        ((counts_for_iff organization_id id row).1 (o, r, a))),
)
  where
    nonempty : (found : List Employee) → ltb 0 (length found) ≡ true → (r : Employee) × In r found
    nonempty [] h = cc h
    nonempty (r ∷ found) h = (r, inl refl)

    inhabited : (r : Employee) (found : List Employee) → In r found → ltb 0 (length found) ≡ true
    inhabited r [] m = elim m [ ]
    inhabited r (s ∷ found) m = ground arith

-- In every store that requests lead to, there is one row for each id, and `isManager` is set on a row
-- exactly if some employee of its organization who is not terminated names it as their manager.
pub Reachable-IsConsistent :
    {store : EmployeeStore}
    → Reachable store
    → ((r s : Employee) → In r store.employees → In s store.employees → r.id ≡ s.id → r ≡ s)
      × ((row : Employee)
          → In row store.employees
          → (row.is_manager ≡ true) ↔ HasReport row.organization_id row.id store.employees)
Reachable-IsConsistent {store} reached =
    let ok = Reachable-counted reached in
    (
      ok.keyed,
      λ row m.
          let (to, from) = counted_iff row.organization_id row.id store.employees in
          (λ h. to (sym (ok.flags row m) ∙ h), λ h. ok.flags row m ∙ from h),
    )
