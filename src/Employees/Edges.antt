-- ===== src/Employees/Edges.antt =====
-- apps/api/src/services/employee.ts: `syncManagerFlags` moves no edge of the org chart.
use policy_assignment_system.Prelude.{
  String, ◌≡◌, refl, sym, ap, ◌∙◌, subst, inl, inr, Bool, Bool-cases, Option-cases, List, [], ◌∷◌,
  In, In-of_map,
}
use policy_assignment_system.Dates.{Date}
use policy_assignment_system.Rules.Writes.{eq_enabled}
use policy_assignment_system.Employees.{Employee, is_row, find_employee}
use policy_assignment_system.Employees.Service.{
  EmployeeStore, EmployeeEnv, set_is_manager, sync_manager_flag, sync_each,
}
use policy_assignment_system.Employees.Sync.{synced-missing, synced-same, synced-set, should_manage}

-- The rows of a table come from those of another, with the same edges.
abbrev pub HasSameEdges : List Employee → List Employee → Type 0
HasSameEdges rows next =
    (row : Employee)
    → In row next
    → (old : Employee) × In old rows
      × (old.id ≡ row.id)
      × (old.organization_id ≡ row.organization_id)
      × (old.manager_id ≡ row.manager_id)

set_is_manager-HasSameEdges :
    (organization_id manager_id : String) (flag : Bool) (rows : List Employee)
    → HasSameEdges rows (set_is_manager organization_id manager_id flag rows)
set_is_manager-HasSameEdges organization_id manager_id flag rows row m =
    let (old, n, e) = In-of_map _ rows m in
    elim (Bool-cases (is_row organization_id manager_id old)) [
      | inl hit ↦
          let set : row ≡ record old { is_manager = flag } = e ∙ (rw hit refl) in
          (
            old,
            n,
            sym (ap (λ x. x.id) set),
            sym (ap (λ x. x.organization_id) set),
            sym (ap (λ x. x.manager_id) set),
          )
      | inr miss ↦
          let left : row ≡ old = e ∙ (rw miss refl) in
          (
            old,
            n,
            sym (ap (λ x. x.id) left),
            sym (ap (λ x. x.organization_id) left),
            sym (ap (λ x. x.manager_id) left),
          )
    ]

sync_manager_flag-HasSameEdges :
    (env : EmployeeEnv) (organization_id actor_id : String) (effective_from : Date)
    (manager_id : String) (store : EmployeeStore)
    → HasSameEdges store.employees
        (sync_manager_flag env organization_id actor_id effective_from manager_id store).employees
sync_manager_flag-HasSameEdges env organization_id actor_id effective_from manager_id store =
    elim (Option-cases (find_employee organization_id manager_id store.employees)) [
      | inl nobody ↦
          subst (HasSameEdges store.employees)
            (sym
              (synced-missing env organization_id actor_id effective_from manager_id store nobody))
            (λ row m. (row, m, refl, refl, refl))
      | inr (before, found) ↦
          elim (Bool-cases (
            eq_enabled before.is_manager
              (should_manage env organization_id actor_id effective_from manager_id store))) [
                | inl same ↦
                    subst (HasSameEdges store.employees)
                      (sym (
                        synced-same env organization_id actor_id effective_from manager_id store
                          before found same))
                      (λ row m. (row, m, refl, refl, refl))
                | inr differs ↦
                    subst (HasSameEdges store.employees)
                      (sym (
                        synced-set env organization_id actor_id effective_from manager_id store
                          before found differs))
                      (set_is_manager-HasSameEdges organization_id manager_id _ store.employees)
              ]
    ]

-- The flags are no edges.
pub sync_each-HasSameEdges :
    (env : EmployeeEnv) (organization_id actor_id : String) (effective_from : Date)
    (ids : List String) (store : EmployeeStore)
    → HasSameEdges store.employees
        (sync_each env organization_id actor_id effective_from ids store).employees
unfolding sync_each
sync_each-HasSameEdges env organization_id actor_id effective_from [] store row m =
    (row, m, refl, refl, refl)
sync_each-HasSameEdges env organization_id actor_id effective_from (id ∷ ids) store row m =
    let (middle, n, e, f, g) =
      sync_each-HasSameEdges env organization_id actor_id effective_from ids
        (sync_manager_flag env organization_id actor_id effective_from id store) row m in
    let (old, k, e', f', g') =
      sync_manager_flag-HasSameEdges env organization_id actor_id effective_from id store middle
        n in
    (old, k, e' ∙ e, f' ∙ f, g' ∙ g)
