-- ===== src/Reconcile/Decisions.antt =====
-- The decision log of a run.
use mathlib.Core.List.{Perm}
use policy_assignment_system.Prelude.{
  String, ◌≡◌, refl, ap, ◌∙◌, Option, some, List, [], ◌∷◌, ◌++◌, map, keep,
}
use policy_assignment_system.Dates.{Date}
use policy_assignment_system.Engine.{EngineEmployee, ResolutionResult, RuleTrailEntry}
use policy_assignment_system.Engine.Resolve.Trail.{resolve-trail-perm}
use policy_assignment_system.Assignments.{Assignment, find_for_employee_as_of}
use policy_assignment_system.Reconcile.Writes.{inserted_all}
use policy_assignment_system.Reconcile.Refusals.{completed, materialize-some}
use policy_assignment_system.Reconcile.Current.{to_remove, to_create, closed, written}
use policy_assignment_system.Reconcile.{
  Loads, Store, is_desired, ResolutionEvent, close_one, close_all, inserted_one, log_run,
  decision_for, evaluate, materialize, ReconciliationResult,
}

module _ (organization_id : String) (actor_id : Option String) (employee_id : String)
    (as_of : Date) where
  close_all-events :
      (removed : List Assignment) (store : Store)
      → (close_all organization_id actor_id employee_id as_of removed store).events ≡ store.events
  unfolding close_all close_one
  close_all-events [] store = refl
  close_all-events (r ∷ removed) store = close_all-events removed _

  inserted_all-events :
      (new_id : List Assignment → String) (winners : List _) (store : Store)
      → (inserted_all organization_id actor_id employee_id as_of new_id winners store).0.events
        ≡ store.events
  unfolding inserted_all inserted_one
  inserted_all-events new_id [] store = refl
  inserted_all-events new_id (w ∷ winners) store = inserted_all-events new_id winners _

decisions-rule_ids :
    (employee_id : String) (at : Date) (rows : List Assignment) (trail : List RuleTrailEntry)
    → map (λ d. d.rule_id) (map (decision_for employee_id at rows) trail)
      ≡ map (λ e. e.rule_id) trail
unfolding decision_for
decisions-rule_ids employee_id at rows [] = refl
decisions-rule_ids employee_id at rows (e ∷ trail) =
    ap (λ ids. e.rule_id ∷ ids) (decisions-rule_ids employee_id at rows trail)

completed-events :
    (new_id : List Assignment → String) (organization_id : String) (actor_id : Option String)
    (employee_id : String) (resolution : ResolutionResult) (as_of evaluated_at : Date)
    (store : Store)
    → (rows : List Assignment) × ((completed new_id organization_id actor_id employee_id resolution
          as_of evaluated_at store).0.events
        ≡ store.events ++ map (decision_for employee_id evaluated_at rows) resolution.trail)
unfolding log_run
completed-events new_id organization_id actor_id employee_id resolution as_of evaluated_at store =
    let winners = resolution.winners in
    let table = store.assignments in
    let removed = to_remove new_id organization_id actor_id employee_id winners as_of table in
    let added = to_create new_id organization_id actor_id employee_id winners as_of table in
    let between = closed new_id organization_id actor_id employee_id winners as_of store in
    let rows =
      (written new_id organization_id actor_id employee_id winners as_of store).1
      ++ keep (is_desired winners)
          (find_for_employee_as_of organization_id employee_id as_of table) in
    (
      rows,
      ap (λ events. events ++ map (decision_for employee_id evaluated_at rows) resolution.trail)
          (inserted_all-events organization_id actor_id employee_id as_of new_id added between
            ∙ close_all-events organization_id actor_id employee_id as_of removed store),
    )

-- A run of the transaction that is not rolled back appends to the decision log one row for each rule
-- that was considered, exactly as often as the rules list it, and touches no row that was there.
pub materialize_logs_each_rule :
    (new_id : List Assignment → String) (organization_id : String) (actor_id : Option String)
    (employee_id : String) (employee : EngineEmployee) (loads : Loads) (as_of evaluated_at : Date)
    (store after : Store) (result : ReconciliationResult)
    → materialize new_id organization_id actor_id employee_id
        (evaluate employee loads as_of)
        as_of
        evaluated_at
        store
      ≡ some (after, result)
    → (decisions : List ResolutionEvent) × (after.events ≡ store.events ++ decisions)
      × Perm (map (λ d. d.rule_id) decisions) (map (λ r. r.id) loads.rules)
unfolding evaluate
materialize_logs_each_rule new_id organization_id actor_id employee_id employee loads as_of
      evaluated_at store after result ran =
    let (rows, e) =
      completed-events new_id organization_id actor_id employee_id (evaluate employee loads as_of)
        as_of evaluated_at store in
    let left =
      materialize-some new_id organization_id actor_id employee_id (evaluate employee loads as_of)
        as_of evaluated_at store (after, result) ran in
    (_, ap (λ out. out.0.events) left ∙ e, rw decisions-rule_ids (resolve-trail-perm _))
