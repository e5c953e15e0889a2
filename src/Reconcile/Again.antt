-- ===== src/Reconcile/Again.antt =====
-- Reconciliation converges in one run, unless the unique index stops it.
use policy_assignment_system.Prelude.{
  String, ◌≡◌, refl, sym, ap, ◌∙◌, subst, ◌⊎◌, inl, inr, ◌↔◌, Option, none, some, List, [], In,
  keep-none, map,
}
use policy_assignment_system.Dates.{Date}
use policy_assignment_system.Engine.{EngineEmployee, ResolutionResult}
use policy_assignment_system.Assignments.{Assignment, find_for_employee_as_of}
use policy_assignment_system.Reconcile.{
  Loads, Store, ReconciliationResult, Outcome, conflicted, done, working, assignment_key, close_all,
  create_all, log_run, evaluate, materialize, reconcile,
}
use policy_assignment_system.Reconcile.Refusals.{completed, materialize-cases}
use policy_assignment_system.Reconcile.Blocked.{IsBlocked, Stops-IsBlocked}
use policy_assignment_system.Reconcile.Current.{
  to_create, closed, Keyed, HasKey, written-wanted, written_complete, settled-to_remove,
  settled-to_create,
}

-- What `reconcile` makes of the transaction.
abbrev pub outcome_of : Option (Store × ReconciliationResult) → Outcome
outcome_of out = elim out [ none ↦ conflicted | some (final, result) ↦ done final result ]

module _ (new_id : List Assignment → String) (organization_id : String) (actor_id : Option String)
    (employee_id : String) where
  pub reconcile-working :
      (loads : Loads) (employee : EngineEmployee) (as_of evaluated_at : Date) (store : Store)
      → loads.employee ≡ some (working, employee)
      → reconcile new_id organization_id actor_id employee_id loads as_of evaluated_at store
        ≡ outcome_of (
            materialize new_id organization_id actor_id employee_id
              (evaluate employee loads as_of)
              as_of
              evaluated_at
              store)
  unfolding reconcile evaluate
  reconcile-working loads employee as_of evaluated_at store e = rw (reconcile, e) refl

  completed-HasKey_iff :
      (resolution : ResolutionResult) (as_of evaluated_at : Date) (store : Store)
      → Keyed store.assignments
      → (key : String)
      → HasKey organization_id employee_id as_of
          (completed new_id organization_id actor_id employee_id resolution as_of evaluated_at
            store).0.assignments
          key
        ↔ In key (map assignment_key resolution.winners)
  unfolding log_run
  completed-HasKey_iff resolution as_of evaluated_at store keyed key = (
    written-wanted new_id organization_id actor_id employee_id resolution.winners as_of store key,
    written_complete new_id organization_id actor_id employee_id resolution.winners as_of store
        keyed key,
  )

  abbrev Settled : ResolutionResult → Date → Store → Type 0
  Settled resolution as_of store =
      (key : String)
      → HasKey organization_id employee_id as_of store.assignments key
        ↔ In key (map assignment_key resolution.winners)

  abbrev quiet_run : ResolutionResult → Date → Date → Store → Store × ReconciliationResult
  quiet_run resolution as_of evaluated_at store =
      log_run new_id organization_id actor_id employee_id resolution as_of evaluated_at
        (find_for_employee_as_of organization_id employee_id as_of store.assignments) (store, [])

  create_all-Settled :
      (resolution : ResolutionResult) (as_of : Date) (store : Store)
      → Settled resolution as_of store
      → create_all organization_id actor_id employee_id as_of new_id
          (to_create new_id organization_id actor_id employee_id resolution.winners as_of
            store.assignments)
          (closed new_id organization_id actor_id employee_id resolution.winners as_of store)
        ≡ some (store, [])
  unfolding close_all create_all
  create_all-Settled resolution as_of store settled =
      let removed =
        settled-to_remove new_id organization_id actor_id employee_id resolution.winners as_of
          store.assignments (λ key. (settled key).0) in
      let created =
        settled-to_create new_id organization_id actor_id employee_id resolution.winners as_of
          store.assignments (λ key. (settled key).1) in
      rw (removed, created) refl

  materialize-Settled :
      (resolution : ResolutionResult) (as_of evaluated_at : Date) (store : Store)
      → Settled resolution as_of store
      → materialize new_id organization_id actor_id employee_id resolution as_of evaluated_at store
        ≡ some (quiet_run resolution as_of evaluated_at store)
  unfolding materialize
  materialize-Settled resolution as_of evaluated_at store settled =
      rw (materialize, create_all-Settled resolution as_of store settled) refl

  quiet_run-still :
      (resolution : ResolutionResult) (as_of evaluated_at : Date) (store : Store)
      → Settled resolution as_of store
      → let out = quiet_run resolution as_of evaluated_at store in
        (out.0.assignments ≡ store.assignments) × (out.1.added ≡ []) × (out.1.removed ≡ [])
  unfolding log_run
  quiet_run-still resolution as_of evaluated_at store settled = (
    refl,
    keep-none (find_for_employee_as_of organization_id employee_id as_of store.assignments),
    settled-to_remove new_id organization_id actor_id employee_id resolution.winners as_of
        store.assignments (λ key. (settled key).0),
  )

  -- For an employee that is not terminated, and a table whose ids are keys, a run of `reconcile` ends
  -- in one of two ways. Either it is carried out, and afterwards the keys (policy, rule, rule version)
  -- of the assignments in force on the day are exactly those of the engine's winners. Or the unique
  -- index stops it, and then some winner without a row of its key is of a SINGLE category, and
  -- either an open row of the employee stands in that category that the run does not end (it is not
  -- in force on the day, or its key is a winner's), or an earlier such winner is of the same SINGLE
  -- category.
  pub reconcile_converges :
      (loads : Loads) (employee : EngineEmployee) (as_of evaluated_at : Date) (store : Store)
      → loads.employee ≡ some (working, employee)
      → Keyed store.assignments
      → ((after : Store) × (result : ReconciliationResult) × (reconcile new_id organization_id
              actor_id employee_id loads as_of evaluated_at store
            ≡ done after result)
          × ((key : String)
              → HasKey organization_id employee_id as_of after.assignments key
                ↔ In key (map assignment_key (evaluate employee loads as_of).winners)))
        ⊎ ((reconcile new_id organization_id actor_id employee_id loads as_of evaluated_at store
              ≡ conflicted)
            × IsBlocked organization_id employee_id as_of
                (evaluate employee loads as_of).winners
                (to_create new_id organization_id actor_id employee_id
                  (evaluate employee loads as_of).winners
                  as_of
                  store.assignments)
                store.assignments)
  reconcile_converges loads employee as_of evaluated_at store e keyed =
      let run = reconcile-working loads employee as_of evaluated_at store e in
      elim (materialize-cases new_id organization_id actor_id employee_id
        (evaluate employee loads as_of) as_of evaluated_at store) [
          | inr f ↦ inl (
            _,
            _,
            run ∙ ap outcome_of f,
            completed-HasKey_iff (evaluate employee loads as_of) as_of evaluated_at store keyed,
          )
          | inl (f, stops) ↦ inr (
            run ∙ ap outcome_of f,
            Stops-IsBlocked new_id organization_id actor_id employee_id
                (evaluate employee loads as_of).winners as_of store stops,
          )
        ]

  -- For an employee that is not terminated, and a table whose ids are keys: if a run of `reconcile` is
  -- carried out, then to run it again on what it left, for the same day and the same rules and
  -- groups, is carried out too (no unique index stops it), and does not change the table of
  -- assignments: it adds none and removes none.
  pub reconcile_idempotent :
      (loads : Loads) (employee : EngineEmployee) (as_of first_at second_at : Date)
      (store after : Store) (first : ReconciliationResult)
      → loads.employee ≡ some (working, employee)
      → Keyed store.assignments
      → reconcile new_id organization_id actor_id employee_id loads as_of first_at store
        ≡ done after first
      → (final : Store) × (second : ReconciliationResult) × (reconcile new_id organization_id
            actor_id employee_id loads as_of second_at after
          ≡ done final second)
        × (final.assignments ≡ after.assignments)
        × (second.added ≡ [])
        × (second.removed ≡ [])
  reconcile_idempotent loads employee as_of first_at second_at store after first e keyed ran =
      elim (reconcile_converges loads employee as_of first_at store e keyed) [
        | inr (stopped, _) ↦ absurd (clash (sym stopped ∙ ran))
        | inl (left, result, done_too, settled) ↦
            let same = ap store_of (sym done_too ∙ ran) in
            let still = subst (Settled (evaluate employee loads as_of) as_of) same settled in
            let quiet =
              materialize-Settled (evaluate employee loads as_of) as_of second_at after still in
            let (table, added, removed) =
              quiet_run-still (evaluate employee loads as_of) as_of second_at after still in
            (
              _,
              _,
              reconcile-working loads employee as_of second_at after e ∙ ap outcome_of quiet,
              table,
              added,
              removed,
            )
      ]
    where
      store_of : Outcome → Store
      store_of (done s _) = s
      store_of _ = store

      clash : conflicted ≡ done after first → ⊥
      clash h = cc h
