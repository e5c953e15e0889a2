-- ===== src/Reconcile/Refusals.antt =====
-- When the unique index of the table stops a run, and that a run that it does not stop writes all.
use policy_assignment_system.Prelude.{
  String, ◌≡◌, refl, ap, ◌⊎◌, inl, inr, true, Bool-cases, Option, none, some, List, [], ◌∷◌, ◌++◌,
}
use policy_assignment_system.Dates.{Date}
use policy_assignment_system.Engine.{ResolvedPolicy, ResolutionResult}
use policy_assignment_system.Assignments.{Assignment, find_for_employee_as_of}
use policy_assignment_system.Reconcile.{
  Store, ReconciliationResult, row_for, is_refused, inserted_one, create_one, create_all, log_run,
  materialize,
}
use policy_assignment_system.Reconcile.Writes.{inserted_all, creating}
use policy_assignment_system.Reconcile.Current.{to_create, closed, written}

module _ (new_id : List Assignment → String) (organization_id : String) (actor_id : Option String)
    (employee_id : String) where
  module _ (as_of : Date) where
    create_one-cases :
        (winner : ResolvedPolicy) (store : Store)
        → ((create_one organization_id actor_id employee_id as_of new_id winner store ≡ none)
            × (is_refused
                  (row_for organization_id actor_id employee_id as_of new_id winner
                    store.assignments)
                  store.assignments
                ≡ true))
          ⊎ (create_one organization_id actor_id employee_id as_of new_id winner store
              ≡ some (inserted_one organization_id actor_id employee_id as_of new_id winner store))
    unfolding create_one
    create_one-cases winner store =
        elim (Bool-cases (
          is_refused
            (row_for organization_id actor_id employee_id as_of new_id winner store.assignments)
            store.assignments)) [ inl e ↦ inl (rw e refl, e) | inr e ↦ inr (rw e refl) ]

    -- The winner of a list before which the loop stops.
    pub record Stops (winners : List ResolvedPolicy) (store : Store) : Type 0 where
      pub before : List ResolvedPolicy
      pub winner : ResolvedPolicy
      pub after : List ResolvedPolicy
      pub split : winners ≡ before ++ winner ∷ after
      pub refused :
          is_refused
            (row_for organization_id actor_id employee_id as_of new_id winner
              (creating organization_id actor_id employee_id as_of new_id before store))
            (creating organization_id actor_id employee_id as_of new_id before store)
          ≡ true

    pub create_all-cases :
        (winners : List ResolvedPolicy) (store : Store)
        → ((create_all organization_id actor_id employee_id as_of new_id winners store ≡ none)
            × Stops winners store)
          ⊎ (create_all organization_id actor_id employee_id as_of new_id winners store
              ≡ some (inserted_all organization_id actor_id employee_id as_of new_id winners store))
    unfolding create_all inserted_all
    create_all-cases [] store = inr refl
    create_all-cases (w ∷ winners) store = elim (create_one-cases w store) [
      | inl (e, refused) ↦ inl (
        rw (create_all, e) refl,
        record { before = []; winner = w; after = winners; split = refl; refused = refused },
      )
      | inr e ↦
          elim (create_all-cases winners
            (inserted_one organization_id actor_id employee_id as_of new_id w store)) [
              | inl (f, stops) ↦ inl (
                rw (create_all, e, f) refl,
                record {
                  before = w ∷ stops.before;
                  winner = stops.winner;
                  after = stops.after;
                  split = ap (λ ws. w ∷ ws) stops.split;
                  refused = stops.refused;
                },
              )
              | inr f ↦ inr (rw (create_all, e, f) refl)
            ]
    ]

  -- What a run that the index does not stop leaves and returns.
  abbrev pub completed : ResolutionResult → Date → Date → Store → Store × ReconciliationResult
  completed resolution as_of evaluated_at store =
      log_run new_id organization_id actor_id employee_id resolution as_of evaluated_at
        (find_for_employee_as_of organization_id employee_id as_of store.assignments)
        (written new_id organization_id actor_id employee_id resolution.winners as_of store)

  pub materialize-cases :
      (resolution : ResolutionResult) (as_of evaluated_at : Date) (store : Store)
      → ((materialize new_id organization_id actor_id employee_id resolution as_of evaluated_at
              store
            ≡ none)
          × Stops as_of
              (to_create new_id organization_id actor_id employee_id resolution.winners as_of
                store.assignments)
              (closed new_id organization_id actor_id employee_id resolution.winners as_of store))
        ⊎ (materialize new_id organization_id actor_id employee_id resolution as_of evaluated_at
              store
            ≡ some (completed resolution as_of evaluated_at store))
  unfolding materialize
  materialize-cases resolution as_of evaluated_at store =
      elim (create_all-cases as_of
        (to_create new_id organization_id actor_id employee_id resolution.winners as_of
          store.assignments)
        (closed new_id organization_id actor_id employee_id resolution.winners as_of store)) [
          | inl (e, stops) ↦ inl (rw (materialize, e) refl, stops)
          | inr e ↦ inr (rw (materialize, e) refl)
        ]

  pub materialize-some :
      (resolution : ResolutionResult) (as_of evaluated_at : Date) (store : Store)
      (out : Store × ReconciliationResult)
      → materialize new_id organization_id actor_id employee_id resolution as_of evaluated_at store
        ≡ some out
      → out ≡ completed resolution as_of evaluated_at store
  materialize-some resolution as_of evaluated_at store out ran =
      elim (materialize-cases resolution as_of evaluated_at store) [
        | inl (e, _) ↦ absurd (cc (e, ran))
        | inr e ↦ cc (ran, e)
      ]
