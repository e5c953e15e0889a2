-- ===== src/Processor/Laws.antt =====
-- When a job fails, and what a second delivery of it does.
use policy_assignment_system.Prelude.{
  String, ◌≡◌, refl, sym, ap, ◌∙◌, ◌⊎◌, ◌↔◌, inl, inr, true, Bool-cases, Bool-clash, Option, none,
  some, List, In, includes, includes_iff,
}
use policy_assignment_system.Dates.{Date}
use policy_assignment_system.Engine.{EngineEmployee}
use policy_assignment_system.Assignments.{Assignment}
use policy_assignment_system.Relay.{ReconcileEmployeeJob}
use policy_assignment_system.Reconcile.{
  EmployeeStatus, working, terminated, Loads, Store, ReconciliationResult, Outcome, conflicted,
  evaluate, reconcile,
}
use policy_assignment_system.Reconcile.Current.{Keyed, to_create}
use policy_assignment_system.Reconcile.Blocked.{IsBlocked}
use policy_assignment_system.Reconcile.Again.{reconcile_converges, reconcile_idempotent}
use policy_assignment_system.Processor.{
  handled_event_types, failed, reconciled, job_outcome, handle,
}

module _ (new_id : List Assignment → String) (reads : String → String → Loads) (today : Date)
    (job : ReconcileEmployeeJob) where
  abbrev loads : Loads
  loads = reads job.organization_id job.employee_id

  abbrev answer : Date → Store → Outcome
  answer evaluated_at store =
      reconcile new_id job.organization_id none job.employee_id loads today evaluated_at store

  -- The unique index of the table refuses a row that the employee at work is to get.
  abbrev pub IsStopped : Store → Type 0
  IsStopped store =
      (employee : EngineEmployee) × (loads.employee ≡ some (working, employee))
      × IsBlocked job.organization_id job.employee_id today (evaluate employee loads today).winners
          (to_create new_id job.organization_id none job.employee_id
            (evaluate employee loads today).winners today store.assignments)
          store.assignments

  handle-working :
      (evaluated_at : Date) (store : Store) (employee : EngineEmployee)
      → includes handled_event_types job.event_type ≡ true
      → loads.employee ≡ some (working, employee)
      → handle new_id reads today evaluated_at job store ≡ job_outcome (answer evaluated_at store)
  unfolding handle
  handle-working evaluated_at store employee known e = rw (known, e) refl

  handle-unknown :
      (evaluated_at : Date) (store : Store)
      → ¬ In job.event_type handled_event_types
      → handle new_id reads today evaluated_at job store ≡ failed
  unfolding handle
  handle-unknown evaluated_at store h =
      elim (Bool-cases (includes handled_event_types job.event_type)) [
        | inr unknown ↦ rw unknown refl
        | inl known ↦ absurd (h ((includes_iff handled_event_types job.event_type).0 known))
      ]

  module _ (evaluated_at : Date) (store : Store) (keyed : Keyed store.assignments) where
    stopped :
        (employee : EngineEmployee)
        → loads.employee ≡ some (working, employee)
        → answer evaluated_at store ≡ conflicted
        → IsBlocked job.organization_id job.employee_id today
            (evaluate employee loads today).winners
            (to_create new_id job.organization_id none job.employee_id
              (evaluate employee loads today).winners
              today
              store.assignments)
            store.assignments
    stopped employee e f =
        elim (reconcile_converges new_id job.organization_id none job.employee_id loads employee
          today evaluated_at store e keyed) [
            | inl (after, result, g, _) ↦ absurd (cc (f, g))
            | inr (_, blocked) ↦ blocked
          ]

    fails :
        (employee : EngineEmployee)
        → includes handled_event_types job.event_type ≡ true
        → loads.employee ≡ some (working, employee)
        → handle new_id reads today evaluated_at job store ≡ failed
        → answer evaluated_at store ≡ conflicted
    fails employee known e h =
        elim (reconcile_converges new_id job.organization_id none job.employee_id loads employee
          today evaluated_at store e keyed) [
            | inr (g, _) ↦ g
            | inl (after, result, g, _) ↦ absurd (
                cc
                  (sym (handle-working evaluated_at store employee known e ∙ ap job_outcome g) ∙ h))
          ]

    found :
        includes handled_event_types job.event_type ≡ true
        → handle new_id reads today evaluated_at job store ≡ failed
        → (read : Option (EmployeeStatus × EngineEmployee)) → loads.employee ≡ read
        → (employee : EngineEmployee) × (loads.employee ≡ some (working, employee))
          × (answer evaluated_at store ≡ conflicted)
    unfolding handle
    found known h none e = absurd (cc (rw (known, e) at h))
    found known h (some (terminated, employee)) e = absurd (cc (rw (known, e) at h))
    found known h (some (working, employee)) e = (employee, e, fails employee known e h)

    causes :
        handle new_id reads today evaluated_at job store ≡ failed
        → (¬ In job.event_type handled_event_types)
          ⊎ ((employee : EngineEmployee) × (loads.employee ≡ some (working, employee))
              × (answer evaluated_at store ≡ conflicted))
    causes h = elim (Bool-cases (includes handled_event_types job.event_type)) [
      | inr unknown ↦
          inl (λ m. Bool-clash unknown ((includes_iff handled_event_types job.event_type).1 m))
      | inl known ↦ inr (found known h loads.employee refl)
    ]

  -- Over a table whose ids are keys, a job fails only if its event type is not one that the processor
  -- knows, or if the employee is at work and the unique index of the table refuses a row that they are
  -- to get. A job of an unknown type always fails; and one of a known type fails exactly where the
  -- reconciliation of an employee at work is stopped by the index, so that an employee who is missing
  -- or terminated, whom reconciliation refuses, does not make it fail.
  pub handle-failed_iff :
      (evaluated_at : Date) (store : Store)
      → Keyed store.assignments
      → ((handle new_id reads today evaluated_at job store ≡ failed)
          → (¬ In job.event_type handled_event_types) ⊎ IsStopped store)
        × ((handle new_id reads today evaluated_at job store ≡ failed) ↔ (
            (¬ In job.event_type handled_event_types)
            ⊎ ((employee : EngineEmployee) × (loads.employee ≡ some (working, employee))
                × (reconcile new_id job.organization_id none job.employee_id loads today
                      evaluated_at store
                    ≡ conflicted))))
  handle-failed_iff evaluated_at store keyed = (
    λ h. elim (causes evaluated_at store keyed h) [
      | inl unknown ↦ inl unknown
      | inr (employee, e, f) ↦ inr (employee, e, stopped evaluated_at store keyed employee e f)
    ],
    (
      causes evaluated_at store keyed,
      λ cause. elim cause [
        | inl unknown ↦ handle-unknown evaluated_at store unknown
        | inr (employee, e, f) ↦ elim (Bool-cases (includes handled_event_types job.event_type)) [
          | inl known ↦ handle-working evaluated_at store employee known e ∙ ap job_outcome f
          | inr unknown ↦
              handle-unknown evaluated_at store
                (λ m. Bool-clash unknown ((includes_iff handled_event_types job.event_type).1 m))
        ]
      ],
    ),
  )

  -- A job of a known type for an employee at work, over a table whose ids are keys, is carried out,
  -- unless the unique index of the table refuses a row, and then it fails. If it is carried out, so is
  -- a second delivery of it on the same day, with the same reads, which leaves the table of
  -- assignments as it was.
  pub handle-again :
      (first_at second_at : Date) (store : Store) (employee : EngineEmployee)
      → In job.event_type handled_event_types
      → loads.employee ≡ some (working, employee)
      → Keyed store.assignments
      → ((after final : Store) × (first second : ReconciliationResult) × (handle new_id reads today
              first_at job store
            ≡ reconciled after first)
          × (handle new_id reads today second_at job after ≡ reconciled final second)
          × (final.assignments ≡ after.assignments))
        ⊎ ((handle new_id reads today first_at job store ≡ failed) × IsStopped store)
  handle-again first_at second_at store employee known e keyed =
      let listed = (includes_iff handled_event_types job.event_type).1 known in
      elim (reconcile_converges new_id job.organization_id none job.employee_id loads employee today
        first_at store e keyed) [
          | inr (f, blocked) ↦ inr (
            handle-working first_at store employee listed e ∙ ap job_outcome f,
            (employee, e, blocked),
          )
          | inl (after, first, one, _) ↦
              let (final, second, two, same, _, _) =
                reconcile_idempotent new_id job.organization_id none job.employee_id loads employee
                  today first_at second_at store after first e keyed one in
              inl (
                after,
                final,
                first,
                second,
                handle-working first_at store employee listed e ∙ ap job_outcome one,
                handle-working second_at after employee listed e ∙ ap job_outcome two,
                same,
              )
        ]
