-- ===== src/Processor.antt =====
-- apps/worker/src/processor.ts: what the worker does with a job. The reads of an employee, of the rules
-- and of the groups are `reads`; the log and the publisher are left out.
pub mod Laws
mod Tests
use policy_assignment_system.Prelude.{
  String, Bool, true, false, not, Option, none, some, List, [], ◌∷◌, includes, if◌then◌else◌,
}
use policy_assignment_system.Dates.{Date}
use policy_assignment_system.Engine.{EngineEmployee}
use policy_assignment_system.Assignments.{Assignment}
use policy_assignment_system.Relay.{ReconcileEmployeeJob}
use policy_assignment_system.Reconcile.{
  EmployeeStatus, working, terminated, Loads, Store, ReconciliationResult, Outcome,
  employee_not_found, employee_terminated, conflicted, done, reconcile,
}

-- `HANDLED_EVENT_TYPES`
unfoldable pub handled_event_types : List String
handled_event_types =
    "employee.created" ∷ "employee.attributes_changed" ∷ "group.membership_changed" ∷ "rule.created"
    ∷ "rule.updated" ∷ "rule.enabled" ∷ "rule.disabled" ∷ "rule.priority_changed" ∷ "rule.deleted"
    ∷ "override.created" ∷ "override.deleted" ∷ []

-- A job that failed is retried by the queue; one that was skipped is complete.
pub data JobOutcome : Type 0 where
  failed : JobOutcome
  skipped : JobOutcome
  reconciled : Store → ReconciliationResult → JobOutcome

-- What the job makes of the service's answer: its errors, and what the database throws, are the job's.
abbrev pub job_outcome : Outcome → JobOutcome
job_outcome employee_not_found = failed
job_outcome employee_terminated = failed
job_outcome conflicted = failed
job_outcome (done store result) = reconciled store result

abbrev pub is_gone : Option (EmployeeStatus × EngineEmployee) → Bool
is_gone none = true
is_gone (some (terminated, employee)) = true
is_gone (some (working, employee)) = false

unfoldable pub handle :
    (List Assignment → String)
    → (String → String → Loads)
    → Date
    → Date
    → ReconcileEmployeeJob
    → Store
    → JobOutcome
unfolding handled_event_types
handle new_id reads today evaluated_at job store =
    let loads = reads job.organization_id job.employee_id in
    if not (includes handled_event_types job.event_type)
    then failed
    else if is_gone loads.employee
    then skipped
    else job_outcome
        (reconcile new_id job.organization_id none job.employee_id loads today evaluated_at store)
