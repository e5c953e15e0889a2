-- ===== src/Relay.antt =====
-- apps/worker/src/relay.ts: what the outbox relay makes of a row, and what it does with it. The queue
-- and the derivation of a population are not the relay's: they are parameters, and either may fail.
pub mod Laws
mod Tests
use policy_assignment_system.Prelude.{
  ℕ, suc, ◌+◌, ◌-◌, ◌*◌, String, Bool, true, false, not, ◌&&◌, Option, none, some, List, [], ◌∷◌,
  ◌++◌, concat, leb, str_eq, if◌then◌else◌, ℤ,
}
use Prim.Native.Nat.{◌^◌, min}
use policy_assignment_system.Dates.{Date}
use policy_assignment_system.Outbox.{
  Field, other, text, integer, array, OutboxPayload, OutboxEvent, claim_pending, release_expired,
  mark_processed, mark_failed, mark_permanently_failed,
}

pub record RelayEnv : Type 0 where
  pub batch_size : ℕ
  pub max_attempts : ℕ
  pub backoff_base_ms : ℕ
  pub backoff_max_ms : ℕ
  pub claim_lease_ms : ℕ

pub record ReconcileEmployeeJob : Type 0 where
  pub outbox_event_id : String
  pub organization_id : String
  pub employee_id : String
  pub event_type : String
  pub as_of : Option String
  pub changed_attributes : Option (List String)

-- The reasons, which only go to the log, are left out.
pub data Plan : Type 0 where
  enqueue_job : ReconcileEmployeeJob → Plan
  fan_out : (rule_id : String) (rule_version : Option ℤ) (as_of : Option String) → Plan
  group_fan_out : (group_id : String) (deleted_on : Option String) → Plan
  settle : Plan
  reject : Plan

unfoldable pub text_of : Field → Option String
text_of (text s) = if str_eq s "" then none else some s
text_of _ = none

unfoldable pub integer_of : Field → Option ℤ
integer_of (integer n) = some n
integer_of _ = none

texts_in : List (Option String) → List String
texts_in [] = []
texts_in (some s ∷ entries) = s ∷ texts_in entries
texts_in (none ∷ entries) = texts_in entries

nonempty : List String → Option (List String)
nonempty [] = none
nonempty (s ∷ names) = some (s ∷ names)

pub attributes_of : Field → Option (List String)
unfolding texts_in nonempty
attributes_of (array entries) = nonempty (texts_in entries)
attributes_of _ = none

-- `{}`
abbrev no_payload : OutboxPayload
no_payload = record {
  employee_id = other;
  changed_attributes = other;
  effective_from = other;
  rule_id = other;
  rule_version = other;
  group_id = other;
  deleted_on = other;
}

abbrev pub payload_of : OutboxEvent → OutboxPayload
payload_of row = elim row.payload [ none ↦ no_payload | some payload ↦ payload ]

-- The job for a row that names an employee.
unfoldable pub job_of : OutboxEvent → String → ReconcileEmployeeJob
unfolding text_of attributes_of
job_of row employee_id = record {
  outbox_event_id = row.id;
  organization_id = row.organization_id;
  employee_id = employee_id;
  event_type = row.event_type;
  as_of = text_of (payload_of row).effective_from;
  changed_attributes = attributes_of (payload_of row).changed_attributes;
}

unfoldable pub plan_group : OutboxEvent → Option String → Plan
unfolding text_of job_of
plan_group row employee_id =
    let otherwise : Plan = elim employee_id [
      | none ↦ reject
      | some id ↦ enqueue_job (job_of row id)
    ] in
    elim (text_of (payload_of row).group_id) [
      | none ↦ otherwise
      | some group_id ↦
          if str_eq row.event_type "group.deleted"
          then group_fan_out group_id (text_of (payload_of row).deleted_on)
          else otherwise
    ]

unfoldable pub plan_rule : OutboxEvent → Option String → Plan
unfolding plan_group text_of integer_of
plan_rule row (some id) = plan_group row (some id)
plan_rule row none = elim (text_of (payload_of row).rule_id) [
  | none ↦ plan_group row none
  | some rule_id ↦
      fan_out rule_id (integer_of (payload_of row).rule_version)
        (text_of (payload_of row).effective_from)
]

unfoldable pub plan : OutboxEvent → Plan
unfolding plan_rule text_of
plan row =
    if str_eq row.event_type "employee.terminated"
    then settle
    else plan_rule row (text_of (payload_of row).employee_id)

-- base * 2^(attempt - 1), capped. `attempt` is positive.
unfoldable pub backoff_ms : RelayEnv → ℕ → ℕ
backoff_ms env attempt = min (env.backoff_base_ms * 2 ^ (attempt - 1)) env.backoff_max_ms

-- The row after a delivery failed.
unfoldable pub retry : RelayEnv → Date → OutboxEvent → List OutboxEvent → List OutboxEvent
retry env now row rows =
    let attempts = row.attempts + 1 in
    if leb env.max_attempts attempts
    then mark_permanently_failed row.id now rows
    else mark_failed row.id (now + backoff_ms env attempts) rows

module _ {Queue : Type 0} (add : String → ReconcileEmployeeJob → Queue → Option Queue) where
  pub record World : Type 0 where
    pub rows : List OutboxEvent
    pub queue : Queue

  employee_job : OutboxEvent → Option String → String → ReconcileEmployeeJob
  employee_job row as_of employee_id = record {
    outbox_event_id = row.id;
    organization_id = row.organization_id;
    employee_id = employee_id;
    event_type = row.event_type;
    as_of = as_of;
    changed_attributes = none;
  }

  -- The queue after the loop, and whether every job was added: it stops at the first that fails.
  pub enqueue_each : OutboxEvent → Option String → List String → Queue → Queue × Bool
  unfolding employee_job
  enqueue_each row as_of [] queue = (queue, true)
  enqueue_each row as_of (id ∷ ids) queue =
      elim (add (concat (row.id ∷ "--" ∷ id ∷ [])) (employee_job row as_of id) queue) [
        | none ↦ (queue, false)
        | some next ↦ enqueue_each row as_of ids next
      ]

  -- After a delivery: the row is settled, or tried again later.
  conclude : RelayEnv → Date → OutboxEvent → List OutboxEvent → Queue × Bool → World
  unfolding retry
  conclude env now row rows (queue, delivered) = record {
    rows = if delivered then mark_processed row.id now rows else retry env now row rows;
    queue = queue;
  }

  -- One job for each employee of a population, where it could be derived.
  deliver_each : OutboxEvent → Option String → Option (List String) → Queue → Queue × Bool
  unfolding enqueue_each
  deliver_each row as_of none queue = (queue, false)
  deliver_each row as_of (some ids) queue = enqueue_each row as_of ids queue

  deliver_one : ReconcileEmployeeJob → Queue → Queue × Bool
  deliver_one job queue = elim (add job.outbox_event_id job queue) [
    | none ↦ (queue, false)
    | some next ↦ (next, true)
  ]

  module _ (affected : String → String → Option ℤ → Option String → Option (List String))
      (former_members : String → Option String → Option (List String)) where
    carry_out : RelayEnv → Date → OutboxEvent → Plan → World → World
    unfolding conclude deliver_each deliver_one
    carry_out env now row settle w = record w { rows = mark_processed row.id now w.rows }
    carry_out env now row reject w = record w { rows = mark_permanently_failed row.id now w.rows }
    carry_out env now row (enqueue_job job) w =
        conclude env now row w.rows (deliver_one job w.queue)
    carry_out env now row (fan_out rule_id rule_version as_of) w =
        conclude env now row w.rows
          (deliver_each row as_of (affected row.organization_id rule_id rule_version as_of) w.queue)
    carry_out env now row (group_fan_out group_id deleted_on) w =
        conclude env now row w.rows
          (deliver_each row deleted_on (former_members group_id deleted_on) w.queue)

    pub dispatch : RelayEnv → Date → OutboxEvent → World → World
    unfolding carry_out plan
    dispatch env now row w = carry_out env now row (plan row) w

    dispatch_all : RelayEnv → Date → List OutboxEvent → World → World
    unfolding dispatch
    dispatch_all env now [] w = w
    dispatch_all env now (row ∷ rows) w = dispatch_all env now rows (dispatch env now row w)

    -- One pass, and the number of rows that it claimed.
    pub drain : RelayEnv → Date → World → World × ℕ
    unfolding dispatch_all
    drain env now w =
        let released = release_expired now w.rows in
        let (table, claimed) =
          claim_pending env.batch_size now (now + env.claim_lease_ms) released in
        (
          dispatch_all env now claimed (record w { rows = table }),
          policy_assignment_system.Prelude.length claimed,
        )
