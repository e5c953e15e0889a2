-- ===== src/Relay/Tests.antt =====
-- The plan of a row, the backoff, and a dispatch to a queue that takes every job.
use policy_assignment_system.Prelude.{
  map, ◌+◌, ◌*◌, ◌≤◌, String, ◌≡◌, refl, ◌↔◌, Option, none, some, List, [], ◌∷◌, ℤ, ◌≢◌, ◌⊎◌,
}
use Prim.Native.Nat.{min}
use policy_assignment_system.Prelude.Sorting.{sort}
use policy_assignment_system.Outbox.{
  processed, release_expired, claim_pending, find_pending, take, update, OutboxEvent, OutboxPayload,
  processing, text, other,
}
use policy_assignment_system.Relay.{
  RelayEnv, ReconcileEmployeeJob, World, plan, reject, settle, enqueue_job, job_of, attributes_of,
  text_of, payload_of, backoff_ms, dispatch, drain,
}
use policy_assignment_system.Relay.Laws.{
  NamesNobody, Ends, plan-reject_iff, plan-enqueue_iff, backoff_ms_lem, dispatch-Ends,
}

abbrev hired : OutboxPayload
hired = record {
  employee_id = text "e1";
  changed_attributes = other;
  effective_from = text "2024-01-01";
  rule_id = other;
  rule_version = other;
  group_id = other;
  deleted_on = other;
}

abbrev row : OutboxEvent
row = record {
  id = "x1";
  organization_id = "o1";
  event_type = "employee.created";
  aggregate_type = "employee";
  aggregate_id = "e1";
  payload = some hired;
  status = processing;
  attempts = 0;
  available_at = 90;
  processed_at = none;
  created_at = 10;
}

abbrev env : RelayEnv
env = record {
  batch_size = 50;
  max_attempts = 5;
  backoff_base_ms = 1000;
  backoff_max_ms = 3600000;
  claim_lease_ms = 60000;
}

abbrev accept : String → ReconcileEmployeeJob → List String → Option (List String)
accept id job queue = some (id ∷ queue)

abbrev nobody : String → String → Option ℤ → Option String → Option (List String)
nobody _ _ _ _ = some []

abbrev no_members : String → Option String → Option (List String)
no_members _ _ = some []

abbrev world : World accept
world = record { rows = row ∷ []; queue = [] }

plan_test : plan row ≡ enqueue_job (job_of row "e1")
unfolding plan text_of
plan_test = refl

termination_test : plan (record row { event_type = "employee.terminated" }) ≡ settle
unfolding plan
termination_test = refl

dispatch_test : (dispatch accept nobody no_members env 100 row world).queue ≡ "x1" ∷ []
unfolding dispatch plan text_of job_of
dispatch_test = refl

backoff_ms_lem_example :
    (backoff_ms env 1 ≡ min env.backoff_base_ms 3600000)
    × (backoff_ms env (2 + 1) ≤ 3600000)
    × (backoff_ms env (2 + 2) ≡ min (2 * backoff_ms env (2 + 1)) 3600000)
backoff_ms_lem_example = backoff_ms_lem env 2

plan-reject_iff_example :
    (plan (record row { payload = none }) ≡ reject) ↔ NamesNobody (record row { payload = none })
plan-reject_iff_example = plan-reject_iff (record row { payload = none })

plan-enqueue_iff_example : (plan row ≡ enqueue_job (job_of row "e1")) ↔ (
    (text_of (payload_of row).employee_id ≡ some (job_of row "e1").employee_id)
    × ((job_of row "e1").organization_id ≡ row.organization_id)
    × ((job_of row "e1").outbox_event_id ≡ row.id)
    × ((job_of row "e1").event_type ≡ row.event_type)
    × ((job_of row "e1").as_of ≡ text_of (payload_of row).effective_from)
    × ((job_of row "e1").changed_attributes ≡ attributes_of (payload_of row).changed_attributes)
    × (row.event_type ≢ "employee.terminated")
    × ((text_of (payload_of row).group_id ≡ none) ⊎ (row.event_type ≢ "group.deleted")))
plan-enqueue_iff_example = plan-enqueue_iff row (job_of row "e1")

dispatch-Ends_example :
    Ends accept nobody no_members env 100 row
      (plan row)
      world
      (dispatch accept nobody no_members env 100 row world)
dispatch-Ends_example = dispatch-Ends accept nobody no_members env 100 row world

-- The lease of the row has run out by 100, so the pass takes it back, claims it and delivers it.
drain_test :
    map (λ r. r.status) (drain accept nobody no_members env 100 world).0.rows ≡ processed ∷ []
unfolding drain release_expired claim_pending find_pending take sort plan text_of job_of update
drain_test = refl
