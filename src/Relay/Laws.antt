-- ===== src/Relay/Laws.antt =====
-- What becomes of a row that is dispatched.
use policy_assignment_system.Prelude.{
  ℕ, suc, ◌+◌, ◌-◌, ◌*◌, ◌≤◌, ◌<◌, leb, String, ◌≡◌, ◌≢◌, refl, sym, ap, ◌∙◌, [], ◌∷◌, concat, ◌⊎◌,
  ◌↔◌, inl, inr, Bool, true, false, Bool-cases, Option-cases, Option, none, some, List, eq_iff,
  arith, ℤ,
}
use Prim.Native.Nat.{◌^◌, min}
use Prim.Native.Nat.pow
use policy_assignment_system.Dates.{Date}
use policy_assignment_system.Outbox.{
  OutboxEvent, mark_processed, mark_failed, mark_permanently_failed,
}
use policy_assignment_system.Relay.{
  RelayEnv, ReconcileEmployeeJob, Plan, enqueue_job, fan_out, group_fan_out, settle, reject, plan,
  job_of, text_of, payload_of, plan_group, plan_rule, backoff_ms, retry, World, enqueue_each,
  conclude, attributes_of, employee_job, deliver_each, deliver_one, dispatch, carry_out,
}

double_power : (a n : ℕ) → a * 2 ^ (n + 2 - 1) ≡ 2 * (a * 2 ^ (n + 1 - 1))
double_power a n =
    let low : n + 1 - 1 ≡ n = omega arith in
    let high : n + 2 - 1 ≡ suc n = omega arith in
    let power : 2 ^ suc n ≡ 2 ^ n * 2 = pow.suc 2 n in rw (low, high, power) (grind arith)

first_delay : (env : RelayEnv) → backoff_ms env 1 ≡ min env.backoff_base_ms env.backoff_max_ms
unfolding backoff_ms
first_delay env = ap (λ n. min n env.backoff_max_ms) (mul_one env.backoff_base_ms)
  where
    mul_one : (n : ℕ) → n * 2 ^ (1 - 1) ≡ n
    mul_one n = omega arith

-- The first delay is the base, or the cap if that is less; the delay doubles with each attempt until it
-- meets the cap, and never exceeds it.
pub backoff_ms_lem :
    (env : RelayEnv) (n : ℕ)
    → (backoff_ms env 1 ≡ min env.backoff_base_ms env.backoff_max_ms)
      × (backoff_ms env (n + 1) ≤ env.backoff_max_ms)
      × (backoff_ms env (n + 2) ≡ min (2 * backoff_ms env (n + 1)) env.backoff_max_ms)
unfolding backoff_ms
backoff_ms_lem env n =
    (first_delay env, omega arith, omega (arith, double_power env.backoff_base_ms n))

-- The one kind of row that no job can be made of.
abbrev pub NamesNobody : OutboxEvent → Type 0
NamesNobody row =
    (row.event_type ≢ "employee.terminated")
    × (text_of (payload_of row).employee_id ≡ none)
    × (text_of (payload_of row).rule_id ≡ none)
    × ((text_of (payload_of row).group_id ≡ none) ⊎ (row.event_type ≢ "group.deleted"))

-- The relay rejects a row exactly if it is no termination, and its payload names neither an employee,
-- nor a rule, nor, where the row is a group's deletion, a group.
pub plan-reject_iff : (row : OutboxEvent) → (plan row ≡ reject) ↔ NamesNobody row
unfolding plan plan_rule plan_group
plan-reject_iff row =
    ground
      (arith, eq_iff row.event_type "employee.terminated", eq_iff row.event_type "group.deleted")

plan-enqueue_cases :
    (row : OutboxEvent) (job : ReconcileEmployeeJob)
    → (plan row ≡ enqueue_job job) ↔ (
        (id : String) × (text_of (payload_of row).employee_id ≡ some id)
        × (job ≡ job_of row id)
        × (row.event_type ≢ "employee.terminated")
        × ((text_of (payload_of row).group_id ≡ none) ⊎ (row.event_type ≢ "group.deleted")))
unfolding plan plan_rule plan_group
plan-enqueue_cases row job =
    ground
      (arith, eq_iff row.event_type "employee.terminated", eq_iff row.event_type "group.deleted")

-- A row becomes one job exactly if it names an employee, and is neither a termination nor a group's
-- deletion that names a group. The job is for the employee named, in the row's organization, under
-- the row's id and event type, with the day and the attributes of its payload.
pub plan-enqueue_iff :
    (row : OutboxEvent) (job : ReconcileEmployeeJob)
    → (plan row ≡ enqueue_job job) ↔ (
        (text_of (payload_of row).employee_id ≡ some job.employee_id)
        × (job.organization_id ≡ row.organization_id)
        × (job.outbox_event_id ≡ row.id)
        × (job.event_type ≡ row.event_type)
        × (job.as_of ≡ text_of (payload_of row).effective_from)
        × (job.changed_attributes ≡ attributes_of (payload_of row).changed_attributes)
        × (row.event_type ≢ "employee.terminated")
        × ((text_of (payload_of row).group_id ≡ none) ⊎ (row.event_type ≢ "group.deleted")))
unfolding job_of
plan-enqueue_iff row job = (
  λ h.
      let (id, e, f, live, kind) = (plan-enqueue_cases row job).0 h in
      (
        e ∙ ap some (sym (ap (λ j. j.employee_id) f)),
        ap (λ j. j.organization_id) f,
        ap (λ j. j.outbox_event_id) f,
        ap (λ j. j.event_type) f,
        ap (λ j. j.as_of) f,
        ap (λ j. j.changed_attributes) f,
        live,
        kind,
      ),
  λ (e, o, i, k, a, c, live, kind).
      (plan-enqueue_cases row job).1 (job.employee_id, e, built job o i k a c, live, kind),
)
  where
    built :
        (j : ReconcileEmployeeJob)
        → j.organization_id ≡ row.organization_id
        → j.outbox_event_id ≡ row.id
        → j.event_type ≡ row.event_type
        → j.as_of ≡ text_of (payload_of row).effective_from
        → j.changed_attributes ≡ attributes_of (payload_of row).changed_attributes
        → j ≡ job_of row j.employee_id
    built j o i k a c t = record {
      outbox_event_id = i t;
      organization_id = o t;
      employee_id = j.employee_id;
      event_type = k t;
      as_of = a t;
      changed_attributes = c t;
    }

module _ {Queue : Type 0} (add : String → ReconcileEmployeeJob → Queue → Option Queue)
    (affected : String → String → Option ℤ → Option String → Option (List String))
    (former_members : String → Option String → Option (List String)) where
  -- A job for each employee of a list, in its order, goes onto the queue, under the key
  -- `<row id>--<employee id>`.
  abbrev pub AddsAll : OutboxEvent → Option String → List String → Queue → Queue → Type 0
  AddsAll row as_of [] before after = after ≡ before
  AddsAll row as_of (id ∷ ids) before after =
      (next : Queue) × (add (concat (row.id ∷ "--" ∷ id ∷ []))
          (record {
            outbox_event_id = row.id;
            organization_id = row.organization_id;
            employee_id = id;
            event_type = row.event_type;
            as_of = as_of;
            changed_attributes = none;
          })
          before
        ≡ some next)
      × AddsAll row as_of ids next after

  enqueue_each-AddsAll :
      (row : OutboxEvent) (as_of : Option String) (ids : List String) (before : Queue)
      → (enqueue_each add row as_of ids before).1 ≡ true
      → AddsAll row as_of ids before (enqueue_each add row as_of ids before).0
  unfolding enqueue_each employee_job
  enqueue_each-AddsAll row as_of [] before h = refl
  enqueue_each-AddsAll row as_of (id ∷ ids) before h =
      elim (Option-cases
        (add (concat (row.id ∷ "--" ∷ id ∷ [])) (employee_job add row as_of id) before)) [
          | inl e ↦ cc (rw (enqueue_each, e) at h)
          | inr (next, e) ↦
              rw (enqueue_each, e)
                (next, refl, enqueue_each-AddsAll row as_of ids next (rw (enqueue_each, e) at h))
        ]

  -- Every job that a plan asks for is on the queue.
  pub Delivered : OutboxEvent → Plan → Queue → Queue → Type 0
  Delivered row settle before after = after ≡ before
  Delivered row reject before after = ⊥
  Delivered row (enqueue_job job) before after = add job.outbox_event_id job before ≡ some after
  Delivered row (fan_out rule_id rule_version as_of) before after =
      (ids : List String) × (affected row.organization_id rule_id rule_version as_of ≡ some ids)
      × AddsAll row as_of ids before after
  Delivered row (group_fan_out group_id deleted_on) before after =
      (ids : List String) × (former_members group_id deleted_on ≡ some ids)
      × AddsAll row deleted_on ids before after

  -- The three ends of a dispatch.
  abbrev pub Ends : RelayEnv → Date → OutboxEvent → Plan → World add → World add → Type 0
  Ends env now row planned w after =
      ((after.rows ≡ mark_processed row.id now w.rows) × Delivered row planned w.queue after.queue)
      ⊎ ((after.rows ≡ mark_permanently_failed row.id now w.rows)
          × ((planned ≡ reject) ⊎ (env.max_attempts ≤ row.attempts + 1)))
      ⊎ ((after.rows ≡ mark_failed row.id (now + backoff_ms env (row.attempts + 1)) w.rows)
          × (row.attempts + 1 < env.max_attempts))

  conclude-Ends :
      (env : RelayEnv) (now : Date) (row : OutboxEvent) (planned : Plan) (w : World add)
      (outcome : Queue × Bool)
      → (outcome.1 ≡ true → Delivered row planned w.queue outcome.0)
      → Ends env now row planned w (conclude add env now row w.rows outcome)
  unfolding conclude retry
  conclude-Ends env now row planned w (queue, true) h = inl (refl, h refl)
  conclude-Ends env now row planned w (queue, false) h =
      elim (Bool-cases (leb env.max_attempts (row.attempts + 1))) [
        | inl last ↦ rw last (inr (inl (refl, inr (ground arith))))
        | inr again ↦ rw again (inr (inr (refl, ground arith)))
      ]

  deliver_one-added :
      (job : ReconcileEmployeeJob) (queue : Queue)
      → (deliver_one add job queue).1 ≡ true
      → add job.outbox_event_id job queue ≡ some (deliver_one add job queue).0
  unfolding deliver_one
  deliver_one-added job queue h = elim (Option-cases (add job.outbox_event_id job queue)) [
    | inl e ↦ cc (rw (e, deliver_one) at h)
    | inr (next, e) ↦ rw (deliver_one, e) refl
  ]

  deliver_each-added :
      (row : OutboxEvent) (as_of : Option String) (population : Option (List String))
      (queue : Queue)
      → (deliver_each add row as_of population queue).1 ≡ true
      → (ids : List String) × (population ≡ some ids)
        × AddsAll row as_of ids queue (deliver_each add row as_of population queue).0
  unfolding deliver_each
  deliver_each-added row as_of none queue h = cc h
  deliver_each-added row as_of (some ids) queue h =
      (ids, refl, enqueue_each-AddsAll row as_of ids queue h)

  carry_out-Ends :
      (env : RelayEnv) (now : Date) (row : OutboxEvent) (planned : Plan) (w : World add)
      → Ends env now row planned w (carry_out add affected former_members env now row planned w)
  unfolding carry_out Delivered
  carry_out-Ends env now row settle w = inl (refl, refl)
  carry_out-Ends env now row reject w = inr (inl (refl, inl refl))
  carry_out-Ends env now row (enqueue_job job) w =
      conclude-Ends env now row (enqueue_job job) w (deliver_one add job w.queue)
        (deliver_one-added job w.queue)
  carry_out-Ends env now row (fan_out rule_id rule_version as_of) w =
      conclude-Ends env now row (fan_out rule_id rule_version as_of) w _
        (deliver_each-added row as_of _ w.queue)
  carry_out-Ends env now row (group_fan_out group_id deleted_on) w =
      conclude-Ends env now row (group_fan_out group_id deleted_on) w _
        (deliver_each-added row deleted_on _ w.queue)

  -- A dispatched row ends in one of three ways: PROCESSED, and then every job that its plan asks for
  -- was added to the queue (for a population, one for each of its employees, in their order); FAILED, and then its plan is to reject it or this was the last of its
  -- attempts; or PENDING again after the backoff, with attempts left.
  pub dispatch-Ends :
      (env : RelayEnv) (now : Date) (row : OutboxEvent) (w : World add)
      → Ends env now row (plan row) w (dispatch add affected former_members env now row w)
  unfolding dispatch
  dispatch-Ends env now row w = carry_out-Ends env now row (plan row) w
