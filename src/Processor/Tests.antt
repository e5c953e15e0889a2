-- ===== src/Processor/Tests.antt =====
-- A job that is carried out, one that is skipped, and one that fails.
use policy_assignment_system.Prelude.{String, ◌≡◌, refl, ◌↔◌, ◌⊎◌, inl, inr, none, some, In, ◌*◌}
use policy_assignment_system.Dates.{ms_per_day}
use policy_assignment_system.Relay.{ReconcileEmployeeJob}
use policy_assignment_system.Engine.{EngineEmployee}
use policy_assignment_system.Engine.Resolve.Tests.{alice}
use policy_assignment_system.Reconcile.{
  Loads, Store, ReconciliationResult, working, terminated, conflicted, reconcile,
}
use policy_assignment_system.Reconcile.Tests.{
  counted, loads, store, store-Keyed, early_conflict_test,
}
use policy_assignment_system.Processor.{handled_event_types, failed, skipped, reconciled, handle}
use policy_assignment_system.Processor.Laws.{IsStopped, handle-failed_iff, handle-again}

abbrev job : ReconcileEmployeeJob
job = record {
  outbox_event_id = "v1";
  organization_id = "o1";
  employee_id = "e1";
  event_type = "rule.updated";
  as_of = none;
  changed_attributes = none;
}

abbrev reads : String → String → Loads
reads organization_id employee_id = loads

rule_updated_known : In "rule.updated" handled_event_types
unfolding handled_event_types
rule_updated_known = inr (inr (inr (inr (inl refl))))

handle-again_example :
    ((after final : Store) × (first second : ReconciliationResult) × (handle counted reads
          (739000 * ms_per_day)
          7
          job
          store
        ≡ reconciled after first)
      × (handle counted reads (739000 * ms_per_day) 8 job after ≡ reconciled final second)
      × (final.assignments ≡ after.assignments))
    ⊎ ((handle counted reads (739000 * ms_per_day) 7 job store ≡ failed)
        × IsStopped counted reads (739000 * ms_per_day) job store)
handle-again_example =
    handle-again counted reads (739000 * ms_per_day) job 7 8 store alice rule_updated_known refl
      store-Keyed

handle-failed_iff_example :
    ((handle counted reads (739000 * ms_per_day) 7 job store ≡ failed)
      → (¬ In "rule.updated" handled_event_types)
        ⊎ IsStopped counted reads (739000 * ms_per_day) job store)
    × ((handle counted reads (739000 * ms_per_day) 7 job store ≡ failed) ↔ (
        (¬ In "rule.updated" handled_event_types)
        ⊎ ((employee : EngineEmployee) × (loads.employee ≡ some (working, employee))
            × (reconcile counted "o1" none "e1" loads (739000 * ms_per_day) 7 store ≡ conflicted))))
handle-failed_iff_example =
    handle-failed_iff counted reads (739000 * ms_per_day) job 7 store store-Keyed

-- The open row of the SINGLE category starts after the day, so that the run does not end it.
stopped_test : handle counted reads (738000 * ms_per_day) 7 job store ≡ failed
unfolding handle
stopped_test = rw early_conflict_test refl

terminated_test :
    handle counted
      (λ organization_id id. record loads { employee = some (terminated, alice) })
      (739000 * ms_per_day)
      7
      job
      store
    ≡ skipped
unfolding handle
terminated_test = refl

-- The relay makes a job for each former member of a group that was deleted, under the event's own type,
-- which the processor does not know.
group_deleted_test :
    handle counted reads (739000 * ms_per_day) 7 (record job { event_type = "group.deleted" }) store
    ≡ failed
unfolding handle
group_deleted_test = refl
