-- ===== src/Preview/Tests.antt =====
-- What if the engineer of the engine's sample moved to sales?
use policy_assignment_system.Prelude.{◌*◌, ◌≡◌, ◌↔◌, none, some, In}
use policy_assignment_system.Dates.{ms_per_day}
use policy_assignment_system.Engine.Resolve.Tests.{alice}
use policy_assignment_system.Engine.{ResolutionResult}
use policy_assignment_system.Engine.Resolve.{resolve}
use policy_assignment_system.Reconcile.{evaluate}
use policy_assignment_system.Reconcile.Tests.{loads}
use policy_assignment_system.Preview.{EmployeeOverrides, preview}
use policy_assignment_system.Preview.Laws.{keys, changed, preview-keys_iff}

abbrev to_sales : EmployeeOverrides
to_sales = record {
  department = some (some "Sales");
  state = none;
  country = none;
  location = none;
  employment_type = none;
  role = none;
  is_manager = none;
  hire_date = none;
  group_ids = none;
}

abbrev moved : ResolutionResult
moved = resolve (record {
  employee = changed alice loads.group_ids to_sales;
  rules = loads.rules;
  as_of = 739000 * ms_per_day;
})

preview-keys_iff_example :
    ((preview alice loads (739000 * ms_per_day) to_sales).resolution ≡ moved)
    × (In "c1|p2" (keys (preview alice loads (739000 * ms_per_day) to_sales).added) ↔ (
        In "c1|p2" (keys moved.winners)
        × ¬ In "c1|p2" (keys (evaluate alice loads (739000 * ms_per_day)).winners)))
    × (In "c1|p2" (keys (preview alice loads (739000 * ms_per_day) to_sales).removed) ↔ (
        In "c1|p2" (keys (evaluate alice loads (739000 * ms_per_day)).winners)
        × ¬ In "c1|p2" (keys moved.winners)))
    × (In "c1|p2" (keys (preview alice loads (739000 * ms_per_day) to_sales).unchanged) ↔ (
        In "c1|p2" (keys moved.winners)
        × In "c1|p2" (keys (evaluate alice loads (739000 * ms_per_day)).winners)))
preview-keys_iff_example = preview-keys_iff alice loads (739000 * ms_per_day) to_sales "c1|p2"
