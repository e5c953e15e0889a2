-- ===== src/Reconcile/Tests.antt =====
-- A run for the employee of the engine's sample who holds an obsolete assignment.
use mathlib.Core.List.{Perm, flat_map}
use policy_assignment_system.Prelude.{
  String, ◌*◌, ◌≤◌, ◌<◌, ◌≡◌, refl, sym, ap, ◌∙◌, ◌⊎◌, ◌↔◌, inl, inr, Option, none, some, List, [],
  ◌∷◌, ◌++◌, In, map, show, length,
}
use policy_assignment_system.Prelude.Sorting.{sort}
use policy_assignment_system.Dates.{Date, ms_per_day, is_effective_on}
use policy_assignment_system.Conditions.{evaluate_conditions, matches_clause}
use policy_assignment_system.Engine.{ResolutionResult, one_only, automatic}
use policy_assignment_system.Engine.Order.{compare_rules}
use policy_assignment_system.Engine.Triage.{build_employee_context, to_resolved_policy}
use policy_assignment_system.Engine.Resolve.{resolve}
use policy_assignment_system.Engine.Resolve.Tests.{alice, fallback, engineers}
use policy_assignment_system.Assignments.{
  Assignment, close, end_row, effective_on, find_for_employee_as_of,
}
use policy_assignment_system.Assignments.Laws.{ended, find_for_employee_as_of-in_force}
use policy_assignment_system.Reconcile.{
  Loads, Store, ReconciliationResult, ResolutionEvent, done, working, assignment_key, evaluate,
  conflicted, close_all, create_all, log_run, materialize, reconcile,
}
use policy_assignment_system.Reconcile.Current.{Keyed, HasKey, to_create}
use policy_assignment_system.Reconcile.Blocked.{IsBlocked}
use policy_assignment_system.Reconcile.Again.{
  outcome_of, reconcile-working, reconcile_converges, reconcile_idempotent,
}
use policy_assignment_system.Reconcile.History.{
  IsObsolete, IsTraced, table_after, materialize_keeps_history, materialize-IsTraced,
}
use policy_assignment_system.Reconcile.Decisions.{materialize_logs_each_rule}

abbrev pub counted : List Assignment → String
counted rows = show (length rows)

abbrev pub loads : Loads
loads = record {
  employee = some (working, alice);
  rules = fallback ∷ engineers ∷ [];
  group_ids = "g1" ∷ [];
}

abbrev standard_leave : Assignment
standard_leave = record {
  id = "a1";
  organization_id = "o1";
  employee_id = "e1";
  policy_id = "p2";
  category_id = "c1";
  cardinality = one_only;
  source_rule_id = "r2";
  source_rule_version = 1;
  effective_from = 738500 * ms_per_day;
  effective_to = none;
  resolution_status = automatic;
  resolution_reason = "";
}

abbrev pub store : Store
store = record { assignments = standard_leave ∷ []; events = []; audits = [] }

pub store-Keyed : Keyed store.assignments
store-Keyed a b (inl e) (inl f) _ = e ∙ sym f
store-Keyed a b (inr m) _ _ = elim m [ ]
store-Keyed a b _ (inr m) _ = elim m [ ]

reconcile_converges_example :
    ((after : Store) × (result : ReconciliationResult) × (reconcile counted "o1" none "e1" loads
          (739000 * ms_per_day)
          7
          store
        ≡ done after result)
      × ((key : String)
          → HasKey "o1" "e1" (739000 * ms_per_day) after.assignments key
            ↔ In key (map assignment_key (evaluate alice loads (739000 * ms_per_day)).winners)))
    ⊎ ((reconcile counted "o1" none "e1" loads (739000 * ms_per_day) 7 store ≡ conflicted)
        × IsBlocked "o1" "e1"
            (739000 * ms_per_day)
            (evaluate alice loads (739000 * ms_per_day)).winners
            (to_create counted "o1" none "e1"
              (evaluate alice loads (739000 * ms_per_day)).winners
              (739000 * ms_per_day)
              store.assignments)
            store.assignments)
reconcile_converges_example =
    reconcile_converges counted "o1" none "e1" loads alice (739000 * ms_per_day) 7 store refl
      store-Keyed

abbrev run_of : Option (Store × ReconciliationResult) → Store × ReconciliationResult
run_of none = (store, record { added = []; removed = []; unchanged = [] })
run_of (some out) = out

-- What the run leaves and returns.
abbrev pub ran : Store × ReconciliationResult
ran = run_of (
    materialize counted "o1" none "e1" (evaluate alice loads (739000 * ms_per_day))
      (739000 * ms_per_day) 7 store)

carried_out :
    materialize counted "o1" none "e1"
      (evaluate alice loads (739000 * ms_per_day))
      (739000 * ms_per_day)
      7
      store
    ≡ some ran
unfolding materialize create_all evaluate resolve flat_map is_effective_on evaluate_conditions
    matches_clause build_employee_context compare_rules find_for_employee_as_of effective_on
    to_resolved_policy close end_row
carried_out = refl

reconciled_once :
    reconcile counted "o1" none "e1" loads (739000 * ms_per_day) 7 store ≡ done ran.0 ran.1
reconciled_once =
    reconcile-working counted "o1" none "e1" loads alice (739000 * ms_per_day) 7 store refl
    ∙ ap outcome_of carried_out

reconcile_idempotent_example :
    (final : Store) × (second : ReconciliationResult) × (reconcile counted "o1" none "e1" loads
        (739000 * ms_per_day)
        8
        ran.0
      ≡ done final second)
    × (final.assignments ≡ ran.0.assignments)
    × (second.added ≡ [])
    × (second.removed ≡ [])
reconcile_idempotent_example =
    reconcile_idempotent counted "o1" none "e1" loads alice (739000 * ms_per_day) 7 8 store ran.0
      ran.1 refl store-Keyed reconciled_once

-- A run for an earlier day than the start of the open row of the category, which it does not see.
pub early_conflict_test :
    reconcile counted "o1" none "e1" loads (738000 * ms_per_day) 7 store ≡ conflicted
unfolding reconcile materialize create_all evaluate resolve flat_map is_effective_on
    evaluate_conditions matches_clause build_employee_context compare_rules find_for_employee_as_of
    effective_on to_resolved_policy close end_row
early_conflict_test = refl

materialize_keeps_history_example :
    In standard_leave (
      table_after counted "o1" none "e1"
        (evaluate alice loads (739000 * ms_per_day))
        (739000 * ms_per_day)
        7
        store)
    ⊎ (IsObsolete "o1" "e1"
          (739000 * ms_per_day)
          (evaluate alice loads (739000 * ms_per_day))
          standard_leave
        × In (ended (739000 * ms_per_day) standard_leave) (
            table_after counted "o1" none "e1"
              (evaluate alice loads (739000 * ms_per_day))
              (739000 * ms_per_day)
              7
              store))
materialize_keeps_history_example =
    materialize_keeps_history counted "o1" none "e1" (evaluate alice loads (739000 * ms_per_day))
      (739000 * ms_per_day) 7 store store-Keyed standard_leave (inl refl)

materialize_logs_each_rule_example :
    (decisions : List ResolutionEvent) × (ran.0.events ≡ [] ++ decisions)
    × Perm (map (λ d. d.rule_id) decisions) ("r2" ∷ "r1" ∷ [])
materialize_logs_each_rule_example =
    materialize_logs_each_rule counted "o1" none "e1" alice loads (739000 * ms_per_day) 7 store
      ran.0 ran.1 carried_out

abbrev no_winners : ResolutionResult
no_winners = record {
  employee_id = "e1";
  as_of = 739000 * ms_per_day;
  categories = [];
  winners = [];
  trail = [];
  tenure_days = 1000;
}

leave_ended :
    In
      (ended (739000 * ms_per_day) standard_leave)
      (table_after counted "o1" none "e1" no_winners (739000 * ms_per_day) 7 store)
unfolding materialize close_all create_all log_run find_for_employee_as_of effective_on close sort
    end_row
leave_ended = inl refl

materialize-IsTraced_example :
    IsTraced "o1" "e1"
      (739000 * ms_per_day)
      store.assignments
      (ended (739000 * ms_per_day) standard_leave)
materialize-IsTraced_example =
    materialize-IsTraced counted "o1" none "e1" no_winners (739000 * ms_per_day) 7 store
      (ended (739000 * ms_per_day) standard_leave) leave_ended

find_for_employee_as_of-in_force_example :
    In standard_leave
      (find_for_employee_as_of "o1" "e1" (739000 * ms_per_day) (standard_leave ∷ []))
    ↔ (In standard_leave (standard_leave ∷ [])
        × (standard_leave.organization_id ≡ "o1")
        × (standard_leave.employee_id ≡ "e1")
        × (standard_leave.effective_from ≤ 739000 * ms_per_day)
        × ((end : Date) → standard_leave.effective_to ≡ some end → 739000 * ms_per_day < end))
find_for_employee_as_of-in_force_example =
    find_for_employee_as_of-in_force "o1" "e1" (739000 * ms_per_day) (standard_leave ∷ [])
      standard_leave
