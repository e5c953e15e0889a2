-- ===== src/Rules/Laws.antt =====
-- apps/api/src/services/rule.ts: what single requests do, and what the relay makes of their events.
use policy_assignment_system.Prelude.{
  ◌+◌, ◌≤◌, String, ◌≡◌, ◌≢◌, refl, sym, ap, ◌∙◌, subst, ◌⊎◌, inl, inr, Bool, false, not,
  if◌then◌else◌, Bool-cases, Bool-clash, Option-cases, str_eq-differ, none, some, List, [], ◌∷◌,
  ◌++◌, arith, pos,
}
use policy_assignment_system.Dates.{Date, Period, is_effective_on, days_between}
use policy_assignment_system.Outbox.{OutboxEvent, enqueue}
use policy_assignment_system.Relay.{
  fan_out, enqueue_job, plan, plan_rule, plan_group, job_of, text_of, integer_of,
}
use policy_assignment_system.Rules.{
  RuleState, PolicyRule, RuleAction, rule_deleted, rule_enabled, rule_disabled, RuleStore, RuleEnv,
  Outcome, done, find_rule, rule_payload,
}
use policy_assignment_system.Rules.Writes.{
  stored, has_evaluable_change, snapshot, record_edit, apply_edit, retired, retire, enqueue_rule,
}
use policy_assignment_system.Rules.Requests.{set_enabled, soft_delete, perform, with_rule}
use policy_assignment_system.Rules.Versions.{Unchanged, has_evaluable_change-false_iff}
use policy_assignment_system.Rules.Edits.{
  find_rule_sound, find_rule-edit, edited, edited_store, apply_edit-done,
}

abbrev pub period_of : RuleState → Period
period_of state = record {
  effective_from = state.effective_from;
  effective_to = state.effective_to;
}

-- A retired rule is in force on no day from then on.
retired-out_of_force :
    (today day : Date) (state : RuleState)
    → today ≤ day
    → is_effective_on (period_of (retired today state)) day ≡ false
unfolding is_effective_on days_between
retired-out_of_force today day state h = ground arith

module _ (env : RuleEnv) (organization_id actor_id id : String) (store : RuleStore)
    (before : PolicyRule) (found : find_rule organization_id id store.rules ≡ some before) where
  pub found_itself : find_rule organization_id before.id store.rules ≡ some before
  found_itself =
      subst (λ x. find_rule organization_id x store.rules ≡ some before)
        (sym (find_rule_sound organization_id id store.rules found).1) found

  with_rule-found :
      (act : PolicyRule → Outcome) → with_rule organization_id id store act ≡ act before
  with_rule-found act = rw (with_rule, found) refl

  -- Deleting a rule that is there succeeds, and leaves a row that is disabled and not in force on
  -- the day of the request or any day after it.
  pub soft_delete-retires :
      (day : Date)
      → env.today ≤ day
      → (rule : PolicyRule) × (next : RuleStore) × (perform env organization_id actor_id
            (soft_delete id)
            store
          ≡ done rule next)
        × (find_rule organization_id id next.rules ≡ some rule)
        × (rule.state.enabled ≡ false)
        × (is_effective_on (period_of rule.state) day ≡ false)
  unfolding perform retire record_edit
  soft_delete-retires day past = (
    edited before (retired env.today before.state),
    edited_store env organization_id actor_id before (retired env.today before.state) rule_deleted
        "rule.deleted" store,
    with_rule-found _
        ∙ apply_edit-done env organization_id actor_id before (retired env.today before.state)
            rule_deleted "rule.deleted" store found_itself,
    find_rule-edit organization_id id before _ store.rules found,
    refl,
    retired-out_of_force env.today day before.state past,
  )

  -- The rule is found in the new store, with the state that was asked for. Either all that the engine
  -- reads stayed the same, and no version was minted and no event left; or the version grew by one, with
  -- one snapshot of the new row and one event for it.
  abbrev pub IsEdit : RuleState → String → PolicyRule → RuleStore → Type 0
  IsEdit next event_type rule after =
      (find_rule organization_id id after.rules ≡ some rule)
      × (rule.state ≡ stored next)
      × ((Unchanged before.state next
            × (rule.version ≡ before.version)
            × (after.versions ≡ store.versions)
            × (after.outbox ≡ store.outbox))
          ⊎ ((¬ Unchanged before.state next)
              × (rule.version ≡ before.version + 1)
              × (after.versions ≡ store.versions ++ snapshot actor_id rule ∷ [])
              × (after.outbox ≡ enqueue_rule env event_type rule store.outbox)))

  -- An edit of a rule that is there succeeds. Where policy, employee, priority, state, dates and the
  -- text of the conditions' JSON stay the same it mints no version and leaves no event; otherwise (so
  -- also where only the order of the JSON's keys differs) it adds one to the version, one snapshot of
  -- the new row to the versions and one event for it to the outbox.
  pub apply_edit-effects :
      (next : RuleState) (action : RuleAction) (event_type : String)
      → (rule : PolicyRule) × (after : RuleStore) × (apply_edit env organization_id actor_id before
            next action event_type store
          ≡ done rule after)
        × IsEdit next event_type rule after
  unfolding record_edit
  apply_edit-effects next action event_type = (
    edited before next,
    edited_store env organization_id actor_id before next action event_type store,
    apply_edit-done env organization_id actor_id before next action event_type store found_itself,
    (
      find_rule-edit organization_id id before next store.rules found,
      refl,
      elim (Bool-cases (has_evaluable_change before.state next)) [
        | inr same ↦ inl (
          (has_evaluable_change-false_iff before.state next).0 same,
          rw same refl,
          rw same refl,
          rw same refl,
        )
        | inl changed ↦ inr (
          λ u. Bool-clash ((has_evaluable_change-false_iff before.state next).1 u) changed,
          rw changed refl,
          rw changed refl,
          rw changed refl,
        )
      ],
    ),
  )

  -- What an edit that succeeded did.
  pub apply_edit-IsEdit :
      (next : RuleState) (action : RuleAction) (event_type : String) (rule : PolicyRule)
      (after : RuleStore)
      → apply_edit env organization_id actor_id before next action event_type store
        ≡ done rule after
      → IsEdit next event_type rule after
  apply_edit-IsEdit next action event_type rule after h =
      let (r, a, success, effects) = apply_edit-effects next action event_type in
      let (e, f) = parts (sym success ∙ h) in
      subst (λ x. IsEdit next event_type x after) e
        (subst (λ x. IsEdit next event_type r x) f effects)
    where
      parts : {r s : PolicyRule} {a b : RuleStore} → done r a ≡ done s b → (r ≡ s) × (a ≡ b)
      parts e = (cc e, cc e)

  set_enabled-turns :
      (enabled : Bool)
      → before.state.enabled ≡ not enabled
      → (rule : PolicyRule) × (after : RuleStore) × (perform env organization_id actor_id
            (set_enabled id enabled)
            store
          ≡ done rule after)
        × (find_rule organization_id id after.rules ≡ some rule)
        × (rule.state ≡ stored (record before.state { enabled = enabled }))
        × (rule.version ≡ before.version + 1)
  unfolding perform
  set_enabled-turns enabled e =
      let (rule, after, success, (again, state, versions)) =
        apply_edit-effects (record before.state { enabled = enabled })
          (if enabled then rule_enabled else rule_disabled)
          (if enabled then "rule.enabled" else "rule.disabled") in
      (
        rule,
        after,
        with_rule-found _ ∙ success,
        again,
        state,
        elim versions [
          | inl (same, _, _, _) ↦ absurd (differ enabled (sym e ∙ same.3))
          | inr (_, next, _, _) ↦ next
        ],
      )
    where
      differ : (b : Bool) → not b ≢ b
      differ b h = ground arith

-- Turning a rule off or on and back again, by two requests, succeeds both times, and leaves the
-- state that it had, two versions later.
pub set_enabled-back :
    (env later : RuleEnv) (organization_id actor_id id : String) (store : RuleStore)
    (before : PolicyRule) (enabled : Bool)
    → find_rule organization_id id store.rules ≡ some before
    → before.state.enabled ≡ enabled
    → (first : PolicyRule) × (middle : RuleStore) × (perform env organization_id actor_id
          (set_enabled id (not enabled))
          store
        ≡ done first middle)
      × ((second : PolicyRule) × (last : RuleStore) × (perform later organization_id actor_id
              (set_enabled id enabled)
              middle
            ≡ done second last)
          × (second.state ≡ stored before.state)
          × (second.version ≡ before.version + 2))
set_enabled-back env later organization_id actor_id id store before enabled found e =
    let (first, middle, success, again, state, version) =
      set_enabled-turns env organization_id actor_id id store before found (not enabled)
        (e ∙ sym (not-not enabled)) in
    let (second, last, success', _, state', version') =
      set_enabled-turns later organization_id actor_id id middle first again enabled
        (ap (λ s. s.enabled) state) in
    (
      first,
      middle,
      success,
      (
        second,
        last,
        success',
        state' ∙ (ap (λ s. stored (record s { enabled = enabled })) state ∙ restored),
        omega (arith, version, version'),
      ),
    )
  where
    not-not : (b : Bool) → not (not b) ≡ b
    not-not b = ground arith

    restored : stored (record before.state { enabled = enabled }) ≡ stored before.state
    restored = rw (sym e) refl

-- The event that an edit leaves tells the relay whom to reconcile: the employee of an override, and
-- else whomever the fan-out finds for the rule at its version.
pub enqueue_rule-plan :
    (env : RuleEnv) (event_type : String) (rule : PolicyRule) (rows : List OutboxEvent)
    → event_type ≢ "employee.terminated"
    → rule.id ≢ ""
    → rule.state.employee_id ≢ some ""
    → (row : OutboxEvent) × (enqueue_rule env event_type rule rows ≡ rows ++ row ∷ [])
      × (row.aggregate_id ≡ rule.id)
      × (plan row ≡ elim rule.state.employee_id [
        | none ↦
            fan_out rule.id (some (pos rule.version)) (text_of (rule_payload rule).effective_from)
        | some id ↦ enqueue_job (job_of row id)
      ])
unfolding enqueue_rule plan enqueue text_of plan_rule plan_group integer_of
enqueue_rule-plan env event_type rule rows event id employee = (
  _,
  refl,
  refl,
  elim (Option-cases rule.state.employee_id) [
    | inl e ↦
        rw (str_eq-differ event_type _ event, e, plan_rule, text_of, str_eq-differ rule.id "" id)
          refl
    | inr (who, e) ↦
        rw
          (
            str_eq-differ event_type _ event,
            e,
            plan_rule,
            text_of,
            str_eq-differ who "" (λ f. employee (e ∙ ap (λ s. some s) f)),
          )
          refl
  ],
)
