-- ===== src/Rules/Versions.antt =====
-- apps/api/src/services/rule.ts: what the table of snapshots owes to the table of rules, and that
-- a minted snapshot pays it.
use policy_assignment_system.Prelude.{
  ℕ, ◌≤◌, String, ◌≡◌, refl, ap, ◌∙◌, ◌↔◌, Bool, true, false, Option, none, some, List, In, arith,
  eq_iff,
}
use policy_assignment_system.Dates.{Date}
use policy_assignment_system.Rules.{RuleState, PolicyRule, PolicyRuleVersion}
use policy_assignment_system.Rules.Json.{same_json_iff}
use policy_assignment_system.Rules.Writes.{
  stored, eq_text, eq_date, eq_enabled, has_evaluable_change,
}

-- Two states that the engine cannot tell apart.
pub record SameEvaluable (left right : RuleState) : Type 0 where
  pub policy : left.policy_id ≡ right.policy_id
  pub employee : left.employee_id ≡ right.employee_id
  pub priority : left.priority ≡ right.priority
  pub conditions : left.json.conditions ≡ right.json.conditions
  pub enabled : left.enabled ≡ right.enabled
  pub start : left.effective_from ≡ right.effective_from
  pub end : left.effective_to ≡ right.effective_to

pub same_stored : (state : RuleState) → SameEvaluable (stored state) state
same_stored state = record {
  policy = refl;
  employee = refl;
  priority = refl;
  conditions = refl;
  enabled = refl;
  start = refl;
  end = refl;
}

pub same_trans : {a b c : RuleState} → SameEvaluable a b → SameEvaluable b c → SameEvaluable a c
same_trans h k = record {
  policy = h.policy ∙ k.policy;
  employee = h.employee ∙ k.employee;
  priority = h.priority ∙ k.priority;
  conditions = h.conditions ∙ k.conditions;
  enabled = h.enabled ∙ k.enabled;
  start = h.start ∙ k.start;
  end = h.end ∙ k.end;
}

eq_text_iff : (a b : Option String) → (eq_text a b ≡ true) ↔ (a ≡ b)
eq_text_iff none none = ground arith
eq_text_iff (some s) (some t) = ground (arith, eq_iff s t)
eq_text_iff none (some t) = ground arith
eq_text_iff (some s) none = ground arith

eq_date_iff : (a b : Option Date) → (eq_date a b ≡ true) ↔ (a ≡ b)
eq_date_iff a b = ground arith

eq_enabled_iff : (a b : Bool) → (eq_enabled a b ≡ true) ↔ (a ≡ b)
eq_enabled_iff a b = ground arith

-- All that `hasEvaluableChange` compares is the same.
abbrev pub Unchanged : RuleState → RuleState → Type 0
Unchanged before next =
    (before.policy_id ≡ next.policy_id)
    × (before.employee_id ≡ next.employee_id)
    × (before.priority ≡ next.priority)
    × (before.enabled ≡ next.enabled)
    × (before.effective_from ≡ next.effective_from)
    × (before.effective_to ≡ next.effective_to)
    × (before.json ≡ next.json)

-- An edit is no evaluable change exactly if only the name may differ.
pub has_evaluable_change-false_iff :
    (before next : RuleState) → (has_evaluable_change before next ≡ false) ↔ Unchanged before next
unfolding has_evaluable_change
has_evaluable_change-false_iff before next = ground (
  arith,
  eq_iff before.policy_id next.policy_id,
  eq_text_iff before.employee_id next.employee_id,
  eq_enabled_iff before.enabled next.enabled,
  eq_date_iff before.effective_to next.effective_to,
  same_json_iff before.json next.json,
)

pub same-unchanged :
    (before next : RuleState) → Unchanged before next → SameEvaluable before (stored next)
same-unchanged before next (p, e, n, b, f, t, j) = record {
  policy = p;
  employee = e;
  priority = n;
  conditions = ap (λ x. x.conditions) j;
  enabled = b;
  start = f;
  end = t;
}

-- Every rule can be explained at each version it has had: rules have one row each, each version from 1
-- to the current one has one snapshot, and the snapshot of the current version says of the rule its
-- type and all that an edit compares.
pub record IsExplained (rules : List PolicyRule) (versions : List PolicyRuleVersion) : Type 0 where
  pub keyed : (r s : PolicyRule) → In r rules → In s rules → r.id ≡ s.id → r ≡ s
  pub owned :
      (w : PolicyRuleVersion) → In w versions → (r : PolicyRule) × In r rules × (w.rule_id ≡ r.id)
  pub bounded :
      (r : PolicyRule) (w : PolicyRuleVersion)
      → In r rules
      → In w versions
      → w.rule_id ≡ r.id
      → w.version ≤ r.version
  pub dense :
      (r : PolicyRule) (v : ℕ)
      → In r rules
      → 1 ≤ v
      → v ≤ r.version
      → (w : PolicyRuleVersion) × In w versions × (w.rule_id ≡ r.id) × (w.version ≡ v)
  pub unique :
      (w x : PolicyRuleVersion)
      → In w versions
      → In x versions
      → w.rule_id ≡ x.rule_id
      → w.version ≡ x.version
      → w ≡ x
  pub positive : (r : PolicyRule) → In r rules → 1 ≤ r.version
  pub current :
      (r : PolicyRule) (w : PolicyRuleVersion)
      → In r rules
      → In w versions
      → w.rule_id ≡ r.id
      → w.version ≡ r.version
      → (w.rule_type ≡ r.rule_type) × SameEvaluable w.state r.state
