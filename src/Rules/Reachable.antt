-- ===== src/Rules/Reachable.antt =====
-- apps/api/src/services/rule.ts: requests one after another, and that each keeps the rules explained.
use policy_assignment_system.Prelude.{
  ℕ, ◌≤◌, String, ◌≡◌, ◌≢◌, refl, sym, ◌∙◌, subst, inl, inr, Bool-cases, Option-cases, some, [],
  ◌∷◌, ◌++◌, In, In-append_left, In-snoc_cases, In-snoc_last, arith,
}
use policy_assignment_system.Engine.{RuleType, is_manual}
use policy_assignment_system.Rules.{
  RuleState, PolicyRule, PolicyRuleVersion, RuleAction, override_created, RuleStore, RuleEnv,
  Outcome, failed, done, find_rule,
}
use policy_assignment_system.Rules.Writes.{new_rule, insert_rule, record_edit, apply_edit, retire}
use policy_assignment_system.Rules.Requests.{
  CreateRuleInput, Request, create, patch, set_priority, set_enabled, soft_delete, create_override,
  delete_override, is_missing, names_nobody, names_no_policy, is_insane_window, patched,
  initial_state, create_rule, with_rule, override_input, perform,
}
use policy_assignment_system.Rules.Versions.{IsExplained}
use policy_assignment_system.Rules.Minting.{Written, IsExplained-minted}
use policy_assignment_system.Rules.Edits.{find_rule_sound, apply_edit-done, IsExplained-edit}

abbrev pub StoreIsExplained : RuleStore → Type 0
StoreIsExplained store = IsExplained store.rules store.versions

-- The id that the database gives to a new rule is no rule's.
abbrev pub IsFresh : RuleEnv → RuleStore → Type 0
IsFresh env store = (r : PolicyRule) → In r store.rules → r.id ≢ env.rule_id

-- What an outcome leaves behind is explained.
abbrev Leaves : Outcome → Type 0
Leaves (failed e) = Unit
Leaves (done rule store) = StoreIsExplained store

pub empty-IsExplained : IsExplained [] []
empty-IsExplained = record {
  keyed = λ r s m. elim m [ ];
  owned = λ w m. elim m [ ];
  bounded = λ r w m. elim m [ ];
  dense = λ r v m. elim m [ ];
  unique = λ w x m. elim m [ ];
  positive = λ r m. elim m [ ];
  current = λ r w m. elim m [ ];
}

module _ (env : RuleEnv) (organization_id actor_id : String) (store : RuleStore)
    (ok : StoreIsExplained store) where
  insert_rule-Leaves :
      IsFresh env store
      → (rule_type : RuleType) (state : RuleState) (action : RuleAction)
      → StoreIsExplained
          (insert_rule env actor_id action (new_rule env organization_id rule_type state) store)
  unfolding insert_rule
  insert_rule-Leaves fresh rule_type state action =
      IsExplained-minted ok written 0 (omega arith) none_yet
        (λ v low high. absurd (between low high)) actor_id
    where
      rule : PolicyRule
      rule = new_rule env organization_id rule_type state

      written : Written store.rules rule (store.rules ++ rule ∷ [])
      written = record {
        here = In-snoc_last rule store.rules;
        rest = λ r m. elim (In-snoc_cases r rule store.rules m) [
          | inl n ↦ inr (n, fresh r n)
          | inr e ↦ inl e
        ];
        kept = λ r m. (r, In-append_left r store.rules (rule ∷ []) m, refl);
      }

      none_yet :
          (w : PolicyRuleVersion) → In w store.versions → w.rule_id ≡ env.rule_id → w.version ≤ 0
      none_yet w m e = let (r, n, f) = ok.owned w m in absurd (fresh r n (sym f ∙ e))

      between : {v : ℕ} → 1 ≤ v → v ≤ 0 → ⊥
      between low high = omega arith

  create_rule-Leaves :
      IsFresh env store
      → (input : CreateRuleInput) (action : RuleAction)
      → Leaves (create_rule env organization_id actor_id input action store)
  unfolding create_rule
  create_rule-Leaves fresh input action =
      elim (Bool-cases (is_missing (env.policies organization_id input.policy_id))) [
        | inl missing ↦ rw missing tt
        | inr there ↦ elim (Bool-cases (names_nobody env organization_id input.employee_id)) [
          | inl nobody ↦ rw (there, nobody) tt
          | inr somebody ↦
              rw (there, somebody)
                (insert_rule-Leaves fresh input.rule_type (initial_state input) action)
        ]
      ]

  -- An edit of the rule that was found.
  apply_edit-Leaves :
      (before : PolicyRule)
      → find_rule organization_id before.id store.rules ≡ some before
      → (next : RuleState) (action : RuleAction) (event_type : String)
      → Leaves (apply_edit env organization_id actor_id before next action event_type store)
  unfolding record_edit
  apply_edit-Leaves before found next action event_type =
      rw (apply_edit-done env organization_id actor_id before next action event_type store found)
        (IsExplained-edit organization_id before next ok found actor_id)

  retire-Leaves :
      (before : PolicyRule)
      → find_rule organization_id before.id store.rules ≡ some before
      → (action : RuleAction) → Leaves (retire env organization_id actor_id before action store)
  unfolding retire
  retire-Leaves before found action = apply_edit-Leaves before found _ action _

  -- An operation on a rule that it looks up.
  with_rule-Leaves :
      (id : String) (act : PolicyRule → Outcome)
      → ((before : PolicyRule)
          → find_rule organization_id before.id store.rules ≡ some before
          → Leaves (act before))
      → Leaves (with_rule organization_id id store act)
  with_rule-Leaves id act leaves = elim (Option-cases (find_rule organization_id id store.rules)) [
    | inl missing ↦ rw (Leaves, with_rule, missing) tt
    | inr (before, found) ↦
        let same = (find_rule_sound organization_id id store.rules found).1 in
        rw (Leaves, with_rule, found)
          (leaves before
            (subst (λ x. find_rule organization_id x store.rules ≡ some before) (sym same) found))
  ]

  pub perform-Leaves :
      IsFresh env store
      → (request : Request) → Leaves (perform env organization_id actor_id request store)
  unfolding perform
  perform-Leaves fresh (create input) = create_rule-Leaves fresh input _
  perform-Leaves fresh (patch id input) = with_rule-Leaves id _ (λ before found.
      elim (Bool-cases (names_no_policy env organization_id input.policy_id before)) [
        | inl missing ↦ rw missing tt
        | inr there ↦ elim (Bool-cases (is_insane_window (patched input before.state))) [
          | inl insane ↦ rw (there, insane) tt
          | inr sane ↦ rw (there, sane) (apply_edit-Leaves before found _ _ _)
        ]
      ])
  perform-Leaves fresh (set_priority id priority) =
      with_rule-Leaves id _ (λ before found. apply_edit-Leaves before found _ _ _)
  perform-Leaves fresh (set_enabled id enabled) =
      with_rule-Leaves id _ (λ before found. apply_edit-Leaves before found _ _ _)
  perform-Leaves fresh (soft_delete id) =
      with_rule-Leaves id _ (λ before found. retire-Leaves before found _)
  perform-Leaves fresh (create_override employee_id input) =
      elim (Option-cases (env.employees organization_id employee_id)) [
        | inl missing ↦ rw (Leaves, perform, missing) tt
        | inr (name, e) ↦ elim (Option-cases (env.policies organization_id input.policy_id)) [
          | inl missing ↦ rw (Leaves, perform, e, missing) tt
          | inr (policy, f) ↦
              rw (Leaves, perform, e, f)
                (create_rule-Leaves fresh (override_input policy name employee_id input)
                  override_created)
        ]
      ]
  perform-Leaves fresh (delete_override id) = with_rule-Leaves id _ (λ before found.
      elim (Bool-cases (is_manual before.rule_type)) [
        | inl override ↦ rw override (retire-Leaves before found _)
        | inr other ↦ rw other tt
      ])

-- The stores that requests lead to from an empty one.
pub data Reachable : RuleStore → Type 0 where
  start : {store : RuleStore} → (store.rules ≡ []) → (store.versions ≡ []) → Reachable store
  step :
      {store next : RuleStore}
      → Reachable store
      → (env : RuleEnv) (organization_id actor_id : String) (request : Request) (rule : PolicyRule)
      → IsFresh env store
      → perform env organization_id actor_id request store ≡ done rule next
      → Reachable next

-- In every store that requests lead to, each rule has one row, one snapshot for each version that it
-- has had, from 1 to the current one, and a current snapshot that agrees with it on its type, policy,
-- employee, priority, conditions, state and dates.
pub Reachable-IsExplained : {store : RuleStore} → Reachable store → StoreIsExplained store
Reachable-IsExplained (start no_rules no_versions) = rw (no_rules, no_versions) empty-IsExplained
Reachable-IsExplained (step before env organization_id actor_id request rule fresh e) =
    subst Leaves e
      (perform-Leaves env organization_id actor_id _ (Reachable-IsExplained before) fresh request)
