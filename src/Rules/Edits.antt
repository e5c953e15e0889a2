-- ===== src/Rules/Edits.antt =====
-- apps/api/src/services/rule.ts: what `applyEdit` does to the tables, when the rule that it was given
-- is the one it finds.
use policy_assignment_system.Prelude.{
  ℕ, ◌≤◌, String, ◌≡◌, ◌≢◌, refl, sym, ap, ◌∙◌, subst, ◌⊎◌, ◌↔◌, inl, inr, Bool, true, false,
  if◌then◌else◌, Bool-cases, Bool-clash, Option, none, some, List, [], ◌∷◌, ◌++◌, ◌==◌, In, In-map,
  In-of_map, arith, eq_iff,
}
use policy_assignment_system.Rules.{
  RuleState, PolicyRule, PolicyRuleVersion, RuleAction, RuleStore, RuleEnv, done, find_rule,
}
use policy_assignment_system.Rules.Writes.{
  stored, has_evaluable_change, snapshot, names, update_row, update_rules, matching_rows,
  next_version, record_edit, apply_edit,
}
use policy_assignment_system.Rules.Versions.{
  has_evaluable_change-false_iff, same-unchanged, IsExplained,
}
use policy_assignment_system.Rules.Minting.{Written, IsExplained-unminted, IsExplained-minted}

names_iff :
    (organization_id id : String) (rule : PolicyRule)
    → (names organization_id id rule ≡ true)
      ↔ ((rule.id ≡ id) × (rule.organization_id ≡ organization_id))
names_iff organization_id id rule =
    ground (arith, eq_iff rule.id id, eq_iff rule.organization_id organization_id)

-- What is found is in the table, under the id and the organization.
pub find_rule_sound :
    (organization_id id : String) (rules : List PolicyRule) {rule : PolicyRule}
    → find_rule organization_id id rules ≡ some rule
    → In rule rules × (rule.id ≡ id) × (rule.organization_id ≡ organization_id)
unfolding find_rule
find_rule_sound organization_id id [] h = cc
find_rule_sound organization_id id (r ∷ rules) {rule} h =
    elim (Bool-cases (names organization_id id r)) [
      | inl hit ↦
          let same : r ≡ rule = some_injective (rw hit at h) in
          let (e, f) = (names_iff organization_id id r).0 hit in
          (
            inl (sym same),
            sym (ap (λ x. x.id) same) ∙ e,
            sym (ap (λ x. x.organization_id) same) ∙ f,
          )
      | inr miss ↦
          let (m, e, f) = find_rule_sound organization_id id rules (rw miss at h) in (inr m, e, f)
    ]
  where
    some_injective : {a b : PolicyRule} → some a ≡ some b → a ≡ b
    some_injective e = cc e

-- The row that an edit leaves.
abbrev pub edited : PolicyRule → RuleState → PolicyRule
edited before next = record before { state = stored next; version = next_version before next }

module _ (organization_id id : String) (next : RuleState) (version : ℕ) where
  update_row-names :
      (rule : PolicyRule)
      → names organization_id id (update_row organization_id id next version rule)
        ≡ names organization_id id rule
  unfolding update_row
  update_row-names rule = elim (Bool-cases (names organization_id id rule)) [
    | inl hit ↦ rw hit hit
    | inr miss ↦ rw miss miss
  ]

  update_row-hit :
      (rule : PolicyRule)
      → names organization_id id rule ≡ true
      → update_row organization_id id next version rule
        ≡ record rule { state = stored next; version = version }
  unfolding update_row
  update_row-hit rule hit = rw hit refl

  update_row-miss :
      (rule : PolicyRule)
      → names organization_id id rule ≡ false
      → update_row organization_id id next version rule ≡ rule
  unfolding update_row
  update_row-miss rule miss = rw miss refl

  find_rule-update :
      (rules : List PolicyRule) {rule : PolicyRule}
      → find_rule organization_id id rules ≡ some rule
      → find_rule organization_id id (update_rules organization_id id next version rules)
        ≡ some (record rule { state = stored next; version = version })
  unfolding find_rule
  find_rule-update [] h = cc
  find_rule-update (r ∷ rules) {rule} h = elim (Bool-cases (names organization_id id r)) [
    | inl hit ↦ rw (update_row-names r, hit, update_row-hit r hit) (ap (λ o. found o) (rw hit at h))
    | inr miss ↦ rw (update_row-names r, miss) (find_rule-update rules (rw miss at h))
  ]
    where
      found : Option PolicyRule → Option PolicyRule
      found none = none
      found (some x) = some (record x { state = stored next; version = version })

  matching_rows-found :
      (rules : List PolicyRule) {rule : PolicyRule}
      → find_rule organization_id id rules ≡ some rule
      → 1 ≤ matching_rows organization_id id rules
  unfolding find_rule
  matching_rows-found [] h = cc
  matching_rows-found (r ∷ rules) h = elim (Bool-cases (names organization_id id r)) [
    | inl hit ↦ rw hit (omega arith)
    | inr miss ↦ rw miss (matching_rows-found rules (rw miss at h))
  ]

-- The edited rule is the one that is found afterwards.
pub find_rule-edit :
    (organization_id id : String) (before : PolicyRule) (next : RuleState) (rules : List PolicyRule)
    → find_rule organization_id id rules ≡ some before
    → find_rule organization_id id
        (update_rules organization_id before.id next (next_version before next) rules)
      ≡ some (edited before next)
find_rule-edit organization_id id before next rules found =
    subst
      (λ x.
        find_rule organization_id id
          (update_rules organization_id x next (next_version before next) rules)
        ≡ some (edited before next))
      (sym (find_rule_sound organization_id id rules found).1)
      (find_rule-update organization_id id next _ rules found)

module _ (env : RuleEnv) (organization_id actor_id : String) (before : PolicyRule)
    (next : RuleState) (action : RuleAction) (event_type : String) (store : RuleStore) where
  -- The store after the edit.
  abbrev pub edited_store : RuleStore
  edited_store =
      record_edit env actor_id before next action event_type
        (update_rules organization_id before.id next (next_version before next) store.rules)
        (edited before next) store

  -- An edit of a rule that is there succeeds.
  pub apply_edit-done :
      find_rule organization_id before.id store.rules ≡ some before
      → apply_edit env organization_id actor_id before next action event_type store
        ≡ done (edited before next) edited_store
  unfolding apply_edit
  apply_edit-done found =
      rw
        (
          zero_differs (matching_rows organization_id before.id store.rules)
              (matching_rows-found organization_id before.id next 0 store.rules found),
          find_rule-update organization_id before.id next (next_version before next) store.rules
              found,
        )
        refl
    where
      zero_differs : (n : ℕ) → 1 ≤ n → (n == 0) ≡ false
      zero_differs n h = ground arith

module _ (organization_id : String) (before : PolicyRule) (next : RuleState)
    {rules : List PolicyRule} {versions : List PolicyRuleVersion} (ok : IsExplained rules versions)
    (found : find_rule organization_id before.id rules ≡ some before) where
  abbrev updated : List PolicyRule
  updated = update_rules organization_id before.id next (next_version before next) rules

  update_row-before :
      update_row organization_id before.id next (next_version before next) before
      ≡ edited before next
  update_row-before = update_row-hit organization_id before.id next _ before (
      (names_iff organization_id before.id before).1
        (refl, (find_rule_sound organization_id before.id rules found).2))

  Written-edit : Written rules (edited before next) updated
  Written-edit = record {
    here = subst (λ r. In r updated) update_row-before (In-map _ before rules held);
    rest = λ r m. let (old, n, e) = In-of_map _ rules m in from_old r old n e;
    kept = λ r m. (update r, In-map update r rules m, same_id r);
  }
    where
      held : In before rules
      held = (find_rule_sound organization_id before.id rules found).0

      update : PolicyRule → PolicyRule
      update = update_row organization_id before.id next (next_version before next)

      same_id : (r : PolicyRule) → (update r).id ≡ r.id
      same_id r = elim (Bool-cases (names organization_id before.id r)) [
        | inl hit ↦ ap (λ x. x.id) (update_row-hit organization_id before.id next _ r hit)
        | inr miss ↦ ap (λ x. x.id) (update_row-miss organization_id before.id next _ r miss)
      ]

      from_old :
          (r old : PolicyRule)
          → In old rules
          → r ≡ update old
          → (r ≡ edited before next) ⊎ (In r rules × (r.id ≢ before.id))
      from_old r old n e = elim (Bool-cases (names organization_id before.id old)) [
        | inl hit ↦
            let same =
              ok.keyed old before n held ((names_iff organization_id before.id old).0 hit).0 in
            inl (e ∙ (ap update same ∙ update_row-before))
        | inr miss ↦
            let same = e ∙ update_row-miss organization_id before.id next _ old miss in
            inr (
              subst (λ x. In x rules) (sym same) n,
              λ f. other old n miss (sym (ap (λ x. x.id) same) ∙ f),
            )
      ]
        where
          other :
              (old : PolicyRule)
              → In old rules
              → names organization_id before.id old ≡ false
              → old.id ≡ before.id
              → ⊥
          other old n miss f =
              let same = ok.keyed old before n held f in
              let hit =
                (names_iff organization_id before.id before).1
                  (refl, (find_rule_sound organization_id before.id rules found).2) in
              Bool-clash (sym (ap (names organization_id before.id) same) ∙ miss) hit

  -- After an edit every rule is still explained.
  pub IsExplained-edit :
      (actor_id : String)
      → IsExplained updated (
          if has_evaluable_change before.state next
          then versions ++ snapshot actor_id (edited before next) ∷ []
          else versions)
  IsExplained-edit actor_id = elim (Bool-cases (has_evaluable_change before.state next)) [
    | inr none_changed ↦ subst snapshots (sym none_changed) (
        IsExplained-unminted ok Written-edit before held refl (rw none_changed refl) refl (
          same-unchanged before.state next
            ((has_evaluable_change-false_iff before.state next).0 none_changed)))
    | inl changed ↦ subst snapshots (sym changed) (
        IsExplained-minted ok Written-edit before.version (rw changed refl)
          (λ w m e. ok.bounded before w held m e) (λ v low high. ok.dense before v held low high)
          actor_id)
  ]
    where
      held : In before rules
      held = (find_rule_sound organization_id before.id rules found).0

      snapshots : Bool → Type 0
      snapshots minted =
          IsExplained updated
            (if minted then versions ++ snapshot actor_id (edited before next) ∷ [] else versions)
