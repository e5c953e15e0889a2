-- ===== src/Rules/Minting.antt =====
-- apps/api/src/services/rule.ts: that an edit keeps the rules explained, with a snapshot or without.
use policy_assignment_system.Prelude.{
  ℕ, ◌+◌, ◌≤◌, String, ◌≡◌, ◌≢◌, refl, sym, ap, ◌∙◌, ◌⊎◌, inl, inr, List, [], ◌∷◌, ◌++◌, In,
  In-append_left, In-snoc_cases, In-snoc_last, arith,
}
use policy_assignment_system.Rules.{PolicyRule, PolicyRuleVersion}
use policy_assignment_system.Rules.Writes.{snapshot}
use policy_assignment_system.Rules.Versions.{SameEvaluable, same_stored, same_trans, IsExplained}

-- The rules after one of them was written: that rule, and the others as they were.
pub record Written (rules : List PolicyRule) (after : PolicyRule) (next : List PolicyRule)
    : Type 0 where
  pub here : In after next
  pub rest : (r : PolicyRule) → In r next → (r ≡ after) ⊎ (In r rules × (r.id ≢ after.id))
  pub kept : (r : PolicyRule) → In r rules → (s : PolicyRule) × In s next × (s.id ≡ r.id)

module _ {rules : List PolicyRule} {versions : List PolicyRuleVersion} {after : PolicyRule}
    {next : List PolicyRule} (ok : IsExplained rules versions)
    (written : Written rules after next) where
  keyed-written : (r s : PolicyRule) → In r next → In s next → r.id ≡ s.id → r ≡ s
  keyed-written r s m n e = by_cases (written.rest r m) (written.rest s n)
    where
      by_cases :
          (r ≡ after) ⊎ (In r rules × (r.id ≢ after.id))
          → (s ≡ after) ⊎ (In s rules × (s.id ≢ after.id))
          → r ≡ s
      by_cases (inl f) (inl g) = f ∙ sym g
      by_cases (inl f) (inr (_, g)) = absurd (g (sym e ∙ ap (λ x. x.id) f))
      by_cases (inr (_, f)) (inl g) = absurd (f (e ∙ ap (λ x. x.id) g))
      by_cases (inr (k, _)) (inr (l, _)) = ok.keyed r s k l e

  owned-written :
      (w : PolicyRuleVersion) → In w versions → (r : PolicyRule) × In r next × (w.rule_id ≡ r.id)
  owned-written w m =
      let (r, k, e) = ok.owned w m in let (s, l, f) = written.kept r k in (s, l, e ∙ sym f)

  -- An edit that mints nothing.
  module _ (before : PolicyRule) (held : In before rules) (id : after.id ≡ before.id)
      (version : after.version ≡ before.version) (kind : after.rule_type ≡ before.rule_type)
      (same : SameEvaluable before.state after.state) where
    pub IsExplained-unminted : IsExplained next versions
    IsExplained-unminted = record {
      keyed = keyed-written;
      owned = owned-written;
      unique = ok.unique;
      positive = λ r m. elim (written.rest r m) [
        | inl e ↦ rw (e, version) (ok.positive before held)
        | inr (k, _) ↦ ok.positive r k
      ];
      bounded = λ r w m n e. elim (written.rest r m) [
        | inl f ↦ rw (f, version) (ok.bounded before w held n (e ∙ (ap (λ x. x.id) f ∙ id)))
        | inr (k, _) ↦ ok.bounded r w k n e
      ];
      dense = λ r v m low high. elim (written.rest r m) [
        | inl f ↦
            let (w, n, e, g) = ok.dense before v held low (rw (f, version) at high) in
            (w, n, e ∙ (sym id ∙ sym (ap (λ x. x.id) f)), g)
        | inr (k, _) ↦ ok.dense r v k low high
      ];
      current = λ r w m n e g. elim (written.rest r m) [
        | inl f ↦
            let (typed, agreed) =
              ok.current before w held n (e ∙ (ap (λ x. x.id) f ∙ id))
                (g ∙ (ap (λ x. x.version) f ∙ version)) in
            rw f (typed ∙ sym kind, same_trans agreed same)
        | inr (k, _) ↦ ok.current r w k n e g
      ];
    }

  -- A rule that had `n` versions, and a snapshot of its next.
  module _ (n : ℕ) (version : after.version ≡ n + 1)
      (below : (w : PolicyRuleVersion) → In w versions → w.rule_id ≡ after.id → w.version ≤ n)
      (earlier : (v : ℕ)
        → 1 ≤ v
        → v ≤ n
        → (w : PolicyRuleVersion) × In w versions × (w.rule_id ≡ after.id) × (w.version ≡ v))
      (actor_id : String) where
    abbrev minted : PolicyRuleVersion
    minted = snapshot actor_id after

    -- No snapshot that was there has the new one's key.
    new_key :
        (w : PolicyRuleVersion) → In w versions → w.rule_id ≡ after.id → w.version ≢ after.version
    new_key w m e f = omega (arith, below w m e, version, f)

    unique-minted :
        (w x : PolicyRuleVersion)
        → In w (versions ++ minted ∷ [])
        → In x (versions ++ minted ∷ [])
        → w.rule_id ≡ x.rule_id
        → w.version ≡ x.version
        → w ≡ x
    unique-minted w x m k e f =
        by_cases (In-snoc_cases w minted versions m) (In-snoc_cases x minted versions k)
      where
        by_cases : In w versions ⊎ (w ≡ minted) → In x versions ⊎ (x ≡ minted) → w ≡ x
        by_cases (inl a) (inl b) = ok.unique w x a b e f
        by_cases (inl a) (inr b) =
            absurd (new_key w a (e ∙ ap (λ y. y.rule_id) b) (f ∙ ap (λ y. y.version) b))
        by_cases (inr a) (inl b) =
            absurd (new_key x b (sym e ∙ ap (λ y. y.rule_id) a) (sym f ∙ ap (λ y. y.version) a))
        by_cases (inr a) (inr b) = a ∙ sym b

    dense-minted :
        (r : PolicyRule) (v : ℕ)
        → In r next
        → 1 ≤ v
        → v ≤ r.version
        → (w : PolicyRuleVersion) × In w (versions ++ minted ∷ [])
          × (w.rule_id ≡ r.id)
          × (w.version ≡ v)
    dense-minted r v m low high = elim (written.rest r m) [
      | inr (k, _) ↦
          let (w, l, e, g) = ok.dense r v k low high in
          (w, In-append_left w versions (minted ∷ []) l, e, g)
      | inl f ↦ elim (last_or_below v (rw f at high)) [
        | inl g ↦ (minted, In-snoc_last minted versions, sym (ap (λ x. x.id) f), sym g)
        | inr g ↦
            let (w, l, e, h) = earlier v low g in
            (w, In-append_left w versions (minted ∷ []) l, e ∙ sym (ap (λ x. x.id) f), h)
      ]
    ]
      where
        last_or_below : (v : ℕ) → v ≤ after.version → (v ≡ after.version) ⊎ (v ≤ n)
        last_or_below v h = omega (arith, h, version)

    bounded-minted :
        (r : PolicyRule) (w : PolicyRuleVersion)
        → In r next
        → In w (versions ++ minted ∷ [])
        → w.rule_id ≡ r.id
        → w.version ≤ r.version
    bounded-minted r w m k e = by_cases (written.rest r m) (In-snoc_cases w minted versions k)
      where
        by_cases :
            (r ≡ after) ⊎ (In r rules × (r.id ≢ after.id))
            → In w versions ⊎ (w ≡ minted)
            → w.version ≤ r.version
        by_cases (inl f) (inl l) = rw f (omega (arith, below w l (e ∙ ap (λ x. x.id) f), version))
        by_cases (inl f) (inr g) = rw (f, g) (omega arith)
        by_cases (inr (a, _)) (inl l) = ok.bounded r w a l e
        by_cases (inr (_, b)) (inr g) = absurd (b (sym e ∙ ap (λ x. x.rule_id) g))

    current-minted :
        (r : PolicyRule) (w : PolicyRuleVersion)
        → In r next
        → In w (versions ++ minted ∷ [])
        → w.rule_id ≡ r.id
        → w.version ≡ r.version
        → (w.rule_type ≡ r.rule_type) × SameEvaluable w.state r.state
    current-minted r w m k e v = by_cases (written.rest r m) (In-snoc_cases w minted versions k)
      where
        by_cases :
            (r ≡ after) ⊎ (In r rules × (r.id ≢ after.id))
            → In w versions ⊎ (w ≡ minted)
            → (w.rule_type ≡ r.rule_type) × SameEvaluable w.state r.state
        by_cases (inl f) (inl l) =
            absurd (new_key w l (e ∙ ap (λ x. x.id) f) (v ∙ ap (λ x. x.version) f))
        by_cases (inl f) (inr g) = rw (f, g) (refl, same_stored after.state)
        by_cases (inr (a, _)) (inl l) = ok.current r w a l e v
        by_cases (inr (_, b)) (inr g) = absurd (b (sym e ∙ ap (λ x. x.rule_id) g))

    pub IsExplained-minted : IsExplained next (versions ++ minted ∷ [])
    IsExplained-minted = record {
      keyed = keyed-written;
      owned = λ w m. elim (In-snoc_cases w minted versions m) [
        | inl k ↦ owned-written w k
        | inr e ↦ (after, written.here, ap (λ x. x.rule_id) e)
      ];
      bounded = bounded-minted;
      dense = dense-minted;
      unique = unique-minted;
      positive = λ r m. elim (written.rest r m) [
        | inl e ↦ rw (e, version) (omega arith)
        | inr (k, _) ↦ ok.positive r k
      ];
      current = current-minted;
    }
