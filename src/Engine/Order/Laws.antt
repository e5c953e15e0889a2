-- ===== src/Engine/Order/Laws.antt =====
-- `compareRules` is a total order on rules with distinct ids.
use policy_assignment_system.Prelude.{
  ◌≢◌, ◌⊎◌, ◌↔◌, inl, inr, arith, eq_iff, ℤ, pos, ◌≤ℤ◌, ◌<ℤ◌, text_lt_irrefl, text_lt_asymm,
  text_lt_trans, text_lt_total,
}
use policy_assignment_system.Engine.{EngineRule}
use policy_assignment_system.Engine.Order.{compare_rules, Outranks, SameRank}

module _ (x y : EngineRule) where
  -- The comparison of two rules is negative exactly if the first outranks the second.
  pub compare_rules-lt_iff : (compare_rules x y <ℤ pos 0) ↔ Outranks x y
  unfolding compare_rules
  compare_rules-lt_iff = ground (arith, eq_iff x.id y.id, text_lt_irrefl x.id)

  compare_rules-le_cases : compare_rules x y ≤ℤ pos 0 → Outranks x y ⊎ SameRank x y
  unfolding compare_rules
  compare_rules-le_cases h = ground (arith, eq_iff x.id y.id)

  compare_rules-eq : SameRank x y → compare_rules x y ≤ℤ pos 0
  unfolding compare_rules
  compare_rules-eq h = ground (arith, eq_iff x.id y.id)

  pub Outranks-asymm : Outranks x y → ¬ Outranks y x
  Outranks-asymm h k = ground (arith, text_lt_asymm x.id y.id)

  Outranks-total : Outranks x y ⊎ Outranks y x ⊎ SameRank x y
  Outranks-total = ground (arith, text_lt_total x.id y.id)

pub Outranks-trans : (x y z : EngineRule) → Outranks x y → Outranks y z → Outranks x z
Outranks-trans x y z h k = ground (arith, text_lt_trans x.id y.id z.id)

SameRank-trans : (x y z : EngineRule) → SameRank x y → SameRank y z → SameRank x z
SameRank-trans x y z h k = ground arith

Outranks-SameRank : (x y z : EngineRule) → Outranks x y → SameRank y z → Outranks x z
Outranks-SameRank x y z h k = ground (arith, text_lt_trans x.id y.id z.id)

SameRank-Outranks : (x y z : EngineRule) → SameRank x y → Outranks y z → Outranks x z
SameRank-Outranks x y z h k = ground arith

pub compare_rules_total :
    (x y : EngineRule) → (compare_rules x y ≤ℤ pos 0) ⊎ (compare_rules y x ≤ℤ pos 0)
compare_rules_total x y = elim (Outranks-total x y) [
  | inl h ↦ inl (omega (arith, (compare_rules-lt_iff x y).1 h))
  | inr (inl h) ↦ inr (omega (arith, (compare_rules-lt_iff y x).1 h))
  | inr (inr e) ↦ inl (compare_rules-eq x y e)
]

le_of_lt : (a : ℤ) → a <ℤ pos 0 → a ≤ℤ pos 0
le_of_lt a h = omega arith

pub compare_rules_trans :
    (x y z : EngineRule)
    → compare_rules x y ≤ℤ pos 0
    → compare_rules y z ≤ℤ pos 0
    → compare_rules x z ≤ℤ pos 0
compare_rules_trans x y z h k =
    compose (compare_rules-le_cases x y h) (compare_rules-le_cases y z k)
  where
    strict : Outranks x z → compare_rules x z ≤ℤ pos 0
    strict r = le_of_lt (compare_rules x z) ((compare_rules-lt_iff x z).1 r)

    compose : Outranks x y ⊎ SameRank x y → Outranks y z ⊎ SameRank y z → compare_rules x z ≤ℤ pos 0
    compose (inl p) (inl q) = strict (Outranks-trans x y z p q)
    compose (inl p) (inr q) = strict (Outranks-SameRank x y z p q)
    compose (inr p) (inl q) = strict (SameRank-Outranks x y z p q)
    compose (inr p) (inr q) = compare_rules-eq x z (SameRank-trans x y z p q)

-- Of two rules with different ids one outranks the other.
pub Outranks-strict : (x y : EngineRule) → x.id ≢ y.id → Outranks x y ⊎ Outranks y x
Outranks-strict x y distinct = elim (Outranks-total x y) [
  | inl h ↦ inl h
  | inr (inl h) ↦ inr h
  | inr (inr e) ↦ absurd (distinct e.3)
]

-- What does not come after another rule, under another id, outranks it.
pub Outranks-of_le : (x y : EngineRule) → x.id ≢ y.id → compare_rules x y ≤ℤ pos 0 → Outranks x y
Outranks-of_le x y distinct h = elim (compare_rules-le_cases x y h) [
  | inl r ↦ r
  | inr e ↦ absurd (distinct e.3)
]

pub compare_rules_refl : (x : EngineRule) → compare_rules x x ≤ℤ pos 0
compare_rules_refl x = elim (compare_rules_total x x) [ inl h ↦ h | inr h ↦ h ]
