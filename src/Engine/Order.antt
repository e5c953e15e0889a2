-- ===== src/Engine/Order.antt =====
-- packages/core/src/engine/resolve.ts: the total order of rules.
pub mod Laws
use policy_assignment_system.Prelude.{
  ℕ, ◌<◌, String, ◌≡◌, ◌⊎◌, Bool, true, not, ◌==◌, if◌then◌else◌, str_eq, text_lt, ℤ, pos, negsuc,
  sub_ℕ,
}
use policy_assignment_system.Engine.{EngineRule, priority_band}

abbrev pub band_of : EngineRule → ℕ
band_of rule = priority_band rule.rule_type

-- priority DESC, rule type band DESC, created_at ASC, id ASC
unfoldable pub compare_rules : EngineRule → EngineRule → ℤ
compare_rules left right =
    if not (left.priority == right.priority)
    then sub_ℕ right.priority left.priority
    else if not (band_of left == band_of right)
    then sub_ℕ (band_of right) (band_of left)
    else if not (left.created_at == right.created_at)
    then sub_ℕ left.created_at right.created_at
    else if str_eq left.id right.id
    then pos 0
    else if text_lt left.id right.id
    then negsuc 0
    else pos 1

-- The order as a relation: the first key on which two rules differ decides.
abbrev pub Outranks : EngineRule → EngineRule → Type 0
Outranks left right =
    (right.priority < left.priority)
    ⊎ ((left.priority ≡ right.priority) × (band_of right < band_of left))
    ⊎ ((left.priority ≡ right.priority)
        × (band_of left ≡ band_of right)
        × (left.created_at < right.created_at))
    ⊎ ((left.priority ≡ right.priority)
        × (band_of left ≡ band_of right)
        × (left.created_at ≡ right.created_at)
        × (text_lt left.id right.id ≡ true))

-- Two rules that no key tells apart.
abbrev pub SameRank : EngineRule → EngineRule → Type 0
SameRank left right =
    (left.priority ≡ right.priority)
    × (band_of left ≡ band_of right)
    × (left.created_at ≡ right.created_at)
    × (left.id ≡ right.id)
