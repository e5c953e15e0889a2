-- ===== src/RateLimit/Tests.antt =====
-- Three requests of one user, and a sweep.
use policy_assignment_system.Prelude.{
  ℕ, ◌+◌, ◌-◌, ◌*◌, ◌≤◌, ◌≡◌, refl, false, none, some, List, [], ◌∷◌, arith,
}
use policy_assignment_system.RateLimit.{
  auth_tier, read_tier, write_tier, expensive_tier, bucket_idle_ms, token, full, bucket_key,
  Buckets, consume, refilled, reset,
}
use policy_assignment_system.RateLimit.Laws.{
  RateEvent, request, sweeping, count_allowed, allowed_bounded,
}

abbrev no_buckets : Buckets
no_buckets key = none

abbrev events : List (ℕ × RateEvent)
events =
    (0, request "u1" expensive_tier)
    ∷ (10, request "u1" expensive_tier)
    ∷ (2000000, sweeping)
    ∷ (2000001, request "u1" expensive_tier)
    ∷ []

allowed_bounded_example :
    count_allowed (bucket_key "u1" expensive_tier) events no_buckets * token expensive_tier
    ≤ full expensive_tier + (3000000 - 0) * 20
allowed_bounded_example =
    allowed_bounded (bucket_key "u1" expensive_tier) expensive_tier (omega arith) 0 events 3000000
      no_buckets (omega arith, (omega arith, (omega arith, (omega arith, omega arith))))
      (λ e. refl, (λ e. refl, (λ e. refl, tt)))

-- Every tier is full again after the time that a bucket may be idle.
tiers_refill_test :
    (full auth_tier ≤ bucket_idle_ms * 10)
    × (full read_tier ≤ bucket_idle_ms * 300)
    × (full write_tier ≤ bucket_idle_ms * 60)
    × (full expensive_tier ≤ bucket_idle_ms * 20)
tiers_refill_test = (omega arith, omega arith, omega arith, omega arith)

exhausted_test :
    (consume "u1" expensive_tier 7
      (λ key. some (record { tokens = 59999; updated_at = 7 }))).1.allowed
    ≡ false
unfolding consume refilled
exhausted_test = refl

reset_test :
    reset "u1" expensive_tier
      (λ key. some (record { tokens = 0; updated_at = 7 }))
      (bucket_key "u1" expensive_tier)
    ≡ none
reset_test = refl
