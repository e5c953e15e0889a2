-- ===== src/RateLimit/Refill.antt =====
-- What a bucket holds: over time, after a sweep and after a request.
use policy_assignment_system.Prelude.{
  ℕ, ◌+◌, ◌-◌, ◌*◌, ◌≤◌, String, ◌≡◌, ◌≢◌, refl, sym, inl, inr, Bool, true, false, Bool-cases,
  Option, none, some, arith, leb, ltb, eq_iff, str_eq-differ, if◌then◌else◌,
}
use native.Mathlib.Nat.{mul-le-mul_right}
use policy_assignment_system.RateLimit.{
  RateLimitTier, Bucket, Buckets, token, full, bucket_key, bucket_idle_ms, refilled, consume, swept,
}

pub add_mul : (a b p : ℕ) → (a + b) * p ≡ a * p + b * p
add_mul a b p = omega arith

-- A product with a span of time, split at an instant.
span_le : (a b c p : ℕ) → a ≤ b + c → a * p ≤ b * p + c * p
span_le a b c p h = omega (arith, mul-le-mul_right p h, add_mul b c p)

pub refilled_le_full :
    (tier : RateLimitTier) (now : ℕ) (bucket : Option Bucket) → refilled tier now bucket ≤ full tier
unfolding refilled
refilled_le_full tier now none = omega arith
refilled_le_full tier now (some bucket) = omega arith

-- A bucket gains no more than its tier refills in the time.
pub refilled-later :
    (tier : RateLimitTier) (start now : ℕ) (bucket : Option Bucket)
    → refilled tier now bucket ≤ refilled tier start bucket + (now - start) * tier.refill_tokens
unfolding refilled
refilled-later tier start now none = omega arith
refilled-later tier start now (some bucket) = omega (
  arith,
  span_le (now - bucket.updated_at) (start - bucket.updated_at) (now - start) tier.refill_tokens
      (omega arith),
)

-- Sweeping a bucket that was idle for long makes no difference: it was full.
pub refilled-swept :
    (tier : RateLimitTier) (now : ℕ) (bucket : Option Bucket)
    → full tier ≤ bucket_idle_ms * tier.refill_tokens
    → refilled tier now (swept now bucket) ≡ refilled tier now bucket
unfolding refilled swept
refilled-swept tier now none long = refl
refilled-swept tier now (some bucket) long =
    elim (Bool-cases (ltb bucket_idle_ms (now - bucket.updated_at))) [
      | inr recent ↦ rw recent refl
      | inl idle ↦ rw idle (
          omega (
            arith,
            long,
            mul-le-mul_right {m = bucket_idle_ms} {n = now - bucket.updated_at} tier.refill_tokens
                (ground arith),
          ))
    ]

-- What a request takes from its bucket.
abbrev pub taken : RateLimitTier → Bool → ℕ
taken tier true = token tier
taken tier false = 0

no_time : (now p : ℕ) → (now - now) * p ≡ 0
no_time now p = rw (none_left now) (omega arith)
  where
    none_left : (n : ℕ) → n - n ≡ 0
    none_left n = omega arith

-- A bucket and what was taken from it make what it held.
spent :
    (tier : RateLimitTier) (now held : ℕ)
    → held ≤ full tier
    → taken tier (leb (token tier) held)
        + refilled tier now (
            some (record {
              tokens = if leb (token tier) held then held - token tier else held;
              updated_at = now;
            }))
      ≡ held
unfolding refilled
spent tier now held within = elim (Bool-cases (leb (token tier) held)) [
  | inl enough ↦ rw enough (omega (arith, no_time now tier.refill_tokens, within, covers enough))
  | inr short ↦ rw short (omega (arith, no_time now tier.refill_tokens, within))
]
  where
    covers : leb (token tier) held ≡ true → token tier ≤ held
    covers h = ground arith

pub consume-own :
    (key : String) (tier : RateLimitTier) (now : ℕ) (buckets : Buckets)
    → taken tier (consume key tier now buckets).1.allowed
        + refilled tier now ((consume key tier now buckets).0 (bucket_key key tier))
      ≡ refilled tier now (buckets (bucket_key key tier))
unfolding consume
consume-own key tier now buckets =
    rw ((eq_iff (bucket_key key tier) (bucket_key key tier)).1 refl) (
      spent tier now (refilled tier now (buckets (bucket_key key tier)))
        (refilled_le_full tier now (buckets (bucket_key key tier))))

pub consume-other :
    (id key : String) (tier : RateLimitTier) (now : ℕ) (buckets : Buckets)
    → bucket_key key tier ≢ id
    → (consume key tier now buckets).0 id ≡ buckets id
unfolding consume
consume-other id key tier now buckets differs =
    rw (str_eq-differ id (bucket_key key tier) (λ e. differs (sym e))) refl
