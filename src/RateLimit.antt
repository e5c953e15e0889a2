-- ===== src/RateLimit.antt =====
-- apps/api/src/middlewares/rate-limit/store.ts and packages/shared/src/rate-limit.ts: the token buckets
-- that live in memory. Amounts are exact: where a tier refills `refill_tokens` in `refill_seconds`, a
-- token is 1000 * refill_seconds units, and every millisecond brings `refill_tokens` units. (The
-- program divides, in floating point.) The map of buckets is a function of the key.
pub mod Refill
pub mod Laws
mod Tests
use policy_assignment_system.Prelude.{
  ℕ, ◌+◌, ◌-◌, ◌*◌, ◌/◌, String, Bool, true, false, Option, none, some, List, [], ◌∷◌, concat, leb,
  ltb, str_eq, if◌then◌else◌,
}
use Prim.Native.Nat.{min, max}

pub data RateLimitScope : Type 0 where
  ip user organization : RateLimitScope

pub record RateLimitTier : Type 0 where
  pub name : String
  pub scope : RateLimitScope
  pub capacity : ℕ
  pub refill_tokens : ℕ
  pub refill_seconds : ℕ

-- `RATE_LIMIT_TIERS`
abbrev pub auth_tier : RateLimitTier
auth_tier = record {
  name = "auth";
  scope = ip;
  capacity = 10;
  refill_tokens = 10;
  refill_seconds = 15 * 60;
}

abbrev pub read_tier : RateLimitTier
read_tier = record {
  name = "read";
  scope = user;
  capacity = 60;
  refill_tokens = 300;
  refill_seconds = 60;
}

abbrev pub write_tier : RateLimitTier
write_tier = record {
  name = "write";
  scope = user;
  capacity = 20;
  refill_tokens = 60;
  refill_seconds = 60;
}

abbrev pub expensive_tier : RateLimitTier
expensive_tier = record {
  name = "expensive";
  scope = organization;
  capacity = 5;
  refill_tokens = 20;
  refill_seconds = 60;
}

-- `RATE_LIMIT_BUCKET_IDLE_MS`
abbrev pub bucket_idle_ms : ℕ
bucket_idle_ms = 15 * 60 * 1000

-- One token, in units.
abbrev pub token : RateLimitTier → ℕ
token tier = 1000 * tier.refill_seconds

abbrev pub full : RateLimitTier → ℕ
full tier = tier.capacity * token tier

pub record Bucket : Type 0 where
  pub tokens : ℕ
  pub updated_at : ℕ

abbrev pub Buckets : Type 0
Buckets = String → Option Bucket

pub record RateLimitResult : Type 0 where
  pub allowed : Bool
  pub limit : ℕ
  pub remaining : ℕ
  pub reset_seconds : ℕ
  pub retry_after_seconds : ℕ

-- `${tier.name}:${key}`
abbrev pub bucket_key : String → RateLimitTier → String
bucket_key key tier = concat (tier.name ∷ ":" ∷ key ∷ [])

-- An amount over the refill of a second, rounded up.
abbrev seconds_for : RateLimitTier → ℕ → ℕ
seconds_for tier amount = (amount + 1000 * tier.refill_tokens - 1) / (1000 * tier.refill_tokens)

abbrev pub seconds_to_full : ℕ → RateLimitTier → ℕ
seconds_to_full tokens tier =
    if leb (full tier) tokens then 0 else seconds_for tier (full tier - tokens)

abbrev pub seconds_to_next_token : ℕ → RateLimitTier → ℕ
seconds_to_next_token tokens tier =
    if leb (token tier) tokens then 0 else max 1 (seconds_for tier (token tier - tokens))

-- What a bucket holds by now: an absent one is full.
unfoldable pub refilled : RateLimitTier → ℕ → Option Bucket → ℕ
refilled tier now none = full tier
refilled tier now (some bucket) =
    min (full tier) (bucket.tokens + (now - bucket.updated_at) * tier.refill_tokens)

unfoldable pub consume : String → RateLimitTier → ℕ → Buckets → Buckets × RateLimitResult
unfolding refilled
consume key tier now buckets =
    let id = bucket_key key tier in
    let held = refilled tier now (buckets id) in
    let allowed = leb (token tier) held in
    let left = if allowed then held - token tier else held in
    (
      λ other.
          if str_eq other id
          then some (record { tokens = left; updated_at = now })
          else buckets other,
      record {
        allowed = allowed;
        limit = tier.capacity;
        remaining = left / token tier;
        reset_seconds = seconds_to_full left tier;
        retry_after_seconds = if allowed then 0 else seconds_to_next_token left tier;
      },
    )

unfoldable pub swept : ℕ → Option Bucket → Option Bucket
swept now none = none
swept now (some bucket) = if ltb bucket_idle_ms (now - bucket.updated_at) then none else some bucket

-- `sweep`
abbrev pub sweep : ℕ → Buckets → Buckets
sweep now buckets id = swept now (buckets id)

-- `reset`
abbrev pub reset : String → RateLimitTier → Buckets → Buckets
reset key tier buckets other = if str_eq other (bucket_key key tier) then none else buckets other
