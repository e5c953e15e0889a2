-- ===== src/RateLimit/Laws.antt =====
-- How many requests of a caller are let through.
use policy_assignment_system.Prelude.{
  ℕ, suc, ◌+◌, ◌-◌, ◌*◌, ◌≤◌, String, ◌≡◌, sym, ap, ◌∙◌, subst, inl, inr, Bool, false, Bool-cases,
  Bool-clash, List, [], ◌∷◌, arith, str_eq, eq_iff, if◌then◌else◌,
}
use policy_assignment_system.RateLimit.{
  RateLimitTier, Buckets, token, full, bucket_key, bucket_idle_ms, refilled, consume, sweep,
}
use policy_assignment_system.RateLimit.Refill.{
  add_mul, refilled_le_full, refilled-later, refilled-swept, taken, consume-own, consume-other,
}

-- What happens to the store, and when.
pub data RateEvent : Type 0 where
  request : (key : String) → RateLimitTier → RateEvent
  sweeping : RateEvent

-- The store after an event, and whether it let a request of one bucket through.
abbrev pub after_event : RateEvent → ℕ → Buckets → Buckets
after_event (request key tier) now buckets = (consume key tier now buckets).0
after_event sweeping now buckets = sweep now buckets

abbrev pub lets_through : String → RateEvent → ℕ → Buckets → Bool
lets_through id (request key tier) now buckets =
    if str_eq (bucket_key key tier) id then (consume key tier now buckets).1.allowed else false
lets_through id sweeping now buckets = false

-- How many requests of a bucket are let through.
abbrev pub count_allowed : String → List (ℕ × RateEvent) → Buckets → ℕ
count_allowed id [] buckets = 0
count_allowed id ((now, event) ∷ events) buckets =
    let rest = count_allowed id events (after_event event now buckets) in
    if lets_through id event now buckets then suc rest else rest

-- The events come in order, between two instants.
abbrev pub IsTimeline : ℕ → List (ℕ × RateEvent) → ℕ → Type 0
IsTimeline start [] end = start ≤ end
IsTimeline start ((now, event) ∷ events) end = (start ≤ now) × IsTimeline now events end

-- The requests of a bucket are all of one tier.
abbrev pub IsOfTier : String → RateLimitTier → List (ℕ × RateEvent) → Type 0
IsOfTier id tier [] = Unit
IsOfTier id tier ((now, request key other) ∷ events) =
    (bucket_key key other ≡ id → other ≡ tier) × IsOfTier id tier events
IsOfTier id tier ((now, sweeping) ∷ events) = IsOfTier id tier events

timeline_le :
    (start : ℕ) (events : List (ℕ × RateEvent)) (end : ℕ)
    → IsTimeline start events end
    → start ≤ end
timeline_le start [] end h = h
timeline_le start ((now, event) ∷ events) end (h, k) =
    omega (arith, h, timeline_le now events end k)

suc_mul : (n p : ℕ) → suc n * p ≡ n * p + p
suc_mul n p = omega arith

spans :
    (start now end p : ℕ)
    → start ≤ now
    → now ≤ end
    → (now - start) * p + (end - now) * p ≡ (end - start) * p
spans start now end p h k =
    sym (add_mul (now - start) (end - now) p) ∙ ap (λ x. x * p) (omega (arith, h, k))

module _ (id : String) (tier : RateLimitTier)
    (long : full tier ≤ bucket_idle_ms * tier.refill_tokens) where
  -- One event: what the bucket held pays for it.
  event-pays :
      (event : RateEvent) (now : ℕ) (events : List (ℕ × RateEvent)) (buckets : Buckets)
      → IsOfTier id tier ((now, event) ∷ events)
      → taken tier (lets_through id event now buckets)
          + refilled tier now (after_event event now buckets id)
        ≡ refilled tier now (buckets id)
  event-pays sweeping now events buckets of_tier =
      omega (arith, refilled-swept tier now (buckets id) long)
  event-pays (request key other) now events buckets (same, of_tier) =
      elim (Bool-cases (str_eq (bucket_key key other) id)) [
        | inr elsewhere ↦
            rw
              (
                elsewhere,
                consume-other id key other now buckets
                    (λ e. Bool-clash elsewhere ((eq_iff (bucket_key key other) id).1 e)),
              )
              (omega arith)
        | inl own ↦
            let e = (eq_iff (bucket_key key other) id).0 own in
            let result = (consume key other now buckets).1 in
            let after = (consume key other now buckets).0 in
            rw own (
              subst
                (λ x.
                  taken tier result.allowed + refilled tier now (after x)
                  ≡ refilled tier now (buckets x))
                e
                (subst
                  (λ t.
                    taken t result.allowed + refilled t now (after (bucket_key key other))
                    ≡ refilled t now (buckets (bucket_key key other)))
                  (same e) (consume-own key other now buckets)))
      ]

  rest-IsOfTier :
      (event : RateEvent) (now : ℕ) (events : List (ℕ × RateEvent))
      → IsOfTier id tier ((now, event) ∷ events)
      → IsOfTier id tier events
  rest-IsOfTier sweeping now events h = h
  rest-IsOfTier (request key other) now events (_, h) = h

  -- What was let through was held at the start, or came in the time.
  allowed-paid :
      (start : ℕ) (events : List (ℕ × RateEvent)) (end : ℕ) (buckets : Buckets)
      → IsTimeline start events end
      → IsOfTier id tier events
      → count_allowed id events buckets * token tier
        ≤ refilled tier start (buckets id) + (end - start) * tier.refill_tokens
  allowed-paid start [] end buckets line of_tier = omega arith
  allowed-paid start ((now, event) ∷ events) end buckets (past, line) of_tier =
      let later =
        allowed-paid now events end (after_event event now buckets) line
          (rest-IsOfTier event now events of_tier) in
      let paid = event-pays event now events buckets of_tier in
      let gained = refilled-later tier start now (buckets id) in
      let whole = spans start now end tier.refill_tokens past (timeline_le now events end line) in
      let count = count_allowed id events (after_event event now buckets) in
      elim (Bool-cases (lets_through id event now buckets)) [
        | inl let_through ↦ rw let_through (
            omega
              (arith, later, payment let_through paid, gained, whole, suc_mul count (token tier)))
        | inr refused ↦ rw refused (omega (arith, later, payment refused paid, gained, whole))
      ]
    where
      payment :
          {b : Bool}
          → lets_through id event now buckets ≡ b
          → taken tier (lets_through id event now buckets)
              + refilled tier now (after_event event now buckets id)
            ≡ refilled tier now (buckets id)
          → taken tier b + refilled tier now (after_event event now buckets id)
            ≡ refilled tier now (buckets id)
      payment e h =
          subst
            (λ b.
              taken tier b + refilled tier now (after_event event now buckets id)
              ≡ refilled tier now (buckets id))
            e h

  -- In any run of requests and sweeps, whatever the buckets held before it, the requests of a bucket
  -- that are let through are no more than its capacity and what its tier refills in the time; the
  -- requests of the bucket are of one tier, and that tier refills within the time that a bucket may be idle.
  pub allowed_bounded :
      (start : ℕ) (events : List (ℕ × RateEvent)) (end : ℕ) (buckets : Buckets)
      → IsTimeline start events end
      → IsOfTier id tier events
      → count_allowed id events buckets * token tier
        ≤ full tier + (end - start) * tier.refill_tokens
  allowed_bounded start events end buckets line of_tier = omega (
    arith,
    allowed-paid start events end buckets line of_tier,
    refilled_le_full tier start (buckets id),
  )
