-- ===== src/Dates/Laws.antt =====
-- The point-in-time predicate and tenure.
use policy_assignment_system.Prelude.{ℕ, ◌+◌, ◌≤◌, ◌<◌, ◌≡◌, ◌↔◌, true, Option, none, some, arith}
use policy_assignment_system.Dates.{Date, day_of, tenure_days_as_of, is_effective_on}

-- `effectiveFrom <= asOf AND (effectiveTo IS NULL OR effectiveTo > asOf)`, on calendar days.
abbrev pub Covers : Date → Option Date → Date → Type 0
Covers start none as_of = day_of start ≤ day_of as_of
Covers start (some end) as_of = (day_of start ≤ day_of as_of) × (day_of as_of < day_of end)

-- A period is effective on a day exactly if it has started by that day and, where it has an end,
-- the end is a later day.
pub is_effective_on_iff :
    (start : Date) (end : Option Date) (as_of : Date)
    → (is_effective_on (record { effective_from = start; effective_to = end }) as_of ≡ true)
      ↔ Covers start end as_of
unfolding is_effective_on
is_effective_on_iff start none as_of = ground arith
is_effective_on_iff start (some end) as_of = ground arith

-- A tenure exceeds n days exactly if the day is more than n days after the hire date.
pub tenure_days_as_of-bounds :
    (hire_date as_of : Date) (n : ℕ)
    → (n + 1 ≤ tenure_days_as_of hire_date as_of) ↔ (day_of hire_date + n + 1 ≤ day_of as_of)
unfolding tenure_days_as_of
tenure_days_as_of-bounds hire_date as_of n = ground arith
