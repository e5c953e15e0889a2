-- ===== src/Dates/Tests.antt =====
-- Dates that are known, and the properties at one of them.
use policy_assignment_system.Prelude.{◌+◌, ◌*◌, ◌≤◌, ◌≡◌, refl, ◌↔◌, true, some}
use policy_assignment_system.Dates.{ms_per_day, is_effective_on, tenure_days_as_of, to_iso_date}
use policy_assignment_system.Dates.Laws.{Covers, is_effective_on_iff, tenure_days_as_of-bounds}

epoch_test : to_iso_date (683003 * ms_per_day) ≡ "1970-01-01"
unfolding to_iso_date
epoch_test = refl

leap_test : to_iso_date (683003 * ms_per_day + 1709164800000) ≡ "2024-02-29"
unfolding to_iso_date
leap_test = refl

is_effective_on_iff_example :
    (is_effective_on
        (record { effective_from = 5 * ms_per_day; effective_to = some (7 * ms_per_day) })
        (6 * ms_per_day)
      ≡ true)
    ↔ Covers (5 * ms_per_day) (some (7 * ms_per_day)) (6 * ms_per_day)
is_effective_on_iff_example =
    is_effective_on_iff (5 * ms_per_day) (some (7 * ms_per_day)) (6 * ms_per_day)

tenure_days_as_of-bounds_example :
    (10 + 1 ≤ tenure_days_as_of (5 * ms_per_day) (30 * ms_per_day)) ↔ (5 + 10 + 1 ≤ 30)
tenure_days_as_of-bounds_example = tenure_days_as_of-bounds (5 * ms_per_day) (30 * ms_per_day) 10
