-- ===== src/Dates.antt =====
-- packages/shared/src/date.ts: calendar days. A `Date` is a number of milliseconds since the start
-- of the year 100 in UTC. (`Date.UTC` reads the years 0 to 99 as 1900 to 1999, so `daysBetween` is
-- no count of days before the year 100, and `toIsoDate` writes four digits up to the year 9999.)
pub mod Laws
mod Tests
use policy_assignment_system.Prelude.{
  ℕ, ◌+◌, ◌-◌, ◌*◌, ◌/◌, ◌%◌, String, Bool, true, false, Option, none, some, [], ◌∷◌, ltb,
  if◌then◌else◌, concat, show, ℤ, pos, sub_ℕ, ltb_ℤ, pos_part,
}

abbrev pub Date : Type 0
Date = ℕ

abbrev pub ms_per_day : ℕ
ms_per_day = 24 * 60 * 60 * 1000

-- The UTC day of an instant: both ends of `daysBetween` are cut down to it.
abbrev pub day_of : Date → ℕ
day_of t = t / ms_per_day

-- Whole days from `start` to `end`, negative if `end` comes first.
unfoldable pub days_between : Date → Date → ℤ
days_between start end = sub_ℕ (day_of end) (day_of start)

-- `Math.max(0, daysBetween(hireDate, asOf))`
unfoldable pub tenure_days_as_of : Date → Date → ℕ
unfolding days_between
tenure_days_as_of hire_date as_of = pos_part (days_between hire_date as_of)

pub record Period : Type 0 where
  pub effective_from : Date
  pub effective_to : Option Date

unfoldable pub is_effective_on : Period → Date → Bool
unfolding days_between
is_effective_on period as_of =
    if ltb_ℤ (days_between period.effective_from as_of) (pos 0)
    then false
    else elim period.effective_to [
      | none ↦ true
      | some end ↦ ltb_ℤ (pos 0) (days_between as_of end)
    ]

-- Two digits, and four.
pad_2 : ℕ → String
unfolding show
pad_2 n = if ltb n 10 then concat ("0" ∷ show n ∷ []) else show n

pad_4 : ℕ → String
unfolding show
pad_4 n =
    if ltb n 10
    then concat ("000" ∷ show n ∷ [])
    else if ltb n 100
    then concat ("00" ∷ show n ∷ [])
    else if ltb n 1000
    then concat ("0" ∷ show n ∷ [])
    else show n

pub record Civil : Type 0 where
  pub year : ℕ
  pub month : ℕ
  pub day : ℕ

-- The Gregorian calendar: 36465 days lie between 1 March of the year 0 and the start of the model's
-- time, and a year is counted from its first of March.
unfoldable pub civil_of : ℕ → Civil
civil_of n =
    let z = n + 36465 in
    let era = z / 146097 in
    let doe = z % 146097 in
    let yoe = (doe + doe / 36524 - doe / 1460 - doe / 146096) / 365 in
    let doy = doe + yoe / 100 - 365 * yoe - yoe / 4 in
    let mp = (5 * doy + 2) / 153 in
    let early = ltb mp 10 in
    record {
      year = era * 400 + yoe + (if early then 0 else 1);
      month = if early then mp + 3 else mp - 9;
      day = doy - (153 * mp + 2) / 5 + 1;
    }

-- `value.toISOString().slice(0, 10)`
unfoldable pub to_iso_date : Date → String
unfolding civil_of pad_2 pad_4
to_iso_date value =
    let c = civil_of (day_of value) in
    concat (pad_4 c.year ∷ "-" ∷ pad_2 c.month ∷ "-" ∷ pad_2 c.day ∷ [])
