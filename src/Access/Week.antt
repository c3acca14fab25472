-- ===== src/Access/Week.antt =====
-- `mondayOfWeek` (apps/api/src/modules/access/access-date.util.ts).
use pulso_crm.Prelude.{ℕ, zero, suc, ◌+◌, ◌-◌, ◌*◌, ◌/◌, ◌%◌, if◌then◌else◌, ◌==◌}
use pulso_crm.Prelude.Int.{sub_ℕ}
use pulso_crm.Calendar.{Date, days_in_month, add_days}

-- The days of the months before month `m`.
unfoldable pub days_before_month : ℕ → ℕ → ℕ
days_before_month y zero = 0
days_before_month y (suc m) = days_before_month y m + (if m == 0 then 0 else days_in_month y m)

-- The day's number from 1 January of year 1, a Monday, which is 1.
unfoldable pub day_number : Date → ℕ
day_number t =
    let p = t.year - 1 in
    p * 365 + p / 4 - p / 100 + p / 400 + days_before_month t.year t.month + t.day

-- `getUTCDay()`: Sunday is 0.
unfoldable pub weekday : Date → ℕ
weekday t = day_number t % 7

unfoldable pub monday_of_week : Date → Date
monday_of_week t =
    let days_since_monday = (weekday t + 6) % 7 in add_days t (sub_ℕ 0 days_since_monday)
