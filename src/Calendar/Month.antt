-- ===== src/Calendar/Month.antt =====
-- `Date.UTC` within a month, and the last day of a month.
use pulso_crm.Prelude.{ℕ, zero, suc, ◌+◌, ◌/◌, ◌%◌, ◌≤◌, ◌≡◌, arith}
use pulso_crm.Calendar.{date, days_in_month, next_day, prev_day, days_after, utc_date}
use pulso_crm.Calendar.Days.{days_in_month-december}

-- Walking forward inside a month only adds to the day.
pub days_after-within :
    (n y m d : ℕ) → d + n ≤ days_in_month y m → days_after n (date y m d) ≡ date y m (d + n)
unfolding days_after next_day
days_after-within zero y m d h = ground arith
days_after-within (suc n) y m d h = rw (days_after-within n y m d (omega arith)) (ground arith)

-- A day of the month that exists is not moved by `Date.UTC`; the month is brought into its year.
pub utc_date-within :
    (y month d : ℕ)
    → 1 ≤ d
    → d ≤ days_in_month (y + month / 12) (month % 12 + 1)
    → utc_date y month d ≡ date (y + month / 12) (month % 12 + 1) d
unfolding utc_date
utc_date-within y month zero l h = absurd (omega arith)
utc_date-within y month (suc n) l h =
    rw (days_after-within n (y + month / 12) (month % 12 + 1) 1 (omega arith)) (ground arith)

-- `new Date(Date.UTC(year, month + 1, 0)).getUTCDate()` is the length of the month.
pub utc_date_last_day :
    (y month : ℕ) → (utc_date y (month + 1) 0).day ≡ days_in_month (y + month / 12) (month % 12 + 1)
unfolding utc_date prev_day
utc_date_last_day y month = grind (arith, days_in_month-december (y + month / 12))
