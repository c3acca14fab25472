-- ===== src/Calendar.antt =====
-- packages/config/src/time.ts and billing.ts: business days and monthly periods.
-- A `BusinessDate` is the text YYYY-MM-DD; here it is its three numbers. Texts of that form are
-- compared with `<` as their keys are compared, so `before` is the comparison of the source. A
-- text that does not match DATE_RE has no value here, and one that matches it and names no day
-- has: `parse_billing_date` refuses it. The calendar operations of the JavaScript `Date` that the
-- source uses (`Date.UTC`, `setUTCDate`) are written out for the years 100 to 9999.
pub mod Days
pub mod Month
pub mod Anchor
pub mod Period
pub mod Renewed
mod Tests
use pulso_crm.Prelude.{
  ℕ, zero, suc, ◌+◌, ◌-◌, ◌*◌, ◌/◌, ◌%◌, ◌≤◌, min, Bool, true, false, not, ◌&&◌, ◌||◌, Option, none,
  some, ltb, leb, ◌==◌, if◌then◌else◌, Result, ok, err, ◌>>=◌, failure,
}
use pulso_crm.Prelude.Int.{ℤ, pos, negsuc, sub_ℕ}

pub record Date : Type 0 where
  pub day : ℕ
  pub month : ℕ
  pub year : ℕ

abbrev pub date : ℕ → ℕ → ℕ → Date
date year month day = record { day = day; month = month; year = year }

-- The text's digits read as one number.
abbrev pub key : Date → ℕ
key t = (t.year * 100 + t.month) * 100 + t.day

-- `a < b` on texts YYYY-MM-DD.
abbrev pub before : Date → Date → Bool
before a b = ltb (key a) (key b)

unfoldable pub is_leap : ℕ → Bool
is_leap y = (y % 4 == 0) && (not (y % 100 == 0) || (y % 400 == 0))

-- April, June, September and November.
abbrev is_short : ℕ → Bool
is_short m = m == 11 || (m == 9 || (m == 6 || m == 4))

unfoldable pub days_in_month : ℕ → ℕ → ℕ
days_in_month year month =
    if is_short month then 30 else if not (month == 2) then 31 else if is_leap year then 29 else 28

pub record IsDate (t : Date) : Type 0 where
  pub month_low : 1 ≤ t.month
  pub month_high : t.month ≤ 12
  pub day_low : 1 ≤ t.day
  pub day_high : t.day ≤ days_in_month t.year t.month

-- `setUTCDate(getUTCDate() + 1)`.
unfoldable pub next_day : Date → Date
next_day t =
    if ltb t.day (days_in_month t.year t.month)
    then record t { day = t.day + 1 }
    else if ltb t.month 12
    then date t.year (t.month + 1) 1
    else date (t.year + 1) 1 1

-- `setUTCDate(getUTCDate() - 1)`.
unfoldable pub prev_day : Date → Date
prev_day t =
    if ltb 1 t.day
    then record t { day = t.day - 1 }
    else if ltb 1 t.month
    then date t.year (t.month - 1) (days_in_month t.year (t.month - 1))
    else date (t.year - 1) 12 (days_in_month (t.year - 1) 12)

unfoldable pub days_after : ℕ → Date → Date
days_after zero t = t
days_after (suc n) t = next_day (days_after n t)

unfoldable pub days_before : ℕ → Date → Date
days_before zero t = t
days_before (suc n) t = prev_day (days_before n t)

-- `Date.UTC(year, month, day)`: the month counts from 0 and may run past 11, and day 0 is the
-- last day of the month before.
unfoldable pub utc_date : ℕ → ℕ → ℕ → Date
utc_date year month zero = prev_day (date (year + month / 12) (month % 12 + 1) 1)
utc_date year month (suc n) = days_after n (date (year + month / 12) (month % 12 + 1) 1)

-- `addDays`, whose `days` may be negative.
unfoldable pub add_days : Date → ℤ → Date
add_days t (pos n) = days_after n t
add_days t (negsuc n) = days_before (suc n) t

-- `parseBillingDate`: the text must name a day of the calendar.
unfoldable pub parse_billing_date : Date → Result Date
parse_billing_date t =
    if leb 1 t.month && leb t.month 12 && leb 1 t.day && leb t.day (days_in_month t.year t.month)
    then ok t
    else err failure

-- `anchoredDate`; `month` counts from 0.
unfoldable pub anchored_date : ℕ → ℕ → ℕ → Result Date
anchored_date year month anchor_day =
    if ltb anchor_day 1 || ltb 31 anchor_day
    then err failure
    else let last_day : ℕ = (utc_date year (month + 1) 0).day in
      ok (utc_date year month (min anchor_day last_day))

-- `anchorDay ?? start.getUTCDate()`.
abbrev pub get_or : Option ℕ → ℕ → ℕ
get_or none d = d
get_or (some a) d = a

unfoldable pub next_monthly_date : Date → Option ℕ → Result Date
next_monthly_date start_date anchor_day = do
  start ← parse_billing_date start_date
  anchored_date start.year (start.month - 1 + 1) (get_or anchor_day start.day)

pub next_monthly_date_after : Date → ℕ → Result Date
next_monthly_date_after today anchor_day = do
  t ← parse_billing_date today
  candidate ← anchored_date t.year (t.month - 1) anchor_day
  if before today candidate then ok candidate else next_monthly_date today (some anchor_day)

unfoldable pub monthly_end_date : Date → Option ℕ → Result Date
monthly_end_date start_date anchor_day = do
  next ← next_monthly_date start_date anchor_day
  end ← parse_billing_date next
  ok (prev_day end)

pub data BillingCycle : Type 0 where
  monthly quarterly biannual annual class_pack : BillingCycle

-- `cycleDurationDays`.
pub cycle_duration_days : BillingCycle → Option ℕ
cycle_duration_days monthly = some 30
cycle_duration_days quarterly = some 90
cycle_duration_days biannual = some 180
cycle_duration_days annual = some 365
cycle_duration_days class_pack = none

-- `overrideDays ?? cycleDurationDays(cycle)`.
abbrev or_else : Option ℕ → Option ℕ → Option ℕ
or_else none b = b
or_else (some a) b = some a

-- The end of `membershipEndDate`: the first day counts.
unfoldable pub end_of_days : Date → Option ℕ → Option Date
end_of_days start_date none = none
end_of_days start_date (some days) = some (add_days start_date (sub_ℕ days 1))

-- `membershipEndDate`.
unfoldable pub membership_end_date : Date → BillingCycle → Option ℕ → Result (Option Date)
membership_end_date start_date monthly override_days = do
  end ← monthly_end_date start_date none
  ok (some end)
membership_end_date start_date class_pack override_days = ok none
membership_end_date start_date cycle override_days =
    ok (end_of_days start_date (or_else override_days (cycle_duration_days cycle)))
