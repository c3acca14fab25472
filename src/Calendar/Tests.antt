-- ===== src/Calendar/Tests.antt =====
-- Periods that are anchored to the 31st, over the end of February.
use pulso_crm.Prelude.{◌+◌, ◌≡◌, refl, some, ok, arith}
use pulso_crm.Calendar.{
  Date, date, IsDate, days_in_month, monthly_end_date, next_monthly_date_after, is_leap,
}
use pulso_crm.Calendar.Anchor.{
  IsAnchor, anchored, month_index, next_monthly_date_after-IsFirstAfter, IsFirstAfter,
}
use pulso_crm.Calendar.Period.{
  Window, catch_up, IsAligned, IsCurrent, catch_up_total, IsMonthlyPeriod,
  monthly_end_date-IsMonthlyPeriod,
}

abbrev january : Date
january = date 2026 1 31

january-IsDate : IsDate january
unfolding days_in_month
january-IsDate = record {
  month_low = omega arith;
  month_high = omega arith;
  day_low = omega arith;
  day_high = omega arith;
}

last-IsAnchor : IsAnchor 31
last-IsAnchor = record { low = omega arith; high = omega arith }

monthly_end_date-IsMonthlyPeriod_example :
    (end : Date) × (monthly_end_date january (some 31) ≡ ok end) × IsMonthlyPeriod january 31 end
monthly_end_date-IsMonthlyPeriod_example =
    monthly_end_date-IsMonthlyPeriod january 31 january-IsDate last-IsAnchor

abbrev today : Date
today = date 2026 6 10

today-IsDate : IsDate today
unfolding days_in_month
today-IsDate = record {
  month_low = omega arith;
  month_high = omega arith;
  day_low = omega arith;
  day_high = omega arith;
}

next_monthly_date_after-IsFirstAfter_example :
    (d : Date) × (next_monthly_date_after today 31 ≡ ok d) × IsFirstAfter today 31 d
next_monthly_date_after-IsFirstAfter_example =
    next_monthly_date_after-IsFirstAfter today 31 today-IsDate last-IsAnchor

abbrev first_window : Window
first_window = record { start = january; next = date 2026 2 28; skipped = 0 }

february-IsDate : IsDate (date 2026 2 28)
unfolding days_in_month is_leap
february-IsDate = record {
  month_low = omega arith;
  month_high = omega arith;
  day_low = omega arith;
  day_high = omega arith;
}

first-adjacent : date 2026 2 28 ≡ anchored (month_index january + 1) 31
unfolding days_in_month is_leap
first-adjacent = refl

first-IsAligned : IsAligned 31 (month_index january) first_window
first-IsAligned = record {
  real = january-IsDate;
  next_real = february-IsDate;
  adjacent = first-adjacent;
  months = refl;
}

-- Six months of fuel reach the period that begins on 31 May.
catch_up_total_example :
    (v : Window) × (catch_up 6 today 31 first_window ≡ ok (some v))
    × IsAligned 31 (month_index january) v
    × IsCurrent today v
catch_up_total_example =
    catch_up_total 6 today 31 (month_index january) first_window today-IsDate last-IsAnchor
      first-IsAligned (omega arith) (omega arith)
