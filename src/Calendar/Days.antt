-- ===== src/Calendar/Days.antt =====
-- packages/config/src/time.ts: the day after and the day before.
use pulso_crm.Prelude.{ℕ, ◌+◌, ◌-◌, ◌*◌, ◌≤◌, ◌<◌, ◌≡◌, refl, subst, arith}
use pulso_crm.Calendar.{Date, key, days_in_month, IsDate, next_day, prev_day}

pub days_in_month_bounds : (y m : ℕ) → (28 ≤ days_in_month y m) × (days_in_month y m ≤ 31)
unfolding days_in_month
days_in_month_bounds y m = ground arith

pub days_in_month-december : (y : ℕ) → days_in_month y 12 ≡ 31
unfolding days_in_month
days_in_month-december y = refl

pub next_day-IsDate : (t : Date) → IsDate t → IsDate (next_day t)
unfolding next_day
next_day-IsDate t h =
    ground (arith, days_in_month_bounds t.year (t.month + 1), days_in_month_bounds (t.year + 1) 1)

-- The key of the next day is larger, so the texts are in order.
pub key-next_day : (t : Date) → IsDate t → key t < key (next_day t)
unfolding next_day
key-next_day t h = ground (arith, days_in_month_bounds t.year t.month)

pub prev_day-next_day : (t : Date) → IsDate t → prev_day (next_day t) ≡ t
unfolding next_day prev_day
prev_day-next_day t h = ground (arith, days_in_month-december t.year)

pub prev_day-IsDate : (t : Date) → IsDate t → IsDate (prev_day t)
unfolding prev_day
prev_day-IsDate t h =
    ground (arith, days_in_month_bounds t.year (t.month - 1), days_in_month_bounds (t.year - 1) 12)

pub next_day-prev_day :
    (t : Date) → IsDate t → 1 < t.year * 12 + t.month → next_day (prev_day t) ≡ t
unfolding next_day prev_day
next_day-prev_day t h y =
    ground (arith, days_in_month-december (t.year - 1), days_in_month_bounds t.year (t.month - 1))

pub key-prev_day : (t : Date) → IsDate t → 1 < t.year * 12 + t.month → key (prev_day t) < key t
key-prev_day t h y =
    subst (λ u. key (prev_day t) < key u) (next_day-prev_day t h y)
      (key-next_day (prev_day t) (prev_day-IsDate t h))
