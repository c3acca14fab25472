-- ===== src/Calendar/Period.antt =====
-- The end of a monthly period, the end of the other cycles, and the loop that brings a renewal up
-- to the present (memberships.service.ts and membership-renewal.ts have the same one).
use pulso_crm.Prelude.{
  ℕ, zero, suc, ◌+◌, ◌-◌, ◌≤◌, ◌<◌, ◌≡◌, refl, ap, sym, ◌∙◌, Option, none, some, arith, Result, ok,
  ◌>>=◌, inl, inr, Bool-cases, ltb→lt, ltb_false→le, if◌then◌else◌,
}
use pulso_crm.Calendar.{
  Date, key, before, IsDate, next_day, prev_day, next_monthly_date, monthly_end_date,
}
use pulso_crm.Calendar.Days.{days_in_month_bounds, prev_day-IsDate, next_day-prev_day}
use pulso_crm.Calendar.Anchor.{
  month_index, anchored, IsAnchor, anchored-IsDate, month_index-anchored, month_index-le_of_key,
  parse_billing_date-IsDate, next_monthly_date-eq, next_monthly_date-later,
}

pub monthly_end_date-eq :
    (t : Date) (a : ℕ)
    → IsDate t
    → IsAnchor a
    → monthly_end_date t (some a) ≡ ok (prev_day (anchored (month_index t + 1) a))
unfolding monthly_end_date
monthly_end_date-eq t a h k =
    rw (next_monthly_date-eq t a h k)
      (rw (parse_billing_date-IsDate _ (anchored-IsDate (month_index t + 1) a k)))

-- No day lies between a day and the next.
pub key-le_of_lt_next :
    (s t : Date) → IsDate s → IsDate t → key s < key (next_day t) → key s ≤ key t
unfolding next_day
key-le_of_lt_next s t h k lt =
    ground (arith, days_in_month_bounds s.year s.month, days_in_month_bounds t.year t.month)

-- A monthly period: it does not end before it starts, and the day after its end is the anchor of
-- the next month.
pub record IsMonthlyPeriod (start : Date) (a : ℕ) (end : Date) : Type 0 where
  pub real : IsDate end
  pub ordered : key start ≤ key end
  pub adjacent : next_monthly_date start (some a) ≡ ok (next_day end)

-- For a calendar date and an anchor day from 1 to 31 there is an end of the monthly period: a calendar
-- date not before the start, whose next day is the start of the next period.
pub monthly_end_date-IsMonthlyPeriod :
    (t : Date) (a : ℕ)
    → IsDate t
    → IsAnchor a
    → (end : Date) × (monthly_end_date t (some a) ≡ ok end) × IsMonthlyPeriod t a end
monthly_end_date-IsMonthlyPeriod t a h k =
    let next = anchored (month_index t + 1) a in
    let real = anchored-IsDate (month_index t + 1) a k in
    let forward : next_day (prev_day next) ≡ next = next_day-prev_day next real (omega arith) in
    let later = next_monthly_date-later t a h k in
    (
      prev_day next,
      monthly_end_date-eq t a h k,
      record {
        real = prev_day-IsDate next real;
        ordered =
            key-le_of_lt_next t (prev_day next) h (prev_day-IsDate next real) (rw forward later);
        adjacent = next_monthly_date-eq t a h k ∙ ap ok (sym forward);
      },
    )

-- The variables `start`, `next` and `skipped` of the loop.
pub record Window : Type 0 where
  pub start : Date
  pub next : Date
  pub skipped : ℕ

-- `while (next <= today) { start = next; next = nextMonthlyDate(start, anchor); skipped += 1; }`,
-- with fuel; `none` means that the fuel ran out.
unfoldable pub catch_up : ℕ → Date → ℕ → Window → Result (Option Window)
catch_up zero today anchor w = ok none
catch_up (suc fuel) today anchor w =
    let rest = next_monthly_date w.next (some anchor) >>= λ later.
    catch_up fuel today anchor (record { start = w.next; next = later; skipped = w.skipped + 1 }) in
    if before today w.next then ok (some w) else rest

-- Enough fuel for every start.
unfoldable pub catch_up_fuel : Date → ℕ
catch_up_fuel today = month_index today + 2

-- The period [start, next) of the anchor, `skipped` months after the first.
pub record IsAligned (a first : ℕ) (w : Window) : Type 0 where
  pub real : IsDate w.start
  pub next_real : IsDate w.next
  pub adjacent : w.next ≡ anchored (month_index w.start + 1) a
  pub months : month_index w.start ≡ first + w.skipped

-- What the loop leaves: the period that contains today.
pub record IsCurrent (today : Date) (w : Window) : Type 0 where
  pub begun : key w.start ≤ key today
  pub open_ended : key today < key w.next

abbrev advance : ℕ → Window → Window
advance a w = record {
  start = w.next;
  next = anchored (month_index w.next + 1) a;
  skipped = w.skipped + 1;
}

month_index-next :
    (a first : ℕ) (w : Window) → IsAligned a first w → month_index w.next ≡ month_index w.start + 1
month_index-next a first w al =
    ap month_index al.adjacent ∙ month_index-anchored (month_index w.start + 1) a (omega arith)

advance-IsAligned :
    (a first : ℕ) (w : Window) → IsAnchor a → IsAligned a first w → IsAligned a first (advance a w)
advance-IsAligned a first w k al = record {
  real = al.next_real;
  next_real = anchored-IsDate (month_index w.next + 1) a k;
  adjacent = refl;
  months = omega (arith, month_index-next a first w al, al.months);
}

advance_closer :
    (today : Date) (a first fuel : ℕ) (w : Window)
    → IsDate today
    → IsAligned a first w
    → key w.next ≤ key today
    → month_index today + 1 - month_index w.next < suc fuel
    → month_index today + 1 - month_index (advance a w).next < fuel
advance_closer today a first fuel w h al past m = omega (
  arith,
  month_index-le_of_key w.next today al.next_real h past,
  month_index-anchored (month_index w.next + 1) a (omega arith),
)

-- The renewal's loop, from a window of the anchor that begins today or earlier and with more fuel than
-- the months that are left, ends at the window of the anchor that contains today.
pub catch_up_total :
    (fuel : ℕ) (today : Date) (a first : ℕ) (w : Window)
    → IsDate today
    → IsAnchor a
    → IsAligned a first w
    → key w.start ≤ key today
    → month_index today + 1 - month_index w.next < fuel
    → (v : Window) × (catch_up fuel today a w ≡ ok (some v))
      × IsAligned a first v
      × IsCurrent today v
unfolding catch_up
catch_up_total zero today a first w h k al begun m = absurd (omega arith)
catch_up_total (suc fuel) today a first w h k al begun m = elim (Bool-cases (before today w.next)) [
  | inl e ↦ (w, rw e, al, record { begun = begun; open_ended = ltb→lt _ _ e })
  | inr e ↦
      let past = ltb_false→le _ _ e in
      rw e (
        rw (next_monthly_date-eq w.next a al.next_real k) (
          catch_up_total fuel today a first (advance a w) h k (advance-IsAligned a first w k al)
            past (advance_closer today a first fuel w h al past m)))
]
