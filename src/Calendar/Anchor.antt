-- ===== src/Calendar/Anchor.antt =====
-- `anchoredDate` and the two functions that move from one month to the next.
use pulso_crm.Prelude.{
  ℕ, ◌+◌, ◌-◌, ◌*◌, ◌/◌, ◌%◌, ◌≤◌, ◌<◌, ◌≡◌, ap, ◌∙◌, min, if◌then◌else◌, some, arith, inl, inr, ok,
  Bool-cases, subst, sym, ltb→lt, ltb_false→le,
}
use native.Mathlib.Decide.{dec_lt}
use native.Mathlib.Nat.{le_of_lt}
use pulso_crm.Calendar.{
  Date, date, key, before, days_in_month, IsDate, parse_billing_date, anchored_date,
  next_monthly_date, next_monthly_date_after,
}
use pulso_crm.Calendar.Days.{days_in_month_bounds}
use pulso_crm.Calendar.Month.{utc_date-within, utc_date_last_day}

-- The months since year 0.
abbrev pub month_index : Date → ℕ
month_index t = t.year * 12 + t.month

-- The day of month number `i` (from year 0, January is 1) that the anchor falls on: the anchor, or
-- the last day of a shorter month.
abbrev pub anchored : ℕ → ℕ → Date
anchored i a =
    let y = (i - 1) / 12 in let m = (i - 1) % 12 + 1 in date y m (min a (days_in_month y m))

pub record IsAnchor (a : ℕ) : Type 0 where
  pub low : 1 ≤ a
  pub high : a ≤ 31

pub anchored-IsDate : (i a : ℕ) → IsAnchor a → IsDate (anchored i a)
anchored-IsDate i a h = ground (arith, days_in_month_bounds ((i - 1) / 12) ((i - 1) % 12 + 1))

pub month_index-anchored : (i a : ℕ) → 1 ≤ i → month_index (anchored i a) ≡ i
month_index-anchored i a h = omega arith

-- Dates of different months are ordered as their months are.
pub key-lt_of_month_index :
    (s t : Date) → IsDate s → IsDate t → month_index s < month_index t → key s < key t
key-lt_of_month_index s t h k lt =
    ground (arith, days_in_month_bounds s.year s.month, days_in_month_bounds t.year t.month)

-- A later date is not in an earlier month.
pub month_index-le_of_key :
    (s t : Date) → IsDate s → IsDate t → key s ≤ key t → month_index s ≤ month_index t
month_index-le_of_key s t h k le =
    ground (arith, days_in_month_bounds s.year s.month, days_in_month_bounds t.year t.month)

pub parse_billing_date-IsDate : (t : Date) → IsDate t → parse_billing_date t ≡ ok t
unfolding parse_billing_date
parse_billing_date-IsDate t h = ground arith

pub anchored_date-eq :
    (y month a : ℕ) → IsAnchor a → anchored_date y month a ≡ ok (anchored (y * 12 + month + 1) a)
unfolding anchored_date
anchored_date-eq y month a h =
    let last = days_in_month_bounds (y + month / 12) (month % 12 + 1) in
    let at : ℕ = min a (days_in_month (y + month / 12) (month % 12 + 1)) in
    rw (utc_date_last_day y month)
      (rw (utc_date-within y month at (omega (arith, last)) (omega arith)) (ground arith))

-- `nextMonthlyDate` is the anchor in the month that follows, whatever that month's length.
pub next_monthly_date-eq :
    (t : Date) (a : ℕ)
    → IsDate t
    → IsAnchor a
    → next_monthly_date t (some a) ≡ ok (anchored (month_index t + 1) a)
unfolding next_monthly_date
next_monthly_date-eq t a h k =
    rw (parse_billing_date-IsDate t h) (
      rw (anchored_date-eq t.year (t.month - 1 + 1) a k)
        (ap (λ i. ok (anchored i a)) (omega arith)))

pub next_monthly_date-later :
    (t : Date) (a : ℕ) → IsDate t → IsAnchor a → key t < key (anchored (month_index t + 1) a)
next_monthly_date-later t a h k =
    key-lt_of_month_index t (anchored (month_index t + 1) a) h
      (anchored-IsDate (month_index t + 1) a k) (omega arith)

-- Of the same anchor a later month has a later date.
pub key-anchored_mono :
    (i j a : ℕ) → 1 ≤ i → IsAnchor a → i ≤ j → key (anchored i a) ≤ key (anchored j a)
key-anchored_mono i j a l k h = elim (dec_lt i j) [
  | yes lt ↦ le_of_lt (
      key-lt_of_month_index (anchored i a) (anchored j a) (anchored-IsDate i a k)
        (anchored-IsDate j a k) (omega arith))
  | no ge ↦
      subst (λ n. key (anchored i a) ≤ key (anchored n a)) (let e : i ≡ j = omega arith in e)
        (omega arith)
]

-- What `nextMonthlyDateAfter` promises: the first day of the anchor that is strictly later.
pub record IsFirstAfter (today : Date) (a : ℕ) (d : Date) : Type 0 where
  pub real : IsDate d
  pub later : key today < key d
  pub first : (j : ℕ) → 1 ≤ j → key today < key (anchored j a) → key d ≤ key (anchored j a)

next_monthly_date_after-eq :
    (t : Date) (a : ℕ)
    → IsDate t
    → IsAnchor a
    → next_monthly_date_after t a
      ≡ ok (
          if before t (anchored (month_index t) a)
          then anchored (month_index t) a
          else anchored (month_index t + 1) a)
unfolding next_monthly_date_after
next_monthly_date_after-eq t a h k =
    let here : anchored_date t.year (t.month - 1) a ≡ ok (anchored (month_index t) a) =
      anchored_date-eq t.year (t.month - 1) a k ∙ ap (λ i. ok (anchored i a)) (omega arith) in
    rw (parse_billing_date-IsDate t h) (
      rw here (
        rw (next_monthly_date-eq t a h k)
          (elim (Bool-cases (before t (anchored (month_index t) a))) [
            | inl e ↦ rw e
            | inr e ↦ rw e
          ])))

this_month-IsFirstAfter :
    (t : Date) (a : ℕ)
    → IsDate t
    → IsAnchor a
    → key t < key (anchored (month_index t) a)
    → IsFirstAfter t a (anchored (month_index t) a)
this_month-IsFirstAfter t a h k lt = record {
  real = anchored-IsDate (month_index t) a k;
  later = lt;
  first = λ j low later. key-anchored_mono (month_index t) j a (omega arith) k (
      subst (λ n. month_index t ≤ n) (month_index-anchored j a low)
        (month_index-le_of_key t (anchored j a) h (anchored-IsDate j a k) (le_of_lt later)));
}

later_month :
    (t : Date) (j a : ℕ)
    → IsDate t
    → IsAnchor a
    → key (anchored (month_index t) a) ≤ key t
    → 1 ≤ j
    → key t < key (anchored j a)
    → month_index t + 1 ≤ j
later_month t j a h k past low later =
    let reach : month_index t ≤ j =
      subst (λ n. month_index t ≤ n) (month_index-anchored j a low)
        (month_index-le_of_key t (anchored j a) h (anchored-IsDate j a k) (le_of_lt later)) in
    elim (dec_lt (month_index t) j) [
      | yes lt ↦ omega arith
      | no ge ↦
          let same : j ≡ month_index t = omega arith in
          let back : key (anchored j a) ≤ key t =
            subst (λ n. key (anchored n a) ≤ key t) (sym same) past in
          absurd (omega (arith, back, later))
    ]

next_month-IsFirstAfter :
    (t : Date) (a : ℕ)
    → IsDate t
    → IsAnchor a
    → key (anchored (month_index t) a) ≤ key t
    → IsFirstAfter t a (anchored (month_index t + 1) a)
next_month-IsFirstAfter t a h k past = record {
  real = anchored-IsDate (month_index t + 1) a k;
  later = next_monthly_date-later t a h k;
  first = λ j low later.
      key-anchored_mono (month_index t + 1) j a (omega arith) k
        (later_month t j a h k past low later);
}

-- For a calendar date and an anchor day from 1 to 31 the next renewal date exists: a calendar date
-- strictly later than the given one, and no later than any later day of the anchor.
pub next_monthly_date_after-IsFirstAfter :
    (t : Date) (a : ℕ)
    → IsDate t
    → IsAnchor a
    → (d : Date) × (next_monthly_date_after t a ≡ ok d) × IsFirstAfter t a d
next_monthly_date_after-IsFirstAfter t a h k =
    elim (Bool-cases (before t (anchored (month_index t) a))) [
      | inl e ↦ (
        anchored (month_index t) a,
        next_monthly_date_after-eq t a h k ∙ rw e,
        this_month-IsFirstAfter t a h k (ltb→lt _ _ e),
      )
      | inr e ↦ (
        anchored (month_index t + 1) a,
        next_monthly_date_after-eq t a h k ∙ rw e,
        next_month-IsFirstAfter t a h k (ltb_false→le _ _ e),
      )
    ]
