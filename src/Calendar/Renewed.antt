-- ===== src/Calendar/Renewed.antt =====
-- The renewal's loop from the day after a period's end (memberships.service.ts, and with the date
-- of the next renewal membership-renewal.ts).
use pulso_crm.Prelude.{
  ℕ, zero, suc, true, ◌+◌, ◌≤◌, ◌<◌, ◌≡◌, refl, sym, subst, some, arith, ok, ◌⊎◌, inl, inr,
  Bool-cases, ltb→lt, ltb_false→le,
}
use native.Mathlib.Decide.{dec_lt}
use native.Mathlib.Nat.{le_of_lt}
use pulso_crm.Calendar.{Date, key, before, IsDate}
use pulso_crm.Calendar.Anchor.{
  month_index, anchored, IsAnchor, anchored-IsDate, key-anchored_mono, key-lt_of_month_index,
  next_monthly_date-later,
}
use pulso_crm.Calendar.Period.{Window, catch_up, catch_up_fuel, catch_up_total, IsAligned}

-- The window that the loop starts with.
abbrev pub first_window : Date → Date → Window
first_window start next = record { start = start; next = next; skipped = 0 }

-- The month that a renewal is for, where `first` is its earliest first day: it does not begin before
-- that, it is not over today, and it begins later only if it has begun by today.
pub record IsRenewal (first : Date) (a : ℕ) (today : Date) (w : Window) : Type 0 where
  pub real : IsDate w.start
  pub next_real : IsDate w.next
  pub adjacent : w.next ≡ anchored (month_index w.start + 1) a
  pub later : key first ≤ key w.start
  pub not_over : key today < key w.next
  pub prompt : (w.start ≡ first) ⊎ (key w.start ≤ key today)

-- A window of the anchor that is current starts no earlier than one of the anchor that has begun.
current_after :
    (a : ℕ) (today first : Date) (w : Window)
    → IsAnchor a
    → IsDate first
    → IsDate w.start
    → w.next ≡ anchored (month_index w.start + 1) a
    → key (anchored (month_index first + 1) a) ≤ key today
    → key today < key w.next
    → key first < key w.start
current_after a today first w k real start_real adj past ahead =
    elim (dec_lt (month_index first) (month_index w.start)) [
      | yes lt ↦ key-lt_of_month_index first w.start real start_real lt
      | no ge ↦
          let back : key w.next ≤ key (anchored (month_index first + 1) a) =
            subst (λ n. key n ≤ key (anchored (month_index first + 1) a)) (sym adj)
              (key-anchored_mono (month_index w.start + 1) (month_index first + 1) a (omega arith) k
                (omega arith)) in
          absurd (omega (arith, back, past, ahead))
    ]

passed :
    (first : Date) (a : ℕ) (today : Date)
    → IsDate first
    → IsDate today
    → IsAnchor a
    → key (anchored (month_index first + 1) a) ≤ key today
    → (w : Window) × (catch_up
          (catch_up_fuel today)
          today
          a
          (first_window first (anchored (month_index first + 1) a))
        ≡ ok (some w))
      × IsRenewal first a today w
unfolding catch_up_fuel
passed first a today real h k past =
    let start = first_window first (anchored (month_index first + 1) a) in
    let al : IsAligned a (month_index first) start = record {
      real = real;
      next_real = anchored-IsDate (month_index first + 1) a k;
      adjacent = refl;
      months = omega arith;
    } in
    let begun = next_monthly_date-later first a real k in
    let (w, run, aligned, current) =
      catch_up_total (month_index today + 2) today a (month_index first) start h k al
        (omega (arith, begun, past)) (omega arith) in
    (
      w,
      run,
      record {
        real = aligned.real;
        next_real = aligned.next_real;
        adjacent = aligned.adjacent;
        later = le_of_lt (
            current_after a today first w k real aligned.real aligned.adjacent past
              current.open_ended);
        not_over = current.open_ended;
        prompt = inr current.begun;
      },
    )

-- A window that is not over stops the loop at once.
catch_up-here :
    (fuel : ℕ) (today : Date) (a : ℕ) (w : Window)
    → 0 < fuel
    → before today w.next ≡ true
    → catch_up fuel today a w ≡ ok (some w)
unfolding catch_up
catch_up-here zero today a w h e = absurd (omega arith)
catch_up-here (suc fuel) today a w h e = rw e

-- From the first day of any month of the anchor the loop finds the month to renew for.
pub catch_up-IsRenewal :
    (first : Date) (a : ℕ) (today : Date)
    → IsDate first
    → IsDate today
    → IsAnchor a
    → (w : Window) × (catch_up
          (catch_up_fuel today)
          today
          a
          (first_window first (anchored (month_index first + 1) a))
        ≡ ok (some w))
      × IsRenewal first a today w
unfolding catch_up_fuel
catch_up-IsRenewal first a today real h k =
    elim (Bool-cases (before today (anchored (month_index first + 1) a))) [
      | inr e ↦ passed first a today real h k (ltb_false→le _ _ e)
      | inl e ↦ (
        first_window first (anchored (month_index first + 1) a),
        catch_up-here (catch_up_fuel today) today a _ (omega arith) e,
        record {
          real = real;
          next_real = anchored-IsDate (month_index first + 1) a k;
          adjacent = refl;
          later = omega arith;
          not_over = ltb→lt _ _ e;
          prompt = inl refl;
        },
      )
    ]
