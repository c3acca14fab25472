-- ===== src/Memberships/Renewal/Tests.antt =====
-- The sample gym's member renews the period that ended on 14 February, and pays at once.
use pulso_crm.Prelude.{◌≡◌, refl, some, ◌∷◌, [], map, ok, arith, subst, eq_of_some}
use pulso_crm.Calendar.Anchor.{IsAnchor}
use pulso_crm.Prelude.Int.{pos, ◌+ℤ◌}
use pulso_crm.Calendar.{
  Date, date, IsDate, is_leap, days_in_month, next_day, prev_day, days_after, utc_date, add_days,
  parse_billing_date, anchored_date, next_monthly_date, monthly_end_date,
}
use pulso_crm.Store.{Db, Membership, MembershipStatus}
use pulso_crm.Store.Sample.{sample_db, sample_context, sample_membership, rows_of, value_of}
use pulso_crm.Ledger.Consistent.{ledger_sum}
use pulso_crm.Memberships.{
  Charge, now, quote_enrollment_price, check_permission, check_session, check_branch,
  insert_membership,
}
use pulso_crm.Memberships.Charges.{left_to_pay}
use pulso_crm.Memberships.Renewal.{
  renew, lock_period, renewal_method, renewal_window, collect_renewal, assign_renewal,
  renewal_branch, renew_locked, check_renewal,
}
use pulso_crm.Memberships.Renewal.Charged.{renew-Charged}
use pulso_crm.Memberships.Renewal.Current.{HasRealDates, Renews, renew-Renews}
use pulso_crm.Store.Action.{
  ◌>>=◌, gets, require, modify, throw_when, pure, lift, fresh, record_audit,
}
use pulso_crm.Ledger.{post_ledger_entry}
use pulso_crm.Cash.{
  find_open_session_for_user, require_open_session_for_user, create_movement, ensure_system_concept,
  existing_or_create, create_concept,
}
use pulso_crm.Store.Context.{require_branch}
use pulso_crm.Calendar.Period.{catch_up, catch_up_fuel}

abbrev at_once : Charge
at_once = now 10 (pos 10000)

abbrev renew_rows : Db
renew_rows = rows_of sample_db (renew sample_context 3 at_once (date 2026 2 20) sample_db)

abbrev renew_value : Membership
renew_value = value_of sample_membership (renew sample_context 3 at_once (date 2026 2 20) sample_db)

renew_run : renew sample_context 3 at_once (date 2026 2 20) sample_db ≡ ok (renew_value, renew_rows)
unfolding ◌>>=◌ gets require modify throw_when pure lift fresh record_audit quote_enrollment_price
    check_permission check_session check_branch insert_membership post_ledger_entry
    find_open_session_for_user require_open_session_for_user create_movement ensure_system_concept
    existing_or_create create_concept require_branch is_leap days_in_month next_day prev_day
    days_after utc_date add_days parse_billing_date anchored_date next_monthly_date monthly_end_date
    lock_period renewal_method renewal_window collect_renewal assign_renewal renewal_branch
    renew_locked check_renewal renew catch_up catch_up_fuel
renew_run = refl

-- The new period runs from 15 February to 14 March; the old one has expired.
renew_dates :
    (renew_value.start_date ≡ date 2026 2 15)
    × (renew_value.end_date ≡ some (date 2026 3 14))
    × (map (λ m. m.status) renew_rows.memberships
        ≡ MembershipStatus.expired ∷ MembershipStatus.active ∷ [])
unfolding ◌>>=◌ gets require modify throw_when pure lift fresh record_audit quote_enrollment_price
    check_permission check_session check_branch insert_membership post_ledger_entry
    find_open_session_for_user require_open_session_for_user create_movement ensure_system_concept
    existing_or_create create_concept require_branch is_leap days_in_month next_day prev_day
    days_after utc_date add_days parse_billing_date anchored_date next_monthly_date monthly_end_date
    lock_period renewal_method renewal_window collect_renewal assign_renewal renewal_branch
    renew_locked check_renewal renew catch_up catch_up_fuel
renew_dates = (refl, refl, refl)

-- After three months without a payment only the month that today is in is renewed.
late_renewal :
    (value_of sample_membership
      (renew sample_context 3 at_once (date 2026 5 20) sample_db)).start_date
    ≡ date 2026 5 15
unfolding ◌>>=◌ gets require modify throw_when pure lift fresh record_audit quote_enrollment_price
    check_permission check_session check_branch insert_membership post_ledger_entry
    find_open_session_for_user require_open_session_for_user create_movement ensure_system_concept
    existing_or_create create_concept require_branch is_leap days_in_month next_day prev_day
    days_after utc_date add_days parse_billing_date anchored_date next_monthly_date monthly_end_date
    lock_period renewal_method renewal_window collect_renewal assign_renewal renewal_branch
    renew_locked check_renewal renew catch_up catch_up_fuel
late_renewal = refl

renew-Charged_example :
    ledger_sum renew_value.member_id renew_rows.entries
    ≡ ledger_sum renew_value.member_id sample_db.entries
      +ℤ left_to_pay at_once renew_value.price_paid
renew-Charged_example = renew-Charged sample_context 3 at_once (date 2026 2 20) sample_db renew_run

january-IsDate : IsDate (date 2026 1 15)
unfolding days_in_month is_leap
january-IsDate = omega arith

last_day-IsDate : IsDate (date 2026 2 14)
unfolding days_in_month is_leap
last_day-IsDate = omega arith

today-IsDate : IsDate (date 2026 2 20)
unfolding days_in_month is_leap
today-IsDate = omega arith

fifteenth-IsAnchor : IsAnchor 15
fifteenth-IsAnchor = omega arith

sample_membership-HasRealDates : HasRealDates sample_membership
sample_membership-HasRealDates = record {
  start = january-IsDate;
  end = λ d e. subst IsDate (eq_of_some e) last_day-IsDate;
  anchor = λ a e. subst IsAnchor (eq_of_some e) fifteenth-IsAnchor;
}

renew-Renews_example :
    (end : Date) × (sample_membership.end_date ≡ some end)
    × Renews sample_membership end (date 2026 2 20) renew_value
renew-Renews_example =
    renew-Renews sample_context 3 at_once (date 2026 2 20) sample_db sample_membership refl
      sample_membership-HasRealDates today-IsDate renew_run
