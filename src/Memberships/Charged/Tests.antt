-- ===== src/Memberships/Charged/Tests.antt =====
-- The sample gym's member takes another period, and pays it at once.
use pulso_crm.Prelude.{◌≡◌, refl, none, some, true, ok}
use pulso_crm.Prelude.Int.{pos, ◌+ℤ◌}
use pulso_crm.Calendar.{
  Date, date, days_in_month, prev_day, days_after, utc_date, parse_billing_date, anchored_date,
  next_monthly_date, monthly_end_date, membership_end_date,
}
use pulso_crm.Store.{Db, Membership}
use pulso_crm.Store.Sample.{sample_db, sample_context, sample_membership, rows_of, value_of}
use pulso_crm.Ledger.Consistent.{ledger_sum}
use pulso_crm.Memberships.{
  CreateRequest, now, quote_enrollment_price, check_permission, check_session, charge_method,
  next_renewal, insert_membership, collect,
}
use pulso_crm.Memberships.Create.{create_membership, stop_previous, assign, create_in}
use pulso_crm.Memberships.Charges.{left_to_pay}
use pulso_crm.Memberships.Charged.{create_membership-Charged}
use pulso_crm.Store.Action.{
  ◌>>=◌, gets, require, modify, throw_when, pure, lift, fresh, record_audit,
}
use pulso_crm.Ledger.{post_ledger_entry}
use pulso_crm.Cash.{
  find_open_session_for_user, require_open_session_for_user, create_movement, ensure_system_concept,
  existing_or_create, create_concept,
}
use pulso_crm.Store.Context.{require_branch}

abbrev sample_request : CreateRequest
sample_request = record {
  plan_id = 2;
  branch_id = some 1;
  start_date = date 2026 3 1;
  auto_renew = true;
  price_override = none;
  charge = now 10 (pos 10000);
}

abbrev create_rows : Db
create_rows =
    rows_of sample_db (create_membership sample_context 1 sample_request (date 2026 2 20) sample_db)

abbrev create_value : Membership
create_value =
    value_of sample_membership
      (create_membership sample_context 1 sample_request (date 2026 2 20) sample_db)

create_run :
    create_membership sample_context 1 sample_request (date 2026 2 20) sample_db
    ≡ ok (create_value, create_rows)
unfolding ◌>>=◌ gets require modify throw_when pure lift fresh record_audit quote_enrollment_price
    check_permission check_session charge_method next_renewal stop_previous insert_membership
    collect assign create_in create_membership post_ledger_entry find_open_session_for_user
    require_open_session_for_user create_movement ensure_system_concept existing_or_create
    create_concept require_branch days_in_month prev_day days_after utc_date parse_billing_date
    anchored_date next_monthly_date monthly_end_date membership_end_date
create_run = refl

-- The period runs to 31 March and is renewed on 1 April.
create_dates :
    (create_value.end_date ≡ some (date 2026 3 31))
    × (create_value.next_renewal_date ≡ some (date 2026 4 1))
unfolding ◌>>=◌ gets require modify throw_when pure lift fresh record_audit quote_enrollment_price
    check_permission check_session charge_method next_renewal stop_previous insert_membership
    collect assign create_in create_membership post_ledger_entry find_open_session_for_user
    require_open_session_for_user create_movement ensure_system_concept existing_or_create
    create_concept require_branch days_in_month pulso_crm.Calendar.next_day prev_day days_after
    utc_date pulso_crm.Calendar.add_days parse_billing_date anchored_date next_monthly_date
    monthly_end_date membership_end_date
create_dates = (refl, refl)

create_membership-Charged_example :
    ledger_sum 1 create_rows.entries
    ≡ ledger_sum 1 sample_db.entries +ℤ left_to_pay sample_request.charge create_value.price_paid
create_membership-Charged_example =
    create_membership-Charged sample_context 1 sample_request (date 2026 2 20) sample_db create_run
