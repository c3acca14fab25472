-- ===== src/Worker/Renewals/Tests.antt =====
-- The job on the sample gym, whose period has been set to renew.
use pulso_crm.Prelude.{◌≡◌, refl, none, some, true, false, ◌∷◌, [], map, ℕ, ok, Result}
use pulso_crm.Prelude.Int.{pos, negsuc, ◌+ℤ◌, leb_ℤ}
use pulso_crm.Calendar.{
  Date, date, next_day, prev_day, days_after, utc_date, days_in_month, is_leap, parse_billing_date,
  anchored_date, next_monthly_date, monthly_end_date,
}
use pulso_crm.Store.{Db, Membership, debit, membership_charge, other_text}
use pulso_crm.Store.Action.{
  ◌>>=◌, pure, gets, require, modify, throw_when, lift, fresh, record_audit,
}
use pulso_crm.Store.Sample.{sample_db, sample_member, sample_membership}
use pulso_crm.Ledger.{Posting, find_member, post_ledger_entry}
use pulso_crm.Ledger.Consistent.{IsConsistent}
use pulso_crm.Memberships.Renewal.{find_membership}
use pulso_crm.Worker.Renewals.{
  no_renewals, post_debt, renew_branch, renew_memberships, terms_of, eligible, renew_due, on_terms,
  renew_row, renew_found, renew_candidate, count_outcome, renew_all, renew_branches,
}
use pulso_crm.Worker.Renewals.Posted.{post_debt-eq, renew_memberships-IsConsistent}
use pulso_crm.Worker.Renewals.Due.{is_due}
use pulso_crm.Worker.Renewals.Settled.{renew_branch_settles}
use pulso_crm.Memberships.{insert_membership}
use pulso_crm.Calendar.Period.{catch_up, catch_up_fuel}

abbrev due_db : Db
due_db = record sample_db {
  memberships =
      (record sample_membership { auto_renew = true; next_renewal_date = some (date 2026 2 15) })
      ∷ [];
}

abbrev april : ℕ → Date
april branch_id = date 2026 4 20

-- Two months are skipped, and the period of April is owed.
renewed_in_april : (renew_memberships april due_db).0 ≡ record {
  memberships_renewed = 1;
  recurrences_stopped = 0;
  past_periods_skipped = 2;
  failures = 0;
}
unfolding ◌>>=◌ gets require modify throw_when pure lift fresh record_audit terms_of eligible
    post_debt renew_due on_terms renew_row renew_found renew_candidate count_outcome renew_all
    renew_branch renew_branches renew_memberships insert_membership next_day prev_day days_after
    utc_date days_in_month is_leap parse_billing_date anchored_date next_monthly_date
    monthly_end_date catch_up catch_up_fuel
renewed_in_april = refl

april_periods :
    (map (λ m. m.start_date) (renew_memberships april due_db).1.memberships
      ≡ date 2026 1 15 ∷ date 2026 4 15 ∷ [])
    × (map (λ m. m.balance) (renew_memberships april due_db).1.members ≡ negsuc 19999 ∷ [])
unfolding ◌>>=◌ gets require modify throw_when pure lift fresh record_audit terms_of eligible
    post_debt renew_due on_terms renew_row renew_found renew_candidate renew_all renew_branch
    renew_branches renew_memberships insert_membership next_day prev_day days_after utc_date
    days_in_month is_leap parse_billing_date anchored_date next_monthly_date monthly_end_date
    catch_up catch_up_fuel pulso_crm.Prelude.Int.◌-ℤ◌
april_periods = (refl, refl)

-- A second run on the same day has nothing to do.
second_run : (renew_memberships april (renew_memberships april due_db).1).0 ≡ no_renewals
unfolding ◌>>=◌ gets require modify throw_when pure lift fresh record_audit terms_of eligible
    post_debt renew_due on_terms renew_row renew_found renew_candidate count_outcome renew_all
    renew_branch renew_branches renew_memberships insert_membership next_day prev_day days_after
    utc_date days_in_month is_leap parse_billing_date anchored_date next_monthly_date
    monthly_end_date catch_up catch_up_fuel
second_run = refl

abbrev debt : Posting
debt = record {
  member_id = 1;
  type = debit;
  reason = membership_charge;
  amount = pos 700;
  description = other_text;
  membership_id = some 3;
  cash_movement_id = none;
  branch_id = some 1;
}

post_debt-eq_example :
    post_debt sample_member debt sample_db ≡ (post_ledger_entry debt >>= λ entry. pure tt) sample_db
post_debt-eq_example = post_debt-eq sample_member debt sample_db refl refl refl refl

due_db-IsConsistent : IsConsistent due_db
unfolding pulso_crm.Ledger.Consistent.ledger_sum pulso_crm.Prelude.Int.◌+ℤ◌
    pulso_crm.Prelude.Int.neg
due_db-IsConsistent = (refl, tt)

renew_memberships-IsConsistent_example : IsConsistent (renew_memberships april due_db).1
renew_memberships-IsConsistent_example =
    renew_memberships-IsConsistent april due_db due_db-IsConsistent

april_failures : (renew_branch 1 (date 2026 4 20) no_renewals due_db).0.failures ≡ 0
unfolding ◌>>=◌ gets require modify throw_when pure lift fresh record_audit terms_of eligible
    post_debt renew_due on_terms renew_row renew_found renew_candidate count_outcome renew_all
    renew_branch insert_membership next_day prev_day days_after utc_date days_in_month is_leap
    parse_billing_date anchored_date next_monthly_date monthly_end_date catch_up catch_up_fuel
april_failures = refl

abbrev april_period : Membership
april_period = record sample_membership {
  id = 100;
  start_date = date 2026 4 15;
  end_date = some (date 2026 5 14);
  auto_renew = true;
  next_renewal_date = some (date 2026 5 15);
  renewed_from_id = some 3;
}

april_found :
    find_membership 100 (renew_branch 1 (date 2026 4 20) no_renewals due_db).1 ≡ some april_period
unfolding ◌>>=◌ gets require modify throw_when pure lift fresh record_audit terms_of eligible
    post_debt renew_due on_terms renew_row renew_found renew_candidate renew_all renew_branch
    insert_membership next_day prev_day days_after utc_date days_in_month is_leap parse_billing_date
    anchored_date next_monthly_date monthly_end_date catch_up catch_up_fuel
april_found = refl

renew_branch_settles_example : is_due 1 (date 2026 4 20) april_period ≡ false
renew_branch_settles_example =
    renew_branch_settles 1 (date 2026 4 20) no_renewals due_db april_failures 100 april_period
      april_found
