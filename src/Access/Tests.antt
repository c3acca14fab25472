-- ===== src/Access/Tests.antt =====
-- The sample gym's member comes in on 21 January 2026.
use pulso_crm.Prelude.{
  ◌≡◌, refl, none, some, [], ◌∷◌, ◌-◌, ◌≤◌, true, false, ok, arith, if◌then◌else◌,
}
use pulso_crm.Calendar.{Date, date}
use pulso_crm.Store.{Db, MemberStatus, MembershipStatus, allowed, access_ok, duplicate_window}
use pulso_crm.Store.Sample.{sample_db, paid_member, sample_membership, rows_of, value_of}
use pulso_crm.Access.{
  Snapshot, MemberSnapshot, MembershipSnapshot, PlanSnapshot, evaluate_access, allow,
}
use pulso_crm.Access.Chain.{MayEnter, evaluate_access_sound, evaluate_access_complete}
use pulso_crm.Access.Check.{
  snapshot, latest_period, plan_of, attendance_snapshot, days_other_than, has_day,
}
use pulso_crm.Access.Record.{
  CheckResponse, decide_and_record, record_decision, add_attempt, decrement_classes,
  decrement_period, write_decision,
}
use pulso_crm.Access.Attendances.{HasOneEntry, find_period}
use pulso_crm.Access.Entries.{record_decision-HasOneEntry, record_decision_twice}
use pulso_crm.Access.Admission.{decide_and_record-MayEnter, decide_and_record-UsesClass}
use pulso_crm.Store.Action.{◌>>=◌, gets, require, modify, throw_when, pure, fresh}

abbrev paid_db : Db
paid_db = record sample_db { members = paid_member ∷ [] }

abbrev today : Date
today = date 2026 1 21

abbrev no_response : CheckResponse
no_response = record {
  decision = allowed;
  reason = access_ok;
  classes_remaining = none;
  attendance_registered = false;
  access_attempt_id = 0;
}

abbrev check_rows : Db
check_rows = rows_of paid_db (decide_and_record paid_member 1 today true paid_db)

abbrev check_value : CheckResponse
check_value = value_of no_response (decide_and_record paid_member 1 today true paid_db)

check_run : decide_and_record paid_member 1 today true paid_db ≡ ok (check_value, check_rows)
unfolding ◌>>=◌ gets require modify throw_when pure fresh evaluate_access latest_period plan_of
    attendance_snapshot days_other_than has_day snapshot add_attempt decrement_classes
    decrement_period write_decision record_decision decide_and_record
check_run = refl

check_registered : check_value.attendance_registered ≡ true
unfolding ◌>>=◌ gets require modify throw_when pure fresh evaluate_access latest_period plan_of
    attendance_snapshot days_other_than has_day snapshot add_attempt decrement_classes
    decrement_period write_decision record_decision decide_and_record
check_registered = refl

decide_and_record-MayEnter_example :
    (m : MemberSnapshot) × (p : MembershipSnapshot) × (t : PlanSnapshot) × MayEnter
      (snapshot paid_member 1 today paid_db)
      m
      p
      t
decide_and_record-MayEnter_example =
    decide_and_record-MayEnter paid_member 1 today true paid_db check_run check_registered

latest_run : latest_period 1 paid_db.memberships ≡ some sample_membership
unfolding latest_period
latest_run = refl

decide_and_record-UsesClass_example :
    (1 ≤ 8)
    × (find_period 3 check_rows
        ≡ some (record sample_membership { classes_remaining = some (8 - 1) }))
decide_and_record-UsesClass_example =
    decide_and_record-UsesClass paid_member 1 today true paid_db sample_membership 8 check_run
      check_registered latest_run refl refl

abbrev record_rows : Db
record_rows =
    rows_of paid_db
      (record_decision 1 (some sample_membership) 1 today (allow access_ok) true paid_db)

abbrev record_value : CheckResponse
record_value =
    value_of no_response
      (record_decision 1 (some sample_membership) 1 today (allow access_ok) true paid_db)

record_run :
    record_decision 1 (some sample_membership) 1 today (allow access_ok) true paid_db
    ≡ ok (record_value, record_rows)
unfolding ◌>>=◌ gets require modify throw_when pure fresh add_attempt decrement_classes
    decrement_period write_decision record_decision
record_run = refl

record_registered : record_value.attendance_registered ≡ true
unfolding ◌>>=◌ gets require modify throw_when pure fresh add_attempt decrement_classes
    decrement_period write_decision record_decision
record_registered = refl

record_decision-HasOneEntry_example : HasOneEntry record_rows.attendances
record_decision-HasOneEntry_example =
    record_decision-HasOneEntry 1 (some sample_membership) 1 today (allow access_ok) true paid_db
      (λ m b d. omega arith) record_run

-- The second check of the day, decided on the snapshot of the first.
abbrev again_rows : Db
again_rows =
    rows_of record_rows
      (record_decision 1 (some sample_membership) 1 today (allow access_ok) true record_rows)

abbrev again_value : CheckResponse
again_value =
    value_of no_response
      (record_decision 1 (some sample_membership) 1 today (allow access_ok) true record_rows)

again_run :
    record_decision 1 (some sample_membership) 1 today (allow access_ok) true record_rows
    ≡ ok (again_value, again_rows)
unfolding ◌>>=◌ gets require modify throw_when pure fresh add_attempt decrement_classes
    decrement_period write_decision record_decision
again_run = refl

record_decision_twice_example :
    (again_value.attendance_registered ≡ false)
    × (again_rows.attendances ≡ record_rows.attendances)
    × (again_rows.memberships ≡ record_rows.memberships)
record_decision_twice_example =
    record_decision_twice 1 (some sample_membership) (some sample_membership) 1 today
      (allow access_ok) (allow access_ok) true true paid_db record_run record_registered again_run

allowed_run : (evaluate_access (snapshot paid_member 1 today paid_db)).decision ≡ allowed
unfolding evaluate_access latest_period plan_of attendance_snapshot days_other_than has_day snapshot
allowed_run = refl

evaluate_access_sound_example :
    (m : MemberSnapshot) × (p : MembershipSnapshot) × (t : PlanSnapshot) × MayEnter
      (snapshot paid_member 1 today paid_db)
      m
      p
      t
evaluate_access_sound_example =
    evaluate_access_sound (snapshot paid_member 1 today paid_db) allowed_run

abbrev fit_member : MemberSnapshot
fit_member = record {
  id = 1;
  status = MemberStatus.active;
  has_outstanding_debt = false;
  medical_clearance_until = none;
}

abbrev fit_period : MembershipSnapshot
fit_period = record {
  id = 3;
  status = MembershipStatus.active;
  end_date = none;
  classes_remaining = some 2;
}

abbrev fit_plan : PlanSnapshot
fit_plan = record { id = 2; weekly_access_limit = some 3; allowed_branch_ids = none }

abbrev fit_snapshot : Snapshot
fit_snapshot = record {
  branch_id = 1;
  today = today;
  member = some fit_member;
  membership = some fit_period;
  plan = some fit_plan;
  attendance = record { exists_today = false; distinct_days_this_week_excluding_today = 2 };
}

fit-MayEnter : MayEnter fit_snapshot fit_member fit_period fit_plan
fit-MayEnter = record {
  known = refl;
  period = refl;
  terms = refl;
  active = refl;
  current = refl;
  not_ended = λ end e. cc e;
  no_debt = refl;
  branch_fits = λ ids e. cc e;
  classes_left = λ n e. ground (arith, e);
  under_limit = λ n e. ground (arith, e);
  cleared = λ until e. cc e;
}

evaluate_access_complete_example :
    evaluate_access fit_snapshot ≡ (if false then allow duplicate_window else allow access_ok)
evaluate_access_complete_example =
    evaluate_access_complete fit_snapshot fit_member fit_period fit_plan fit-MayEnter
