-- ===== src/Access/Record.antt =====
-- apps/api/src/modules/access/access.service.ts: the record of a verdict. Other requests may write
-- between the reads of the snapshot and this transaction, so it is a function of rows of its own.
use pulso_crm.Prelude.{
  ℕ, ◌-◌, Bool, true, false, not, Option, none, some, [], ◌∷◌, ◌++◌, ◌==◌, ◌&&◌, if◌then◌else◌,
  find_first, update_where, is_some, failure,
}
use pulso_crm.Prelude.Int.{ℤ, pos, sub_ℕ}
use pulso_crm.Calendar.{Date, key}
use pulso_crm.Store.{
  Db, Member, Membership, Attendance, AccessAttempt, AccessDecision, allowed, denied, AccessReason,
  member_not_found, duplicate_window, access_ok,
}
use pulso_crm.Store.Action.{Action, pure, gets, require, modify, throw_when, ◌>>=◌, ◌>>◌, fresh}
use pulso_crm.Access.{Verdict, evaluate_access}
use pulso_crm.Access.Check.{latest_period, snapshot}

-- `shouldRecordAttendance`.
abbrev pub should_record : Verdict → Bool → Bool
should_record v register_attendance = is_first v.decision v.reason && register_attendance
  where
    is_first : AccessDecision → AccessReason → Bool
    is_first allowed access_ok = true
    is_first d r = false

-- The unique index on `(gymId, memberId, branchId, occurredOn)`; the day is the number `key`.
abbrev pub same_entry : ℕ → ℕ → ℕ → Attendance → Bool
same_entry member_id branch_id day a =
    a.member_id == member_id && (a.branch_id == branch_id && key a.occurred_on == day)

unfoldable pub add_attempt : ℕ → Option ℕ → Verdict → Option ℕ → Action AccessAttempt
add_attempt branch_id member_id v attendance_id = do
  id ← fresh
  let attempt : AccessAttempt = record {
    id = id;
    branch_id = branch_id;
    member_id = member_id;
    decision = v.decision;
    reason = v.reason;
    attendance_id = attendance_id;
  }
  modify (λ db. record db { attempts = db.attempts ++ attempt ∷ [] })
  pure attempt

-- `AccessCheckResponse`, less the member's personal data.
pub record CheckResponse : Type 0 where
  pub decision : AccessDecision
  pub reason : AccessReason
  pub classes_remaining : Option ℤ
  pub attendance_registered : Bool
  pub access_attempt_id : ℕ

abbrev pub period_id : Option Membership → Option ℕ
period_id none = none
period_id (some m) = some m.id

abbrev pub attendance_row : ℕ → ℕ → Option Membership → ℕ → Date → Attendance
attendance_row id member_id period branch_id today = record {
  id = id;
  member_id = member_id;
  membership_id = period_id period;
  branch_id = branch_id;
  occurred_on = today;
}

-- `{ decrement: 1 }`; a pack without a limit has no number to decrement.
abbrev pub decremented : Option ℕ → Option ℕ
decremented none = none
decremented (some n) = some (n - 1)

abbrev pub has_no_class : Option ℕ → Bool
has_no_class none = false
has_no_class (some n) = n == 0

abbrev pub use_class : ℕ → Db → Db
use_class id db = record db {
  memberships =
      update_where (λ m. m.id == id)
        (λ m. record m { classes_remaining = decremented m.classes_remaining }) db.memberships;
}

-- The decrement of the period that was read with `n` classes left; the row may have changed since,
-- and the table's check `classesRemaining >= 0` rejects the write that would pass below zero.
unfoldable pub decrement_classes : ℕ → Option ℕ → Action (Unit {0})
decrement_classes id none = pure tt
decrement_classes id (some n) = if n == 0 then pure tt else (do
  row ← gets (λ db. find_first (λ m. m.id == id) db.memberships)
  current ← require row failure
  throw_when (has_no_class current.classes_remaining) failure
  modify (use_class id))

unfoldable pub decrement_period : Option Membership → Action (Unit {0})
decrement_period none = pure tt
decrement_period (some m) = decrement_classes m.id m.classes_remaining

abbrev pub classes_of : Option Membership → Option ℕ
classes_of none = none
classes_of (some m) = m.classes_remaining

-- `shouldRecordAttendance && classesRemaining !== null ? classesRemaining - 1 : classesRemaining`.
abbrev shown_classes : Bool → Option ℕ → Option ℤ
shown_classes should none = none
shown_classes should (some n) = if should then some (sub_ℕ n 1) else some (pos n)

abbrev response : Bool → Bool → Option Membership → AccessAttempt → CheckResponse
response should registered period attempt = record {
  decision = attempt.decision;
  reason = attempt.reason;
  classes_remaining = shown_classes should (classes_of period);
  attendance_registered = registered;
  access_attempt_id = attempt.id;
}

-- The transaction that writes the attempt, with its attendance if one is due and no row of the unique
-- index stands against it; and the attempt of the `catch` if one does.
unfoldable pub write_decision :
    Bool → Bool → ℕ → Option Membership → ℕ → Date → Verdict → Action CheckResponse
write_decision false taken member_id period branch_id today v = do
  attempt ← add_attempt branch_id (some member_id) v none
  pure (response false false period attempt)
write_decision true true member_id period branch_id today v = do
  attempt ←
      add_attempt branch_id (some member_id)
        (record { decision = allowed; reason = duplicate_window }) none
  pure (response false false period attempt)
write_decision true false member_id period branch_id today v = do
  id ← fresh
  modify (λ db. record db {
    attendances = db.attendances ++ attendance_row id member_id period branch_id today ∷ [];
  })
  decrement_period period
  attempt ← add_attempt branch_id (some member_id) v (some id)
  pure (response true true period attempt)

unfoldable pub record_decision :
    ℕ → Option Membership → ℕ → Date → Verdict → Bool → Action CheckResponse
record_decision member_id period branch_id today v register_attendance = do
  taken ←
      gets (λ db. is_some (find_first (same_entry member_id branch_id (key today)) db.attendances))
  write_decision (should_record v register_attendance) taken member_id period branch_id today v

-- `decideAndRecord`, when no other request writes between its reads and its transaction.
unfoldable pub decide_and_record : Member → ℕ → Date → Bool → Action CheckResponse
decide_and_record member branch_id today register_attendance = do
  period ← gets (λ db. latest_period member.id db.memberships)
  seen ← gets (snapshot member branch_id today)
  record_decision member.id period branch_id today (evaluate_access seen) register_attendance

check_found : Option Member → ℕ → Date → Bool → Action CheckResponse
check_found none branch_id today register_attendance = do
  attempt ←
      add_attempt branch_id none (record { decision = denied; reason = member_not_found }) none
  pure (response false false none attempt)
check_found (some member) branch_id today register_attendance =
    decide_and_record member branch_id today register_attendance

-- `checkForMember`, at a branch of the session, on the branch's business day.
unfoldable pub check_for_member : ℕ → ℕ → Date → Bool → Action CheckResponse
unfolding check_found
check_for_member member_id branch_id today register_attendance = do
  member ← gets (λ db. find_first (λ m. m.id == member_id && not m.deleted) db.members)
  check_found member branch_id today register_attendance
