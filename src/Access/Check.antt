-- ===== src/Access/Check.antt =====
-- apps/api/src/modules/access/access.service.ts: the snapshot of a member that is decided on.
use pulso_crm.Prelude.{
  ℕ, Bool, true, false, Option, none, some, List, [], ◌∷◌, ◌==◌, ◌&&◌, ◌||◌, leb, length,
  if◌then◌else◌, find_first, find_many,
}
use pulso_crm.Prelude.Int.{pos, ltb_ℤ}
use pulso_crm.Calendar.{Date, key, before}
use pulso_crm.Store.{Db, Member, Membership, MembershipStatus, Plan, Attendance}
use pulso_crm.Access.{
  Snapshot, MemberSnapshot, MembershipSnapshot, PlanSnapshot, AttendanceSnapshot,
}
use pulso_crm.Access.Week.{monday_of_week}

-- `status: { in: ['ACTIVE', 'EXPIRED', 'SUSPENDED'] }`.
abbrev counts_as_period : MembershipStatus → Bool
counts_as_period MembershipStatus.cancelled = false
counts_as_period other = true

-- `orderBy: [{ startDate: 'desc' }]`, the first row.
abbrev later_period : Membership → Option Membership → Option Membership
later_period m none = some m
later_period m (some n) = if before m.start_date n.start_date then some n else some m

-- `orderBy: { startDate: 'desc' }`. Of periods that start on the same day, which the query leaves open,
-- the first row is taken.
unfoldable pub latest_period : ℕ → List Membership → Option Membership
latest_period member_id [] = none
latest_period member_id (m ∷ ms) =
    let rest = latest_period member_id ms in
    if m.member_id == member_id && counts_as_period m.status then later_period m rest else rest

-- The days in a set other than today.
add_day : Date → List Date → List Date
add_day d [] = d ∷ []
add_day d (x ∷ xs) = if key d == key x then x ∷ xs else x ∷ add_day d xs

unfoldable pub days_other_than : Date → List Attendance → List Date
unfolding add_day
days_other_than today [] = []
days_other_than today (a ∷ rows) =
    let rest = days_other_than today rows in
    if key a.occurred_on == key today then rest else add_day a.occurred_on rest

unfoldable pub has_day : Date → List Attendance → Bool
has_day today [] = false
has_day today (a ∷ rows) = key a.occurred_on == key today || has_day today rows

-- The rows of `attendanceSnapshot`: this member, this branch, since Monday.
abbrev pub in_week : ℕ → ℕ → Date → Attendance → Bool
in_week member_id branch_id monday a =
    a.member_id == member_id && (a.branch_id == branch_id && leb (key monday) (key a.occurred_on))

unfoldable pub attendance_snapshot : ℕ → ℕ → Date → Db → AttendanceSnapshot
attendance_snapshot member_id branch_id today db =
    let rows = find_many (in_week member_id branch_id (monday_of_week today)) db.attendances in
    record {
      exists_today = has_day today rows;
      distinct_days_this_week_excluding_today = length (days_other_than today rows);
    }

abbrev member_snapshot : Member → MemberSnapshot
member_snapshot m = record {
  id = m.id;
  status = m.status;
  has_outstanding_debt = ltb_ℤ m.balance (pos 0);
  medical_clearance_until = m.medical_clearance_until;
}

abbrev pub membership_snapshot : Membership → MembershipSnapshot
membership_snapshot m = record {
  id = m.id;
  status = m.status;
  end_date = m.end_date;
  classes_remaining = m.classes_remaining;
}

-- A plan with no row in `PlanBranch` holds in every branch.
abbrev branch_list : List ℕ → Option (List ℕ)
branch_list [] = none
branch_list (b ∷ bs) = some (b ∷ bs)

abbrev plan_snapshot : Plan → PlanSnapshot
plan_snapshot p = record {
  id = p.id;
  weekly_access_limit = p.weekly_access_limit;
  allowed_branch_ids = branch_list p.branches;
}

-- `include: { plan: true }`.
unfoldable pub plan_of : Option Membership → Db → Option PlanSnapshot
plan_of none db = none
plan_of (some m) db = elim (find_first (λ p. p.id == m.plan_id) db.plans) [
  | none ↦ none
  | some p ↦ some (plan_snapshot p)
]

abbrev pub period_of : Option Membership → Option MembershipSnapshot
period_of none = none
period_of (some m) = some (membership_snapshot m)

unfoldable pub snapshot : Member → ℕ → Date → Db → Snapshot
snapshot member branch_id today db =
    let period = latest_period member.id db.memberships in
    record {
      branch_id = branch_id;
      today = today;
      member = some (member_snapshot member);
      membership = period_of period;
      plan = plan_of period db;
      attendance = attendance_snapshot member.id branch_id today db;
    }
