-- ===== src/Access.antt =====
-- apps/api/src/modules/access/access-decision.ts: the authorisation chain of an access check, a pure
-- function of a snapshot.
pub mod Chain
pub mod Week
pub mod Check
pub mod Record
pub mod Attendances
pub mod Entries
pub mod Admission
mod Tests
use pulso_crm.Prelude.{
  ℕ, Bool, true, false, not, Option, none, some, List, ◌&&◌, ◌||◌, leb, includes, if◌then◌else◌,
}
use pulso_crm.Calendar.{Date, before}
use pulso_crm.Store.{
  MemberStatus, MembershipStatus, AccessDecision, allowed, denied, AccessReason, member_not_found,
  member_inactive, no_membership, membership_cancelled, membership_expired, debt_blocked,
  branch_not_allowed, no_classes_remaining, weekly_limit_reached, medical_clearance_expired,
  duplicate_window, access_ok,
}

pub record MemberSnapshot : Type 0 where
  pub id : ℕ
  pub status : MemberStatus
  pub has_outstanding_debt : Bool
  pub medical_clearance_until : Option Date

pub record MembershipSnapshot : Type 0 where
  pub id : ℕ
  pub status : MembershipStatus
  pub end_date : Option Date
  pub classes_remaining : Option ℕ

pub record PlanSnapshot : Type 0 where
  pub id : ℕ
  pub weekly_access_limit : Option ℕ
  pub allowed_branch_ids : Option (List ℕ)

pub record AttendanceSnapshot : Type 0 where
  pub exists_today : Bool
  pub distinct_days_this_week_excluding_today : ℕ

-- `AccessCheckSnapshot`, less its empty `config`.
pub record Snapshot : Type 0 where
  pub branch_id : ℕ
  pub today : Date
  pub member : Option MemberSnapshot
  pub membership : Option MembershipSnapshot
  pub plan : Option PlanSnapshot
  pub attendance : AttendanceSnapshot

-- `AccessDecisionResult`, less the text for the user.
pub record Verdict : Type 0 where
  pub decision : AccessDecision
  pub reason : AccessReason

abbrev pub allow : AccessReason → Verdict
allow r = record { decision = allowed; reason = r }

abbrev pub deny : AccessReason → Verdict
deny r = record { decision = denied; reason = r }

abbrev pub is_active_member : MemberStatus → Bool
is_active_member MemberStatus.active = true
is_active_member MemberStatus.inactive = false

abbrev pub is_active_membership : MembershipStatus → Bool
is_active_membership MembershipStatus.active = true
is_active_membership other = false

abbrev pub is_cancelled : MembershipStatus → Bool
is_cancelled MembershipStatus.cancelled = true
is_cancelled other = false

-- `date !== null && date < today`.
abbrev pub is_past : Option Date → Date → Bool
is_past none today = false
is_past (some d) today = before d today

-- `allowed !== null && !allowed.includes(branchId)`.
abbrev pub excludes_branch : Option (List ℕ) → ℕ → Bool
excludes_branch none branch_id = false
excludes_branch (some ids) branch_id = not (includes branch_id ids)

-- `remaining !== null && remaining <= 0`.
abbrev pub is_used_up : Option ℕ → Bool
is_used_up none = false
is_used_up (some n) = leb n 0

-- `limit !== null && days >= limit`.
abbrev pub reaches_limit : Option ℕ → ℕ → Bool
reaches_limit none days = false
reaches_limit (some limit) days = leb limit days

-- The chain from the first test of the membership on.
pub evaluate_membership : MemberSnapshot → MembershipSnapshot → PlanSnapshot → Snapshot → Verdict
evaluate_membership member membership plan s =
    if is_cancelled membership.status
    then deny membership_cancelled
    else if not (is_active_membership membership.status) || is_past membership.end_date s.today
    then deny membership_expired
    else if member.has_outstanding_debt
    then deny debt_blocked
    else if excludes_branch plan.allowed_branch_ids s.branch_id
    then deny branch_not_allowed
    else if is_used_up membership.classes_remaining
    then deny no_classes_remaining
    else if reaches_limit plan.weekly_access_limit
        s.attendance.distinct_days_this_week_excluding_today
    then deny weekly_limit_reached
    else if is_past member.medical_clearance_until s.today
    then deny medical_clearance_expired
    else if s.attendance.exists_today
    then allow duplicate_window
    else allow access_ok

-- `if (!membership || !plan)`.
pub evaluate_plan :
    MemberSnapshot → Option MembershipSnapshot → Option PlanSnapshot → Snapshot → Verdict
unfolding evaluate_membership
evaluate_plan member none plan s = deny no_membership
evaluate_plan member (some membership) none s = deny no_membership
evaluate_plan member (some membership) (some plan) s = evaluate_membership member membership plan s

evaluate_member : Option MemberSnapshot → Snapshot → Verdict
unfolding evaluate_plan
evaluate_member none s = deny member_not_found
evaluate_member (some member) s =
    if not (is_active_member member.status)
    then deny member_inactive
    else evaluate_plan member s.membership s.plan s

-- `evaluateAccess`.
pub evaluate_access : Snapshot → Verdict
unfolding evaluate_member
evaluate_access s = evaluate_member s.member s
