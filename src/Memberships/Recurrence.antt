-- ===== src/Memberships/Recurrence.antt =====
-- apps/api/src/modules/memberships/memberships.service.ts: `cancel`, `configureRenewal` and
-- `stopRenewalDescendants`.
pub mod Stopped
pub mod Ended
mod Tests
use pulso_crm.Prelude.{
  ℕ, zero, suc, ◌+◌, Bool, true, false, not, Option, none, some, ◌==◌, ◌&&◌, ◌||◌, if◌then◌else◌,
  find_first, update_where, is_some, code, conflict, membership_not_active, failure,
}
use pulso_crm.Prelude.Int.{pos, leb_ℤ}
use pulso_crm.Calendar.{Date}
use pulso_crm.Store.{
  Db, Member, Plan, Branch, Membership, MembershipStatus, membership_cancelled,
  membership_renewal_configured,
}
use pulso_crm.Store.Action.{Action, pure, gets, lift, modify, throw_when, ◌>>=◌, ◌>>◌, record_audit}
use pulso_crm.Store.Context.{TenantContext}
use pulso_crm.Memberships.{check_branch, stop_renewal, first_renewal}
use pulso_crm.Memberships.Renewal.{
  lock_period, is_current, renewed_from, succeeds, find_active_member, find_monthly_plan,
  find_active_branch,
}

abbrev pub is_child : ℕ → Membership → Bool
is_child parent_id m = renewed_from parent_id m.renewed_from_id

-- `tx.membership.findFirst({ where: { renewedFromId: parentId } })`.
abbrev pub find_child : ℕ → Db → Option Membership
find_child parent_id db = find_first (is_child parent_id) db.memberships

-- `if (child.autoRenew) { … }`.
unfoldable pub stop_recurrence : Membership → Bool → Action (Unit {0})
stop_recurrence child true = do
  modify (stop_renewal child.id)
  record_audit membership_renewal_configured child.id child.branch_id
stop_recurrence child false = pure tt

-- The body of the loop.
unfoldable pub stop_child : TenantContext → Membership → Action (Unit {0})
stop_child ctx child = do check_branch ctx child.branch_id; stop_recurrence child child.auto_renew

-- `stopRenewalDescendants`, with fuel; the result tells whether the loop came to its end.
unfoldable pub stop_renewal_descendants : ℕ → TenantContext → ℕ → Action Bool
stop_renewal_descendants zero ctx parent_id = pure false
stop_renewal_descendants (suc fuel) ctx parent_id = gets (find_child parent_id) >>= λ child.
    elim child [
      | none ↦ pure true
      | some c ↦ stop_child ctx c >> stop_renewal_descendants fuel ctx c.id
    ]

-- The loop with enough fuel for the rows that there are.
unfoldable pub stop_all_descendants : TenantContext → ℕ → Action (Unit {0})
stop_all_descendants ctx id = do
  fuel ← gets (λ db. db.next_id + 1)
  ended ← stop_renewal_descendants fuel ctx id
  throw_when (not ended) failure

abbrev pub cancelled_period : Membership → Membership
cancelled_period m = record m {
  status = MembershipStatus.cancelled;
  auto_renew = false;
  next_renewal_date = none;
}

-- `cancel`.
unfoldable pub cancel : TenantContext → ℕ → Action Membership
cancel ctx id = do
  existing ← lock_period ctx id
  throw_when (not (is_current existing.status)) (code membership_not_active)
  modify (λ db. record db {
    memberships = update_where (λ m. m.id == id) cancelled_period db.memberships;
  })
  stop_all_descendants ctx id
  record_audit membership_cancelled id existing.branch_id
  pure (cancelled_period existing)

-- `anchor` and `next`.
pub record RenewalTerms : Type 0 where
  pub anchor : Option ℕ
  pub next : Option Date

-- `existing.branchId ? await tx.branch.findFirst(…) : null`.
abbrev pub find_own_branch : Option ℕ → Db → Option Branch
find_own_branch none db = none
find_own_branch (some id) db = find_active_branch id db

abbrev pub sells : Option Plan → Bool
sells none = false
sells (some plan) = not (leb_ℤ plan.price (pos 0))

-- `anchor ??= existing.startDate.getUTCDate()`.
abbrev pub anchor_of : Membership → Option ℕ → ℕ
anchor_of m none = m.start_date.day
anchor_of m (some a) = a

-- The next renewal of a period that has an end.
unfoldable pub next_of_end : Membership → Option Date → Date → Action (Option Date)
next_of_end m none today = pure m.next_renewal_date
next_of_end m (some end) today =
    if m.auto_renew
    then pure m.next_renewal_date
    else lift (first_renewal end (anchor_of m m.renewal_anchor_day) today)

-- The branch of `configureRenewal` for `input.autoRenew`; `today` is the branch's business day.
unfoldable pub enable_renewal : Membership → Date → Action RenewalTerms
enable_renewal m today = do
  member ← gets (find_active_member m.member_id)
  plan ← gets (find_monthly_plan m.plan_id)
  branch ← gets (find_own_branch m.branch_id)
  throw_when
      (not (is_some member)
        || (not (sells plan)
            || (not (is_some branch) || (not (is_some m.end_date) || not (is_current m.status)))))
      (code conflict)
  newer ← gets (λ db. find_first (succeeds m) db.memberships)
  throw_when (is_some newer) (code conflict)
  next ← next_of_end m m.end_date today
  pure (record { anchor = some (anchor_of m m.renewal_anchor_day); next = next })

-- The other branch.
unfoldable pub disable_renewal : TenantContext → Membership → Action RenewalTerms
disable_renewal ctx m = do
  stop_all_descendants ctx m.id
  pure (record { anchor = m.renewal_anchor_day; next = none })

abbrev pub configured_period : Bool → RenewalTerms → Membership → Membership
configured_period auto_renew terms m = record m {
  auto_renew = auto_renew;
  renewal_anchor_day = terms.anchor;
  next_renewal_date = terms.next;
}

-- `configureRenewal`.
unfoldable pub configure_renewal : TenantContext → ℕ → Bool → Date → Action Membership
configure_renewal ctx id auto_renew today = do
  existing ← lock_period ctx id
  terms ← if auto_renew then enable_renewal existing today else disable_renewal ctx existing
  modify (λ db. record db {
    memberships =
        update_where (λ m. m.id == id) (configured_period auto_renew terms) db.memberships;
  })
  record_audit membership_renewal_configured id existing.branch_id
  pure (configured_period auto_renew terms existing)
