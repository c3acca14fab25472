-- ===== src/Memberships/Create.antt =====
-- apps/api/src/modules/memberships/memberships.service.ts: `create`.
use pulso_crm.Prelude.{
  ℕ, Bool, not, Option, none, some, List, [], ◌∷◌, ◌==◌, ◌&&◌, if◌then◌else◌, find_first, find_many,
  is_some, code, not_found, conflict, validation_error,
}
use pulso_crm.Prelude.Int.{ℤ, pos, leb_ℤ}
use pulso_crm.Calendar.{Date, before, membership_end_date}
use pulso_crm.Store.{
  Plan, Membership, MembershipStatus, membership_created, membership_renewal_configured,
}
use pulso_crm.Store.Action.{
  Action, pure, gets, lift, require, modify, throw_when, ◌>>=◌, ◌>>◌, fresh, record_audit,
}
use pulso_crm.Store.Context.{TenantContext, require_branch}
use pulso_crm.Ledger.{post_ledger_entry}
use pulso_crm.Memberships.{
  Charge, CreateRequest, charge_method, charge_posting, charged_amount, check_branch, stop_renewal,
  check_permission, check_session, collect, differs, insert_membership, is_active_member,
  is_monthly, next_renewal, quote_enrollment_price,
}

abbrev pub starts_after : ℕ → Date → Membership → Bool
starts_after member_id start_date m = m.member_id == member_id && before start_date m.start_date

abbrev renews_before : ℕ → Date → Membership → Bool
renews_before member_id start_date m =
    m.member_id == member_id && (m.auto_renew && not (before start_date m.start_date))

-- The loop over the periods that renewed until now.
unfoldable pub stop_previous : TenantContext → List Membership → Action (Unit {0})
unfolding check_branch
stop_previous ctx [] = pure tt
stop_previous ctx (period ∷ rest) = do
  check_branch ctx period.branch_id
  modify (stop_renewal period.id)
  record_audit membership_renewal_configured period.id period.branch_id
  stop_previous ctx rest

abbrev pub new_period :
    ℕ → ℕ → ℕ → Plan → CreateRequest → Option Date → Option Date → ℤ → Membership
new_period id member_id branch_id plan input end_date next_date price = record {
  id = id;
  member_id = member_id;
  plan_id = plan.id;
  branch_id = some branch_id;
  status = MembershipStatus.active;
  start_date = input.start_date;
  end_date = end_date;
  auto_renew = input.auto_renew;
  renewal_anchor_day = if is_monthly plan.billing_cycle then some input.start_date.day else none;
  next_renewal_date = next_date;
  renewed_from_id = none;
  price_paid = price;
  classes_included = plan.classes_included;
  classes_remaining = plan.classes_included;
}

-- The writes of `create`.
unfoldable pub assign : TenantContext → ℕ → Membership → Charge → Action Membership
assign ctx branch_id m charge = do
  insert_membership m
  entry ← post_ledger_entry (charge_posting m branch_id)
  collect ctx branch_id m charge
  record_audit membership_created m.id (some branch_id)
  pure m

-- The transaction of `create`.
unfoldable pub create_in : TenantContext → ℕ → CreateRequest → ℕ → Date → Action Membership
create_in ctx member_id input branch_id today = do
  check_session ctx branch_id input.charge
  member_row ← gets (λ db. find_first (λ m. m.id == member_id && not m.deleted) db.members)
  member ← require member_row (code not_found)
  throw_when (not (is_active_member member.status)) (code conflict)
  plan_row ← gets (λ db. find_first (λ p. p.id == input.plan_id && not p.deleted) db.plans)
  plan ← require plan_row (code not_found)
  throw_when (not plan.is_active) (code conflict)
  throw_when (leb_ℤ plan.price (pos 0)) (code validation_error)
  branch_row ←
      gets (λ db. find_first (λ b. b.id == branch_id && (b.is_active && not b.deleted)) db.branches)
  branch ← require branch_row (code not_found)
  throw_when (input.auto_renew && not (is_monthly plan.billing_cycle)) (code validation_error)
  throw_when (differs input.price_override plan.price) (code validation_error)
  method ← charge_method input.charge
  price ← lift (quote_enrollment_price plan.price input.start_date method)
  throw_when (differs (charged_amount input.charge) price) (code validation_error)
  end_date ← lift (membership_end_date input.start_date plan.billing_cycle plan.duration_days)
  next_date ← lift (
      next_renewal input.auto_renew end_date
        (if is_monthly plan.billing_cycle then some input.start_date.day else none) today)
  newer ← gets (λ db. find_first (starts_after member_id input.start_date) db.memberships)
  throw_when (input.auto_renew && is_some newer) (code conflict)
  previous ← gets (λ db. find_many (renews_before member_id input.start_date) db.memberships)
  stop_previous ctx previous
  id ← fresh
  assign ctx branch_id (new_period id member_id branch_id plan input end_date next_date price)
      input.charge

-- `create`; `today` is the branch's business day.
unfoldable pub create_membership : TenantContext → ℕ → CreateRequest → Date → Action Membership
create_membership ctx member_id input today = do
  branch_id ← lift (require_branch ctx input.branch_id)
  check_permission ctx input.charge
  check_session ctx branch_id input.charge
  create_in ctx member_id input branch_id today
