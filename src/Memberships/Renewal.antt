-- ===== src/Memberships/Renewal.antt =====
-- apps/api/src/modules/memberships/memberships.service.ts: `renew`.
pub mod Charged
pub mod Current
mod Tests
use pulso_crm.Prelude.{
  ℕ, Bool, true, false, not, Option, none, some, List, [], ◌∷◌, ◌++◌, ◌==◌, ◌&&◌, ◌||◌, leb,
  if◌then◌else◌, find_first, find_many, update_where, is_some, Result, ok, err, code, forbidden,
  not_found, conflict, validation_error, membership_overlap, membership_not_active, failure,
}
use pulso_crm.Prelude.Int.{ℤ, pos, ◌+ℤ◌, leb_ℤ}
use pulso_crm.Calendar.{
  Date, key, before, BillingCycle, parse_billing_date, add_days, next_monthly_date,
  monthly_end_date, get_or, membership_end_date, next_monthly_date_after,
}
use pulso_crm.Store.{
  Db, Member, MemberStatus, Plan, Branch, Membership, MembershipStatus, PaymentCode, transfer,
  debit, credit, membership_charge, payment, other_text, income, ConceptCode, membership_created,
  membership_renewed, PaymentMethod,
}
use pulso_crm.Store.Action.{
  Action, pure, gets, lift, require, modify, throw_when, ◌>>=◌, ◌>>◌, fresh, record_audit,
}
use pulso_crm.Store.Context.{TenantContext, require_branch}
use pulso_crm.Ledger.{Posting, post_ledger_entry}
use pulso_crm.Cash.{
  require_open_session_for_user, find_method, ensure_system_concept, NewMovement, create_movement,
}
use pulso_crm.Memberships.{
  Charge, CreateRequest, charge_method, charge_posting, charged_amount, check_branch,
  check_permission, check_session, collect, collection_posting, differs, ends_before,
  insert_membership, is_active_member, is_active_period, is_monthly, is_transfer, next_renewal,
  overlaps, quote_enrollment_price, on_account, now,
}
use pulso_crm.Calendar.Period.{Window, catch_up, catch_up_fuel}
use pulso_crm.Calendar.Renewed.{first_window}

-- `tx.membership.findFirst({ where: { id } })`.
abbrev pub find_membership : ℕ → Db → Option Membership
find_membership id db = find_first (λ m. m.id == id) db.memberships

-- `lockPeriod`; no other transaction runs meanwhile.
unfoldable pub lock_period : TenantContext → ℕ → Action Membership
lock_period ctx id = do
  row ← gets (find_membership id)
  found ← require row (code not_found)
  check_branch ctx found.branch_id
  pure found

-- `['ACTIVE', 'EXPIRED'].includes(status)`.
abbrev pub is_current : MembershipStatus → Bool
is_current MembershipStatus.active = true
is_current MembershipStatus.expired = true
is_current other = false

abbrev pub renewed_from : ℕ → Option ℕ → Bool
renewed_from id none = false
renewed_from id (some other) = other == id

-- The period's successor, or a later period of the member.
abbrev pub succeeds : Membership → Membership → Bool
succeeds old m =
    m.member_id == old.member_id
    && (not (m.id == old.id)
        && (renewed_from old.id m.renewed_from_id || before old.start_date m.start_date))

abbrev pub find_active_member : ℕ → Db → Option Member
find_active_member id db =
    find_first (λ m. m.id == id && (is_active_member m.status && not m.deleted)) db.members

abbrev pub find_monthly_plan : ℕ → Db → Option Plan
find_monthly_plan id db =
    find_first (λ p. p.id == id && (p.is_active && (not p.deleted && is_monthly p.billing_cycle)))
      db.plans

abbrev pub find_active_branch : ℕ → Db → Option Branch
find_active_branch id db =
    find_first (λ b. b.id == id && (b.is_active && not b.deleted)) db.branches

abbrev pub code_of : Option PaymentMethod → Option PaymentCode
code_of none = none
code_of (some m) = some m.code

-- `paymentMethod`.
unfoldable pub renewal_method : Charge → Action (Option PaymentMethod)
renewal_method on_account = pure none
renewal_method (now id amount) = do
  row ← gets (find_method id)
  method ← require row (code not_found)
  pure (some method)

-- `start` and `next` when the loop ends.
unfoldable pub renewal_window : Date → ℕ → Date → Action Window
renewal_window end anchor today = do
  next ← lift (next_monthly_date (add_days end (pos 1)) (some anchor))
  window ←
      lift (catch_up (catch_up_fuel today) today anchor (first_window (add_days end (pos 1)) next))
  require window failure

-- What is left of the old period.
abbrev pub close_period : Date → Membership → Membership
close_period today m = record m {
  status = if ends_before m.end_date today then MembershipStatus.expired else m.status;
  auto_renew = false;
  next_renewal_date = none;
}

abbrev pub renewed_period : ℕ → ℕ → Membership → Plan → ℕ → Window → Date → ℤ → Membership
renewed_period id branch_id old plan anchor window end price = record {
  id = id;
  member_id = old.member_id;
  plan_id = plan.id;
  branch_id = some branch_id;
  status = MembershipStatus.active;
  start_date = window.start;
  end_date = some end;
  auto_renew = old.auto_renew;
  renewal_anchor_day = some anchor;
  next_renewal_date = if old.auto_renew then some window.next else none;
  renewed_from_id = some old.id;
  price_paid = price;
  classes_included = plan.classes_included;
  classes_remaining = plan.classes_included;
}

-- The collection of `mode: NOW`, with the method that was found before.
unfoldable pub collect_renewal :
    TenantContext → ℕ → Membership → Option PaymentMethod → Action (Unit {0})
collect_renewal ctx branch_id m none = pure tt
collect_renewal ctx branch_id m (some method) = do
  session ← require_open_session_for_user ctx.user_id (some branch_id)
  concept_id ← ensure_system_concept ConceptCode.membership_charge
  movement ← create_movement (record {
    cash_session_id = session.id;
    type = income;
    amount = m.price_paid;
    payment_method_id = method.id;
    cash_concept_id = concept_id;
    member_id = some m.member_id;
    membership_id = some m.id;
    reversal_of_id = none;
    created_by = ctx.user_id;
  })
  entry ← post_ledger_entry (collection_posting m movement.id branch_id)
  pure tt

-- The writes of `renew`.
unfoldable pub assign_renewal :
    TenantContext → ℕ → Membership → Option PaymentMethod → Action Membership
assign_renewal ctx branch_id m method = do
  insert_membership m
  entry ← post_ledger_entry (charge_posting m branch_id)
  collect_renewal ctx branch_id m method
  record_audit membership_renewed m.id (some branch_id)
  pure m

-- The branch of the period to renew.
unfoldable pub renewal_branch : TenantContext → ℕ → Action ℕ
renewal_branch ctx id = do
  row ← gets (find_membership id)
  preview ← require row (code not_found)
  branch_id ← require preview.branch_id (code conflict)
  lift (require_branch ctx (some branch_id))

-- The transaction of `renew`, from its locks on.
unfoldable pub renew_locked : TenantContext → ℕ → Charge → ℕ → Date → Action Membership
renew_locked ctx id charge branch_id today = do
  old ← lock_period ctx id
  throw_when (not (is_current old.status)) (code membership_not_active)
  old_end ← require old.end_date (code membership_not_active)
  member_row ← gets (find_active_member old.member_id)
  member ← require member_row (code conflict)
  plan_row ← gets (find_monthly_plan old.plan_id)
  plan ← require plan_row (code conflict)
  throw_when (leb_ℤ plan.price (pos 0)) (code conflict)
  branch_row ← gets (find_active_branch branch_id)
  branch ← require branch_row (code not_found)
  newer ← gets (λ db. find_first (succeeds old) db.memberships)
  throw_when (is_some newer) (code conflict)
  let anchor = get_or old.renewal_anchor_day old.start_date.day
  window ← renewal_window old_end anchor today
  end ← lift (monthly_end_date window.start (some anchor))
  method ← renewal_method charge
  price ← lift (quote_enrollment_price plan.price window.start (code_of method))
  throw_when (differs (charged_amount charge) price) (code validation_error)
  modify (λ db. record db {
    memberships = update_where (λ m. m.id == old.id) (close_period today) db.memberships;
  })
  period_id ← fresh
  assign_renewal ctx branch_id (renewed_period period_id branch_id old plan anchor window end price)
      method

-- The checks before the transaction of `mode: NOW`.
unfoldable pub check_renewal : TenantContext → ℕ → Charge → Action (Unit {0})
check_renewal ctx id on_account = pure tt
check_renewal ctx id (now method amount) = do
  check_permission ctx (now method amount)
  branch_id ← renewal_branch ctx id
  check_session ctx branch_id (now method amount)

-- `renew`; `today` is the branch's business day.
unfoldable pub renew : TenantContext → ℕ → Charge → Date → Action Membership
renew ctx id charge today = do
  check_renewal ctx id charge
  branch_id ← renewal_branch ctx id
  check_session ctx branch_id charge
  renew_locked ctx id charge branch_id today
