-- ===== src/Memberships.antt =====
-- apps/api/src/modules/memberships/memberships.service.ts: what the operations on periods share, with
-- the price of packages/config/src/billing.ts.
pub mod Create
pub mod Charges
pub mod Charged
pub mod Renewal
pub mod Recurrence
use pulso_crm.Prelude.{
  ℕ, Bool, true, false, not, Option, none, some, List, [], ◌∷◌, ◌++◌, ◌==◌, ◌&&◌, ◌||◌, leb,
  if◌then◌else◌, find_first, find_many, update_where, is_some, Result, ok, err, code, forbidden,
  not_found, conflict, validation_error, membership_overlap,
}
use pulso_crm.Prelude.Int.{ℤ, pos, ◌+ℤ◌, leb_ℤ}
use pulso_crm.Calendar.{
  Date, key, before, BillingCycle, parse_billing_date, add_days, membership_end_date,
  next_monthly_date_after,
}
use pulso_crm.Store.{
  Db, Member, MemberStatus, Plan, Branch, Membership, MembershipStatus, PaymentCode, transfer,
  debit, credit, membership_charge, payment, other_text, income, ConceptCode, membership_created,
  membership_renewal_configured,
}
use pulso_crm.Store.Action.{
  Action, pure, gets, lift, require, modify, throw_when, ◌>>=◌, ◌>>◌, fresh, record_audit,
}
use pulso_crm.Store.Context.{TenantContext, require_branch}
use pulso_crm.Ledger.{Posting, post_ledger_entry}
use pulso_crm.Cash.{
  require_open_session_for_user, find_method, ensure_system_concept, NewMovement, create_movement,
}

-- The `charge` of the request.
pub data Charge : Type 0 where
  on_account : Charge
  now : ℕ → ℤ → Charge

-- `CreateMembershipRequest`.
pub record CreateRequest : Type 0 where
  pub plan_id : ℕ
  pub branch_id : Option ℕ
  pub start_date : Date
  pub auto_renew : Bool
  pub price_override : Option ℤ
  pub charge : Charge

abbrev pub is_transfer : Option PaymentCode → Bool
is_transfer (some transfer) = true
is_transfer other = false

abbrev enrollment_total : ℤ → Option PaymentCode → ℤ
enrollment_total base method = if is_transfer method then base +ℤ pos 500000 else base

after_parsing : Result Date → ℤ → Result ℤ
after_parsing (ok date) total = ok total
after_parsing (err e) total = err e

-- The `total` of `quoteEnrollmentPrice`.
unfoldable pub quote_enrollment_price : ℤ → Date → Option PaymentCode → Result ℤ
unfolding after_parsing
quote_enrollment_price base start_date method =
    after_parsing (parse_billing_date start_date) (enrollment_total base method)

-- The permissions that collecting takes.
unfoldable pub check_permission : TenantContext → Charge → Action (Unit {0})
check_permission ctx on_account = pure tt
check_permission ctx (now method amount) =
    throw_when (not ctx.can_operate_cash || not ctx.can_collect_payment) (code forbidden)

-- The open session that collecting takes.
unfoldable pub check_session : TenantContext → ℕ → Charge → Action (Unit {0})
check_session ctx branch_id on_account = pure tt
check_session ctx branch_id (now method amount) = do
  session ← require_open_session_for_user ctx.user_id (some branch_id)
  pure tt

unfoldable pub charge_method : Charge → Action (Option PaymentCode)
charge_method on_account = pure none
charge_method (now id amount) = do
  row ← gets (find_method id)
  method ← require row (code not_found)
  pure (some method.code)

abbrev equal_ℤ : ℤ → ℤ → Bool
equal_ℤ a b = leb_ℤ a b && leb_ℤ b a

abbrev pub differs : Option ℤ → ℤ → Bool
differs none price = false
differs (some a) price = not (equal_ℤ a price)

abbrev pub charged_amount : Charge → Option ℤ
charged_amount on_account = none
charged_amount (now id amount) = some amount

abbrev pub is_monthly : BillingCycle → Bool
is_monthly BillingCycle.monthly = true
is_monthly other = false

abbrev pub is_active_member : MemberStatus → Bool
is_active_member MemberStatus.active = true
is_active_member MemberStatus.inactive = false

abbrev pub is_active_period : MembershipStatus → Bool
is_active_period MembershipStatus.active = true
is_active_period other = false

-- `end >= today ? addDays(end, 1) : nextMonthlyDateAfter(today, anchor)`.
unfoldable pub first_renewal : Date → ℕ → Date → Result (Option Date)
first_renewal end anchor today =
    if before end today
    then later (next_monthly_date_after today anchor)
    else ok (some (add_days end (pos 1)))
  where
    later : Result Date → Result (Option Date)
    later (ok d) = ok (some d)
    later (err e) = err e

-- `nextRenewalDate`.
unfoldable pub next_renewal : Bool → Option Date → Option ℕ → Date → Result (Option Date)
unfolding first_renewal
next_renewal true (some end) (some anchor) today = first_renewal end anchor today
next_renewal auto_renew end anchor today = ok none

unfoldable pub check_branch : TenantContext → Option ℕ → Action (Unit {0})
check_branch ctx none = pure tt
check_branch ctx (some branch_id) = do allowed ← lift (require_branch ctx (some branch_id)); pure tt

-- The update that ends a period's recurrence.
abbrev pub stopped_period : Membership → Membership
stopped_period m = record m { auto_renew = false; next_renewal_date = none }

abbrev pub stop_renewal : ℕ → Db → Db
stop_renewal id db = record db {
  memberships = update_where (λ m. m.id == id) stopped_period db.memberships;
}

abbrev pub ends_before : Option Date → Date → Bool
ends_before none d = false
ends_before (some end) d = before end d

-- The constraint `memberships_no_overlap`.
abbrev pub overlaps : Membership → Membership → Bool
overlaps a b =
    a.member_id == b.member_id
    && ((is_active_period a.status && is_active_period b.status)
        && (not (ends_before a.end_date b.start_date) && not (ends_before b.end_date a.start_date)))

-- Do the two rows have one predecessor? The column `renewedFromId` is unique.
abbrev pub same_parent : Option ℕ → Option ℕ → Bool
same_parent (some a) (some b) = a == b
same_parent a b = false

-- `tx.membership.create`, with the table's constraints as `translateWriteError` reports them.
unfoldable pub insert_membership : Membership → Action (Unit {0})
insert_membership m = do
  throw_when (ends_before m.end_date m.start_date) (code validation_error)
  sibling ←
      gets (λ db. find_first (λ x. same_parent m.renewed_from_id x.renewed_from_id) db.memberships)
  throw_when (is_some sibling) (code conflict)
  taken ← gets (λ db. find_first (overlaps m) db.memberships)
  throw_when (is_some taken) (code membership_overlap)
  modify (λ db. record db { memberships = db.memberships ++ m ∷ [] })

abbrev pub charge_posting : Membership → ℕ → Posting
charge_posting m branch_id = record {
  member_id = m.member_id;
  type = debit;
  reason = membership_charge;
  amount = m.price_paid;
  description = other_text;
  membership_id = some m.id;
  cash_movement_id = none;
  branch_id = some branch_id;
}

abbrev pub collection_posting : Membership → ℕ → ℕ → Posting
collection_posting m movement_id branch_id = record {
  member_id = m.member_id;
  type = credit;
  reason = payment;
  amount = m.price_paid;
  description = other_text;
  membership_id = some m.id;
  cash_movement_id = some movement_id;
  branch_id = some branch_id;
}

-- The collection of `mode: NOW`; its `chargeAmount` is the price that was posted.
unfoldable pub collect : TenantContext → ℕ → Membership → Charge → Action (Unit {0})
collect ctx branch_id m on_account = pure tt
collect ctx branch_id m (now method_id amount) = do
  session ← require_open_session_for_user ctx.user_id (some branch_id)
  row ← gets (find_method method_id)
  concept_id ← ensure_system_concept ConceptCode.membership_charge
  method ← require row (code not_found)
  movement ← create_movement (record {
    cash_session_id = session.id;
    type = income;
    amount = m.price_paid;
    payment_method_id = method.id;
    cash_concept_id = concept_id;
    member_id = some m.member_id;
    membership_id = some m.id;
    reversal_of_id = none;
    created_by = ctx.user_id;
  })
  entry ← post_ledger_entry (collection_posting m movement.id session.branch_id)
  pure tt
