-- ===== src/Worker/Renewals.antt =====
-- apps/worker/src/jobs/membership-renewal.ts: the monthly renewals, on the rows of one gym. The job
-- reads all gyms' branches and then works with the rows of the branch's gym only.
pub mod Posted
pub mod Due
pub mod Settled
mod Tests
use pulso_crm.Prelude.{
  ℕ, ◌+◌, Bool, true, false, not, Option, none, some, List, [], ◌∷◌, ◌++◌, ◌==◌, ◌&&◌, ◌||◌,
  if◌then◌else◌, find_first, find_many, update_where, is_some, map, Result, ok, err, failure,
}
use pulso_crm.Prelude.Int.{ℤ, pos, ◌-ℤ◌, leb_ℤ}
use pulso_crm.Calendar.{Date, key, before, next_monthly_date, monthly_end_date}
use pulso_crm.Calendar.Period.{Window, catch_up, catch_up_fuel}
use pulso_crm.Calendar.Renewed.{first_window}
use pulso_crm.Store.{
  Db, Member, Plan, Branch, Membership, MembershipStatus, membership_renewed,
  membership_renewal_stopped,
}
use pulso_crm.Store.Action.{
  Action, pure, gets, lift, require, modify, throw_when, ◌>>=◌, ◌>>◌, fresh, record_audit,
}
use pulso_crm.Ledger.{Posting, find_member, set_balance, entry_of, append_entry}
use pulso_crm.Memberships.{
  is_active_member, is_monthly, stop_renewal, insert_membership, charge_posting,
}
use pulso_crm.Memberships.Renewal.{find_membership, is_current, succeeds}

-- What the transaction for one period returns, if it is not `null`.
pub data Outcome : Type 0 where
  stopped : Outcome
  renewed : ℕ → Outcome

-- `RenewalResult`.
pub record RenewalResult : Type 0 where
  pub memberships_renewed : ℕ
  pub recurrences_stopped : ℕ
  pub past_periods_skipped : ℕ
  pub failures : ℕ

abbrev pub no_renewals : RenewalResult
no_renewals = record {
  memberships_renewed = 0;
  recurrences_stopped = 0;
  past_periods_skipped = 0;
  failures = 0;
}

-- What a period is renewed by, when none of the conditions that stop it holds.
pub record Terms : Type 0 where
  pub member : Member
  pub plan : Plan
  pub start : Date
  pub anchor : ℕ

abbrev pub find_plan : ℕ → Db → Option Plan
find_plan id db = find_first (λ p. p.id == id) db.plans

abbrev pub find_branch : ℕ → Db → Option Branch
find_branch id db = find_first (λ b. b.id == id) db.branches

-- An anchor of 0 is as good as none to `!previous.renewalAnchorDay`.
unfoldable pub terms_of : Member → Plan → Option Date → Option Date → Option ℕ → Option Terms
terms_of member plan (some end) (some start) (some anchor) =
    if anchor == 0
    then none
    else some (record { member = member; plan = plan; start = start; anchor = anchor })
terms_of member plan end start anchor = none

-- The conditions after the reads.
unfoldable pub eligible :
    Membership → Option Member → Option Plan → Option Branch → Bool → Option Terms
eligible previous (some member) (some plan) (some branch) false =
    if (is_active_member member.status && not member.deleted)
      && ((plan.is_active && (not plan.deleted && is_monthly plan.billing_cycle))
          && ((branch.is_active && not branch.deleted) && is_current previous.status))
    then terms_of member plan previous.end_date previous.next_renewal_date
        previous.renewal_anchor_day
    else none
eligible previous member plan branch has_successor = none

abbrev pub expired_period : Membership → Membership
expired_period m = record m {
  status = MembershipStatus.expired;
  auto_renew = false;
  next_renewal_date = none;
}

abbrev pub next_period : ℕ → ℕ → Membership → Terms → Window → Date → Membership
next_period id branch_id previous t window end = record {
  id = id;
  member_id = t.member.id;
  plan_id = t.plan.id;
  branch_id = some branch_id;
  status = MembershipStatus.active;
  start_date = window.start;
  end_date = some end;
  auto_renew = true;
  renewal_anchor_day = some t.anchor;
  next_renewal_date = some window.next;
  renewed_from_id = some previous.id;
  price_paid = t.plan.price;
  classes_included = t.plan.classes_included;
  classes_remaining = t.plan.classes_included;
}

-- The entry of the debt and the member's balance, which the job writes itself.
unfoldable pub post_debt : Member → Posting → Action (Unit {0})
post_debt member p = do
  let balance = member.balance -ℤ p.amount
  id ← fresh
  modify (append_entry (entry_of id balance p))
  modify (set_balance member.id balance)

-- A period that is due.
unfoldable pub renew_due : ℕ → Date → Membership → Terms → Action (Option Outcome)
renew_due branch_id today previous t = do
  next ← lift (next_monthly_date t.start (some t.anchor))
  found ← lift (catch_up (catch_up_fuel today) today t.anchor (first_window t.start next))
  window ← require found failure
  end ← lift (monthly_end_date window.start (some t.anchor))
  throw_when (leb_ℤ t.plan.price (pos 0)) failure
  modify (λ db. record db {
    memberships = update_where (λ m. m.id == previous.id) expired_period db.memberships;
  })
  id ← fresh
  insert_membership (next_period id branch_id previous t window end)
  post_debt t.member (charge_posting (next_period id branch_id previous t window end) branch_id)
  record_audit membership_renewed id (some branch_id)
  pure (some (renewed window.skipped))

-- The transaction once the rows have been read.
unfoldable pub on_terms : ℕ → Date → Membership → Option Terms → Action (Option Outcome)
on_terms branch_id today previous none = do
  modify (stop_renewal previous.id)
  record_audit membership_renewal_stopped previous.id (some branch_id)
  pure (some stopped)
on_terms branch_id today previous (some t) =
    if before today t.start then pure none else renew_due branch_id today previous t

unfoldable pub renew_row : ℕ → Date → Membership → Action (Option Outcome)
renew_row branch_id today previous = do
  member ← gets (find_member previous.member_id)
  plan ← gets (find_plan previous.plan_id)
  current_branch ← gets (find_branch branch_id)
  successor ← gets (λ db. find_first (succeeds previous) db.memberships)
  on_terms branch_id today previous
      (eligible previous member plan current_branch (is_some successor))

-- `if (!previous?.autoRenew) return null`.
unfoldable pub renew_found : ℕ → Date → Option Membership → Action (Option Outcome)
renew_found branch_id today none = pure none
renew_found branch_id today (some previous) =
    if previous.auto_renew then renew_row branch_id today previous else pure none

-- The transaction for one candidate; `today` is the branch's business day.
unfoldable pub renew_candidate : ℕ → Date → ℕ → Action (Option Outcome)
renew_candidate branch_id today id = do
  row ← gets (find_membership id)
  renew_found branch_id today row

unfoldable pub count_outcome : Option Outcome → RenewalResult → RenewalResult
count_outcome none r = r
count_outcome (some stopped) r = record r { recurrences_stopped = r.recurrences_stopped + 1 }
count_outcome (some (renewed skipped)) r = record r {
  memberships_renewed = r.memberships_renewed + 1;
  past_periods_skipped = r.past_periods_skipped + skipped;
}

abbrev pub after_candidate : RenewalResult → Db → Result (Option Outcome × Db) → RenewalResult × Db
after_candidate r db (ok (outcome, db')) = (count_outcome outcome r, db')
after_candidate r db (err e) = (record r { failures = r.failures + 1 }, db)

-- The loop over the candidates: one that fails changes nothing and is counted.
unfoldable pub renew_all : ℕ → Date → List ℕ → RenewalResult → Db → RenewalResult × Db
renew_all branch_id today [] r db = (r, db)
renew_all branch_id today (id ∷ ids) r db =
    let (r', db') = after_candidate r db (renew_candidate branch_id today id db) in
    renew_all branch_id today ids r' db'

abbrev pub of_branch : ℕ → Option ℕ → Bool
of_branch id none = false
of_branch id (some b) = b == id

abbrev pub is_candidate : ℕ → Membership → Bool
is_candidate branch_id m = of_branch branch_id m.branch_id && m.auto_renew

-- The body of the loop over the branches.
unfoldable pub renew_branch : ℕ → Date → RenewalResult → Db → RenewalResult × Db
renew_branch branch_id today r db =
    renew_all branch_id today (map (λ m. m.id) (find_many (is_candidate branch_id) db.memberships))
      r db

-- `renewMemberships`; `business_day` is `toBusinessDate(now, branch.timezone)`.
unfoldable pub renew_branches : (ℕ → Date) → List Branch → RenewalResult → Db → RenewalResult × Db
renew_branches business_day [] r db = (r, db)
renew_branches business_day (b ∷ bs) r db =
    let (r', db') = renew_branch b.id (business_day b.id) r db in
    renew_branches business_day bs r' db'

unfoldable pub renew_memberships : (ℕ → Date) → Db → RenewalResult × Db
renew_memberships business_day db = renew_branches business_day db.branches no_renewals db
