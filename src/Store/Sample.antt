-- ===== src/Store/Sample.antt =====
-- Rows of a small gym, on which the tests run.
use pulso_crm.Prelude.{true, false, none, some, [], ◌∷◌, Result, ok, err}
use pulso_crm.Prelude.Int.{pos, negsuc}
use pulso_crm.Calendar.{date, BillingCycle}
use pulso_crm.Store.{
  Db, Member, MemberStatus, Plan, Membership, MembershipStatus, LedgerEntry, debit,
  membership_charge, other_text, cash, transfer, ConceptCode, income, CashSession, open_session,
  CashMovement, restock,
}
use pulso_crm.Store.Context.{TenantContext}

abbrev pub sample_context : TenantContext
sample_context = record {
  user_id = 9;
  branch_ids = 1 ∷ [];
  active_branch_id = some 1;
  can_operate_cash = true;
  can_collect_payment = true;
}

abbrev pub sample_member : Member
sample_member = record {
  id = 1;
  status = MemberStatus.active;
  deleted = false;
  balance = negsuc 9999;
  medical_clearance_until = none;
}

abbrev pub sample_membership : Membership
sample_membership = record {
  id = 3;
  member_id = 1;
  plan_id = 2;
  branch_id = some 1;
  status = MembershipStatus.active;
  start_date = date 2026 1 15;
  end_date = some (date 2026 2 14);
  auto_renew = false;
  renewal_anchor_day = some 15;
  next_renewal_date = none;
  renewed_from_id = none;
  price_paid = pos 10000;
  classes_included = some 8;
  classes_remaining = some 8;
}

-- A member that owes nothing.
abbrev pub paid_member : Member
paid_member = record sample_member { balance = pos 0 }

abbrev pub sample_plan : Plan
sample_plan = record {
  id = 2;
  price = pos 10000;
  billing_cycle = BillingCycle.monthly;
  duration_days = none;
  classes_included = some 8;
  weekly_access_limit = some 3;
  branches = [];
  is_active = true;
  deleted = false;
}

abbrev pub sample_entry : LedgerEntry
sample_entry = record {
  id = 4;
  member_id = 1;
  type = debit;
  reason = membership_charge;
  amount = pos 10000;
  balance_after = negsuc 9999;
  description = other_text;
  membership_id = some 3;
  cash_movement_id = none;
  branch_id = some 1;
}

abbrev pub sample_session : CashSession
sample_session = record {
  id = 7;
  branch_id = 1;
  cash_register_id = 6;
  status = open_session;
  opened_by = 9;
  opening_amount = pos 5000;
  closed_by = none;
  expected_cash = none;
  declared_cash = none;
  cash_difference = none;
  business_date = date 2026 1 20;
}

-- An income of the member's in the session.
abbrev pub sample_movement : CashMovement
sample_movement = record {
  id = 12;
  cash_session_id = 7;
  type = income;
  amount = pos 700;
  payment_method_id = 10;
  cash_concept_id = 5;
  member_id = none;
  membership_id = none;
  reversal_of_id = none;
  is_reversed = false;
  created_by = 9;
}

abbrev pub sample_db : Db
sample_db = record {
  next_id = 100;
  members = sample_member ∷ [];
  plans = sample_plan ∷ [];
  branches = (record { id = 1; is_active = true; deleted = false }) ∷ [];
  memberships = sample_membership ∷ [];
  entries = sample_entry ∷ [];
  methods =
      (record { id = 10; code = cash; counts_as_cash = true; is_active = true })
      ∷ (record { id = 11; code = transfer; counts_as_cash = false; is_active = true })
      ∷ [];
  concepts =
      (record { id = 5; code = ConceptCode.gym_concept; type = income; is_active = true }) ∷ [];
  registers = (record { id = 6; branch_id = 1; is_active = true }) ∷ [];
  sessions = sample_session ∷ [];
  details = [];
  movements = sample_movement ∷ [];
  requests = [];
  attendances = [];
  attempts = [];
  products =
      (record { id = 8; sku = 31; sale_price = pos 150; cost_price = pos 90; is_active = true })
      ∷ [];
  stocks = (record { branch_id = 1; product_id = 8; quantity = 10 }) ∷ [];
  stock_movements =
      (record {
        branch_id = 1;
        product_id = 8;
        sale_id = none;
        type = restock;
        quantity = pos 10;
        balance_after = 10;
      })
      ∷ [];
  sales = [];
  audit = [];
}

-- The rows of a run, and its value; of a run that throws, the ones that are given.
abbrev pub rows_of {ℓ} : {A : Type ℓ} → Db → Result (A × Db) → Db
rows_of db (ok (a, d)) = d
rows_of db (err e) = db

abbrev pub value_of {ℓ} : {A : Type ℓ} → A → Result (A × Db) → A
value_of a (ok (b, d)) = b
value_of a (err e) = a
