-- ===== src/Memberships/Charged.antt =====
-- apps/api/src/modules/memberships/memberships.service.ts: what a new period costs its member.
mod Tests
use pulso_crm.Prelude.{
  ℕ, ◌≡◌, refl, ◌∙◌, sym, subst, ap, Bool, Option, none, some, List, [], ◌∷◌, Result, ok, err,
}
use pulso_crm.Prelude.Int.{ℤ, pos, ◌+ℤ◌, neg, int_laws}
use pulso_crm.Calendar.{Date}
use pulso_crm.Store.{Db, Membership, Plan}
use pulso_crm.Store.Action.{Action, pure, ◌>>=◌}
use pulso_crm.Store.Action.Run.{
  After, After-ok, After-map, After-bind, After-record_audit, After-pure,
}
use pulso_crm.Store.Action.Frame.{
  Steps, steps, Steps-run, Steps-pure, Steps-gets, Steps-lift, Steps-require, Steps-throw_when,
  Steps-fresh, Steps-record_audit, Steps-modify, ◌▸◌,
}
use pulso_crm.Store.Context.{TenantContext}
use pulso_crm.Ledger.Consistent.{ledger_sum}
use pulso_crm.Ledger.Shift.{
  Shifts, shifts, Shifts-bind, Shifts-of_same, shift_eq, same_then, post_ledger_entry-Shifts,
  SameEntries, SameEntries-IsFrame,
}
use pulso_crm.Cash.Accounts.{
  create_movement-same, ensure_system_concept-same, require_open_session_for_user-same,
}
use pulso_crm.Memberships.{
  Charge, on_account, now, CreateRequest, check_permission, check_session, charge_method,
  check_branch, insert_membership, charge_posting, collection_posting, collect,
}
use pulso_crm.Memberships.Create.{stop_previous, new_period, assign, create_in, create_membership}
use pulso_crm.Memberships.Charges.{
  left_to_pay, collected, check_permission-same, check_session-same, charge_method-same,
  check_branch-same, insert_membership-same, collect-Shifts, Charged, left-eq, Shifts-After,
  Steps-After, Charges, charges, charged_then,
}

stop_previous-same :
    (ctx : TenantContext) (periods : List Membership)
    → Steps SameEntries (stop_previous ctx periods)
unfolding stop_previous
stop_previous-same ctx [] = Steps-pure tt
stop_previous-same ctx (period ∷ rest) = check_branch-same ctx period.branch_id ▸ λ u.
    Steps-modify _ (λ db. refl) ▸ λ u. Steps-record_audit _ _ _ ▸ λ u. stop_previous-same ctx rest

assign-Charges :
    (ctx : TenantContext) (branch_id : ℕ) (m : Membership) (charge : Charge)
    → Charges (λ r. m.member_id) charge (assign ctx branch_id m charge)
unfolding assign
assign-Charges ctx branch_id m charge = charges λ db.
    let id = m.member_id in
    let Q = Charged (λ r. m.member_id) charge db in
    After-bind (λ u d. SameEntries db d) Q _ _ db (Steps-After (insert_membership-same m) db)
      λ u d1 same.
        After-bind (λ e d. ledger_sum id d.entries ≡ ledger_sum id d1.entries +ℤ neg m.price_paid) Q
          _ _ d1 (Shifts-After id (post_ledger_entry-Shifts (charge_posting m branch_id)) d1)
          λ entry d2 posted.
            After-bind
              (λ u d.
                ledger_sum id d.entries ≡ ledger_sum id d2.entries +ℤ collected charge m.price_paid)
              Q _ _ d2 (Shifts-After id (collect-Shifts ctx branch_id m charge) d2)
              λ u2 d3 paid. After-record_audit Q _ _ _ _ d3 λ events. After-pure Q m _ (
                paid
                ∙ rw posted (rw same (rw (sym (left-eq charge m.price_paid)) (omega int_laws))))

create_in-Charges :
    (ctx : TenantContext) (member_id : ℕ) (input : CreateRequest) (branch_id : ℕ) (today : Date)
    → Charges (λ r. member_id) input.charge (create_in ctx member_id input branch_id today)
unfolding create_in
create_in-Charges ctx member_id input branch_id today =
    let id : Membership → ℕ = λ r. member_id in
    let c = input.charge in
    charged_then id c (check_session-same ctx branch_id c) λ u.
      charged_then id c (Steps-gets _) λ member_row.
        charged_then id c (Steps-require member_row _) λ member.
          charged_then id c (Steps-throw_when _ _) λ u. charged_then id c (Steps-gets _) λ plan_row.
            charged_then id c (Steps-require plan_row _) λ plan.
              charged_then id c (Steps-throw_when _ _) λ u.
                charged_then id c (Steps-throw_when _ _) λ u.
                  charged_then id c (Steps-gets _) λ branch_row.
                    charged_then id c (Steps-require branch_row _) λ branch.
                      charged_then id c (Steps-throw_when _ _) λ u.
                        charged_then id c (Steps-throw_when _ _) λ u.
                          charged_then id c (charge_method-same c) λ method.
                            charged_then id c (Steps-lift _) λ price.
                              charged_then id c (Steps-throw_when _ _) λ u.
                                charged_then id c (Steps-lift _) λ end_date.
                                  charged_then id c (Steps-lift _) λ next_date.
                                    charged_then id c (Steps-gets _) λ newer.
                                      charged_then id c (Steps-throw_when _ _) λ u.
                                        charged_then id c (Steps-gets _) λ previous.
                                          charged_then id c (stop_previous-same ctx previous) λ u.
                                            charged_then id c Steps-fresh λ period_id.
                                              assign-Charges ctx branch_id
                                                (new_period period_id member_id branch_id plan input
                                                  end_date next_date price)
                                                c

create_membership-Charges :
    (ctx : TenantContext) (member_id : ℕ) (input : CreateRequest) (today : Date)
    → Charges (λ r. member_id) input.charge (create_membership ctx member_id input today)
unfolding create_membership
create_membership-Charges ctx member_id input today =
    charged_then (λ r. member_id) input.charge (Steps-lift _)
      λ branch_id.
        charged_then (λ r. member_id) input.charge (check_permission-same ctx input.charge)
          λ u.
            charged_then (λ r. member_id) input.charge
              (check_session-same ctx branch_id input.charge)
              λ u. create_in-Charges ctx member_id input branch_id today

-- A period that is assigned and collected at once leaves the sum of the member's entries as it was;
-- one on account lowers it by the price that the period records.
pub create_membership-Charged :
    (ctx : TenantContext) (member_id : ℕ) (input : CreateRequest) (today : Date) (db : Db)
    {m : Membership} {db' : Db}
    → create_membership ctx member_id input today db ≡ ok (m, db')
    → ledger_sum member_id db'.entries
      ≡ ledger_sum member_id db.entries +ℤ left_to_pay input.charge m.price_paid
create_membership-Charged ctx member_id input today db {m} {db'} e =
    go (create_membership-Charges ctx member_id input today)
  where
    go :
        Charges (λ r. member_id) input.charge (create_membership ctx member_id input today)
        → ledger_sum member_id db'.entries
          ≡ ledger_sum member_id db.entries +ℤ left_to_pay input.charge m.price_paid
    go (charges h) = After-ok (Charged (λ r. member_id) input.charge db) (h db) e
