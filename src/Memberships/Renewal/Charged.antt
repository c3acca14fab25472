-- ===== src/Memberships/Renewal/Charged.antt =====
-- apps/api/src/modules/memberships/memberships.service.ts: what a renewal leaves on the account.
use pulso_crm.Prelude.{ℕ, ◌≡◌, refl, ◌∙◌, sym, Option, none, some, ok, Option-cases, inl, inr}
use pulso_crm.Prelude.Int.{pos, ◌+ℤ◌, neg, int_laws}
use pulso_crm.Calendar.{Date}
use pulso_crm.Store.{Db, Membership, PaymentMethod}
use pulso_crm.Store.Action.{pure, ◌>>=◌, gets, require}
use pulso_crm.Store.Action.Run.{After, After-ok, After-bind, After-record_audit, After-pure}
use pulso_crm.Store.Action.Frame.{
  Steps, Steps-pure, Steps-gets, Steps-lift, Steps-require, Steps-throw_when, Steps-fresh,
  Steps-modify, ◌▸◌,
}
use pulso_crm.Store.Context.{TenantContext}
use pulso_crm.Ledger.Consistent.{ledger_sum}
use pulso_crm.Ledger.Shift.{
  Shifts, Shifts-bind, Shifts-of_same, shift_eq, same_then, post_ledger_entry-Shifts, SameEntries,
  SameEntries-IsFrame,
}
use pulso_crm.Cash.Accounts.{
  create_movement-same, ensure_system_concept-same, require_open_session_for_user-same,
}
use pulso_crm.Cash.{find_method}
use pulso_crm.Memberships.{Charge, on_account, now, charge_posting, collection_posting}
use pulso_crm.Memberships.Charges.{
  left_to_pay, collected, Charged, Charges, charges, charged_then, charged_after, left-eq,
  Shifts-After, Steps-After, check_permission-same, check_session-same, check_branch-same,
  insert_membership-same,
}
use pulso_crm.Memberships.Renewal.{
  lock_period, renewal_method, renewal_window, collect_renewal, assign_renewal, renewal_branch,
  renew_locked, check_renewal, renew,
}

-- The method that a charge is collected with.
abbrev Collects : Charge → Option PaymentMethod → Type 0
Collects on_account none = Unit
Collects on_account (some method) = ⊥
Collects (now id amount) none = ⊥
Collects (now id amount) (some method) = Unit

lock_period-same : (ctx : TenantContext) (id : ℕ) → Steps SameEntries (lock_period ctx id)
unfolding lock_period
lock_period-same ctx id =
    Steps-gets _ ▸ λ row. Steps-require row _ ▸ λ found. check_branch-same ctx _ ▸ λ u. Steps-pure _

renewal_branch-same : (ctx : TenantContext) (id : ℕ) → Steps SameEntries (renewal_branch ctx id)
unfolding renewal_branch
renewal_branch-same ctx id = Steps-gets _ ▸ λ row.
    Steps-require row _ ▸ λ preview. Steps-require _ _ ▸ λ branch_id. Steps-lift _

renewal_window-same :
    (end : Date) (anchor : ℕ) (today : Date) → Steps SameEntries (renewal_window end anchor today)
unfolding renewal_window
renewal_window-same end anchor today =
    Steps-lift _ ▸ λ next. Steps-lift _ ▸ λ window. Steps-require _ _

check_renewal-same :
    (ctx : TenantContext) (id : ℕ) (charge : Charge)
    → Steps SameEntries (check_renewal ctx id charge)
unfolding check_renewal
check_renewal-same ctx id on_account = Steps-pure tt
check_renewal-same ctx id (now method amount) = check_permission-same ctx (now method amount) ▸ λ u.
    renewal_branch-same ctx id ▸ λ branch_id. check_session-same ctx branch_id (now method amount)

collect_renewal-Shifts :
    (ctx : TenantContext) (branch_id : ℕ) (m : Membership) (charge : Charge)
    (method : Option PaymentMethod)
    → Collects charge method
    → Shifts m.member_id (collected charge m.price_paid) (collect_renewal ctx branch_id m method)
unfolding collect_renewal
collect_renewal-Shifts ctx branch_id m on_account none fits =
    Shifts-of_same m.member_id (Steps-pure tt)
collect_renewal-Shifts ctx branch_id m (now method_id amount) (some method) fits =
    let id = m.member_id in
    same_then id (require_open_session_for_user-same _ _) λ session.
      same_then id (ensure_system_concept-same _) λ concept_id.
        same_then id (create_movement-same _) λ movement. shift_eq id (omega int_laws) (
          Shifts-bind id m.price_paid (pos 0)
            (post_ledger_entry-Shifts (collection_posting m movement.id branch_id))
            λ entry. Shifts-of_same id (Steps-pure tt))
collect_renewal-Shifts ctx branch_id m on_account (some method) fits = elim fits [ ]
collect_renewal-Shifts ctx branch_id m (now method_id amount) none fits = elim fits [ ]

assign_renewal-Charges :
    (ctx : TenantContext) (branch_id : ℕ) (m : Membership) (charge : Charge)
    (method : Option PaymentMethod)
    → Collects charge method
    → Charges (λ r. r.member_id) charge (assign_renewal ctx branch_id m method)
unfolding assign_renewal
assign_renewal-Charges ctx branch_id m charge method fits = charges λ db.
    let id = m.member_id in
    let Q = Charged (λ r. r.member_id) charge db in
    After-bind (λ u d. SameEntries db d) Q _ _ db (Steps-After (insert_membership-same m) db)
      λ u d1 same.
        After-bind (λ e d. ledger_sum id d.entries ≡ ledger_sum id d1.entries +ℤ neg m.price_paid) Q
          _ _ d1 (Shifts-After id (post_ledger_entry-Shifts (charge_posting m branch_id)) d1)
          λ entry d2 posted.
            After-bind
              (λ u d.
                ledger_sum id d.entries ≡ ledger_sum id d2.entries +ℤ collected charge m.price_paid)
              Q _ _ d2
              (Shifts-After id (collect_renewal-Shifts ctx branch_id m charge method fits) d2)
              λ u2 d3 paid. After-record_audit Q _ _ _ _ d3 λ events. After-pure Q m _ (
                paid
                ∙ rw posted (rw same (rw (sym (left-eq charge m.price_paid)) (omega int_laws))))

-- The method that is found fits the charge.
renewal_method-Collects :
    (charge : Charge) (db : Db)
    → After (λ method d. Collects charge method × SameEntries db d) (renewal_method charge db)
unfolding renewal_method pure gets require ◌>>=◌
renewal_method-Collects on_account db = (tt, refl)
renewal_method-Collects (now id amount) db = elim (Option-cases (find_method id db)) [
  | inl missing ↦ rw missing tt
  | inr (m, found) ↦ rw found (tt, refl)
]

renew_locked-Charges :
    (ctx : TenantContext) (id : ℕ) (charge : Charge) (branch_id : ℕ) (today : Date)
    → Charges (λ r. r.member_id) charge (renew_locked ctx id charge branch_id today)
unfolding renew_locked
renew_locked-Charges ctx id charge branch_id today =
    let who : Membership → ℕ = λ r. r.member_id in
    let c = charge in
    charged_then who c (lock_period-same ctx id) λ old.
      charged_then who c (Steps-throw_when _ _) λ u.
        charged_then who c (Steps-require _ _) λ old_end.
          charged_then who c (Steps-gets _) λ member_row.
            charged_then who c (Steps-require member_row _) λ member.
              charged_then who c (Steps-gets _) λ plan_row.
                charged_then who c (Steps-require plan_row _) λ plan.
                  charged_then who c (Steps-throw_when _ _) λ u.
                    charged_then who c (Steps-gets _) λ branch_row.
                      charged_then who c (Steps-require branch_row _) λ branch.
                        charged_then who c (Steps-gets _) λ newer.
                          charged_then who c (Steps-throw_when _ _) λ u.
                            charged_then who c (renewal_window-same _ _ _) λ window.
                              charged_then who c (Steps-lift _) λ end.
                                charged_after who c (Collects c) _ (renewal_method-Collects c)
                                  λ method fits. charged_then who c (Steps-lift _) λ price.
                                    charged_then who c (Steps-throw_when _ _) λ u.
                                      charged_then who c (Steps-modify _ (λ db. refl)) λ u.
                                        charged_then who c Steps-fresh λ period_id.
                                          assign_renewal-Charges ctx branch_id _ c method fits

renew-Charges :
    (ctx : TenantContext) (id : ℕ) (charge : Charge) (today : Date)
    → Charges (λ r. r.member_id) charge (renew ctx id charge today)
unfolding renew
renew-Charges ctx id charge today =
    charged_then (λ r. r.member_id) charge (check_renewal-same ctx id charge)
      λ u.
        charged_then (λ r. r.member_id) charge (renewal_branch-same ctx id)
          λ branch_id.
            charged_then (λ r. r.member_id) charge (check_session-same ctx branch_id charge)
              λ u. renew_locked-Charges ctx id charge branch_id today

-- A renewal that is collected at once leaves the sum of the entries of the period's member as it
-- was; one on account lowers it by the price that the new period records.
pub renew-Charged :
    (ctx : TenantContext) (id : ℕ) (charge : Charge) (today : Date) (db : Db) {m : Membership}
    {db' : Db}
    → renew ctx id charge today db ≡ ok (m, db')
    → ledger_sum m.member_id db'.entries
      ≡ ledger_sum m.member_id db.entries +ℤ left_to_pay charge m.price_paid
renew-Charged ctx id charge today db {m} {db'} e = go (renew-Charges ctx id charge today)
  where
    go :
        Charges (λ r. r.member_id) charge (renew ctx id charge today)
        → ledger_sum m.member_id db'.entries
          ≡ ledger_sum m.member_id db.entries +ℤ left_to_pay charge m.price_paid
    go (charges h) = After-ok (Charged (λ r. r.member_id) charge db) (h db) e
