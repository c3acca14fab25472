-- ===== src/Cash/Movement/Account.antt =====
-- apps/api/src/modules/cash/cash-movement.service.ts: `create` and `reverse`, and the cached balances.
use pulso_crm.Prelude.{ℕ, Option, none, some}
use pulso_crm.Prelude.Int.{ℤ}
use pulso_crm.Store.{CashSession, CashMovement, MovementType}
use pulso_crm.Store.Action.Frame.{
  Steps, Steps-pure, Steps-gets, Steps-require, Steps-throw_when, ◌▸◌, Steps-modify, Steps-fresh,
  Steps-record_audit,
}
use pulso_crm.Store.Context.{TenantContext}
use pulso_crm.Ledger.Shift.{
  KeepsCaches, KeepsCaches-IsFrame, post_ledger_entry-KeepsCaches, SameEntries-IsFrame,
}
use pulso_crm.Cash.{NewMovement, create_movement, assert_positive_money}
use pulso_crm.Cash.Movement.{
  CreateRequest, check_member, post_for_member, create_in, create, post_reversal, reverse_in,
  reverse,
}

pub create_movement-KeepsCaches : (n : NewMovement) → Steps KeepsCaches (create_movement n)
unfolding create_movement
create_movement-KeepsCaches n = Steps-throw_when _ _ ▸ λ u. Steps-gets _ ▸ λ t.
    Steps-throw_when _ _ ▸ λ v. Steps-fresh ▸ λ id. Steps-modify _ (λ db h. h) ▸ λ w. Steps-pure _

check_member-KeepsCaches : (id : Option ℕ) → Steps KeepsCaches (check_member id)
unfolding check_member
check_member-KeepsCaches none = Steps-pure _
check_member-KeepsCaches (some id) =
    Steps-gets _ ▸ λ row. Steps-require row _ ▸ λ member. Steps-pure _

post_for_member-KeepsCaches :
    (id : Option ℕ) (t : MovementType) (amount : ℤ) (movement_id branch_id : ℕ)
    → Steps KeepsCaches (post_for_member id t amount movement_id branch_id)
unfolding post_for_member
post_for_member-KeepsCaches none t amount movement_id branch_id = Steps-pure _
post_for_member-KeepsCaches (some id) t amount movement_id branch_id =
    post_ledger_entry-KeepsCaches _ ▸ λ entry. Steps-pure _

create_in-KeepsCaches :
    (ctx : TenantContext) (input : CreateRequest) (session : CashSession)
    → Steps KeepsCaches (create_in ctx input session)
unfolding create_in
create_in-KeepsCaches ctx input session = Steps-gets _ ▸ λ concept_row. Steps-gets _ ▸ λ method_row.
    Steps-require _ _ ▸ λ concept. Steps-require _ _ ▸ λ method. Steps-throw_when _ _ ▸ λ u.
    check_member-KeepsCaches _ ▸ λ id. create_movement-KeepsCaches _ ▸ λ movement.
    post_for_member-KeepsCaches _ _ _ _ _ ▸ λ v. Steps-record_audit _ _ _ ▸ λ w. Steps-pure _

pub create-KeepsCaches :
    (ctx : TenantContext) (input : CreateRequest) → Steps KeepsCaches (create ctx input)
unfolding create assert_positive_money
create-KeepsCaches ctx input = Steps-throw_when _ _ ▸ λ u.
    Steps-gets _ ▸ λ row. Steps-require _ _ ▸ λ session. create_in-KeepsCaches ctx input session

post_reversal-KeepsCaches :
    (m : CashMovement) (reversal_id branch_id : ℕ) (id : Option ℕ)
    → Steps KeepsCaches (post_reversal m reversal_id branch_id id)
unfolding post_reversal
post_reversal-KeepsCaches m reversal_id branch_id none = Steps-pure _
post_reversal-KeepsCaches m reversal_id branch_id (some id) =
    post_ledger_entry-KeepsCaches _ ▸ λ entry. Steps-pure _

pub reverse-KeepsCaches : (ctx : TenantContext) (id : ℕ) → Steps KeepsCaches (reverse ctx id)
unfolding reverse reverse_in
reverse-KeepsCaches ctx id = Steps-gets _ ▸ λ row. Steps-require _ _ ▸ λ original.
    Steps-throw_when _ _ ▸ λ u. Steps-throw_when _ _ ▸ λ v. Steps-gets _ ▸ λ session_row.
    Steps-require _ _ ▸ λ session. Steps-throw_when _ _ ▸ λ w. Steps-gets _ ▸ λ row'.
    Steps-require _ _ ▸ λ relocked. Steps-throw_when _ _ ▸ λ x.
    create_movement-KeepsCaches _ ▸ λ reversing. Steps-modify _ (λ db h. h) ▸ λ y.
    post_reversal-KeepsCaches _ _ _ _ ▸ λ z. Steps-record_audit _ _ _ ▸ λ e. Steps-pure _
