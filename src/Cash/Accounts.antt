-- ===== src/Cash/Accounts.antt =====
-- apps/api/src/modules/cash/lib: the entries of accounts across its steps.
use pulso_crm.Prelude.{ℕ, Option, none, some, refl}
use pulso_crm.Store.{ConceptCode, CashConcept}
use pulso_crm.Store.Action.Frame.{
  Steps, Steps-pure, Steps-gets, Steps-require, Steps-throw_when, Steps-fresh, Steps-modify, ◌▸◌,
}
use pulso_crm.Ledger.Shift.{SameEntries, SameEntries-IsFrame}
use pulso_crm.Cash.{
  NewMovement, create_movement, ensure_system_concept, existing_or_create, create_concept,
  require_open_session_for_user,
}

pub ensure_system_concept-same : (key : ConceptCode) → Steps SameEntries (ensure_system_concept key)
unfolding ensure_system_concept existing_or_create create_concept
ensure_system_concept-same key = Steps-gets _ ▸ λ row. go row
  where
    go : (row : Option CashConcept) → Steps SameEntries (existing_or_create key row)
    go (some c) = Steps-pure c.id
    go none = Steps-fresh ▸ λ id. Steps-modify _ (λ db. refl) ▸ λ u. Steps-pure id

pub require_open_session_for_user-same :
    (user_id : ℕ) (branch_id : Option ℕ)
    → Steps SameEntries (require_open_session_for_user user_id branch_id)
unfolding require_open_session_for_user
require_open_session_for_user-same user_id branch_id = Steps-gets _ ▸ λ row. Steps-require row _

pub create_movement-same : (n : NewMovement) → Steps SameEntries (create_movement n)
unfolding create_movement
create_movement-same n = Steps-throw_when _ _ ▸ λ u. Steps-gets _ ▸ λ t.
    Steps-throw_when _ _ ▸ λ v. Steps-fresh ▸ λ id. Steps-modify _ (λ db. refl) ▸ λ w. Steps-pure _
