-- ===== src/Cash/Session.antt =====
-- apps/api/src/modules/cash/cash-session.service.ts: `open`. An amount is its value, so
-- the text "-0.00", which `open` refuses as well, does not occur.
pub mod Unique
pub mod Close
use pulso_crm.Prelude.{
  ℕ, ◌+◌, Bool, true, false, not, Option, none, some, List, [], ◌∷◌, ◌++◌, ◌==◌, ◌&&◌, ◌||◌,
  if◌then◌else◌, find_first, find_many, update_where, count_where, includes, is_some, ltb, code,
  validation_error, not_found, no_open_cash_session, cash_session_closed, cash_register_busy,
  user_has_open_session, cash_session_has_pending_operations,
}
use pulso_crm.Prelude.Int.{ℤ, pos, ◌+ℤ◌, ◌-ℤ◌, ltb_ℤ}
use pulso_crm.Calendar.{Date}
use pulso_crm.Store.{
  Db, CashSession, SessionStatus, open_session, closed, CashRegister, CashMovement, MovementType,
  income, expense, PaymentMethod, ClosingDetail, OperationRequest, cash_session_opened,
  cash_session_closed,
}
use pulso_crm.Store.Action.{
  Action, pure, gets, require, modify, throw_when, ◌>>=◌, ◌>>◌, fresh, record_audit,
}
use pulso_crm.Store.Context.{TenantContext}
use pulso_crm.Cash.{is_open, find_open_session_for_user, assert_positive_money}
use pulso_crm.Cash.Movement.{same_type}

abbrev pub is_of_user : ℕ → CashSession → Bool
is_of_user user_id s = s.opened_by == user_id && is_open s.status

abbrev pub is_of_register : ℕ → CashSession → Bool
is_of_register register_id s = s.cash_register_id == register_id && is_open s.status

abbrev pub opened_row : ℕ → CashRegister → ℕ → ℤ → Date → CashSession
opened_row id register user_id opening_amount today = record {
  id = id;
  branch_id = register.branch_id;
  cash_register_id = register.id;
  status = open_session;
  opened_by = user_id;
  opening_amount = opening_amount;
  closed_by = none;
  expected_cash = none;
  declared_cash = none;
  cash_difference = none;
  business_date = today;
}

-- The transaction of `open`, under the lock of the register.
unfoldable pub open_in : TenantContext → CashRegister → ℤ → Date → Action CashSession
open_in ctx register opening_amount today = do
  other_open_same_user ← gets (λ db. find_first (is_of_user ctx.user_id) db.sessions)
  throw_when (is_some other_open_same_user) (code user_has_open_session)
  other_open_same_register ← gets (λ db. find_first (is_of_register register.id) db.sessions)
  throw_when (is_some other_open_same_register) (code cash_register_busy)
  id ← fresh
  modify (λ db. record db {
    sessions = db.sessions ++ opened_row id register ctx.user_id opening_amount today ∷ [];
  })
  record_audit cash_session_opened id (some register.branch_id)
  pure (opened_row id register ctx.user_id opening_amount today)

-- `open`, on the branch's business day.
unfoldable pub open_cash : TenantContext → ℕ → ℤ → Date → Action CashSession
open_cash ctx cash_register_id opening_amount today = do
  throw_when (ltb_ℤ opening_amount (pos 0)) (code validation_error)
  row ← gets (λ db. find_first (λ r. r.id == cash_register_id && r.is_active) db.registers)
  register ← require row (code not_found)
  throw_when (not (includes register.branch_id ctx.branch_ids)) (code not_found)
  open_in ctx register opening_amount today
