-- ===== src/Cash/Movement.antt =====
-- apps/api/src/modules/cash/cash-movement.service.ts: `create` and `reverse`.
pub mod Account
mod Tests
pub mod Reversal
pub mod Made
pub mod Once
use pulso_crm.Prelude.{
  ℕ, Bool, true, false, not, Option, none, some, ◌==◌, ◌&&◌, find_first, update_where, is_some,
  code, validation_error, not_found, conflict, no_open_cash_session, cash_session_closed,
  movement_already_reversed,
}
use pulso_crm.Prelude.Int.{ℤ}
use pulso_crm.Store.{
  Db, Member, CashMovement, CashSession, MovementType, income, expense, debit, credit, payment,
  refund, reversal, other_text, cash_movement_created, cash_movement_reversed, LedgerReason,
  LedgerEntryKind,
}
use pulso_crm.Store.Action.{
  Action, pure, gets, require, modify, throw_when, ◌>>=◌, ◌>>◌, record_audit,
}
use pulso_crm.Store.Context.{TenantContext}
use pulso_crm.Ledger.{Posting, post_ledger_entry}
use pulso_crm.Cash.{
  is_open, find_open_session_for_user, assert_positive_money, find_method, NewMovement,
  create_movement,
}

-- `CreateCashMovementRequest`.
pub record CreateRequest : Type 0 where
  pub type : MovementType
  pub amount : ℤ
  pub payment_method_id : ℕ
  pub cash_concept_id : ℕ
  pub member_id : Option ℕ

abbrev pub same_type : MovementType → MovementType → Bool
same_type income income = true
same_type expense expense = true
same_type a b = false

-- The member is read again in the transaction; no id means no member.
check_member : Option ℕ → Action (Option ℕ)
check_member none = pure none
check_member (some id) = do
  row ← gets (λ db. find_first (λ m. m.id == id && not m.deleted) db.members)
  member ← require row (code not_found)
  pure (some member.id)

abbrev pub account_kind : MovementType → LedgerEntryKind
account_kind income = credit
account_kind expense = debit

abbrev pub account_reason : MovementType → LedgerReason
account_reason income = payment
account_reason expense = refund

-- The posting of a movement that belongs to a member.
post_for_member : Option ℕ → MovementType → ℤ → ℕ → ℕ → Action (Unit {0})
post_for_member none type amount movement_id branch_id = pure tt
post_for_member (some member_id) type amount movement_id branch_id = do
  entry ← post_ledger_entry (record {
    member_id = member_id;
    type = account_kind type;
    reason = account_reason type;
    amount = amount;
    description = other_text;
    membership_id = none;
    cash_movement_id = some movement_id;
    branch_id = some branch_id;
  })
  pure tt

-- The transaction of `create`, for the session that was read before it began.
pub create_in : TenantContext → CreateRequest → CashSession → Action CashMovement
create_in ctx input session = do
  concept_row ←
      gets (λ db. find_first (λ c. c.id == input.cash_concept_id && c.is_active) db.concepts)
  method_row ← gets (find_method input.payment_method_id)
  concept ← require concept_row (code not_found)
  method ← require method_row (code not_found)
  throw_when (not (same_type concept.type input.type)) (code validation_error)
  member_id ← check_member input.member_id
  movement ← create_movement (record {
    cash_session_id = session.id;
    type = input.type;
    amount = input.amount;
    payment_method_id = method.id;
    cash_concept_id = concept.id;
    member_id = member_id;
    membership_id = none;
    reversal_of_id = none;
    created_by = ctx.user_id;
  })
  post_for_member member_id input.type input.amount movement.id session.branch_id
  record_audit cash_movement_created movement.id (some session.branch_id)
  pure movement

-- `create`.
pub create : TenantContext → CreateRequest → Action CashMovement
create ctx input = do
  assert_positive_money input.amount
  row ← gets (find_open_session_for_user ctx.user_id none)
  session ← require row (code no_open_cash_session)
  create_in ctx input session

abbrev pub find_movement : ℕ → Db → Option CashMovement
find_movement id db = find_first (λ m. m.id == id) db.movements

abbrev pub opposite : MovementType → MovementType
opposite income = expense
opposite expense = income

abbrev pub reversal_kind : MovementType → LedgerEntryKind
reversal_kind income = debit
reversal_kind expense = credit

-- The opposite posting, if the movement had one.
pub post_reversal : CashMovement → ℕ → ℕ → Option ℕ → Action (Unit {0})
post_reversal original reversal_id branch_id none = pure tt
post_reversal original reversal_id branch_id (some member_id) = do
  entry ← post_ledger_entry (record {
    member_id = member_id;
    type = reversal_kind original.type;
    reason = reversal;
    amount = original.amount;
    description = other_text;
    membership_id = original.membership_id;
    cash_movement_id = some reversal_id;
    branch_id = some branch_id;
  })
  pure tt

abbrev pub mark_reversed : ℕ → Db → Db
mark_reversed id db = record db {
  movements = update_where (λ m. m.id == id) (λ m. record m { is_reversed = true }) db.movements;
}

-- The data of the reversing row. The code takes the type from the row that it read first, which is
-- the same: no write changes a movement's type.
abbrev pub reversal_of : TenantContext → CashMovement → NewMovement
reversal_of ctx m = record {
  cash_session_id = m.cash_session_id;
  type = opposite m.type;
  amount = m.amount;
  payment_method_id = m.payment_method_id;
  cash_concept_id = m.cash_concept_id;
  member_id = m.member_id;
  membership_id = m.membership_id;
  reversal_of_id = some m.id;
  created_by = ctx.user_id;
}

-- The transaction of `reverse`, once the session of the original is known to be open.
pub reverse_in : TenantContext → ℕ → CashSession → Action CashMovement
reverse_in ctx id session = do
  row ← gets (find_movement id)
  relocked ← require row (code not_found)
  throw_when relocked.is_reversed (code movement_already_reversed)
  reversing ← create_movement (reversal_of ctx relocked)
  modify (mark_reversed relocked.id)
  post_reversal relocked reversing.id session.branch_id relocked.member_id
  record_audit cash_movement_reversed relocked.id (some session.branch_id)
  pure reversing

-- `reverse`.
pub reverse : TenantContext → ℕ → Action CashMovement
reverse ctx id = do
  row ← gets (find_movement id)
  original ← require row (code not_found)
  throw_when (is_some original.reversal_of_id) (code conflict)
  throw_when original.is_reversed (code movement_already_reversed)
  session_row ← gets (λ db. find_first (λ s. s.id == original.cash_session_id) db.sessions)
  session ← require session_row (code not_found)
  throw_when (not (is_open session.status)) (code cash_session_closed)
  reverse_in ctx original.id session
