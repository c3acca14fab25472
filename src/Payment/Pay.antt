-- ===== src/Payment/Pay.antt =====
-- apps/api/src/modules/members/member-payment.service.ts: `pay`.
pub mod Settled
pub mod Cleared
mod Tests
use pulso_crm.Prelude.{
  ℕ, Bool, true, false, not, Option, none, some, List, [], ◌∷◌, ◌==◌, ◌&&◌, if◌then◌else◌,
  find_first, code, not_found, conflict, cash_session_closed,
}
use pulso_crm.Prelude.Int.{ℤ, pos, ◌+ℤ◌, ltb_ℤ, leb_ℤ}
use pulso_crm.Store.{
  Db, Member, debit, credit, adjustment_charge, payment, transfer_surcharge, other_text,
  CashMovement, CashSession, income, debt_payment, cash_movement_created,
}
use pulso_crm.Store.Action.{
  Action, pure, gets, lift, require, modify, throw_when, ◌>>=◌, ◌>>◌, record_audit,
}
use pulso_crm.Store.Context.{TenantContext, require_branch}
use pulso_crm.Ledger.{Posting, post_ledger_entry}
use pulso_crm.Cash.{
  is_open, require_open_session_for_user, ensure_system_concept, NewMovement, create_movement,
}
use pulso_crm.Payment.{
  Line, PaymentQuote, choose_method, entries_of, balance_of, quote_of, transferred, equal_ℤ,
  same_id,
}

-- `buildQuote`.
unfoldable pub build_quote : ℕ → Option ℕ → Action PaymentQuote
build_quote id payment_method_id = do
  row ← gets (λ db. find_first (λ m. m.id == id && not m.deleted) db.members)
  member ← require row (code not_found)
  method ← choose_method payment_method_id
  entries ← gets (λ db. entries_of id db.entries)
  throw_when (not (equal_ℤ (balance_of (pos 0) entries) member.balance)) (code conflict)
  paid ← gets (λ db. λ membership. transferred id membership db.methods db.movements)
  pure (quote_of method paid entries)

-- `PayDebtRequest`.
pub record PayRequest : Type 0 where
  pub payment_method_id : ℕ
  pub ledger_version : Option ℕ
  pub expected_total : ℤ

abbrev pub fee_posting : ℕ → ℕ → Line → Posting
fee_posting id branch_id line = record {
  member_id = id;
  type = debit;
  reason = adjustment_charge;
  amount = line.surcharge;
  description = transfer_surcharge;
  membership_id = line.membership_id;
  cash_movement_id = none;
  branch_id = some branch_id;
}

-- `if (fee.gt(0))`.
unfoldable pub post_fee : ℕ → ℕ → Line → Action (Unit {0})
post_fee id branch_id line =
    if ltb_ℤ (pos 0) line.surcharge
    then (do entry ← post_ledger_entry (fee_posting id branch_id line); pure tt)
    else pure tt

abbrev pub line_movement : TenantContext → ℕ → CashSession → ℕ → ℕ → Line → NewMovement
line_movement ctx id session concept_id payment_method_id line = record {
  cash_session_id = session.id;
  type = income;
  amount = line.amount +ℤ line.surcharge;
  payment_method_id = payment_method_id;
  cash_concept_id = concept_id;
  member_id = some id;
  membership_id = line.membership_id;
  reversal_of_id = none;
  created_by = ctx.user_id;
}

abbrev pub payment_posting : ℕ → ℕ → ℕ → Line → Posting
payment_posting id branch_id movement_id line = record {
  member_id = id;
  type = credit;
  reason = payment;
  amount = line.amount +ℤ line.surcharge;
  description = other_text;
  membership_id = line.membership_id;
  cash_movement_id = some movement_id;
  branch_id = some branch_id;
}

-- The loop over the lines of the quote.
unfoldable pub pay_lines :
    TenantContext → ℕ → CashSession → ℕ → ℕ → List Line → Action (List CashMovement)
pay_lines ctx id session concept_id payment_method_id [] = pure []
pay_lines ctx id session concept_id payment_method_id (line ∷ lines) = do
  post_fee id session.branch_id line
  movement ← create_movement (line_movement ctx id session concept_id payment_method_id line)
  entry ← post_ledger_entry (payment_posting id session.branch_id movement.id line)
  record_audit cash_movement_created movement.id (some session.branch_id)
  rest ← pay_lines ctx id session concept_id payment_method_id lines
  pure (movement ∷ rest)

-- `PayDebtResponse`.
pub record PayResponse : Type 0 where
  pub cash_movements : List CashMovement
  pub balance : ℤ

-- `pay`, from its quote on.
pub settle : TenantContext → ℕ → PayRequest → PaymentQuote → Action PayResponse
settle ctx id input quote = do
  throw_when (leb_ℤ quote.debt (pos 0)) (code conflict)
  throw_when
      (not (
        same_id quote.ledger_version input.ledger_version
        && equal_ℤ quote.total input.expected_total))
      (code conflict)
  session ← require_open_session_for_user ctx.user_id none
  branch_id ← lift (require_branch ctx (some session.branch_id))
  row ← gets (λ db. find_first (λ s. s.id == session.id && is_open s.status) db.sessions)
  open_row ← require row (code cash_session_closed)
  concept_id ← ensure_system_concept debt_payment
  movements ← pay_lines ctx id session concept_id input.payment_method_id quote.lines
  member_row ← gets (λ db. find_first (λ m. m.id == id) db.members)
  member ← require member_row (code not_found)
  pure (record { cash_movements = movements; balance = member.balance })

-- `pay`.
pub pay : TenantContext → ℕ → PayRequest → Action PayResponse
unfolding settle
pay ctx id input = build_quote id (some input.payment_method_id) >>= settle ctx id input
