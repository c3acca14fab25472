-- ===== src/Cash.antt =====
-- apps/api/src/modules/cash: the parts that its services share (lib/session-lookup.ts,
-- lib/system-concepts.ts, lib/money.helper.ts), and the creation of a movement.
pub mod Totals
pub mod Movement
pub mod Session
pub mod Accounts
use pulso_crm.Prelude.{
  ℕ, Bool, true, false, Option, none, some, List, [], ◌∷◌, ◌++◌, ◌==◌, ◌&&◌, ◌||◌, if◌then◌else◌,
  find_first, is_some, Result, ok, err, code, validation_error, no_open_cash_session,
  movement_already_reversed,
}
use pulso_crm.Prelude.Int.{ℤ, pos, leb_ℤ, ltb_ℤ}
use pulso_crm.Store.{
  Db, CashSession, SessionStatus, open_session, closed, ConceptCode, debt_payment, refund,
  membership_charge, inventory_sale, gym_concept, MovementType, income, expense, CashConcept,
  CashMovement, PaymentMethod,
}
use pulso_crm.Store.Action.{Action, pure, gets, require, modify, throw_when, ◌>>=◌, ◌>>◌, fresh}

abbrev pub is_open : SessionStatus → Bool
is_open open_session = true
is_open closed = false

-- `...(branchId ? { branchId } : {})`.
abbrev pub in_branch : Option ℕ → ℕ → Bool
in_branch none b = true
in_branch (some a) b = b == a

-- `findOpenSessionForUser`.
unfoldable pub find_open_session_for_user : ℕ → Option ℕ → Db → Option CashSession
find_open_session_for_user user_id branch_id db =
    find_first
      (λ s. s.opened_by == user_id && (is_open s.status && in_branch branch_id s.branch_id))
      db.sessions

-- `requireOpenSessionForUser`.
unfoldable pub require_open_session_for_user : ℕ → Option ℕ → Action CashSession
require_open_session_for_user user_id branch_id = do
  session ← gets (find_open_session_for_user user_id branch_id)
  require session (code no_open_cash_session)

-- `assertPositiveMoney`.
unfoldable pub assert_positive_money : ℤ → Action (Unit {0})
assert_positive_money amount = throw_when (leb_ℤ amount (pos 0)) (code validation_error)

abbrev pub same_code : ConceptCode → ConceptCode → Bool
same_code debt_payment debt_payment = true
same_code refund refund = true
same_code membership_charge membership_charge = true
same_code inventory_sale inventory_sale = true
same_code gym_concept gym_concept = true
same_code a b = false

-- The `type` of `SYSTEM_CASH_CONCEPTS` (cash.constants.ts).
abbrev pub system_concept_type : ConceptCode → MovementType
system_concept_type refund = expense
system_concept_type other = income

unfoldable pub create_concept : ConceptCode → Action ℕ
create_concept key = do
  id ← fresh
  modify λ db. record db {
    concepts =
        db.concepts
        ++ (record { id = id; code = key; type = system_concept_type key; is_active = true }) ∷ [];
  }
  pure id

unfoldable pub existing_or_create : ConceptCode → Option CashConcept → Action ℕ
existing_or_create key (some concept) = pure concept.id
existing_or_create key none = create_concept key

-- `ensureSystemConcept`. Its `catch` meets a row that a concurrent transaction created, which does
-- not occur here.
unfoldable pub ensure_system_concept : ConceptCode → Action ℕ
ensure_system_concept key = do
  existing ← gets (λ db. find_first (λ c. same_code c.code key) db.concepts)
  existing_or_create key existing

abbrev pub find_method : ℕ → Db → Option PaymentMethod
find_method id db = find_first (λ m. m.id == id && m.is_active) db.methods

-- The data of `tx.cashMovement.create`.
pub record NewMovement : Type 0 where
  pub cash_session_id : ℕ
  pub type : MovementType
  pub amount : ℤ
  pub payment_method_id : ℕ
  pub cash_concept_id : ℕ
  pub member_id : Option ℕ
  pub membership_id : Option ℕ
  pub reversal_of_id : Option ℕ
  pub created_by : ℕ

abbrev pub movement_of : ℕ → NewMovement → CashMovement
movement_of id n = record {
  id = id;
  cash_session_id = n.cash_session_id;
  type = n.type;
  amount = n.amount;
  payment_method_id = n.payment_method_id;
  cash_concept_id = n.cash_concept_id;
  member_id = n.member_id;
  membership_id = n.membership_id;
  reversal_of_id = n.reversal_of_id;
  is_reversed = false;
  created_by = n.created_by;
}

abbrev pub reverses : ℕ → Option ℕ → Bool
reverses id none = false
reverses id (some original) = original == id

-- Does the column with its unique index hold this reversal already?
abbrev pub reversal_taken : Option ℕ → List CashMovement → Bool
reversal_taken none movements = false
reversal_taken (some original) movements =
    is_some (find_first (λ m. reverses original m.reversal_of_id) movements)

-- The insert of a row into `cash_movements`, with the check `amount > 0` and the unique index on
-- `reversalOfId`, and their errors as lib/pg-errors.ts reports them.
unfoldable pub create_movement : NewMovement → Action CashMovement
create_movement n = do
  throw_when (leb_ℤ n.amount (pos 0)) (code validation_error)
  taken ← gets (λ db. reversal_taken n.reversal_of_id db.movements)
  throw_when taken (code movement_already_reversed)
  id ← fresh
  modify (λ db. record db { movements = db.movements ++ movement_of id n ∷ [] })
  pure (movement_of id n)
