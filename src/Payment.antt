-- ===== src/Payment.antt =====
-- apps/api/src/modules/members/member-payment.service.ts: the quote of a member's debt and its payment.
pub mod Quote
pub mod Pay
use pulso_crm.Prelude.{
  ℕ, Bool, true, false, not, Option, none, some, List, [], ◌∷◌, ◌++◌, ◌==◌, ◌&&◌, ◌||◌,
  if◌then◌else◌, find_first, find_many, is_some, code, failure, validation_error, not_found,
  conflict, cash_session_closed,
}
use pulso_crm.Prelude.Int.{ℤ, pos, ◌+ℤ◌, ◌-ℤ◌, neg, ltb_ℤ, leb_ℤ}
use pulso_crm.Store.{
  Db, Member, LedgerEntry, LedgerEntryKind, debit, credit, adjustment_charge, payment, Description,
  transfer_surcharge, other_text, PaymentCode, cash, qr, mercado_pago, mercadopago, transfer,
  other_method, PaymentMethod, CashMovement, MovementType, income, expense, debt_payment,
  cash_movement_created,
}
use pulso_crm.Store.Action.{
  Action, pure, gets, lift, require, modify, throw_when, ◌>>=◌, ◌>>◌, record_audit,
}
use pulso_crm.Store.Context.{TenantContext, require_branch}
use pulso_crm.Ledger.{Posting, post_ledger_entry, find_member}
use pulso_crm.Cash.{
  is_open, require_open_session_for_user, find_method, ensure_system_concept, NewMovement,
  create_movement,
}

-- `TRANSFER_SURCHARGE` (packages/config/src/billing.ts), in cents.
abbrev pub surcharge_amount : ℤ
surcharge_amount = pos 500000

-- A line of `MemberPaymentQuote`, less its label and dates.
pub record Line : Type 0 where
  pub membership_id : Option ℕ
  pub amount : ℤ
  pub surcharge : ℤ

pub record PaymentQuote : Type 0 where
  pub balance : ℤ
  pub ledger_version : Option ℕ
  pub debt : ℤ
  pub surcharge : ℤ
  pub total : ℤ
  pub lines : List Line

abbrev pub is_accepted : PaymentCode → Bool
is_accepted other_method = false
is_accepted accepted = true

abbrev pub is_transfer : PaymentCode → Bool
is_transfer transfer = true
is_transfer other = false

-- The code of the method that is asked for, or that of cash.
unfoldable pub choose_method : Option ℕ → Action PaymentCode
choose_method none = pure cash
choose_method (some id) = do
  row ← gets (find_method id)
  method ← require row (code validation_error)
  throw_when (not (is_accepted method.code)) (code validation_error)
  pure method.code

-- A member's entries; rows stand in the order of `createdAt`.
abbrev pub entries_of : ℕ → List LedgerEntry → List LedgerEntry
entries_of id es = find_many (λ e. e.member_id == id) es

abbrev pub apply_entry : LedgerEntryKind → ℤ → ℤ → ℤ
apply_entry debit sum amount = sum -ℤ amount
apply_entry credit sum amount = sum +ℤ amount

-- The `reduce` of the balance.
unfoldable pub balance_of : ℤ → List LedgerEntry → ℤ
balance_of sum [] = sum
balance_of sum (e ∷ es) = balance_of (apply_entry e.type sum e.amount) es

-- `entries.at(-1)?.id ?? null`.
pub last_id : List LedgerEntry → Option ℕ
last_id [] = none
last_id (e ∷ []) = some e.id
last_id (e ∷ (f ∷ es)) = last_id (f ∷ es)

-- A value of the map `groups`, with its key.
pub record Group : Type 0 where
  pub key : Option ℕ
  pub amount : ℤ
  pub fee_applied : Bool

abbrev pub same_id : Option ℕ → Option ℕ → Bool
same_id none none = true
same_id (some a) (some b) = a == b
same_id a b = false

abbrev pub add_amount : LedgerEntryKind → ℤ → ℤ → ℤ
add_amount debit sum amount = sum +ℤ amount
add_amount credit sum amount = sum -ℤ amount

abbrev pub is_fee : LedgerEntryKind → Description → Bool
is_fee debit transfer_surcharge = true
is_fee kind text = false

abbrev pub add_to : LedgerEntry → Group → Group
add_to e g = record g {
  amount = add_amount e.type g.amount e.amount;
  fee_applied = g.fee_applied || is_fee e.type e.description;
}

pub add_entry : LedgerEntry → List Group → List Group
add_entry e [] =
    add_to e (record { key = e.membership_id; amount = pos 0; fee_applied = false }) ∷ []
add_entry e (g ∷ groups) =
    if same_id g.key e.membership_id then add_to e g ∷ groups else g ∷ add_entry e groups

pub group_entries : List Group → List LedgerEntry → List Group
unfolding add_entry
group_entries groups [] = groups
group_entries groups (e ∷ es) = group_entries (add_entry e groups) es

-- The negative groups, as credit.
pub credit_of : List Group → ℤ
credit_of [] = pos 0
credit_of (g ∷ groups) =
    let rest = credit_of groups in if ltb_ℤ g.amount (pos 0) then rest -ℤ g.amount else rest

abbrev pub min_ℤ : ℤ → ℤ → ℤ
min_ℤ a b = if leb_ℤ a b then a else b

abbrev is_own : ℕ → Option ℕ → Bool
is_own id none = false
is_own id (some m) = m == id

abbrev is_movement_income : MovementType → Bool
is_movement_income income = true
is_movement_income expense = false

abbrev code_of : Option PaymentMethod → Bool
code_of none = false
code_of (some m) = is_transfer m.code

-- Has a movement of the member paid this membership by transfer?
pub transferred : ℕ → ℕ → List PaymentMethod → List CashMovement → Bool
transferred member_id membership_id methods movements = is_some (
    find_first
      (λ m.
        is_own member_id m.member_id
        && (is_own membership_id m.membership_id
            && (is_movement_income m.type
                && code_of (find_first (λ p. p.id == m.payment_method_id) methods))))
      movements)

-- The surcharge of a line.
abbrev pub surcharge_of : PaymentCode → Bool → (ℕ → Bool) → Option ℕ → ℤ
surcharge_of method fee_applied paid none = pos 0
surcharge_of method fee_applied paid (some id) =
    if is_transfer method && (not fee_applied && not (paid id)) then surcharge_amount else pos 0

-- The loop over the groups: the credit is applied to the periods in their order.
pub quote_lines : PaymentCode → (ℕ → Bool) → ℤ → List Group → List Line
quote_lines method paid left [] = []
quote_lines method paid left (g ∷ groups) =
    let skipped = quote_lines method paid left groups in
    let applied = min_ℤ left g.amount in
    let rest = quote_lines method paid (left -ℤ applied) groups in
    if leb_ℤ g.amount (pos 0)
    then skipped
    else if leb_ℤ (g.amount -ℤ applied) (pos 0)
    then rest
    else (record {
      membership_id = g.key;
      amount = g.amount -ℤ applied;
      surcharge = surcharge_of method g.fee_applied paid g.key;
    })
      ∷ rest

pub sum_surcharges : List Line → ℤ
sum_surcharges [] = pos 0
sum_surcharges (l ∷ lines) = l.surcharge +ℤ sum_surcharges lines

pub sum_lines : List Line → ℤ
sum_lines [] = pos 0
sum_lines (l ∷ lines) = l.amount +ℤ sum_lines lines

-- `Prisma.Decimal.max(0, balance.neg())`.
abbrev pub debt_of : ℤ → ℤ
debt_of balance = if leb_ℤ (neg balance) (pos 0) then pos 0 else neg balance

abbrev pub equal_ℤ : ℤ → ℤ → Bool
equal_ℤ a b = leb_ℤ a b && leb_ℤ b a

pub quote_of : PaymentCode → (ℕ → Bool) → List LedgerEntry → PaymentQuote
unfolding quote_lines group_entries credit_of last_id
quote_of method paid entries =
    let balance = balance_of (pos 0) entries in
    let groups = group_entries [] entries in
    let lines =
      if leb_ℤ (pos 0) balance then [] else quote_lines method paid (credit_of groups) groups in
    record {
      balance = balance;
      ledger_version = last_id entries;
      debt = debt_of balance;
      surcharge = sum_surcharges lines;
      total = debt_of balance +ℤ sum_surcharges lines;
      lines = lines;
    }
