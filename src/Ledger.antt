-- ===== src/Ledger.antt =====
-- apps/api/src/modules/members/ledger.ts: the member's current account.
pub mod Consistent
pub mod Shift
pub mod Tests
use pulso_crm.Prelude.{
  ℕ, Bool, true, false, Option, none, some, List, [], ◌∷◌, ◌++◌, ◌==◌, ◌&&◌, ◌||◌, if◌then◌else◌,
  find_first, update_where, code, not_found, failure,
}
use pulso_crm.Prelude.Int.{ℤ, pos, ◌+ℤ◌, ◌-ℤ◌, neg, leb_ℤ}
use pulso_crm.Store.{
  Member, LedgerEntry, LedgerEntryKind, debit, credit, LedgerReason, Description, Db,
}
use pulso_crm.Store.Action.{Action, pure, gets, require, modify, throw_when, ◌>>=◌, ◌>>◌, fresh}

-- `PostLedgerEntryInput`.
pub record Posting : Type 0 where
  pub member_id : ℕ
  pub type : LedgerEntryKind
  pub reason : LedgerReason
  pub amount : ℤ
  pub description : Description
  pub membership_id : Option ℕ
  pub cash_movement_id : Option ℕ
  pub branch_id : Option ℕ

-- `type === 'DEBIT' ? amount.neg() : amount`.
abbrev pub delta : LedgerEntryKind → ℤ → ℤ
delta debit amount = neg amount
delta credit amount = amount

abbrev pub find_member : ℕ → Db → Option Member
find_member id db = find_first (λ m. m.id == id) db.members

-- `tx.member.update({ where: { id }, data: { balance } })`.
abbrev pub set_balance : ℕ → ℤ → Db → Db
set_balance id b db = record db {
  members = update_where (λ m. m.id == id) (λ m. record m { balance = b }) db.members;
}

abbrev pub entry_of : ℕ → ℤ → Posting → LedgerEntry
entry_of id balance_after p = record {
  id = id;
  member_id = p.member_id;
  type = p.type;
  reason = p.reason;
  amount = p.amount;
  balance_after = balance_after;
  description = p.description;
  membership_id = p.membership_id;
  cash_movement_id = p.cash_movement_id;
  branch_id = p.branch_id;
}

abbrev pub append_entry : LedgerEntry → Db → Db
append_entry e db = record db { entries = db.entries ++ e ∷ [] }

unfoldable pub post_ledger_entry : Posting → Action LedgerEntry
post_ledger_entry input = do
  throw_when (leb_ℤ input.amount (pos 0)) failure
  row ← gets (find_member input.member_id)
  member ← require row (code not_found)
  let new_balance = member.balance +ℤ delta input.type input.amount
  id ← fresh
  modify (append_entry (entry_of id new_balance input))
  modify (set_balance input.member_id new_balance)
  pure (entry_of id new_balance input)

abbrev same_kind : LedgerEntryKind → LedgerEntryKind → Bool
same_kind debit debit = true
same_kind credit credit = true
same_kind a b = false

abbrev pub counts_for : LedgerEntryKind → ℕ → LedgerEntry → Bool
counts_for kind id e = (e.member_id == id) && same_kind kind e.type

-- `COALESCE(SUM("amount"), 0)` of a member's entries of one type.
pub sum_amounts : LedgerEntryKind → ℕ → List LedgerEntry → ℤ
sum_amounts kind id [] = pos 0
sum_amounts kind id (e ∷ es) =
    if counts_for kind id e then e.amount +ℤ sum_amounts kind id es else sum_amounts kind id es

pub occurs : LedgerEntryKind → ℕ → List LedgerEntry → Bool
occurs kind id [] = false
occurs kind id (e ∷ es) = counts_for kind id e || occurs kind id es

-- `GROUP BY "type"`: a row for each type that occurs.
group_row : LedgerEntryKind → ℕ → List LedgerEntry → List (LedgerEntryKind × ℤ)
group_row kind id es = if occurs kind id es then (kind, sum_amounts kind id es) ∷ [] else []

-- The loop over those rows.
add_rows : ℤ → List (LedgerEntryKind × ℤ) → ℤ
add_rows balance [] = balance
add_rows balance ((debit, total) ∷ rows) = add_rows (balance -ℤ total) rows
add_rows balance ((credit, total) ∷ rows) = add_rows (balance +ℤ total) rows

pub recomputed_balance : ℕ → List LedgerEntry → ℤ
recomputed_balance id es = add_rows (pos 0) (group_row debit id es ++ group_row credit id es)

unfoldable pub recalculate_member_balance : ℕ → Action ℤ
recalculate_member_balance member_id = do
  row ← gets (find_member member_id)
  member ← require row (code not_found)
  balance ← gets (λ db. recomputed_balance member_id db.entries)
  modify (set_balance member_id balance)
  pure balance
