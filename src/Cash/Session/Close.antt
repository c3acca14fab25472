-- ===== src/Cash/Session/Close.antt =====
-- apps/api/src/modules/cash/cash-session.service.ts: `close`.
pub mod Expected
pub mod Details
pub mod Distinct
pub mod Written
pub mod Settled
pub mod OneOpen
mod Tests
use pulso_crm.Prelude.{
  ℕ, ◌+◌, Bool, true, false, not, Option, none, some, List, [], ◌∷◌, ◌++◌, ◌==◌, ◌&&◌, ◌||◌,
  if◌then◌else◌, find_first, find_many, update_where, count_where, includes, is_some, ltb, code,
  validation_error, not_found, no_open_cash_session, cash_session_closed, cash_register_busy,
  user_has_open_session, cash_session_has_pending_operations,
}
use pulso_crm.Prelude.Int.{ℤ, pos, ◌+ℤ◌, ◌-ℤ◌, ltb_ℤ}
use pulso_crm.Calendar.{Date}
use pulso_crm.Store.{
  Db, CashSession, SessionStatus, open_session, closed, CashRegister, CashMovement, MovementType,
  income, expense, PaymentMethod, ClosingDetail, OperationRequest, cash_session_opened,
  cash_session_closed,
}
use pulso_crm.Store.Action.{
  Action, pure, gets, require, modify, throw_when, ◌>>=◌, ◌>>◌, fresh, record_audit,
}
use pulso_crm.Store.Context.{TenantContext}
use pulso_crm.Cash.{is_open, find_open_session_for_user, assert_positive_money}
use pulso_crm.Cash.Movement.{same_type}

-- `closingDetailInputSchema`.
pub record Declared : Type 0 where
  pub payment_method_id : ℕ
  pub amount : ℤ

-- The loop of `assertPositiveMoney`.
pub assert_declared : List Declared → Action (Unit {0})
assert_declared [] = pure tt
assert_declared (item ∷ rest) = assert_positive_money item.amount >> assert_declared rest

-- The loop with the set `seen`.
pub check_duplicates : List ℕ → List Declared → Action (Unit {0})
check_duplicates seen [] = pure tt
check_duplicates seen (item ∷ rest) =
    throw_when (includes item.payment_method_id seen) (code validation_error)
    >> check_duplicates (item.payment_method_id ∷ seen) rest

-- A row of the query with its `GROUP BY "paymentMethodId", "type"`.
pub record GroupRow : Type 0 where
  pub payment_method_id : ℕ
  pub type : MovementType
  pub total : ℤ

-- `SUM("amount")` of the movement's group. The order of the groups is of no matter.
pub add_to_group : CashMovement → List GroupRow → List GroupRow
add_to_group m [] =
    (record { payment_method_id = m.payment_method_id; type = m.type; total = m.amount }) ∷ []
add_to_group m (row ∷ rows) =
    if row.payment_method_id == m.payment_method_id && same_type row.type m.type
    then record row { total = row.total +ℤ m.amount } ∷ rows
    else row ∷ add_to_group m rows

pub group_rows : ℕ → List CashMovement → List GroupRow
unfolding add_to_group
group_rows session [] = []
group_rows session (m ∷ ms) =
    let rest = group_rows session ms in
    if m.cash_session_id == session then add_to_group m rest else rest

-- A `Map<string, string>` from payment methods to amounts, in the order of insertion.
abbrev pub ByMethod : Type 0
ByMethod = List (ℕ × ℤ)

-- `map.get(id) ?? ZERO_MONEY`.
pub get_or_zero : ℕ → ByMethod → ℤ
get_or_zero id [] = pos 0
get_or_zero id ((k, v) ∷ rest) = if k == id then v else get_or_zero id rest

-- `map.set(id, v)`.
pub set : ℕ → ℤ → ByMethod → ByMethod
set id v [] = (id, v) ∷ []
set id v ((k, w) ∷ rest) = if k == id then (k, v) ∷ rest else (k, w) ∷ set id v rest

abbrev pub apply_row : MovementType → ℤ → ℤ → ℤ
apply_row income current total = current +ℤ total
apply_row expense current total = current -ℤ total

-- The loop that fills `expectedByMethod`.
pub fill_expected : ByMethod → List GroupRow → ByMethod
unfolding get_or_zero set
fill_expected m [] = m
fill_expected m (row ∷ rows) =
    fill_expected
      (set row.payment_method_id
        (apply_row row.type (get_or_zero row.payment_method_id m) row.total) m)
      rows

-- The declared items whose methods the look-up has found.
pub find_methods : List Declared → List PaymentMethod → List PaymentMethod
find_methods declared methods =
    find_many (λ p. is_some (find_first (λ d. d.payment_method_id == p.id) declared)) methods

-- `paymentMethodById.has(id)`, and `paymentMethodById.get(id)?.countsAsCash`.
abbrev pub has_method : List PaymentMethod → ℕ → Bool
has_method methods id = is_some (find_first (λ p. p.id == id) methods)

pub counts_as_cash : List PaymentMethod → ℕ → Bool
counts_as_cash [] id = false
counts_as_cash (p ∷ ps) id = if p.id == id then p.counts_as_cash else counts_as_cash ps id

pub check_methods : List PaymentMethod → List Declared → Action (Unit {0})
check_methods methods [] = pure tt
check_methods methods (item ∷ rest) =
    throw_when (not (has_method methods item.payment_method_id)) (code not_found)
    >> check_methods methods rest

-- The opening amount goes to the first declared method that counts as cash.
pub add_opening : List PaymentMethod → ℤ → List Declared → ByMethod → ByMethod
unfolding set
add_opening methods opening [] expected = expected
add_opening methods opening (item ∷ rest) expected =
    let later = add_opening methods opening rest expected in
    if counts_as_cash methods item.payment_method_id
    then set item.payment_method_id (get_or_zero item.payment_method_id expected +ℤ opening)
        expected
    else later

abbrev pub declares : ℕ → List Declared → Bool
declares id declared = is_some (find_first (λ d. d.payment_method_id == id) declared)

-- The loop that pushes an item of zero for each method with movements that was not declared.
pub push_missing : ByMethod → List Declared → List Declared
push_missing [] declared = declared
push_missing ((id, v) ∷ rest) declared = push_missing rest (
    if declares id declared
    then declared
    else declared ++ (record { payment_method_id = id; amount = pos 0 }) ∷ [])

abbrev pub detail_of : ℕ → ByMethod → Declared → ClosingDetail
detail_of session expected item = record {
  cash_session_id = session;
  payment_method_id = item.payment_method_id;
  expected_amount = get_or_zero item.payment_method_id expected;
  declared_amount = item.amount;
  difference = item.amount -ℤ get_or_zero item.payment_method_id expected;
}

pub details_of : ℕ → ByMethod → List Declared → List ClosingDetail
details_of session expected [] = []
details_of session expected (item ∷ rest) =
    detail_of session expected item ∷ details_of session expected rest

-- `sumMoney` of the expected amounts of the methods in `cashMethodIds`, and of the declared ones.
pub sum_expected : List PaymentMethod → ByMethod → ℤ
sum_expected methods [] = pos 0
sum_expected methods ((id, v) ∷ rest) =
    if counts_as_cash methods id then v +ℤ sum_expected methods rest else sum_expected methods rest

pub sum_declared : List PaymentMethod → List Declared → ℤ
sum_declared methods [] = pos 0
sum_declared methods (item ∷ rest) =
    if counts_as_cash methods item.payment_method_id
    then item.amount +ℤ sum_declared methods rest
    else sum_declared methods rest

-- `CloseCashSessionResult`.
pub record CloseResult : Type 0 where
  pub session : CashSession
  pub details : List ClosingDetail
  pub difference_total : ℤ

pub sum_differences : List ClosingDetail → ℤ
sum_differences [] = pos 0
sum_differences (d ∷ ds) = d.difference +ℤ sum_differences ds

abbrev pub closed_row : ℕ → ℤ → ℤ → CashSession → CashSession
closed_row user_id expected_cash declared_cash s = record s {
  status = closed;
  closed_by = some user_id;
  expected_cash = some expected_cash;
  declared_cash = some declared_cash;
  cash_difference = some (declared_cash -ℤ expected_cash);
}

-- `expectedByMethod`, with the opening amount.
pub expected_by_method :
    List PaymentMethod → CashSession → List Declared → List CashMovement → ByMethod
unfolding group_rows fill_expected add_opening
expected_by_method methods session declared movements =
    add_opening methods session.opening_amount declared
      (fill_expected [] (group_rows session.id movements))

-- The writes of `close`, from the amounts that were computed.
pub write_closing :
    ℕ → CashSession → List PaymentMethod → ByMethod → List Declared → Action CloseResult
write_closing user_id session methods expected declared = do
  let rows = details_of session.id expected declared
  let row =
      closed_row user_id (sum_expected methods expected) (sum_declared methods declared) session
  modify (λ db. record db {
    details = db.details ++ rows;
    sessions =
        update_where (λ s. s.id == session.id)
          (closed_row user_id (sum_expected methods expected) (sum_declared methods declared))
          db.sessions;
  })
  record_audit cash_session_closed session.id (some session.branch_id)
  pure (record { session = row; details = rows; difference_total = sum_differences rows })

-- The transaction of `close`, under the lock of the session.
pub close_in : ℕ → List Declared → ℕ → Action CloseResult
unfolding write_closing check_methods find_methods
close_in user_id declared session_id = do
  row ← gets (λ db. find_first (λ s. s.id == session_id) db.sessions)
  session ← require row (code not_found)
  throw_when (not (is_open session.status)) (code cash_session_closed)
  methods ← gets (λ db. find_methods declared db.methods)
  check_methods methods declared
  expected ← gets (λ db. expected_by_method methods session declared db.movements)
  write_closing user_id session methods expected (push_missing expected declared)

abbrev pub is_pending_of : ℕ → OperationRequest → Bool
is_pending_of session_id r = r.cash_session_id == session_id && r.pending

-- `close`.
pub close : TenantContext → List Declared → Action CloseResult
unfolding check_duplicates assert_declared
close ctx declared = do
  assert_declared declared
  check_duplicates [] declared
  row ← gets (find_open_session_for_user ctx.user_id none)
  session ← require row (code no_open_cash_session)
  pending ← gets (λ db. count_where (is_pending_of session.id) db.requests)
  throw_when (ltb 0 pending) (code cash_session_has_pending_operations)
  close_in ctx.user_id declared session.id
