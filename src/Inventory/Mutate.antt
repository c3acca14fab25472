-- ===== src/Inventory/Mutate.antt =====
-- apps/api/src/modules/inventory/inventory.service.ts: `mutate`, with the works that it is given. The
-- fingerprint (SHA-256 of the operation, its user and its input) is a number that is only compared; of
-- the key, its lengths are kept.
pub mod Once
mod Tests
use pulso_crm.Prelude.{
  ℕ, ◌+◌, Bool, true, false, not, Option, none, some, List, [], ◌∷◌, ◌++◌, ◌==◌, ◌||◌, ltb,
  if◌then◌else◌, find_first, Result, ok, err, code, conflict, idempotency_key_required,
  idempotency_key_reused,
}
use pulso_crm.Store.{Db, Sale, StockMovement, CashMovement, Product}
use pulso_crm.Store.Action.{Action, pure, ◌>>=◌, ◌>>◌}
use pulso_crm.Store.Context.{TenantContext, require_branch}
use pulso_crm.Inventory.{StockChange, adjust}
use pulso_crm.Inventory.Products.{ProductInput, ProductUpdate, create_product, update_product}
use pulso_crm.Inventory.Sales.{SellRequest, sell, find_sale, movement_of_sale, reverse_sale_in}

-- The stored results, before they are serialized.
pub data Response : Type 0 where
  stock_adjusted : StockMovement → Response
  sold : Sale → Response
  sale_reversed : ℕ → Response
  product_saved : Product → Response

pub record Operation : Type 0 where
  pub key : ℕ
  pub fingerprint : ℕ
  pub response : Response

-- The rows of the gym with its table of operations.
pub record Rows : Type 0 where
  pub db : Db
  pub operations : List Operation

-- The arguments `key`, `operation` and `input`.
pub record Call : Type 0 where
  pub key : ℕ
  pub key_length : ℕ
  pub trimmed_length : ℕ
  pub fingerprint : ℕ

-- `tx.inventoryOperation.findFirst({ where: { key } })`.
abbrev pub find_operation : ℕ → Rows → Option Operation
find_operation key s = find_first (λ o. o.key == key) s.operations

abbrev pub operation_of : Call → Response → Operation
operation_of call response = record {
  key = call.key;
  fingerprint = call.fingerprint;
  response = response;
}

-- `tx.inventoryOperation.create`, after the work.
unfoldable pub record_operation : Call → Result (Response × Db) → Rows → Result (Response × Rows)
record_operation call (ok (response, db)) s =
    ok (response, record { db = db; operations = s.operations ++ operation_of call response ∷ [] })
record_operation call (err e) s = err e

-- What is done with the operation that has the key.
unfoldable pub replay_or_run :
    Call → Action Response → Option Operation → Rows → Result (Response × Rows)
replay_or_run call fn (some previous) s =
    if not (previous.fingerprint == call.fingerprint)
    then err (code idempotency_key_reused)
    else ok (previous.response, s)
replay_or_run call fn none s = record_operation call (fn s.db) s

-- The transaction of one attempt.
unfoldable pub run_once : Call → Action Response → Rows → Result (Response × Rows)
run_once call fn s = replay_or_run call fn (find_operation call.key s) s

-- The loop from an attempt on. A transaction of others that commits at the same time aborts an attempt,
-- with a serialization failure, a deadlock or the unique index on the key; the next attempt begins on
-- the rows that it has left.
unfoldable pub attempts :
    Call → Action Response → ℕ → List (Rows → Rows) → Rows → Result (Response × Rows)
attempts call fn attempt [] s = run_once call fn s
attempts call fn attempt (commit ∷ others) s =
    if ltb attempt 7 then attempts call fn (attempt + 1) others (commit s) else err (code conflict)

unfoldable pub mutate :
    Call → Action Response → List (Rows → Rows) → Rows → Result (Response × Rows)
mutate call fn others s =
    if ltb call.trimmed_length 8 || ltb 200 call.key_length
    then err (code idempotency_key_required)
    else attempts call fn 0 others s

unfoldable pub adjust_work : TenantContext → StockChange → Action Response
adjust_work ctx input = do row ← adjust ctx input; pure (stock_adjusted row)

unfoldable pub sell_work : TenantContext → SellRequest → Action Response
sell_work ctx input = do row ← sell ctx input; pure (sold row)

unfoldable pub reverse_work : TenantContext → ℕ → Sale × CashMovement → Action Response
reverse_work ctx id own = do reverse_sale_in ctx id own.0 own.1; pure (sale_reversed id)

unfoldable pub create_work : TenantContext → ProductInput → Action Response
create_work ctx input = do row ← create_product ctx input; pure (product_saved row)

unfoldable pub update_work : TenantContext → ℕ → ProductUpdate → Action Response
update_work ctx id input = do row ← update_product ctx id input; pure (product_saved row)

-- What `reverse` reads before its transaction.
unfoldable pub own_sale : TenantContext → ℕ → Action (Sale × CashMovement)
own_sale ctx id = do own ← find_sale ctx id; own_cash ← movement_of_sale own; pure (own, own_cash)
