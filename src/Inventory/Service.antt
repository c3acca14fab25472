-- ===== src/Inventory/Service.antt =====
-- apps/api/src/modules/inventory/inventory.service.ts: the operations that change something, each with
-- its key.
mod Counted
mod Tests
use pulso_crm.Prelude.{ℕ, none, some, Option, List, Result, ok, err, ◌>>=◌}
use pulso_crm.Store.{Db}
use pulso_crm.Store.Action.{Action}
use pulso_crm.Store.Context.{TenantContext, require_branch}
use pulso_crm.Inventory.{StockChange}
use pulso_crm.Inventory.Products.{ProductInput, ProductUpdate}
use pulso_crm.Inventory.Sales.{SellRequest}
use pulso_crm.Inventory.Mutate.{
  Response, Rows, Call, mutate, adjust_work, sell_work, reverse_work, create_work, update_work,
  own_sale,
}

-- The requests that change something.
pub data Request : Type 0 where
  adjust_stock : StockChange → Request
  sell_products : SellRequest → Request
  reverse_of : ℕ → Request
  create_of : ProductInput → Request
  update_of : ℕ → ProductUpdate → Request

-- What an operation checks before `mutate`, also when the call is a repetition; then its work.
unfoldable pub work_of : TenantContext → Request → Db → Result (Action Response)
work_of ctx (adjust_stock input) db = do
  branch_id ← require_branch ctx (some input.branch_id)
  ok (adjust_work ctx input)
work_of ctx (sell_products input) db = do
  branch_id ← require_branch ctx input.branch_id
  ok (sell_work ctx input)
work_of ctx (reverse_of id) db = do own ← own_sale ctx id db; ok (reverse_work ctx id own.0)
work_of ctx (create_of input) db = do
  branch_id ← require_branch ctx none
  ok (create_work ctx input)
work_of ctx (update_of id input) db = do
  branch_id ← require_branch ctx none
  ok (update_work ctx id input)

-- `adjust`, `sell`, `reverse`, `createProduct` and `updateProduct`, with the key.
unfoldable pub serve :
    TenantContext → Call → Request → List (Rows → Rows) → Rows → Result (Response × Rows)
serve ctx call request others s = do work ← work_of ctx request s.db; mutate call work others s
