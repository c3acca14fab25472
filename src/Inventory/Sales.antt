-- ===== src/Inventory/Sales.antt =====
-- apps/api/src/modules/inventory/inventory.service.ts: `sell` and `reverse`.
pub mod Units
pub mod Moved
pub mod Restored
pub mod Kept
mod Tests
use pulso_crm.Prelude.{
  ℕ, ◌+◌, Bool, true, false, not, Option, none, some, List, [], ◌∷◌, ◌++◌, ◌==◌, ◌&&◌, ◌||◌, leb,
  if◌then◌else◌, find_first, update_where, includes, code, failure, conflict, not_found,
}
use pulso_crm.Prelude.Int.{ℤ, pos, neg, ltb_ℤ, leb_ℤ}
use pulso_crm.Store.{
  Db, StockMovementType, sale, reversal, Sale, SaleItem, CashMovement, income, expense,
  product_sold, product_sale_reversed, cash_movement_created, cash_movement_reversed,
}
use pulso_crm.Store.Action.{
  Action, pure, gets, lift, require, modify, throw_when, ◌>>=◌, ◌>>◌, fresh, record_audit,
}
use pulso_crm.Store.Context.{TenantContext, require_branch}
use pulso_crm.Cash.{find_method}
use pulso_crm.Inventory.{
  max_money, StockChange, change_stock, lock_product, lock_own_session, SaleLine, sort_lines,
  price_lines, sum_lines, upsert_sale_concept, is_income, insert_cash_movement,
}

-- `InventorySaleInput`.
pub record SellRequest : Type 0 where
  pub branch_id : Option ℕ
  pub payment_method_id : ℕ
  pub items : List SaleLine

-- `tx.inventorySaleItem.create`.
abbrev pub add_item : ℕ → SaleItem → Db → Db
add_item sale_id item db = record db {
  sales =
      update_where (λ s. s.id == sale_id) (λ s. record s { items = s.items ++ item ∷ [] }) db.sales;
}

abbrev pub sold_change : ℕ → ℕ → SaleItem → StockChange
sold_change branch_id sale_id item = record {
  branch_id = branch_id;
  product_id = item.product_id;
  quantity = neg (pos item.quantity);
  type = sale;
  sale_id = some sale_id;
}

-- The loop that writes the items and takes them from stock. The unique index on sale and product is not
-- modelled: the schema of the request (packages/contracts/src/inventory.ts) refuses a repeated product.
unfoldable pub sell_items : ℕ → ℕ → List SaleItem → Action (Unit {0})
sell_items branch_id sale_id [] = pure tt
sell_items branch_id sale_id (item ∷ rest) = do
  modify (add_item sale_id item)
  row ← change_stock (sold_change branch_id sale_id item)
  sell_items branch_id sale_id rest

abbrev pub sale_row : ℕ → ℕ → ℕ → ℤ → Sale
sale_row id branch_id cash_movement_id total = record {
  id = id;
  branch_id = branch_id;
  cash_movement_id = cash_movement_id;
  total = total;
  reversal_movement_id = none;
  reversed = false;
  items = [];
}

-- `tx.inventorySale.create`.
unfoldable pub create_sale : ℕ → ℕ → ℤ → Action ℕ
create_sale branch_id cash_movement_id total = do
  id ← fresh
  modify (λ db. record db { sales = db.sales ++ sale_row id branch_id cash_movement_id total ∷ [] })
  pure id

abbrev pub find_sale_row : ℕ → Db → Option Sale
find_sale_row id db = find_first (λ s. s.id == id) db.sales

-- `sell`; it returns the sale.
unfoldable pub sell : TenantContext → SellRequest → Action Sale
sell ctx input = do
  branch_id ← lift (require_branch ctx input.branch_id)
  session ← lock_own_session ctx.user_id branch_id
  method_row ← gets (find_method input.payment_method_id)
  method ← require method_row (code not_found)
  items ← price_lines (sort_lines input.items)
  let total = sum_lines items
  throw_when (ltb_ℤ max_money total) (code conflict)
  concept ← upsert_sale_concept
  throw_when (not (is_income concept.type) || not concept.is_active) (code conflict)
  cash ← insert_cash_movement (record {
    cash_session_id = session.id;
    type = income;
    amount = total;
    payment_method_id = method.id;
    cash_concept_id = concept.id;
    member_id = none;
    membership_id = none;
    reversal_of_id = none;
    created_by = ctx.user_id;
  })
  sale_id ← create_sale branch_id cash.id total
  sell_items branch_id sale_id items
  row ← gets (find_sale_row sale_id)
  sold ← require row (code not_found)
  record_audit cash_movement_created cash.id (some branch_id)
  record_audit product_sold sold.id (some branch_id)
  pure sold

-- `findSale`.
unfoldable pub find_sale : TenantContext → ℕ → Action Sale
find_sale ctx id = do
  row ← gets (λ db. find_first (λ s. s.id == id && includes s.branch_id ctx.branch_ids) db.sales)
  require row (code not_found)

-- The `cashMovement` of a sale; its foreign key says that it is there.
unfoldable pub movement_of_sale : Sale → Action CashMovement
movement_of_sale s = do
  row ← gets (λ db. find_first (λ m. m.id == s.cash_movement_id) db.movements)
  require row failure

-- The items of a sale in the order of `sort`.
pub insert_item : SaleItem → List SaleItem → List SaleItem
insert_item a [] = a ∷ []
insert_item a (b ∷ rest) =
    if leb a.product_id b.product_id then a ∷ b ∷ rest else b ∷ insert_item a rest

pub sort_items : List SaleItem → List SaleItem
unfolding insert_item
sort_items [] = []
sort_items (a ∷ rest) = insert_item a (sort_items rest)

abbrev pub returned_change : ℕ → ℕ → SaleItem → StockChange
returned_change branch_id sale_id item = record {
  branch_id = branch_id;
  product_id = item.product_id;
  quantity = pos item.quantity;
  type = reversal;
  sale_id = some sale_id;
}

-- The loop that puts the items back.
unfoldable pub return_items : ℕ → ℕ → List SaleItem → Action (Unit {0})
return_items branch_id sale_id [] = pure tt
return_items branch_id sale_id (item ∷ rest) = do
  product ← lock_product item.product_id
  row ← change_stock (returned_change branch_id sale_id item)
  return_items branch_id sale_id rest

abbrev pub mark_movement : ℕ → Db → Db
mark_movement id db = record db {
  movements = update_where (λ m. m.id == id) (λ m. record m { is_reversed = true }) db.movements;
}

abbrev pub mark_sale : ℕ → ℕ → Db → Db
mark_sale id reversal_id db = record db {
  sales =
      update_where (λ s. s.id == id)
        (λ s. record s { reversed = true; reversal_movement_id = some reversal_id }) db.sales;
}

-- The transaction of `reverse`, for the sale that was read before it.
pub reverse_sale_in : TenantContext → ℕ → Sale → CashMovement → Action (Unit {0})
reverse_sale_in ctx id own own_cash = do
  session ← lock_own_session ctx.user_id own.branch_id
  throw_when (not (session.id == own_cash.cash_session_id)) (code conflict)
  sold ← find_sale ctx id
  original ← movement_of_sale sold
  throw_when (sold.reversed || original.is_reversed) (code conflict)
  return_items sold.branch_id id (sort_items sold.items)
  reversing ← insert_cash_movement (record {
    cash_session_id = session.id;
    type = expense;
    amount = original.amount;
    payment_method_id = original.payment_method_id;
    cash_concept_id = original.cash_concept_id;
    member_id = none;
    membership_id = none;
    reversal_of_id = some original.id;
    created_by = ctx.user_id;
  })
  modify (mark_movement original.id)
  modify (mark_sale id reversing.id)
  record_audit cash_movement_reversed original.id (some sold.branch_id)
  record_audit product_sale_reversed id (some sold.branch_id)

-- `reverse`.
pub reverse_sale : TenantContext → ℕ → Action (Unit {0})
reverse_sale ctx id = do
  own ← find_sale ctx id
  own_cash ← movement_of_sale own
  reverse_sale_in ctx id own own_cash
