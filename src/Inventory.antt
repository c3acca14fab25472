-- ===== src/Inventory.antt =====
-- apps/api/src/modules/inventory/inventory.service.ts: the work of a transaction on stock. `mutate`,
-- which runs it once per idempotency key and retries it, is around these functions.
pub mod Counted
pub mod Sales
pub mod Products
pub mod Mutate
pub mod Service
use pulso_crm.Prelude.{
  ℕ, zero, ◌+◌, Bool, true, false, not, Option, none, some, List, [], ◌∷◌, ◌++◌, ◌==◌, ◌&&◌, ◌||◌,
  leb, if◌then◌else◌, find_first, update_where, is_some, includes, code, failure, conflict,
  not_found, no_open_cash_session,
}
use pulso_crm.Prelude.Int.{ℤ, pos, pos_part, ◌+ℤ◌, ◌*ℤ◌, neg, ltb_ℤ, leb_ℤ}
use pulso_crm.Store.{
  Db, Stock, StockMovement, StockMovementType, restock, adjustment, sale, reversal, Product, Sale,
  SaleItem, CashMovement, CashSession, CashConcept, inventory_sale, MovementType, income, expense,
  stock_adjusted, product_sold, product_sale_reversed, cash_movement_created,
  cash_movement_reversed,
}
use pulso_crm.Store.Action.{
  Action, pure, gets, lift, require, modify, throw_when, ◌>>=◌, ◌>>◌, fresh, record_audit,
}
use pulso_crm.Store.Context.{TenantContext, require_branch}
use pulso_crm.Cash.{is_open, find_method, NewMovement, movement_of, reversal_taken, same_code}

abbrev pub max_stock : ℤ
max_stock = pos 2147483647

-- `MAX_MONEY`, in cents.
abbrev pub max_money : ℤ
max_money = pos 99999999999999

abbrev pub is_stock_of : ℕ → ℕ → Stock → Bool
is_stock_of branch_id product_id s = s.branch_id == branch_id && s.product_id == product_id

-- The row that the upsert finds or creates.
abbrev pub quantity_of : Option Stock → ℕ
quantity_of none = 0
quantity_of (some s) = s.quantity

abbrev pub add_stock : ℕ → ℕ → Option Stock → List Stock → List Stock
add_stock branch_id product_id none rows =
    rows ++ (record { branch_id = branch_id; product_id = product_id; quantity = 0 }) ∷ []
add_stock branch_id product_id (some s) rows = rows

-- `tx.inventoryStock.upsert` with an empty update.
unfoldable pub upsert_stock : ℕ → ℕ → Action ℕ
upsert_stock branch_id product_id = do
  row ← gets (λ db. find_first (is_stock_of branch_id product_id) db.stocks)
  modify (λ db. record db { stocks = add_stock branch_id product_id row db.stocks })
  pure (quantity_of row)

-- The input of `changeStock`, less its reason.
pub record StockChange : Type 0 where
  pub branch_id : ℕ
  pub product_id : ℕ
  pub quantity : ℤ
  pub type : StockMovementType
  pub sale_id : Option ℕ

abbrev pub stock_row : StockChange → ℕ → StockMovement
stock_row input next = record {
  branch_id = input.branch_id;
  product_id = input.product_id;
  sale_id = input.sale_id;
  type = input.type;
  quantity = input.quantity;
  balance_after = next;
}

unfoldable pub change_stock : StockChange → Action StockMovement
change_stock input = do
  stock ← upsert_stock input.branch_id input.product_id
  let next = pos stock +ℤ input.quantity
  throw_when (ltb_ℤ next (pos 0)) (code conflict)
  throw_when (ltb_ℤ max_stock next) (code conflict)
  modify (λ db. record db {
    stocks =
        update_where (is_stock_of input.branch_id input.product_id)
          (λ s. record s { quantity = pos_part next }) db.stocks;
    stock_movements = db.stock_movements ++ stock_row input (pos_part next) ∷ [];
  })
  pure (stock_row input (pos_part next))

-- `lockProduct`.
unfoldable pub lock_product : ℕ → Action Product
lock_product id = do
  row ← gets (λ db. find_first (λ p. p.id == id) db.products)
  require row (code not_found)

-- `lockOwnSession`.
unfoldable pub lock_own_session : ℕ → ℕ → Action CashSession
lock_own_session user_id branch_id = do
  row ← gets (λ db.
      find_first (λ s. s.branch_id == branch_id && (s.opened_by == user_id && is_open s.status))
        db.sessions)
  require row (code no_open_cash_session)

-- `adjust`: a restock or an adjustment by hand.
pub adjust : TenantContext → StockChange → Action StockMovement
adjust ctx input = do
  branch_id ← lift (require_branch ctx (some input.branch_id))
  product ← lock_product input.product_id
  row ← change_stock (record input { branch_id = branch_id })
  record_audit stock_adjusted input.product_id (some branch_id)
  pure row

-- An item of `InventorySaleInput`.
pub record SaleLine : Type 0 where
  pub product_id : ℕ
  pub quantity : ℕ

-- `sort((a, b) => a.productId.localeCompare(b.productId))`, which keeps the order of equals.
pub insert_line : SaleLine → List SaleLine → List SaleLine
insert_line a [] = a ∷ []
insert_line a (b ∷ rest) =
    if leb a.product_id b.product_id then a ∷ b ∷ rest else b ∷ insert_line a rest

pub sort_lines : List SaleLine → List SaleLine
unfolding insert_line
sort_lines [] = []
sort_lines (a ∷ rest) = insert_line a (sort_lines rest)

abbrev pub item_of : Product → ℕ → SaleItem
item_of p quantity = record {
  product_id = p.id;
  quantity = quantity;
  unit_price = p.sale_price;
  unit_cost = p.cost_price;
  line_total = p.sale_price *ℤ pos quantity;
}

-- The loop that locks the products and freezes their prices.
pub price_lines : List SaleLine → Action (List SaleItem)
price_lines [] = pure []
price_lines (line ∷ rest) = do
  product ← lock_product line.product_id
  throw_when (not product.is_active) (code conflict)
  items ← price_lines rest
  pure (item_of product line.quantity ∷ items)

pub sum_lines : List SaleItem → ℤ
sum_lines [] = pos 0
sum_lines (i ∷ items) = i.line_total +ℤ sum_lines items

pub create_sale_concept : Option CashConcept → Action CashConcept
create_sale_concept (some concept) = pure concept
create_sale_concept none = do
  id ← fresh
  let concept : CashConcept = record {
    id = id;
    code = inventory_sale;
    type = income;
    is_active = true;
  }
  modify (λ db. record db { concepts = db.concepts ++ concept ∷ [] })
  pure concept

-- `tx.cashConcept.upsert` with an empty update.
unfoldable pub upsert_sale_concept : Action CashConcept
unfolding create_sale_concept
upsert_sale_concept = do
  row ← gets (λ db. find_first (λ c. same_code c.code inventory_sale) db.concepts)
  create_sale_concept row

abbrev pub is_income : MovementType → Bool
is_income income = true
is_income expense = false

-- `tx.cashMovement.create`. The table's check `amount > 0` is not translated here; a second row
-- against the unique index on `reversalOfId` is a conflict (`mutate`).
unfoldable pub insert_cash_movement : NewMovement → Action CashMovement
insert_cash_movement n = do
  throw_when (leb_ℤ n.amount (pos 0)) failure
  taken ← gets (λ db. reversal_taken n.reversal_of_id db.movements)
  throw_when taken (code conflict)
  id ← fresh
  modify (λ db. record db { movements = db.movements ++ movement_of id n ∷ [] })
  pure (movement_of id n)
