-- ===== src/Inventory/Sales/Kept.antt =====
-- apps/api/src/modules/inventory/inventory.service.ts: the count of the stock across `adjust`, `sell` and
-- `reverse`.
use pulso_crm.Prelude.{ℕ, ◌≡◌, Option, none, some, List, [], ◌∷◌, ok}
use pulso_crm.Prelude.Int.{ℤ}
use pulso_crm.Store.{Db, CashConcept, StockMovement, Sale, SaleItem, CashMovement}
use pulso_crm.Store.Action.Run.{After-map}
use pulso_crm.Store.Action.Frame.{
  Steps, steps, Steps-run, IsFrame, Steps-pure, Steps-gets, Steps-lift, Steps-require,
  Steps-throw_when, Steps-fresh, Steps-record_audit, Steps-modify, ◌▸◌,
}
use pulso_crm.Store.Context.{TenantContext}
use pulso_crm.Cash.{NewMovement}
use pulso_crm.Inventory.{
  StockChange, change_stock, lock_product, lock_own_session, adjust, SaleLine, price_lines,
  create_sale_concept, upsert_sale_concept, insert_cash_movement,
}
use pulso_crm.Inventory.Counted.{IsCounted, IsChanged, change_stock-IsChanged, IsChanged-IsCounted}
use pulso_crm.Inventory.Sales.{
  SellRequest, sell_items, create_sale, sell, find_sale, movement_of_sale, return_items,
  reverse_sale_in, reverse_sale, sort_items,
}

unfoldable pub KeepsCounted : Db → Db → Type 0
KeepsCounted a b = IsCounted a → IsCounted b

instance pub KeepsCounted-IsFrame : IsFrame KeepsCounted
unfolding KeepsCounted
KeepsCounted-IsFrame = record {
  reflexive = λ db h. h;
  transitive = λ a b c f g h. g (f h);
  ids = λ db n h. record { sums = h.sums; fits = h.fits };
  log = λ db events h. record { sums = h.sums; fits = h.fits };
}

change_stock-Steps : (c : StockChange) → Steps KeepsCounted (change_stock c)
unfolding KeepsCounted
change_stock-Steps c = steps (λ db.
    After-map (λ r d. IsChanged c db d) (λ r d. IsCounted db → IsCounted d) _
      (λ r d h. IsChanged-IsCounted c db d h) (change_stock-IsChanged c db))

pub lock_product-Steps : (id : ℕ) → Steps KeepsCounted (lock_product id)
unfolding lock_product
lock_product-Steps id = Steps-gets _ ▸ λ row. Steps-require row _

lock_own_session-Steps :
    (user_id branch_id : ℕ) → Steps KeepsCounted (lock_own_session user_id branch_id)
unfolding lock_own_session
lock_own_session-Steps user_id branch_id = Steps-gets _ ▸ λ row. Steps-require row _

-- The inserts into other tables.
insert_cash_movement-Steps : (n : NewMovement) → Steps KeepsCounted (insert_cash_movement n)
unfolding insert_cash_movement KeepsCounted
insert_cash_movement-Steps n = Steps-throw_when _ _ ▸ λ u. Steps-gets _ ▸ λ taken.
    Steps-throw_when _ _ ▸ λ u. Steps-fresh ▸ λ id.
    Steps-modify _ (λ db h. record { sums = h.sums; fits = h.fits }) ▸ λ u. Steps-pure _

create_sale_concept-Steps :
    (row : Option CashConcept) → Steps KeepsCounted (create_sale_concept row)
unfolding create_sale_concept KeepsCounted
create_sale_concept-Steps (some concept) = Steps-pure concept
create_sale_concept-Steps none = Steps-fresh ▸ λ id.
    Steps-modify _ (λ db h. record { sums = h.sums; fits = h.fits }) ▸ λ u. Steps-pure _

upsert_sale_concept-Steps : Steps KeepsCounted upsert_sale_concept
unfolding upsert_sale_concept
upsert_sale_concept-Steps = Steps-gets _ ▸ λ row. create_sale_concept-Steps row

create_sale-Steps :
    (branch_id movement_id : ℕ) (total : ℤ)
    → Steps KeepsCounted (create_sale branch_id movement_id total)
unfolding create_sale KeepsCounted
create_sale-Steps branch_id movement_id total = Steps-fresh ▸ λ id.
    Steps-modify _ (λ db h. record { sums = h.sums; fits = h.fits }) ▸ λ u. Steps-pure _

price_lines-Steps : (lines : List SaleLine) → Steps KeepsCounted (price_lines lines)
unfolding price_lines
price_lines-Steps [] = Steps-pure []
price_lines-Steps (line ∷ rest) = lock_product-Steps line.product_id ▸ λ product.
    Steps-throw_when _ _ ▸ λ u. price_lines-Steps rest ▸ λ items. Steps-pure _

sell_items-Steps :
    (branch_id sale_id : ℕ) (items : List SaleItem)
    → Steps KeepsCounted (sell_items branch_id sale_id items)
unfolding sell_items KeepsCounted
sell_items-Steps branch_id sale_id [] = Steps-pure tt
sell_items-Steps branch_id sale_id (item ∷ rest) =
    Steps-modify _ (λ db h. record { sums = h.sums; fits = h.fits }) ▸ λ u.
    change_stock-Steps _ ▸ λ row. sell_items-Steps branch_id sale_id rest

return_items-Steps :
    (branch_id sale_id : ℕ) (items : List SaleItem)
    → Steps KeepsCounted (return_items branch_id sale_id items)
unfolding return_items
return_items-Steps branch_id sale_id [] = Steps-pure tt
return_items-Steps branch_id sale_id (item ∷ rest) = lock_product-Steps item.product_id ▸ λ product.
    change_stock-Steps _ ▸ λ row. return_items-Steps branch_id sale_id rest

pub find_sale-Steps : (ctx : TenantContext) (id : ℕ) → Steps KeepsCounted (find_sale ctx id)
unfolding find_sale
find_sale-Steps ctx id = Steps-gets _ ▸ λ row. Steps-require row _

pub movement_of_sale-Steps : (s : Sale) → Steps KeepsCounted (movement_of_sale s)
unfolding movement_of_sale
movement_of_sale-Steps s = Steps-gets _ ▸ λ row. Steps-require row _

pub sell-Steps : (ctx : TenantContext) (input : SellRequest) → Steps KeepsCounted (sell ctx input)
unfolding sell
sell-Steps ctx input = Steps-lift _ ▸ λ branch_id. lock_own_session-Steps _ _ ▸ λ session.
    Steps-gets _ ▸ λ row. Steps-require row _ ▸ λ method. price_lines-Steps _ ▸ λ items.
    Steps-throw_when _ _ ▸ λ u. upsert_sale_concept-Steps ▸ λ concept. Steps-throw_when _ _ ▸ λ u.
    insert_cash_movement-Steps _ ▸ λ cash. create_sale-Steps _ _ _ ▸ λ sale_id.
    sell_items-Steps _ _ items ▸ λ u. Steps-gets _ ▸ λ row. Steps-require row _ ▸ λ sold.
    Steps-record_audit _ _ _ ▸ λ u. Steps-record_audit _ _ _ ▸ λ u. Steps-pure _

pub reverse_sale_in-Steps :
    (ctx : TenantContext) (id : ℕ) (own : Sale) (own_cash : CashMovement)
    → Steps KeepsCounted (reverse_sale_in ctx id own own_cash)
unfolding reverse_sale_in KeepsCounted
reverse_sale_in-Steps ctx id own own_cash = lock_own_session-Steps _ _ ▸ λ session.
    Steps-throw_when _ _ ▸ λ u. find_sale-Steps ctx id ▸ λ sold.
    movement_of_sale-Steps sold ▸ λ original. Steps-throw_when _ _ ▸ λ u.
    return_items-Steps sold.branch_id id (sort_items sold.items) ▸ λ u.
    insert_cash_movement-Steps _ ▸ λ reversing.
    Steps-modify _ (λ db h. record { sums = h.sums; fits = h.fits }) ▸ λ u.
    Steps-modify _ (λ db h. record { sums = h.sums; fits = h.fits }) ▸ λ u.
    Steps-record_audit _ _ _ ▸ λ u. Steps-record_audit _ _ _

reverse_sale-Steps : (ctx : TenantContext) (id : ℕ) → Steps KeepsCounted (reverse_sale ctx id)
unfolding reverse_sale
reverse_sale-Steps ctx id = find_sale-Steps ctx id ▸ λ own.
    movement_of_sale-Steps own ▸ λ own_cash. reverse_sale_in-Steps ctx id own own_cash

pub adjust-Steps :
    (ctx : TenantContext) (input : StockChange) → Steps KeepsCounted (adjust ctx input)
unfolding adjust
adjust-Steps ctx input = Steps-lift _ ▸ λ branch_id. lock_product-Steps _ ▸ λ product.
    change_stock-Steps _ ▸ λ row. Steps-record_audit _ _ _ ▸ λ u. Steps-pure row

-- If every stock quantity is the sum of its movements and within a 32-bit integer, the same holds after
-- a sale that succeeds.
pub sell-IsCounted :
    (ctx : TenantContext) (input : SellRequest) (db : Db) {s : Sale} {db' : Db}
    → IsCounted db
    → sell ctx input db ≡ ok (s, db')
    → IsCounted db'
unfolding KeepsCounted
sell-IsCounted ctx input db h e = Steps-run KeepsCounted (sell-Steps ctx input) db e h

-- If every stock quantity is the sum of its movements and within a 32-bit integer, the same holds after
-- the reversal of a sale that succeeds.
pub reverse_sale-IsCounted :
    (ctx : TenantContext) (id : ℕ) (db : Db) {db' : Db}
    → IsCounted db
    → reverse_sale ctx id db ≡ ok (tt, db')
    → IsCounted db'
unfolding KeepsCounted
reverse_sale-IsCounted ctx id db h e = Steps-run KeepsCounted (reverse_sale-Steps ctx id) db e h

-- If every stock quantity is the sum of its movements and within a 32-bit integer, the same holds after
-- a restock or an adjustment that succeeds.
pub adjust-IsCounted :
    (ctx : TenantContext) (input : StockChange) (db : Db) {m : StockMovement} {db' : Db}
    → IsCounted db
    → adjust ctx input db ≡ ok (m, db')
    → IsCounted db'
unfolding KeepsCounted
adjust-IsCounted ctx input db h e = Steps-run KeepsCounted (adjust-Steps ctx input) db e h
