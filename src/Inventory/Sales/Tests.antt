-- ===== src/Inventory/Sales/Tests.antt =====
-- The sample gym sells three units and takes them back.
use pulso_crm.Prelude.{◌≡◌, refl, some, [], ◌∷◌, ℕ, ◌+◌, false, ok, if◌then◌else◌, ◌==◌}
use pulso_crm.Prelude.Int.{pos, ◌+ℤ◌, ◌*ℤ◌, neg}
use pulso_crm.Store.{Db, Sale}
use pulso_crm.Store.Context.{require_branch}
use pulso_crm.Store.Sample.{sample_db, sample_context, rows_of, value_of}
use pulso_crm.Inventory.{
  adjust, StockChange, upsert_stock, change_stock, lock_product, lock_own_session, sort_lines,
  price_lines, sum_lines, upsert_sale_concept, insert_cash_movement,
}
use pulso_crm.Inventory.Counted.{stock_of}
use pulso_crm.Inventory.Sales.{SellRequest, sell, sale_row, reverse_sale, sell_items, create_sale}
use pulso_crm.Inventory.Sales.Units.{line_units, item_units}
use pulso_crm.Inventory.Sales.Restored.{sell-Lowered, reverse_sale-Raised, find_own}
use pulso_crm.Store.Action.{
  ◌>>=◌, gets, require, modify, throw_when, pure, lift, fresh, record_audit,
}

abbrev sample_sell : SellRequest
sample_sell = record {
  branch_id = some 1;
  payment_method_id = 10;
  items = (record { product_id = 8; quantity = 3 }) ∷ [];
}

abbrev sell_rows : Db
sell_rows = rows_of sample_db (sell sample_context sample_sell sample_db)

abbrev sell_value : Sale
sell_value = value_of (sale_row 0 0 0 (pos 0)) (sell sample_context sample_sell sample_db)

sell_run : sell sample_context sample_sell sample_db ≡ ok (sell_value, sell_rows)
unfolding ◌>>=◌ gets require modify throw_when pure lift fresh record_audit ◌+ℤ◌ ◌*ℤ◌ neg
    upsert_stock change_stock lock_product lock_own_session sort_lines price_lines sum_lines
    upsert_sale_concept insert_cash_movement sell_items create_sale sell require_branch
sell_run = refl

sell_total : sell_value.total ≡ pos 450
unfolding ◌>>=◌ gets require modify throw_when pure lift fresh record_audit ◌+ℤ◌ ◌*ℤ◌ neg
    upsert_stock change_stock lock_product lock_own_session sort_lines price_lines sum_lines
    upsert_sale_concept insert_cash_movement sell_items create_sale sell require_branch
sell_total = refl

sell-Lowered_example :
    (branch_id : ℕ) × (require_branch sample_context (some 1) ≡ ok branch_id)
    × ((b p : ℕ)
        → stock_of b p sample_db
          ≡ stock_of b p sell_rows + (if branch_id == b then line_units p sample_sell.items else 0))
sell-Lowered_example = sell-Lowered sample_context sample_sell sample_db sell_run

abbrev reverse_rows : Db
reverse_rows = rows_of sell_rows (reverse_sale sample_context sell_value.id sell_rows)

reverse_run : reverse_sale sample_context sell_value.id sell_rows ≡ ok (tt, reverse_rows)
unfolding ◌>>=◌ gets require modify throw_when pure lift fresh record_audit ◌+ℤ◌ ◌*ℤ◌ neg
    upsert_stock change_stock lock_product lock_own_session sort_lines price_lines sum_lines
    upsert_sale_concept insert_cash_movement sell_items create_sale sell
    pulso_crm.Inventory.Sales.find_sale pulso_crm.Inventory.Sales.movement_of_sale
    pulso_crm.Inventory.Sales.sort_items pulso_crm.Inventory.Sales.return_items
    pulso_crm.Inventory.Sales.reverse_sale_in pulso_crm.Inventory.Sales.reverse_sale require_branch
reverse_run = refl

reverse_sale-Raised_example :
    (s : Sale) × (find_own sample_context sell_value.id sell_rows ≡ some s)
    × (s.reversed ≡ false)
    × ((b p : ℕ)
        → stock_of b p reverse_rows
          ≡ stock_of b p sell_rows + (if s.branch_id == b then item_units p s.items else 0))
reverse_sale-Raised_example = reverse_sale-Raised sample_context sell_value.id sell_rows reverse_run
