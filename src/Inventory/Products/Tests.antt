-- ===== src/Inventory/Products/Tests.antt =====
-- The sample gym gives its product another SKU and adds a second product.
use pulso_crm.Prelude.{◌≡◌, refl, none, some, ok, err, code, conflict, true, arith}
use pulso_crm.Prelude.Int.{pos}
use pulso_crm.Store.{Db, Product}
use pulso_crm.Store.Sample.{sample_db, sample_context, rows_of, value_of}
use pulso_crm.Inventory.Products.{
  ProductInput, ProductUpdate, product_of, create_product, update_product,
}
use pulso_crm.Inventory.Products.Distinct.{Distinct, IsCatalogue, updated, Edit-IsCatalogue}
use pulso_crm.Store.Action.{
  ◌>>=◌, gets, require, modify, throw_when, pure, lift, fresh, record_audit,
}
use pulso_crm.Inventory.{lock_product}
use pulso_crm.Store.Context.{require_branch}

abbrev drink : ProductInput
drink = record { sku = 32; cost_price = pos 50; sale_price = pos 80; is_active = true }

abbrev renamed : ProductUpdate
renamed = record { sku = some 32; cost_price = none; sale_price = none; is_active = none }

abbrev renamed_rows : Db
renamed_rows = rows_of sample_db (update_product sample_context 8 renamed sample_db)

abbrev renamed_product : Product
renamed_product = value_of (product_of 0 drink) (update_product sample_context 8 renamed sample_db)

update_run : update_product sample_context 8 renamed sample_db ≡ ok (renamed_product, renamed_rows)
unfolding ◌>>=◌ gets require modify throw_when pure lift fresh record_audit lock_product
    require_branch update_product
update_run = refl

-- The SKU is free no more.
create_taken : create_product sample_context drink renamed_rows ≡ err (code conflict)
unfolding ◌>>=◌ gets require modify throw_when pure lift fresh record_audit lock_product
    require_branch update_product create_product
create_taken = refl

sample-IsCatalogue : IsCatalogue sample_db
unfolding Distinct
sample-IsCatalogue = record { distinct = (tt, tt); known = (omega arith, tt) }

Edit-IsCatalogue_example : IsCatalogue renamed_rows
Edit-IsCatalogue_example =
    Edit-IsCatalogue sample_context sample_db renamed_rows sample-IsCatalogue
      (updated 8 renamed update_run)
