-- ===== src/Inventory/Products.antt =====
-- apps/api/src/modules/inventory/inventory.service.ts: the work of `createProduct` and `updateProduct`.
-- A name is not kept.
pub mod Distinct
mod Tests
use pulso_crm.Prelude.{
  ℕ, Bool, true, false, not, Option, none, some, List, [], ◌∷◌, ◌++◌, ◌==◌, ◌&&◌, if◌then◌else◌,
  find_first, update_where, is_some, code, conflict, not_found,
}
use pulso_crm.Prelude.Int.{ℤ}
use pulso_crm.Store.{Db, Product, product_created, product_updated}
use pulso_crm.Store.Action.{
  Action, pure, gets, lift, modify, throw_when, ◌>>=◌, ◌>>◌, fresh, record_audit,
}
use pulso_crm.Store.Context.{TenantContext, require_branch}
use pulso_crm.Inventory.{lock_product}

-- `InventoryProductInput`.
pub record ProductInput : Type 0 where
  pub sku : ℕ
  pub cost_price : ℤ
  pub sale_price : ℤ
  pub is_active : Bool

-- `InventoryProductUpdate`: the fields that are given.
pub record ProductUpdate : Type 0 where
  pub sku : Option ℕ
  pub cost_price : Option ℤ
  pub sale_price : Option ℤ
  pub is_active : Option Bool

abbrev pub given {ℓ} : {A : Type ℓ} → Option A → A → A
given none a = a
given (some b) a = b

abbrev pub product_of : ℕ → ProductInput → Product
product_of id input = record {
  id = id;
  sku = input.sku;
  sale_price = input.sale_price;
  cost_price = input.cost_price;
  is_active = input.is_active;
}

abbrev pub updated_product : ProductUpdate → Product → Product
updated_product input p = record p {
  sku = given input.sku p.sku;
  sale_price = given input.sale_price p.sale_price;
  cost_price = given input.cost_price p.cost_price;
  is_active = given input.is_active p.is_active;
}

-- Another product has the SKU: the unique index, which `mutate` turns into a conflict.
abbrev pub sku_taken : ℕ → ℕ → List Product → Bool
sku_taken id sku products = is_some (find_first (λ p. not (p.id == id) && p.sku == sku) products)

unfoldable pub create_product : TenantContext → ProductInput → Action Product
create_product ctx input = do
  branch_id ← lift (require_branch ctx none)
  id ← fresh
  taken ← gets (λ db. sku_taken id input.sku db.products)
  throw_when taken (code conflict)
  modify (λ db. record db { products = db.products ++ product_of id input ∷ [] })
  record_audit product_created id (some branch_id)
  pure (product_of id input)

unfoldable pub update_product : TenantContext → ℕ → ProductUpdate → Action Product
update_product ctx id input = do
  branch_id ← lift (require_branch ctx none)
  old ← lock_product id
  taken ← gets (λ db. sku_taken id (given input.sku old.sku) db.products)
  throw_when taken (code conflict)
  modify (λ db. record db {
    products = update_where (λ p. p.id == id) (updated_product input) db.products;
  })
  record_audit product_updated id (some branch_id)
  pure (updated_product input old)
