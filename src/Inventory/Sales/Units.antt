-- ===== src/Inventory/Sales/Units.antt =====
-- apps/api/src/modules/inventory/inventory.service.ts: the units of a sale's lines and items.
use pulso_crm.Prelude.{
  ℕ, ◌+◌, ◌≡◌, refl, ◌∙◌, Option, none, some, List, [], ◌∷◌, ◌==◌, ==_iff, if◌then◌else◌, leb,
  find_first, find_first-fits, Bool-cases, inl, inr, arith, code, not_found,
}
use pulso_crm.Store.{Db, SaleItem, Product}
use pulso_crm.Store.Action.{require}
use pulso_crm.Store.Action.Run.{After, After-bind, After-gets, After-throw_when, After-pure}
use pulso_crm.Inventory.{lock_product, SaleLine, insert_line, sort_lines, price_lines}
use pulso_crm.Inventory.Sales.{insert_item, sort_items}

-- The units of a product among the lines of a request, and among the items of a sale.
abbrev pub line_units : ℕ → List SaleLine → ℕ
line_units product_id [] = 0
line_units product_id (l ∷ rest) =
    (if l.product_id == product_id then l.quantity else 0) + line_units product_id rest

abbrev pub item_units : ℕ → List SaleItem → ℕ
item_units product_id [] = 0
item_units product_id (i ∷ rest) =
    (if i.product_id == product_id then i.quantity else 0) + item_units product_id rest

insert_line-units :
    (p : ℕ) (a : SaleLine) (lines : List SaleLine)
    → line_units p (insert_line a lines) ≡ line_units p (a ∷ lines)
unfolding insert_line
insert_line-units p a [] = refl
insert_line-units p a (b ∷ rest) = elim (Bool-cases (leb a.product_id b.product_id)) [
  | inl h ↦ rw h refl
  | inr h ↦ rw h (rw (insert_line-units p a rest) (omega arith))
]

pub sort_lines-units :
    (p : ℕ) (lines : List SaleLine) → line_units p (sort_lines lines) ≡ line_units p lines
unfolding sort_lines
sort_lines-units p [] = refl
sort_lines-units p (a ∷ rest) =
    insert_line-units p a (sort_lines rest) ∙ rw (sort_lines-units p rest) refl

insert_item-units :
    (p : ℕ) (a : SaleItem) (items : List SaleItem)
    → item_units p (insert_item a items) ≡ item_units p (a ∷ items)
unfolding insert_item
insert_item-units p a [] = refl
insert_item-units p a (b ∷ rest) = elim (Bool-cases (leb a.product_id b.product_id)) [
  | inl h ↦ rw h refl
  | inr h ↦ rw h (rw (insert_item-units p a rest) (omega arith))
]

pub sort_items-units :
    (p : ℕ) (items : List SaleItem) → item_units p (sort_items items) ≡ item_units p items
unfolding sort_items
sort_items-units p [] = refl
sort_items-units p (a ∷ rest) =
    insert_item-units p a (sort_items rest) ∙ rw (sort_items-units p rest) refl

-- The units at one branch count there and nowhere else.
abbrev pub at_branch : ℕ → ℕ → ℕ → ℕ
at_branch branch_id b n = if branch_id == b then n else 0

-- Pricing the lines changes no row and no number of units.
abbrev pub Priced : List SaleLine → Db → List SaleItem → Db → Type 0
Priced lines db items d = (d ≡ db) × ((p : ℕ) → item_units p items ≡ line_units p lines)

pub lock_product-After :
    (id : ℕ) (db : Db) → After (λ p d. (d ≡ db) × (p.id ≡ id)) (lock_product id db)
unfolding lock_product require
lock_product-After id db = After-gets _ _ _ db (go (find_first (λ p. p.id == id) db.products) refl)
  where
    go :
        (row : Option Product)
        → find_first (λ p. p.id == id) db.products ≡ row
        → After (λ p d. (d ≡ db) × (p.id ≡ id)) (require row (code not_found) db)
    go none e = tt
    go (some p) e = (refl, (==_iff _ _).0 (find_first-fits (λ p. p.id == id) db.products e))

pub price_lines-Priced :
    (lines : List SaleLine) (db : Db) → After (Priced lines db) (price_lines lines db)
unfolding price_lines
price_lines-Priced [] db = After-pure (Priced [] db) _ db (refl, λ p. refl)
price_lines-Priced (l ∷ rest) db =
    let Q = Priced (l ∷ rest) db in
    After-bind (λ p d. (d ≡ db) × (p.id ≡ l.product_id)) Q _ _ db
      (lock_product-After l.product_id db)
      λ product d found. After-throw_when Q _ _ _ d λ active.
        After-bind (Priced rest d) Q _ _ d (price_lines-Priced rest d) λ items d2 priced.
          After-pure Q _ d2 (priced.0 ∙ found.0, λ p. rw (found.1, priced.1 p) refl)
