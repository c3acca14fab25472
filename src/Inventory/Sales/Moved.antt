-- ===== src/Inventory/Sales/Moved.antt =====
-- apps/api/src/modules/inventory/inventory.service.ts: what the loops of a sale do to stock.
use pulso_crm.Prelude.{
  ℕ, ◌+◌, ◌≡◌, refl, ap, subst, Option, none, some, List, [], ◌∷◌, ◌==◌, if◌then◌else◌, find_first,
  Bool-cases, inl, inr, arith, Error,
}
use pulso_crm.Prelude.Int.{ℤ, pos, pos_part, neg_part, ◌+ℤ◌, neg, int_laws}
use pulso_crm.Store.{Db, SaleItem, CashMovement, CashConcept, inventory_sale}
use pulso_crm.Store.Action.{pure, require, gets, modify, ◌>>=◌, fresh}
use pulso_crm.Store.Action.Run.{
  After, After-map, After-bind, After-gets, After-throw_when, After-modify, After-fresh, After-pure,
}
use pulso_crm.Cash.{NewMovement, same_code}
use pulso_crm.Inventory.{
  lock_own_session, create_sale_concept, upsert_sale_concept, insert_cash_movement,
}
use pulso_crm.Inventory.Counted.{stock_of, IsChanged, change_stock-IsChanged}
use pulso_crm.Inventory.Sales.Units.{item_units, at_branch, lock_product-After}
use pulso_crm.Inventory.Sales.{sold_change, sell_items, create_sale, returned_change, return_items}

pub taken :
    (branch_id sale_id b p : ℕ) (item : SaleItem) (db d : Db)
    → IsChanged (sold_change branch_id sale_id item) db d
    → stock_of b p db
      ≡ stock_of b p d + at_branch branch_id b (if item.product_id == p then item.quantity else 0)
taken branch_id sale_id b p item db d h =
    let e = h.stocks b p in
    elim (Bool-cases (branch_id == b)) [
      | inr other ↦ rw other (
          let e2 : pos (stock_of b p d) ≡ pos (stock_of b p db) +ℤ pos 0 = rw other at e in
          omega (ap pos_part e2, ap neg_part e2, int_laws))
      | inl own ↦ rw own (elim (Bool-cases (item.product_id == p)) [
        | inl fits ↦ rw fits (
            let e2 : pos (stock_of b p d) ≡ pos (stock_of b p db) +ℤ neg (pos item.quantity) =
              rw (own, fits) at e in
            omega (ap pos_part e2, ap neg_part e2, int_laws))
        | inr misfit ↦ rw misfit (
            let e2 : pos (stock_of b p d) ≡ pos (stock_of b p db) +ℤ pos 0 =
              rw (own, misfit) at e in
            omega (ap pos_part e2, ap neg_part e2, int_laws))
      ])
    ]

pub put_back :
    (branch_id sale_id b p : ℕ) (item : SaleItem) (db d : Db)
    → IsChanged (returned_change branch_id sale_id item) db d
    → stock_of b p d
      ≡ stock_of b p db + at_branch branch_id b (if item.product_id == p then item.quantity else 0)
put_back branch_id sale_id b p item db d h =
    let e = h.stocks b p in
    elim (Bool-cases (branch_id == b)) [
      | inr other ↦ rw other (
          let e2 : pos (stock_of b p d) ≡ pos (stock_of b p db) +ℤ pos 0 = rw other at e in
          omega (ap pos_part e2, ap neg_part e2, int_laws))
      | inl own ↦ rw own (elim (Bool-cases (item.product_id == p)) [
        | inl fits ↦ rw fits (
            let e2 : pos (stock_of b p d) ≡ pos (stock_of b p db) +ℤ pos item.quantity =
              rw (own, fits) at e in
            omega (ap pos_part e2, ap neg_part e2, int_laws))
        | inr misfit ↦ rw misfit (
            let e2 : pos (stock_of b p d) ≡ pos (stock_of b p db) +ℤ pos 0 =
              rw (own, misfit) at e in
            omega (ap pos_part e2, ap neg_part e2, int_laws))
      ])
    ]

pub at_branch-sum : (k b m n : ℕ) → at_branch k b (m + n) ≡ at_branch k b m + at_branch k b n
at_branch-sum k b m n = elim (Bool-cases (k == b)) [ inl h ↦ rw h refl | inr h ↦ rw h refl ]

-- Every stock is lower, or higher, by these units at the branch.
abbrev pub Lowered : ℕ → (ℕ → ℕ) → Db → Db → Type 0
Lowered branch_id units db d =
    (b p : ℕ) → stock_of b p db ≡ stock_of b p d + at_branch branch_id b (units p)

pub sell_items-Lowered :
    (branch_id sale_id : ℕ) (items : List SaleItem) (db : Db)
    → After
        (λ u d. Lowered branch_id (λ p. item_units p items) db d)
        (sell_items branch_id sale_id items db)
unfolding sell_items pure
sell_items-Lowered branch_id sale_id [] db = λ b p. elim (Bool-cases (branch_id == b)) [
  | inl h ↦ rw h (omega arith)
  | inr h ↦ rw h (omega arith)
]
sell_items-Lowered branch_id sale_id (item ∷ rest) db =
    let Q : Unit {0} → Db → Type 0 =
      λ u d. Lowered branch_id (λ p. item_units p (item ∷ rest)) db d in
    After-modify Q _ _ db (
      After-bind (λ r d. IsChanged (sold_change branch_id sale_id item) _ d) Q _ _ _
        (change_stock-IsChanged (sold_change branch_id sale_id item) _)
        λ r d h.
          After-map (λ u d2. Lowered branch_id (λ p. item_units p rest) d d2) Q _
            (λ u d2 later b p.
              let first = taken branch_id sale_id b p item _ d h in
              let next = later b p in
              rw
                (at_branch-sum branch_id b (if item.product_id == p then item.quantity else 0)
                  (item_units p rest))
                (omega (arith, first, next)))
            (sell_items-Lowered branch_id sale_id rest d))

pub return_items-Lowered :
    (branch_id sale_id : ℕ) (items : List SaleItem) (db : Db)
    → After
        (λ u d. Lowered branch_id (λ p. item_units p items) d db)
        (return_items branch_id sale_id items db)
unfolding return_items pure
return_items-Lowered branch_id sale_id [] db = λ b p. elim (Bool-cases (branch_id == b)) [
  | inl h ↦ rw h (omega arith)
  | inr h ↦ rw h (omega arith)
]
return_items-Lowered branch_id sale_id (item ∷ rest) db =
    let Q : Unit {0} → Db → Type 0 =
      λ u d. Lowered branch_id (λ p. item_units p (item ∷ rest)) d db in
    After-bind (λ p d. (d ≡ db) × (p.id ≡ item.product_id)) Q _ _ db
      (lock_product-After item.product_id db)
      λ product d0 found.
        After-bind (λ r d. IsChanged (returned_change branch_id sale_id item) d0 d) Q _ _ _
          (change_stock-IsChanged (returned_change branch_id sale_id item) d0)
          λ r d h.
            After-map (λ u d2. Lowered branch_id (λ p. item_units p rest) d2 d) Q _
              (λ u d2 later b p.
                let first : stock_of b p d
                    ≡ stock_of b p db
                      + at_branch branch_id b (if item.product_id == p then item.quantity else 0) =
                  subst
                    (λ x.
                      stock_of b p d
                      ≡ stock_of b p x
                        + at_branch branch_id b (if item.product_id == p then item.quantity else 0))
                    found.0 (put_back branch_id sale_id b p item d0 d h) in
                let next = later b p in
                rw
                  (at_branch-sum branch_id b (if item.product_id == p then item.quantity else 0)
                    (item_units p rest))
                  (omega (arith, first, next)))
              (return_items-Lowered branch_id sale_id rest d)

-- The steps of a sale beside its items leave the stocks alone.
abbrev pub SameStocks : Db → Db → Type 0
SameStocks db d = d.stocks ≡ db.stocks

pub find-same :
    {A : Type 0} (row : Option A) (e : Error) (db : Db)
    → After (λ (a : A) d. d ≡ db) (require row e db)
unfolding require
find-same none e db = tt
find-same (some a) e db = refl

pub lock_own_session-same :
    (user_id branch_id : ℕ) (db : Db)
    → After (λ s d. d ≡ db) (lock_own_session user_id branch_id db)
unfolding lock_own_session ◌>>=◌ gets
lock_own_session-same user_id branch_id db = find-same _ _ db

pub create_sale-same :
    (branch_id movement_id : ℕ) (total : ℤ) (db : Db)
    → After (λ i d. SameStocks db d) (create_sale branch_id movement_id total db)
unfolding create_sale ◌>>=◌ fresh modify pure
create_sale-same branch_id movement_id total db = refl

pub upsert_sale_concept-same : (db : Db) → After (λ c d. SameStocks db d) (upsert_sale_concept db)
unfolding upsert_sale_concept ◌>>=◌ gets
upsert_sale_concept-same db = go (find_first (λ c. same_code c.code inventory_sale) db.concepts)
  where
    go : (row : Option CashConcept) → After (λ c d. SameStocks db d) (create_sale_concept row db)
    go (some c) = After-pure (λ (c : CashConcept) d. SameStocks db d) c db refl
    go none =
        After-fresh (λ (c : CashConcept) d. SameStocks db d) _ db
          (After-modify (λ (c : CashConcept) d. SameStocks db d) _ _ _
            (After-pure (λ (c : CashConcept) d. SameStocks db d) _ _ refl))

pub insert_cash_movement-same :
    (n : NewMovement) (db : Db) → After (λ m d. SameStocks db d) (insert_cash_movement n db)
unfolding insert_cash_movement
insert_cash_movement-same n db =
    let Q : CashMovement → Db → Type 0 = λ m d. SameStocks db d in
    After-throw_when Q _ _ _ db λ positive. After-gets Q _ _ db (
      After-throw_when Q _ _ _ db
        λ untaken. After-fresh Q _ db (After-modify Q _ _ _ (After-pure Q _ _ refl)))
