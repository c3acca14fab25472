-- ===== src/Inventory/Sales/Restored.antt =====
-- apps/api/src/modules/inventory/inventory.service.ts: the stocks after `sell` and `reverse`.
use pulso_crm.Prelude.{
  ℕ, ◌+◌, ◌≡◌, refl, ap, ◌∙◌, sym, subst, false, Option, none, some, ◌==◌, ◌&&◌, if◌then◌else◌,
  find_first, arith, ok, includes, code, not_found,
}
use pulso_crm.Store.{Db, Sale}
use pulso_crm.Store.Action.{require, gets, ◌>>=◌, record_audit}
use pulso_crm.Store.Action.Run.{
  After, After-ok, After-bind, After-gets, After-lift, After-require, After-throw_when,
  After-modify, After-record_audit, After-pure,
}
use pulso_crm.Store.Context.{TenantContext, require_branch}
use pulso_crm.Inventory.{quantity_of, is_stock_of, sort_lines}
use pulso_crm.Inventory.Counted.{stock_of}
use pulso_crm.Inventory.Sales.Units.{
  line_units, item_units, at_branch, sort_lines-units, sort_items-units, Priced, price_lines-Priced,
}
use pulso_crm.Inventory.Sales.{
  SellRequest, sell, find_sale, movement_of_sale, sort_items, reverse_sale_in, reverse_sale,
}
use pulso_crm.Inventory.Sales.Moved.{
  Lowered, sell_items-Lowered, return_items-Lowered, SameStocks, find-same, lock_own_session-same,
  create_sale-same, upsert_sale_concept-same, insert_cash_movement-same,
}

-- A sale that succeeds takes its lines from the stock of the branch that the request names or that
-- is active, and leaves every other stock as it is.
pub sell-Lowered :
    (ctx : TenantContext) (input : SellRequest) (db : Db) {s : Sale} {db' : Db}
    → sell ctx input db ≡ ok (s, db')
    → (branch_id : ℕ) × (require_branch ctx input.branch_id ≡ ok branch_id)
      × ((b p : ℕ)
          → stock_of b p db
            ≡ stock_of b p db' + (if branch_id == b then line_units p input.items else 0))
unfolding sell
sell-Lowered ctx input db e =
    let Q : Sale → Db → Type 0 = λ s d.
      (branch_id : ℕ) × (require_branch ctx input.branch_id ≡ ok branch_id)
      × ((b p : ℕ)
          → stock_of b p db ≡ stock_of b p d + at_branch branch_id b (line_units p input.items)) in
    After-ok Q
      (After-lift Q (require_branch ctx input.branch_id) _ db λ branch_id chosen.
        After-bind (λ u d. d ≡ db) Q _ _ db (lock_own_session-same _ _ db)
          λ session d0 e0. After-gets Q _ _ d0 (
            After-require Q _ _ _ d0 λ method found.
              After-bind (Priced (sort_lines input.items) d0) Q _ _ d0
                (price_lines-Priced (sort_lines input.items) d0)
                λ items d1 priced. After-throw_when Q _ _ _ d1 λ in_bounds.
                  After-bind (λ c d. SameStocks d1 d) Q _ _ d1 (upsert_sale_concept-same d1)
                    λ concept d2 e2. After-throw_when Q _ _ _ d2 λ usable.
                      After-bind (λ m d. SameStocks d2 d) Q _ _ d2 (insert_cash_movement-same _ d2)
                        λ cash d3 e3.
                          After-bind (λ i d. SameStocks d3 d) Q _ _ d3 (create_sale-same _ _ _ d3)
                            λ sale_id d4 e4.
                              After-bind (λ u d. Lowered branch_id (λ p. item_units p items) d4 d) Q
                                _ _ d4 (sell_items-Lowered branch_id sale_id items d4)
                                λ u d5 lowered. After-gets Q _ _ d5 (
                                  After-require Q _ _ _ d5 λ sold found_again.
                                    After-record_audit Q _ _ _ _ d5 λ events.
                                      After-record_audit Q _ _ _ _ _ λ events2. After-pure Q _ _ (
                                        branch_id,
                                        chosen,
                                        λ b p.
                                            let kept : d4.stocks ≡ db.stocks =
                                              e4 ∙ e3 ∙ e2 ∙ ap (λ d. d.stocks) (priced.0 ∙ e0) in
                                            let units : item_units p items
                                                ≡ line_units p input.items =
                                              priced.1 p ∙ sort_lines-units p input.items in
                                            ap
                                              (λ rows.
                                                quantity_of (find_first (is_stock_of b p) rows))
                                              (sym kept)
                                            ∙ lowered b p
                                            ∙ ap (λ n. stock_of b p d5 + at_branch branch_id b n)
                                                units,
                                      ))))
      e

movement_of_sale-same : (s : Sale) (db : Db) → After (λ m d. d ≡ db) (movement_of_sale s db)
unfolding movement_of_sale ◌>>=◌ gets
movement_of_sale-same s db = find-same _ _ db

-- A sale that a reversal reads, before it began and under its locks.
abbrev pub find_own : TenantContext → ℕ → Db → Option Sale
find_own ctx id db = find_first (λ s. s.id == id && includes s.branch_id ctx.branch_ids) db.sales

find_sale-found :
    (ctx : TenantContext) (id : ℕ) (db : Db)
    → After (λ s d. (d ≡ db) × (find_own ctx id db ≡ some s)) (find_sale ctx id db)
unfolding find_sale require
find_sale-found ctx id db =
    let Q : Sale → Db → Type 0 = λ s d. (d ≡ db) × (find_own ctx id db ≡ some s) in
    After-gets Q _ _ db (go (find_own ctx id db) refl)
  where
    go :
        (row : Option Sale)
        → find_own ctx id db ≡ row
        → After (λ s d. (d ≡ db) × (find_own ctx id db ≡ some s)) (require row (code not_found) db)
    go none e = tt
    go (some s) e = (refl, e)

-- The reversal of a sale that succeeds puts the items of the sale back to the stock of its branch,
-- and leaves every other stock as it is; the sale was not reversed before.
pub reverse_sale-Raised :
    (ctx : TenantContext) (id : ℕ) (db : Db) {db' : Db}
    → reverse_sale ctx id db ≡ ok (tt, db')
    → (s : Sale) × (find_own ctx id db ≡ some s)
      × (s.reversed ≡ false)
      × ((b p : ℕ)
          → stock_of b p db'
            ≡ stock_of b p db + (if s.branch_id == b then item_units p s.items else 0))
unfolding reverse_sale reverse_sale_in record_audit
reverse_sale-Raised ctx id db e =
    let Q : Unit {0} → Db → Type 0 = λ u d.
      (s : Sale) × (find_own ctx id db ≡ some s)
      × (s.reversed ≡ false)
      × ((b p : ℕ)
          → stock_of b p d ≡ stock_of b p db + at_branch s.branch_id b (item_units p s.items)) in
    After-ok Q
      (After-bind (λ s d. (d ≡ db) × (find_own ctx id db ≡ some s)) Q _ _ db
        (find_sale-found ctx id db)
        λ own d0 e0.
          After-bind (λ m d. d ≡ d0) Q _ _ d0 (movement_of_sale-same own d0)
            λ own_cash d1 e1.
              After-bind (λ s d. d ≡ d1) Q _ _ d1 (lock_own_session-same _ _ d1)
                λ session d2 e2. After-throw_when Q _ _ _ d2 λ own_session.
                  After-bind (λ s d. (d ≡ d2) × (find_own ctx id d2 ≡ some s)) Q _ _ d2
                    (find_sale-found ctx id d2)
                    λ sold d3 e3.
                      After-bind (λ m d. d ≡ d3) Q _ _ d3 (movement_of_sale-same sold d3)
                        λ original d4 e4. After-throw_when Q _ _ _ d4 λ fresh_sale.
                          After-bind
                            (λ u d.
                              Lowered sold.branch_id (λ p. item_units p (sort_items sold.items)) d
                                d4)
                            Q _ _ d4
                            (return_items-Lowered sold.branch_id id (sort_items sold.items) d4)
                            λ u d5 raised.
                              After-bind (λ m d. SameStocks d5 d) Q _ _ d5
                                (insert_cash_movement-same _ d5)
                                λ reversing d6 e6. After-modify Q _ _ d6 (
                                  After-modify Q _ _ _ (
                                    After-record_audit Q _ _ _ _ _ λ events.
                                      let at_end : d4 ≡ db = e4 ∙ e3.0 ∙ e2 ∙ e1 ∙ e0.0 in
                                      let read : d2 ≡ db = e2 ∙ e1 ∙ e0.0 in
                                      (
                                        sold,
                                        subst (λ x. find_own ctx id x ≡ some sold) read e3.1,
                                        ground arith,
                                        λ b p.
                                            ap
                                              (λ rows.
                                                quantity_of (find_first (is_stock_of b p) rows))
                                              e6
                                            ∙ raised b p
                                            ∙ ap
                                                (λ d.
                                                  stock_of b p d
                                                  + at_branch sold.branch_id b
                                                      (item_units p (sort_items sold.items)))
                                                at_end
                                            ∙ ap
                                                (λ n.
                                                  stock_of b p db + at_branch sold.branch_id b n)
                                                (sort_items-units p sold.items),
                                      ))))
      e
