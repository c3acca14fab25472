-- ===== src/Inventory/Counted.antt =====
-- apps/api/src/modules/inventory/inventory.service.ts: the stock of a product in a branch and the
-- movements that account for it.
use pulso_crm.Prelude.{
  ℕ, ◌≤◌, ◌≡◌, refl, ap, ◌∙◌, sym, true, false, Option, none, some, List, [], ◌∷◌, ◌++◌, ◌==◌, ◌&&◌,
  if◌then◌else◌, find_first, find_first-update_where, find_first-update_other, update_where,
  is_some, All, All-append, All-update_where, Bool-cases, Option-cases, inl, inr, arith,
}
use pulso_crm.Prelude.Int.{ℤ, pos, negsuc, pos_part, ◌+ℤ◌, ltb_ℤ, int_laws}
use pulso_crm.Store.{Db, Stock, StockMovement}
use pulso_crm.Store.Action.{pure, gets, modify, throw_when, ◌>>=◌}
use pulso_crm.Store.Action.Run.{After}
use pulso_crm.Inventory.{
  max_stock, is_stock_of, quantity_of, add_stock, upsert_stock, StockChange, stock_row,
  change_stock,
}

abbrev pub stock_of : ℕ → ℕ → Db → ℕ
stock_of branch_id product_id db =
    quantity_of (find_first (is_stock_of branch_id product_id) db.stocks)

-- What one movement says of a product in a branch.
abbrev pub moved_by : ℕ → ℕ → StockMovement → ℤ
moved_by branch_id product_id m =
    if m.branch_id == branch_id && m.product_id == product_id then m.quantity else pos 0

-- What the movements say.
unfoldable pub moved : ℕ → ℕ → List StockMovement → ℤ
moved branch_id product_id [] = pos 0
moved branch_id product_id (m ∷ ms) =
    moved_by branch_id product_id m +ℤ moved branch_id product_id ms

-- Every quantity is the sum of its movements, and fits a 32-bit integer.
pub record IsCounted (db : Db) : Type 0 where
  pub sums :
      (branch_id product_id : ℕ)
      → pos (stock_of branch_id product_id db) ≡ moved branch_id product_id db.stock_movements
  pub fits : All (λ s. s.quantity ≤ 2147483647) db.stocks

-- What a change adds to a product in a branch.
abbrev pub change_of : ℕ → ℕ → StockChange → ℤ
change_of branch_id product_id c =
    if c.branch_id == branch_id && c.product_id == product_id then c.quantity else pos 0

moved-append :
    (b p : ℕ) (ms : List StockMovement) (m : StockMovement)
    → moved b p (ms ++ m ∷ []) ≡ moved b p ms +ℤ moved_by b p m
unfolding moved
moved-append b p [] m = omega int_laws
moved-append b p (x ∷ ms) m = rw (moved-append b p ms m) (omega int_laws)

-- A row of nothing does not count, wherever it stands.
add_stock-same :
    (b p b' p' : ℕ) (row : Option Stock) (rows : List Stock)
    → quantity_of (find_first (is_stock_of b' p') (add_stock b p row rows))
      ≡ quantity_of (find_first (is_stock_of b' p') rows)
add_stock-same b p b' p' (some s) rows = refl
add_stock-same b p b' p' none [] = elim (Bool-cases (b == b' && p == p')) [
  | inl h ↦ rw h refl
  | inr h ↦ rw h refl
]
add_stock-same b p b' p' none (x ∷ rows) = elim (Bool-cases (is_stock_of b' p' x)) [
  | inl h ↦ rw h refl
  | inr h ↦ rw h (add_stock-same b p b' p' none rows)
]

found_after :
    (b p : ℕ) (rows : List Stock)
    → is_some (
        find_first
          (is_stock_of b p)
          (rows ++ (record { branch_id = b; product_id = p; quantity = 0 }) ∷ []))
      ≡ true
found_after b p [] = let e : (b == b && p == p) ≡ true = ground arith in rw e refl
found_after b p (x ∷ rows) = elim (Bool-cases (is_stock_of b p x)) [
  | inl h ↦ rw h refl
  | inr h ↦ rw h (found_after b p rows)
]

add_stock-found :
    (b p : ℕ) (row : Option Stock) (rows : List Stock)
    → find_first (is_stock_of b p) rows ≡ row
    → is_some (find_first (is_stock_of b p) (add_stock b p row rows)) ≡ true
add_stock-found b p (some s) rows e = rw e refl
add_stock-found b p none rows e = found_after b p rows

update_own :
    (b p n : ℕ) (rows : List Stock)
    → is_some (find_first (is_stock_of b p) rows) ≡ true
    → quantity_of (
        find_first
          (is_stock_of b p)
          (update_where (is_stock_of b p) (λ s. record s { quantity = n }) rows))
      ≡ n
update_own b p n rows h = elim (Option-cases (find_first (is_stock_of b p) rows)) [
  | inl missing ↦ cc (rw missing at h)
  | inr (s, found) ↦
      rw
        (find_first-update_where (is_stock_of b p) (λ s. record s { quantity = n }) rows (λ x k. k)
          found)
        refl
]

update_other :
    (b p b' p' n : ℕ) (rows : List Stock)
    → (b == b' && p == p') ≡ false
    → find_first
        (is_stock_of b' p')
        (update_where (is_stock_of b p) (λ s. record s { quantity = n }) rows)
      ≡ find_first (is_stock_of b' p') rows
update_other b p b' p' n rows h =
    find_first-update_other (is_stock_of b' p') (is_stock_of b p) (λ s. record s { quantity = n })
      rows (λ x k. (ground arith, ground arith))

-- A change that has been made: each quantity moves by what the change says of it, within the bounds,
-- and one movement tells of it.
pub record IsChanged (c : StockChange) (db db' : Db) : Type 0 where
  pub stocks : (b p : ℕ) → pos (stock_of b p db') ≡ pos (stock_of b p db) +ℤ change_of b p c
  pub movements :
      (b p : ℕ) → moved b p db'.stock_movements ≡ moved b p db.stock_movements +ℤ change_of b p c
  pub fits :
      All (λ s. s.quantity ≤ 2147483647) db.stocks → All (λ s. s.quantity ≤ 2147483647) db'.stocks
  pub sales : db'.sales ≡ db.sales

non_negative : (i : ℤ) → ltb_ℤ i (pos 0) ≡ false → pos (pos_part i) ≡ i
non_negative (pos n) h = refl
non_negative (negsuc n) h = ground arith

in_bounds : (i : ℤ) → ltb_ℤ max_stock i ≡ false → pos_part i ≤ 2147483647
in_bounds (pos n) h = ground arith
in_bounds (negsuc n) h = omega arith

-- The stocks after the writes of a change.
abbrev written : StockChange → Option Stock → ℕ → List Stock → List Stock
written c row n rows =
    update_where (is_stock_of c.branch_id c.product_id) (λ s. record s { quantity = n })
      (add_stock c.branch_id c.product_id row rows)

written_own :
    (c : StockChange) (row : Option Stock) (rows : List Stock) (n : ℕ)
    → find_first (is_stock_of c.branch_id c.product_id) rows ≡ row
    → pos n ≡ pos (quantity_of row) +ℤ c.quantity
    → pos (quantity_of (find_first (is_stock_of c.branch_id c.product_id) (written c row n rows)))
      ≡ pos (quantity_of (find_first (is_stock_of c.branch_id c.product_id) rows)) +ℤ c.quantity
written_own c row rows n e value =
    rw
      (update_own c.branch_id c.product_id n (add_stock c.branch_id c.product_id row rows)
        (add_stock-found c.branch_id c.product_id row rows e))
      (rw e value)

written_stocks :
    (c : StockChange) (row : Option Stock) (rows : List Stock) (n b p : ℕ)
    → find_first (is_stock_of c.branch_id c.product_id) rows ≡ row
    → pos n ≡ pos (quantity_of row) +ℤ c.quantity
    → pos (quantity_of (find_first (is_stock_of b p) (written c row n rows)))
      ≡ pos (quantity_of (find_first (is_stock_of b p) rows)) +ℤ change_of b p c
written_stocks c row rows n b p e value =
    elim (Bool-cases (c.branch_id == b && c.product_id == p)) [
      | inl own ↦
          let eb : c.branch_id ≡ b = ground arith in
          let ep : c.product_id ≡ p = ground arith in
          rw own (rw (sym eb, sym ep) (written_own c row rows n e value))
      | inr other ↦ rw other (
          ap pos (
            ap quantity_of (
              update_other c.branch_id c.product_id b p n
                (add_stock c.branch_id c.product_id row rows) other)
            ∙ add_stock-same c.branch_id c.product_id b p row rows)
          ∙ omega int_laws)
    ]

add_stock-fits :
    (b p : ℕ) (row : Option Stock) (rows : List Stock)
    → All (λ s. s.quantity ≤ 2147483647) rows
    → All (λ s. s.quantity ≤ 2147483647) (add_stock b p row rows)
add_stock-fits b p (some s) rows h = h
add_stock-fits b p none rows h = All-append (λ s. s.quantity ≤ 2147483647) rows h (omega arith)

pub change_stock-IsChanged :
    (c : StockChange) (db : Db) → After (λ r d. IsChanged c db d) (change_stock c db)
unfolding change_stock upsert_stock ◌>>=◌ gets modify pure throw_when
change_stock-IsChanged c db =
    let row = find_first (is_stock_of c.branch_id c.product_id) db.stocks in
    let next = pos (quantity_of row) +ℤ c.quantity in
    elim (Bool-cases (ltb_ℤ next (pos 0))) [
      | inl low ↦ rw low tt
      | inr enough ↦ elim (Bool-cases (ltb_ℤ max_stock next)) [
        | inl high ↦ rw (enough, high) tt
        | inr fits ↦
            rw (enough, fits)
              (record {
                stocks = λ b p.
                    written_stocks c row db.stocks (pos_part next) b p refl
                      (non_negative next enough);
                movements =
                    λ b p. moved-append b p db.stock_movements (stock_row c (pos_part next));
                fits = λ h.
                    All-update_where (λ s. s.quantity ≤ 2147483647) (λ s. s.quantity ≤ 2147483647)
                      (is_stock_of c.branch_id c.product_id)
                      (λ s. record s { quantity = pos_part next })
                      (add_stock c.branch_id c.product_id row db.stocks)
                      (λ s k old. in_bounds next fits) (λ s k old. old)
                      (add_stock-fits c.branch_id c.product_id row db.stocks h);
                sales = refl;
              })
      ]
    ]

-- A change keeps every quantity the sum of its movements and within its bounds.
pub IsChanged-IsCounted :
    (c : StockChange) (db db' : Db) → IsChanged c db db' → IsCounted db → IsCounted db'
IsChanged-IsCounted c db db' h k = record {
  sums = λ b p. h.stocks b p ∙ ap (λ x. x +ℤ change_of b p c) (k.sums b p) ∙ sym (h.movements b p);
  fits = h.fits k.fits;
}
