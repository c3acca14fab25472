-- ===== src/Inventory/Products/Distinct.antt =====
-- apps/api/src/modules/inventory/inventory.service.ts: the SKUs of a gym's products.
use pulso_crm.Prelude.{
  ℕ, ◌+◌, ◌<◌, ◌≡◌, ◌≢◌, refl, sym, ap, ◌∙◌, false, not, Option, none, some, List, [], ◌∷◌, ◌++◌,
  ◌==◌, ==_iff, ◌&&◌, find_first, update_where, ok, eq_of_some, All, All-map, All-append,
  All-update_where, Bool-cases, code, not_found, inl, inr, arith,
}
use pulso_crm.Store.{Db, Product}
use pulso_crm.Store.Action.{Action, gets, require, ◌>>=◌}
use pulso_crm.Store.Action.Run.{
  After, After-ok, After-gets, After-lift, After-throw_when, After-modify, After-fresh,
  After-record_audit, After-pure,
}
use pulso_crm.Store.Context.{TenantContext}
use pulso_crm.Inventory.{lock_product}
use pulso_crm.Inventory.Products.{
  ProductInput, ProductUpdate, given, updated_product, sku_taken, create_product, update_product,
}

-- Every two products differ in their ids and in their SKUs.
unfoldable pub Distinct : List Product → Type 0
Distinct [] = Unit
Distinct (p ∷ products) = All (λ q. (q.id ≢ p.id) × (q.sku ≢ p.sku)) products × Distinct products

pub record IsCatalogue (db : Db) : Type 0 where
  pub distinct : Distinct db.products
  pub known : All (λ p. p.id < db.next_id) db.products

-- A change of the catalogue.
pub data Edit (ctx : TenantContext) (db db' : Db) : Type 0 where
  created :
      (input : ProductInput) {p : Product}
      → create_product ctx input db ≡ ok (p, db')
      → Edit ctx db db'
  updated :
      (id : ℕ) (input : ProductUpdate) {p : Product}
      → update_product ctx id input db ≡ ok (p, db')
      → Edit ctx db db'

free-All :
    (id sku : ℕ) (products : List Product)
    → sku_taken id sku products ≡ false
    → All (λ p. p.id ≢ id → p.sku ≢ sku) products
free-All id sku [] free = tt
free-All id sku (p ∷ products) free = elim (Bool-cases (not (p.id == id) && p.sku == sku)) [
  | inl hit ↦ cc (rw hit at free)
  | inr miss ↦ (λ other same. ground (arith, miss), free-All id sku products (rw miss at free))
]

Distinct-append :
    (products : List Product) (q : Product)
    → Distinct products
    → All (λ p. (q.id ≢ p.id) × (q.sku ≢ p.sku)) products
    → Distinct (products ++ q ∷ [])
unfolding Distinct
Distinct-append [] q d new = (tt, tt)
Distinct-append (p ∷ products) q d new =
    (All-append _ products d.0 new.0, Distinct-append products q d.1 new.1)

Distinct-update_where :
    (id sku : ℕ) (f : Product → Product) (products : List Product)
    → ((p : Product) → (f p).id ≡ p.id)
    → All (λ p. p.id ≡ id → (f p).sku ≡ sku) products
    → Distinct products
    → All (λ p. p.id ≢ id → p.sku ≢ sku) products
    → Distinct (update_where (λ p. p.id == id) f products)
unfolding Distinct
Distinct-update_where id sku f [] same new d free = tt
Distinct-update_where id sku f (p ∷ products) same new d free =
    let rest = Distinct-update_where id sku f products same new.1 d.1 free.1 in
    elim (Bool-cases (p.id == id)) [
      | inl hit ↦ rw hit (others_kept ((==_iff _ _).0 hit) products d.0 free.1, rest)
      | inr miss ↦
          rw miss (changed_kept (free.0 (λ e. ground (arith, miss, e))) products d.0 new.1, rest)
    ]
  where
    changed_kept :
        p.sku ≢ sku
        → (qs : List Product) → All (λ q. (q.id ≢ p.id) × (q.sku ≢ p.sku)) qs
        → All (λ q. q.id ≡ id → (f q).sku ≡ sku) qs
        → All (λ q. (q.id ≢ p.id) × (q.sku ≢ p.sku)) (update_where (λ q. q.id == id) f qs)
    changed_kept apart [] a b = tt
    changed_kept apart (q ∷ qs) a b = elim (Bool-cases (q.id == id)) [
      | inl hit ↦ rw hit (
        (λ e. a.0.0 (sym (same q) ∙ e), λ e. apart (sym e ∙ b.0 ((==_iff _ _).0 hit))),
        changed_kept apart qs a.1 b.1,
      )
      | inr miss ↦ rw miss (a.0, changed_kept apart qs a.1 b.1)
    ]

    others_kept :
        p.id ≡ id
        → (qs : List Product) → All (λ q. (q.id ≢ p.id) × (q.sku ≢ p.sku)) qs
        → All (λ q. q.id ≢ id → q.sku ≢ sku) qs
        → All (λ q. (q.id ≢ (f p).id) × (q.sku ≢ (f p).sku)) (update_where (λ q. q.id == id) f qs)
    others_kept hit [] a b = tt
    others_kept hit (q ∷ qs) a b =
        let other : q.id ≢ id = λ e. a.0.0 (e ∙ sym hit) in
        let apart : (q.id == id) ≡ false = ground (arith, other) in
        rw apart
          ((λ e. a.0.0 (e ∙ same p), λ e. b.0 other (e ∙ new.0 hit)), others_kept hit qs a.1 b.1)

-- The product that is found is the only one with its id.
find_first-All :
    (id : ℕ) (products : List Product) {old : Product}
    → Distinct products
    → find_first (λ p. p.id == id) products ≡ some old
    → All (λ p. p.id ≡ id → p.sku ≡ old.sku) products
unfolding Distinct
find_first-All id [] d found = tt
find_first-All id (p ∷ products) {old} d found = elim (Bool-cases (p.id == id)) [
  | inl hit ↦ (
    λ _. ap (λ q. q.sku) (eq_of_some (rw hit at found)),
    All-map (λ q. (q.id ≢ p.id) × (q.sku ≢ p.sku)) (λ q. q.id ≡ id → q.sku ≡ old.sku) products
        (λ q apart e. absurd (apart.0 (e ∙ sym ((==_iff _ _).0 hit)))) d.0,
  )
  | inr miss ↦ (λ e. ground (arith, miss, e), find_first-All id products d.1 (rw miss at found))
]

After-lock_product :
    (Q : Product → Db → Type 0) (id : ℕ) (f : Product → Action Product) (db : Db)
    → ((p : Product) → find_first (λ p. p.id == id) db.products ≡ some p → After Q (f p db))
    → After Q ((lock_product id >>= f) db)
unfolding lock_product gets require ◌>>=◌
After-lock_product Q id f db h = go (find_first (λ p. p.id == id) db.products) refl
  where
    go :
        (row : Option Product)
        → find_first (λ p. p.id == id) db.products ≡ row
        → After Q ((require row (code not_found) >>= f) db)
    go none absent = tt
    go (some p) found = h p found

create_product-IsCatalogue :
    (ctx : TenantContext) (input : ProductInput) (db : Db)
    → IsCatalogue db
    → After (λ p db'. IsCatalogue db') (create_product ctx input db)
unfolding create_product
create_product-IsCatalogue ctx input db h =
    let Q : Product → Db → Type 0 = λ p d. IsCatalogue d in
    After-lift Q _ _ db λ branch_id _. After-fresh Q _ db (
      After-gets Q _ _ _ (
        After-throw_when Q _ _ _ _ λ free. After-modify Q _ _ _ (
          After-record_audit Q _ _ _ _ _ λ events. After-pure Q _ _ (record {
            distinct =
                Distinct-append db.products _ h.distinct
                  (both db.products h.known (free-All db.next_id input.sku db.products free));
            known =
                All-append (λ p. p.id < db.next_id + 1) db.products
                  (All-map _ _ db.products (λ p lt. omega (arith, lt)) h.known) (omega arith);
          }))))
  where
    both :
        (products : List Product)
        → All (λ p. p.id < db.next_id) products
        → All (λ p. p.id ≢ db.next_id → p.sku ≢ input.sku) products
        → All (λ p. (db.next_id ≢ p.id) × (input.sku ≢ p.sku)) products
    both [] a b = tt
    both (p ∷ products) a b = (
      (λ e. omega (arith, a.0, e), λ e. b.0 (λ k. omega (arith, a.0, k)) (sym e)),
      both products a.1 b.1,
    )

update_product-IsCatalogue :
    (ctx : TenantContext) (id : ℕ) (input : ProductUpdate) (db : Db)
    → IsCatalogue db
    → After (λ p db'. IsCatalogue db') (update_product ctx id input db)
unfolding update_product
update_product-IsCatalogue ctx id input db h =
    let Q : Product → Db → Type 0 = λ p d. IsCatalogue d in
    After-lift Q _ _ db λ branch_id _. After-lock_product Q id _ db λ old found.
      After-gets Q _ _ _ (
        After-throw_when Q _ _ _ _ λ free. After-modify Q _ _ _ (
          After-record_audit Q _ _ _ _ _ λ events. After-pure Q _ _ (record {
            distinct =
                Distinct-update_where id (given input.sku old.sku) (updated_product input)
                  db.products (λ p. refl) (new_sku input.sku old found) h.distinct
                  (free-All id (given input.sku old.sku) db.products free);
            known =
                All-update_where (λ p. p.id < db.next_id) (λ p. p.id < db.next_id) (λ p. p.id == id)
                  (updated_product input) db.products (λ p _ lt. lt) (λ p _ lt. lt) h.known;
          })))
  where
    new_sku :
        (sku : Option ℕ) (old : Product)
        → find_first (λ p. p.id == id) db.products ≡ some old
        → All (λ p. p.id ≡ id → given sku p.sku ≡ given sku old.sku) db.products
    new_sku (some sku) old found = All-map _ _ db.products (λ p _ e. refl) h.known
    new_sku none old found = find_first-All id db.products h.distinct found

-- When every two products of a gym differ in their ids and SKUs, and ids are below the next one, the
-- same holds after a product has been created or updated.
pub Edit-IsCatalogue :
    (ctx : TenantContext) (db db' : Db) → IsCatalogue db → Edit ctx db db' → IsCatalogue db'
Edit-IsCatalogue ctx db db' h (created input run) =
    After-ok (λ p d. IsCatalogue d) (create_product-IsCatalogue ctx input db h) run
Edit-IsCatalogue ctx db db' h (updated id input run) =
    After-ok (λ p d. IsCatalogue d) (update_product-IsCatalogue ctx id input db h) run
