-- ===== src/Inventory/Service/Counted.antt =====
-- apps/api/src/modules/inventory/inventory.service.ts: the count of the stock across the operations with
-- their keys and attempts.
use pulso_crm.Prelude.{
  ℕ, ◌≡◌, refl, none, some, List, [], ◌∷◌, Result, ok, err, All, Option-cases, inl, inr, sym, subst,
  eq_of_ok, ◌>>=◌,
}
use pulso_crm.Store.{Db}
use pulso_crm.Store.Action.{Action}
use pulso_crm.Store.Action.Frame.{
  Steps, Steps-run, Steps-pure, Steps-gets, Steps-lift, Steps-throw_when, Steps-fresh,
  Steps-record_audit, Steps-modify, ◌▸◌,
}
use pulso_crm.Store.Context.{TenantContext, require_branch}
use pulso_crm.Inventory.Counted.{IsCounted}
use pulso_crm.Inventory.Products.{ProductInput, ProductUpdate, create_product, update_product}
use pulso_crm.Inventory.Sales.Kept.{
  KeepsCounted, KeepsCounted-IsFrame, sell-Steps, reverse_sale_in-Steps, adjust-Steps,
  lock_product-Steps,
}
use pulso_crm.Inventory.Mutate.{
  Response, Rows, Call, mutate, find_operation, adjust_work, sell_work, reverse_work, create_work,
  update_work, own_sale,
}
use pulso_crm.Inventory.Mutate.Once.{after_others, mutate-ok, run_once-Answers}
use pulso_crm.Inventory.Service.{
  Request, adjust_stock, sell_products, reverse_of, create_of, update_of, work_of, serve,
}

create_product-Steps :
    (ctx : TenantContext) (input : ProductInput) → Steps KeepsCounted (create_product ctx input)
unfolding create_product KeepsCounted
create_product-Steps ctx input = Steps-lift _ ▸ λ branch_id. Steps-fresh ▸ λ id.
    Steps-gets _ ▸ λ taken. Steps-throw_when _ _ ▸ λ u.
    Steps-modify _ (λ db h. record { sums = h.sums; fits = h.fits }) ▸ λ u.
    Steps-record_audit _ _ _ ▸ λ u. Steps-pure _

update_product-Steps :
    (ctx : TenantContext) (id : ℕ) (input : ProductUpdate)
    → Steps KeepsCounted (update_product ctx id input)
unfolding update_product KeepsCounted
update_product-Steps ctx id input = Steps-lift _ ▸ λ branch_id. lock_product-Steps id ▸ λ old.
    Steps-gets _ ▸ λ taken. Steps-throw_when _ _ ▸ λ u.
    Steps-modify _ (λ db h. record { sums = h.sums; fits = h.fits }) ▸ λ u.
    Steps-record_audit _ _ _ ▸ λ u. Steps-pure _

eq_of_bind :
    {A : Type 0} {B : Type 0} (r : Result A) (f : A → B) {b : B}
    → (r >>= λ a. ok (f a)) ≡ ok b
    → (a : A) × (f a ≡ b)
eq_of_bind (ok a) f e = (a, eq_of_ok e)
eq_of_bind (err e) f run = cc run

-- Whatever a request's work is, it does not lose count.
work_of-Steps :
    (ctx : TenantContext) (request : Request) (db : Db) (work : Action Response)
    → work_of ctx request db ≡ ok work
    → Steps KeepsCounted work
unfolding work_of adjust_work sell_work reverse_work create_work update_work
work_of-Steps ctx (adjust_stock input) db work e =
    let same =
      eq_of_bind (require_branch ctx (some input.branch_id)) (λ b. adjust_work ctx input) e in
    subst (Steps KeepsCounted) same.1 (adjust-Steps ctx input ▸ λ row. Steps-pure _)
work_of-Steps ctx (sell_products input) db work e =
    let same = eq_of_bind (require_branch ctx input.branch_id) (λ b. sell_work ctx input) e in
    subst (Steps KeepsCounted) same.1 (sell-Steps ctx input ▸ λ row. Steps-pure _)
work_of-Steps ctx (reverse_of id) db work e =
    let same = eq_of_bind (own_sale ctx id db) (λ own. reverse_work ctx id own.0) e in
    subst (Steps KeepsCounted) same.1 (reverse_sale_in-Steps ctx id _ _ ▸ λ u. Steps-pure _)
work_of-Steps ctx (create_of input) db work e =
    let same = eq_of_bind (require_branch ctx none) (λ b. create_work ctx input) e in
    subst (Steps KeepsCounted) same.1 (create_product-Steps ctx input ▸ λ row. Steps-pure _)
work_of-Steps ctx (update_of id input) db work e =
    let same = eq_of_bind (require_branch ctx none) (λ b. update_work ctx id input) e in
    subst (Steps KeepsCounted) same.1 (update_product-Steps ctx id input ▸ λ row. Steps-pure _)

after_others-IsCounted :
    (others : List (Rows → Rows)) (s : Rows)
    → All (λ commit. (u : Rows) → IsCounted u.db → IsCounted (commit u).db) others
    → IsCounted s.db
    → IsCounted (after_others others s).db
unfolding after_others
after_others-IsCounted [] s keep h = h
after_others-IsCounted (commit ∷ others) s keep h =
    after_others-IsCounted others (commit s) keep.1 (keep.0 s h)

mutate-IsCounted :
    (call : Call) (work : Action Response) (others : List (Rows → Rows)) (s : Rows) {r : Response}
    {t : Rows}
    → Steps KeepsCounted work
    → All (λ commit. (u : Rows) → IsCounted u.db → IsCounted (commit u).db) others
    → mutate call work others s ≡ ok (r, t)
    → IsCounted s.db
    → IsCounted t.db
unfolding KeepsCounted
mutate-IsCounted call work others s keeps keep run h =
    let u = after_others others s in
    let once = run_once-Answers call work u (mutate-ok call work others s run).1 in
    let counted = after_others-IsCounted others s keep h in
    elim (Option-cases (find_operation call.key u)) [
      | inl absent ↦ Steps-run KeepsCounted keeps u.db (once.1 absent) counted
      | inr (o, found) ↦
          subst (λ t. IsCounted t.db) (sym (once.2 λ absent. cc (found, absent))) counted
    ]

-- If every stock quantity is the sum of its movements and within a 32-bit integer, and the commits of
-- others that abort an attempt keep it so, the same holds after a restock, an adjustment, a sale, a
-- reversal, or a new or changed product, whether its work was run or its answer repeated.
pub serve-IsCounted :
    (ctx : TenantContext) (call : Call) (request : Request) (others : List (Rows → Rows)) (s : Rows)
    {r : Response} {t : Rows}
    → IsCounted s.db
    → All (λ commit. (u : Rows) → IsCounted u.db → IsCounted (commit u).db) others
    → serve ctx call request others s ≡ ok (r, t)
    → IsCounted t.db
unfolding serve
serve-IsCounted ctx call request others s {r} {t} h keep run =
    go (work_of ctx request s.db) refl run
  where
    go :
        (work : Result (Action Response))
        → work_of ctx request s.db ≡ work
        → (work >>= λ w. mutate call w others s) ≡ ok (r, t)
        → IsCounted t.db
    go (ok work) e run =
        mutate-IsCounted call work others s (work_of-Steps ctx request s.db work e) keep run h
    go (err e) _ run = cc run
