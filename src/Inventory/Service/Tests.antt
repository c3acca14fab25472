-- ===== src/Inventory/Service/Tests.antt =====
-- The sample gym sells three units, with a key that is sent twice.
use pulso_crm.Prelude.{
  ◌≡◌, refl, some, [], ◌∷◌, ℕ, ◌+◌, Result, ok, err, arith, Bool-cases, inl, inr, ◌==◌, ◌&&◌,
}
use pulso_crm.Prelude.Int.{pos, int_laws, ◌+ℤ◌, ◌*ℤ◌, neg}
use pulso_crm.Store.Context.{require_branch}
use pulso_crm.Store.Sample.{sample_db, sample_context}
use pulso_crm.Inventory.Counted.{IsCounted, stock_of, moved}
use pulso_crm.Inventory.Sales.{sell_items, create_sale, sell}
use pulso_crm.Inventory.Mutate.{
  Response, sale_reversed, Rows, Call, mutate, attempts, run_once, replay_or_run, record_operation,
  sell_work,
}
use pulso_crm.Inventory.Service.{Request, sell_products, serve, work_of}
use pulso_crm.Inventory.Service.Counted.{serve-IsCounted}
use pulso_crm.Store.Action.{
  ◌>>=◌, gets, require, modify, throw_when, pure, lift, fresh, record_audit,
}
use pulso_crm.Inventory.{
  upsert_stock, change_stock, lock_product, lock_own_session, sort_lines, price_lines, sum_lines,
  upsert_sale_concept, insert_cash_movement,
}

sample-IsCounted : IsCounted sample_db
unfolding moved
sample-IsCounted = record { sums = sums; fits = (omega arith, tt) }
  where
    sums : (b p : ℕ) → pos (stock_of b p sample_db) ≡ moved b p sample_db.stock_movements
    sums b p = elim (Bool-cases (1 == b && 8 == p)) [
      | inl h ↦ rw h (omega int_laws)
      | inr h ↦ rw h (omega int_laws)
    ]

abbrev three_units : Request
three_units = sell_products (record {
  branch_id = some 1;
  payment_method_id = 10;
  items = (record { product_id = 8; quantity = 3 }) ∷ [];
})

abbrev call : Call
call = record { key = 70; key_length = 36; trimmed_length = 36; fingerprint = 9 }

abbrev rows : Rows
rows = record { db = sample_db; operations = [] }

-- A commit of others that takes an id.
abbrev elsewhere : Rows → Rows
elsewhere s = record s { db = record s.db { next_id = s.db.next_id + 1 } }

abbrev result : Result (Response × Rows)
result = serve sample_context call three_units (elsewhere ∷ []) rows

abbrev result_rows : Result (Response × Rows) → Rows
result_rows (ok (r, t)) = t
result_rows (err e) = rows

abbrev result_value : Result (Response × Rows) → Response
result_value (ok (r, t)) = r
result_value (err e) = sale_reversed 0

serve_run :
    serve sample_context call three_units (elsewhere ∷ []) rows
    ≡ ok (result_value result, result_rows result)
unfolding serve work_of mutate attempts run_once replay_or_run record_operation sell_work ◌>>=◌ gets
    require modify throw_when pure lift fresh record_audit ◌+ℤ◌ ◌*ℤ◌ neg upsert_stock change_stock
    lock_product lock_own_session sort_lines price_lines sum_lines upsert_sale_concept
    insert_cash_movement sell_items create_sale sell require_branch
serve_run = refl

serve_again :
    serve sample_context call three_units [] (result_rows result)
    ≡ ok (result_value result, result_rows result)
unfolding serve work_of mutate attempts run_once replay_or_run record_operation sell_work ◌>>=◌ gets
    require modify throw_when pure lift fresh record_audit ◌+ℤ◌ ◌*ℤ◌ neg upsert_stock change_stock
    lock_product lock_own_session sort_lines price_lines sum_lines upsert_sale_concept
    insert_cash_movement sell_items create_sale sell require_branch
serve_again = refl

serve-IsCounted_example : IsCounted (result_rows result).db
serve-IsCounted_example =
    serve-IsCounted sample_context call three_units (elsewhere ∷ []) rows sample-IsCounted
      (λ u h. record { sums = h.sums; fits = h.fits }, tt) serve_run
