-- ===== src/Inventory/Mutate/Tests.antt =====
-- A count of the sample gym's stock that another transaction aborts once, and that is sent again.
use pulso_crm.Prelude.{
  ℕ, suc, ◌+◌, ◌≤◌, ◌≡◌, ◌≢◌, refl, none, some, List, [], ◌∷◌, ◌++◌, Result, ok, err, code,
  conflict, idempotency_key_reused, idempotency_key_required, arith,
}
use pulso_crm.Prelude.Int.{ℤ, pos, negsuc}
use pulso_crm.Store.{Db, StockMovement, adjustment, restock}
use pulso_crm.Store.Action.{Action}
use pulso_crm.Store.Sample.{sample_db, sample_context}
use pulso_crm.Inventory.{StockChange, stock_row}
use pulso_crm.Inventory.Mutate.{
  Response, stock_adjusted, Rows, Call, Operation, find_operation, mutate, adjust_work, attempts,
}
use pulso_crm.Inventory.Mutate.Once.{after_others, mutate_twice}

abbrev delivery : StockChange
delivery = record {
  branch_id = 1;
  product_id = 8;
  quantity = pos 5;
  type = restock;
  sale_id = none;
}

abbrev call : Call
call = record { key = 70; key_length = 36; trimmed_length = 36; fingerprint = 9 }

abbrev rows : Rows
rows = record { db = sample_db; operations = [] }

-- A commit of others that takes an id.
abbrev elsewhere : Rows → Rows
elsewhere s = record s { db = record s.db { next_id = s.db.next_id + 1 } }

abbrev work : Action Response
work = adjust_work sample_context delivery

abbrev result : Result (Response × Rows)
result = mutate call work (elsewhere ∷ []) rows

abbrev result_rows : Result (Response × Rows) → Rows
result_rows (ok (r, t)) = t
result_rows (err e) = rows

abbrev result_value : Result (Response × Rows) → Response
result_value (ok (r, t)) = r
result_value (err e) = stock_adjusted (stock_row delivery 0)

mutate_run : mutate call work (elsewhere ∷ []) rows ≡ ok (result_value result, result_rows result)
unfolding mutate attempts pulso_crm.Inventory.Mutate.run_once
    pulso_crm.Inventory.Mutate.replay_or_run pulso_crm.Inventory.Mutate.record_operation
    pulso_crm.Inventory.Mutate.adjust_work pulso_crm.Store.Action.◌>>=◌ pulso_crm.Store.Action.gets
    pulso_crm.Store.Action.require pulso_crm.Store.Action.modify pulso_crm.Store.Action.throw_when
    pulso_crm.Store.Action.pure pulso_crm.Store.Action.lift pulso_crm.Store.Action.fresh
    pulso_crm.Store.Action.record_audit pulso_crm.Prelude.Int.◌+ℤ◌ pulso_crm.Inventory.upsert_stock
    pulso_crm.Inventory.change_stock pulso_crm.Inventory.lock_product pulso_crm.Inventory.adjust
    pulso_crm.Store.Context.require_branch
mutate_run = refl

-- Eight commits of others are too many.
mutate_exhausted :
    mutate call work
      (elsewhere ∷ elsewhere ∷ elsewhere ∷ elsewhere ∷ elsewhere ∷ elsewhere ∷ elsewhere ∷ elsewhere
        ∷ [])
      rows
    ≡ err (code conflict)
unfolding mutate attempts
mutate_exhausted = refl

mutate_twice_example :
    (find_operation 70 (elsewhere rows) ≡ none
      → work (elsewhere rows).db ≡ ok (result_value result, (result_rows result).db))
    × (find_operation 70 (elsewhere rows) ≢ none → result_rows result ≡ elsewhere rows)
    × (mutate call work [] (result_rows result) ≡ ok (result_value result, result_rows result))
    × ((other : ℕ)
        → other ≢ 9
        → mutate (record call { fingerprint = other }) work [] (result_rows result)
          ≡ err (code idempotency_key_reused))
unfolding after_others
mutate_twice_example =
    mutate_twice call work work (elsewhere ∷ []) [] rows (result_rows result) mutate_run
      (omega arith) refl
