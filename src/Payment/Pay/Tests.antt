-- ===== src/Payment/Pay/Tests.antt =====
-- The sample gym's member pays what is owed, by transfer.
use pulso_crm.Prelude.{◌≡◌, refl, none, some, [], ◌∷◌, List, ℕ, true, false, Bool, Result, ok, err}
use pulso_crm.Prelude.Int.{ℤ, pos, negsuc}
use pulso_crm.Store.{Db, transfer}
use pulso_crm.Store.Sample.{sample_db, sample_context, sample_entry, rows_of, value_of}
use pulso_crm.Ledger.Consistent.{ledger_sum}
use pulso_crm.Payment.{quote_of, sum_lines}
use pulso_crm.Payment.Quote.{quote_of-sum}
use pulso_crm.Payment.Pay.{PayRequest, PayResponse, pay}
use pulso_crm.Payment.Pay.Cleared.{pay-Cleared}

-- 100.00 and the surcharge of 5000.00.
abbrev sample_pay : PayRequest
sample_pay = record { payment_method_id = 11; ledger_version = some 4; expected_total = pos 510000 }

abbrev pay_rows : Db
pay_rows = rows_of sample_db (pay sample_context 1 sample_pay sample_db)

abbrev pay_value : PayResponse
pay_value =
    value_of (record { cash_movements = []; balance = pos 1 })
      (pay sample_context 1 sample_pay sample_db)

pay_run : pay sample_context 1 sample_pay sample_db ≡ ok (pay_value, pay_rows)
unfolding pulso_crm.Store.Action.◌>>=◌ pulso_crm.Store.Action.gets pulso_crm.Store.Action.require
    pulso_crm.Store.Action.modify pulso_crm.Store.Action.throw_when pulso_crm.Store.Action.pure
    pulso_crm.Store.Action.lift pulso_crm.Store.Action.fresh pulso_crm.Store.Action.record_audit
    pulso_crm.Prelude.Int.◌+ℤ◌ pulso_crm.Prelude.Int.◌-ℤ◌ pulso_crm.Prelude.Int.◌*ℤ◌
    pulso_crm.Prelude.Int.neg pulso_crm.Payment.choose_method pulso_crm.Payment.balance_of
    pulso_crm.Payment.last_id pulso_crm.Payment.add_entry pulso_crm.Payment.group_entries
    pulso_crm.Payment.credit_of pulso_crm.Payment.transferred pulso_crm.Payment.quote_lines
    pulso_crm.Payment.sum_surcharges pulso_crm.Payment.quote_of pulso_crm.Payment.Pay.build_quote
    pulso_crm.Payment.Pay.post_fee pulso_crm.Payment.Pay.pay_lines pulso_crm.Payment.Pay.settle
    pulso_crm.Payment.Pay.pay pulso_crm.Ledger.post_ledger_entry
    pulso_crm.Cash.find_open_session_for_user pulso_crm.Cash.require_open_session_for_user
    pulso_crm.Cash.create_movement pulso_crm.Cash.ensure_system_concept
    pulso_crm.Cash.existing_or_create pulso_crm.Cash.create_concept
    pulso_crm.Store.Context.require_branch
pay_run = refl

pay-Cleared_example : ledger_sum 1 pay_rows.entries ≡ pos 0
pay-Cleared_example = pay-Cleared sample_context 1 sample_pay sample_db pay_run

quote_of-sum_example :
    sum_lines (quote_of transfer (λ id. false) (sample_entry ∷ [])).lines
    ≡ (quote_of transfer (λ id. false) (sample_entry ∷ [])).debt
quote_of-sum_example = quote_of-sum transfer (λ id. false) (sample_entry ∷ [])
