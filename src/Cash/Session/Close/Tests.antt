-- ===== src/Cash/Session/Close/Tests.antt =====
-- The sample gym's session is closed, and opened again.
use pulso_crm.Prelude.{
  ◌≡◌, refl, ◌++◌, none, some, [], ◌∷◌, List, ℕ, ◌≤◌, true, false, Result, ok, err, arith,
  Bool-cases, inl, inr, includes, count_where, ◌==◌,
}
use pulso_crm.Prelude.Int.{ℤ, pos, negsuc}
use pulso_crm.Calendar.{date}
use pulso_crm.Store.{Db, CashSession}
use pulso_crm.Store.Sample.{sample_db, sample_context, sample_session, rows_of, value_of}
use pulso_crm.Cash.Session.{open_cash, is_of_user, is_of_register}
use pulso_crm.Cash.Session.Unique.{HasOneOpen, open_cash-HasOneOpen}
use pulso_crm.Cash.Session.Close.{Declared, CloseResult, close, close_in}
use pulso_crm.Cash.Session.Close.Settled.{IsSettled, close-IsSettled}
use pulso_crm.Cash.Session.Close.OneOpen.{close-HasOneOpen}
use pulso_crm.Store.Action.{◌>>=◌, throw_when, pure, gets, require, modify, record_audit}
use pulso_crm.Cash.{assert_positive_money, find_open_session_for_user}

abbrev sample_declared : List Declared
sample_declared = (record { payment_method_id = 10; amount = pos 5600 }) ∷ []

abbrev no_result : CloseResult
no_result = record { session = sample_session; details = []; difference_total = pos 0 }

abbrev close_rows : Db
close_rows = rows_of sample_db (close sample_context sample_declared sample_db)

abbrev close_value : CloseResult
close_value = value_of no_result (close sample_context sample_declared sample_db)

close_run : close sample_context sample_declared sample_db ≡ ok (close_value, close_rows)
unfolding close ◌>>=◌ assert_positive_money throw_when pure gets require find_open_session_for_user
    close_in modify record_audit
close_run = refl

-- The session began with 50.00 and took 7.00 in cash: 56.00 in the drawer is 1.00 short.
close_short : close_value.difference_total ≡ negsuc 99
unfolding close ◌>>=◌ assert_positive_money throw_when pure gets require find_open_session_for_user
    close_in modify record_audit pulso_crm.Cash.Session.Close.sum_differences
    pulso_crm.Cash.Session.Close.details_of pulso_crm.Cash.Session.Close.push_missing
    pulso_crm.Cash.Session.Close.expected_by_method pulso_crm.Cash.Session.Close.counts_as_cash
    pulso_crm.Prelude.Int.◌+ℤ◌ pulso_crm.Prelude.Int.◌-ℤ◌
close_short = refl

close-IsSettled_example :
    IsSettled sample_context.user_id sample_declared sample_db close_rows close_value
close-IsSettled_example = close-IsSettled sample_context sample_declared sample_db close_run

sample-HasOneOpen : HasOneOpen sample_db.sessions
sample-HasOneOpen = record { by_user = λ id. one id; by_register = λ id. two id }
  where
    one : (id : ℕ) → count_where (is_of_user id) (sample_session ∷ []) ≤ 1
    one id = elim (Bool-cases (9 == id)) [ inl h ↦ rw h (omega arith) | inr h ↦ rw h (omega arith) ]

    two : (id : ℕ) → count_where (is_of_register id) (sample_session ∷ []) ≤ 1
    two id = elim (Bool-cases (6 == id)) [ inl h ↦ rw h (omega arith) | inr h ↦ rw h (omega arith) ]

close-HasOneOpen_example :
    HasOneOpen close_rows.sessions
    × (count_where (is_of_user 9) close_rows.sessions ≡ 0)
    × (count_where (is_of_register close_value.session.cash_register_id) close_rows.sessions ≡ 0)
close-HasOneOpen_example =
    close-HasOneOpen sample_context sample_declared sample_db sample-HasOneOpen close_run

-- Once it is closed, the register can be opened again.
abbrev open_rows : Db
open_rows = rows_of close_rows (open_cash sample_context 6 (pos 2000) (date 2026 1 21) close_rows)

abbrev open_value : CashSession
open_value =
    value_of sample_session (open_cash sample_context 6 (pos 2000) (date 2026 1 21) close_rows)

open_run :
    open_cash sample_context 6 (pos 2000) (date 2026 1 21) close_rows ≡ ok (open_value, open_rows)
unfolding open_cash ◌>>=◌ throw_when gets require close assert_positive_money pure
    find_open_session_for_user close_in modify record_audit pulso_crm.Cash.Session.open_in
    pulso_crm.Store.Action.fresh
open_run = refl

open_cash-HasOneOpen_example :
    HasOneOpen open_rows.sessions
    × (is_of_user 9 open_value ≡ true)
    × (is_of_register 6 open_value ≡ true)
    × (includes open_value.branch_id sample_context.branch_ids ≡ true)
    × (open_rows.sessions ≡ close_rows.sessions ++ open_value ∷ [])
open_cash-HasOneOpen_example =
    open_cash-HasOneOpen sample_context 6 (pos 2000) (date 2026 1 21) close_rows
      (close-HasOneOpen sample_context sample_declared sample_db sample-HasOneOpen close_run).0
      open_run
