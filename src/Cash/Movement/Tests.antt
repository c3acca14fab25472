-- ===== src/Cash/Movement/Tests.antt =====
-- Movements of the sample gym's session.
use pulso_crm.Prelude.{
  ◌≡◌, refl, some, ok, err, code, movement_already_reversed, conflict, none, arith,
}
use pulso_crm.Prelude.Int.{pos}
use pulso_crm.Store.{Db, CashMovement, CashSession, income}
use pulso_crm.Store.Action.Run.{After}
use pulso_crm.Store.Sample.{sample_db, sample_context, sample_movement, rows_of, value_of}
use pulso_crm.Ledger.Consistent.{IsConsistent}
use pulso_crm.Ledger.Tests.{sample-IsConsistent}
use pulso_crm.Cash.Movement.{
  CreateRequest, create, create_in, check_member, post_for_member, reverse, reverse_in,
  post_reversal,
}
use pulso_crm.Cash.Movement.Made.{IsMade, create-IsMade}
use pulso_crm.Cash.Movement.Once.{reverse_again}
use pulso_crm.Store.Action.{◌>>=◌, gets, require, throw_when, modify, pure, fresh, record_audit}
use pulso_crm.Ledger.{post_ledger_entry}
use pulso_crm.Cash.{assert_positive_money, find_open_session_for_user, create_movement}
use pulso_crm.Cash.Movement.Reversal.{HasUndone, reverse-HasUndone}

reverse-HasUndone_example :
    After (λ r db'. HasUndone 12 sample_db db') (reverse sample_context 12 sample_db)
reverse-HasUndone_example = reverse-HasUndone sample_context 12 sample_db

abbrev reverse_rows : Db
reverse_rows = rows_of sample_db (reverse sample_context 12 sample_db)

abbrev reverse_value : CashMovement
reverse_value = value_of sample_movement (reverse sample_context 12 sample_db)

reverse_run : reverse sample_context 12 sample_db ≡ ok (reverse_value, reverse_rows)
unfolding reverse ◌>>=◌ gets require throw_when modify pure fresh record_audit reverse_in
    post_reversal create_movement post_ledger_entry
reverse_run = refl

reverse_again_example :
    (reverse sample_context 12 reverse_rows ≡ err (code movement_already_reversed))
    × (reverse sample_context reverse_value.id reverse_rows ≡ err (code conflict))
reverse_again_example =
    reverse_again sample_context sample_context 12 sample_db reverse_rows (omega arith, tt)
      reverse_run refl refl

abbrev sample_create : CreateRequest
sample_create = record {
  type = income;
  amount = pos 4000;
  payment_method_id = 10;
  cash_concept_id = 5;
  member_id = some 1;
}

abbrev create_rows : Db
create_rows = rows_of sample_db (create sample_context sample_create sample_db)

create_run :
    create sample_context sample_create sample_db
    ≡ ok (value_of sample_movement (create sample_context sample_create sample_db), create_rows)
unfolding create ◌>>=◌ assert_positive_money throw_when gets require find_open_session_for_user
    create_in check_member pure create_movement fresh modify post_for_member post_ledger_entry
    record_audit
create_run = refl

create-IsMade_example :
    (own : CashSession) × (find_open_session_for_user sample_context.user_id none sample_db
      ≡ some own)
    × IsMade sample_create own sample_db create_rows
        (value_of sample_movement (create sample_context sample_create sample_db))
    × IsConsistent create_rows
create-IsMade_example =
    create-IsMade sample_context sample_create sample_db sample-IsConsistent create_run
