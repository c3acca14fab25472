-- ===== src/Ledger/Tests.antt =====
-- The account of the sample gym's member.
use pulso_crm.Prelude.{◌≡◌, refl, ◌++◌, none, some, [], ◌∷◌}
use pulso_crm.Prelude.Int.{ℤ, pos, negsuc}
use pulso_crm.Store.{credit, payment, other_text}
use pulso_crm.Store.Action.Run.{After}
use pulso_crm.Store.Sample.{sample_db}
use pulso_crm.Ledger.{Posting, post_ledger_entry, recalculate_member_balance}
use pulso_crm.Ledger.Consistent.{
  IsConsistent, IsRepaired, post_ledger_entry-After, recalculate_member_balance-IsRepaired,
}

abbrev sample_posting : Posting
sample_posting = record {
  member_id = 1;
  type = credit;
  reason = payment;
  amount = pos 4000;
  description = other_text;
  membership_id = some 3;
  cash_movement_id = none;
  branch_id = some 1;
}

pub sample-IsConsistent : IsConsistent sample_db
unfolding pulso_crm.Ledger.Consistent.ledger_sum pulso_crm.Prelude.Int.◌+ℤ◌
    pulso_crm.Prelude.Int.neg
sample-IsConsistent = (refl, tt)

post_ledger_entry-After_example :
    After
      (λ e db'. IsConsistent db' × (db'.entries ≡ sample_db.entries ++ e ∷ []))
      (post_ledger_entry sample_posting sample_db)
post_ledger_entry-After_example =
    post_ledger_entry-After sample_posting sample_db sample-IsConsistent

recalculate_member_balance-IsRepaired_example :
    After (λ b db'. IsRepaired 1 sample_db db' b) (recalculate_member_balance 1 sample_db)
recalculate_member_balance-IsRepaired_example = recalculate_member_balance-IsRepaired 1 sample_db
