-- ===== src/Memberships/Recurrence/Tests.antt =====
-- A period of the sample gym that was renewed once is cancelled.
use pulso_crm.Prelude.{◌≡◌, refl, some, true, false, ◌∷◌, [], map, ok, arith, Bool}
use pulso_crm.Calendar.{date}
use pulso_crm.Store.{Db, Membership, MembershipStatus}
use pulso_crm.Store.Sample.{sample_db, sample_context, sample_membership, rows_of, value_of}
use pulso_crm.Memberships.Recurrence.{
  stop_renewal_descendants, cancel, configure_renewal, stop_recurrence, stop_child,
  stop_all_descendants,
}
use pulso_crm.Memberships.Recurrence.Stopped.{ChainStopped, Quieter}
use pulso_crm.Memberships.Recurrence.Ended.{
  IsChained, stop_renewal_descendants_ends, Cancelled, cancel-Cancelled,
}
use pulso_crm.Store.Action.{◌>>=◌, gets, require, modify, throw_when, pure, lift, record_audit}
use pulso_crm.Memberships.Renewal.{lock_period}
use pulso_crm.Memberships.{check_branch}
use pulso_crm.Store.Context.{require_branch}

-- The renewal of the sample's period, which renews in turn.
abbrev renewal : Membership
renewal = record sample_membership {
  id = 50;
  start_date = date 2026 2 15;
  end_date = some (date 2026 3 14);
  auto_renew = true;
  next_renewal_date = some (date 2026 3 15);
  renewed_from_id = some 3;
}

abbrev renewed_db : Db
renewed_db = record sample_db { memberships = sample_membership ∷ renewal ∷ [] }

abbrev cancel_rows : Db
cancel_rows = rows_of renewed_db (cancel sample_context 3 renewed_db)

abbrev cancel_value : Membership
cancel_value = value_of sample_membership (cancel sample_context 3 renewed_db)

cancel_run : cancel sample_context 3 renewed_db ≡ ok (cancel_value, cancel_rows)
unfolding ◌>>=◌ gets require modify throw_when pure lift record_audit stop_recurrence stop_child
    stop_renewal_descendants stop_all_descendants cancel lock_period check_branch require_branch
cancel_run = refl

-- The renewal stays active and will not renew again.
cancel_leaves :
    (map (λ m. m.status) cancel_rows.memberships
      ≡ MembershipStatus.cancelled ∷ MembershipStatus.active ∷ [])
    × (map (λ m. m.auto_renew) cancel_rows.memberships ≡ false ∷ false ∷ [])
unfolding ◌>>=◌ gets require modify throw_when pure lift record_audit stop_recurrence stop_child
    stop_renewal_descendants stop_all_descendants cancel lock_period check_branch require_branch
cancel_leaves = (refl, refl)

-- A recurrence that is set on the last period is due the day after its end.
configured :
    (value_of sample_membership
      (configure_renewal sample_context 3 true (date 2026 2 10) sample_db)).next_renewal_date
    ≡ some (date 2026 2 15)
unfolding ◌>>=◌ gets require modify throw_when pure lift record_audit
    pulso_crm.Memberships.Recurrence.next_of_end pulso_crm.Memberships.Recurrence.enable_renewal
    pulso_crm.Memberships.Recurrence.configure_renewal lock_period check_branch
    pulso_crm.Memberships.first_renewal require_branch pulso_crm.Calendar.next_day
    pulso_crm.Calendar.days_after pulso_crm.Calendar.add_days pulso_crm.Calendar.days_in_month
    pulso_crm.Calendar.is_leap
configured = refl

cancel-Cancelled_example : Cancelled 3 renewed_db cancel_value cancel_rows
cancel-Cancelled_example = cancel-Cancelled sample_context 3 renewed_db cancel_run

abbrev loop_rows : Db
loop_rows = rows_of renewed_db (stop_renewal_descendants 98 sample_context 3 renewed_db)

loop_run : stop_renewal_descendants 98 sample_context 3 renewed_db ≡ ok (true, loop_rows)
unfolding ◌>>=◌ gets modify pure lift record_audit stop_recurrence stop_child
    stop_renewal_descendants check_branch require_branch
loop_run = refl

renewed_db-IsChained : IsChained 100 renewed_db.memberships
renewed_db-IsChained = omega arith

stop_renewal_descendants_ends_example :
    (◌≡◌ {A = Bool} true true)
    × ChainStopped loop_rows.memberships 3
    × Quieter renewed_db.memberships loop_rows.memberships
stop_renewal_descendants_ends_example =
    stop_renewal_descendants_ends 98 sample_context 3 renewed_db renewed_db-IsChained (omega arith)
      loop_run
