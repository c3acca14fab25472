-- ===== src/Access/Entries.antt =====
-- apps/api/src/modules/access/access.service.ts: the attendances after the record of a verdict.
use pulso_crm.Prelude.{
  ℕ, ◌≡◌, refl, sym, subst, Bool, true, false, Option, List, [], ◌∷◌, ◌++◌, ==-refl, find_first,
  Bool-cases, inl, inr, is_some, ok,
}
use pulso_crm.Calendar.{Date, key}
use pulso_crm.Store.{Db, Membership, Attendance}
use pulso_crm.Store.Action.Run.{After, After-ok, After-bind, After-gets, After-pure}
use pulso_crm.Access.{Verdict}
use pulso_crm.Access.Record.{
  same_entry, CheckResponse, attendance_row, record_decision, write_decision, should_record,
}
use pulso_crm.Access.Attendances.{
  HasOneEntry, HasOneEntry-append, add_attempt-After, IsRegistered, record_decision-IsRegistered,
}

own_entry :
    (id member_id : ℕ) (period : Option Membership) (branch_id : ℕ) (today : Date)
    → same_entry member_id branch_id
        (key today)
        (attendance_row id member_id period branch_id today)
      ≡ true
own_entry id member_id period branch_id today =
    rw (==-refl member_id, ==-refl branch_id) (==-refl (key today))

-- If no member has two attendances of one branch and day, the same holds after the record of any
-- verdict, whatever period and snapshot it was reached on.
pub record_decision-HasOneEntry :
    (member_id : ℕ) (period : Option Membership) (branch_id : ℕ) (today : Date) (v : Verdict)
    (register_attendance : Bool) (db : Db) {r : CheckResponse} {db' : Db}
    → HasOneEntry db.attendances
    → record_decision member_id period branch_id today v register_attendance db ≡ ok (r, db')
    → HasOneEntry db'.attendances
record_decision-HasOneEntry member_id period branch_id today v register_attendance db {r} {db'} h
      e =
    let done =
      After-ok (IsRegistered member_id period branch_id today db)
        (record_decision-IsRegistered member_id period branch_id today v register_attendance db)
        e in
    elim (Bool-cases r.attendance_registered) [
      | inl new ↦
          let (id, rows, free) = rw new at done in
          subst HasOneEntry (sym rows) (
            HasOneEntry-append db.attendances (attendance_row id member_id period branch_id today)
              member_id branch_id (key today) h (own_entry id member_id period branch_id today)
              free)
      | inr old ↦ subst HasOneEntry (sym (rw old at done).0) h
    ]

found_own :
    (rows : List Attendance) (p : Attendance → Bool) (a : Attendance)
    → p a ≡ true
    → is_some (find_first p (rows ++ a ∷ [])) ≡ true
found_own [] p a h = rw h
found_own (x ∷ rows) p a h = elim (Bool-cases (p x)) [
  | inl k ↦ rw k
  | inr k ↦ rw k (found_own rows p a h)
]

write_decision-taken :
    (should : Bool) (member_id : ℕ) (period : Option Membership) (branch_id : ℕ) (today : Date)
    (v : Verdict) (db : Db)
    → After
        (λ r d.
          (r.attendance_registered ≡ false)
          × (d.attendances ≡ db.attendances)
          × (d.memberships ≡ db.memberships))
        (write_decision should true member_id period branch_id today v db)
unfolding write_decision
write_decision-taken true member_id period branch_id today v db =
    let Q : CheckResponse → Db → Type 0 = λ r d.
      (r.attendance_registered ≡ false)
      × (d.attendances ≡ db.attendances)
      × (d.memberships ≡ db.memberships) in
    After-bind _ Q _ _ db (add_attempt-After _ _ _ _ db) λ a d p. After-pure Q _ d (refl, p.0, p.1)
write_decision-taken false member_id period branch_id today v db =
    let Q : CheckResponse → Db → Type 0 = λ r d.
      (r.attendance_registered ≡ false)
      × (d.attendances ≡ db.attendances)
      × (d.memberships ≡ db.memberships) in
    After-bind _ Q _ _ db (add_attempt-After _ _ _ _ db) λ a d p. After-pure Q _ d (refl, p.0, p.1)

-- After a check that registered an entry, another check of the same member, branch and day, with
-- whatever verdict it reached and period it read, registers nothing: it leaves the attendances and
-- the periods as they are.
pub record_decision_twice :
    (member_id : ℕ) (period again : Option Membership) (branch_id : ℕ) (today : Date)
    (v w : Verdict) (register_attendance register_again : Bool) (db : Db) {r r' : CheckResponse}
    {db' db'' : Db}
    → record_decision member_id period branch_id today v register_attendance db ≡ ok (r, db')
    → r.attendance_registered ≡ true
    → record_decision member_id again branch_id today w register_again db' ≡ ok (r', db'')
    → (r'.attendance_registered ≡ false)
      × (db''.attendances ≡ db'.attendances)
      × (db''.memberships ≡ db'.memberships)
unfolding record_decision
record_decision_twice member_id period again branch_id today v w register_attendance register_again
      db {r} {r'} {db'} {db''} e new e' =
    let done =
      After-ok (IsRegistered member_id period branch_id today db)
        (record_decision-IsRegistered member_id period branch_id today v register_attendance db)
        e in
    let (id, rows, free) = rw new at done in
    let found : is_some (find_first (same_entry member_id branch_id (key today)) db'.attendances)
        ≡ true =
      rw rows (
        found_own db.attendances (same_entry member_id branch_id (key today))
          (attendance_row id member_id period branch_id today)
          (own_entry id member_id period branch_id today)) in
    let Q : CheckResponse → Db → Type 0 = λ r d.
      (r.attendance_registered ≡ false)
      × (d.attendances ≡ db'.attendances)
      × (d.memberships ≡ db'.memberships) in
    After-ok Q
      (After-gets Q _ _ db' (
        rw found (
          write_decision-taken (should_record w register_again) member_id again branch_id today w
            db')))
      e'
