-- ===== src/Access/Attendances.antt =====
-- What apps/api/src/modules/access/access.service.ts writes: the attendances of a member.
use pulso_crm.Prelude.{
  ℕ, ◌≤◌, ◌≡◌, refl, ap, ◌∙◌, sym, subst, Bool, true, false, Option, none, some, List, [], ◌∷◌,
  ◌++◌, ◌==◌, if◌then◌else◌, find_first, find_first-update_where, eq_of_some, ◌-◌, count_where,
  count_where-append, count_where-none, is_some, Bool-cases, inl, inr, arith,
}
use pulso_crm.Calendar.{Date, key}
use pulso_crm.Store.{Db, Membership, Attendance}
use pulso_crm.Store.Action.{pure, modify, ◌>>=◌, fresh}
use pulso_crm.Store.Action.Run.{
  After, After-bind, After-pure, After-gets, After-require, After-throw_when, After-modify,
  After-fresh,
}
use pulso_crm.Access.{Verdict}
use pulso_crm.Access.Record.{
  same_entry, add_attempt, decremented, CheckResponse, attendance_row, has_no_class,
  decrement_classes, decrement_period, write_decision, record_decision, should_record,
}

-- At most one attendance of a member, a branch and a day.
abbrev pub HasOneEntry : List Attendance → Type 0
HasOneEntry rows =
    (member_id branch_id day : ℕ) → count_where (same_entry member_id branch_id day) rows ≤ 1

-- Two keys that both fit a row are the same key.
same_key :
    (m b d m' b' d' : ℕ) (a : Attendance)
    → same_entry m b d a ≡ true
    → same_entry m' b' d' a ≡ true
    → (m ≡ m') × (b ≡ b') × (d ≡ d')
same_key m b d m' b' d' a h k = (ground arith, ground arith, ground arith)

pub HasOneEntry-append :
    (rows : List Attendance) (a : Attendance) (m b d : ℕ)
    → HasOneEntry rows
    → same_entry m b d a ≡ true
    → find_first (same_entry m b d) rows ≡ none
    → HasOneEntry (rows ++ a ∷ [])
HasOneEntry-append rows a m b d h own free m' b' d' = elim (Bool-cases (same_entry m' b' d' a)) [
  | inr other ↦
      rw (count_where-append (same_entry m' b' d') rows a)
        (rw other (let old = h m' b' d' in omega arith))
  | inl same ↦
      let (em, eb, ed) = same_key m b d m' b' d' a own same in
      let nothing : count_where (same_entry m' b' d') rows ≡ 0 =
        count_where-none (same_entry m' b' d') rows (rw (sym em, sym eb, sym ed) (rw free refl)) in
      rw (count_where-append (same_entry m' b' d') rows a) (rw (same, nothing) (omega arith))
]

abbrev pub find_period : ℕ → Db → Option Membership
find_period id db = find_first (λ m. m.id == id) db.memberships

-- What the use of a class leaves of the period `id`: one class less, and never less than none.
abbrev pub UsesClass : ℕ → Db → Db → Type 0
UsesClass id db db' =
    (c : Membership) (k : ℕ)
    → find_period id db ≡ some c
    → c.classes_remaining ≡ some k
    → (1 ≤ k) × (find_period id db' ≡ some (record c { classes_remaining = some (k - 1) }))

positive_of : (o : Option ℕ) (k : ℕ) → has_no_class o ≡ false → o ≡ some k → 1 ≤ k
positive_of none k h e = cc
positive_of (some n) k h e = ground arith

class_row :
    (c : Membership) (k : ℕ)
    → c.classes_remaining ≡ some k
    → decremented c.classes_remaining ≡ some (k - 1)
class_row c k e = rw e

pub decrement_classes-After :
    (id n : ℕ) (db : Db)
    → 1 ≤ n
    → After
        (λ u d. (d.attendances ≡ db.attendances) × UsesClass id db d)
        (decrement_classes id (some n) db)
unfolding decrement_classes modify
decrement_classes-After id n db h =
    let Q : Unit {0} → Db → Type 0 = λ u d. (d.attendances ≡ db.attendances) × UsesClass id db d in
    let positive : (n == 0) ≡ false = ground arith in
    rw positive (
      After-gets Q _ _ db (
        After-require Q _ _ _ db λ current found. After-throw_when Q _ _ _ db λ left. (
          refl,
          λ c k e v.
              let same : current ≡ c = eq_of_some (sym found ∙ e) in
              let counted : current.classes_remaining ≡ some k =
                subst (λ x. x.classes_remaining ≡ some k) (sym same) v in
              (
                positive_of current.classes_remaining k left counted,
                find_first-update_where (λ m. m.id == id)
                      (λ m. record m { classes_remaining = decremented m.classes_remaining })
                      db.memberships (λ x p. p) e
                    ∙ ap (λ o. some (record c { classes_remaining = o })) (class_row c k v),
              ),
        )))

decrement_period-attendances :
    (period : Option Membership) (db : Db)
    → After (λ u d. d.attendances ≡ db.attendances) (decrement_period period db)
unfolding decrement_period decrement_classes modify pure
decrement_period-attendances none db = refl
decrement_period-attendances (some m) db = go m.classes_remaining
  where
    Q : Unit {0} → Db → Type 0
    Q u d = d.attendances ≡ db.attendances

    go : (left : Option ℕ) → After Q (decrement_classes m.id left db)
    go none = refl
    go (some n) = elim (Bool-cases (n == 0)) [
      | inl none_left ↦ rw none_left refl
      | inr some_left ↦ rw some_left (
          After-gets Q _ _ db
            (After-require Q _ _ _ db λ current found. After-throw_when Q _ _ _ db λ left. refl))
    ]

-- An attempt touches no attendance and no period.
pub add_attempt-After :
    (branch_id : ℕ) (member_id : Option ℕ) (v : Verdict) (attendance : Option ℕ) (db : Db)
    → After
        (λ a d. (d.attendances ≡ db.attendances) × (d.memberships ≡ db.memberships))
        (add_attempt branch_id member_id v attendance db)
unfolding add_attempt ◌>>=◌ fresh modify pure
add_attempt-After branch_id member_id v attendance db = (refl, refl)

-- What a check leaves of the attendances: the row that was due and had no row against it, or nothing.
abbrev pub IsRegistered : ℕ → Option Membership → ℕ → Date → Db → CheckResponse → Db → Type 0
IsRegistered member_id period branch_id today db r d =
    if r.attendance_registered
    then ((id : ℕ) × (d.attendances
          ≡ db.attendances ++ attendance_row id member_id period branch_id today ∷ [])
        × (find_first (same_entry member_id branch_id (key today)) db.attendances ≡ none))
    else (d.attendances ≡ db.attendances) × (d.memberships ≡ db.memberships)

write_decision-IsRegistered :
    (should : Bool) (member_id : ℕ) (period : Option Membership) (branch_id : ℕ) (today : Date)
    (v : Verdict) (db : Db)
    → After (IsRegistered member_id period branch_id today db) (
        write_decision should
          (is_some (find_first (same_entry member_id branch_id (key today)) db.attendances))
          member_id
          period
          branch_id
          today
          v
          db)
unfolding write_decision
write_decision-IsRegistered should member_id period branch_id today v db =
    go should (find_first (same_entry member_id branch_id (key today)) db.attendances) refl
  where
    Q : CheckResponse → Db → Type 0
    Q = IsRegistered member_id period branch_id today db

    go :
        (should : Bool) (row : Option Attendance)
        → find_first (same_entry member_id branch_id (key today)) db.attendances ≡ row
        → After Q (write_decision should (is_some row) member_id period branch_id today v db)
    go false row e =
        After-bind _ Q _ _ db (add_attempt-After _ _ _ _ db) λ a d p. After-pure Q _ d p
    go true (some row) e =
        After-bind _ Q _ _ db (add_attempt-After _ _ _ _ db) λ a d p. After-pure Q _ d p
    go true none e = After-fresh Q _ db (
        After-modify Q _ _ _ (
          After-bind _ Q _ _ _ (decrement_period-attendances period _) λ u d p.
            After-bind _ Q _ _ d (add_attempt-After _ _ _ _ d)
              λ a d' p'. After-pure Q _ d' (db.next_id, p'.0 ∙ p, e)))

pub record_decision-IsRegistered :
    (member_id : ℕ) (period : Option Membership) (branch_id : ℕ) (today : Date) (v : Verdict)
    (register_attendance : Bool) (db : Db)
    → After
        (IsRegistered member_id period branch_id today db)
        (record_decision member_id period branch_id today v register_attendance db)
unfolding record_decision
record_decision-IsRegistered member_id period branch_id today v register_attendance db =
    After-gets (IsRegistered member_id period branch_id today db) _ _ db (
      write_decision-IsRegistered (should_record v register_attendance) member_id period branch_id
        today v db)
