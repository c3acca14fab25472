-- ===== src/Access/Admission.antt =====
-- apps/api/src/modules/access/access.service.ts: `decideAndRecord`, and the classes of the period.
use pulso_crm.Prelude.{
  ℕ, ◌-◌, ◌≤◌, ◌==◌, arith, ◌≡◌, refl, ap, ◌∙◌, sym, subst, Bool, true, false, Option, none, some,
  Bool-cases, inl, inr, find_first, ok, eq_of_some,
}
use pulso_crm.Calendar.{Date}
use pulso_crm.Store.{Db, Member, Membership, AccessDecision, allowed, denied, AccessReason}
use pulso_crm.Store.Action.Run.{
  After, After-ok, After-map, After-bind, After-gets, After-pure, After-modify, After-fresh,
}
use pulso_crm.Store.Action.{pure}
use pulso_crm.Access.{Verdict, MemberSnapshot, MembershipSnapshot, PlanSnapshot, evaluate_access}
use pulso_crm.Access.Chain.{MayEnter, evaluate_access_sound}
use pulso_crm.Access.Check.{latest_period, snapshot, period_of}
use pulso_crm.Access.Record.{
  CheckResponse, record_decision, write_decision, should_record, decide_and_record,
  decrement_period, decrement_classes,
}
use pulso_crm.Access.Attendances.{
  UsesClass, find_period, decrement_classes-After, add_attempt-After,
}

should_record-allowed : (v : Verdict) (b : Bool) → should_record v b ≡ true → v.decision ≡ allowed
should_record-allowed v b h = go v.decision v.reason h
  where
    go :
        (d : AccessDecision) (r : AccessReason)
        → should_record (record { decision = d; reason = r }) b ≡ true
        → d ≡ allowed
    go allowed r e = refl
    go denied r e = cc

-- What a registered entry means for the period that was read.
abbrev pub Costs : Option Membership → Db → Db → Type 0
Costs period db d =
    (p : Membership) (k : ℕ)
    → period ≡ some p
    → p.classes_remaining ≡ some k
    → 1 ≤ k
    → UsesClass p.id db d

decrement_period-Costs :
    (period : Option Membership) (db : Db)
    → After (λ u d. Costs period db d) (decrement_period period db)
unfolding decrement_period pure decrement_classes
decrement_period-Costs none db = λ p k e. cc
decrement_period-Costs (some m) db = go m.classes_remaining refl
  where
    Q : Unit {0} → Db → Type 0
    Q u d = Costs (some m) db d

    go : (left : Option ℕ) → m.classes_remaining ≡ left → After Q (decrement_classes m.id left db)
    go none e = λ p k same v h. cc (sym e ∙ ap (λ x. x.classes_remaining) (eq_of_some same) ∙ v)
    go (some n) e = elim (Bool-cases (n == 0)) [
      | inl zero_left ↦ rw zero_left λ p k same v h.
          let same_count : n ≡ k =
            eq_of_some (sym e ∙ ap (λ x. x.classes_remaining) (eq_of_some same) ∙ v) in
          ground arith
      | inr some_left ↦
          After-map _ Q _
            (λ u d done p k same v h. subst (λ x. UsesClass x.id db d) (eq_of_some same) done.1)
            (decrement_classes-After m.id n db (ground arith))
    ]

write_decision-Costs :
    (should : Bool) (taken : Bool) (member_id : ℕ) (period : Option Membership) (branch_id : ℕ)
    (today : Date) (v : Verdict) (db : Db)
    → After
        (λ r d. r.attendance_registered ≡ true → (should ≡ true) × Costs period db d)
        (write_decision should taken member_id period branch_id today v db)
unfolding write_decision
write_decision-Costs false taken member_id period branch_id today v db =
    let Q : CheckResponse → Db → Type 0 =
      λ r d. r.attendance_registered ≡ true → (false ≡ true) × Costs period db d in
    After-bind _ Q _ _ db (add_attempt-After _ _ _ _ db) λ a d p. After-pure Q _ d λ e. cc e
write_decision-Costs true true member_id period branch_id today v db =
    let Q : CheckResponse → Db → Type 0 =
      λ r d. r.attendance_registered ≡ true → (true ≡ true) × Costs period db d in
    After-bind _ Q _ _ db (add_attempt-After _ _ _ _ db) λ a d p. After-pure Q _ d λ e. cc e
write_decision-Costs true false member_id period branch_id today v db =
    let Q : CheckResponse → Db → Type 0 =
      λ r d. r.attendance_registered ≡ true → (true ≡ true) × Costs period db d in
    After-fresh Q _ db (
      After-modify Q _ _ _ (
        After-bind _ Q _ _ _ (decrement_period-Costs period _) λ u d p.
          After-bind _ Q _ _ d (add_attempt-After _ _ _ _ d) λ a d' p'. After-pure Q _ d' λ e. (
            refl,
            λ q k same v h c j found counted.
                let done = p q k same v h c j found counted in
                (done.0, ap (find_first (λ m. m.id == q.id)) p'.1 ∙ done.1),
          )))

same_classes :
    (o : Option Membership) (p : Membership) (m : MembershipSnapshot)
    → o ≡ some p
    → period_of o ≡ some m
    → m.classes_remaining ≡ p.classes_remaining
same_classes none p m e h = cc
same_classes (some q) p m e h =
    ap (λ x. x.classes_remaining) (sym (eq_of_some h))
    ∙ ap (λ x. x.classes_remaining) (eq_of_some e)

registered :
    (member : Member) (branch_id : ℕ) (today : Date) (register_attendance : Bool) (db : Db)
    {r : CheckResponse} {db' : Db}
    → decide_and_record member branch_id today register_attendance db ≡ ok (r, db')
    → r.attendance_registered ≡ true
    → (should_record (evaluate_access (snapshot member branch_id today db)) register_attendance
        ≡ true)
      × Costs (latest_period member.id db.memberships) db db'
unfolding decide_and_record record_decision
registered member branch_id today register_attendance db e new =
    let seen = snapshot member branch_id today db in
    let period = latest_period member.id db.memberships in
    let should = should_record (evaluate_access seen) register_attendance in
    let Q : CheckResponse → Db → Type 0 =
      λ r d. r.attendance_registered ≡ true → (should ≡ true) × Costs period db d in
    After-ok Q
      (After-gets Q _ _ db (
        After-gets Q _ _ db (
          After-gets Q _ _ db (
            write_decision-Costs should _ member.id period branch_id today (evaluate_access seen)
              db))))
      e new

-- A check of a member that registers an entry was entitled to: the member whose snapshot it took
-- may enter.
pub decide_and_record-MayEnter :
    (member : Member) (branch_id : ℕ) (today : Date) (register_attendance : Bool) (db : Db)
    {r : CheckResponse} {db' : Db}
    → decide_and_record member branch_id today register_attendance db ≡ ok (r, db')
    → r.attendance_registered ≡ true
    → (m : MemberSnapshot) × (p : MembershipSnapshot) × (t : PlanSnapshot) × MayEnter
        (snapshot member branch_id today db)
        m
        p
        t
decide_and_record-MayEnter member branch_id today register_attendance db e new =
    let seen = snapshot member branch_id today db in
    evaluate_access_sound seen (
      should_record-allowed (evaluate_access seen) register_attendance
        (registered member branch_id today register_attendance db e new).0)

-- A check that registers an entry costs a class: if the period that it read counts its classes, and
-- is the row that its id finds, then it had one left, and afterwards that row has one less.
pub decide_and_record-UsesClass :
    (member : Member) (branch_id : ℕ) (today : Date) (register_attendance : Bool) (db : Db)
    (p : Membership) (k : ℕ) {r : CheckResponse} {db' : Db}
    → decide_and_record member branch_id today register_attendance db ≡ ok (r, db')
    → r.attendance_registered ≡ true
    → latest_period member.id db.memberships ≡ some p
    → p.classes_remaining ≡ some k
    → find_period p.id db ≡ some p
    → (1 ≤ k) × (find_period p.id db' ≡ some (record p { classes_remaining = some (k - 1) }))
unfolding snapshot
decide_and_record-UsesClass member branch_id today register_attendance db p k e new same counted
      found =
    let (m, q, t, may) =
      decide_and_record-MayEnter member branch_id today register_attendance db e new in
    (registered member branch_id today register_attendance db e new).1 p k same counted
      (may.classes_left k
        (same_classes (latest_period member.id db.memberships) p q same may.period ∙ counted))
      p k found counted
