-- ===== src/Worker/Renewals/Posted.antt =====
-- apps/worker/src/jobs/membership-renewal.ts: the debt that the job writes, beside the posting of
-- apps/api/src/modules/members/ledger.ts.
use pulso_crm.Prelude.{
  ℕ, ◌+◌, ◌≡◌, refl, sym, subst, ap, Bool, true, false, not, Option, none, some, List, [], ◌∷◌,
  ◌==◌, ==_iff, ◌&&◌, find_first-fits, Bool-cases, inl, inr, Result, ok, err, find_first, find_many,
  map, eq_of_some,
}
use pulso_crm.Prelude.Int.{ℤ, pos, ◌+ℤ◌, ◌-ℤ◌, neg, leb_ℤ, int_laws}
use pulso_crm.Calendar.{Date, before}
use pulso_crm.Store.{Db, Member, Plan, Branch, Membership, debit}
use pulso_crm.Store.Action.{pure, gets, require, modify, throw_when, ◌>>=◌, fresh}
use pulso_crm.Store.Action.Run.{
  After, After-bind, After-pure, After-gets, After-require, After-lift, After-throw_when,
  After-modify, After-fresh, After-record_audit, After-if,
}
use pulso_crm.Ledger.{
  Posting, delta, find_member, set_balance, entry_of, append_entry, post_ledger_entry,
}
use pulso_crm.Ledger.Consistent.{IsConsistent, posted-Agrees}
use pulso_crm.Memberships.{insert_membership, is_active_member, is_monthly}
use pulso_crm.Memberships.Renewal.{find_membership, is_current}
use pulso_crm.Worker.Renewals.{
  Outcome, RenewalResult, Terms, terms_of, eligible, post_debt, renew_due, on_terms, renew_row,
  renew_found, renew_candidate, renew_all, renew_branch, renew_branches, renew_memberships,
  after_candidate, no_renewals, is_candidate,
}

minus-eq : (a b : ℤ) → a -ℤ b ≡ a +ℤ neg b
minus-eq a b = omega int_laws

-- The rows after a posting.
abbrev posted_rows : Posting → ℤ → Db → Db
posted_rows p b db =
    set_balance p.member_id b
      (append_entry (entry_of db.next_id b p) (record db { next_id = db.next_id + 1 }))

-- A posting that goes through.
post_ledger_entry-run :
    (p : Posting) (db : Db) (member : Member)
    → find_member p.member_id db ≡ some member
    → leb_ℤ p.amount (pos 0) ≡ false
    → let b = member.balance +ℤ delta p.type p.amount in
      post_ledger_entry p db ≡ ok (entry_of db.next_id b p, posted_rows p b db)
unfolding post_ledger_entry ◌>>=◌ pure gets require modify throw_when fresh
post_ledger_entry-run p db member found positive = rw positive (rw (found, require) refl)

-- For a debit of a positive amount to the member that is found under its id, the entry and the
-- balance that the job writes are those of `postLedgerEntry`.
pub post_debt-eq :
    (member : Member) (p : Posting) (db : Db)
    → find_member p.member_id db ≡ some member
    → p.member_id ≡ member.id
    → p.type ≡ debit
    → leb_ℤ p.amount (pos 0) ≡ false
    → post_debt member p db ≡ (post_ledger_entry p >>= λ entry. pure tt) db
unfolding post_debt ◌>>=◌ pure modify fresh
post_debt-eq member p db found own kind positive =
    rw (post_ledger_entry-run p db member found positive, ◌>>=◌)
      (rw kind (rw (minus-eq member.balance p.amount) (rw own refl)))

-- A run leaves the members and the entries alone.
abbrev SameAccounts : Db → Db → Type 0
SameAccounts db d = (d.members ≡ db.members) × (d.entries ≡ db.entries)

insert_membership-SameAccounts :
    (m : Membership) (db : Db) → After (λ u d. SameAccounts db d) (insert_membership m db)
unfolding insert_membership modify
insert_membership-SameAccounts m db =
    let Q : Unit {0} → Db → Type 0 = λ u d. SameAccounts db d in
    After-throw_when Q _ _ _ db λ dated. After-gets Q _ _ db (
      After-throw_when Q _ _ _ db
        λ single. After-gets Q _ _ db (After-throw_when Q _ _ _ db λ apart. (refl, refl)))

post_debt-IsConsistent :
    (member : Member) (p : Posting) (db : Db)
    → IsConsistent db
    → find_member p.member_id db ≡ some member
    → p.member_id ≡ member.id
    → p.type ≡ debit
    → After (λ u d. IsConsistent d) (post_debt member p db)
unfolding post_debt ◌>>=◌ pure modify fresh
post_debt-IsConsistent member p db h found own kind =
    let debit_eq : member.balance +ℤ delta p.type p.amount ≡ member.balance -ℤ p.amount =
      rw kind (sym (minus-eq member.balance p.amount)) in
    let b = member.balance -ℤ p.amount in
    subst
      (λ i. IsConsistent (
        set_balance i b
          (append_entry (entry_of db.next_id b p) (record db { next_id = db.next_id + 1 }))))
      own
      (subst (λ c. IsConsistent (posted_rows p c db)) debit_eq
        (posted-Agrees db p db.next_id member h found))

IsConsistent-same : (db d : Db) → SameAccounts db d → IsConsistent db → IsConsistent d
IsConsistent-same db d same h = rw (same.0, same.1) h

find_member-same :
    (m : Member) (d : Db) (id : ℕ) (db : Db)
    → SameAccounts db d
    → m.id ≡ id
    → find_member id db ≡ some m
    → find_member m.id d ≡ some m
find_member-same m d id db same own found =
    subst (λ i. find_first (λ r. r.id == i) d.members ≡ some m) (sym own) (rw (same.0) found)

renew_due-IsConsistent :
    (branch_id : ℕ) (today : Date) (previous : Membership) (t : Terms) (db : Db)
    → IsConsistent db
    → find_member previous.member_id db ≡ some t.member
    → After (λ o d. IsConsistent d) (renew_due branch_id today previous t db)
unfolding renew_due
renew_due-IsConsistent branch_id today previous t db h found =
    let Q : Option Outcome → Db → Type 0 = λ o d. IsConsistent d in
    let own : t.member.id ≡ previous.member_id =
      (==_iff _ _).0 (find_first-fits (λ m. m.id == previous.member_id) db.members found) in
    After-lift Q _ _ db λ next n. After-lift Q _ _ db λ w f. After-require Q _ _ _ db λ window c.
      After-lift Q _ _ db λ end e. After-throw_when Q _ _ _ db λ positive. After-modify Q _ _ db (
        After-fresh Q _ _ (
          After-bind (λ u d. SameAccounts db d) Q _ _ _ (insert_membership-SameAccounts _ _)
            λ u d1 same.
              After-bind (λ u d. IsConsistent d) Q _ _ d1
                (post_debt-IsConsistent t.member _ d1 (IsConsistent-same db d1 same h)
                  (find_member-same t.member d1 previous.member_id db same own found) refl refl)
                λ u2 d2 k. After-record_audit Q _ _ _ _ d2 λ events. After-pure Q _ _ k))

-- The terms are of the rows that were read.
terms_of-reads :
    (m : Member) (plan : Plan) (end start : Option Date) (anchor : Option ℕ) {t : Terms}
    → terms_of m plan end start anchor ≡ some t
    → (m ≡ t.member) × (start ≡ some t.start)
unfolding terms_of
terms_of-reads m plan (some end) (some start) (some a) e = elim (Bool-cases (a == 0)) [
  | inl z ↦ cc (rw z at e)
  | inr z ↦ let own = eq_of_some (rw z at e) in (ap (λ u. u.member) own, ap (λ u. some u.start) own)
]
terms_of-reads m plan none start anchor e = cc
terms_of-reads m plan (some end) none anchor e = cc
terms_of-reads m plan (some end) (some start) none e = cc

pub eligible-reads :
    (previous : Membership) (member : Option Member) (plan : Option Plan) (branch : Option Branch)
    (b : Bool) {t : Terms}
    → eligible previous member plan branch b ≡ some t
    → (member ≡ some t.member) × (previous.next_renewal_date ≡ some t.start)
unfolding eligible
eligible-reads previous (some m) (some p) (some br) false e =
    elim (Bool-cases (
      (is_active_member m.status && not m.deleted)
      && ((p.is_active && (not p.deleted && is_monthly p.billing_cycle))
          && ((br.is_active && not br.deleted) && is_current previous.status)))) [
            | inl h ↦
                let reads =
                  terms_of-reads m p previous.end_date previous.next_renewal_date
                    previous.renewal_anchor_day (rw h at e) in
                (ap some reads.0, reads.1)
            | inr h ↦ cc (rw h at e)
          ]
eligible-reads previous none plan branch b e = cc
eligible-reads previous (some m) none branch b e = cc
eligible-reads previous (some m) (some p) none b e = cc
eligible-reads previous (some m) (some p) (some br) true e = cc

on_terms-IsConsistent :
    (branch_id : ℕ) (today : Date) (previous : Membership) (o : Option Terms) (db : Db)
    → IsConsistent db
    → ((t : Terms) → o ≡ some t → find_member previous.member_id db ≡ some t.member)
    → After (λ o d. IsConsistent d) (on_terms branch_id today previous o db)
unfolding on_terms
on_terms-IsConsistent branch_id today previous none db h found =
    let Q : Option Outcome → Db → Type 0 = λ o d. IsConsistent d in
    After-modify Q _ _ db (After-record_audit Q _ _ _ _ _ λ events. After-pure Q _ _ h)
on_terms-IsConsistent branch_id today previous (some t) db h found =
    After-if (λ o d. IsConsistent d) (before today t.start) _ _ db
      (λ early. After-pure (λ o d. IsConsistent d) none db h)
      (λ due. renew_due-IsConsistent branch_id today previous t db h (found t refl))

renew_candidate-IsConsistent :
    (branch_id : ℕ) (today : Date) (id : ℕ) (db : Db)
    → IsConsistent db
    → After (λ o d. IsConsistent d) (renew_candidate branch_id today id db)
unfolding renew_candidate renew_row renew_found
renew_candidate-IsConsistent branch_id today id db h =
    After-gets Q _ _ db (go (find_membership id db))
  where
    Q : Option Outcome → Db → Type 0
    Q o d = IsConsistent d

    row : (m : Membership) → After (λ o d. IsConsistent d) (renew_row branch_id today m db)
    row m = After-gets Q _ _ db (
        After-gets Q _ _ db (
          After-gets Q _ _ db (
            After-gets Q _ _ db (
              on_terms-IsConsistent branch_id today m _ db h
                λ t e. (eligible-reads m _ _ _ _ e).0))))

    go : (o : Option Membership) → After (λ o d. IsConsistent d) (renew_found branch_id today o db)
    go none = After-pure Q none db h
    go (some m) = After-if Q m.auto_renew _ _ db (λ on. row m) (λ off. After-pure Q none db h)

after_candidate-IsConsistent :
    (r : RenewalResult) (db : Db) (run : Result (Option Outcome × Db))
    → IsConsistent db
    → After (λ o d. IsConsistent d) run
    → IsConsistent (after_candidate r db run).1
after_candidate-IsConsistent r db (ok (o, d)) h k = k
after_candidate-IsConsistent r db (err e) h k = h

renew_all-IsConsistent :
    (branch_id : ℕ) (today : Date) (ids : List ℕ) (r : RenewalResult) (db : Db)
    → IsConsistent db
    → IsConsistent (renew_all branch_id today ids r db).1
unfolding renew_all
renew_all-IsConsistent branch_id today [] r db h = h
renew_all-IsConsistent branch_id today (id ∷ ids) r db h =
    let run = renew_candidate branch_id today id db in
    renew_all-IsConsistent branch_id today ids (after_candidate r db run).0
      (after_candidate r db run).1
      (after_candidate-IsConsistent r db run h
        (renew_candidate-IsConsistent branch_id today id db h))

renew_branches-IsConsistent :
    (business_day : ℕ → Date) (bs : List Branch) (r : RenewalResult) (db : Db)
    → IsConsistent db
    → IsConsistent (renew_branches business_day bs r db).1
unfolding renew_branches renew_branch
renew_branches-IsConsistent business_day [] r db h = h
renew_branches-IsConsistent business_day (b ∷ bs) r db h =
    let ids = map (λ m. m.id) (find_many (is_candidate b.id) db.memberships) in
    let next = renew_all b.id (business_day b.id) ids r db in
    renew_branches-IsConsistent business_day bs next.0 next.1
      (renew_all-IsConsistent b.id (business_day b.id) ids r db h)

-- If every cached balance is the sum of its member's entries, it still is after the job has renewed
-- what it can, whatever fails.
pub renew_memberships-IsConsistent :
    (business_day : ℕ → Date) (db : Db)
    → IsConsistent db
    → IsConsistent (renew_memberships business_day db).1
unfolding renew_memberships
renew_memberships-IsConsistent business_day db h =
    renew_branches-IsConsistent business_day db.branches no_renewals db h
