-- ===== src/Worker/Renewals/Due.antt =====
-- apps/worker/src/jobs/membership-renewal.ts: the periods that are due, after one write.
use pulso_crm.Prelude.{
  ℕ, zero, suc, ◌+◌, ◌≡◌, refl, sym, subst, ap, ◌∙◌, Bool, true, false, not, Option, none, some,
  List, [], ◌∷◌, ◌++◌, ◌==◌, ==_iff, if◌then◌else◌, ◌&&◌, find_first, find_first-fits, update_where,
  updated, find_first-update_kept, find_first-append_cases, includes, Bool-cases, inl, inr, Result,
  ok, err, ◌>>=◌, eq_of_some, eq_of_ok,
}
use pulso_crm.Calendar.{Date, before, next_monthly_date}
use pulso_crm.Calendar.Period.{Window, catch_up}
use pulso_crm.Store.{Db, Member, Branch, Membership}
use pulso_crm.Store.Action.{
  Action, pure, gets, lift, require, modify, throw_when, fresh, record_audit,
}
use pulso_crm.Store.Action.Run.{After, After-gets, After-throw_when}
use pulso_crm.Ledger.{Posting}
use pulso_crm.Memberships.{insert_membership}
use pulso_crm.Memberships.Renewal.{find_membership}
use pulso_crm.Worker.Renewals.{of_branch, post_debt}

abbrev pub later_than : Date → Option Date → Bool
later_than today none = false
later_than today (some d) = before today d

-- A period of the branch that renews itself and whose renewal is due, or has no date.
abbrev pub is_due : ℕ → Date → Membership → Bool
is_due branch_id today m =
    m.auto_renew && (not (later_than today m.next_renewal_date) && of_branch branch_id m.branch_id)

-- What is due can only be found under these ids.
abbrev pub OnlyDue : ℕ → Date → List ℕ → Db → Type 0
OnlyDue branch_id today ids db =
    (i : ℕ) (m : Membership)
    → find_membership i db ≡ some m
    → is_due branch_id today m ≡ true
    → includes i ids ≡ true

-- Where the loop ends the next date is past today.
pub catch_up-later :
    (fuel : ℕ) (today : Date) (a : ℕ) (w : Window) {v : Window}
    → catch_up fuel today a w ≡ ok (some v)
    → before today v.next ≡ true
unfolding catch_up
catch_up-later zero today a w e = cc
catch_up-later (suc fuel) today a w {v} e = elim (Bool-cases (before today w.next)) [
  | inl h ↦ subst (λ x. before today x.next ≡ true) (same (rw h at e)) h
  | inr h ↦ go (next_monthly_date w.next (some a)) (λ u. catch_up-later fuel today a u) (rw h at e)
]
  where
    same : ok (some w) ≡ ok (some v) → w ≡ v
    same k = eq_of_some (eq_of_ok k)

    go :
        (r : Result Date)
        → ((u : Window) → catch_up fuel today a u ≡ ok (some v) → before today v.next ≡ true)
        → (r >>= λ later.
            catch_up fuel today a
              (record { start = w.next; next = later; skipped = w.skipped + 1 }))
          ≡ ok (some v)
        → before today v.next ≡ true
    go (ok later) ih k = ih (record { start = w.next; next = later; skipped = w.skipped + 1 }) k
    go (err x) ih k = cc

-- A candidate that is not due is done with.
pub done :
    (branch_id : ℕ) (today : Date) (id : ℕ) (ids : List ℕ) (db : Db)
    → OnlyDue branch_id today (id ∷ ids) db
    → ((m : Membership) → find_membership id db ≡ some m → is_due branch_id today m ≡ false)
    → OnlyDue branch_id today ids db
done branch_id today id ids db h settled i m found due = elim (Bool-cases (i == id)) [
  | inl e ↦
      let own : i ≡ id = (==_iff i id).0 e in
      cc (due, settled m (subst (λ k. find_membership k db ≡ some m) own found))
  | inr e ↦ rw e at (h i m found due)
]

-- A write that ends the recurrence of the candidate.
pub write_done :
    (branch_id : ℕ) (today : Date) (id : ℕ) (ids : List ℕ) (f : Membership → Membership) (db d : Db)
    → ((x : Membership) → ((f x).id ≡ x.id) × (is_due branch_id today (f x) ≡ false))
    → d.memberships ≡ update_where (λ m. m.id == id) f db.memberships
    → OnlyDue branch_id today (id ∷ ids) db
    → OnlyDue branch_id today ids d
write_done branch_id today id ids f db d off rows h i m found due = go (find_membership i db) refl (
    sym (
      find_first-update_kept (λ r. r.id == i) (λ r. r.id == id) f db.memberships
        (λ x. ap (λ k. k == i) (off x).0))
    ∙ sym (ap (find_first (λ r. r.id == i)) rows)
    ∙ found)
  where
    step :
        (x : Membership)
        → find_membership i db ≡ some x
        → (if x.id == id then f x else x) ≡ m
        → includes i ids ≡ true
    step x here same = elim (Bool-cases (x.id == id)) [
      | inl e ↦ cc (due, subst (λ r. is_due branch_id today r ≡ false) (rw e at same) (off x).1)
      | inr e ↦
          let old : x ≡ m = rw e at same in
          let own : x.id ≡ i =
            (==_iff x.id i).0 (find_first-fits (λ r. r.id == i) db.memberships here) in
          let apart : (i == id) ≡ false = subst (λ k. (k == id) ≡ false) own e in
          rw apart at (h i x here (subst (λ r. is_due branch_id today r ≡ true) (sym old) due))
    ]

    go :
        (o : Option Membership)
        → find_membership i db ≡ o
        → updated (λ r. r.id == id) f o ≡ some m
        → includes i ids ≡ true
    go none here e = cc
    go (some x) here e = step x here (eq_of_some e)

-- A new period that is not due.
pub append_done :
    (branch_id : ℕ) (today : Date) (ids : List ℕ) (new : Membership) (db d : Db)
    → is_due branch_id today new ≡ false
    → d.memberships ≡ db.memberships ++ new ∷ []
    → OnlyDue branch_id today ids db
    → OnlyDue branch_id today ids d
append_done branch_id today ids new db d off rows h i m found due =
    elim (find_first-append_cases (λ r. r.id == i) db.memberships new
      (sym (ap (find_first (λ r. r.id == i)) rows) ∙ found)) [
        | inl old ↦ h i m old due
        | inr own ↦ cc (due, off, ap (is_due branch_id today) own)
      ]

pub insert_membership-rows :
    (m : Membership) (db : Db)
    → After (λ u d. d.memberships ≡ db.memberships ++ m ∷ []) (insert_membership m db)
unfolding insert_membership modify
insert_membership-rows m db =
    let Q : Unit {0} → Db → Type 0 = λ u d. d.memberships ≡ db.memberships ++ m ∷ [] in
    After-throw_when Q _ _ _ db λ dated. After-gets Q _ _ db (
      After-throw_when Q _ _ _ db
        λ single. After-gets Q _ _ db (After-throw_when Q _ _ _ db λ apart. refl))

pub post_debt-rows :
    (member : Member) (p : Posting) (db : Db)
    → After (λ u d. d.memberships ≡ db.memberships) (post_debt member p db)
unfolding post_debt pulso_crm.Store.Action.◌>>=◌ modify fresh
post_debt-rows member p db = refl
