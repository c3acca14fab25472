-- ===== src/Worker/Renewals/Settled.antt =====
-- apps/worker/src/jobs/membership-renewal.ts: the periods that are due after a branch.
use pulso_crm.Prelude.{
  ℕ, ◌+◌, ◌≤◌, ◌≡◌, refl, sym, subst, ap, ◌∙◌, Bool, true, false, not, Option, none, some, List, [],
  ◌∷◌, ◌==◌, ==_iff, ◌&&◌, ◌||◌, find_first, find_first-fits, update_where, includes, find_many,
  map, Bool-cases, inl, inr, Result, ok, err, eq_of_some, arith,
}
use pulso_crm.Calendar.{Date, before}
use pulso_crm.Calendar.Period.{catch_up_fuel}
use pulso_crm.Calendar.Renewed.{first_window}
use pulso_crm.Store.{Db, Membership}
use pulso_crm.Store.Action.Run.{
  After, After-bind, After-pure, After-gets, After-require, After-lift, After-throw_when,
  After-modify, After-fresh, After-record_audit, After-if,
}
use pulso_crm.Memberships.{stopped_period, stop_renewal}
use pulso_crm.Memberships.Renewal.{find_membership}
use pulso_crm.Worker.Renewals.{
  Outcome, RenewalResult, Terms, of_branch, renew_due, on_terms, renew_row, renew_found,
  renew_candidate, renew_all, renew_branch, after_candidate, count_outcome, stopped, renewed,
  next_period, expired_period, is_candidate,
}
use pulso_crm.Worker.Renewals.Posted.{eligible-reads}
use pulso_crm.Worker.Renewals.Due.{
  later_than, is_due, OnlyDue, catch_up-later, done, write_done, append_done,
  insert_membership-rows, post_debt-rows,
}

renew_due-OnlyDue :
    (branch_id : ℕ) (today : Date) (previous : Membership) (t : Terms) (ids : List ℕ) (db : Db)
    → OnlyDue branch_id today (previous.id ∷ ids) db
    → After (λ o d. OnlyDue branch_id today ids d) (renew_due branch_id today previous t db)
unfolding renew_due
renew_due-OnlyDue branch_id today previous t ids db h =
    let Q : Option Outcome → Db → Type 0 = λ o d. OnlyDue branch_id today ids d in
    After-lift Q _ _ db λ next n. After-lift Q _ _ db λ w w_found.
      After-require Q _ _ _ db λ window same. After-lift Q _ _ db λ end e.
        After-throw_when Q _ _ _ db λ positive. After-modify Q _ _ db (
          After-fresh Q _ _ (
            After-bind _ Q _ _ _ (insert_membership-rows _ _) λ u d1 added.
              After-bind _ Q _ _ d1 (post_debt-rows _ _ d1) λ u2 d2 kept.
                After-record_audit Q _ _ _ _ d2 λ events. After-pure Q _ _ (
                  append_done branch_id today ids
                    (next_period db.next_id branch_id previous t window end) (expired db) d2
                    (rw
                      (catch_up-later (catch_up_fuel today) today t.anchor
                        (first_window t.start next) (w_found ∙ ap ok same))
                      refl)
                    (kept ∙ added)
                    (write_done branch_id today previous.id ids expired_period db (expired db)
                      (λ x. (refl, refl)) refl h))))
  where
    expired : Db → Db
    expired d = record d {
      memberships = update_where (λ m. m.id == previous.id) expired_period d.memberships;
    }

and_false : (b : Bool) → b && false ≡ false
and_false true = refl
and_false false = refl

on_terms-OnlyDue :
    (branch_id : ℕ) (today : Date) (previous : Membership) (o : Option Terms) (ids : List ℕ)
    (db : Db)
    → OnlyDue branch_id today (previous.id ∷ ids) db
    → find_membership previous.id db ≡ some previous
    → ((t : Terms) → o ≡ some t → previous.next_renewal_date ≡ some t.start)
    → After (λ o d. OnlyDue branch_id today ids d) (on_terms branch_id today previous o db)
unfolding on_terms
on_terms-OnlyDue branch_id today previous none ids db h found start =
    let Q : Option Outcome → Db → Type 0 = λ o d. OnlyDue branch_id today ids d in
    After-modify Q _ _ db (
      After-record_audit Q _ _ _ _ _ λ events. After-pure Q _ _ (
        write_done branch_id today previous.id ids stopped_period db
          (record (stop_renewal previous.id db) { audit = events }) (λ x. (refl, refl)) refl h))
on_terms-OnlyDue branch_id today previous (some t) ids db h found start =
    let Q : Option Outcome → Db → Type 0 = λ o d. OnlyDue branch_id today ids d in
    After-if Q (before today t.start) _ _ db
      (λ early. After-pure Q none db (
        done branch_id today previous.id ids db h λ m m_found.
          subst (λ r. is_due branch_id today r ≡ false) (eq_of_some (sym found ∙ m_found))
            (not_yet early)))
      (λ due. renew_due-OnlyDue branch_id today previous t ids db h)
  where
    not_yet : before today t.start ≡ true → is_due branch_id today previous ≡ false
    not_yet early = rw (start t refl) (rw early (and_false previous.auto_renew))

-- The transaction for a candidate leaves it settled.
renew_candidate-OnlyDue :
    (branch_id : ℕ) (today : Date) (id : ℕ) (ids : List ℕ) (db : Db)
    → OnlyDue branch_id today (id ∷ ids) db
    → After (λ o d. OnlyDue branch_id today ids d) (renew_candidate branch_id today id db)
unfolding renew_candidate renew_row renew_found
renew_candidate-OnlyDue branch_id today id ids db h =
    After-gets Q _ _ db (go (find_membership id db) refl)
  where
    Q : Option Outcome → Db → Type 0
    Q o d = OnlyDue branch_id today ids d

    idle : (m : Membership) → m.auto_renew ≡ false → is_due branch_id today m ≡ false
    idle m off =
        ap
          (λ b.
            b && (not (later_than today m.next_renewal_date) && of_branch branch_id m.branch_id))
          off

    row :
        (m : Membership)
        → m.id ≡ id
        → find_membership id db ≡ some m
        → After (λ o d. OnlyDue branch_id today ids d) (renew_row branch_id today m db)
    row m own found = After-gets Q _ _ db (
        After-gets Q _ _ db (
          After-gets Q _ _ db (
            After-gets Q _ _ db (
              on_terms-OnlyDue branch_id today m _ ids db
                (subst (λ k. OnlyDue branch_id today (k ∷ ids) db) (sym own) h)
                (subst (λ k. find_membership k db ≡ some m) (sym own) found)
                λ t e. (eligible-reads m _ _ _ _ e).1))))

    go :
        (o : Option Membership)
        → find_membership id db ≡ o
        → After (λ o d. OnlyDue branch_id today ids d) (renew_found branch_id today o db)
    go none e = After-pure Q none db (done branch_id today id ids db h λ m found. cc (e, found))
    go (some m) e =
        After-if Q m.auto_renew _ _ db
          (λ on. row m ((==_iff m.id id).0 (find_first-fits (λ r. r.id == id) db.memberships e)) e)
          (λ off. After-pure Q none db (
            done branch_id today id ids db h λ x found.
              subst (λ r. is_due branch_id today r ≡ false) (eq_of_some (sym e ∙ found))
                (idle m off)))

count_outcome-failures :
    (o : Option Outcome) (r : RenewalResult) → r.failures ≡ (count_outcome o r).failures
unfolding count_outcome
count_outcome-failures none r = refl
count_outcome-failures (some stopped) r = refl
count_outcome-failures (some (renewed n)) r = refl

-- Failures are only counted up.
renew_all-failures :
    (branch_id : ℕ) (today : Date) (ids : List ℕ) (r : RenewalResult) (db : Db)
    → r.failures ≤ (renew_all branch_id today ids r db).0.failures
unfolding renew_all
renew_all-failures branch_id today [] r db = omega arith
renew_all-failures branch_id today (id ∷ ids) r db =
    go (renew_candidate branch_id today id db) (λ r' d. renew_all-failures branch_id today ids r' d)
  where
    go :
        (run : Result (Option Outcome × Db))
        → ((r' : RenewalResult) (d : Db)
            → r'.failures ≤ (renew_all branch_id today ids r' d).0.failures)
        → r.failures
          ≤ (renew_all branch_id today ids
              (after_candidate r db run).0
              (after_candidate r db run).1).0.failures
    go (ok (o, d)) ih = omega (arith, count_outcome-failures o r, ih (count_outcome o r) d)
    go (err e) ih = omega (arith, ih (record r { failures = r.failures + 1 }) db)

renew_all-OnlyDue :
    (branch_id : ℕ) (today : Date) (ids : List ℕ) (r : RenewalResult) (db : Db)
    → OnlyDue branch_id today ids db
    → (renew_all branch_id today ids r db).0.failures ≡ r.failures
    → OnlyDue branch_id today [] (renew_all branch_id today ids r db).1
unfolding renew_all
renew_all-OnlyDue branch_id today [] r db h none_failed = h
renew_all-OnlyDue branch_id today (id ∷ ids) r db h none_failed =
    go (renew_candidate branch_id today id db) (renew_candidate-OnlyDue branch_id today id ids db h)
      none_failed (λ r' d. renew_all-OnlyDue branch_id today ids r' d)
  where
    go :
        (run : Result (Option Outcome × Db))
        → After (λ o d. OnlyDue branch_id today ids d) run
        → (renew_all branch_id today ids
            (after_candidate r db run).0
            (after_candidate r db run).1).0.failures
          ≡ r.failures
        → ((r' : RenewalResult) (d : Db)
            → OnlyDue branch_id today ids d
            → (renew_all branch_id today ids r' d).0.failures ≡ r'.failures
            → OnlyDue branch_id today [] (renew_all branch_id today ids r' d).1)
        → OnlyDue branch_id today []
            (renew_all branch_id today ids
              (after_candidate r db run).0
              (after_candidate r db run).1).1
    go (ok (o, d)) left same ih = ih (count_outcome o r) d left (same ∙ count_outcome-failures o r)
    go (err e) left same ih = absurd (
        omega (
          arith,
          same,
          renew_all-failures branch_id today ids (record r { failures = r.failures + 1 }) db,
        ))

-- The rows of the candidates hold all that is due.
candidates-OnlyDue :
    (branch_id : ℕ) (today : Date) (xs : List Membership) (i : ℕ) (m : Membership)
    → find_first (λ r. r.id == i) xs ≡ some m
    → is_due branch_id today m ≡ true
    → includes i (map (λ r. r.id) (find_many (is_candidate branch_id) xs)) ≡ true
candidates-OnlyDue branch_id today [] i m found due = cc
candidates-OnlyDue branch_id today (x ∷ xs) i m found due = elim (Bool-cases (x.id == i)) [
  | inl here ↦
      let own : x ≡ m = eq_of_some (rw here at found) in
      let picked : is_candidate branch_id x ≡ true =
        subst (λ r. is_candidate branch_id r ≡ true) (sym own) (candidate m due) in
      rw picked (rw ((==_iff i x.id).1 (sym ((==_iff x.id i).0 here))) refl)
  | inr away ↦
      let rest = candidates-OnlyDue branch_id today xs i m (rw away at found) due in
      elim (Bool-cases (is_candidate branch_id x)) [
        | inl picked ↦ rw picked (rw rest (or_true (i == x.id)))
        | inr left ↦ rw left rest
      ]
]
  where
    candidate : (r : Membership) → is_due branch_id today r ≡ true → is_candidate branch_id r ≡ true
    candidate r d = ground arith

    or_true : (b : Bool) → b || true ≡ true
    or_true true = refl
    or_true false = refl

-- When the job has gone through a branch and no period has failed, no period of that branch is left
-- whose renewal is on and due, or on and without a date.
pub renew_branch_settles :
    (branch_id : ℕ) (today : Date) (r : RenewalResult) (db : Db)
    → (renew_branch branch_id today r db).0.failures ≡ r.failures
    → (i : ℕ) (m : Membership) → find_membership i (renew_branch branch_id today r db).1 ≡ some m
    → is_due branch_id today m ≡ false
unfolding renew_branch
renew_branch_settles branch_id today r db none_failed i m found =
    let ids = map (λ x. x.id) (find_many (is_candidate branch_id) db.memberships) in
    let left =
      renew_all-OnlyDue branch_id today ids r db (candidates-OnlyDue branch_id today db.memberships)
        none_failed in
    elim (Bool-cases (is_due branch_id today m)) [
      | inl due ↦ cc (left i m found due)
      | inr idle ↦ idle
    ]
