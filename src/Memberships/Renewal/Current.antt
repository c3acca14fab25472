-- ===== src/Memberships/Renewal/Current.antt =====
-- apps/api/src/modules/memberships/memberships.service.ts: the dates of a renewal.
use pulso_crm.Prelude.{
  ℕ, ◌≤◌, ◌<◌, ◌≡◌, refl, ◌∙◌, sym, subst, ap, Option, none, some, Result, ok, err, ◌⊎◌, arith,
  eq_of_ok, eq_of_some, ◌==◌, find_first,
}
use pulso_crm.Prelude.Int.{ℤ}
use native.Mathlib.Nat.{lt_of_lt_of_le}
use pulso_crm.Calendar.{Date, key, IsDate, next_day, get_or, add_days, days_after, monthly_end_date}
use pulso_crm.Calendar.Days.{key-next_day, next_day-IsDate, days_in_month_bounds}
use pulso_crm.Calendar.Anchor.{IsAnchor, next_monthly_date-eq}
use pulso_crm.Calendar.Period.{Window, monthly_end_date-IsMonthlyPeriod, key-le_of_lt_next}
use pulso_crm.Calendar.Renewed.{IsRenewal, catch_up-IsRenewal}
use pulso_crm.Store.{Db, Membership, PaymentMethod, Plan}
use pulso_crm.Store.Action.{Action, lift, require, ◌>>=◌}
use pulso_crm.Store.Action.Run.{
  After, After-ok, After-bind, After-pure, After-gets, After-require, After-lift, After-throw_when,
  After-modify, After-fresh, After-record_audit,
}
use pulso_crm.Store.Action.Frame.{
  Steps, steps, IsFrame, Steps-pure, Steps-gets, Steps-lift, Steps-require, Steps-throw_when, ◌▸◌,
}
use pulso_crm.Store.Context.{TenantContext}
use pulso_crm.Cash.{require_open_session_for_user}
use pulso_crm.Memberships.{Charge, on_account, now, check_permission, check_session}
use pulso_crm.Memberships.Renewal.{
  find_membership, lock_period, renewal_window, renewed_period, assign_renewal, renewal_branch,
  renew_locked, check_renewal, renew,
}

-- Dates that a period is renewed by: real days, and an anchor that is a day of a month.
pub record HasRealDates (m : Membership) : Type 0 where
  pub start : IsDate m.start_date
  pub end : (d : Date) → m.end_date ≡ some d → IsDate d
  pub anchor : (a : ℕ) → m.renewal_anchor_day ≡ some a → IsAnchor a

-- The period that renews `old`, which ended on `end`: it is the same member's and comes after it. It
-- is not over today, and follows at once or has begun.
pub record Renews (old : Membership) (end today : Date) (m : Membership) : Type 0 where
  pub successor : m.renewed_from_id ≡ some old.id
  pub member : m.member_id ≡ old.member_id
  pub later : key end < key m.start_date
  pub prompt : (m.start_date ≡ next_day end) ⊎ (key m.start_date ≤ key today)
  pub last : Date
  pub ends : m.end_date ≡ some last
  pub ordered : key m.start_date ≤ key last
  pub not_over : key today ≤ key last

get_or-IsAnchor :
    (m : Membership) → HasRealDates m → IsAnchor (get_or m.renewal_anchor_day m.start_date.day)
get_or-IsAnchor m h = go m.renewal_anchor_day h.anchor
  where
    go : (o : Option ℕ) → ((a : ℕ) → o ≡ some a → IsAnchor a) → IsAnchor (get_or o m.start_date.day)
    go none k = omega (arith, h.start, days_in_month_bounds m.start_date.year m.start_date.month)
    go (some a) k = k a refl

-- With real dates the loop ends within its fuel.
renewal_window_total :
    (end : Date) (a : ℕ) (today : Date) (db : Db)
    → IsDate end
    → IsDate today
    → IsAnchor a
    → (w : Window) × (renewal_window end a today db ≡ ok (w, db))
      × IsRenewal (next_day end) a today w
unfolding renewal_window lift require ◌>>=◌ add_days days_after
renewal_window_total end a today db real h k =
    let first = next_day-IsDate end real in
    let (w, run, found) = catch_up-IsRenewal (next_day end) a today first h k in
    (w, rw (next_monthly_date-eq (next_day end) a first k) (rw run refl), found)

renewal_window-finds :
    (end : Date) (a : ℕ) (today : Date) (db : Db)
    → IsDate end
    → IsDate today
    → IsAnchor a
    → After (λ w d. IsRenewal (next_day end) a today w) (renewal_window end a today db)
renewal_window-finds end a today db real h k =
    let (w, run, found) = renewal_window_total end a today db real h k in rw run found

-- Every run has a result or not, whatever it is.
After-any {ℓ} : {A : Type ℓ} (r : Result (A × Db)) → After (λ a d. Unit {0}) r
After-any (ok (a, d)) = tt
After-any (err e) = tt

-- The dates of the row that a renewal writes.
renewed_period-Renews :
    (id branch_id : ℕ) (old : Membership) (plan : Plan) (a : ℕ) (w : Window) (end last today : Date)
    (price : ℤ)
    → IsDate end
    → IsDate today
    → IsRenewal (next_day end) a today w
    → IsAnchor a
    → monthly_end_date w.start (some a) ≡ ok last
    → Renews old end today (renewed_period id branch_id old plan a w last price)
renewed_period-Renews id branch_id old plan a w end last today price real h k anchor e =
    let (last', e', month) = monthly_end_date-IsMonthlyPeriod w.start a k.real anchor in
    let same : last' ≡ last = eq_of_ok (sym e' ∙ e) in
    let next : w.next ≡ next_day last' =
      k.adjacent ∙ eq_of_ok (sym (next_monthly_date-eq w.start a k.real anchor) ∙ month.adjacent) in
    record {
      successor = refl;
      member = refl;
      later = lt_of_lt_of_le (key-next_day end real) k.later;
      prompt = k.prompt;
      last = last;
      ends = refl;
      ordered = subst (λ d. key w.start ≤ key d) same month.ordered;
      not_over =
          subst (λ d. key today ≤ key d) same
            (key-le_of_lt_next today last' h month.real
              (subst (λ d. key today < key d) next k.not_over));
    }

-- The period that is returned is the one that was given.
assign_renewal-returns :
    (Q : Membership → Db → Type 0) (ctx : TenantContext) (branch_id : ℕ) (m : Membership)
    (method : Option PaymentMethod) (db : Db)
    → ((d : Db) → Q m d)
    → After Q (assign_renewal ctx branch_id m method db)
unfolding assign_renewal
assign_renewal-returns Q ctx branch_id m method db h =
    After-bind _ Q _ _ db (After-any _) λ u d1 t1.
      After-bind _ Q _ _ d1 (After-any _) λ entry d2 t2.
        After-bind _ Q _ _ d2 (After-any _)
          λ u2 d3 t3. After-record_audit Q _ _ _ _ d3 λ events. After-pure Q m _ (h _)

lock_period-finds :
    (ctx : TenantContext) (id : ℕ) (db : Db)
    → After (λ m d. find_membership id db ≡ some m) (lock_period ctx id db)
unfolding lock_period
lock_period-finds ctx id db =
    let Q : Membership → Db → Type 0 = λ m d. find_membership id db ≡ some m in
    After-gets Q _ _ db (
      After-require Q _ _ _ db
        λ m found. After-bind _ Q _ _ db (After-any _) λ u d t. After-pure Q m d found)

-- What a run that returns a renewal of `old` shows.
abbrev Renewed : Membership → Date → Membership → Type 0
Renewed old today m = (end : Date) × (old.end_date ≡ some end) × Renews old end today m

renew_locked-Renewed :
    (ctx : TenantContext) (id : ℕ) (charge : Charge) (branch_id : ℕ) (today : Date) (db : Db)
    (old : Membership)
    → find_membership id db ≡ some old
    → HasRealDates old
    → IsDate today
    → After (λ m d. Renewed old today m) (renew_locked ctx id charge branch_id today db)
unfolding renew_locked
renew_locked-Renewed ctx id charge branch_id today db old found real h =
    let Q : Membership → Db → Type 0 = λ m d. Renewed old today m in
    After-bind _ Q _ _ db (lock_period-finds ctx id db) λ old' d0 found'.
      let same : old' ≡ old = eq_of_some (sym found' ∙ found) in
      After-throw_when Q _ _ _ d0 λ current. After-require Q _ _ _ d0 λ end ends.
        After-gets Q _ _ d0 (
          After-require Q _ _ _ d0 λ member m_found. After-gets Q _ _ d0 (
            After-require Q _ _ _ d0 λ plan p_found. After-throw_when Q _ _ _ d0 λ price_ok.
              After-gets Q _ _ d0 (
                After-require Q _ _ _ d0 λ branch b_found. After-gets Q _ _ d0 (
                  After-throw_when Q _ _ _ d0 λ none_newer.
                    After-bind _ Q _ _ d0
                      (renewal_window-finds end _ today d0 (real_end old' end same ends) h
                        (real_anchor old' same))
                      λ window d1 w_found. After-lift Q _ _ d1 λ last last_found.
                        After-bind _ Q _ _ d1 (After-any _) λ method d2 t2.
                          After-lift Q _ _ d2 λ price quoted.
                            After-throw_when Q _ _ _ d2 λ right_amount. After-modify Q _ _ d2 (
                              After-fresh Q _ _ (
                                assign_renewal-returns Q ctx branch_id _ method _ λ d.
                                  let a = get_or old'.renewal_anchor_day old'.start_date.day in
                                  let m =
                                    renewed_period d2.next_id branch_id old' plan a window last
                                      price in
                                  subst (λ o. Renewed o today m) same
                                    (
                                      end,
                                      ends,
                                      renewed_period-Renews d2.next_id branch_id old' plan a window
                                          end last today price (real_end old' end same ends) h
                                          w_found (real_anchor old' same) last_found,
                                    )))))))
  where
    real_of : (o : Membership) → o ≡ old → HasRealDates o
    real_of o e = subst HasRealDates (sym e) real

    real_end : (o : Membership) (end : Date) → o ≡ old → o.end_date ≡ some end → IsDate end
    real_end o end e ends = (real_of o e).end end ends

    real_anchor :
        (o : Membership) → o ≡ old → IsAnchor (get_or o.renewal_anchor_day o.start_date.day)
    real_anchor o e = get_or-IsAnchor o (real_of o e)

-- The rows of the periods are the ones before.
abbrev SamePeriods : Db → Db → Type 0
SamePeriods db db' = db'.memberships ≡ db.memberships

instance abbrev SamePeriods-IsFrame : IsFrame SamePeriods
SamePeriods-IsFrame = record {
  reflexive = λ db. refl;
  transitive = λ a b c p q. q ∙ p;
  ids = λ db n. refl;
  log = λ db events. refl;
}

check_session-periods :
    (ctx : TenantContext) (branch_id : ℕ) (charge : Charge)
    → Steps SamePeriods (check_session ctx branch_id charge)
unfolding check_session require_open_session_for_user
check_session-periods ctx branch_id on_account = Steps-pure tt
check_session-periods ctx branch_id (now method amount) =
    (Steps-gets _ ▸ λ row. Steps-require row _) ▸ λ session. Steps-pure tt

renewal_branch-periods : (ctx : TenantContext) (id : ℕ) → Steps SamePeriods (renewal_branch ctx id)
unfolding renewal_branch
renewal_branch-periods ctx id = Steps-gets _ ▸ λ row.
    Steps-require row _ ▸ λ preview. Steps-require _ _ ▸ λ branch_id. Steps-lift _

check_renewal-periods :
    (ctx : TenantContext) (id : ℕ) (charge : Charge)
    → Steps SamePeriods (check_renewal ctx id charge)
unfolding check_renewal check_permission
check_renewal-periods ctx id on_account = Steps-pure tt
check_renewal-periods ctx id (now method amount) = Steps-throw_when _ _ ▸ λ u.
    renewal_branch-periods ctx id ▸ λ branch_id.
    check_session-periods ctx branch_id (now method amount)

run :
    {A : Type 0} {m : Action A}
    → Steps SamePeriods m
    → (db : Db) → After (λ a d. SamePeriods db d) (m db)
run (steps h) db = h db

renew-After :
    (ctx : TenantContext) (id : ℕ) (charge : Charge) (today : Date) (db : Db) (old : Membership)
    → find_membership id db ≡ some old
    → HasRealDates old
    → IsDate today
    → After (λ m d. Renewed old today m) (renew ctx id charge today db)
unfolding renew
renew-After ctx id charge today db old found real h =
    let Q : Membership → Db → Type 0 = λ m d. Renewed old today m in
    After-bind _ Q _ _ db (run (check_renewal-periods ctx id charge) db) λ u d1 s1.
      After-bind _ Q _ _ d1 (run (renewal_branch-periods ctx id) d1) λ branch_id d2 s2.
        After-bind _ Q _ _ d2 (run (check_session-periods ctx branch_id charge) d2) λ u2 d3 s3.
          renew_locked-Renewed ctx id charge branch_id today d3 old
            (ap (find_first (λ m. m.id == id)) (s3 ∙ s2 ∙ s1) ∙ found) real h

-- A renewal of a period with real dates is the same member's, names it as its predecessor and begins
-- after its end. It begins the day after that end or, when that is past, no later than today; it does
-- not end before it begins, and not before today.
pub renew-Renews :
    (ctx : TenantContext) (id : ℕ) (charge : Charge) (today : Date) (db : Db) (old : Membership)
    {m : Membership} {db' : Db}
    → find_membership id db ≡ some old
    → HasRealDates old
    → IsDate today
    → renew ctx id charge today db ≡ ok (m, db')
    → (end : Date) × (old.end_date ≡ some end) × Renews old end today m
renew-Renews ctx id charge today db old found real h e =
    After-ok (λ m d. Renewed old today m) (renew-After ctx id charge today db old found real h) e
