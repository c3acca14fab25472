-- ===== src/Access/Chain.antt =====
-- apps/api/src/modules/access/access-decision.ts: the conditions of `evaluateAccess` without their order.
use pulso_crm.Prelude.{
  ℕ, ◌≡◌, refl, subst, not, if◌then◌else◌, eq_of_some, Option-cases, ltb_false→le, le→ltb_false,
  ◌≤◌, ◌<◌, ◌⊎◌, Bool, true, false, Option, none, some, List, includes, arith, inl, inr,
}
use pulso_crm.Calendar.{Date, key}
use pulso_crm.Store.{MemberStatus, MembershipStatus, allowed, access_ok, duplicate_window}
use pulso_crm.Access.{
  allow, is_active_membership, is_past, excludes_branch, is_used_up, reaches_limit, Snapshot,
  MemberSnapshot, MembershipSnapshot, PlanSnapshot, evaluate_access, evaluate_plan,
  evaluate_membership,
}

-- What the gym asks of a member who comes in.
pub record MayEnter (s : Snapshot) (member : MemberSnapshot) (membership : MembershipSnapshot)
    (plan : PlanSnapshot) : Type 0 where
  pub known : s.member ≡ some member
  pub period : s.membership ≡ some membership
  pub terms : s.plan ≡ some plan
  pub active : member.status ≡ MemberStatus.active
  pub current : membership.status ≡ MembershipStatus.active
  pub not_ended : (end : Date) → membership.end_date ≡ some end → key s.today ≤ key end
  pub no_debt : member.has_outstanding_debt ≡ false
  pub branch_fits :
      (ids : List ℕ) → plan.allowed_branch_ids ≡ some ids → includes s.branch_id ids ≡ true
  pub classes_left : (n : ℕ) → membership.classes_remaining ≡ some n → 1 ≤ n
  pub under_limit :
      (n : ℕ)
      → plan.weekly_access_limit ≡ some n
      → s.attendance.distinct_days_this_week_excluding_today < n
  pub cleared :
      (until : Date) → member.medical_clearance_until ≡ some until → key s.today ≤ key until

-- The tests of the chain, all passed.
record Passes (m : MemberSnapshot) (p : MembershipSnapshot) (t : PlanSnapshot) (s : Snapshot)
    : Type 0 where
  active : is_active_membership p.status ≡ true
  current : is_past p.end_date s.today ≡ false
  no_debt : m.has_outstanding_debt ≡ false
  branch_fits : excludes_branch t.allowed_branch_ids s.branch_id ≡ false
  classes_left : is_used_up p.classes_remaining ≡ false
  under_limit :
      reaches_limit t.weekly_access_limit s.attendance.distinct_days_this_week_excluding_today
      ≡ false
  cleared : is_past m.medical_clearance_until s.today ≡ false

evaluate_membership-Passes :
    (m : MemberSnapshot) (p : MembershipSnapshot) (t : PlanSnapshot) (s : Snapshot)
    → (evaluate_membership m p t s).decision ≡ allowed
    → Passes m p t s
unfolding evaluate_membership
evaluate_membership-Passes m p t s h = record {
  active = ground arith;
  current = ground arith;
  no_debt = ground arith;
  branch_fits = ground arith;
  classes_left = ground arith;
  under_limit = ground arith;
  cleared = ground arith;
}

not-false : (b : Bool) → not b ≡ false → b ≡ true
not-false true h = refl
not-false false h = cc

not_past :
    (d : Option Date) (today : Date)
    → is_past d today ≡ false
    → (end : Date) → d ≡ some end
    → key today ≤ key end
not_past none today h end e = cc
not_past (some x) today h end e = subst (λ y. key today ≤ key y) (eq_of_some e) (ltb_false→le _ _ h)

past_not :
    (d : Option Date) (today : Date)
    → ((end : Date) → d ≡ some end → key today ≤ key end)
    → is_past d today ≡ false
past_not none today h = refl
past_not (some x) today h = le→ltb_false _ _ (h x refl)

branch_in :
    (ids : Option (List ℕ)) (b : ℕ)
    → excludes_branch ids b ≡ false
    → (l : List ℕ) → ids ≡ some l
    → includes b l ≡ true
branch_in none b h l e = cc
branch_in (some x) b h l e =
    subst (λ y. includes b y ≡ true) (eq_of_some e) (not-false (includes b x) h)

in_branch :
    (ids : Option (List ℕ)) (b : ℕ)
    → ((l : List ℕ) → ids ≡ some l → includes b l ≡ true)
    → excludes_branch ids b ≡ false
in_branch none b h = refl
in_branch (some x) b h = rw (h x refl)

left_over : (o : Option ℕ) → is_used_up o ≡ false → (n : ℕ) → o ≡ some n → 1 ≤ n
left_over none h n e = cc
left_over (some x) h n e = subst (λ y. 1 ≤ y) (eq_of_some e) (ground arith)

over_left : (o : Option ℕ) → ((n : ℕ) → o ≡ some n → 1 ≤ n) → is_used_up o ≡ false
over_left none h = refl
over_left (some x) h = ground (arith, h x refl)

below : (o : Option ℕ) (days : ℕ) → reaches_limit o days ≡ false → (n : ℕ) → o ≡ some n → days < n
below none days h n e = cc
below (some x) days h n e = subst (λ y. days < y) (eq_of_some e) (ground arith)

not_reached :
    (o : Option ℕ) (days : ℕ) → ((n : ℕ) → o ≡ some n → days < n) → reaches_limit o days ≡ false
not_reached none days h = refl
not_reached (some x) days h = ground (arith, h x refl)

status-cases : (t : MemberStatus) → (t ≡ MemberStatus.active) ⊎ (t ≡ MemberStatus.inactive)
status-cases MemberStatus.active = inl refl
status-cases MemberStatus.inactive = inr refl

active_status : (t : MembershipStatus) → is_active_membership t ≡ true → t ≡ MembershipStatus.active
active_status t h = ground arith

enter :
    (m : MemberSnapshot) (p : MembershipSnapshot) (t : PlanSnapshot) (s : Snapshot)
    → s.member ≡ some m
    → s.membership ≡ some p
    → s.plan ≡ some t
    → m.status ≡ MemberStatus.active
    → Passes m p t s
    → MayEnter s m p t
enter m p t s known period terms active h = record {
  known = known;
  period = period;
  terms = terms;
  active = active;
  current = active_status p.status h.active;
  not_ended = not_past p.end_date s.today h.current;
  no_debt = h.no_debt;
  branch_fits = branch_in t.allowed_branch_ids s.branch_id h.branch_fits;
  classes_left = left_over p.classes_remaining h.classes_left;
  under_limit = below t.weekly_access_limit _ h.under_limit;
  cleared = not_past m.medical_clearance_until s.today h.cleared;
}

-- A member who is let in meets every condition.
pub evaluate_access_sound :
    (s : Snapshot)
    → (evaluate_access s).decision ≡ allowed
    → (m : MemberSnapshot) × (p : MembershipSnapshot) × (t : PlanSnapshot) × MayEnter s m p t
unfolding evaluate_access evaluate_plan
evaluate_access_sound s h = elim (Option-cases s.member) [
  | inl no_member ↦ cc (rw no_member at h)
  | inr (m, known) ↦ elim (status-cases m.status) [
    | inr idle ↦ cc (rw (known, idle) at h)
    | inl active ↦ elim (Option-cases s.membership) [
      | inl no_period ↦ cc (rw (known, active, no_period) at h)
      | inr (p, period) ↦ elim (Option-cases s.plan) [
        | inl no_plan ↦ cc (rw (known, active, period, no_plan) at h)
        | inr (t, terms) ↦ (
          m,
          p,
          t,
          enter m p t s known period terms active
              (evaluate_membership-Passes m p t s (rw (known, active, period, terms) at h)),
        )
      ]
    ]
  ]
]

-- A member who meets every condition is let in, as a first entry of the day or a repeated one.
pub evaluate_access_complete :
    (s : Snapshot) (m : MemberSnapshot) (p : MembershipSnapshot) (t : PlanSnapshot)
    → MayEnter s m p t
    → evaluate_access s
      ≡ (if s.attendance.exists_today then allow duplicate_window else allow access_ok)
unfolding evaluate_access evaluate_plan evaluate_membership
evaluate_access_complete s m p t e =
    rw (e.known, e.active, e.period, e.terms)
      (rw (e.current) (
        rw (past_not p.end_date s.today e.not_ended) (
          rw e.no_debt (
            rw (in_branch t.allowed_branch_ids s.branch_id e.branch_fits) (
              rw (over_left p.classes_remaining e.classes_left) (
                rw (not_reached t.weekly_access_limit _ e.under_limit)
                  (rw (past_not m.medical_clearance_until s.today e.cleared))))))))
