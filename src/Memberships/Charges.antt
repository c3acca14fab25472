-- ===== src/Memberships/Charges.antt =====
-- apps/api/src/modules/memberships/memberships.service.ts: what a new period leaves on its member's
-- account, step by step.
use pulso_crm.Prelude.{ℕ, ◌≡◌, refl, ◌∙◌, ap, Option, none, some}
use pulso_crm.Prelude.Int.{ℤ, pos, ◌+ℤ◌, neg, int_laws}
use pulso_crm.Store.{Db, Membership}
use pulso_crm.Store.Action.{Action, ◌>>=◌}
use pulso_crm.Store.Action.Run.{After, After-map, After-bind}
use pulso_crm.Store.Action.Frame.{
  Steps, steps, Steps-pure, Steps-gets, Steps-lift, Steps-require, Steps-throw_when, Steps-modify,
  ◌▸◌,
}
use pulso_crm.Store.Context.{TenantContext}
use pulso_crm.Ledger.Consistent.{ledger_sum}
use pulso_crm.Ledger.Shift.{
  Shifts, shifts, Shifts-bind, Shifts-of_same, shift_eq, same_then, post_ledger_entry-Shifts,
  SameEntries, SameEntries-IsFrame,
}
use pulso_crm.Cash.Accounts.{
  create_movement-same, ensure_system_concept-same, require_open_session_for_user-same,
}
use pulso_crm.Memberships.{
  Charge, on_account, now, check_permission, check_session, charge_method, check_branch,
  insert_membership, collection_posting, collect,
}

-- What a new period leaves on the account: nothing if it was collected, else its price as a debt.
abbrev pub left_to_pay : Charge → ℤ → ℤ
left_to_pay on_account price = neg price
left_to_pay (now method amount) price = pos 0

-- What the collection adds.
abbrev pub collected : Charge → ℤ → ℤ
collected on_account price = pos 0
collected (now method amount) price = price

pub check_permission-same :
    (ctx : TenantContext) (charge : Charge) → Steps SameEntries (check_permission ctx charge)
unfolding check_permission
check_permission-same ctx on_account = Steps-pure tt
check_permission-same ctx (now method amount) = Steps-throw_when _ _

pub check_session-same :
    (ctx : TenantContext) (branch_id : ℕ) (charge : Charge)
    → Steps SameEntries (check_session ctx branch_id charge)
unfolding check_session
check_session-same ctx branch_id on_account = Steps-pure tt
check_session-same ctx branch_id (now method amount) =
    require_open_session_for_user-same _ _ ▸ λ session. Steps-pure tt

pub charge_method-same : (charge : Charge) → Steps SameEntries (charge_method charge)
unfolding charge_method
charge_method-same on_account = Steps-pure none
charge_method-same (now id amount) =
    Steps-gets _ ▸ λ row. Steps-require row _ ▸ λ method. Steps-pure _

pub check_branch-same :
    (ctx : TenantContext) (branch_id : Option ℕ) → Steps SameEntries (check_branch ctx branch_id)
unfolding check_branch
check_branch-same ctx none = Steps-pure tt
check_branch-same ctx (some branch_id) = Steps-lift _ ▸ λ allowed. Steps-pure tt

pub insert_membership-same : (m : Membership) → Steps SameEntries (insert_membership m)
unfolding insert_membership
insert_membership-same m = Steps-throw_when _ _ ▸ λ u. Steps-gets _ ▸ λ sibling.
    Steps-throw_when _ _ ▸ λ u.
    Steps-gets _ ▸ λ taken. Steps-throw_when _ _ ▸ λ u. Steps-modify _ (λ db. refl)

pub collect-Shifts :
    (ctx : TenantContext) (branch_id : ℕ) (m : Membership) (charge : Charge)
    → Shifts m.member_id (collected charge m.price_paid) (collect ctx branch_id m charge)
unfolding collect
collect-Shifts ctx branch_id m on_account = Shifts-of_same m.member_id (Steps-pure tt)
collect-Shifts ctx branch_id m (now method_id amount) =
    let id = m.member_id in
    same_then id (require_open_session_for_user-same _ _) λ session.
      same_then id (Steps-gets _) λ row. same_then id (ensure_system_concept-same _) λ concept_id.
        same_then id (Steps-require row _) λ method.
          same_then id (create_movement-same _) λ movement. shift_eq id (omega int_laws) (
            Shifts-bind id m.price_paid (pos 0)
              (post_ledger_entry-Shifts (collection_posting m movement.id session.branch_id))
              λ entry. Shifts-of_same id (Steps-pure tt))

-- After a run that returns a period, the account of the member that `who` names has moved by what
-- that period leaves to pay.
abbrev pub Charged : (Membership → ℕ) → Charge → Db → Membership → Db → Type 0
Charged who charge db m d =
    ledger_sum (who m) d.entries ≡ ledger_sum (who m) db.entries +ℤ left_to_pay charge m.price_paid

pub left-eq :
    (charge : Charge) (price : ℤ) → neg price +ℤ collected charge price ≡ left_to_pay charge price
left-eq on_account price = omega int_laws
left-eq (now method amount) price = omega int_laws

pub Shifts-After :
    (id : ℕ) {d : ℤ} {A : Type 0} {m : Action A}
    → Shifts id d m
    → (db : Db) → After (λ a db'. ledger_sum id db'.entries ≡ ledger_sum id db.entries +ℤ d) (m db)
Shifts-After id (shifts h) db = h db

pub Steps-After :
    {A : Type 0} {m : Action A}
    → Steps SameEntries m
    → (db : Db) → After (λ a d. SameEntries db d) (m db)
Steps-After (steps h) db = h db

-- A transaction that charges for the period that it returns: a value of this type names it.
pub data Charges (who : Membership → ℕ) (charge : Charge) (m : Action Membership) : Type 0 where
  charges : ((db : Db) → After (Charged who charge db) (m db)) → Charges who charge m

-- A step that leaves the entries alone and gives a value with `P`, before a run that charges.
pub charged_after :
    (who : Membership → ℕ) (charge : Charge) {A : Type 0} (P : A → Type 0) (m : Action A)
    {f : A → Action Membership}
    → ((db : Db) → After (λ a d. P a × SameEntries db d) (m db))
    → ((a : A) → P a → Charges who charge (f a))
    → Charges who charge (m >>= f)
charged_after who charge P m {f = f} s k = charges λ db.
    After-bind (λ a d. P a × SameEntries db d) (Charged who charge db) m f db (s db)
      λ a d fact.
        After-map (Charged who charge d) (Charged who charge db) (f a d)
          (λ r d2 h. h ∙ ap (λ es. ledger_sum (who r) es +ℤ left_to_pay charge r.price_paid) fact.1)
          (run (k a fact.0) d)
  where
    run :
        {m : Action Membership}
        → Charges who charge m
        → (db : Db) → After (Charged who charge db) (m db)
    run (charges h) db = h db

-- A step that leaves the entries alone, before a run that charges.
pub charged_then :
    (who : Membership → ℕ) (charge : Charge) {A : Type 0} {m : Action A} {f : A → Action Membership}
    → Steps SameEntries m
    → ((a : A) → Charges who charge (f a))
    → Charges who charge (m >>= f)
charged_then who charge {m = m} s k =
    charged_after who charge (λ a. Unit) m
      (λ db. After-map _ _ (m db) (λ a d h. (tt, h)) (Steps-After s db)) (λ a u. k a)
