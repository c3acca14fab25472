-- ===== src/Cash/Movement/Made.antt =====
-- apps/api/src/modules/cash/cash-movement.service.ts: `create`, in the totals of the sessions and in the
-- members' accounts.
use pulso_crm.Prelude.{
  ℕ, ◌≡◌, refl, ap, ◌∙◌, Option, none, some, List, [], ◌∷◌, ◌++◌, ◌==◌, ◌&&◌, ==_iff, not,
  if◌then◌else◌, find_first-fits, ok, arith,
}
use pulso_crm.Prelude.Int.{ℤ, pos, ◌+ℤ◌, int_laws}
use pulso_crm.Store.{
  Db, CashMovement, CashSession, MovementType, income, expense, PaymentMethod, AuditEvent,
}
use pulso_crm.Store.Action.Run.{
  After, After-map, After-ok, After-bind, After-pure, After-gets, After-require, After-throw_when,
  After-record_audit,
}
use pulso_crm.Store.Action.Frame.{Steps-run}
use pulso_crm.Store.Context.{TenantContext}
use pulso_crm.Ledger.{delta}
use pulso_crm.Ledger.Consistent.{IsConsistent, ledger_sum}
use pulso_crm.Ledger.Shift.{KeepsCaches, post_ledger_entry-IsPosted}
use pulso_crm.Cash.{find_open_session_for_user, find_method, assert_positive_money}
use pulso_crm.Cash.Totals.{signed, net_total, net_total-append}
use pulso_crm.Cash.Movement.{
  CreateRequest, check_member, account_kind, post_for_member, create_in, create,
}
use pulso_crm.Cash.Movement.Account.{create-KeepsCaches}
use pulso_crm.Cash.Movement.Reversal.{owner_share, create_movement-After}

-- The movement `m` that a request has made in the session `own`.
pub record IsMade (input : CreateRequest) (own : CashSession) (db db' : Db) (m : CashMovement)
    : Type 0 where
  pub row : db'.movements ≡ db.movements ++ m ∷ []
  pub totals :
      (session method : ℕ)
      → net_total session method db'.movements
        ≡ net_total session method db.movements
          +ℤ (if own.id == session && input.payment_method_id == method
              then signed input.type input.amount
              else pos 0)
  -- Income is the member's credit, an expense a debit.
  pub accounts :
      (member : ℕ)
      → ledger_sum member db'.entries
        ≡ ledger_sum member db.entries
          +ℤ owner_share member input.member_id (signed input.type input.amount)

check_member-same :
    (id : Option ℕ) (db : Db) → After (λ i d. (d ≡ db) × (i ≡ id)) (check_member id db)
unfolding check_member
check_member-same none db = After-pure _ _ db (refl, refl)
check_member-same (some id) db = After-gets _ _ _ db (
    After-require _ _ _ _ db λ m found. After-pure _ _ db (
      refl,
      ap some (
          (==_iff m.id id).0 (
            let fits = find_first-fits (λ m. m.id == id && not m.deleted) db.members found in
            ground arith)),
    ))

signed-delta : (t : MovementType) (a : ℤ) → delta (account_kind t) a ≡ signed t a
signed-delta income a = refl
signed-delta expense a = refl

post_for_member-After :
    (owner : Option ℕ) (t : MovementType) (amount : ℤ) (movement_id branch_id : ℕ) (db : Db)
    → After
        (λ u d.
          ((i : ℕ)
            → ledger_sum i d.entries
              ≡ ledger_sum i db.entries +ℤ owner_share i owner (signed t amount))
          × (d.movements ≡ db.movements))
        (post_for_member owner t amount movement_id branch_id db)
unfolding post_for_member
post_for_member-After none t amount movement_id branch_id db =
    After-pure _ _ db ((λ i. omega int_laws), refl)
post_for_member-After (some owner) t amount movement_id branch_id db =
    After-bind _ _ _ _ db (post_ledger_entry-IsPosted _ db) λ e d posted. After-pure _ _ d (
      (λ i.
          posted.sums i
          ∙ ap (λ x. ledger_sum i db.entries +ℤ (if owner == i then x else pos 0))
              (signed-delta t amount)),
      posted.movements,
    )

made :
    (input : CreateRequest) (own : CashSession) (db db1 db2 : Db) (m : CashMovement) (method_id : ℕ)
    (member_id : Option ℕ) (events : List AuditEvent)
    → (m.cash_session_id ≡ own.id) × (m.type ≡ input.type) × (m.amount ≡ input.amount)
    → m.payment_method_id ≡ method_id
    → method_id ≡ input.payment_method_id
    → member_id ≡ input.member_id
    → db1.movements ≡ db.movements ++ m ∷ []
    → db1.entries ≡ db.entries
    → db2.movements ≡ db1.movements
    → ((i : ℕ)
        → ledger_sum i db2.entries
          ≡ ledger_sum i db1.entries +ℤ owner_share i member_id (signed input.type input.amount))
    → IsMade input own db (record db2 { audit = events }) m
made input own db db1 db2 m method_id member_id events fields uses pays owns rows same kept sums =
    record {
      row = kept ∙ rows;
      totals = λ s p.
          ap (net_total s p) (kept ∙ rows)
          ∙ net_total-append s p db.movements m
          ∙ ap (λ t. net_total s p db.movements +ℤ t)
              (rw (fields.0, fields.1, fields.2, uses ∙ pays) refl);
      accounts = λ i.
          sums i
          ∙ ap (λ es. ledger_sum i es +ℤ owner_share i member_id (signed input.type input.amount))
              same
          ∙ ap (λ o. ledger_sum i db.entries +ℤ owner_share i o (signed input.type input.amount))
              owns;
    }

create_in-IsMade :
    (ctx : TenantContext) (input : CreateRequest) (own : CashSession) (db : Db)
    → After (λ m d. IsMade input own db d m) (create_in ctx input own db)
unfolding create_in
create_in-IsMade ctx input own db = After-gets _ _ _ db (
    After-gets _ _ _ db (
      After-require _ _ _ _ db λ concept known. After-require _ _ _ _ db λ method found.
        After-throw_when _ _ _ _ db λ fits.
          After-bind _ _ _ _ db (check_member-same input.member_id db) λ member_id d member.
            After-bind _ _ _ _ d (create_movement-After _ d) λ m d1 (is, rows, entries).
              After-bind _ _ _ _ d1 (post_for_member-After _ _ _ _ _ d1) λ u d2 (sums, kept).
                After-record_audit _ _ _ _ _ d2 λ events. After-pure _ _ _ (
                  made input own db d1 d2 m method.id member_id events
                    (ap (λ x. x.cash_session_id) is, ap (λ x. x.type) is, ap (λ x. x.amount) is)
                    (ap (λ x. x.payment_method_id) is) (own_method method found) member.1
                    (rows ∙ ap (λ x. x.movements ++ m ∷ []) member.0)
                    (entries ∙ ap (λ x. x.entries) member.0) kept sums)))
  where
    own_method :
        (method : PaymentMethod)
        → find_method input.payment_method_id db ≡ some method
        → method.id ≡ input.payment_method_id
    own_method method found =
        let fits =
          find_first-fits (λ m. m.id == input.payment_method_id && m.is_active) db.methods found in
        ground arith

-- If every cached balance is the sum of its member's entries, it still is after a movement has been
-- created. The movement is added to the rows, and the user has an open session: its total for the
-- request's method rises by the amount for an income and falls by it for an expense, and so does the
-- sum of the entries of the request's member, if it names one; no other total and no other account
-- moves.
pub create-IsMade :
    (ctx : TenantContext) (input : CreateRequest) (db : Db) {m : CashMovement} {db' : Db}
    → IsConsistent db
    → create ctx input db ≡ ok (m, db')
    → (own : CashSession) × (find_open_session_for_user ctx.user_id none db ≡ some own)
      × IsMade input own db db' m
      × IsConsistent db'
unfolding create assert_positive_money
create-IsMade ctx input db {m} {db'} h e =
    let (own, found, is_made) =
      After-ok _
        (After-throw_when _ _ _ _ db λ positive. After-gets _ _ _ db (
          After-require _ _ _ _ db λ own found.
            After-map (λ m d. IsMade input own db d m)
              (λ m d.
                (own : CashSession) × (find_open_session_for_user ctx.user_id none db ≡ some own)
                × IsMade input own db d m)
              _ (λ m d is. (own, found, is)) (create_in-IsMade ctx input own db)))
        e in
    (own, found, is_made, Steps-run KeepsCaches (create-KeepsCaches ctx input) db e h)
