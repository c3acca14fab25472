-- ===== src/Cash/Movement/Reversal.antt =====
-- apps/api/src/modules/cash/cash-movement.service.ts: `reverse`, in the totals of the sessions and in the
-- members' accounts.
use pulso_crm.Prelude.{
  ℕ, ◌≡◌, refl, ap, ◌∙◌, sym, subst, Bool, true, false, Option, none, some, List, [], ◌∷◌, ◌++◌,
  ◌==◌, ◌&&◌, ==_iff, if◌then◌else◌, find_first, update_where, find_first-fits, find_first-append,
  find_first-update_where,
}
use pulso_crm.Prelude.Int.{ℤ, pos, pos_part, neg_part, ◌+ℤ◌, int_laws}
use pulso_crm.Store.{Db, CashMovement, CashSession, MovementType, income, expense}
use pulso_crm.Store.Action.Run.{
  After, After-bind, After-pure, After-gets, After-require, After-throw_when, After-modify,
  After-fresh, After-record_audit,
}
use pulso_crm.Store.Context.{TenantContext}
use pulso_crm.Ledger.{delta}
use pulso_crm.Ledger.Consistent.{ledger_sum}
use pulso_crm.Ledger.Shift.{post_ledger_entry-IsPosted}
use pulso_crm.Cash.{NewMovement, movement_of, create_movement}
use pulso_crm.Cash.Totals.{signed, share, net_total, net_total-append, net_total-mark}
use pulso_crm.Cash.Movement.{
  account_kind, find_movement, opposite, reversal_kind, post_reversal, mark_reversed, reversal_of,
  reverse_in, reverse,
}

abbrev pub owner_share : ℕ → Option ℕ → ℤ → ℤ
owner_share id none a = pos 0
owner_share id (some j) a = if j == id then a else pos 0

-- What a movement adds to the account of member `id`.
abbrev pub account_share : ℕ → CashMovement → ℤ
account_share id m = owner_share id m.member_id (delta (account_kind m.type) m.amount)

-- `m`, found under `id`, has been undone between `db` and `db'`.
pub record IsUndone (id : ℕ) (m : CashMovement) (db db' : Db) : Type 0 where
  pub totals :
      (session method : ℕ)
      → net_total session method db'.movements +ℤ share session method m
        ≡ net_total session method db.movements
  pub accounts :
      (member : ℕ)
      → ledger_sum member db'.entries +ℤ account_share member m ≡ ledger_sum member db.entries
  pub marked : find_movement id db' ≡ some (record m { is_reversed = true })

pub create_movement-After :
    (n : NewMovement) (db : Db)
    → After
        (λ m db'.
          (m ≡ movement_of db.next_id n)
          × (db'.movements ≡ db.movements ++ m ∷ [])
          × (db'.entries ≡ db.entries))
        (create_movement n db)
unfolding create_movement
create_movement-After n db = After-throw_when _ _ _ _ db λ positive. After-gets _ _ _ db (
    After-throw_when _ _ _ _ db
      λ single. After-fresh _ _ db (After-modify _ _ _ _ (After-pure _ _ _ (refl, refl, refl))))

take_back : (s' s p q : ℤ) → s' ≡ s +ℤ p → p +ℤ q ≡ pos 0 → s' +ℤ q ≡ s
take_back s' s p q e z =
    omega (int_laws, ap pos_part e, ap neg_part e, ap pos_part z, ap neg_part z)

opposite_parts :
    (b : Bool) (t : MovementType) (a : ℤ)
    → (if b then delta (reversal_kind t) a else pos 0)
        +ℤ (if b then delta (account_kind t) a else pos 0)
      ≡ pos 0
opposite_parts true income a = omega int_laws
opposite_parts true expense a = omega int_laws
opposite_parts false t a = omega int_laws

opposite_shares :
    (b : Bool) (t : MovementType) (a : ℤ)
    → (if b then signed (opposite t) a else pos 0) +ℤ (if b then signed t a else pos 0) ≡ pos 0
opposite_shares true income a = omega int_laws
opposite_shares true expense a = omega int_laws
opposite_shares false t a = omega int_laws

-- The posting of a reversal takes the share of the original back.
pub post_reversal-After :
    (m : CashMovement) (reversal_id branch : ℕ) (owner : Option ℕ) (db : Db)
    → After
        (λ u db'.
          ((id : ℕ)
            → ledger_sum id db'.entries
                +ℤ owner_share id owner (delta (account_kind m.type) m.amount)
              ≡ ledger_sum id db.entries)
          × (db'.movements ≡ db.movements))
        (post_reversal m reversal_id branch owner db)
unfolding post_reversal
post_reversal-After m reversal_id branch none db = After-pure _ _ db ((λ id. omega int_laws), refl)
post_reversal-After m reversal_id branch (some owner) db =
    After-bind _ _ _ _ db (post_ledger_entry-IsPosted _ db) λ e db' posted. After-pure _ _ db' (
      (λ id. take_back _ _ _ _ (posted.sums id) (opposite_parts (owner == id) m.type m.amount)),
      posted.movements,
    )

-- The rows after the reversing movement `r` and the mark.
reversed_totals :
    (ctx : TenantContext) (session method next : ℕ) (m : CashMovement) (ms : List CashMovement)
    → net_total session method (
          update_where
            (λ x. x.id == m.id)
            (λ x. record x { is_reversed = true })
            (ms ++ movement_of next (reversal_of ctx m) ∷ []))
        +ℤ share session method m
      ≡ net_total session method ms
reversed_totals ctx session method next m ms =
    take_back _ _ _ _
      (net_total-mark session method m.id _
        ∙ net_total-append session method ms (movement_of next (reversal_of ctx m)))
      (opposite_shares (m.cash_session_id == session && m.payment_method_id == method) m.type
        m.amount)

pub reversed_mark :
    (id : ℕ) (m r : CashMovement) (ms : List CashMovement)
    → m.id ≡ id
    → find_first (λ x. x.id == id) ms ≡ some m
    → find_first
        (λ x. x.id == id)
        (update_where (λ x. x.id == m.id) (λ x. record x { is_reversed = true }) (ms ++ r ∷ []))
      ≡ some (record m { is_reversed = true })
reversed_mark id m r ms same found =
    subst
      (λ i.
        find_first (λ x. x.id == id)
          (update_where (λ x. x.id == i) (λ x. record x { is_reversed = true }) (ms ++ r ∷ []))
        ≡ some (record m { is_reversed = true }))
      (sym same)
      (find_first-update_where (λ x. x.id == id) (λ x. record x { is_reversed = true })
        (ms ++ r ∷ []) (λ x h. h) (find_first-append (λ x. x.id == id) ms (r ∷ []) found))

-- What a reversal that succeeds has done to the movement `id`.
abbrev pub HasUndone : ℕ → Db → Db → Type 0
HasUndone id db db' = (m : CashMovement) × (find_movement id db ≡ some m) × IsUndone id m db db'

undone :
    (ctx : TenantContext) (id : ℕ) (m r : CashMovement) (db : Db) (ms1 : List CashMovement)
    (db2 : Db)
    → find_movement id db ≡ some m
    → r ≡ movement_of db.next_id (reversal_of ctx m)
    → ms1 ≡ db.movements ++ r ∷ []
    → db2.movements ≡ update_where (λ x. x.id == m.id) (λ x. record x { is_reversed = true }) ms1
    → ((i : ℕ) → ledger_sum i db2.entries +ℤ account_share i m ≡ ledger_sum i db.entries)
    → IsUndone id m db db2
undone ctx id m r db ms1 db2 found is rows movements accounts =
    let mark = update_where (λ x. x.id == m.id) (λ x. record x { is_reversed = true }) in
    let shape : db2.movements ≡ mark (db.movements ++ r ∷ []) = movements ∙ ap mark rows in
    let same : m.id ≡ id = (==_iff _ _).0 (find_first-fits (λ x. x.id == id) db.movements found) in
    record {
      totals = λ s p.
          subst (λ ms. net_total s p ms +ℤ share s p m ≡ net_total s p db.movements)
            (sym (shape ∙ ap (λ x. mark (db.movements ++ x ∷ [])) is))
            (reversed_totals ctx s p db.next_id m db.movements);
      accounts = accounts;
      marked =
          ap (find_first (λ x. x.id == id)) shape ∙ reversed_mark id m r db.movements same found;
    }

reverse_in-HasUndone :
    (ctx : TenantContext) (id : ℕ) (session : CashSession) (db : Db)
    → After (λ r db'. HasUndone id db db') (reverse_in ctx id session db)
unfolding reverse_in
reverse_in-HasUndone ctx id session db = After-gets _ _ _ db (
    After-require _ _ _ _ db λ m found. After-throw_when _ _ _ _ db λ fresh_one.
      After-bind _ _ _ _ db (create_movement-After (reversal_of ctx m) db)
        λ r db1 (is, rows, entries). After-modify _ _ _ db1 (
          After-bind _ _ _ _ (mark_reversed m.id db1)
            (post_reversal-After m r.id session.branch_id m.member_id _)
            λ u db2 (accounts, movements). After-record_audit _ _ _ _ _ db2 λ events.
              After-pure _ _ _ (
                m,
                found,
                undone ctx id m r db db1.movements (record db2 { audit = events }) found is rows
                    movements (λ i. accounts i ∙ ap (ledger_sum i) entries),
              )))

-- A reversal that succeeds found a movement under the id and undid it: in every session and method the
-- net total, and for every member the sum of the entries, are lower by what that movement had added,
-- and the row that its id finds is the movement marked reversed.
pub reverse-HasUndone :
    (ctx : TenantContext) (id : ℕ) (db : Db)
    → After (λ r db'. HasUndone id db db') (reverse ctx id db)
unfolding reverse
reverse-HasUndone ctx id db = After-gets _ _ _ db (
    After-require _ _ _ _ db λ m found. After-throw_when _ _ _ _ db λ u.
      After-throw_when _ _ _ _ db λ v. After-gets _ _ _ db (
        After-require _ _ _ _ db λ session there. After-throw_when _ _ _ _ db λ w.
          let same : m.id ≡ id =
            (==_iff _ _).0 (find_first-fits (λ x. x.id == id) db.movements found) in
          subst (λ i. After (λ r db'. HasUndone id db db') (reverse_in ctx i session db)) (sym same)
            (reverse_in-HasUndone ctx id session db)))
