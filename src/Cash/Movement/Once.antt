-- ===== src/Cash/Movement/Once.antt =====
-- apps/api/src/modules/cash/cash-movement.service.ts: calls of `reverse` after one that has succeeded.
use pulso_crm.Prelude.{
  ℕ, ◌<◌, ◌≡◌, refl, sym, subst, ap, ◌∙◌, true, false, Option, none, some, List, [], ◌∷◌, ◌++◌,
  ◌==◌, ==_iff, find_first, find_first-fits, update_where, is_some, All, Bool-cases, inl, inr, ok,
  err, code, conflict, movement_already_reversed, eq_of_some, arith,
}
use pulso_crm.Store.{Db, CashMovement, CashSession}
use pulso_crm.Store.Action.{◌>>=◌, gets, require, throw_when}
use pulso_crm.Store.Action.Run.{
  After, After-ok, After-map, After-bind, After-pure, After-gets, After-require, After-throw_when,
  After-modify, After-record_audit,
}
use pulso_crm.Store.Context.{TenantContext}
use pulso_crm.Cash.{movement_of}
use pulso_crm.Cash.Movement.{find_movement, mark_reversed, reversal_of, reverse_in, reverse}
use pulso_crm.Cash.Movement.Reversal.{create_movement-After, post_reversal-After, reversed_mark}

-- The rows of `movements` after a reversal: one more, and the original marked.
abbrev RowsAfter : TenantContext → CashMovement → Db → Db → Type 0
RowsAfter ctx m db d =
    d.movements
    ≡ update_where (λ x. x.id == m.id) (λ x. record x { is_reversed = true })
        (db.movements ++ movement_of db.next_id (reversal_of ctx m) ∷ [])

-- What a reversal that succeeds has written for the movement under an id, and, of `reverse` as a whole,
-- that the movement was not a reversal.
abbrev IsReversed : TenantContext → ℕ → Db → CashMovement → Db → Type 0
IsReversed ctx id db r d =
    (m : CashMovement) × (find_movement id db ≡ some m)
    × (r ≡ movement_of db.next_id (reversal_of ctx m))
    × RowsAfter ctx m db d

abbrev IsReversedOriginal : TenantContext → ℕ → Db → CashMovement → Db → Type 0
IsReversedOriginal ctx id db r d =
    (m : CashMovement) × (find_movement id db ≡ some m)
    × (is_some m.reversal_of_id ≡ false)
    × (r ≡ movement_of db.next_id (reversal_of ctx m))
    × RowsAfter ctx m db d

reverse_in-rows :
    (ctx : TenantContext) (id : ℕ) (session : CashSession) (db : Db)
    → After (IsReversed ctx id db) (reverse_in ctx id session db)
unfolding reverse_in
reverse_in-rows ctx id session db = After-gets _ _ _ db (
    After-require _ _ _ _ db λ m found. After-throw_when _ _ _ _ db λ fresh_one.
      After-bind _ _ _ _ db (create_movement-After (reversal_of ctx m) db)
        λ r db1 (is, rows, entries). After-modify _ _ _ db1 (
          After-bind _ _ _ _ (mark_reversed m.id db1)
            (post_reversal-After m r.id session.branch_id m.member_id _)
            λ u db2 (accounts, movements). After-record_audit _ _ _ _ _ db2 λ events.
              After-pure _ _ _ (
                m,
                found,
                is,
                movements
                    ∙ ap (update_where (λ x. x.id == m.id) (λ x. record x { is_reversed = true }))
                        (rows ∙ ap (λ x. db.movements ++ x ∷ []) is),
              )))

reverse-rows :
    (ctx : TenantContext) (id : ℕ) (db : Db)
    → After (IsReversedOriginal ctx id db) (reverse ctx id db)
unfolding reverse
reverse-rows ctx id db = After-gets _ _ _ db (
    After-require _ _ _ _ db λ m found. After-throw_when _ _ _ _ db λ original.
      After-throw_when _ _ _ _ db λ v. After-gets _ _ _ db (
        After-require _ _ _ _ db λ session there. After-throw_when _ _ _ _ db λ w.
          let same : m.id ≡ id =
            (==_iff _ _).0 (find_first-fits (λ x. x.id == id) db.movements found) in
          After-map (IsReversed ctx m.id db) (IsReversedOriginal ctx id db) _
            (λ r d (n, again, is, rows).
              let own : m ≡ n =
                eq_of_some (sym found ∙ ap (λ i. find_movement i db) (sym same) ∙ again) in
              (
                n,
                sym (ap (λ i. find_movement i db) same) ∙ again,
                subst (λ x. is_some x.reversal_of_id ≡ false) own original,
                is,
                rows,
              ))
            (reverse_in-rows ctx m.id session db)))

-- The row that is added is found under its id.
new_found :
    (key next : ℕ) (r : CashMovement) (rows : List CashMovement)
    → All (λ x. x.id < next) rows
    → r.id ≡ next
    → (x : CashMovement) × (find_first
          (λ y. y.id == next)
          (update_where (λ y. y.id == key) (λ y. record y { is_reversed = true }) (rows ++ r ∷ []))
        ≡ some x)
      × (x.reversal_of_id ≡ r.reversal_of_id)
new_found key next r [] h e = elim (Bool-cases (r.id == key)) [
  | inl own ↦ rw (own, (==_iff r.id next).1 e) (record r { is_reversed = true }, refl, refl)
  | inr other ↦ rw (other, (==_iff r.id next).1 e) (r, refl, refl)
]
new_found key next r (y ∷ rows) h e =
    let old : (y.id == next) ≡ false = ground (arith, h.0) in
    elim (Bool-cases (y.id == key)) [
      | inl own ↦ rw (own, old) (new_found key next r rows h.1 e)
      | inr other ↦ rw (other, old) (new_found key next r rows h.1 e)
    ]

-- A movement that is marked reversed is refused, and so is one that reverses another.
marked_refused :
    (ctx : TenantContext) (id : ℕ) (m : CashMovement) (db : Db)
    → find_movement id db ≡ some (record m { is_reversed = true })
    → m.reversal_of_id ≡ none
    → reverse ctx id db ≡ err (code movement_already_reversed)
unfolding reverse ◌>>=◌ gets require throw_when
marked_refused ctx id m db found original = rw (found, original)

reversal_refused :
    (ctx : TenantContext) (id original : ℕ) (m : CashMovement) (db : Db)
    → find_movement id db ≡ some m
    → m.reversal_of_id ≡ some original
    → reverse ctx id db ≡ err (code conflict)
unfolding reverse ◌>>=◌ gets require throw_when
reversal_refused ctx id original m db found reverses = rw (found, reverses)

none_of : {A : Type 0} (o : Option A) → is_some o ≡ false → o ≡ none
none_of none e = refl
none_of (some a) e = cc

-- After a reversal that succeeds, where ids are below the next one: as long as the rows of the original
-- and of the reversing movement stand, the original is not reversed again (MOVEMENT_ALREADY_REVERSED),
-- and the reversing movement cannot be reversed (CONFLICT), by whatever user.
pub reverse_again :
    (ctx other : TenantContext) (id : ℕ) (db u : Db) {r : CashMovement} {db' : Db}
    → All (λ m. m.id < db.next_id) db.movements
    → reverse ctx id db ≡ ok (r, db')
    → find_movement id u ≡ find_movement id db'
    → find_movement r.id u ≡ find_movement r.id db'
    → (reverse other id u ≡ err (code movement_already_reversed))
      × (reverse other r.id u ≡ err (code conflict))
reverse_again ctx other id db u {r} {db'} known run stands new_stands =
    let (m, found, original, is, rows) = After-ok _ (reverse-rows ctx id db) run in
    let same : m.id ≡ id = (==_iff _ _).0 (find_first-fits (λ x. x.id == id) db.movements found) in
    let fresh_one = movement_of db.next_id (reversal_of ctx m) in
    let at_new = new_found m.id db.next_id fresh_one db.movements known refl in
    let own_id : r.id ≡ db.next_id = ap (λ x. x.id) is in
    (
      marked_refused other id m u
          (stands
            ∙ ap (find_first (λ x. x.id == id)) rows
            ∙ reversed_mark id m fresh_one db.movements same found)
          (none_of m.reversal_of_id original),
      reversal_refused other r.id m.id at_new.0 u
          (new_stands
            ∙ ap (λ i. find_movement i db') own_id
            ∙ ap (find_first (λ x. x.id == db.next_id)) rows
            ∙ at_new.1)
          at_new.2,
    )
