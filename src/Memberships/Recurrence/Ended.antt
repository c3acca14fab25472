-- ===== src/Memberships/Recurrence/Ended.antt =====
-- apps/api/src/modules/memberships/memberships.service.ts: the end of the loop of
-- `stopRenewalDescendants`, and `cancel`.
use pulso_crm.Prelude.{
  ℕ, zero, suc, ◌+◌, ◌-◌, ◌<◌, ◌≡◌, refl, sym, subst, Bool, true, false, Option, none, some, List,
  [], ◌∷◌, ◌==◌, find_first, arith, ok, failure, not, find_first-update_where, All, All-find_first,
  find_first-fits, ==_iff,
}
use pulso_crm.Store.{Db, Membership, MembershipStatus}
use pulso_crm.Store.Action.{Action, pure, ◌>>◌, throw_when}
use pulso_crm.Store.Action.Run.{
  After, After-ok, After-bind, After-pure, After-gets, After-modify, After-record_audit,
  After-throw_when, After-require,
}
use pulso_crm.Store.Context.{TenantContext}
use pulso_crm.Memberships.Renewal.{renewed_from, find_membership, lock_period, is_current}
use pulso_crm.Memberships.Recurrence.{
  is_child, find_child, stop_child, stop_renewal_descendants, stop_all_descendants,
  cancelled_period, cancel,
}
use pulso_crm.Memberships.Recurrence.Stopped.{
  Quieter, ChainStopped, stop_renewal_descendants-ChainStopped, LoopStopped,
  stop_child-ChildStopped, find_membership-Quieter, check_branch-reads,
}

-- A predecessor has a smaller id.
abbrev FollowsOlder : Option ℕ → ℕ → Type 0
FollowsOlder none id = Unit
FollowsOlder (some p) id = p < id

-- Ids are below the next one, and a period is renewed from an older one.
abbrev pub IsChained : ℕ → List Membership → Type 0
IsChained next = All (λ m. (m.id < next) × FollowsOlder m.renewed_from_id m.id)

Quieter-IsChained :
    (n : ℕ) (xs ys : List Membership) → Quieter xs ys → IsChained n xs → IsChained n ys
unfolding Quieter
Quieter-IsChained n [] [] q h = tt
Quieter-IsChained n (x ∷ xs) (y ∷ ys) q h = (
  (
    subst (λ i. i < n) (sym q.0) h.0.0,
    rw q.1 (subst (FollowsOlder x.renewed_from_id) (sym q.0) h.0.1),
  ),
  Quieter-IsChained n xs ys q.4 h.1,
)
Quieter-IsChained n [] (y ∷ ys) q h = elim q [ ]
Quieter-IsChained n (x ∷ xs) [] q h = elim q [ ]

-- A child is younger than its parent.
child_younger :
    (parent_id n : ℕ) (xs : List Membership) (c : Membership)
    → IsChained n xs
    → find_first (is_child parent_id) xs ≡ some c
    → (parent_id < c.id) × (c.id < n)
child_younger parent_id n xs c h e =
    let row = All-find_first _ (is_child parent_id) xs h e in
    (older c.renewed_from_id (find_first-fits (is_child parent_id) xs e) row.1, row.0)
  where
    older :
        (o : Option ℕ) → renewed_from parent_id o ≡ true → FollowsOlder o c.id → parent_id < c.id
    older none k f = cc
    older (some p) k f = subst (λ i. i < c.id) ((==_iff p parent_id).0 k) f

-- With more fuel than there are younger ids the loop comes to its end.
descendants_end :
    (fuel n : ℕ) (ctx : TenantContext) (parent_id : ℕ) (db : Db)
    → IsChained n db.memberships
    → n - parent_id < fuel
    → After (λ ended d. ended ≡ true) (stop_renewal_descendants fuel ctx parent_id db)
unfolding stop_renewal_descendants
descendants_end zero n ctx parent_id db h m = absurd (omega arith)
descendants_end (suc fuel) n ctx parent_id db h m =
    After-gets Q _ _ db (go (find_child parent_id db) refl (descendants_end fuel n ctx))
  where
    Q : Bool → Db → Type 0
    Q ended d = ended ≡ true

    go :
        (child : Option Membership)
        → find_child parent_id db ≡ child
        → ((id : ℕ) (d : Db)
            → IsChained n d.memberships
            → n - id < fuel
            → After (λ ended d. ended ≡ true) (stop_renewal_descendants fuel ctx id d))
        → After
            (λ ended d. ended ≡ true)
            ((elim child as (λ o. Action Bool) [
              | none ↦ pure true
              | some c ↦ stop_child ctx c >> stop_renewal_descendants fuel ctx c.id
            ])
              db)
    go none e ih = After-pure (λ ended d. ended ≡ true) true db refl
    go (some c) e ih =
        let young = child_younger parent_id n db.memberships c h e in
        After-bind _ (λ ended d. ended ≡ true) _ _ db (stop_child-ChildStopped ctx parent_id c db e)
          λ u d1 child.
            ih c.id d1 (Quieter-IsChained n db.memberships d1.memberships child.0 h)
              (omega (arith, young, m))

-- Where periods are renewed from ones with smaller ids, the loop that stops the recurrence of a
-- period's descendants, if it meets no branch that is not the user's, comes to its end within as many
-- rounds as there are ids above the period's and one more; then no descendant renews, and apart from
-- recurrences that have stopped the periods keep their ids, predecessors and status.
pub stop_renewal_descendants_ends :
    (fuel : ℕ) (ctx : TenantContext) (id : ℕ) (db : Db) {ended : Bool} {db' : Db}
    → IsChained db.next_id db.memberships
    → db.next_id - id < fuel
    → stop_renewal_descendants fuel ctx id db ≡ ok (ended, db')
    → (ended ≡ true) × ChainStopped db'.memberships id × Quieter db.memberships db'.memberships
stop_renewal_descendants_ends fuel ctx id db {ended} {db'} h m e =
    let done =
      After-ok (λ ended d. ended ≡ true) (descendants_end fuel db.next_id ctx id db h m) e in
    let left =
      After-ok (LoopStopped id db) (stop_renewal_descendants-ChainStopped fuel ctx id db) e in
    (done, left.1 done, left.0)

-- What `stop_all_descendants` leaves.
stop_all-ChainStopped :
    (ctx : TenantContext) (id : ℕ) (db : Db)
    → After
        (λ u d. Quieter db.memberships d.memberships × ChainStopped d.memberships id)
        (stop_all_descendants ctx id db)
unfolding stop_all_descendants throw_when
stop_all-ChainStopped ctx id db =
    let Q : Unit {0} → Db → Type 0 =
      λ u d. Quieter db.memberships d.memberships × ChainStopped d.memberships id in
    After-gets Q _ _ db (
      After-bind _ Q _ _ db (stop_renewal_descendants-ChainStopped (db.next_id + 1) ctx id db)
        λ ended d rest. finish ended d rest)
  where
    finish :
        (ended : Bool) (d : Db)
        → LoopStopped id db ended d
        → After
            (λ u d. Quieter db.memberships d.memberships × ChainStopped d.memberships id)
            (throw_when (not ended) failure d)
    finish true d rest = (rest.0, rest.1 refl)
    finish false d rest = tt

-- The period that is locked is there, and nothing has changed.
lock_period-reads :
    (ctx : TenantContext) (id : ℕ) (db : Db)
    → After
        (λ m d. (find_membership id db ≡ some m) × (find_membership id d ≡ some m))
        (lock_period ctx id db)
unfolding lock_period
lock_period-reads ctx id db =
    let Q : Membership → Db → Type 0 =
      λ m d. (find_membership id db ≡ some m) × (find_membership id d ≡ some m) in
    After-gets Q _ _ db (
      After-require Q _ _ _ db λ m found.
        After-bind _ Q _ _ db (check_branch-reads ctx _ db)
          λ u d same. After-pure Q m d (found, rw same found))

-- What a cancellation leaves: the period as `m`, cancelled and without recurrence, and no descendant
-- that renews.
pub record Cancelled (id : ℕ) (db : Db) (m : Membership) (db' : Db) : Type 0 where
  pub old : Membership
  pub found : find_membership id db ≡ some old
  pub current : is_current old.status ≡ true
  pub row : Membership
  pub stays : find_membership id db' ≡ some row
  pub status : row.status ≡ MembershipStatus.cancelled
  pub stopped : row.auto_renew ≡ false
  pub descendants : ChainStopped db'.memberships id
  pub returned : m ≡ cancelled_period old

true_of_negation : (b : Bool) → not b ≡ false → b ≡ true
true_of_negation true e = refl
true_of_negation false e = cc

cancel-After : (ctx : TenantContext) (id : ℕ) (db : Db) → After (Cancelled id db) (cancel ctx id db)
unfolding cancel
cancel-After ctx id db =
    let Q = Cancelled id db in
    After-bind _ Q _ _ db (lock_period-reads ctx id db) λ old d0 locked.
      After-throw_when Q _ _ _ d0 λ current. After-modify Q _ _ d0 (
        After-bind _ Q _ _ _ (stop_all-ChainStopped ctx id _) λ u d1 rest.
          After-record_audit Q _ _ _ _ d1 λ events. After-pure Q _ _ (
            let hit =
              find_first-update_where (λ m. m.id == id) cancelled_period d0.memberships (λ x h. h)
                locked.1 in
            let still =
              find_membership-Quieter id _ d1.memberships (cancelled_period old) rest.0 hit in
            record {
              old = old;
              found = locked.0;
              current = true_of_negation _ current;
              row = still.row;
              stays = still.found;
              status = still.same_status;
              stopped = still.quiet refl;
              descendants = rest.1;
              returned = refl;
            }))

-- A cancellation that succeeds was of an active or expired period; it leaves the period cancelled and
-- no longer renewing, and no period that descends from it renews.
pub cancel-Cancelled :
    (ctx : TenantContext) (id : ℕ) (db : Db) {m : Membership} {db' : Db}
    → cancel ctx id db ≡ ok (m, db')
    → Cancelled id db m db'
cancel-Cancelled ctx id db e = After-ok (Cancelled id db) (cancel-After ctx id db) e
