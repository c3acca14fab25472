-- ===== src/Memberships/Recurrence/Stopped.antt =====
-- apps/api/src/modules/memberships/memberships.service.ts: the chain of periods that
-- `stopRenewalDescendants` follows.
use pulso_crm.Prelude.{
  ℕ, zero, suc, ◌≡◌, refl, sym, subst, ap, ◌∙◌, Bool, true, false, Option, none, some, List, [],
  ◌∷◌, ◌==◌, ==_iff, find_first, update_where, Bool-cases, inl, inr, eq_of_some, Result, ok, err,
  Error, ◌⊎◌,
}
use pulso_crm.Store.{Db, Membership}
use pulso_crm.Store.Action.{Action, pure, modify, lift, ◌>>=◌, ◌>>◌, record_audit}
use pulso_crm.Store.Action.Run.{After, After-map, After-bind, After-pure, After-gets}
use pulso_crm.Store.Context.{TenantContext, require_branch}
use pulso_crm.Memberships.{check_branch, stopped_period}
use pulso_crm.Memberships.Renewal.{renewed_from}
use pulso_crm.Memberships.Recurrence.{
  is_child, find_child, stop_recurrence, stop_child, stop_renewal_descendants,
}

-- The same periods in the same order, of which some may have stopped renewing.
unfoldable pub Quieter : List Membership → List Membership → Type 0
Quieter [] [] = Unit
Quieter (x ∷ xs) (y ∷ ys) =
    (y.id ≡ x.id)
    × (y.renewed_from_id ≡ x.renewed_from_id)
    × (y.status ≡ x.status)
    × (x.auto_renew ≡ false → y.auto_renew ≡ false)
    × Quieter xs ys
Quieter xs ys = ⊥

pub Quieter-refl : (xs : List Membership) → Quieter xs xs
unfolding Quieter
Quieter-refl [] = tt
Quieter-refl (x ∷ xs) = (refl, refl, refl, λ h. h, Quieter-refl xs)

pub Quieter-trans : (xs ys zs : List Membership) → Quieter xs ys → Quieter ys zs → Quieter xs zs
unfolding Quieter
Quieter-trans [] [] [] p q = tt
Quieter-trans (x ∷ xs) (y ∷ ys) (z ∷ zs) p q =
    (q.0 ∙ p.0, q.1 ∙ p.1, q.2 ∙ p.2, λ h. q.3 (p.3 h), Quieter-trans xs ys zs p.4 q.4)
Quieter-trans [] [] (z ∷ zs) p q = elim q [ ]
Quieter-trans [] (y ∷ ys) zs p q = elim p [ ]
Quieter-trans (x ∷ xs) [] zs p q = elim p [ ]
Quieter-trans (x ∷ xs) (y ∷ ys) [] p q = elim q [ ]

-- A write that keeps ids and predecessors and starts no recurrence.
pub update_where-Quieter :
    (q : Membership → Bool) (f : Membership → Membership) (xs : List Membership)
    → ((x : Membership)
        → ((f x).id ≡ x.id)
          × ((f x).renewed_from_id ≡ x.renewed_from_id)
          × ((f x).status ≡ x.status)
          × (x.auto_renew ≡ false → (f x).auto_renew ≡ false))
    → Quieter xs (update_where q f xs)
unfolding Quieter
update_where-Quieter q f [] h = tt
update_where-Quieter q f (x ∷ xs) h = elim (Bool-cases (q x)) [
  | inl e ↦ rw e ((h x).0, (h x).1, (h x).2, (h x).3, update_where-Quieter q f xs h)
  | inr e ↦ rw e (refl, refl, refl, λ k. k, update_where-Quieter q f xs h)
]

-- A period that is found before and afterwards.
pub record StillFound (p : Membership → Bool) (ys : List Membership) (c : Membership) : Type 0 where
  pub row : Membership
  pub found : find_first p ys ≡ some row
  pub same_id : row.id ≡ c.id
  pub same_status : row.status ≡ c.status
  pub quiet : c.auto_renew ≡ false → row.auto_renew ≡ false

-- A test that reads ids and predecessors only finds the same period.
find_first-Quieter :
    (p : Membership → Bool) (xs ys : List Membership) (c : Membership)
    → ((x y : Membership) → y.id ≡ x.id → y.renewed_from_id ≡ x.renewed_from_id → p y ≡ p x)
    → Quieter xs ys
    → find_first p xs ≡ some c
    → StillFound p ys c
unfolding Quieter
find_first-Quieter p [] ys c reads q e = cc
find_first-Quieter p (x ∷ xs) [] c reads q e = elim q [ ]
find_first-Quieter p (x ∷ xs) (y ∷ ys) c reads q e =
    let same : p y ≡ p x = reads x y q.0 q.1 in
    elim (Bool-cases (p x)) [
      | inl h ↦
          let own : x ≡ c = eq_of_some (rw h at e) in
          record {
            row = y;
            found = rw (same, h) refl;
            same_id = subst (λ m. y.id ≡ m.id) own q.0;
            same_status = subst (λ m. y.status ≡ m.status) own q.2;
            quiet = subst (λ m. m.auto_renew ≡ false → y.auto_renew ≡ false) own q.3;
          }
      | inr h ↦
          let rest = find_first-Quieter p xs ys c reads q.4 (rw h at e) in
          record {
            row = rest.row;
            found = rw (same, h) rest.found;
            same_id = rest.same_id;
            same_status = rest.same_status;
            quiet = rest.quiet;
          }
    ]

pub find_child-Quieter :
    (parent_id : ℕ) (xs ys : List Membership) (c : Membership)
    → Quieter xs ys
    → find_first (is_child parent_id) xs ≡ some c
    → StillFound (is_child parent_id) ys c
find_child-Quieter parent_id xs ys c =
    find_first-Quieter (is_child parent_id) xs ys c (λ x y e k. ap (renewed_from parent_id) k)

pub find_membership-Quieter :
    (id : ℕ) (xs ys : List Membership) (c : Membership)
    → Quieter xs ys
    → find_first (λ m. m.id == id) xs ≡ some c
    → StillFound (λ m. m.id == id) ys c
find_membership-Quieter id xs ys c =
    find_first-Quieter (λ m. m.id == id) xs ys c (λ x y e k. ap (λ n. n == id) e)

-- The write of the loop to the child that it has found.
find_child-stop :
    (parent_id : ℕ) (xs : List Membership) (c : Membership)
    → find_first (is_child parent_id) xs ≡ some c
    → find_first (is_child parent_id) (update_where (λ m. m.id == c.id) stopped_period xs)
      ≡ some (stopped_period c)
find_child-stop parent_id [] c e = cc
find_child-stop parent_id (x ∷ xs) c e = elim (Bool-cases (is_child parent_id x)) [
  | inl h ↦
      let own : x ≡ c = eq_of_some (rw h at e) in
      let here : (x.id == c.id) ≡ true = (==_iff x.id c.id).1 (ap (λ m. m.id) own) in
      rw (here, h) (ap (λ m. some (stopped_period m)) own)
  | inr h ↦ elim (Bool-cases (x.id == c.id)) [
    | inl k ↦ rw (k, h) (find_child-stop parent_id xs c (rw h at e))
    | inr k ↦ rw (k, h) (find_child-stop parent_id xs c (rw h at e))
  ]
]

-- Following the periods that were renewed from `id`, none renews.
pub data ChainStopped (rows : List Membership) : ℕ → Type 0 where
  last : (id : ℕ) → find_first (is_child id) rows ≡ none → ChainStopped rows id
  next :
      (id : ℕ) (c : Membership)
      → find_first (is_child id) rows ≡ some c
      → c.auto_renew ≡ false
      → ChainStopped rows c.id
      → ChainStopped rows id

-- What the body of the loop leaves.
abbrev pub ChildStopped : ℕ → Membership → Db → Db → Type 0
ChildStopped parent_id c db d =
    Quieter db.memberships d.memberships
    × (r : Membership) × (find_child parent_id d ≡ some r)
    × (r.id ≡ c.id)
    × (r.auto_renew ≡ false)

stop_recurrence-ChildStopped :
    (parent_id : ℕ) (c : Membership) (b : Bool) (db : Db)
    → find_child parent_id db ≡ some c
    → c.auto_renew ≡ b
    → After (λ u d. ChildStopped parent_id c db d) (stop_recurrence c b db)
unfolding stop_recurrence modify record_audit ◌>>=◌ pure
stop_recurrence-ChildStopped parent_id c false db found e =
    (Quieter-refl db.memberships, c, found, refl, e)
stop_recurrence-ChildStopped parent_id c true db found e = (
  update_where-Quieter _ _ db.memberships (λ x. (refl, refl, refl, λ h. refl)),
  stopped_period c,
  find_child-stop parent_id db.memberships c found,
  refl,
  refl,
)

Result-cases {ℓ} :
    {A : Type ℓ} (r : Result A) → ((a : A) × (r ≡ ok a)) ⊎ ((e : Error) × (r ≡ err e))
Result-cases (ok a) = inl (a, refl)
Result-cases (err e) = inr (e, refl)

pub check_branch-reads :
    (ctx : TenantContext) (branch_id : Option ℕ) (db : Db)
    → After (λ u d. d ≡ db) (check_branch ctx branch_id db)
unfolding check_branch ◌>>=◌ pure lift
check_branch-reads ctx none db = refl
check_branch-reads ctx (some b) db = elim (Result-cases (require_branch ctx (some b))) [
  | inl (v, e) ↦ rw e refl
  | inr (v, e) ↦ rw e tt
]

pub stop_child-ChildStopped :
    (ctx : TenantContext) (parent_id : ℕ) (c : Membership) (db : Db)
    → find_child parent_id db ≡ some c
    → After (λ u d. ChildStopped parent_id c db d) (stop_child ctx c db)
unfolding stop_child
stop_child-ChildStopped ctx parent_id c db found =
    let Q : Unit {0} → Db → Type 0 = λ u d. ChildStopped parent_id c db d in
    After-bind _ Q _ _ db (check_branch-reads ctx c.branch_id db) λ u d e.
      subst (λ x. After Q (stop_recurrence c c.auto_renew x)) (sym e)
        (stop_recurrence-ChildStopped parent_id c c.auto_renew db found refl)

-- What the loop leaves.
abbrev pub LoopStopped : ℕ → Db → Bool → Db → Type 0
LoopStopped parent_id db ended d =
    Quieter db.memberships d.memberships × (ended ≡ true → ChainStopped d.memberships parent_id)

-- A child that has stopped, and the loop from there.
loop_step :
    (parent_id : ℕ) (c : Membership) (db d1 d2 : Db) (ended : Bool)
    → ChildStopped parent_id c db d1
    → LoopStopped c.id d1 ended d2
    → LoopStopped parent_id db ended d2
loop_step parent_id c db d1 d2 ended child rest =
    let (calm, r, found, same, off) = child in
    let still = find_child-Quieter parent_id d1.memberships d2.memberships r rest.0 found in
    (
      Quieter-trans db.memberships d1.memberships d2.memberships calm rest.0,
      λ h.
          next parent_id still.row still.found (still.quiet off)
            (subst (ChainStopped d2.memberships) (sym (still.same_id ∙ same)) (rest.1 h)),
    )

-- The loop only stops recurrences, and where it comes to its end the whole chain has stopped.
pub stop_renewal_descendants-ChainStopped :
    (fuel : ℕ) (ctx : TenantContext) (parent_id : ℕ) (db : Db)
    → After (LoopStopped parent_id db) (stop_renewal_descendants fuel ctx parent_id db)
unfolding stop_renewal_descendants
stop_renewal_descendants-ChainStopped zero ctx parent_id db =
    After-pure (LoopStopped parent_id db) false db (Quieter-refl db.memberships, λ h. cc)
stop_renewal_descendants-ChainStopped (suc fuel) ctx parent_id db =
    After-gets (LoopStopped parent_id db) _ _ db (
      go (find_child parent_id db) refl
        (λ c d. stop_renewal_descendants-ChainStopped fuel ctx c.id d))
  where
    go :
        (child : Option Membership)
        → find_child parent_id db ≡ child
        → ((c : Membership) (d : Db)
            → After (LoopStopped c.id d) (stop_renewal_descendants fuel ctx c.id d))
        → After (LoopStopped parent_id db) (
            (elim child as (λ o. Action Bool) [
              | none ↦ pure true
              | some c ↦ stop_child ctx c >> stop_renewal_descendants fuel ctx c.id
            ])
              db)
    go none e ih =
        After-pure (LoopStopped parent_id db) true db
          (Quieter-refl db.memberships, λ h. last parent_id e)
    go (some c) e ih =
        After-bind _ (LoopStopped parent_id db) _ _ db
          (stop_child-ChildStopped ctx parent_id c db e)
          λ u d1 child.
            After-map (LoopStopped c.id d1) (LoopStopped parent_id db) _
              (λ ended d2 rest. loop_step parent_id c db d1 d2 ended child rest) (ih c d1)
