-- ===== src/Store/Action/Run.antt =====
-- Running a transaction step by step: one rule for each primitive, which leaves what the rest has to
-- show.
use pulso_crm.Prelude.{
  ℕ, ◌+◌, ◌≡◌, refl, subst, Bool, true, false, Option, none, some, List, [], ◌∷◌, ◌++◌, Result, ok,
  err, Error, if◌then◌else◌,
}
use pulso_crm.Store.{Db, AuditEvent, AuditAction}
use pulso_crm.Store.Action.{
  Action, pure, gets, lift, require, modify, throw_when, ◌>>=◌, fresh, record_audit,
}

-- What holds after a run, if it does not throw.
abbrev pub After {ℓ} : {A : Type ℓ} → (A → Db → Type 0) → Result (A × Db) → Type 0
After Q (ok (a, db)) = Q a db
After Q (err e) = Unit

pub After-ok {ℓ} :
    {A : Type ℓ} (Q : A → Db → Type 0) {r : Result (A × Db)} {a : A} {db : Db}
    → After Q r
    → r ≡ ok (a, db)
    → Q a db
After-ok Q h e = subst (After Q) e h

pub After-map {ℓ} :
    {A : Type ℓ} (P Q : A → Db → Type 0) (r : Result (A × Db))
    → ((a : A) (db : Db) → P a db → Q a db)
    → After P r
    → After Q r
After-map P Q (ok (a, db)) f h = f a db h
After-map P Q (err e) f h = tt

pub After-bind {ℓ κ} :
    {A : Type ℓ} {B : Type κ} (P : A → Db → Type 0) (Q : B → Db → Type 0) (m : Action A)
    (f : A → Action B) (db : Db)
    → After P (m db)
    → ((a : A) (db' : Db) → P a db' → After Q (f a db'))
    → After Q ((m >>= f) db)
unfolding ◌>>=◌
After-bind {A = A} P Q m f db h k = go (m db) h
  where
    go :
        (r : Result (A × Db))
        → After P r
        → After Q (elim r [ ok (a, db') ↦ f a db' | err e ↦ err e ])
    go (ok (a, db')) p = k a db' p
    go (err e) p = tt

module _ {ℓ} {B : Type ℓ} (Q : B → Db → Type 0) where
  pub After-pure : (b : B) (db : Db) → Q b db → After Q (pure b db)
  unfolding pure
  After-pure b db h = h

  pub After-gets {κ} :
      {A : Type κ} (g : Db → A) (f : A → Action B) (db : Db)
      → After Q (f (g db) db)
      → After Q ((gets g >>= f) db)
  unfolding gets ◌>>=◌
  After-gets g f db h = h

  pub After-require {κ} :
      {A : Type κ} (o : Option A) (e : Error) (f : A → Action B) (db : Db)
      → ((a : A) → o ≡ some a → After Q (f a db))
      → After Q ((require o e >>= f) db)
  unfolding require ◌>>=◌
  After-require none e f db h = tt
  After-require (some a) e f db h = h a refl

  pub After-lift {κ} :
      {A : Type κ} (r : Result A) (f : A → Action B) (db : Db)
      → ((a : A) → r ≡ ok a → After Q (f a db))
      → After Q ((lift r >>= f) db)
  unfolding lift ◌>>=◌
  After-lift (ok a) f db h = h a refl
  After-lift (err e) f db h = tt

  pub After-throw_when :
      (b : Bool) (e : Error) (f : Unit {0} → Action B) (db : Db)
      → (b ≡ false → After Q (f tt db))
      → After Q ((throw_when b e >>= f) db)
  unfolding throw_when ◌>>=◌
  After-throw_when true e f db h = tt
  After-throw_when false e f db h = h refl

  pub After-modify :
      (g : Db → Db) (f : Unit {0} → Action B) (db : Db)
      → After Q (f tt (g db))
      → After Q ((modify g >>= f) db)
  unfolding modify ◌>>=◌
  After-modify g f db h = h

  pub After-fresh :
      (f : ℕ → Action B) (db : Db)
      → After Q (f db.next_id (record db { next_id = db.next_id + 1 }))
      → After Q ((fresh >>= f) db)
  unfolding fresh ◌>>=◌
  After-fresh f db h = h

  pub After-record_audit :
      (action : AuditAction) (id : ℕ) (branch : Option ℕ) (f : Unit {0} → Action B) (db : Db)
      → ((events : List AuditEvent) → After Q (f tt (record db { audit = events })))
      → After Q ((record_audit action id branch >>= f) db)
  unfolding record_audit ◌>>=◌
  After-record_audit action id branch f db h =
      h (db.audit ++ (record { action = action; resource_id = id; branch_id = branch }) ∷ [])

  pub After-if :
      (b : Bool) (m n : Action B) (db : Db)
      → (b ≡ true → After Q (m db))
      → (b ≡ false → After Q (n db))
      → After Q ((if b then m else n) db)
  After-if true m n db h k = h refl
  After-if false m n db h k = k refl
