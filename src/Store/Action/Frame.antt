-- ===== src/Store/Action/Frame.antt =====
-- Relations between the rows before and after a transaction that each of its steps respects.
use pulso_crm.Prelude.{
  ℕ, ◌+◌, ◌≡◌, Bool, true, false, Option, none, some, List, [], ◌∷◌, ◌++◌, Result, ok, err, Error,
  if◌then◌else◌,
}
use pulso_crm.Store.{Db, AuditEvent, AuditAction}
use pulso_crm.Store.Action.{
  Action, pure, gets, lift, require, modify, throw_when, ◌>>=◌, fresh, record_audit,
}
use pulso_crm.Store.Action.Run.{After, After-ok, After-bind}

-- A relation between the rows before and after that every run of `m` respects: a value of this
-- type names the relation, so that rules can be applied to it.
pub data Steps {ℓ} (R : Db → Db → Type 0) {A : Type ℓ} (m : Action A) : Type ℓ where
  steps : ((db : Db) → After (λ a db'. R db db') (m db)) → Steps R m

pub Steps-run {ℓ} :
    (R : Db → Db → Type 0) {A : Type ℓ} {m : Action A}
    → Steps R m
    → (db : Db) {a : A} {db' : Db} → m db ≡ ok (a, db')
    → R db db'
Steps-run R (steps h) db e = After-ok (λ a db'. R db db') (h db) e

-- The relations that are used are preorders which ids and the audit log do not enter.
pub record IsFrame (R : Db → Db → Type 0) : Type 0 where
  pub reflexive : (db : Db) → R db db
  pub transitive : (a b c : Db) → R a b → R b c → R a c
  pub ids : (db : Db) (n : ℕ) → R db (record db { next_id = n })
  pub log : (db : Db) (events : List AuditEvent) → R db (record db { audit = events })

module _ {R : Db → Db → Type 0} ⦃o : IsFrame R⦄ where
  infixr 4 ◌▸◌
  pub Steps-pure {ℓ} : {A : Type ℓ} (a : A) → Steps R (pure a)
  unfolding pure
  Steps-pure a = steps (λ db. o.reflexive db)

  pub Steps-gets {ℓ} : {A : Type ℓ} (f : Db → A) → Steps R (gets f)
  unfolding gets
  Steps-gets f = steps (λ db. o.reflexive db)

  pub Steps-lift {ℓ} : {A : Type ℓ} (r : Result A) → Steps R (lift r)
  unfolding lift
  Steps-lift (ok a) = steps (λ db. o.reflexive db)
  Steps-lift (err e) = steps (λ db. tt)

  pub Steps-require {ℓ} : {A : Type ℓ} (a : Option A) (e : Error) → Steps R (require a e)
  unfolding require
  Steps-require none e = steps (λ db. tt)
  Steps-require (some a) e = steps (λ db. o.reflexive db)

  pub Steps-throw_when : (b : Bool) (e : Error) → Steps R (throw_when b e)
  unfolding throw_when
  Steps-throw_when true e = steps (λ db. tt)
  Steps-throw_when false e = steps (λ db. o.reflexive db)

  pub Steps-fresh : Steps R fresh
  unfolding fresh
  Steps-fresh = steps (λ db. o.ids db (db.next_id + 1))

  pub Steps-record_audit :
      (action : AuditAction) (resource_id : ℕ) (branch_id : Option ℕ)
      → Steps R (record_audit action resource_id branch_id)
  unfolding record_audit
  Steps-record_audit action resource_id branch_id = steps (λ db. o.log db (
      db.audit
      ++ (record { action = action; resource_id = resource_id; branch_id = branch_id }) ∷ []))

  pub Steps-bind {ℓ κ} :
      {A : Type ℓ} {B : Type κ} {m : Action A} {f : A → Action B}
      → Steps R m
      → ((a : A) → Steps R (f a))
      → Steps R (m >>= f)
  Steps-bind {B = B} {m} {f} (steps h) k = steps (λ db.
      After-bind (λ a db'. R db db') (λ b db'. R db db') m f db (h db)
        (λ a db' p. go db db' p (f a) (k a)))
    where
      weaken :
          (db db' : Db)
          → R db db'
          → (r : Result (B × Db)) → After (λ b d. R db' d) r
          → After (λ b d. R db d) r
      weaken db db' p (ok (b, d)) q = o.transitive db db' d p q
      weaken db db' p (err e) q = tt

      go : (db db' : Db) → R db db' → (n : Action B) → Steps R n → After (λ b d. R db d) (n db')
      go db db' p n (steps q) = weaken db db' p (n db') (q db')

  -- A step, and the steps that follow.
  pub ◌▸◌ {ℓ κ} :
      {A : Type ℓ} {B : Type κ} {m : Action A} {f : A → Action B}
      → Steps R m
      → ((a : A) → Steps R (f a))
      → Steps R (m >>= f)
  s ▸ k = Steps-bind s k

  pub Steps-if {ℓ} :
      {A : Type ℓ} {m n : Action A} (b : Bool)
      → Steps R m
      → Steps R n
      → Steps R (if b then m else n)
  Steps-if true h k = h
  Steps-if false h k = k

pub Steps-modify :
    {R : Db → Db → Type 0} (f : Db → Db) → ((db : Db) → R db (f db)) → Steps R (modify f)
unfolding modify
Steps-modify f h = steps h
