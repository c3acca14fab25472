-- ===== src/Store/Action.antt =====
-- A transaction: it reads and writes the rows and ends with a value, or throws. An error carries no
-- rows, since PostgreSQL rolls the transaction back. Transactions run one after another: the code
-- takes row locks (`FOR UPDATE`) or `SERIALIZABLE` for that.
pub mod Run
pub mod Frame
use pulso_crm.Prelude.{
  ℕ, ◌+◌, Bool, true, false, Option, none, some, [], ◌∷◌, ◌++◌, List, Result, ok, err, Error,
  if◌then◌else◌,
}
use pulso_crm.Store.{Db, AuditEvent, AuditAction}

abbrev pub Action {ℓ} : Type ℓ → Type ℓ
Action A = Db → Result (A × Db)

module _ {ℓ} {A : Type ℓ} where
  unfoldable pub pure : A → Action A
  pure a db = ok (a, db)

  unfoldable pub throw : Error → Action A
  throw e db = err e

  -- A read.
  unfoldable pub gets : (Db → A) → Action A
  gets f db = ok (f db, db)

  -- A result that needs no database.
  unfoldable pub lift : Result A → Action A
  lift (ok a) db = ok (a, db)
  lift (err e) db = err e

  -- `if (!row) throw e`.
  unfoldable pub require : Option A → Error → Action A
  require none e db = err e
  require (some a) e db = ok (a, db)

-- A write.
unfoldable pub modify : (Db → Db) → Action (Unit {0})
modify f db = ok (tt, f db)

-- `if (test) throw e`.
unfoldable pub throw_when : Bool → Error → Action (Unit {0})
throw_when true e db = err e
throw_when false e db = ok (tt, db)

infixl 5 ◌>>=◌ ◌>>◌
unfoldable pub ◌>>=◌ {ℓ κ} : {A : Type ℓ} {B : Type κ} → Action A → (A → Action B) → Action B
◌>>=◌ m f db = elim (m db) [ ok (a, db') ↦ f a db' | err e ↦ err e ]

abbrev pub ◌>>◌ {κ} : {B : Type κ} → Action (Unit {0}) → Action B → Action B
m >> k = m >>= λ _. k

-- The database's `@default(uuid(7))`.
unfoldable pub fresh : Action ℕ
fresh db = ok (db.next_id, record db { next_id = db.next_id + 1 })

-- `audit.recordIn(tx, …)` and `tx.auditEvent.create`.
unfoldable pub record_audit : AuditAction → ℕ → Option ℕ → Action (Unit {0})
record_audit action resource_id branch_id db = ok (
  tt,
  record db {
    audit =
        db.audit
        ++ (record { action = action; resource_id = resource_id; branch_id = branch_id }) ∷ [];
  },
)

-- A test of an action: its value and rows, if it does not throw.
abbrev pub outcome {ℓ} : {A : Type ℓ} → Result (A × Db) → Option (A × Db)
outcome (ok r) = some r
outcome (err e) = none
