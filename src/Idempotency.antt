-- ===== src/Idempotency.antt =====
-- apps/api/src/common/idempotency/idempotency.interceptor.ts: the state of an idempotency key. A key
-- and the SHA-256 of a request's body are numbers that are only compared; of the header, its trimmed
-- length is kept. Handlers run concurrently: a claim, and the end of the handler that has it, are
-- steps of their own. A claim is one step: the unique index on the key makes the first claim one, but
-- the code reads the row of a failed or stale claim and locks it again without a transaction.
pub mod Exclusive
mod Tests
use pulso_crm.Prelude.{
  ℕ, ◌+◌, ◌*◌, ◌≤◌, ◌≡◌, Bool, true, false, not, Option, none, some, List, [], ◌∷◌, ◌++◌, ◌==◌, ltb,
  if◌then◌else◌, find_first, update_where, includes, All, Result, ok, err, code,
  idempotency_key_required, idempotency_key_reused, idempotency_in_progress,
}

pub data KeyStatus : Type 0 where
  in_progress completed failed : KeyStatus

-- `responseStatus` and `responseBody`.
pub record Response : Type 0 where
  pub status : ℕ
  pub body : ℕ

pub record KeyRow : Type 0 where
  pub id : ℕ
  pub key : ℕ
  pub request_hash : ℕ
  pub status : KeyStatus
  pub response : Option Response
  -- In milliseconds.
  pub locked_at : ℕ

-- The table of keys of a gym, the clock, and the claims whose handlers run.
pub record Service : Type 0 where
  pub next_id : ℕ
  pub now : ℕ
  pub rows : List KeyRow
  pub running : List ℕ

-- A request to an endpoint that is marked `@Idempotent`.
pub record Request : Type 0 where
  pub key : ℕ
  pub key_length : ℕ
  pub request_hash : ℕ

-- What `claim` returns.
pub data Claim : Type 0 where
  claimed : ℕ → Claim
  replay : Response → Claim

-- `STALE_LOCK_MINUTES * 60_000`.
abbrev pub stale_lock_ms : ℕ
stale_lock_ms = 5 * 60000

-- `existing.responseStatus ?? 200`, with the body that is stored.
abbrev pub stored : Option Response → Response
stored none = record { status = 200; body = 0 }
stored (some r) = r

-- `db.idempotencyKey.update({ where: { id } })`.
abbrev pub update_key : ℕ → (KeyRow → KeyRow) → Service → Service
update_key id f s = record s { rows = update_where (λ r. r.id == id) f s.rows }

-- A stale row is in progress already, so that the status written for it is the one it has.
abbrev pub lock_again : ℕ → KeyRow → KeyRow
lock_again now r = record r { status = in_progress; locked_at = now }

abbrev pub new_row : Request → Service → KeyRow
new_row req s = record {
  id = s.next_id;
  key = req.key;
  request_hash = req.request_hash;
  status = in_progress;
  response = none;
  locked_at = s.now;
}

-- `db.idempotencyKey.create`, when the unique index on the key lets it pass.
unfoldable pub insert_key : Request → Service → Result (Claim × Service)
insert_key req s =
    ok
      (claimed s.next_id, record s { next_id = s.next_id + 1; rows = s.rows ++ new_row req s ∷ [] })

-- The branches on the status of the row that has the key.
unfoldable pub claim_status : KeyStatus → KeyRow → Service → Result (Claim × Service)
claim_status completed row s = ok (replay (stored row.response), s)
claim_status failed row s = ok (claimed row.id, update_key row.id (lock_again s.now) s)
claim_status in_progress row s =
    if ltb (row.locked_at + stale_lock_ms) s.now
    then ok (claimed row.id, update_key row.id (lock_again s.now) s)
    else err (code idempotency_in_progress)

unfoldable pub claim_row : Request → Option KeyRow → Service → Result (Claim × Service)
claim_row req none s = insert_key req s
claim_row req (some row) s =
    if not (row.request_hash == req.request_hash)
    then err (code idempotency_key_reused)
    else claim_status row.status row s

abbrev pub find_key : ℕ → Service → Option KeyRow
find_key key s = find_first (λ r. r.key == key) s.rows

-- `intercept` up to the handler: the header is checked and the key is claimed.
unfoldable pub claim : Request → Service → Result (Claim × Service)
claim req s =
    if ltb req.key_length 8
    then err (code idempotency_key_required)
    else claim_row req (find_key req.key s) s

-- A list without the first occurrence of an id.
unfoldable pub remove : ℕ → List ℕ → List ℕ
remove id [] = []
remove id (x ∷ xs) = if x == id then xs else x ∷ remove id xs

abbrev pub complete_row : Response → KeyRow → KeyRow
complete_row response r = record r { status = completed; response = some response }

abbrev pub fail_row : KeyRow → KeyRow
fail_row r = record r { status = failed }

abbrev pub end_claim : ℕ → (KeyRow → KeyRow) → Service → Service
end_claim id f s = record (update_key id f s) { running = remove id s.running }

-- `complete`, after the handler has answered.
unfoldable pub complete : ℕ → Response → Service → Service
complete id response s = end_claim id (complete_row response) s

-- `fail`, after the handler has thrown.
unfoldable pub fail : ℕ → Service → Service
fail id s = end_claim id fail_row s

-- What happens at a gym's keys. Time passes only while no handler runs for more than the five minutes
-- after which a lock counts as stale.
pub data Step (s t : Service) : Type 0 where
  start :
      (req : Request) (id : ℕ) (s' : Service)
      → claim req s ≡ ok (claimed id, s')
      → t ≡ record s' { running = id ∷ s'.running }
      → Step s t
  answer :
      (id : ℕ) (response : Response)
      → includes id s.running ≡ true
      → t ≡ complete id response s
      → Step s t
  break_off : (id : ℕ) → includes id s.running ≡ true → t ≡ fail id s → Step s t
  -- The process dies, or the update in `complete` or `fail` throws, which is swallowed: the row stays.
  lose : (id : ℕ) → includes id s.running ≡ true → t ≡ end_claim id (λ r. r) s → Step s t
  wait :
      (ms : ℕ)
      → All (λ r. includes r.id s.running ≡ true → s.now + ms ≤ r.locked_at + stale_lock_ms) s.rows
      → t ≡ record s { now = s.now + ms }
      → Step s t

pub data Reach (s : Service) : Service → Type 0 where
  here : Reach s s
  next : {t u : Service} → Reach s t → Step t u → Reach s u
