-- ===== src/Worker/Messages.antt =====
-- apps/worker/src/jobs/send-message.ts: the sending of one queued message. The provider is a
-- parameter: its answer to a message. What is sent is logged with its `idempotencyKey`.
pub mod Once
mod Tests
use pulso_crm.Prelude.{
  ℕ, ◌+◌, Bool, true, false, Option, none, some, List, [], ◌∷◌, ◌++◌, ◌==◌, if◌then◌else◌,
  find_first, update_where,
}

pub data MessageStatus : Type 0 where
  queued sending sent failed cancelled : MessageStatus

pub record MessageJob : Type 0 where
  pub id : ℕ
  pub status : MessageStatus
  pub attempts : ℕ
  pub dedupe_key : ℕ
  pub external_id : Option ℕ

-- `SendResult` (lib/messaging-provider.ts).
pub data SendResult : Type 0 where
  accepted : ℕ → SendResult
  rejected retryable : SendResult

-- The rows, and the keys of what has been handed to the provider.
pub record Mailer : Type 0 where
  pub jobs : List MessageJob
  pub sends : List ℕ

-- What the call ends with.
pub data JobEnd : Type 0 where
  returned thrown : JobEnd

abbrev pub is_resolved : MessageStatus → Bool
is_resolved sent = true
is_resolved cancelled = true
is_resolved other = false

abbrev pub update_job : ℕ → (MessageJob → MessageJob) → Mailer → Mailer
update_job id f m = record m { jobs = update_where (λ j. j.id == id) f m.jobs }

abbrev pub start_sending : MessageJob → MessageJob
start_sending j = record j { status = sending; attempts = j.attempts + 1 }

-- The branches on the provider's result.
unfoldable pub settle : MessageJob → SendResult → Mailer → JobEnd × Mailer
settle job (accepted external_id) m = (
  returned,
  update_job job.id (λ j. record j { status = sent; external_id = some external_id }) m,
)
settle job rejected m = (returned, update_job job.id (λ j. record j { status = failed }) m)
settle job retryable m = (thrown, update_job job.id (λ j. record j { status = queued }) m)

abbrev pub log_send : ℕ → Mailer → Mailer
log_send key m = record m { sends = m.sends ++ key ∷ [] }

unfoldable pub send_job : (ℕ → SendResult) → MessageJob → Mailer → JobEnd × Mailer
send_job provider job m =
    if is_resolved job.status
    then (returned, m)
    else settle job (provider job.dedupe_key)
        (log_send job.dedupe_key (update_job job.id start_sending m))

unfoldable pub process_found : (ℕ → SendResult) → Option MessageJob → Mailer → JobEnd × Mailer
process_found provider none m = (returned, m)
process_found provider (some job) m = send_job provider job m

-- `processMessageJob`; the queue's job has the id of the message, or none.
unfoldable pub process_message_job : (ℕ → SendResult) → Option ℕ → Mailer → JobEnd × Mailer
process_message_job provider none m = (returned, m)
process_message_job provider (some id) m =
    process_found provider (find_first (λ j. j.id == id) m.jobs) m
