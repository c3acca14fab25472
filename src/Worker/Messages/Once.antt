-- ===== src/Worker/Messages/Once.antt =====
-- apps/worker/src/jobs/send-message.ts: an accepted message, and later deliveries of its job.
use pulso_crm.Prelude.{ℕ, zero, suc, Option, some, ◌==◌, find_first}
use pulso_crm.Worker.Messages.{
  sent, MessageJob, SendResult, Mailer, start_sending, update_job, log_send, process_message_job,
}

-- The queue delivers a job `n` times more.
pub redeliver : ℕ → (ℕ → SendResult) → ℕ → Mailer → Mailer
redeliver zero provider id m = m
redeliver (suc n) provider id m =
    redeliver n provider id (process_message_job provider (some id) m).1

abbrev pub find_job : ℕ → Mailer → Option MessageJob
find_job id m = find_first (λ j. j.id == id) m.jobs

-- The row of an accepted message.
abbrev pub sent_job : ℕ → MessageJob → MessageJob
sent_job external_id j = record j { status = sent; external_id = some external_id }

-- The rows and the log after a message has been accepted.
abbrev accepted_rows : ℕ → MessageJob → Mailer → Mailer
accepted_rows external_id j m =
    update_job j.id (sent_job external_id) (log_send j.dedupe_key (update_job j.id start_sending m))
