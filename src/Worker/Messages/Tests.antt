-- ===== src/Worker/Messages/Tests.antt =====
-- One message, whose first delivery fails and whose second is accepted.
use pulso_crm.Prelude.{◌≡◌, refl, none, some, ◌∷◌, [], ℕ}
use pulso_crm.Worker.Messages.{
  MessageJob, Mailer, queued, accepted, retryable, thrown, SendResult, start_sending,
  process_message_job,
}
use pulso_crm.Worker.Messages.Once.{sent_job}

abbrev receipt : MessageJob
receipt = record { id = 4; status = queued; attempts = 0; dedupe_key = 77; external_id = none }

abbrev one_receipt : Mailer
one_receipt = record { jobs = receipt ∷ []; sends = [] }

-- A failure that may be retried puts the message back and fails the queue's job.
failed_first : process_message_job (λ key. retryable) (some 4) one_receipt ≡ (
  thrown,
  record { jobs = (record receipt { status = queued; attempts = 1 }) ∷ []; sends = 77 ∷ [] },
)
unfolding process_message_job pulso_crm.Worker.Messages.process_found
    pulso_crm.Worker.Messages.send_job pulso_crm.Worker.Messages.settle
failed_first = refl

abbrev accepting : ℕ → SendResult
accepting key = accepted 900

abbrev receipt_sent : Mailer
receipt_sent = record { jobs = sent_job 900 (start_sending receipt) ∷ []; sends = 77 ∷ [] }
