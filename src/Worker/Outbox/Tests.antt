-- ===== src/Worker/Outbox/Tests.antt =====
-- A batch of three events: one is published, one is added but cannot be marked for the fifth time, one has
-- no queue. Later the queue removes the first job.
use pulso_crm.Prelude.{◌≡◌, refl, true, false, ◌∷◌, [], All, ◌==◌, ◌<◌, arith}
use pulso_crm.Worker.Outbox.{
  OutboxEvent, Outbox, Surroundings, pending, dispatched, failed, message, payment, unrouted,
  dispatch_outbox_batch, remove_jobs,
}
use pulso_crm.Worker.Outbox.Tracked.{IsTracked, HasItsFamily, IsSound, job_count}
use pulso_crm.Worker.Outbox.Bounded.{dispatch_outbox_batch-IsSound}

abbrev receipt_event : OutboxEvent
receipt_event = record {
  id = 1;
  family = payment;
  status = pending;
  attempts = 0;
  available_at = 100;
}

abbrev failing_event : OutboxEvent
failing_event = record {
  id = 2;
  family = message;
  status = pending;
  attempts = 4;
  available_at = 200;
}

abbrev audit_event : OutboxEvent
audit_event = record {
  id = 3;
  family = unrouted;
  status = pending;
  attempts = 0;
  available_at = 300;
}

abbrev three_events : Outbox
three_events = record {
  events = receipt_event ∷ failing_event ∷ audit_event ∷ [];
  jobs = [];
  handed = [];
}

abbrev second_fails : Surroundings
second_fails = record {
  is_registered = λ q. true;
  add_throws = λ id. false;
  update_throws = λ id. id == 2;
  now = 1000;
}

after_batch : dispatch_outbox_batch second_fails three_events ≡ (
  1,
  record {
    events =
        (record receipt_event { status = dispatched })
        ∷ (record failing_event { status = failed; attempts = 5; available_at = 3601000 })
        ∷ (record audit_event { status = dispatched })
        ∷ [];
    jobs = 1 ∷ 2 ∷ [];
    handed = 1 ∷ 2 ∷ [];
  },
)
unfolding pulso_crm.Worker.Outbox.select_batch pulso_crm.Worker.Outbox.publish
    pulso_crm.Worker.Outbox.dispatch_event pulso_crm.Worker.Outbox.dispatch_all
    pulso_crm.Worker.Outbox.dispatch_outbox_batch
after_batch = refl

waiting-IsTracked : (e : OutboxEvent) → e.status ≡ pending → e.attempts < 5 → IsTracked [] e
waiting-IsTracked e p h = record {
  bounded = omega arith;
  waiting = λ k. h;
  given_up = λ k. cc;
  published = λ k has. cc;
}

three_events-IsSound : IsSound three_events
unfolding job_count
three_events-IsSound = record {
  tracked = (
    waiting-IsTracked receipt_event refl (omega arith),
    (
      waiting-IsTracked failing_event refl (omega arith),
      (waiting-IsTracked audit_event refl (omega arith), tt),
    ),
  );
  once = λ id. omega arith;
}

three_families : All (HasItsFamily three_events.events) three_events.events
three_families = (
  (λ e. refl, (λ e. absurd (omega arith), (λ e. absurd (omega arith), tt))),
  (
    (λ e. absurd (omega arith), (λ e. refl, (λ e. absurd (omega arith), tt))),
    ((λ e. absurd (omega arith), (λ e. absurd (omega arith), (λ e. refl, tt))), tt),
  ),
)

dispatch_outbox_batch-IsSound_example :
    IsSound (remove_jobs (λ id. id == 2) (dispatch_outbox_batch second_fails three_events).1)
dispatch_outbox_batch-IsSound_example =
    dispatch_outbox_batch-IsSound second_fails (λ id. id == 2) three_events three_events-IsSound
      three_families
