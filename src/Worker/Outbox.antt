-- ===== src/Worker/Outbox.antt =====
-- apps/worker/src/jobs/outbox-dispatcher.ts: the events that transactions leave in `outbox_events`
-- are published on the queues. BullMQ is a parameter: whether its `add` throws at an event. A job id
-- that a queue still has is not added again, as BullMQ documents; a queue removes finished jobs after
-- some time (apps/worker/src/queues/index.ts, `DEFAULT_JOB_OPTIONS`), which is a step of its own. The
-- update of a row may throw after the `add`; the one in the `catch` is taken to succeed.
pub mod Tracked
pub mod Bounded
mod Tests
use pulso_crm.Prelude.{
  ℕ, zero, suc, ◌+◌, ◌-◌, ◌≤◌, min, Bool, true, false, not, Option, none, some, List, [], ◌∷◌, ◌++◌,
  ◌==◌, ◌&&◌, ◌||◌, leb, if◌then◌else◌, find_many, update_where, includes,
}

pub data EventStatus : Type 0 where
  pending dispatched failed : EventStatus

-- What the prefix tests on an `eventType` tell: `message.`, `payment.`, `membership.` or none.
pub data EventFamily : Type 0 where
  message payment membership unrouted : EventFamily

pub record OutboxEvent : Type 0 where
  pub id : ℕ
  pub family : EventFamily
  pub status : EventStatus
  pub attempts : ℕ
  -- In milliseconds.
  pub available_at : ℕ

-- The queues of `QUEUE_NAMES` that events go to.
pub data QueueName : Type 0 where
  messaging : QueueName

abbrev pub batch_size : ℕ
batch_size = 100

-- `RETRY_BACKOFF_MS`.
abbrev pub retry_backoff_ms : ℕ → ℕ
retry_backoff_ms zero = 5000
retry_backoff_ms (suc zero) = 30000
retry_backoff_ms (suc (suc zero)) = 120000
retry_backoff_ms (suc (suc (suc zero))) = 600000
retry_backoff_ms other = 3600000

abbrev pub max_attempts : ℕ
max_attempts = 5

-- `queueFor`.
abbrev pub queue_for : EventFamily → Option QueueName
queue_for message = some messaging
queue_for payment = some messaging
queue_for membership = some messaging
queue_for unrouted = none

-- What a batch reads and writes: the rows, the ids of the jobs that the queue has, and the log of the
-- calls of `add` that have returned.
pub record Outbox : Type 0 where
  pub events : List OutboxEvent
  pub jobs : List ℕ
  pub handed : List ℕ

-- The surroundings of a batch: the registered queues, the events at which `add` throws, the ones whose
-- update after it throws, and `Date.now()`.
pub record Surroundings : Type 0 where
  pub is_registered : QueueName → Bool
  pub add_throws : ℕ → Bool
  pub update_throws : ℕ → Bool
  pub now : ℕ

abbrev pub is_pending : EventStatus → Bool
is_pending pending = true
is_pending other = false

abbrev pub is_available : ℕ → OutboxEvent → Bool
is_available now e = is_pending e.status && leb e.available_at now

abbrev pub take : ℕ → List OutboxEvent → List OutboxEvent
take zero es = []
take (suc n) [] = []
take (suc n) (e ∷ es) = e ∷ take n es

-- The rows of the batch: `ORDER BY "createdAt" LIMIT 100`, in the order of creation.
unfoldable pub select_batch : ℕ → List OutboxEvent → List OutboxEvent
select_batch now es = take batch_size (find_many (is_available now) es)

-- `prisma.outboxEvent.update({ where: { id } })`.
abbrev pub update_event : ℕ → (OutboxEvent → OutboxEvent) → Outbox → Outbox
update_event id f o = record o { events = update_where (λ e. e.id == id) f o.events }

abbrev pub mark_dispatched : OutboxEvent → OutboxEvent
mark_dispatched e = record e { status = dispatched }

-- The update after a failure; `tried` is the row as the batch read it.
abbrev pub mark_failure : ℕ → OutboxEvent → OutboxEvent → OutboxEvent
mark_failure now tried e = record e {
  attempts = tried.attempts + 1;
  status = if leb max_attempts (tried.attempts + 1) then failed else pending;
  available_at = now + retry_backoff_ms (min tried.attempts (max_attempts - 1));
}

-- `queue.add(…, { jobId })`.
abbrev pub add_job : ℕ → Outbox → Outbox
add_job id o = record o {
  jobs = if includes id o.jobs then o.jobs else o.jobs ++ id ∷ [];
  handed = o.handed ++ id ∷ [];
}

-- The jobs that a queue removes after their time.
abbrev pub remove_jobs : (ℕ → Bool) → Outbox → Outbox
remove_jobs keeps o = record o { jobs = find_many keeps o.jobs }

-- The `try` and `catch` of one event.
unfoldable pub publish : Surroundings → OutboxEvent → Outbox → ℕ × Outbox
publish s e o =
    if s.add_throws e.id
    then (0, update_event e.id (mark_failure s.now e) o)
    else if s.update_throws e.id
    then (0, update_event e.id (mark_failure s.now e) (add_job e.id o))
    else (1, update_event e.id mark_dispatched (add_job e.id o))

unfoldable pub dispatch_event : Surroundings → OutboxEvent → Option QueueName → Outbox → ℕ × Outbox
dispatch_event s e none o = (0, update_event e.id mark_dispatched o)
dispatch_event s e (some target) o = if s.is_registered target then publish s e o else (0, o)

-- The loop over the batch.
unfoldable pub dispatch_all : Surroundings → List OutboxEvent → ℕ → Outbox → ℕ × Outbox
dispatch_all s [] count o = (count, o)
dispatch_all s (e ∷ es) count o =
    let (n, o') = dispatch_event s e (queue_for e.family) o in dispatch_all s es (count + n) o'

-- `dispatchOutboxBatch`.
unfoldable pub dispatch_outbox_batch : Surroundings → Outbox → ℕ × Outbox
dispatch_outbox_batch s o = dispatch_all s (select_batch s.now o.events) 0 o
