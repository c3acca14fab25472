-- ===== src/Worker/Outbox/Tracked.antt =====
-- apps/worker/src/jobs/outbox-dispatcher.ts: the events that a batch keeps track of, and their jobs.
use pulso_crm.Prelude.{
  ℕ, ◌+◌, ◌≤◌, ◌<◌, ◌≡◌, ◌≢◌, refl, sym, subst, true, false, none, List, [], ◌∷◌, ◌++◌, ◌==◌,
  ==_iff, leb, if◌then◌else◌, includes, find_many, Bool, All, Bool-cases, inl, inr, arith,
}
use pulso_crm.Worker.Outbox.{
  pending, dispatched, failed, OutboxEvent, max_attempts, queue_for, Outbox, mark_dispatched,
  mark_failure, add_job, remove_jobs,
}

-- An event is tried at most five times: fewer while it waits, five when it is given up. One that is
-- dispatched, and has a queue to go to, has been handed to the queue.
pub record IsTracked (handed : List ℕ) (e : OutboxEvent) : Type 0 where
  pub bounded : e.attempts ≤ max_attempts
  pub waiting : e.status ≡ pending → e.attempts < max_attempts
  pub given_up : e.status ≡ failed → e.attempts ≡ max_attempts
  pub published : e.status ≡ dispatched → queue_for e.family ≢ none → includes e.id handed ≡ true

-- The rows with the id of an event are of its family: an id is one event's.
abbrev pub HasItsFamily : List OutboxEvent → OutboxEvent → Type 0
HasItsFamily rows e = All (λ x. x.id ≡ e.id → x.family ≡ e.family) rows

-- How often a job is on the queue.
unfoldable pub job_count : ℕ → List ℕ → ℕ
job_count id [] = 0
job_count id (x ∷ xs) = (if x == id then 1 else 0) + job_count id xs

pub job_count-append :
    (id : ℕ) (xs : List ℕ) (y : ℕ)
    → job_count id (xs ++ y ∷ []) ≡ job_count id xs + (if y == id then 1 else 0)
unfolding job_count
job_count-append id [] y = omega arith
job_count-append id (x ∷ xs) y = omega (arith, job_count-append id xs y)

pub job_count-absent : (id : ℕ) (xs : List ℕ) → includes id xs ≡ false → job_count id xs ≡ 0
unfolding job_count
job_count-absent id [] e = refl
job_count-absent id (x ∷ xs) e = ground (arith, job_count-absent id xs)

abbrev pub AtMostOnce : List ℕ → Type 0
AtMostOnce jobs = (id : ℕ) → job_count id jobs ≤ 1

pub add_job-AtMostOnce : (id : ℕ) (o : Outbox) → AtMostOnce o.jobs → AtMostOnce (add_job id o).jobs
add_job-AtMostOnce id o h i = elim (Bool-cases (includes id o.jobs)) [
  | inl e ↦ rw e (h i)
  | inr e ↦ rw e (
      let many = job_count-append i o.jobs id in
      elim (Bool-cases (id == i)) [
        | inl k ↦
            let gone : job_count i o.jobs ≡ 0 =
              subst (λ n. job_count n o.jobs ≡ 0) ((==_iff id i).0 k)
                (job_count-absent id o.jobs e) in
            rw many (rw (k, gone) (omega arith))
        | inr k ↦ rw many (rw k (omega (arith, h i)))
      ])
]

pub includes-add_job : (id : ℕ) (o : Outbox) → includes id (add_job id o).handed ≡ true
includes-add_job id o = last o.handed
  where
    last : (xs : List ℕ) → includes id (xs ++ id ∷ []) ≡ true
    last [] = rw ((==_iff id id).1 refl) refl
    last (x ∷ xs) = ground (arith, last xs)

pub add_job-keeps :
    (id : ℕ) (o : Outbox) (i : ℕ)
    → includes i o.handed ≡ true
    → includes i (add_job id o).handed ≡ true
add_job-keeps id o i h = more o.handed h
  where
    more : (xs : List ℕ) → includes i xs ≡ true → includes i (xs ++ id ∷ []) ≡ true
    more [] h = cc
    more (x ∷ xs) h = ground (arith, more xs)

-- What the queue removes makes no job appear.
pub remove_jobs-AtMostOnce :
    (keeps : ℕ → Bool) (o : Outbox) → AtMostOnce o.jobs → AtMostOnce (remove_jobs keeps o).jobs
unfolding job_count
remove_jobs-AtMostOnce keeps o h id = omega (arith, fewer o.jobs, h id)
  where
    fewer : (xs : List ℕ) → job_count id (find_many keeps xs) ≤ job_count id xs
    fewer [] = omega arith
    fewer (x ∷ xs) = elim (Bool-cases (keeps x)) [
      | inl k ↦ rw k (omega (arith, fewer xs))
      | inr k ↦ rw k (omega (arith, fewer xs))
    ]

-- What a batch keeps.
pub record IsSound (o : Outbox) : Type 0 where
  pub tracked : All (IsTracked o.handed) o.events
  pub once : AtMostOnce o.jobs

-- An event as a batch has read it: it waits, and its rows are of its family.
abbrev pub IsRead : List OutboxEvent → OutboxEvent → Type 0
IsRead rows e = (e.attempts < max_attempts) × HasItsFamily rows e

pub dispatched-IsTracked :
    (jobs : List ℕ) (e x : OutboxEvent)
    → (x.id ≡ e.id → x.family ≡ e.family)
    → (queue_for e.family ≢ none → includes e.id jobs ≡ true)
    → (x.id == e.id) ≡ true
    → IsTracked jobs x
    → IsTracked jobs (mark_dispatched x)
dispatched-IsTracked jobs e x family sent hit h =
    let own : x.id ≡ e.id = (==_iff x.id e.id).0 hit in
    record {
      bounded = h.bounded;
      waiting = λ k. cc;
      given_up = λ k. cc;
      published = λ k has.
          subst (λ i. includes i jobs ≡ true) (sym own)
            (sent (subst (λ f. queue_for f ≢ none) (family own) has));
    }

pub failure-IsTracked :
    (jobs : List ℕ) (now : ℕ) (e x : OutboxEvent)
    → e.attempts < max_attempts
    → IsTracked jobs (mark_failure now e x)
failure-IsTracked jobs now e x h = elim (Bool-cases (leb max_attempts (e.attempts + 1))) [
  | inl k ↦ rw k (record {
    bounded = omega arith;
    waiting = λ n. cc;
    given_up = λ n. ground arith;
    published = λ n. cc;
  })
  | inr k ↦ rw k (record {
    bounded = omega arith;
    waiting = λ n. ground arith;
    given_up = λ n. cc;
    published = λ n. cc;
  })
]
