-- ===== src/Worker/Outbox/Bounded.antt =====
-- apps/worker/src/jobs/outbox-dispatcher.ts: a batch, event by event.
use pulso_crm.Prelude.{
  ℕ, zero, suc, ◌+◌, ◌<◌, ◌≡◌, ◌≢◌, refl, sym, ◌∙◌, Bool, true, Option, none, some, List, [], ◌∷◌,
  ◌++◌, ◌==◌, find_many, update_where, includes, All, All-map, All-update_where, Bool-cases, inl,
  inr, arith,
}
use pulso_crm.Worker.Outbox.{
  pending, OutboxEvent, QueueName, batch_size, queue_for, Outbox, Surroundings, is_available, take,
  select_batch, mark_dispatched, mark_failure, add_job, remove_jobs, max_attempts, update_event,
  publish, dispatch_event, dispatch_all, dispatch_outbox_batch,
}
use pulso_crm.Worker.Outbox.Tracked.{
  IsTracked, HasItsFamily, add_job-AtMostOnce, includes-add_job, add_job-keeps,
  remove_jobs-AtMostOnce, IsSound, IsRead, dispatched-IsTracked, failure-IsTracked,
}

-- A write that keeps ids and families.
update-HasItsFamily :
    (e k : OutboxEvent) (f : OutboxEvent → OutboxEvent) (rows : List OutboxEvent)
    → ((x : OutboxEvent) → ((f x).id ≡ x.id) × ((f x).family ≡ x.family))
    → HasItsFamily rows e
    → HasItsFamily (update_where (λ x. x.id == k.id) f rows) e
update-HasItsFamily e k f rows same h =
    All-update_where _ (λ x. x.id ≡ e.id → x.family ≡ e.family) (λ x. x.id == k.id) f rows
      (λ x hit own at. (same x).1 ∙ own (sym (same x).0 ∙ at)) (λ x miss own at. own at) h

All-both {ℓ} :
    {A : Type ℓ} (P Q : A → Type 0) (xs : List A) → All P xs → All Q xs → All (λ x. P x × Q x) xs
All-both P Q [] h k = tt
All-both P Q (x ∷ xs) h k = ((h.0, k.0), All-both P Q xs h.1 k.1)

record Kept (o o' : Outbox) : Type 0 where
  sound : IsSound o'
  families : (k : OutboxEvent) → HasItsFamily o.events k → HasItsFamily o'.events k

dispatched-Kept :
    (e : OutboxEvent) (o : Outbox)
    → IsSound o
    → HasItsFamily o.events e
    → (queue_for e.family ≢ none → includes e.id o.handed ≡ true)
    → Kept o (update_event e.id mark_dispatched o)
dispatched-Kept e o h own sent = record {
  sound = record {
    tracked =
        All-update_where (λ x. (x.id ≡ e.id → x.family ≡ e.family) × IsTracked o.handed x)
          (IsTracked o.handed) (λ x. x.id == e.id) mark_dispatched o.events
          (λ x hit p. dispatched-IsTracked o.handed e x p.0 sent hit p.1) (λ x miss p. p.1)
          (All-both _ _ o.events own h.tracked);
    once = h.once;
  };
  families = λ k fam. update-HasItsFamily k e mark_dispatched o.events (λ x. (refl, refl)) fam;
}

-- With more jobs the events stay tracked.
tracked_more : (id : ℕ) (o : Outbox) → IsSound o → IsSound (add_job id o)
tracked_more id o h = record {
  tracked =
      All-map (IsTracked o.handed) (IsTracked (o.handed ++ id ∷ [])) o.events
        (λ x t. record {
          bounded = t.bounded;
          waiting = t.waiting;
          given_up = t.given_up;
          published = λ k has. add_job-keeps id o x.id (t.published k has);
        })
        h.tracked;
  once = add_job-AtMostOnce id o h.once;
}

failure-Kept :
    (now : ℕ) (e : OutboxEvent) (o : Outbox)
    → IsSound o
    → e.attempts < max_attempts
    → Kept o (update_event e.id (mark_failure now e) o)
failure-Kept now e o h few = record {
  sound = record {
    tracked =
        All-update_where (IsTracked o.handed) (IsTracked o.handed) (λ x. x.id == e.id)
          (mark_failure now e) o.events (λ x hit p. failure-IsTracked o.handed now e x few)
          (λ x miss p. p) h.tracked;
    once = h.once;
  };
  families = λ k fam. update-HasItsFamily k e (mark_failure now e) o.events (λ x. (refl, refl)) fam;
}

publish-Kept :
    (s : Surroundings) (e : OutboxEvent) (o : Outbox)
    → IsSound o
    → IsRead o.events e
    → Kept o (publish s e o).1
unfolding publish
publish-Kept s e o h read = elim (Bool-cases (s.add_throws e.id)) [
  | inl bad ↦ rw bad (failure-Kept s.now e o h read.0)
  | inr good ↦ rw good (
      let more = tracked_more e.id o h in
      elim (Bool-cases (s.update_throws e.id)) [
        | inl bad ↦
            let kept = failure-Kept s.now e (add_job e.id o) more read.0 in
            rw bad (record { sound = kept.sound; families = kept.families })
        | inr fine ↦
            let kept =
              dispatched-Kept e (add_job e.id o) more read.1 (λ has. includes-add_job e.id o) in
            rw fine (record { sound = kept.sound; families = kept.families })
      ])
]

dispatch_event-Kept :
    (s : Surroundings) (e : OutboxEvent) (target : Option QueueName) (o : Outbox)
    → queue_for e.family ≡ target
    → IsSound o
    → IsRead o.events e
    → Kept o (dispatch_event s e target o).1
unfolding dispatch_event
dispatch_event-Kept s e none o goes h read = dispatched-Kept e o h read.1 (λ has. absurd (has goes))
dispatch_event-Kept s e (some target) o goes h read = elim (Bool-cases (s.is_registered target)) [
  | inl r ↦ rw r (publish-Kept s e o h read)
  | inr r ↦ rw r (record { sound = h; families = λ k fam. fam })
]

dispatch_all-IsSound :
    (s : Surroundings) (es : List OutboxEvent) (count : ℕ) (o : Outbox)
    → IsSound o
    → All (IsRead o.events) es
    → IsSound (dispatch_all s es count o).1
unfolding dispatch_all
dispatch_all-IsSound s [] count o h reads = h
dispatch_all-IsSound s (e ∷ es) count o h reads =
    let run = dispatch_event s e (queue_for e.family) o in
    let kept = dispatch_event-Kept s e (queue_for e.family) o refl h reads.0 in
    dispatch_all-IsSound s es (count + run.0) run.1 kept.sound (
      All-map (IsRead o.events) (IsRead run.1.events) es (λ k r. (r.0, kept.families k r.1))
        reads.1)

-- What the batch reads is waiting.
All-take_find :
    (P : OutboxEvent → Type 0) (p : OutboxEvent → Bool) (n : ℕ) (es : List OutboxEvent)
    → All (λ e. p e ≡ true → P e) es
    → All P (take n (find_many p es))
All-take_find P p zero es h = tt
All-take_find P p (suc n) [] h = tt
All-take_find P p (suc n) (e ∷ es) h = elim (Bool-cases (p e)) [
  | inl k ↦ rw k (h.0 k, All-take_find P p n es h.1)
  | inr k ↦ rw k (All-take_find P p (suc n) es h.1)
]

batch-IsRead :
    (n now : ℕ) (jobs : List ℕ) (rows es : List OutboxEvent)
    → All (HasItsFamily rows) es
    → All (IsTracked jobs) es
    → All (IsRead rows) (take n (find_many (is_available now) es))
batch-IsRead n now jobs rows es own h = All-take_find (IsRead rows) (is_available now) n es (
    All-map _ _ es (λ e p k. (p.1.waiting (is_waiting e k), p.0))
      (All-both (HasItsFamily rows) (IsTracked jobs) es own h))
  where
    is_waiting : (e : OutboxEvent) → is_available now e ≡ true → e.status ≡ pending
    is_waiting e k = ground arith

-- If rows with the same id are of one family, then after a batch, whatever queues are registered, wherever
-- publishing or the update after it throws, and whatever jobs the queue removes afterwards: no event
-- has been tried more than five times, the ones that wait fewer and the ones given up exactly five
-- times; every dispatched event that has a queue has been handed to it; and no job is on it twice.
pub dispatch_outbox_batch-IsSound :
    (s : Surroundings) (keeps : ℕ → Bool) (o : Outbox)
    → IsSound o
    → All (HasItsFamily o.events) o.events
    → IsSound (remove_jobs keeps (dispatch_outbox_batch s o).1)
unfolding dispatch_outbox_batch select_batch
dispatch_outbox_batch-IsSound s keeps o h own =
    let after =
      dispatch_all-IsSound s _ 0 o h
        (batch-IsRead batch_size s.now o.handed o.events o.events own h.tracked) in
    record {
      tracked = after.tracked;
      once = remove_jobs-AtMostOnce keeps (dispatch_outbox_batch s o).1 after.once;
    }
