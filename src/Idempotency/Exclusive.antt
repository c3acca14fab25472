-- ===== src/Idempotency/Exclusive.antt =====
-- apps/api/src/common/idempotency/idempotency.interceptor.ts: the handlers that run for a key.
use pulso_crm.Prelude.{
  ℕ, ◌+◌, ◌≤◌, ◌<◌, ◌≡◌, refl, sym, subst, ◌∙◌, true, false, Option, none, some, List, [], ◌∷◌,
  ◌==◌, ==_iff, ltb, ltb→lt, if◌then◌else◌, update_where, includes, All, All-map, All-append,
  All-update_where, All-find_first, Bool-cases, inl, inr, Result, ok, err, arith,
}
use pulso_crm.Idempotency.{
  KeyStatus, in_progress, completed, failed, KeyRow, Service, Request, Claim, claimed, replay,
  stale_lock_ms, update_key, lock_again, insert_key, claim_status, claim_row, find_key, claim,
  remove, complete_row, fail_row, end_claim, complete, fail, Step, start, answer, break_off, lose,
  wait, Reach, here, next,
}

-- How many handlers run for a claim.
unfoldable pub handlers : ℕ → List ℕ → ℕ
handlers id [] = 0
handlers id (x ∷ xs) = (if x == id then 1 else 0) + handlers id xs

-- Ids are below the next one; a claim whose handler runs is in progress, with a lock that is not
-- stale.
abbrev pub IsHeld : ℕ → ℕ → List ℕ → KeyRow → Type 0
IsHeld next_id now running r =
    (r.id < next_id)
    × (includes r.id running ≡ true
        → (r.status ≡ in_progress) × (now ≤ r.locked_at + stale_lock_ms))

pub record IsExclusive (s : Service) : Type 0 where
  pub single : (id : ℕ) → handlers id s.running ≤ 1
  pub held : All (IsHeld s.next_id s.now s.running) s.rows
  pub known : All (λ i. i < s.next_id) s.running

handlers-absent : (id : ℕ) (xs : List ℕ) → includes id xs ≡ false → handlers id xs ≡ 0
unfolding handlers
handlers-absent id [] e = refl
handlers-absent id (x ∷ xs) e = ground (arith, handlers-absent id xs)

absent-handlers : (id : ℕ) (xs : List ℕ) → handlers id xs ≡ 0 → includes id xs ≡ false
unfolding handlers
absent-handlers id [] e = refl
absent-handlers id (x ∷ xs) e = ground (arith, absent-handlers id xs)

includes-fresh : (n : ℕ) (xs : List ℕ) → All (λ i. i < n) xs → includes n xs ≡ false
includes-fresh n [] h = refl
includes-fresh n (x ∷ xs) h = let rest = includes-fresh n xs h.1 in ground (arith, h.0)

handlers-remove :
    (id k : ℕ) (xs : List ℕ)
    → includes k xs ≡ true
    → handlers id (remove k xs) + (if k == id then 1 else 0) ≡ handlers id xs
unfolding handlers remove
handlers-remove id k [] h = cc
handlers-remove id k (x ∷ xs) h = ground (arith, handlers-remove id k xs)

includes-remove : (i k : ℕ) (xs : List ℕ) → includes i (remove k xs) ≡ true → includes i xs ≡ true
unfolding remove
includes-remove i k [] h = h
includes-remove i k (x ∷ xs) h = ground (arith, includes-remove i k xs)

All-remove : (P : ℕ → Type 0) (k : ℕ) (xs : List ℕ) → All P xs → All P (remove k xs)
unfolding remove
All-remove P k [] h = tt
All-remove P k (x ∷ xs) h = elim (Bool-cases (x == k)) [
  | inl e ↦ rw e h.1
  | inr e ↦ rw e (h.0, All-remove P k xs h.1)
]

-- One more handler, for a claim that had none.
handlers-start :
    (id : ℕ) (xs : List ℕ)
    → ((i : ℕ) → handlers i xs ≤ 1)
    → includes id xs ≡ false
    → (i : ℕ) → handlers i (id ∷ xs) ≤ 1
unfolding handlers
handlers-start id xs h absent i = elim (Bool-cases (id == i)) [
  | inl e ↦
      let gone : handlers i xs ≡ 0 =
        subst (λ k. handlers k xs ≡ 0) ((==_iff id i).0 e) (handlers-absent id xs absent) in
      rw e (omega (arith, gone))
  | inr e ↦ rw e (omega (arith, h i))
]

-- The rows when a claim that had no handler is locked again and starts one.
All-lock_again :
    (next_id now id : ℕ) (running : List ℕ) (rows : List KeyRow)
    → All (IsHeld next_id now running) rows
    → All (IsHeld next_id now (id ∷ running)) (update_where (λ r. r.id == id) (lock_again now) rows)
All-lock_again next_id now id running rows h =
    All-update_where (IsHeld next_id now running) (IsHeld next_id now (id ∷ running))
      (λ r. r.id == id) (lock_again now) rows (λ r hit old. (old.0, λ inc. (refl, omega arith)))
      (λ r miss old. (old.0, λ inc. old.1 (rw miss at inc))) h

-- What a claim leaves once its handler runs.
abbrev Started : Result (Claim × Service) → Type 0
Started (ok (claimed id, s)) = IsExclusive (record s { running = id ∷ s.running })
Started (ok (replay r, s)) = Unit
Started (err e) = Unit

insert_key-Started : (req : Request) (s : Service) → IsExclusive s → Started (insert_key req s)
unfolding insert_key
insert_key-Started req s h =
    let absent = includes-fresh s.next_id s.running h.known in
    let now_held = IsHeld (s.next_id + 1) s.now (s.next_id ∷ s.running) in
    record {
      single = handlers-start s.next_id s.running h.single absent;
      held =
          All-append now_held s.rows
            (All-map (IsHeld s.next_id s.now s.running) now_held s.rows
              (λ r old. (omega (arith, old.0), λ inc. old.1 (other_id r old.0 inc))) h.held)
            (omega arith, λ inc. (refl, omega arith));
      known = (
        omega arith,
        All-map (λ i. i < s.next_id) (λ i. i < s.next_id + 1) s.running (λ i lt. omega arith)
            h.known,
      );
    }
  where
    other_id :
        (r : KeyRow)
        → r.id < s.next_id
        → includes r.id (s.next_id ∷ s.running) ≡ true
        → includes r.id s.running ≡ true
    other_id r lt inc = ground arith

lock_again-Started :
    (row : KeyRow) (s : Service)
    → IsExclusive s
    → row.id < s.next_id
    → includes row.id s.running ≡ false
    → Started (ok (claimed row.id, update_key row.id (lock_again s.now) s))
lock_again-Started row s h below absent = record {
  single = handlers-start row.id s.running h.single absent;
  held = All-lock_again s.next_id s.now row.id s.running s.rows h.held;
  known = (below, h.known);
}

-- A row whose claim has no handler, since it has ended or its lock is stale.
claim_row-Started :
    (req : Request) (o : Option KeyRow) (s : Service)
    → IsExclusive s
    → ((row : KeyRow) → o ≡ some row → IsHeld s.next_id s.now s.running row)
    → Started (claim_row req o s)
unfolding claim_row claim_status
claim_row-Started req none s h found = insert_key-Started req s h
claim_row-Started req (some row) s h found =
    elim (Bool-cases (row.request_hash == req.request_hash)) [
      | inr other ↦ rw other tt
      | inl same ↦ rw same (by_status row.status refl)
    ]
  where
    row_held : IsHeld s.next_id s.now s.running row
    row_held = found row refl

    idle :
        ((row.status ≡ in_progress) × (s.now ≤ row.locked_at + stale_lock_ms) → ⊥)
        → includes row.id s.running ≡ false
    idle ended = elim (Bool-cases (includes row.id s.running)) [
      | inl inc ↦ absurd (ended (row_held.1 inc))
      | inr out ↦ out
    ]

    by_status : (status : KeyStatus) → row.status ≡ status → Started (claim_status status row s)
    by_status completed e = tt
    by_status failed e = lock_again-Started row s h row_held.0 (idle λ k. cc (e, k.0))
    by_status in_progress e = elim (Bool-cases (ltb (row.locked_at + stale_lock_ms) s.now)) [
      | inl stale ↦
          rw stale
            (lock_again-Started row s h row_held.0 (idle λ k. omega (arith, ltb→lt _ _ stale, k.1)))
      | inr held ↦ rw held tt
    ]

claim-Started : (req : Request) (s : Service) → IsExclusive s → Started (claim req s)
unfolding claim
claim-Started req s h = elim (Bool-cases (ltb req.key_length 8)) [
  | inl short ↦ rw short tt
  | inr long ↦ rw long (
      claim_row-Started req (find_key req.key s) s h
        (λ row e. All-find_first _ (λ r. r.key == req.key) s.rows h.held e))
]

-- The end of a handler.
end_claim-IsExclusive :
    (id : ℕ) (f : KeyRow → KeyRow) (s : Service)
    → ((r : KeyRow) → (f r).id ≡ r.id)
    → IsExclusive s
    → includes id s.running ≡ true
    → IsExclusive (end_claim id f s)
end_claim-IsExclusive id f s same h running = record {
  single = λ i. omega (arith, h.single i, handlers-remove i id s.running running);
  held =
      All-update_where (IsHeld s.next_id s.now s.running)
        (IsHeld s.next_id s.now (remove id s.running)) (λ r. r.id == id) f s.rows
        (λ r hit old. (
          subst (λ k. k < s.next_id) (sym (same r)) old.0,
          λ inc. cc (
            gone,
            subst (λ k. includes k (remove id s.running) ≡ true) (same r ∙ (==_iff r.id id).0 hit)
                inc,
          ),
        ))
        (λ r miss old. (old.0, λ inc. old.1 (includes-remove r.id id s.running inc))) h.held;
  known = All-remove (λ i. i < s.next_id) id s.running h.known;
}
  where
    left : handlers id (remove id s.running) ≡ 0
    left = ground (arith, h.single id, handlers-remove id id s.running running)

    gone : includes id (remove id s.running) ≡ false
    gone = absent-handlers id (remove id s.running) left

Step-IsExclusive : {s t : Service} → Step s t → IsExclusive s → IsExclusive t
unfolding complete fail
Step-IsExclusive {s} (start req id s' run e) h =
    subst IsExclusive (sym e) (subst Started run (claim-Started req s h))
Step-IsExclusive {s} (answer id response running e) h =
    subst IsExclusive (sym e)
      (end_claim-IsExclusive id (complete_row response) s (λ r. refl) h running)
Step-IsExclusive {s} (break_off id running e) h =
    subst IsExclusive (sym e) (end_claim-IsExclusive id fail_row s (λ r. refl) h running)
Step-IsExclusive {s} (lose id running e) h =
    subst IsExclusive (sym e) (end_claim-IsExclusive id (λ r. r) s (λ r. refl) h running)
Step-IsExclusive {s} (wait ms prompt e) h =
    subst IsExclusive (sym e)
      (record { single = h.single; held = later s.rows h.held prompt; known = h.known })
  where
    later :
        (rows : List KeyRow)
        → All (IsHeld s.next_id s.now s.running) rows
        → All (λ r. includes r.id s.running ≡ true → s.now + ms ≤ r.locked_at + stale_lock_ms) rows
        → All (IsHeld s.next_id (s.now + ms) s.running) rows
    later [] a b = tt
    later (r ∷ rows) a b = ((a.0.0, λ inc. ((a.0.1 inc).0, b.0 inc)), later rows a.1 b.1)

-- As long as no handler runs for more than five minutes and no claim comes between the read and the
-- write of another, in every order of claims, answers, failures, lost handlers and waiting that starts where no
-- handler runs twice and every running claim is locked: a key's row has at most one handler at a
-- time, and a row whose handler runs is in progress.
pub Reach-IsExclusive : {s t : Service} → IsExclusive s → Reach s t → IsExclusive t
Reach-IsExclusive h here = h
Reach-IsExclusive h (next r st) = Step-IsExclusive st (Reach-IsExclusive h r)
