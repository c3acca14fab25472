-- ===== src/Inventory/Mutate/Once.antt =====
-- apps/api/src/modules/inventory/inventory.service.ts: the attempts and the repetitions of `mutate`.
use pulso_crm.Prelude.{
  ℕ, ◌+◌, ◌≤◌, ◌≡◌, ◌≢◌, refl, sym, subst, ap, ◌∙◌, true, false, Option, none, some, List, [], ◌∷◌,
  ◌++◌, ◌==◌, ==_iff, ◌||◌, ltb, find_first, Result, ok, err, code, idempotency_key_reused, length,
  Bool-cases, Option-cases, inl, inr, eq_of_ok, arith,
}
use pulso_crm.Store.{Db}
use pulso_crm.Store.Action.{Action}
use pulso_crm.Inventory.Mutate.{
  Response, Operation, Rows, Call, find_operation, operation_of, record_operation, replay_or_run,
  run_once, attempts, mutate,
}

-- The rows after the commits of others, in their order.
unfoldable pub after_others : List (Rows → Rows) → Rows → Rows
after_others [] s = s
after_others (commit ∷ others) s = after_others others (commit s)

-- The operation that stands for an answered call.
abbrev pub Answers : Call → Response → Option Operation → Type 0
Answers call response none = ⊥
Answers call response (some o) = (o.fingerprint ≡ call.fingerprint) × (o.response ≡ response)

abbrev answer_of : Response → Rows → Result (Response × Db)
answer_of r t = ok (r, t.db)

abbrev pub IsValid : Call → Type 0
IsValid call = (8 ≤ call.trimmed_length) × (call.key_length ≤ 200)

attempts-eq :
    (call : Call) (fn : Action Response) (n : ℕ) (others : List (Rows → Rows)) (s : Rows)
    → n + length others ≤ 7
    → attempts call fn n others s ≡ run_once call fn (after_others others s)
unfolding attempts after_others
attempts-eq call fn n [] s h = refl
attempts-eq call fn n (commit ∷ others) s h =
    let rest = attempts-eq call fn (n + 1) others (commit s) (omega arith) in
    let early : ltb n 7 ≡ true = ground arith in rw early rest

attempts-ok :
    (call : Call) (fn : Action Response) (n : ℕ) (others : List (Rows → Rows)) (s : Rows)
    {a : Response × Rows}
    → attempts call fn n others s ≡ ok a
    → run_once call fn (after_others others s) ≡ ok a
unfolding attempts after_others
attempts-ok call fn n [] s run = run
attempts-ok call fn n (commit ∷ others) s run = elim (Bool-cases (ltb n 7)) [
  | inl early ↦ attempts-ok call fn (n + 1) others (commit s) (rw early at run)
  | inr late ↦ cc (rw late at run)
]

mutate-eq :
    (call : Call) (fn : Action Response) (others : List (Rows → Rows)) (s : Rows)
    → IsValid call
    → length others ≤ 7
    → mutate call fn others s ≡ run_once call fn (after_others others s)
unfolding mutate
mutate-eq call fn others s valid few =
    let fits : (ltb call.trimmed_length 8 || ltb 200 call.key_length) ≡ false =
      ground (arith, valid.0, valid.1) in
    rw fits (attempts-eq call fn 0 others s (omega (arith, few)))

pub mutate-ok :
    (call : Call) (fn : Action Response) (others : List (Rows → Rows)) (s : Rows)
    {a : Response × Rows}
    → mutate call fn others s ≡ ok a
    → IsValid call × (run_once call fn (after_others others s) ≡ ok a)
unfolding mutate
mutate-ok call fn others s run =
    elim (Bool-cases (ltb call.trimmed_length 8 || ltb 200 call.key_length)) [
      | inl bad ↦ cc (rw bad at run)
      | inr fits ↦ (ground (arith, fits), attempts-ok call fn 0 others s (rw fits at run))
    ]

find_operation-append :
    (call : Call) (r : Response) (rows : List Operation)
    → find_first (λ o. o.key == call.key) rows ≡ none
    → find_first (λ o. o.key == call.key) (rows ++ operation_of call r ∷ [])
      ≡ some (operation_of call r)
find_operation-append call r [] e = rw ((==_iff call.key call.key).1 refl) refl
find_operation-append call r (o ∷ rows) e = elim (Bool-cases (o.key == call.key)) [
  | inl hit ↦ cc (rw hit at e)
  | inr miss ↦ rw miss (find_operation-append call r rows (rw miss at e))
]

record_operation-Answers :
    (call : Call) (o : Result (Response × Db)) (s : Rows) {r : Response} {t : Rows}
    → find_operation call.key s ≡ none
    → record_operation call o s ≡ ok (r, t)
    → Answers call r (find_operation call.key t) × (o ≡ ok (r, t.db))
unfolding record_operation
record_operation-Answers call (err e) s absent run = cc run
record_operation-Answers call (ok (r', db)) s {r} {t} absent run =
    let same = ap (λ a. a.0) (eq_of_ok run) in
    let rows = ap (λ a. a.1) (eq_of_ok run) in
    subst (λ u. Answers call r (find_operation call.key u) × (ok (r', db) ≡ answer_of r u)) rows
      (rw (find_operation-append call r' s.operations absent) ((refl, same), rw same refl))

-- What a call that is not aborted leaves.
pub run_once-Answers :
    (call : Call) (fn : Action Response) (s : Rows) {r : Response} {t : Rows}
    → run_once call fn s ≡ ok (r, t)
    → Answers call r (find_operation call.key t)
      × (find_operation call.key s ≡ none → fn s.db ≡ ok (r, t.db))
      × (find_operation call.key s ≢ none → t ≡ s)
unfolding run_once replay_or_run
run_once-Answers call fn s {r} {t} run = elim (Option-cases (find_operation call.key s)) [
  | inl absent ↦
      let both = record_operation-Answers call (fn s.db) s absent (rw absent at run) in
      (both.0, λ _. both.1, λ found. absurd (found absent))
  | inr (previous, found) ↦ elim (Bool-cases (previous.fingerprint == call.fingerprint)) [
    | inl same ↦
        let answer = eq_of_ok (rw same at rw found at run) in
        (
          subst (λ u. Answers call r (find_operation call.key u)) (ap (λ a. a.1) answer)
              (rw found ((==_iff _ _).0 same, ap (λ a. a.0) answer)),
          λ absent. cc (found, absent),
          λ _. sym (ap (λ a. a.1) answer),
        )
    | inr other ↦ cc (rw other at rw found at run)
  ]
]

run_once-replay :
    (call : Call) (fn : Action Response) (o : Option Operation) (s : Rows) {r : Response}
    → Answers call r o
    → (replay_or_run call fn o s ≡ ok (r, s))
      × ((other : ℕ)
          → other ≢ call.fingerprint
          → replay_or_run (record call { fingerprint = other }) fn o s
            ≡ err (code idempotency_key_reused))
unfolding replay_or_run
run_once-replay call fn none s h = absurd h
run_once-replay call fn (some o) s h = (
  rw ((==_iff o.fingerprint call.fingerprint).1 h.0) (ap (λ r. ok (r, s)) h.1),
  λ other apart. elim (Bool-cases (o.fingerprint == other)) [
    | inl same ↦ absurd (apart (sym ((==_iff _ _).0 same) ∙ h.0))
    | inr differs ↦ rw differs refl
  ],
)

-- A call that has been answered, after at most seven attempts that others' commits have aborted, has
-- run its work once, on the rows that they have left, if its key was new there, and has changed
-- nothing otherwise. While its operation stands, the same call gives the same answer and changes
-- nothing, whatever its work, and the same key with another fingerprint is refused.
pub mutate_twice :
    (call : Call) (fn fn' : Action Response) (others others' : List (Rows → Rows)) (s u : Rows)
    {r : Response} {t : Rows}
    → mutate call fn others s ≡ ok (r, t)
    → length others' ≤ 7
    → find_operation call.key (after_others others' u) ≡ find_operation call.key t
    → (find_operation call.key (after_others others s) ≡ none
        → fn (after_others others s).db ≡ ok (r, t.db))
      × (find_operation call.key (after_others others s) ≢ none → t ≡ after_others others s)
      × (mutate call fn' others' u ≡ ok (r, after_others others' u))
      × ((other : ℕ)
          → other ≢ call.fingerprint
          → mutate (record call { fingerprint = other }) fn' others' u
            ≡ err (code idempotency_key_reused))
unfolding run_once
mutate_twice call fn fn' others others' s u {r} run few stands =
    let first = mutate-ok call fn others s run in
    let done = run_once-Answers call fn (after_others others s) first.1 in
    let again =
      run_once-replay call fn' (find_operation call.key (after_others others' u))
        (after_others others' u) (subst (Answers call r) (sym stands) done.0) in
    (
      done.1,
      done.2,
      mutate-eq call fn' others' u first.0 few ∙ again.0,
      λ other apart.
          mutate-eq (record call { fingerprint = other }) fn' others' u first.0 few
          ∙ again.1 other apart,
    )
