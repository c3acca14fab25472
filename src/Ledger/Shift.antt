-- ===== src/Ledger/Shift.antt =====
-- apps/api/src/modules/members/ledger.ts: how far a transaction moves a member's account.
use pulso_crm.Prelude.{
  ℕ, ◌≡◌, ◌==◌, ==_iff, List, [], ◌∷◌, ◌++◌, if◌then◌else◌, arith, refl, subst, ap, ◌∙◌, Result, ok,
  err, Bool-cases, Option-cases, inl, inr,
}
use pulso_crm.Prelude.Int.{ℤ, pos, ◌+ℤ◌, leb_ℤ, int_laws}
use pulso_crm.Store.{Db, LedgerEntry}
use pulso_crm.Store.Action.{Action, pure, gets, require, modify, throw_when, ◌>>=◌, fresh}
use pulso_crm.Store.Action.Run.{
  After, After-bind, After-pure, After-gets, After-require, After-throw_when, After-modify,
  After-fresh,
}
use pulso_crm.Store.Action.Frame.{Steps, steps, IsFrame}
use pulso_crm.Ledger.{Posting, delta, entry_of, find_member, post_ledger_entry}
use pulso_crm.Ledger.Consistent.{IsConsistent, ledger_sum, append_own, append_other, posted-Agrees}

-- A run keeps every cache right.
abbrev pub KeepsCaches : Db → Db → Type 0
KeepsCaches db db' = IsConsistent db → IsConsistent db'

instance abbrev pub KeepsCaches-IsFrame : IsFrame KeepsCaches
KeepsCaches-IsFrame = record {
  reflexive = λ db h. h;
  transitive = λ a b c p q h. q (p h);
  ids = λ db n h. h;
  log = λ db events h. h;
}

pub post_ledger_entry-KeepsCaches : (p : Posting) → Steps KeepsCaches (post_ledger_entry p)
unfolding post_ledger_entry ◌>>=◌ pure gets require modify throw_when fresh
post_ledger_entry-KeepsCaches p = steps λ db. elim (Bool-cases (leb_ℤ p.amount (pos 0))) [
  | inl bad ↦ rw bad tt
  | inr good ↦ elim (Option-cases (find_member p.member_id db)) [
    | inl missing ↦ rw (good, missing) tt
    | inr (m, found) ↦ rw (good, found) (λ h. posted-Agrees db p db.next_id m h found)
  ]
]

-- A run that succeeds moves the ledger's sum of member `id` by `d`.
pub data Shifts {ℓ} (id : ℕ) (d : ℤ) {A : Type ℓ} (m : Action A) : Type ℓ where
  shifts :
      ((db : Db)
        → After (λ a db'. ledger_sum id db'.entries ≡ ledger_sum id db.entries +ℤ d) (m db))
      → Shifts id d m

-- A run that leaves the entries alone.
abbrev pub SameEntries : Db → Db → Type 0
SameEntries db db' = db'.entries ≡ db.entries

instance abbrev pub SameEntries-IsFrame : IsFrame SameEntries
SameEntries-IsFrame = record {
  reflexive = λ db. refl;
  transitive = λ a b c p q. q ∙ p;
  ids = λ db n. refl;
  log = λ db events. refl;
}

module _ (id : ℕ) where
  pub Shifts-bind {ℓ κ} :
      (d e : ℤ) {A : Type ℓ} {B : Type κ} {m : Action A} {f : A → Action B}
      → Shifts id d m
      → ((a : A) → Shifts id e (f a))
      → Shifts id (d +ℤ e) (m >>= f)
  Shifts-bind d e {B = B} {m} {f} (shifts h) k = shifts λ db.
      After-bind (λ a db'. ledger_sum id db'.entries ≡ ledger_sum id db.entries +ℤ d)
        (λ b db'. ledger_sum id db'.entries ≡ ledger_sum id db.entries +ℤ (d +ℤ e)) m f db (h db)
        (λ a db' p. go db db' p (f a) (k a))
    where
      add :
          (db db' : Db)
          → ledger_sum id db'.entries ≡ ledger_sum id db.entries +ℤ d
          → (r : Result (B × Db))
          → After (λ b u. ledger_sum id u.entries ≡ ledger_sum id db'.entries +ℤ e) r
          → After (λ b u. ledger_sum id u.entries ≡ ledger_sum id db.entries +ℤ (d +ℤ e)) r
      add db db' p (ok (b, u)) q = q ∙ rw p (omega int_laws)
      add db db' p (err x) q = tt

      go :
          (db db' : Db)
          → ledger_sum id db'.entries ≡ ledger_sum id db.entries +ℤ d
          → (n : Action B) → Shifts id e n
          → After (λ b u. ledger_sum id u.entries ≡ ledger_sum id db.entries +ℤ (d +ℤ e)) (n db')
      go db db' p n (shifts q) = add db db' p (n db') (q db')

  pub Shifts-of_same {ℓ} : {A : Type ℓ} {m : Action A} → Steps SameEntries m → Shifts id (pos 0) m
  Shifts-of_same {A} {m} (steps h) = shifts λ db. go db (m db) (h db)
    where
      go :
          (db : Db) (r : Result (A × Db))
          → After (λ a u. SameEntries db u) r
          → After (λ a u. ledger_sum id u.entries ≡ ledger_sum id db.entries +ℤ pos 0) r
      go db (ok (a, u)) p = ap (ledger_sum id) p ∙ omega int_laws
      go db (err x) p = tt

-- A posting moves its own member by the signed amount, and no other.
pub post_ledger_entry-Shifts :
    (p : Posting) → Shifts p.member_id (delta p.type p.amount) (post_ledger_entry p)
unfolding post_ledger_entry ◌>>=◌ pure gets require modify throw_when fresh
post_ledger_entry-Shifts p = shifts λ db. elim (Bool-cases (leb_ℤ p.amount (pos 0))) [
  | inl bad ↦ rw bad tt
  | inr good ↦ elim (Option-cases (find_member p.member_id db)) [
    | inl missing ↦ rw (good, missing) tt
    | inr (m, found) ↦ rw (good, found) (append_own p.member_id db.entries _ refl)
  ]
]

-- What one posting adds to the account of member `id`.
abbrev pub part : ℕ → Posting → ℤ
part id p = if p.member_id == id then delta p.type p.amount else pos 0

-- A posting that has been made: every member's account moves by its part, and only the members and
-- the entries have changed.
pub record IsPosted (p : Posting) (db db' : Db) : Type 0 where
  pub sums : (id : ℕ) → ledger_sum id db'.entries ≡ ledger_sum id db.entries +ℤ part id p
  pub movements : db'.movements ≡ db.movements
  pub sessions : db'.sessions ≡ db.sessions
  pub memberships : db'.memberships ≡ db.memberships

posted_sums :
    (id next : ℕ) (b : ℤ) (p : Posting) (es : List LedgerEntry)
    → ledger_sum id (es ++ entry_of next b p ∷ []) ≡ ledger_sum id es +ℤ part id p
posted_sums id next b p es = elim (Bool-cases (p.member_id == id)) [
  | inl h ↦ append_own id es (entry_of next b p) ((==_iff _ _).0 h) ∙ rw h
  | inr h ↦ append_other id es (entry_of next b p) (ground arith) ∙ rw h (omega int_laws)
]

pub post_ledger_entry-IsPosted :
    (p : Posting) (db : Db) → After (λ e db'. IsPosted p db db') (post_ledger_entry p db)
unfolding post_ledger_entry
post_ledger_entry-IsPosted p db = After-throw_when _ _ _ _ db λ positive. After-gets _ _ _ db (
    After-require _ _ _ _ db λ m found. After-fresh _ _ db (
      After-modify _ _ _ _ (
        After-modify _ _ _ _ (
          After-pure _ _ _ (record {
            sums = λ id. posted_sums id db.next_id _ p db.entries;
            movements = refl;
            sessions = refl;
            memberships = refl;
          })))))

pub shift_eq :
    (id : ℕ) {d e : ℤ} {A : Type 0} {m : Action A} → d ≡ e → Shifts id d m → Shifts id e m
shift_eq id {m = m} h s = subst (λ x. Shifts id x m) h s

-- A step that leaves the entries alone, and the steps that follow.
pub same_then :
    (id : ℕ) {d : ℤ} {A B : Type 0} {m : Action A} {f : A → Action B}
    → Steps SameEntries m
    → ((a : A) → Shifts id d (f a))
    → Shifts id d (m >>= f)
same_then id {d = d} s k =
    shift_eq id (omega int_laws) (Shifts-bind id (pos 0) d (Shifts-of_same id s) k)
