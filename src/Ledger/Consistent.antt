-- ===== src/Ledger/Consistent.antt =====
-- apps/api/src/modules/members/ledger.ts: `Member.balance` and the sum of the member's ledger entries.
use pulso_crm.Prelude.{
  ℕ, ◌≡◌, refl, ap, ◌∙◌, sym, subst, ◌≢◌, false, some, List, [], ◌∷◌, ◌++◌, ◌==◌, ==_iff,
  if◌then◌else◌, ◌⊎◌, All, All-Unit, find_first-fits, All-find_first, All-update_where,
  update_where, arith, Bool-cases, Option-cases, inl, inr,
}
use pulso_crm.Prelude.Int.{ℤ, pos, ◌+ℤ◌, ◌-ℤ◌, leb_ℤ, int_laws}
use pulso_crm.Store.{Member, LedgerEntry, LedgerEntryKind, debit, credit, Db}
use pulso_crm.Store.Action.{pure, gets, require, modify, throw_when, ◌>>=◌, fresh}
use pulso_crm.Store.Action.Run.{After}
use pulso_crm.Ledger.{
  Posting, delta, find_member, set_balance, entry_of, append_entry, post_ledger_entry, counts_for,
  sum_amounts, occurs, group_row, add_rows, recomputed_balance, recalculate_member_balance,
}

-- What the ledger says of a member: credits count up, debits down.
unfoldable pub ledger_sum : ℕ → List LedgerEntry → ℤ
ledger_sum id [] = pos 0
ledger_sum id (e ∷ es) =
    if e.member_id == id then delta e.type e.amount +ℤ ledger_sum id es else ledger_sum id es

pub ledger_sum-append :
    (id : ℕ) (es : List LedgerEntry) (e : LedgerEntry)
    → ledger_sum id (es ++ e ∷ [])
      ≡ (if e.member_id == id then ledger_sum id es +ℤ delta e.type e.amount else ledger_sum id es)
unfolding ledger_sum
ledger_sum-append id [] e = elim (Bool-cases (e.member_id == id)) [
  | inl h ↦ rw h (omega int_laws)
  | inr h ↦ rw h
]
ledger_sum-append id (x ∷ es) e = elim (Bool-cases (e.member_id == id)) [
  | inl h ↦ elim (Bool-cases (x.member_id == id)) [
    | inl k ↦ rw k (rw (ledger_sum-append id es e) (rw h (omega int_laws)))
    | inr k ↦ rw k (rw (ledger_sum-append id es e) (rw h))
  ]
  | inr h ↦ elim (Bool-cases (x.member_id == id)) [
    | inl k ↦ rw k (rw (ledger_sum-append id es e) (rw h))
    | inr k ↦ rw k (rw (ledger_sum-append id es e) (rw h))
  ]
]

abbrev pub Agrees : List LedgerEntry → Member → Type 0
Agrees es m = m.balance ≡ ledger_sum m.id es

-- Every cached balance is the sum of the entries.
abbrev pub IsConsistent : Db → Type 0
IsConsistent db = All (Agrees db.entries) db.members

-- The state after a posting, once its checks have passed.
abbrev pub posted : ℕ → Posting → ℤ → Db → Db
posted id p b db =
    set_balance p.member_id b (append_entry (entry_of id b p) (record db { next_id = id }))

pub append_own :
    (id : ℕ) (es : List LedgerEntry) (e : LedgerEntry)
    → e.member_id ≡ id
    → ledger_sum id (es ++ e ∷ []) ≡ ledger_sum id es +ℤ delta e.type e.amount
append_own id es e h = ledger_sum-append id es e ∙ rw ((==_iff _ _).1 h)

pub append_other :
    (id : ℕ) (es : List LedgerEntry) (e : LedgerEntry)
    → e.member_id ≢ id
    → ledger_sum id (es ++ e ∷ []) ≡ ledger_sum id es
append_other id es e h = ledger_sum-append id es e ∙ ground arith

pub posted-Agrees :
    (db : Db) (p : Posting) (id : ℕ) (m : Member)
    → IsConsistent db
    → find_member p.member_id db ≡ some m
    → let b = m.balance +ℤ delta p.type p.amount in
      All
        (Agrees (db.entries ++ entry_of id b p ∷ []))
        (update_where (λ r. r.id == p.member_id) (λ r. record r { balance = b }) db.members)
posted-Agrees db p id m h found =
    let b = m.balance +ℤ delta p.type p.amount in
    let e = entry_of id b p in
    let own : m.id ≡ p.member_id =
      (==_iff _ _).0 (find_first-fits (λ r. r.id == p.member_id) db.members found) in
    let old : m.balance ≡ ledger_sum p.member_id db.entries =
      subst (λ i. m.balance ≡ ledger_sum i db.entries) own
        (All-find_first (Agrees db.entries) (λ r. r.id == p.member_id) db.members h found) in
    let new : b ≡ ledger_sum p.member_id (db.entries ++ e ∷ []) =
      ap (λ x. x +ℤ delta p.type p.amount) old ∙ sym (append_own p.member_id db.entries e refl) in
    All-update_where (Agrees db.entries) (Agrees (db.entries ++ e ∷ [])) (λ r. r.id == p.member_id)
      (λ r. record r { balance = b }) db.members
      (λ r k a. subst (λ i. b ≡ ledger_sum i (db.entries ++ e ∷ [])) (sym ((==_iff _ _).0 k)) new)
      (λ r k a. a ∙ sym (append_other r.id db.entries e (ground arith))) h

-- If every cached balance is the sum of its member's entries, it still is after a posting that
-- succeeds; the entries are then the old ones and the one that the posting returns.
pub post_ledger_entry-After :
    (p : Posting) (db : Db)
    → IsConsistent db
    → After
        (λ e db'. IsConsistent db' × (db'.entries ≡ db.entries ++ e ∷ []))
        (post_ledger_entry p db)
unfolding post_ledger_entry ◌>>=◌ pure gets require modify throw_when fresh
post_ledger_entry-After p db h = elim (Bool-cases (leb_ℤ p.amount (pos 0))) [
  | inl bad ↦ rw bad tt
  | inr good ↦ elim (Option-cases (find_member p.member_id db)) [
    | inl missing ↦ rw (good, missing) tt
    | inr (m, found) ↦ rw (good, found) (posted-Agrees db p db.next_id m h found, refl)
  ]
]

-- Rows that no posting of the type touches sum to nothing.
sum_amounts-none :
    (kind : LedgerEntryKind) (id : ℕ) (es : List LedgerEntry)
    → occurs kind id es ≡ false
    → sum_amounts kind id es ≡ pos 0
unfolding occurs sum_amounts
sum_amounts-none kind id [] h = refl
sum_amounts-none kind id (e ∷ es) h = elim (Bool-cases (counts_for kind id e)) [
  | inl k ↦ cc (rw k at h)
  | inr k ↦ rw k (sum_amounts-none kind id es (rw k at h))
]

pub kind-cases : (t : LedgerEntryKind) → (t ≡ debit) ⊎ (t ≡ credit)
kind-cases debit = inl refl
kind-cases credit = inr refl

ledger_sum-split :
    (id : ℕ) (es : List LedgerEntry)
    → ledger_sum id es ≡ sum_amounts credit id es -ℤ sum_amounts debit id es
unfolding ledger_sum sum_amounts
ledger_sum-split id [] = omega int_laws
ledger_sum-split id (e ∷ es) = elim (Bool-cases (e.member_id == id)) [
  | inr k ↦ rw k (ledger_sum-split id es)
  | inl k ↦ elim (kind-cases e.type) [
    | inl t ↦ rw (k, t) (rw (ledger_sum-split id es) (omega int_laws))
    | inr t ↦ rw (k, t) (rw (ledger_sum-split id es) (omega int_laws))
  ]
]

-- The loop over the grouped rows computes the difference, with the rows that are missing.
recomputed_balance-eq :
    (id : ℕ) (es : List LedgerEntry) → recomputed_balance id es ≡ ledger_sum id es
unfolding recomputed_balance group_row add_rows
recomputed_balance-eq id es =
    let none_debit = sum_amounts-none debit id es in
    let none_credit = sum_amounts-none credit id es in
    rw (ledger_sum-split id es) (elim (Bool-cases (occurs debit id es)) [
      | inl d ↦ elim (Bool-cases (occurs credit id es)) [
        | inl c ↦ rw (d, c) (omega int_laws)
        | inr c ↦ rw (d, c) (rw (none_credit c) (omega int_laws))
      ]
      | inr d ↦ elim (Bool-cases (occurs credit id es)) [
        | inl c ↦ rw (d, c) (rw (none_debit d) (omega int_laws))
        | inr c ↦ rw (d, c) (rw (none_debit d) (rw (none_credit c) (omega int_laws)))
      ]
    ])

-- What a recalculation leaves: the member's caches are right whatever they were, and no other row
-- has changed.
pub record IsRepaired (id : ℕ) (db db' : Db) (b : ℤ) : Type 0 where
  pub value : b ≡ ledger_sum id db.entries
  pub own : All (λ m. m.id ≡ id → Agrees db'.entries m) db'.members
  pub rows : db' ≡ set_balance id b db

-- A recalculation that succeeds returns the sum of the member's entries and makes it the member's
-- cached balance, whatever that was before; nothing else changes.
pub recalculate_member_balance-IsRepaired :
    (id : ℕ) (db : Db) → After (λ b db'. IsRepaired id db db' b) (recalculate_member_balance id db)
unfolding recalculate_member_balance ◌>>=◌ pure gets require modify
recalculate_member_balance-IsRepaired id db = elim (Option-cases (find_member id db)) [
  | inl missing ↦ rw missing tt
  | inr (m, found) ↦ rw found (record {
    value = recomputed_balance-eq id db.entries;
    own =
        All-update_where (λ r. Unit {0}) (λ r. r.id ≡ id → Agrees db.entries r) (λ r. r.id == id)
          (λ r. record r { balance = recomputed_balance id db.entries }) db.members
          (λ r k u same.
            recomputed_balance-eq id db.entries ∙ ap (λ i. ledger_sum i db.entries) (sym same))
          (λ r k u same. cc (sym k ∙ (==_iff _ _).1 same)) (All-Unit db.members);
    rows = refl;
  })
]
