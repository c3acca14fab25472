-- ===== src/Payment/Quote.antt =====
-- apps/api/src/modules/members/member-payment.service.ts: the lines of a quote and the debt.
use pulso_crm.Prelude.{
  ℕ, ◌≡◌, refl, ap, ◌∙◌, sym, Bool, true, false, List, [], ◌∷◌, if◌then◌else◌, Bool-cases, inl, inr,
  arith,
}
use pulso_crm.Prelude.Int.{
  ℤ, pos, negsuc, pos_part, neg_part, ◌+ℤ◌, ◌-ℤ◌, neg, ◌≤ℤ◌, ltb_ℤ, leb_ℤ, int_laws,
}
use pulso_crm.Store.{LedgerEntry, LedgerEntryKind, debit, credit, PaymentCode}
use pulso_crm.Ledger.Consistent.{kind-cases}
use pulso_crm.Payment.{
  balance_of, Group, same_id, add_amount, add_entry, group_entries, credit_of, quote_lines,
  sum_lines, apply_entry, debt_of, quote_of,
}

-- The sum of the groups.
sum_groups : List Group → ℤ
sum_groups [] = pos 0
sum_groups (g ∷ groups) = g.amount +ℤ sum_groups groups

add_amount-eq : (t : LedgerEntryKind) (a b c : ℤ) → add_amount t (a +ℤ b) c ≡ add_amount t a c +ℤ b
add_amount-eq debit a b c = omega int_laws
add_amount-eq credit a b c = omega int_laws

add_amount-neg : (t : LedgerEntryKind) (b a : ℤ) → add_amount t (neg b) a ≡ neg (apply_entry t b a)
add_amount-neg debit b a = omega int_laws
add_amount-neg credit b a = omega int_laws

sum_groups-add :
    (e : LedgerEntry) (groups : List Group)
    → sum_groups (add_entry e groups) ≡ add_amount e.type (sum_groups groups) e.amount
unfolding sum_groups add_entry ◌+ℤ◌
sum_groups-add e [] = sym (add_amount-eq e.type (pos 0) (pos 0) e.amount)
sum_groups-add e (g ∷ groups) = elim (Bool-cases (same_id g.key e.membership_id)) [
  | inl h ↦ rw h (sym (add_amount-eq e.type g.amount (sum_groups groups) e.amount))
  | inr h ↦ rw h (elim (kind-cases e.type) [
    | inl t ↦ rw (sum_groups-add e groups) (rw t (omega int_laws))
    | inr t ↦ rw (sum_groups-add e groups) (rw t (omega int_laws))
  ])
]

-- The groups hold what is owed: the balance, with the sign turned.
sum_groups-balance :
    (es : List LedgerEntry) (groups : List Group) (b : ℤ)
    → sum_groups groups ≡ neg b
    → sum_groups (group_entries groups es) ≡ neg (balance_of b es)
unfolding group_entries balance_of
sum_groups-balance [] groups b h = h
sum_groups-balance (e ∷ es) groups b h =
    sum_groups-balance es (add_entry e groups) (apply_entry e.type b e.amount)
      (sum_groups-add e groups ∙ rw h (add_amount-neg e.type b e.amount))

is_zero : (a : ℤ) → leb_ℤ a (pos 0) ≡ true → ltb_ℤ a (pos 0) ≡ false → a ≡ pos 0
is_zero (pos n) h k = let e : n ≡ 0 = ground arith in ap pos e
is_zero (negsuc n) h k = ground arith

-- What the groups owe, without those in credit.
pub owed : List Group → ℤ
owed [] = pos 0
owed (g ∷ groups) = if leb_ℤ g.amount (pos 0) then owed groups else g.amount +ℤ owed groups

owed-credit : (groups : List Group) → sum_groups groups ≡ owed groups -ℤ credit_of groups
unfolding sum_groups owed credit_of
owed-credit [] = omega int_laws
owed-credit (g ∷ groups) = elim (Bool-cases (ltb_ℤ g.amount (pos 0))) [
  | inl low ↦
      let e : leb_ℤ g.amount (pos 0) ≡ true = ground arith in
      rw (low, e) (rw (owed-credit groups) (omega int_laws))
  | inr high ↦ rw high (elim (Bool-cases (leb_ℤ g.amount (pos 0))) [
    | inl none_left ↦
        rw none_left (rw (is_zero g.amount none_left high, owed-credit groups) (omega int_laws))
    | inr some_left ↦ rw some_left (rw (owed-credit groups) (omega int_laws))
  ])
]

owed-positive : (groups : List Group) → pos 0 ≤ℤ owed groups
unfolding owed
owed-positive [] = omega arith
owed-positive (g ∷ groups) =
    let rest = owed-positive groups in
    elim (Bool-cases (leb_ℤ g.amount (pos 0))) [
      | inl none_left ↦ rw none_left rest
      | inr some_left ↦
          rw some_left (let strict : pos 0 ≤ℤ g.amount = ground arith in omega int_laws)
    ]

leb_ℤ-true : (a b : ℤ) → a ≤ℤ b → leb_ℤ a b ≡ true
leb_ℤ-true a b h = ground arith

self_minus : (a : ℤ) → a -ℤ a ≡ pos 0
self_minus a = omega int_laws

-- What is left of the credit once the groups have used it.
pub sum_lines-owed :
    (method : PaymentCode) (paid : ℕ → Bool) (left : ℤ) (groups : List Group)
    → pos 0 ≤ℤ left
    → left ≤ℤ owed groups
    → sum_lines (quote_lines method paid left groups) ≡ owed groups -ℤ left
unfolding sum_lines quote_lines owed
sum_lines-owed method paid left [] low high = omega int_laws
sum_lines-owed method paid left (g ∷ groups) low high = elim (Bool-cases (leb_ℤ g.amount (pos 0))) [
  | inl skip ↦ rw skip (sum_lines-owed method paid left groups low (rw skip at high))
  | inr due ↦ rw due (elim (Bool-cases (leb_ℤ left g.amount)) [
    | inl enough ↦ rw enough (elim (Bool-cases (leb_ℤ (g.amount -ℤ left) (pos 0))) [
      | inl covered ↦
          let none_left : pos 0 ≤ℤ left -ℤ left = omega int_laws in
          let small : left -ℤ left ≤ℤ owed groups =
            (let p = owed-positive groups in omega int_laws) in
          let equal : g.amount -ℤ left ≤ℤ pos 0 = ground arith in
          let bound : left ≤ℤ g.amount = ground arith in
          rw covered
            (rw (sum_lines-owed method paid (left -ℤ left) groups none_left small) (omega int_laws))
      | inr open_amount ↦
          let none_left : pos 0 ≤ℤ left -ℤ left = omega int_laws in
          let small : left -ℤ left ≤ℤ owed groups =
            (let p = owed-positive groups in omega int_laws) in
          rw open_amount
            (rw (sum_lines-owed method paid (left -ℤ left) groups none_left small) (omega int_laws))
    ])
    | inr short ↦
        let covered : leb_ℤ (g.amount -ℤ g.amount) (pos 0) ≡ true =
          (let e = self_minus g.amount in rw e refl) in
        let above : g.amount ≤ℤ left = ground arith in
        let sum : left ≤ℤ g.amount +ℤ owed groups = rw due at high in
        let still : pos 0 ≤ℤ left -ℤ g.amount = omega int_laws in
        let small : left -ℤ g.amount ≤ℤ owed groups = omega int_laws in
        rw short (
          rw covered (
            rw (sum_lines-owed method paid (left -ℤ g.amount) groups still small) (omega int_laws)))
  ])
]

credit_of-positive : (groups : List Group) → pos 0 ≤ℤ credit_of groups
unfolding credit_of
credit_of-positive [] = omega arith
credit_of-positive (g ∷ groups) =
    let rest = credit_of-positive groups in
    elim (Bool-cases (ltb_ℤ g.amount (pos 0))) [
      | inl low ↦ rw low (let strict : g.amount ≤ℤ pos 0 = ground arith in omega int_laws)
      | inr high ↦ rw high rest
    ]

not_owing : (b : ℤ) → leb_ℤ (pos 0) b ≡ true → leb_ℤ (neg b) (pos 0) ≡ true
not_owing b h =
    let le : pos 0 ≤ℤ b = ground arith in
    let goal : neg b ≤ℤ pos 0 = omega int_laws in leb_ℤ-true (neg b) (pos 0) goal

is_owing : (b : ℤ) → leb_ℤ (pos 0) b ≡ false → leb_ℤ (neg b) (pos 0) ≡ false
is_owing b h = elim (Bool-cases (leb_ℤ (neg b) (pos 0))) [
  | inr k ↦ k
  | inl k ↦
      let le : neg b ≤ℤ pos 0 = ground arith in
      let back : pos 0 ≤ℤ b = omega int_laws in cc (sym h ∙ leb_ℤ-true (pos 0) b back)
]

below : (a c b : ℤ) → a -ℤ c ≡ neg b → leb_ℤ (pos 0) b ≡ false → c ≤ℤ a
below a c b e h =
    let strict : b ≤ℤ pos 0 = ground arith in omega (ap pos_part e, ap neg_part e, int_laws)

sum_nothing : sum_groups [] ≡ neg (pos 0)
unfolding sum_groups
sum_nothing = omega int_laws

-- The lines of a quote add up to the debt: what the ledger says the member owes, or nothing.
pub quote_of-sum :
    (method : PaymentCode) (paid : ℕ → Bool) (es : List LedgerEntry)
    → sum_lines (quote_of method paid es).lines ≡ (quote_of method paid es).debt
unfolding quote_of sum_lines
quote_of-sum method paid es =
    let b = balance_of (pos 0) es in
    let groups = group_entries [] es in
    elim (Bool-cases (leb_ℤ (pos 0) b)) [
      | inl fine ↦ let e : leb_ℤ (neg b) (pos 0) ≡ true = not_owing b fine in rw fine (rw e refl)
      | inr owing ↦
          let e : leb_ℤ (neg b) (pos 0) ≡ false = is_owing b owing in
          let all : owed groups -ℤ credit_of groups ≡ neg b =
            sym (owed-credit groups) ∙ sum_groups-balance es [] (pos 0) sum_nothing in
          let low = credit_of-positive groups in
          let high : credit_of groups ≤ℤ owed groups =
            below (owed groups) (credit_of groups) b all owing in
          rw owing (rw e (sum_lines-owed method paid (credit_of groups) groups low high ∙ all))
    ]

pub quote_of-debt :
    (method : PaymentCode) (paid : ℕ → Bool) (es : List LedgerEntry)
    → (quote_of method paid es).debt ≡ debt_of (balance_of (pos 0) es)
unfolding quote_of
quote_of-debt method paid es = refl
