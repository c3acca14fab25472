-- ===== src/Payment/Pay/Settled.antt =====
-- apps/api/src/modules/members/member-payment.service.ts: the lines of `pay` and the account.
use pulso_crm.Prelude.{
  ℕ, ◌≡◌, Bool, false, not, Option, none, some, List, [], ◌∷◌, ◌&&◌, All, Bool-cases, inl, inr,
  arith,
}
use pulso_crm.Prelude.Int.{ℤ, pos, ◌+ℤ◌, ◌-ℤ◌, neg, ◌≤ℤ◌, ltb_ℤ, leb_ℤ, int_laws}
use pulso_crm.Store.{LedgerEntry, PaymentCode, CashSession}
use pulso_crm.Store.Action.Frame.{Steps-pure, Steps-record_audit}
use pulso_crm.Store.Context.{TenantContext}
use pulso_crm.Ledger.Shift.{
  Shifts, Shifts-bind, Shifts-of_same, shift_eq, post_ledger_entry-Shifts, SameEntries-IsFrame,
  KeepsCaches-IsFrame,
}
use pulso_crm.Cash.Accounts.{create_movement-same}
use pulso_crm.Payment.{
  Line, Group, credit_of, group_entries, quote_lines, quote_of, sum_lines, surcharge_of, min_ℤ,
  balance_of, is_transfer,
}
use pulso_crm.Payment.Pay.{fee_posting, post_fee, payment_posting, pay_lines}

-- Surcharges are not negative.
abbrev pub HasFees : List Line → Type 0
HasFees lines = All (λ l. pos 0 ≤ℤ l.surcharge) lines

surcharge_of-positive :
    (method : PaymentCode) (fee : Bool) (paid : ℕ → Bool) (key : Option ℕ)
    → pos 0 ≤ℤ surcharge_of method fee paid key
surcharge_of-positive method fee paid none = omega arith
surcharge_of-positive method fee paid (some id) =
    elim (Bool-cases (is_transfer method && (not fee && not (paid id)))) [
      | inl h ↦ rw h (omega arith)
      | inr h ↦ rw h (omega arith)
    ]

quote_lines-HasFees :
    (method : PaymentCode) (paid : ℕ → Bool) (left : ℤ) (groups : List Group)
    → HasFees (quote_lines method paid left groups)
unfolding quote_lines
quote_lines-HasFees method paid left [] = tt
quote_lines-HasFees method paid left (g ∷ groups) = elim (Bool-cases (leb_ℤ g.amount (pos 0))) [
  | inl skip ↦ rw skip (quote_lines-HasFees method paid left groups)
  | inr due ↦ rw due (elim (Bool-cases (leb_ℤ (g.amount -ℤ min_ℤ left g.amount) (pos 0))) [
    | inl covered ↦
        rw covered (quote_lines-HasFees method paid (left -ℤ min_ℤ left g.amount) groups)
    | inr open_amount ↦ rw open_amount (
      surcharge_of-positive method g.fee_applied paid g.key,
      quote_lines-HasFees method paid (left -ℤ min_ℤ left g.amount) groups,
    )
  ])
]

pub quote_of-HasFees :
    (method : PaymentCode) (paid : ℕ → Bool) (es : List LedgerEntry)
    → HasFees (quote_of method paid es).lines
unfolding quote_of
quote_of-HasFees method paid es = elim (Bool-cases (leb_ℤ (pos 0) (balance_of (pos 0) es))) [
  | inl fine ↦ rw fine tt
  | inr owing ↦
      rw owing
        (quote_lines-HasFees method paid (credit_of (group_entries [] es)) (group_entries [] es))
]

no_amount : (a : ℤ) → pos 0 ≤ℤ a → ltb_ℤ (pos 0) a ≡ false → pos 0 ≡ neg a
no_amount a h k = let small : a ≤ℤ pos 0 = ground arith in omega int_laws

-- A fee is a debit, or nothing where there is none.
post_fee-Shifts :
    (id branch_id : ℕ) (line : Line)
    → pos 0 ≤ℤ line.surcharge
    → Shifts id (neg line.surcharge) (post_fee id branch_id line)
unfolding post_fee
post_fee-Shifts id branch_id line h = elim (Bool-cases (ltb_ℤ (pos 0) line.surcharge)) [
  | inl some_fee ↦ rw some_fee (
      shift_eq id (omega int_laws) (
        Shifts-bind id (neg line.surcharge) (pos 0)
          (post_ledger_entry-Shifts (fee_posting id branch_id line))
          (λ entry. Shifts-of_same id (Steps-pure tt))))
  | inr no_fee ↦
      rw no_fee
        (shift_eq id (no_amount line.surcharge h no_fee) (Shifts-of_same id (Steps-pure tt)))
]

pub pay_lines-Shifts :
    (ctx : TenantContext) (id : ℕ) (session : CashSession) (concept_id payment_method_id : ℕ)
    (lines : List Line)
    → HasFees lines
    → Shifts id (sum_lines lines) (pay_lines ctx id session concept_id payment_method_id lines)
unfolding pay_lines sum_lines
pay_lines-Shifts ctx id session concept_id payment_method_id [] h =
    Shifts-of_same id (Steps-pure [])
pay_lines-Shifts ctx id session concept_id payment_method_id (line ∷ lines) h =
    let f = line.surcharge in
    let s = sum_lines lines in
    shift_eq id (omega int_laws) (
      Shifts-bind id (neg f) (pos 0 +ℤ ((line.amount +ℤ f) +ℤ (pos 0 +ℤ (s +ℤ pos 0))))
        (post_fee-Shifts id session.branch_id line h.0)
        λ u.
          Shifts-bind id (pos 0) ((line.amount +ℤ f) +ℤ (pos 0 +ℤ (s +ℤ pos 0)))
            (Shifts-of_same id (create_movement-same _))
            λ movement.
              Shifts-bind id (line.amount +ℤ f) (pos 0 +ℤ (s +ℤ pos 0))
                (post_ledger_entry-Shifts (payment_posting id session.branch_id movement.id line))
                λ entry.
                  Shifts-bind id (pos 0) (s +ℤ pos 0) (Shifts-of_same id (Steps-record_audit _ _ _))
                    λ u.
                      Shifts-bind id s (pos 0)
                        (pay_lines-Shifts ctx id session concept_id payment_method_id lines h.1)
                        λ rest. Shifts-of_same id (Steps-pure _))
