-- ===== src/Payment/Pay/Cleared.antt =====
-- apps/api/src/modules/members/member-payment.service.ts: `pay`, and the member's account after it.
use pulso_crm.Prelude.{
  ℕ, ◌≡◌, refl, ap, ◌∙◌, sym, subst, Bool, false, Option, none, some, List, [], ◌∷◌, ◌==◌,
  Bool-cases, inl, inr, ok,
}
use pulso_crm.Prelude.Int.{ℤ, pos, ◌+ℤ◌, neg, leb_ℤ, int_laws}
use pulso_crm.Store.{Db, LedgerEntry, LedgerEntryKind, debit, credit, PaymentCode}
use pulso_crm.Store.Action.{Action, pure}
use pulso_crm.Store.Action.Run.{
  After, After-ok, After-map, After-bind, After-gets, After-require, After-throw_when, After-pure,
}
use pulso_crm.Store.Action.Frame.{
  Steps-pure, Steps-gets, Steps-lift, Steps-require, Steps-throw_when, ◌▸◌,
}
use pulso_crm.Store.Context.{TenantContext}
use pulso_crm.Ledger.Consistent.{ledger_sum}
use pulso_crm.Ledger.Shift.{
  Shifts, shifts, Shifts-bind, Shifts-of_same, shift_eq, same_then, SameEntries-IsFrame,
}
use pulso_crm.Ledger.{delta}
use pulso_crm.Payment.{
  transferred, PaymentQuote, quote_of, sum_lines, entries_of, balance_of, apply_entry,
  choose_method, debt_of,
}
use pulso_crm.Cash.Accounts.{ensure_system_concept-same, require_open_session_for_user-same}
use pulso_crm.Payment.Quote.{quote_of-sum, quote_of-debt}
use pulso_crm.Payment.Pay.{build_quote, PayRequest, PayResponse, settle, pay}
use pulso_crm.Payment.Pay.Settled.{HasFees, quote_of-HasFees, pay_lines-Shifts}

settle-Shifts :
    (ctx : TenantContext) (id : ℕ) (input : PayRequest) (quote : PaymentQuote)
    → HasFees quote.lines
    → Shifts id (sum_lines quote.lines) (settle ctx id input quote)
unfolding settle
settle-Shifts ctx id input quote h =
    let total = sum_lines quote.lines in
    same_then id (Steps-throw_when _ _) λ u. same_then id (Steps-throw_when _ _) λ u.
      same_then id (require_open_session_for_user-same _ _) λ session.
        same_then id (Steps-lift _) λ branch_id. same_then id (Steps-gets _) λ row.
          same_then id (Steps-require row _) λ open_row.
            same_then id (ensure_system_concept-same _) λ concept_id. shift_eq id (omega int_laws) (
              Shifts-bind id total (pos 0)
                (pay_lines-Shifts ctx id session concept_id input.payment_method_id quote.lines h)
                λ movements.
                  Shifts-of_same id
                    (Steps-gets _ ▸ λ row. Steps-require row _ ▸ λ member. Steps-pure _))

-- The balance that a quote computes is what the ledger says of the member.
balance_of-sum :
    (id : ℕ) (es : List LedgerEntry) (b : ℤ)
    → balance_of b (entries_of id es) ≡ b +ℤ ledger_sum id es
unfolding balance_of ledger_sum
balance_of-sum id [] b = omega int_laws
balance_of-sum id (e ∷ es) b = elim (Bool-cases (e.member_id == id)) [
  | inr other ↦ rw other (balance_of-sum id es b)
  | inl own ↦ rw own (balance_of-sum id es (apply_entry e.type b e.amount) ∙ moved e.type e.amount)
]
  where
    moved :
        (t : LedgerEntryKind) (a : ℤ)
        → apply_entry t b a +ℤ ledger_sum id es ≡ b +ℤ (delta t a +ℤ ledger_sum id es)
    moved debit a = omega int_laws
    moved credit a = omega int_laws

choose_method-same : (method : Option ℕ) (db : Db) → After (λ c d. d ≡ db) (choose_method method db)
unfolding choose_method pure
choose_method-same none db = refl
choose_method-same (some id) db =
    let Q : PaymentCode → Db → Type 0 = λ c d. d ≡ db in
    After-gets Q _ _ db (
      After-require Q _ _ _ db
        λ method found. After-throw_when Q _ _ _ db λ accepted. After-pure Q method.code db refl)

-- A quote is one of the member's own entries.
abbrev IsQuote : ℕ → Db → PaymentQuote → Db → Type 0
IsQuote id db q d =
    (d ≡ db)
    × (method : PaymentCode) × (paid : ℕ → Bool) × (q
        ≡ quote_of method paid (entries_of id db.entries))

build_quote-IsQuote :
    (id : ℕ) (method : Option ℕ) (db : Db) → After (IsQuote id db) (build_quote id method db)
unfolding build_quote
build_quote-IsQuote id method db =
    let Q = IsQuote id db in
    After-gets Q _ _ db (
      After-require Q _ _ _ db λ member found.
        After-bind (λ c d. d ≡ db) Q _ _ db (choose_method-same method db)
          λ code d same. After-gets Q _ _ d (
            After-throw_when Q _ _ _ d λ agrees. After-gets Q _ _ d (
              After-pure Q _ d (
                same,
                code,
                (λ membership. transferred id membership d.methods d.movements),
                ap
                    (λ x.
                      quote_of code (λ membership. transferred id membership d.methods d.movements)
                        (entries_of id x.entries))
                    same,
              ))))

Shifts-run :
    (id : ℕ) {d : ℤ} {A : Type 0} {m : Action A}
    → Shifts id d m
    → (db : Db) → After (λ a db'. ledger_sum id db'.entries ≡ ledger_sum id db.entries +ℤ d) (m db)
Shifts-run id (shifts h) db = h db

-- A debt that is charged is the whole of what the ledger says is owed.
debt_of-owed : (b : ℤ) → leb_ℤ (debt_of b) (pos 0) ≡ false → b +ℤ debt_of b ≡ pos 0
debt_of-owed b h = elim (Bool-cases (leb_ℤ (neg b) (pos 0))) [
  | inl none_owed ↦ cc (rw none_owed at h)
  | inr owed ↦ rw owed (omega int_laws)
]

settle-Cleared :
    (ctx : TenantContext) (id : ℕ) (input : PayRequest) (method : PaymentCode) (paid : ℕ → Bool)
    (db : Db)
    → After
        (λ r d. ledger_sum id d.entries ≡ pos 0)
        (settle ctx id input (quote_of method paid (entries_of id db.entries)) db)
unfolding settle
settle-Cleared ctx id input method paid db =
    let quote = quote_of method paid (entries_of id db.entries) in
    let P : PayResponse → Db → Type 0 = λ r d. ledger_sum id d.entries ≡ pos 0 in
    elim (Bool-cases (leb_ℤ quote.debt (pos 0))) [
      | inl nothing ↦
          After-throw_when P (leb_ℤ quote.debt (pos 0)) _ _ db λ due. cc (sym nothing ∙ due)
      | inr due ↦
          After-map _ P _
            (λ r d moved.
              moved
              ∙ cleared method paid (entries_of id db.entries) (ledger_sum id db.entries)
                  (balance_of-sum id db.entries (pos 0) ∙ omega int_laws) due)
            (Shifts-run id
              (settle-Shifts ctx id input quote
                (quote_of-HasFees method paid (entries_of id db.entries)))
              db)
    ]
  where
    cleared :
        (method : PaymentCode) (paid : ℕ → Bool) (es : List LedgerEntry) (sum : ℤ)
        → balance_of (pos 0) es ≡ sum
        → leb_ℤ (quote_of method paid es).debt (pos 0) ≡ false
        → sum +ℤ sum_lines (quote_of method paid es).lines ≡ pos 0
    cleared method paid es sum e due =
        let owed : leb_ℤ (debt_of (balance_of (pos 0) es)) (pos 0) ≡ false =
          rw (quote_of-debt method paid es) at due in
        rw (quote_of-sum method paid es, quote_of-debt method paid es, sym e)
          (debt_of-owed (balance_of (pos 0) es) owed)

-- A payment that succeeds clears the member's account: its entries sum to nothing afterwards,
-- whatever the surcharge was.
pub pay-Cleared :
    (ctx : TenantContext) (id : ℕ) (input : PayRequest) (db : Db) {r : PayResponse} {db' : Db}
    → pay ctx id input db ≡ ok (r, db')
    → ledger_sum id db'.entries ≡ pos 0
unfolding pay
pay-Cleared ctx id input db e =
    let P : PayResponse → Db → Type 0 = λ r d. ledger_sum id d.entries ≡ pos 0 in
    After-ok P
      (After-bind (IsQuote id db) P _ _ db
        (build_quote-IsQuote id (some input.payment_method_id) db)
        λ quote d (same, method, paid, is).
          subst (λ q. After P (settle ctx id input q d)) (sym is)
            (subst
              (λ x.
                After P (settle ctx id input (quote_of method paid (entries_of id x.entries)) d))
              same (settle-Cleared ctx id input method paid d)))
      e
