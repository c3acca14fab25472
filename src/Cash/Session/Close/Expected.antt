-- ===== src/Cash/Session/Close/Expected.antt =====
-- apps/api/src/modules/cash/cash-session.service.ts: the expected amount of a method at the close.
use pulso_crm.Prelude.{
  ℕ, ◌≡◌, refl, ap, ◌∙◌, Bool, true, false, List, [], ◌∷◌, ◌==◌, ◌&&◌, if◌then◌else◌, ==_iff,
  Bool-cases, inl, inr, arith, All, All-map,
}
use pulso_crm.Prelude.Int.{ℤ, pos, ◌+ℤ◌, int_laws}
use pulso_crm.Store.{CashMovement, CashSession, MovementType, income, expense, PaymentMethod}
use pulso_crm.Cash.Movement.{same_type}
use pulso_crm.Cash.Totals.{signed, net_total}
use pulso_crm.Cash.Session.Close.{
  GroupRow, add_to_group, group_rows, ByMethod, get_or_zero, set, apply_row, fill_expected,
  add_opening, expected_by_method, Declared, counts_as_cash, declares, find_methods,
}

pub get_or_zero-set :
    (id k : ℕ) (v : ℤ) (m : ByMethod)
    → get_or_zero id (set k v m) ≡ (if k == id then v else get_or_zero id m)
unfolding get_or_zero set
get_or_zero-set id k v [] = refl
get_or_zero-set id k v ((j, w) ∷ rest) = elim (Bool-cases (j == k)) [
  | inl same ↦ rw same (elim (Bool-cases (j == id)) [
    | inl own ↦ let e : (k == id) ≡ true = ground arith in rw (own, e) refl
    | inr other ↦ let e : (k == id) ≡ false = ground arith in rw (other, e) refl
  ])
  | inr differ ↦ rw differ (elim (Bool-cases (j == id)) [
    | inl own ↦ let e : (k == id) ≡ false = ground arith in rw (own, e) refl
    | inr other ↦ rw other (get_or_zero-set id k v rest)
  ])
]

abbrev row_share : ℕ → GroupRow → ℤ
row_share id row = if row.payment_method_id == id then signed row.type row.total else pos 0

-- What the grouped rows say of a method.
rows_total : ℕ → List GroupRow → ℤ
rows_total id [] = pos 0
rows_total id (row ∷ rows) = row_share id row +ℤ rows_total id rows

signed_sum : (t : MovementType) (a b : ℤ) → signed t (a +ℤ b) ≡ signed t a +ℤ signed t b
signed_sum income a b = refl
signed_sum expense a b = omega int_laws

same_type_eq : (s t : MovementType) → same_type s t ≡ true → s ≡ t
same_type_eq income income e = refl
same_type_eq expense expense e = refl
same_type_eq income expense e = cc
same_type_eq expense income e = cc

rows_total-add :
    (id : ℕ) (m : CashMovement) (rows : List GroupRow)
    → rows_total id (add_to_group m rows)
      ≡ (if m.payment_method_id == id then signed m.type m.amount else pos 0) +ℤ rows_total id rows
unfolding rows_total add_to_group
rows_total-add id m [] = refl
rows_total-add id m (row ∷ rows) =
    elim (Bool-cases (row.payment_method_id == m.payment_method_id && same_type row.type m.type)) [
      | inl fits ↦
          let method : row.payment_method_id ≡ m.payment_method_id = ground arith in
          let kind : row.type ≡ m.type = same_type_eq row.type m.type (ground arith) in
          rw fits (elim (Bool-cases (m.payment_method_id == id)) [
            | inl own ↦
                rw (method, kind)
                  (rw own (rw (signed_sum m.type row.total m.amount) (omega int_laws)))
            | inr other ↦ rw (method, kind) (rw other (omega int_laws))
          ])
      | inr misfit ↦ rw misfit (rw (rows_total-add id m rows) (omega int_laws))
    ]

rows_total-group :
    (id session : ℕ) (ms : List CashMovement)
    → rows_total id (group_rows session ms) ≡ net_total session id ms
unfolding rows_total group_rows net_total
rows_total-group id session [] = refl
rows_total-group id session (m ∷ ms) = elim (Bool-cases (m.cash_session_id == session)) [
  | inl own ↦
      rw own
        (rows_total-add id m (group_rows session ms) ∙ rw (rows_total-group id session ms) refl)
  | inr other ↦ rw other (rows_total-group id session ms ∙ omega int_laws)
]

apply_row-signed : (t : MovementType) (a b : ℤ) → apply_row t a b ≡ a +ℤ signed t b
apply_row-signed income a b = refl
apply_row-signed expense a b = omega int_laws

fill_expected-total :
    (id : ℕ) (rows : List GroupRow) (m : ByMethod)
    → get_or_zero id (fill_expected m rows) ≡ get_or_zero id m +ℤ rows_total id rows
unfolding rows_total fill_expected get_or_zero
fill_expected-total id [] m = omega int_laws
fill_expected-total id (row ∷ rows) m =
    fill_expected-total id rows _
    ∙ rw
        (get_or_zero-set id row.payment_method_id
          (apply_row row.type (get_or_zero row.payment_method_id m) row.total) m)
        (elim (Bool-cases (row.payment_method_id == id)) [
          | inl own ↦
              let e : row.payment_method_id ≡ id = (==_iff _ _).0 own in
              rw own (
                rw (apply_row-signed row.type (get_or_zero row.payment_method_id m) row.total)
                  (rw e (omega int_laws)))
          | inr other ↦ rw other (omega int_laws)
        ])

-- Does the first declared item that counts as cash name this method?
abbrev pub takes_opening : List PaymentMethod → List Declared → ℕ → Bool
takes_opening methods [] id = false
takes_opening methods (item ∷ rest) id =
    if counts_as_cash methods item.payment_method_id
    then item.payment_method_id == id
    else takes_opening methods rest id

add_opening-total :
    (id : ℕ) (methods : List PaymentMethod) (opening : ℤ) (declared : List Declared) (m : ByMethod)
    → get_or_zero id (add_opening methods opening declared m)
      ≡ get_or_zero id m +ℤ (if takes_opening methods declared id then opening else pos 0)
unfolding add_opening
add_opening-total id methods opening [] m = omega int_laws
add_opening-total id methods opening (item ∷ rest) m =
    elim (Bool-cases (counts_as_cash methods item.payment_method_id)) [
      | inr later ↦ rw later (add_opening-total id methods opening rest m)
      | inl first ↦ rw first (
          rw
            (get_or_zero-set id item.payment_method_id
              (get_or_zero item.payment_method_id m +ℤ opening) m)
            (elim (Bool-cases (item.payment_method_id == id)) [
              | inl own ↦
                  let e : item.payment_method_id ≡ id = (==_iff _ _).0 own in
                  rw own (ap (λ i. get_or_zero i m +ℤ opening) e)
              | inr other ↦ rw other (omega int_laws)
            ]))
    ]

-- The amount that the close expects of a method: the income less the expense of the session's
-- movements, and the opening amount if it is the first declared method that counts as cash.
expected_by_method-eq :
    (id : ℕ) (methods : List PaymentMethod) (session : CashSession) (declared : List Declared)
    (ms : List CashMovement)
    → get_or_zero id (expected_by_method methods session declared ms)
      ≡ net_total session.id id ms
        +ℤ (if takes_opening methods declared id then session.opening_amount else pos 0)
unfolding expected_by_method get_or_zero
expected_by_method-eq id methods session declared ms =
    add_opening-total id methods session.opening_amount declared _
    ∙ rw (fill_expected-total id (group_rows session.id ms) [], rows_total-group id session.id ms)
        (omega int_laws)

-- The methods that the look-up finds count as cash as all methods do.
counts_as_cash-find :
    (declared : List Declared) (id : ℕ) (methods : List PaymentMethod)
    → declares id declared ≡ true
    → counts_as_cash (find_methods declared methods) id ≡ counts_as_cash methods id
unfolding find_methods counts_as_cash
counts_as_cash-find declared id [] h = refl
counts_as_cash-find declared id (p ∷ ps) h =
    let rest = counts_as_cash-find declared id ps h in
    elim (Bool-cases (p.id == id)) [
      | inl own ↦
          let kept : declares p.id declared ≡ true = rw ((==_iff p.id id).0 own) h in
          rw (kept, own) refl
      | inr other ↦ elim (Bool-cases (declares p.id declared)) [
        | inl kept ↦ rw (kept, other) rest
        | inr gone ↦ rw (gone, other) rest
      ]
    ]

takes_opening-find :
    (declared : List Declared) (id : ℕ) (methods : List PaymentMethod) (items : List Declared)
    → All (λ i. declares i.payment_method_id declared ≡ true) items
    → takes_opening (find_methods declared methods) items id ≡ takes_opening methods items id
takes_opening-find declared id methods [] h = refl
takes_opening-find declared id methods (item ∷ items) h =
    rw (counts_as_cash-find declared item.payment_method_id methods h.0)
      (rw (takes_opening-find declared id methods items h.1) refl)

declares-own : (items : List Declared) → All (λ i. declares i.payment_method_id items ≡ true) items
declares-own [] = tt
declares-own (item ∷ items) = (
  rw ((==_iff item.payment_method_id item.payment_method_id).1 refl) refl,
  All-map _ _ items
      (λ i h. elim (Bool-cases (item.payment_method_id == i.payment_method_id)) [
        | inl e ↦ rw e refl
        | inr e ↦ rw e h
      ])
      (declares-own items),
)

-- The same, with the methods of the gym.
pub expected_by_method-found :
    (id : ℕ) (methods : List PaymentMethod) (session : CashSession) (declared : List Declared)
    (ms : List CashMovement)
    → get_or_zero id (expected_by_method (find_methods declared methods) session declared ms)
      ≡ net_total session.id id ms
        +ℤ (if takes_opening methods declared id then session.opening_amount else pos 0)
expected_by_method-found id methods session declared ms =
    expected_by_method-eq id (find_methods declared methods) session declared ms
    ∙ rw (takes_opening-find declared id methods declared (declares-own declared)) refl
