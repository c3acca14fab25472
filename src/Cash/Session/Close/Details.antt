-- ===== src/Cash/Session/Close/Details.antt =====
-- apps/api/src/modules/cash/cash-session.service.ts: which methods the details of a close name.
use pulso_crm.Prelude.{
  ℕ, ◌≡◌, refl, sym, Bool, true, false, List, [], ◌∷◌, ◌++◌, ◌==◌, ◌&&◌, ◌||◌, ==_iff, Bool-cases,
  inl, inr, arith,
}
use pulso_crm.Prelude.Int.{ℤ, pos}
use pulso_crm.Store.{CashMovement, CashSession, PaymentMethod}
use pulso_crm.Cash.Movement.{same_type}
use pulso_crm.Cash.Totals.{belongs}
use pulso_crm.Cash.Session.Close.{
  GroupRow, add_to_group, group_rows, ByMethod, set, apply_row, get_or_zero, fill_expected,
  add_opening, expected_by_method, Declared, counts_as_cash, declares, push_missing,
}

pub has_key : ℕ → ByMethod → Bool
has_key id [] = false
has_key id ((k, v) ∷ rest) = k == id || has_key id rest

has_key-set :
    (id k : ℕ) (v : ℤ) (m : ByMethod)
    → (k == id || has_key id m) ≡ true
    → has_key id (set k v m) ≡ true
unfolding has_key set
has_key-set id k v [] h = h
has_key-set id k v ((j, w) ∷ rest) h = elim (Bool-cases (j == k)) [
  | inl same ↦ rw same (ground arith)
  | inr differ ↦ rw differ (elim (Bool-cases (j == id)) [
    | inl own ↦ rw own refl
    | inr other ↦ rw other (has_key-set id k v rest (rw other at h))
  ])
]

has_row : ℕ → List GroupRow → Bool
has_row id [] = false
has_row id (row ∷ rows) = row.payment_method_id == id || has_row id rows

has_row-add :
    (id : ℕ) (m : CashMovement) (rows : List GroupRow)
    → (m.payment_method_id == id || has_row id rows) ≡ true
    → has_row id (add_to_group m rows) ≡ true
unfolding has_row add_to_group
has_row-add id m [] h = h
has_row-add id m (row ∷ rows) h =
    elim (Bool-cases (row.payment_method_id == m.payment_method_id && same_type row.type m.type)) [
      | inl fits ↦ rw fits (ground arith)
      | inr misfit ↦ rw misfit (elim (Bool-cases (row.payment_method_id == id)) [
        | inl own ↦ rw own refl
        | inr other ↦ rw other (has_row-add id m rows (rw other at h))
      ])
    ]

-- Has the session a movement of this method?
pub has_movement : ℕ → ℕ → List CashMovement → Bool
has_movement session id [] = false
has_movement session id (m ∷ ms) = belongs session id m || has_movement session id ms

has_row-group :
    (session id : ℕ) (ms : List CashMovement)
    → has_movement session id ms ≡ true
    → has_row id (group_rows session ms) ≡ true
unfolding has_movement group_rows
has_row-group session id [] h = cc h
has_row-group session id (m ∷ ms) h = elim (Bool-cases (m.cash_session_id == session)) [
  | inr other ↦ rw other (has_row-group session id ms (rw other at h))
  | inl own ↦ rw own (elim (Bool-cases (m.payment_method_id == id)) [
    | inl fits ↦ has_row-add id m _ (rw fits refl)
    | inr misfit ↦
        has_row-add id m _ (rw misfit (has_row-group session id ms (rw (own, misfit) at h)))
  ])
]

has_key-fill :
    (id : ℕ) (rows : List GroupRow) (m : ByMethod)
    → (has_row id rows || has_key id m) ≡ true
    → has_key id (fill_expected m rows) ≡ true
unfolding has_row fill_expected
has_key-fill id [] m h = h
has_key-fill id (row ∷ rows) m h = elim (Bool-cases (has_row id rows)) [
  | inl later ↦ has_key-fill id rows _ (rw later refl)
  | inr here ↦
      let own : (row.payment_method_id == id || has_key id m) ≡ true = ground arith in
      let kept =
        has_key-set id row.payment_method_id
          (apply_row row.type (get_or_zero row.payment_method_id m) row.total) m own in
      has_key-fill id rows _ (ground arith)
]

has_key-opening :
    (id : ℕ) (methods : List PaymentMethod) (opening : ℤ) (declared : List Declared) (m : ByMethod)
    → has_key id m ≡ true
    → has_key id (add_opening methods opening declared m) ≡ true
unfolding add_opening
has_key-opening id methods opening [] m h = h
has_key-opening id methods opening (item ∷ rest) m h =
    elim (Bool-cases (counts_as_cash methods item.payment_method_id)) [
      | inl first ↦ rw first (has_key-set id item.payment_method_id _ m (ground arith))
      | inr later ↦ rw later (has_key-opening id methods opening rest m h)
    ]

declares-append :
    (id : ℕ) (xs : List Declared) (item : Declared)
    → declares id (xs ++ item ∷ []) ≡ (declares id xs || item.payment_method_id == id)
declares-append id [] item = elim (Bool-cases (item.payment_method_id == id)) [
  | inl h ↦ rw h refl
  | inr h ↦ rw h refl
]
declares-append id (x ∷ xs) item = elim (Bool-cases (x.payment_method_id == id)) [
  | inl h ↦ rw h refl
  | inr h ↦ rw h (declares-append id xs item)
]

pub declares-push :
    (id : ℕ) (m : ByMethod) (xs : List Declared)
    → (has_key id m || declares id xs) ≡ true
    → declares id (push_missing m xs) ≡ true
unfolding has_key push_missing
declares-push id [] xs h = h
declares-push id ((k, v) ∷ rest) xs h = elim (Bool-cases (declares k xs)) [
  | inl known ↦ rw known (
      declares-push id rest xs (elim (Bool-cases (k == id)) [
        | inl own ↦ let e : k ≡ id = (==_iff _ _).0 own in rw (sym e, known) (ground arith)
        | inr other ↦ rw other at h
      ]))
  | inr new ↦ rw new (
      declares-push id rest _ (
        rw (declares-append id xs (record { payment_method_id = k; amount = pos 0 }))
          (ground arith)))
]

-- Every declared method, and every method with a movement in the session, has a declared item in the end.
pub declares-movements :
    (id : ℕ) (methods : List PaymentMethod) (session : CashSession) (declared : List Declared)
    (ms : List CashMovement)
    → (declares id declared || has_movement session.id id ms) ≡ true
    → declares id (push_missing (expected_by_method methods session declared ms) declared) ≡ true
unfolding expected_by_method
declares-movements id methods session declared ms h =
    declares-push id (expected_by_method methods session declared ms) declared
      (elim (Bool-cases (has_movement session.id id ms)) [
        | inl moved ↦
            let key : has_key id (expected_by_method methods session declared ms) ≡ true =
              has_key-opening id methods session.opening_amount declared _ (
                has_key-fill id (group_rows session.id ms) []
                  (rw (has_row-group session.id id ms moved) refl)) in
            ground arith
        | inr still ↦ ground arith
      ])
