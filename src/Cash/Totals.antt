-- ===== src/Cash/Totals.antt =====
-- What the movements of a session amount to for one payment method.
use pulso_crm.Prelude.{
  ℕ, ◌≡◌, refl, ap, Bool, true, List, [], ◌∷◌, ◌++◌, ◌==◌, ◌&&◌, if◌then◌else◌, update_where,
  Bool-cases, inl, inr,
}
use pulso_crm.Prelude.Int.{ℤ, pos, ◌+ℤ◌, neg, int_laws}
use pulso_crm.Store.{CashMovement, MovementType, income, expense}

-- Income counts up, an expense down.
abbrev pub signed : MovementType → ℤ → ℤ
signed income amount = amount
signed expense amount = neg amount

abbrev pub belongs : ℕ → ℕ → CashMovement → Bool
belongs session method m = m.cash_session_id == session && m.payment_method_id == method

-- What one movement adds to the total of a session and a method.
abbrev pub share : ℕ → ℕ → CashMovement → ℤ
share session method m = if belongs session method m then signed m.type m.amount else pos 0

unfoldable pub net_total : ℕ → ℕ → List CashMovement → ℤ
net_total session method [] = pos 0
net_total session method (m ∷ ms) = share session method m +ℤ net_total session method ms

pub net_total-append :
    (session method : ℕ) (ms : List CashMovement) (m : CashMovement)
    → net_total session method (ms ++ m ∷ [])
      ≡ net_total session method ms +ℤ share session method m
unfolding net_total
net_total-append session method [] m = omega int_laws
net_total-append session method (x ∷ ms) m =
    rw (net_total-append session method ms m) (omega int_laws)

-- The marks of reversed movements do not enter the totals.
pub net_total-mark :
    (session method id : ℕ) (ms : List CashMovement)
    → net_total session method
        (update_where (λ m. m.id == id) (λ m. record m { is_reversed = true }) ms)
      ≡ net_total session method ms
unfolding net_total
net_total-mark session method id [] = refl
net_total-mark session method id (m ∷ ms) = elim (Bool-cases (m.id == id)) [
  | inl h ↦ rw h (ap (λ t. share session method m +ℤ t) (net_total-mark session method id ms))
  | inr h ↦ rw h (ap (λ t. share session method m +ℤ t) (net_total-mark session method id ms))
]
