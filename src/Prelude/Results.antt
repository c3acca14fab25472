-- ===== src/Prelude/Results.antt =====
-- Errors as values. `code` is an `AppError` with its code (common/errors/app-error.ts), `failure`
-- a plain `throw new Error(…)`.
use mathlib.Core.Path.{◌≡◌}

pub data ErrorCode : Type 0 where
  validation_error not_found conflict forbidden no_open_cash_session cash_register_busy : ErrorCode
  user_has_open_session cash_session_has_pending_operations cash_session_closed : ErrorCode
  movement_already_reversed membership_overlap membership_not_active : ErrorCode
  idempotency_key_required idempotency_key_reused idempotency_in_progress : ErrorCode

pub data Error : Type 0 where
  code : ErrorCode → Error
  failure : Error

-- What a call returns, or the error that it throws.
pub data Result {κ} (B : Type κ) : Type κ where
  ok : B → Result B
  err : Error → Result B

infixl 5 ◌>>=◌
abbrev pub ◌>>=◌ {κ ι} : {B : Type κ} {C : Type ι} → Result B → (B → Result C) → Result C
◌>>=◌ r next = elim r [ err e ↦ err e | ok b ↦ next b ]

pub eq_of_ok {κ} : {B : Type κ} {a b : B} → ok a ≡ ok b → a ≡ b
eq_of_ok e = cc
