-- ===== src/Idempotency/Tests.antt =====
-- A key that is sent twice, at the same time and after the answer, and once more with another body.
use pulso_crm.Prelude.{
  ◌≡◌, refl, ◌∷◌, [], arith, ok, err, code, idempotency_in_progress, idempotency_key_reused,
  idempotency_key_required,
}
use pulso_crm.Idempotency.{
  Service, Request, Response, KeyRow, in_progress, completed, claimed, replay, claim, complete,
  new_row, complete_row, Reach, here, next, start, answer, wait, claim_row, claim_status,
}
use pulso_crm.Idempotency.Exclusive.{IsExclusive, Reach-IsExclusive, handlers}

abbrev no_keys : Service
no_keys = record { next_id = 1; now = 0; rows = []; running = [] }

abbrev charge : Request
charge = record { key = 50; key_length = 36; request_hash = 8 }

abbrev charging : Service
charging = record { next_id = 2; now = 0; rows = new_row charge no_keys ∷ []; running = 1 ∷ [] }

abbrev receipt : Response
receipt = record { status = 201; body = 9 }

abbrev charged : Service
charged = record {
  next_id = 2;
  now = 60000;
  rows = complete_row receipt (new_row charge no_keys) ∷ [];
  running = [];
}

sent_twice : claim charge charging ≡ err (code idempotency_in_progress)
unfolding claim claim_row claim_status
sent_twice = refl

sent_after : claim charge charged ≡ ok (replay receipt, charged)
unfolding claim claim_row claim_status
sent_after = refl

other_body : claim (record charge { request_hash = 7 }) charged ≡ err (code idempotency_key_reused)
unfolding claim claim_row
other_body = refl

short_key : claim (record charge { key_length = 7 }) no_keys ≡ err (code idempotency_key_required)
unfolding claim
short_key = refl

no_keys-IsExclusive : IsExclusive no_keys
unfolding handlers
no_keys-IsExclusive = record { single = λ id. omega arith; held = tt; known = tt }

no_keys-Reach : Reach no_keys charged
unfolding claim claim_row pulso_crm.Idempotency.insert_key complete pulso_crm.Idempotency.remove
no_keys-Reach =
    next (next (next here (start charge 1 _ refl refl)) (wait 60000 (λ inc. omega arith, tt) refl))
      (answer 1 receipt refl refl)

Reach-IsExclusive_example : IsExclusive charged
Reach-IsExclusive_example = Reach-IsExclusive no_keys-IsExclusive no_keys-Reach
