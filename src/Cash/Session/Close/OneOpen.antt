-- ===== src/Cash/Session/Close/OneOpen.antt =====
-- apps/api/src/modules/cash/cash-session.service.ts: the open sessions after `close`.
use pulso_crm.Prelude.{
  ◌≤◌, ◌≡◌, refl, sym, subst, ap, Bool, true, false, none, some, List, [], ◌∷◌, ◌==◌, ==_iff, ◌&&◌,
  find_first, find_first-fits, count_where, update_where, count_where-update_where, Bool-cases, inl,
  inr, arith, ok, eq_of_some,
}
use native.Mathlib.Nat.{le_trans}
use pulso_crm.Store.{Db, CashSession}
use pulso_crm.Store.Context.{TenantContext}
use pulso_crm.Cash.{is_open, in_branch, find_open_session_for_user}
use pulso_crm.Cash.Session.{is_of_user, is_of_register}
use pulso_crm.Cash.Session.Unique.{HasOneOpen}
use pulso_crm.Cash.Session.Close.{Declared, CloseResult, closed_row, close}
use pulso_crm.Cash.Session.Close.Written.{close-IsClosing}

module _ {A : Type 0} (p t : A → Bool) where
  count_where-found :
      (xs : List A) {a : A} → find_first t xs ≡ some a → p a ≡ true → 1 ≤ count_where p xs
  count_where-found [] e fits = cc
  count_where-found (x ∷ xs) e fits = elim (Bool-cases (p x)) [
    | inl h ↦ rw h (omega arith)
    | inr h ↦ rw h (elim (Bool-cases (t x)) [
      | inl k ↦
          let bad : p x ≡ true = subst (λ y. p y ≡ true) (sym (eq_of_some (rw k at e))) fits in
          cc (h, bad)
      | inr k ↦ count_where-found xs (rw k at e) fits
    ])
  ]

  -- The one row that fits no longer does after a write that reaches it.
  count_where-update_one :
      (q : A → Bool) (f : A → A) (xs : List A) {a : A}
      → ((x : A) → p (f x) ≡ false)
      → find_first t xs ≡ some a
      → p a ≡ true
      → q a ≡ true
      → count_where p xs ≤ 1
      → count_where p (update_where q f xs) ≡ 0
  count_where-update_one q f [] gone e fits hit one = refl
  count_where-update_one q f (x ∷ xs) gone e fits hit one = elim (Bool-cases (t x)) [
    | inl first ↦
        let here = eq_of_some (rw first at e) in
        let own : p x ≡ true = subst (λ y. p y ≡ true) (sym here) fits in
        let reached : q x ≡ true = subst (λ y. q y ≡ true) (sym here) hit in
        let rest = count_where-update_where p q f xs (λ y k. gone y) in
        rw reached (rw (gone x) (omega (arith, rest, rw own at one)))
    | inr later ↦
        let found = rw later at e in
        let some_left = count_where-found xs found fits in
        elim (Bool-cases (p x)) [
          | inl k ↦ absurd (omega (arith, some_left, rw k at one))
          | inr k ↦
              let rest = count_where-update_one q f xs gone found fits hit (rw k at one) in
              elim (Bool-cases (q x)) [ inl j ↦ rw j (rw (gone x) rest) | inr j ↦ rw j (rw k rest) ]
        ]
  ]

-- If no user and no register has more than one open session, then after a close that succeeds the same
-- holds, and neither the user nor the register of the closed session has one.
pub close-HasOneOpen :
    (ctx : TenantContext) (declared : List Declared) (db : Db) {r : CloseResult} {db' : Db}
    → HasOneOpen db.sessions
    → close ctx declared db ≡ ok (r, db')
    → HasOneOpen db'.sessions
      × (count_where (is_of_user ctx.user_id) db'.sessions ≡ 0)
      × (count_where (is_of_register r.session.cash_register_id) db'.sessions ≡ 0)
unfolding find_open_session_for_user
close-HasOneOpen ctx declared db {r} {db'} h e =
    let c = close-IsClosing ctx declared db e in
    let w = c.written in
    let reached : CashSession → Bool = λ s. s.id == w.own.id in
    let write = closed_row ctx.user_id w.expected_cash w.declared_cash in
    let same =
      (==_iff w.own.id c.mine.id).0
        (find_first-fits (λ s. s.id == c.mine.id) db.sessions w.found) in
    let register = ap (λ s. s.cash_register_id) w.session in
    let mine =
      find_first-fits
        (λ s. s.opened_by == ctx.user_id && (is_open s.status && in_branch none s.branch_id))
        db.sessions c.found in
    subst
      (λ rows.
        HasOneOpen rows
        × (count_where (is_of_user ctx.user_id) rows ≡ 0)
        × (count_where (is_of_register r.session.cash_register_id) rows ≡ 0))
      (sym w.sessions)
      (
        record {
          by_user = λ id.
              le_trans
                (count_where-update_where (is_of_user id) reached write db.sessions
                  (λ s k. ground arith))
                (h.by_user id);
          by_register = λ id.
              le_trans
                (count_where-update_where (is_of_register id) reached write db.sessions
                  (λ s k. ground arith))
                (h.by_register id);
        },
        count_where-update_one (is_of_user ctx.user_id) _ reached write db.sessions
            (λ s. ground arith) c.found (ground (arith, mine))
            ((==_iff c.mine.id w.own.id).1 (sym same)) (h.by_user ctx.user_id),
        subst (λ i. count_where (is_of_register i) (update_where reached write db.sessions) ≡ 0)
            (sym register)
            (count_where-update_one (is_of_register w.own.cash_register_id) _ reached write
              db.sessions (λ s. ground arith) w.found
              (rw ((==_iff w.own.cash_register_id w.own.cash_register_id).1 refl) w.was_open)
              ((==_iff w.own.id w.own.id).1 refl) (h.by_register w.own.cash_register_id)),
      )
