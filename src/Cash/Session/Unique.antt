-- ===== src/Cash/Session/Unique.antt =====
-- apps/api/src/modules/cash/cash-session.service.ts: how many sessions are open.
use pulso_crm.Prelude.{
  ℕ, ◌≤◌, ◌≡◌, refl, Bool, true, false, List, [], ◌∷◌, ◌++◌, ◌==◌, ◌&&◌, find_first,
  find_first-fits, is_some, count_where, count_where-append, count_where-none, includes, Bool-cases,
  inl, inr, arith, ok, subst,
}
use pulso_crm.Prelude.Int.{ℤ}
use pulso_crm.Calendar.{Date}
use pulso_crm.Store.{Db, CashSession}
use pulso_crm.Store.Action.Run.{
  After-ok, After-gets, After-require, After-throw_when, After-modify, After-fresh,
  After-record_audit, After-pure,
}
use pulso_crm.Store.Context.{TenantContext}
use pulso_crm.Cash.Session.{is_of_user, is_of_register, open_in, open_cash}

-- A user has at most one open session, and so has a register.
pub record HasOneOpen (sessions : List CashSession) : Type 0 where
  pub by_user : (user_id : ℕ) → count_where (is_of_user user_id) sessions ≤ 1
  pub by_register : (register_id : ℕ) → count_where (is_of_register register_id) sessions ≤ 1

-- A key that has no row gets its first one.
one_more :
    (p : ℕ → CashSession → Bool) (k : ℕ) (rows : List CashSession) (s : CashSession)
    → ((id : ℕ) → p id s ≡ true → k ≡ id)
    → is_some (find_first (p k) rows) ≡ false
    → ((id : ℕ) → count_where (p id) rows ≤ 1)
    → (id : ℕ) → count_where (p id) (rows ++ s ∷ []) ≤ 1
one_more p k rows s own free h id =
    let old = h id in
    rw (count_where-append (p id) rows s) (elim (Bool-cases (p id s)) [
      | inl new ↦
          let nothing : count_where (p id) rows ≡ 0 =
            subst (λ i. count_where (p i) rows ≡ 0) (own id new)
              (count_where-none (p k) rows free) in
          rw (new, nothing) (omega arith)
      | inr other ↦ rw other (omega arith)
    ])

-- If no user and no register has more than one open session, the same holds after a register has been
-- opened. The new session is added to the others; it is open, the user's, on the register that was
-- asked for and in a branch of the user's.
pub open_cash-HasOneOpen :
    (ctx : TenantContext) (cash_register_id : ℕ) (opening_amount : ℤ) (today : Date) (db : Db)
    {s : CashSession} {db' : Db}
    → HasOneOpen db.sessions
    → open_cash ctx cash_register_id opening_amount today db ≡ ok (s, db')
    → HasOneOpen db'.sessions
      × (is_of_user ctx.user_id s ≡ true)
      × (is_of_register cash_register_id s ≡ true)
      × (includes s.branch_id ctx.branch_ids ≡ true)
      × (db'.sessions ≡ db.sessions ++ s ∷ [])
unfolding open_cash open_in
open_cash-HasOneOpen ctx cash_register_id opening_amount today db h e =
    let Q : CashSession → Db → Type 0 = λ s d.
      HasOneOpen d.sessions
      × (is_of_user ctx.user_id s ≡ true)
      × (is_of_register cash_register_id s ≡ true)
      × (includes s.branch_id ctx.branch_ids ≡ true)
      × (d.sessions ≡ db.sessions ++ s ∷ []) in
    After-ok Q
      (After-throw_when Q _ _ _ db λ positive. After-gets Q _ _ db (
        After-require Q _ _ _ db λ register found. After-throw_when Q _ _ _ db λ own_branch.
          After-gets Q _ _ db (
            After-throw_when Q _ _ _ db λ user_free. After-gets Q _ _ db (
              After-throw_when Q _ _ _ db λ register_free. After-fresh Q _ db (
                After-modify Q _ _ _ (
                  After-record_audit Q _ _ _ _ _ λ events. After-pure Q _ _ (
                    record {
                      by_user =
                          one_more is_of_user ctx.user_id db.sessions _ (λ id k. ground arith)
                            user_free h.by_user;
                      by_register =
                          one_more is_of_register register.id db.sessions _ (λ id k. ground arith)
                            register_free h.by_register;
                    },
                    ground arith,
                    (let fits =
                          find_first-fits (λ r. r.id == cash_register_id && r.is_active)
                            db.registers found in
                        ground arith),
                    ground arith,
                    refl,
                  )))))))
      e
