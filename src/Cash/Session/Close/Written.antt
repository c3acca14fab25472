-- ===== src/Cash/Session/Close/Written.antt =====
-- apps/api/src/modules/cash/cash-session.service.ts: the rows that `close` reads and writes.
use pulso_crm.Prelude.{
  ℕ, ◌≡◌, refl, sym, subst, ◌∙◌, true, some, none, List, [], ◌∷◌, ◌++◌, ◌==◌, find_first,
  update_where, ok, arith,
}
use pulso_crm.Prelude.Int.{ℤ}
use pulso_crm.Store.{Db, CashSession, PaymentMethod}
use pulso_crm.Store.Action.{pure, modify, ◌>>=◌, record_audit}
use pulso_crm.Store.Action.Run.{
  After, After-ok, After-map, After-bind, After-gets, After-require, After-throw_when,
}
use pulso_crm.Store.Context.{TenantContext}
use pulso_crm.Cash.{is_open, find_open_session_for_user, assert_positive_money}
use pulso_crm.Cash.Session.Close.{
  expected_by_method, Declared, push_missing, details_of, closed_row, sum_expected, sum_declared,
  CloseResult, close_in, close, check_methods, find_methods, write_closing, assert_declared,
}
use pulso_crm.Cash.Session.Close.Distinct.{IsDistinct, check_duplicates-IsDistinct, Passes}

-- What the transaction has written for the session with an id.
pub record IsWritten (user_id session_id : ℕ) (declared : List Declared) (db db' : Db)
    (r : CloseResult) : Type 0 where
  pub own : CashSession
  pub found : find_first (λ s. s.id == session_id) db.sessions ≡ some own
  pub was_open : is_open own.status ≡ true
  pub expected_cash : ℤ
  pub declared_cash : ℤ
  pub session : r.session ≡ closed_row user_id expected_cash declared_cash own
  pub sessions :
      db'.sessions
      ≡ update_where
          (λ s. s.id == own.id)
          (closed_row user_id expected_cash declared_cash)
          db.sessions
  pub details :
      let m = expected_by_method (find_methods declared db.methods) own declared db.movements in
      r.details ≡ details_of own.id m (push_missing m declared)
  pub rows : db'.details ≡ db.details ++ r.details

check_methods-same :
    (methods : List PaymentMethod) (items : List Declared) (db : Db)
    → After (λ u d. d ≡ db) (check_methods methods items db)
unfolding check_methods pure
check_methods-same methods [] db = refl
check_methods-same methods (item ∷ items) db =
    After-throw_when (λ u d. d ≡ db) _ _ _ db λ known. check_methods-same methods items db

write_closing-IsWritten :
    (user_id session_id : ℕ) (session : CashSession) (declared : List Declared) (db : Db)
    → find_first (λ s. s.id == session_id) db.sessions ≡ some session
    → is_open session.status ≡ true
    → let methods = find_methods declared db.methods in
      let m = expected_by_method methods session declared db.movements in
      After
        (λ r d. IsWritten user_id session_id declared db d r)
        (write_closing user_id session methods m (push_missing m declared) db)
unfolding write_closing ◌>>=◌ pure modify record_audit
write_closing-IsWritten user_id session_id session declared db found was_open =
    let methods = find_methods declared db.methods in
    let m = expected_by_method methods session declared db.movements in
    record {
      own = session;
      found = found;
      was_open = was_open;
      expected_cash = sum_expected methods m;
      declared_cash = sum_declared methods (push_missing m declared);
      session = refl;
      sessions = refl;
      details = refl;
      rows = refl;
    }

close_in-IsWritten :
    (user_id : ℕ) (declared : List Declared) (session_id : ℕ) (db : Db)
    → After
        (λ r d. IsWritten user_id session_id declared db d r)
        (close_in user_id declared session_id db)
unfolding close_in
close_in-IsWritten user_id declared session_id db =
    let Q : CloseResult → Db → Type 0 = λ r d. IsWritten user_id session_id declared db d r in
    After-gets Q _ _ db (
      After-require Q _ _ _ db λ session found. After-throw_when Q _ _ _ db λ open_now.
        After-gets Q _ _ db (
          After-bind (λ u d. d ≡ db) Q _ _ db
            (check_methods-same (find_methods declared db.methods) declared db)
            λ u d same. After-gets Q _ _ d (
              subst
                (λ d.
                  let methods = find_methods declared db.methods in
                  let m = expected_by_method methods session declared d.movements in
                  After Q (write_closing user_id session methods m (push_missing m declared) d))
                (sym same)
                (write_closing-IsWritten user_id session_id session declared db found
                  (ground arith)))))

assert_declared-same :
    (items : List Declared) (db : Db) → After (λ u d. d ≡ db) (assert_declared items db)
unfolding assert_declared pure assert_positive_money
assert_declared-same [] db = refl
assert_declared-same (item ∷ items) db =
    After-throw_when (λ u d. d ≡ db) _ _ _ db λ positive. assert_declared-same items db

-- What a close that succeeds has read and written, for the session that it has found first.
pub record IsClosing (user_id : ℕ) (declared : List Declared) (db db' : Db) (r : CloseResult)
    : Type 0 where
  pub mine : CashSession
  pub found : find_open_session_for_user user_id none db ≡ some mine
  pub written : IsWritten user_id mine.id declared db db' r
  pub distinct : IsDistinct declared

pub close-IsClosing :
    (ctx : TenantContext) (declared : List Declared) (db : Db) {r : CloseResult} {db' : Db}
    → close ctx declared db ≡ ok (r, db')
    → IsClosing ctx.user_id declared db db' r
unfolding close
close-IsClosing ctx declared db e =
    let Q : CloseResult → Db → Type 0 = λ r d. IsClosing ctx.user_id declared db d r in
    After-ok Q
      (After-bind (λ u d. d ≡ db) Q _ _ db (assert_declared-same declared db)
        λ u d same.
          After-bind (Passes [] declared d) Q _ _ d (check_duplicates-IsDistinct declared [] d)
            λ u2 d2 passed.
              let back : d2 ≡ db = passed.0 ∙ same in
              After-gets Q _ _ d2 (
                After-require Q _ _ _ d2 λ session found. After-gets Q _ _ d2 (
                  After-throw_when Q _ _ _ d2 λ none_pending.
                    After-map (λ r d3. IsWritten ctx.user_id session.id declared d2 d3 r) Q _
                      (λ r d3 done. record {
                        mine = session;
                        found =
                            subst
                              (λ x. find_open_session_for_user ctx.user_id none x ≡ some session)
                              back found;
                        written =
                            subst (λ x. IsWritten ctx.user_id session.id declared x d3 r) back done;
                        distinct = passed.1;
                      })
                      (close_in-IsWritten ctx.user_id declared session.id d2))))
      e
