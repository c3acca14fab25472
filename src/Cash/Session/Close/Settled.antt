-- ===== src/Cash/Session/Close/Settled.antt =====
-- apps/api/src/modules/cash/cash-session.service.ts: the details and the session that `close` writes.
use pulso_crm.Prelude.{
  ℕ, suc, ◌≤◌, ◌≡◌, refl, sym, ap, ◌∙◌, subst, Bool, true, false, none, some, List, [], ◌∷◌, ◌++◌,
  ◌==◌, ==_iff, ◌||◌, if◌then◌else◌, find_first, find_first-fits, find_first-update_where,
  find_first-update_other, is_some, count_where, All, All-map, Bool-cases, inl, inr, ok, arith,
}
use pulso_crm.Prelude.Int.{ℤ, pos, ◌+ℤ◌, ◌-ℤ◌}
use pulso_crm.Store.{Db, CashSession, closed, ClosingDetail}
use pulso_crm.Store.Context.{TenantContext}
use pulso_crm.Cash.{is_open, find_open_session_for_user}
use pulso_crm.Cash.Totals.{net_total}
use pulso_crm.Cash.Session.Close.{
  ByMethod, expected_by_method, Declared, declares, push_missing, details_of, closed_row,
  CloseResult, close, find_methods,
}
use pulso_crm.Cash.Session.Close.Expected.{takes_opening, expected_by_method-found}
use pulso_crm.Cash.Session.Close.Details.{has_movement, declares-movements}
use pulso_crm.Cash.Session.Close.Distinct.{IsDistinct, is_item_of, push_missing-IsDistinct}
use pulso_crm.Cash.Session.Close.Written.{IsWritten, close-IsClosing}

abbrev pub is_detail_of : ℕ → ClosingDetail → Bool
is_detail_of id d = d.payment_method_id == id

-- What was declared for a method; nothing was zero.
abbrev pub amount_declared : List Declared → ℕ → ℤ
amount_declared [] id = pos 0
amount_declared (d ∷ ds) id = if d.payment_method_id == id then d.amount else amount_declared ds id

-- What a detail of the session `own` must say: the movements of its method, with the opening amount at
-- the first declared method that counts as cash, against what was declared for it.
pub record IsDetail (declared : List Declared) (own : CashSession) (db : Db) (d : ClosingDetail)
    : Type 0 where
  pub session : d.cash_session_id ≡ own.id
  pub expected :
      d.expected_amount
      ≡ net_total own.id d.payment_method_id db.movements
        +ℤ (if takes_opening db.methods declared d.payment_method_id
            then own.opening_amount
            else pos 0)
  pub declared_amount : d.declared_amount ≡ amount_declared declared d.payment_method_id
  pub difference : d.difference ≡ d.declared_amount -ℤ d.expected_amount

-- The rows after a close, and its result.
pub record IsSettled (user_id : ℕ) (declared : List Declared) (db db' : Db) (r : CloseResult)
    : Type 0 where
  -- The user's open session, and its row under the lock.
  pub mine : CashSession
  pub found : find_open_session_for_user user_id none db ≡ some mine
  pub own : CashSession
  pub locked : find_first (λ s. s.id == mine.id) db.sessions ≡ some own
  pub was_open : is_open own.status ≡ true
  -- The row is closed now, and no other has changed.
  pub now : find_first (λ s. s.id == mine.id) db'.sessions ≡ some r.session
  pub session_closed : r.session.status ≡ closed
  pub closed_by : r.session.closed_by ≡ some user_id
  pub others :
      (id : ℕ)
      → (id == mine.id) ≡ false
      → find_first (λ s. s.id == id) db'.sessions ≡ find_first (λ s. s.id == id) db.sessions
  pub details : All (IsDetail declared own db) r.details
  -- A declared method, and a method with movements, has a detail.
  pub complete :
      (id : ℕ)
      → (declares id declared || has_movement own.id id db.movements) ≡ true
      → is_some (find_first (is_detail_of id) r.details) ≡ true
  -- No method has two details.
  pub single : (id : ℕ) → count_where (is_detail_of id) r.details ≤ 1
  pub rows : db'.details ≡ db.details ++ r.details

details_of-find :
    (id session : ℕ) (m : ByMethod) (items : List Declared)
    → is_some (find_first (is_detail_of id) (details_of session m items)) ≡ declares id items
unfolding details_of
details_of-find id session m [] = refl
details_of-find id session m (item ∷ items) = elim (Bool-cases (item.payment_method_id == id)) [
  | inl h ↦ rw h refl
  | inr h ↦ rw h (details_of-find id session m items)
]

details_of-count :
    (id session : ℕ) (m : ByMethod) (items : List Declared)
    → count_where (is_detail_of id) (details_of session m items) ≡ count_where (is_item_of id) items
unfolding details_of
details_of-count id session m [] = refl
details_of-count id session m (item ∷ items) = elim (Bool-cases (item.payment_method_id == id)) [
  | inl h ↦ rw h (ap (λ n. suc n) (details_of-count id session m items))
  | inr h ↦ rw h (details_of-count id session m items)
]

-- Items of distinct methods declare their own amounts.
absent-All :
    (id : ℕ) (items : List Declared)
    → count_where (is_item_of id) items ≡ 0
    → All (λ i. (id == i.payment_method_id) ≡ false) items
absent-All id [] h = tt
absent-All id (item ∷ items) h = elim (Bool-cases (item.payment_method_id == id)) [
  | inl own ↦ absurd (omega (arith, rw own at h))
  | inr other ↦ (ground arith, absent-All id items (rw other at h))
]

amount_declared-own :
    (items : List Declared)
    → IsDistinct items
    → All (λ i. i.amount ≡ amount_declared items i.payment_method_id) items
amount_declared-own [] h = tt
amount_declared-own (item ∷ items) h =
    let self : (item.payment_method_id == item.payment_method_id) ≡ true =
      (==_iff item.payment_method_id item.payment_method_id).1 refl in
    let none_left : count_where (is_item_of item.payment_method_id) items ≡ 0 =
      omega (arith, rw self at (h item.payment_method_id)) in
    (
      rw self refl,
      later items (absent-All item.payment_method_id items none_left)
          (amount_declared-own items fewer),
    )
  where
    fewer : IsDistinct items
    fewer id = elim (Bool-cases (item.payment_method_id == id)) [
      | inl own ↦ omega (arith, rw own at (h id))
      | inr other ↦ rw other at (h id)
    ]

    later :
        (xs : List Declared)
        → All (λ i. (item.payment_method_id == i.payment_method_id) ≡ false) xs
        → All (λ i. i.amount ≡ amount_declared items i.payment_method_id) xs
        → All (λ i. i.amount ≡ amount_declared (item ∷ items) i.payment_method_id) xs
    later [] a b = tt
    later (x ∷ xs) a b = (rw (a.0) b.0, later xs a.1 b.1)

-- Items of zero declare nothing more.
amount_declared-append :
    (id k : ℕ) (xs : List Declared)
    → amount_declared (xs ++ (record { payment_method_id = k; amount = pos 0 }) ∷ []) id
      ≡ amount_declared xs id
amount_declared-append id k [] = elim (Bool-cases (k == id)) [
  | inl e ↦ rw e refl
  | inr e ↦ rw e refl
]
amount_declared-append id k (x ∷ xs) = elim (Bool-cases (x.payment_method_id == id)) [
  | inl e ↦ rw e refl
  | inr e ↦ rw e (amount_declared-append id k xs)
]

amount_declared-push :
    (id : ℕ) (m : ByMethod) (xs : List Declared)
    → amount_declared (push_missing m xs) id ≡ amount_declared xs id
unfolding push_missing
amount_declared-push id [] xs = refl
amount_declared-push id ((k, v) ∷ rest) xs = elim (Bool-cases (declares k xs)) [
  | inl known ↦ rw known (amount_declared-push id rest xs)
  | inr new ↦ rw new (amount_declared-push id rest _ ∙ amount_declared-append id k xs)
]

details_of-IsDetail :
    (own : CashSession) (declared : List Declared) (db : Db) (items : List Declared)
    → All (λ i. i.amount ≡ amount_declared declared i.payment_method_id) items
    → All (IsDetail declared own db) (
        details_of own.id
          (expected_by_method (find_methods declared db.methods) own declared db.movements)
          items)
unfolding details_of
details_of-IsDetail own declared db [] h = tt
details_of-IsDetail own declared db (item ∷ items) h = (
  record {
    session = refl;
    expected = expected_by_method-found item.payment_method_id db.methods own declared db.movements;
    declared_amount = h.0;
    difference = refl;
  },
  details_of-IsDetail own declared db items h.1,
)

settled :
    (user_id : ℕ) (declared : List Declared) (db db' : Db) (r : CloseResult) (mine : CashSession)
    → find_open_session_for_user user_id none db ≡ some mine
    → IsDistinct declared
    → IsWritten user_id mine.id declared db db' r
    → IsSettled user_id declared db db' r
settled user_id declared db db' r mine found distinct w =
    let own = w.own in
    let m = expected_by_method (find_methods declared db.methods) own declared db.movements in
    let items = push_missing m declared in
    let is_own : CashSession → Bool = λ s. s.id == own.id in
    let write = closed_row user_id w.expected_cash w.declared_cash in
    let same : own.id ≡ mine.id =
      (==_iff own.id mine.id).0 (find_first-fits (λ s. s.id == mine.id) db.sessions w.found) in
    record {
      mine = mine;
      found = found;
      own = own;
      locked = w.found;
      was_open = w.was_open;
      now =
          subst (λ i. find_first (λ s. s.id == i) db'.sessions ≡ some r.session) same
            (ap (find_first is_own) w.sessions
              ∙ find_first-update_where is_own write db.sessions (λ s h. h)
                  (subst (λ i. find_first (λ s. s.id == i) db.sessions ≡ some own) (sym same)
                    w.found)
              ∙ ap some (sym w.session));
      session_closed = ap (λ s. s.status) w.session;
      closed_by = ap (λ s. s.closed_by) w.session;
      others = λ id apart.
          ap (find_first (λ s. s.id == id)) w.sessions
          ∙ find_first-update_other (λ s. s.id == id) is_own write db.sessions
              (λ s hit.
                let no : (s.id == id) ≡ false = ground (arith, same, hit, apart) in (no, no));
      details = subst (All (IsDetail declared own db)) (sym w.details) (
          details_of-IsDetail own declared db items (
            All-map _ (λ i. i.amount ≡ amount_declared declared i.payment_method_id) items
              (λ i e. e ∙ amount_declared-push i.payment_method_id m declared)
              (amount_declared-own items (push_missing-IsDistinct m declared distinct))));
      complete = λ id h.
          ap (λ ds. is_some (find_first (is_detail_of id) ds)) w.details
          ∙ details_of-find id own.id m items
          ∙ declares-movements id (find_methods declared db.methods) own declared db.movements h;
      single = λ id. rw (w.details) (
          rw (details_of-count id own.id m items) (push_missing-IsDistinct m declared distinct id));
      rows = w.rows;
    }

-- A close that succeeds has found the user's open session and closed its row, as the user, and no other.
-- Every declared method and every method with a movement in the session has one detail, and the details
-- are added to the rows. A detail expects the income less the expense of its method in the session, with
-- the session's opening amount at the first declared method that counts as cash; it reports what was
-- declared for its method, or zero, and that amount less the expected one.
pub close-IsSettled :
    (ctx : TenantContext) (declared : List Declared) (db : Db) {r : CloseResult} {db' : Db}
    → close ctx declared db ≡ ok (r, db')
    → IsSettled ctx.user_id declared db db' r
close-IsSettled ctx declared db {r} {db'} e =
    let c = close-IsClosing ctx declared db e in
    settled ctx.user_id declared db db' r c.mine c.found c.distinct c.written
