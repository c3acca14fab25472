-- ===== src/Cash/Session/Close/Distinct.antt =====
-- apps/api/src/modules/cash/cash-session.service.ts: the methods of the declared items of `close`.
use pulso_crm.Prelude.{
  ℕ, ◌≤◌, ◌≡◌, refl, subst, Bool, true, false, List, [], ◌∷◌, ◌==◌, ==_iff, includes, count_where,
  count_where-append, count_where-none, Bool-cases, inl, inr, arith,
}
use pulso_crm.Prelude.Int.{pos}
use pulso_crm.Store.{Db}
use pulso_crm.Store.Action.{pure}
use pulso_crm.Store.Action.Run.{After, After-map, After-throw_when}
use pulso_crm.Cash.Session.Close.{ByMethod, Declared, declares, push_missing, check_duplicates}

abbrev pub is_item_of : ℕ → Declared → Bool
is_item_of id d = d.payment_method_id == id

-- No method has two items.
abbrev pub IsDistinct : List Declared → Type 0
IsDistinct xs = (id : ℕ) → count_where (is_item_of id) xs ≤ 1

pub push_missing-IsDistinct :
    (m : ByMethod) (xs : List Declared) → IsDistinct xs → IsDistinct (push_missing m xs)
unfolding push_missing
push_missing-IsDistinct [] xs h = h
push_missing-IsDistinct ((k, v) ∷ rest) xs h = elim (Bool-cases (declares k xs)) [
  | inl known ↦ rw known (push_missing-IsDistinct rest xs h)
  | inr new ↦ rw new (
      push_missing-IsDistinct rest _ λ id.
        let old = h id in
        rw
          (count_where-append (is_item_of id) xs (record { payment_method_id = k; amount = pos 0 }))
          (elim (Bool-cases (k == id)) [
            | inl own ↦
                let e : k ≡ id = (==_iff _ _).0 own in
                let nothing : count_where (is_item_of id) xs ≡ 0 =
                  subst (λ i. count_where (is_item_of i) xs ≡ 0) e
                    (count_where-none (is_item_of k) xs new) in
                rw (own, nothing) (omega arith)
            | inr other ↦ rw other (omega arith)
          ]))
]

-- What the check lets pass, after the items whose methods are `seen`.
abbrev pub Passes : List ℕ → List Declared → Db → Unit {0} → Db → Type 0
Passes seen xs db u d =
    (d ≡ db)
    × ((id : ℕ) → count_where (is_item_of id) xs ≤ 1)
    × ((id : ℕ) → includes id seen ≡ true → count_where (is_item_of id) xs ≡ 0)

-- The check lets pass only items of distinct methods.
pub check_duplicates-IsDistinct :
    (xs : List Declared) (seen : List ℕ) (db : Db)
    → After (Passes seen xs db) (check_duplicates seen xs db)
unfolding check_duplicates pure
check_duplicates-IsDistinct [] seen db = (refl, λ id. omega arith, λ id h. refl)
check_duplicates-IsDistinct (x ∷ xs) seen db =
    After-throw_when (Passes seen (x ∷ xs) db) _ _ _ db λ free.
      After-map (Passes (x.payment_method_id ∷ seen) xs db) (Passes seen (x ∷ xs) db) _
        (λ u d p. (
          p.0,
          λ id. elim (Bool-cases (x.payment_method_id == id)) [
            | inl own ↦
                let later =
                  p.2 id (
                    let back : (id == x.payment_method_id) ≡ true = ground arith in rw back refl) in
                rw (own, later) (omega arith)
            | inr other ↦ rw other (p.1 id)
          ],
          λ id h. elim (Bool-cases (x.payment_method_id == id)) [
            | inl own ↦
                let e : x.payment_method_id ≡ id = (==_iff _ _).0 own in
                let in_seen : includes x.payment_method_id seen ≡ true = rw e h in
                let not_in : includes x.payment_method_id seen ≡ false = free in cc
            | inr other ↦ rw other (p.2 id (rw h (ground arith)))
          ],
        ))
        (check_duplicates-IsDistinct xs (x.payment_method_id ∷ seen) db)
