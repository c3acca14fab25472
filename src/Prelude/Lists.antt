-- ===== src/Prelude/Lists.antt =====
-- Lists as tables: measures, membership tests, and the reads and writes of a table.
use Prim.Native.Nat.{ℕ, suc, ◌+◌, ◌≤◌}
use mathlib.Core.Path.{◌≡◌, refl, ap, sym, subst}
use mathlib.Core.Logic.{inl, inr, ◌⊎◌}
use mathlib.Core.Bool.{Bool, true, false, ◌||◌}
use mathlib.Core.List.{List, [], ◌∷◌, ◌++◌}
use mathlib.Core.Option.{Option, none, some}
use native.Mathlib.Omega.{arith}
use pulso_crm.Prelude.Tests.{Bool-cases, ◌==◌, if◌then◌else◌, is_some}

module _ {ℓ} {A : Type ℓ} where
  abbrev pub length : List A → ℕ
  length [] = 0
  length (x ∷ xs) = suc (length xs)

  -- `findFirst({ where })`: the first row that fits.
  abbrev pub find_first : (A → Bool) → List A → Option A
  find_first p [] = none
  find_first p (x ∷ xs) = if p x then some x else find_first p xs

  -- `updateMany({ where, data })`.
  abbrev pub update_where : (A → Bool) → (A → A) → List A → List A
  update_where p f [] = []
  update_where p f (x ∷ xs) = (if p x then f x else x) ∷ update_where p f xs

  -- `findMany({ where })`.
  abbrev pub find_many : (A → Bool) → List A → List A
  find_many p [] = []
  find_many p (x ∷ xs) = if p x then x ∷ find_many p xs else find_many p xs

  -- `count({ where })`.
  abbrev pub count_where : (A → Bool) → List A → ℕ
  count_where p [] = 0
  count_where p (x ∷ xs) = if p x then suc (count_where p xs) else count_where p xs

module _ {ℓ κ} {A : Type ℓ} where
  abbrev pub All : (A → Type κ) → List A → Type κ
  All P [] = Unit
  All P (x ∷ xs) = P x × All P xs

-- `xs.includes(a)`.
abbrev pub includes : ℕ → List ℕ → Bool
includes a [] = false
includes a (x ∷ xs) = a == x || includes a xs

pub eq_of_some {ℓ} : {A : Type ℓ} {a b : A} → some a ≡ some b → a ≡ b
eq_of_some e = cc

module _ {ℓ} {A : Type ℓ} where
  pub find_first-fits : (p : A → Bool) (xs : List A) {a : A} → find_first p xs ≡ some a → p a ≡ true
  find_first-fits p [] e = cc
  find_first-fits p (x ∷ xs) e = elim (Bool-cases (p x)) [
    | inl h ↦ subst (λ y. p y ≡ true) (eq_of_some (rw h at e)) h
    | inr h ↦ find_first-fits p xs (rw h at e)
  ]

module _ {ℓ κ} {A : Type ℓ} (P : A → Type κ) where
  pub All-find_first :
      (p : A → Bool) (xs : List A) {a : A} → All P xs → find_first p xs ≡ some a → P a
  All-find_first p [] h e = cc
  All-find_first p (x ∷ xs) h e = elim (Bool-cases (p x)) [
    | inl k ↦ subst P (eq_of_some (rw k at e)) h.0
    | inr k ↦ All-find_first p xs h.1 (rw k at e)
  ]

  pub All-append : (xs : List A) {x : A} → All P xs → P x → All P (xs ++ x ∷ [])
  All-append [] h p = (p, tt)
  All-append (y ∷ xs) h p = (h.0, All-append xs h.1 p)

module _ {ℓ κ} {A : Type ℓ} (P Q : A → Type κ) where
  pub All-map : (xs : List A) → ((a : A) → P a → Q a) → All P xs → All Q xs
  All-map [] f h = tt
  All-map (x ∷ xs) f h = (f x h.0, All-map xs f h.1)

  -- A write keeps a property if it gives it to the rows that it changes.
  pub All-update_where :
      (p : A → Bool) (f : A → A) (xs : List A)
      → ((a : A) → p a ≡ true → P a → Q (f a))
      → ((a : A) → p a ≡ false → P a → Q a)
      → All P xs
      → All Q (update_where p f xs)
  All-update_where p f [] new old h = tt
  All-update_where p f (x ∷ xs) new old h = (
    elim (Bool-cases (p x)) [ inl e ↦ rw e (new x e h.0) | inr e ↦ rw e (old x e h.0) ],
    All-update_where p f xs new old h.1,
  )

pub All-Unit {ℓ} : {A : Type ℓ} (xs : List A) → All (λ (a : A). Unit {0}) xs
All-Unit [] = tt
All-Unit (x ∷ xs) = (tt, All-Unit xs)

module _ {ℓ} {A : Type ℓ} where
  -- What is found stays found when rows are added.
  pub find_first-append :
      (p : A → Bool) (xs ys : List A) {a : A}
      → find_first p xs ≡ some a
      → find_first p (xs ++ ys) ≡ some a
  find_first-append p [] ys e = cc
  find_first-append p (x ∷ xs) ys e = elim (Bool-cases (p x)) [
    | inl h ↦ rw h (rw h at e)
    | inr h ↦ rw h (find_first-append p xs ys (rw h at e))
  ]

  -- A write to the rows that a test finds is what the same test finds next, if it still fits.
  pub find_first-update_where :
      (p : A → Bool) (f : A → A) (xs : List A) {a : A}
      → ((x : A) → p x ≡ true → p (f x) ≡ true)
      → find_first p xs ≡ some a
      → find_first p (update_where p f xs) ≡ some (f a)
  find_first-update_where p f [] fits e = cc
  find_first-update_where p f (x ∷ xs) fits e = elim (Bool-cases (p x)) [
    | inl h ↦ rw h (rw (fits x h) (ap (λ y. some (f y)) (eq_of_some (rw h at e))))
    | inr h ↦ rw h (rw h (find_first-update_where p f xs fits (rw h at e)))
  ]

module _ {ℓ} {A : Type ℓ} (p : A → Bool) where
  pub count_where-append :
      (xs : List A) (x : A)
      → count_where p (xs ++ x ∷ []) ≡ count_where p xs + (if p x then 1 else 0)
  count_where-append [] x = elim (Bool-cases (p x)) [ inl h ↦ rw h refl | inr h ↦ rw h refl ]
  count_where-append (y ∷ xs) x = elim (Bool-cases (p y)) [
    | inl h ↦ rw h (rw (count_where-append xs x) (omega arith))
    | inr h ↦ rw h (count_where-append xs x)
  ]

  -- What is not found does not count.
  pub count_where-none : (xs : List A) → is_some (find_first p xs) ≡ false → count_where p xs ≡ 0
  count_where-none [] e = refl
  count_where-none (x ∷ xs) e = elim (Bool-cases (p x)) [
    | inl h ↦ cc (rw h at e)
    | inr h ↦ rw h (count_where-none xs (rw h at e))
  ]

  -- A write that makes no row fit leaves at most the rows that fitted.
  pub count_where-update_where :
      (q : A → Bool) (f : A → A) (xs : List A)
      → ((x : A) → p x ≡ false → p (f x) ≡ false)
      → count_where p (update_where q f xs) ≤ count_where p xs
  count_where-update_where q f [] keeps = omega arith
  count_where-update_where q f (x ∷ xs) keeps =
      let rest = count_where-update_where q f xs keeps in
      elim (Bool-cases (q x)) [
        | inr same ↦
            rw same (elim (Bool-cases (p x)) [ inl h ↦ rw h (omega arith) | inr h ↦ rw h rest ])
        | inl new ↦ rw new (elim (Bool-cases (p x)) [
          | inl h ↦ rw h (elim (Bool-cases (p (f x))) [
            | inl k ↦ rw k (omega arith)
            | inr k ↦ rw k (omega arith)
          ])
          | inr h ↦ rw (h, keeps x h) rest
        ])
      ]

module _ {ℓ} {A : Type ℓ} where
  -- A write to rows that do not fit before or after is not seen.
  pub find_first-update_other :
      (p q : A → Bool) (f : A → A) (xs : List A)
      → ((x : A) → q x ≡ true → (p x ≡ false) × (p (f x) ≡ false))
      → find_first p (update_where q f xs) ≡ find_first p xs
  find_first-update_other p q f [] apart = refl
  find_first-update_other p q f (x ∷ xs) apart = elim (Bool-cases (q x)) [
    | inl h ↦
        let (old, new) = apart x h in rw (h, old, new) (find_first-update_other p q f xs apart)
    | inr h ↦ rw h (elim (Bool-cases (p x)) [
      | inl k ↦ rw k refl
      | inr k ↦ rw k (find_first-update_other p q f xs apart)
    ])
  ]

-- What is found, after a write.
abbrev pub updated {ℓ} : {A : Type ℓ} → (A → Bool) → (A → A) → Option A → Option A
updated q f none = none
updated q f (some x) = some (if q x then f x else x)

module _ {ℓ} {A : Type ℓ} where
  -- A write that a test does not see is applied to what the test finds.
  pub find_first-update_kept :
      (p q : A → Bool) (f : A → A) (xs : List A)
      → ((x : A) → p (f x) ≡ p x)
      → find_first p (update_where q f xs) ≡ updated q f (find_first p xs)
  find_first-update_kept p q f [] kept = refl
  find_first-update_kept p q f (x ∷ xs) kept = elim (Bool-cases (q x)) [
    | inl h ↦ elim (Bool-cases (p x)) [
      | inl k ↦ rw (h, kept x, k) (ap some (rw h refl))
      | inr k ↦ rw (h, kept x, k) (find_first-update_kept p q f xs kept)
    ]
    | inr h ↦ elim (Bool-cases (p x)) [
      | inl k ↦ rw (h, k) (ap some (rw h refl))
      | inr k ↦ rw (h, k) (find_first-update_kept p q f xs kept)
    ]
  ]

  -- A row that is found once another has been added was there, or is the new one.
  pub find_first-append_cases :
      (p : A → Bool) (xs : List A) (y : A) {a : A}
      → find_first p (xs ++ y ∷ []) ≡ some a
      → (find_first p xs ≡ some a) ⊎ (a ≡ y)
  find_first-append_cases p [] y e = elim (Bool-cases (p y)) [
    | inl h ↦ inr (eq_of_some (sym (rw h at e)))
    | inr h ↦ cc (rw h at e)
  ]
  find_first-append_cases p (x ∷ xs) y e = elim (Bool-cases (p x)) [
    | inl h ↦ inl (rw h (rw h at e))
    | inr h ↦ rw h (find_first-append_cases p xs y (rw h at e))
  ]
