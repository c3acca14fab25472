-- ===== src/Money/Bounds.antt =====
-- packages/config/src/money.ts: what `toCents` accepts, and the arithmetic on the strings.
use pulso_crm.Prelude.{
  ℕ, zero, suc, ◌+◌, ◌-◌, ◌*◌, ◌^◌, ◌≤◌, ◌<◌, ◌≡◌, refl, ap, subst, ◌∙◌, Bool, true, false, List,
  [], ◌∷◌, ◌==◌, ◌&&◌, length, arith, Bool-cases, inl, inr, ok, ◌>>=◌, eq_of_ok,
}
use pulso_crm.Prelude.Int.{ℤ, pos, ◌+ℤ◌, ◌-ℤ◌, neg, int_laws}
use pulso_crm.Money.{
  Text, is_digit, leading_digits, after_digits, all_digits, has_length, is_fraction, is_unsigned,
  is_negative, unsigned, is_money_string, before_dot, after_dot, big_int, pad_end, cents_of, signed,
  to_cents, abs, from_cents, add_money, sub_money, sum_cents, sum_money, negate_money,
}
use pulso_crm.Money.Digits.{pow10}
use pulso_crm.Money.RoundTrip.{to_cents-from_cents}

step_bound : (acc d p v : ℕ) → d ≤ 9 → v < (acc * 10 + d + 1) * p → v < (acc + 1) * (10 * p)
step_bound acc d p v h k = grind arith

-- So many digits give a number below that power of ten.
big_int-lt :
    (acc : ℕ) (t : Text) → all_digits t ≡ true → big_int acc t < (acc + 1) * pow10 (length t)
unfolding big_int all_digits
big_int-lt acc [] h = omega arith
big_int-lt acc (c ∷ t) h = elim (Bool-cases (is_digit c)) [
  | inl d ↦
      step_bound acc (c - b'0') (pow10 (length t)) _ (ground arith)
        (big_int-lt (acc * 10 + (c - b'0')) t (rw d at h))
  | inr d ↦ cc (rw d at h)
]

leading_digits-all : (t : Text) → all_digits (leading_digits t) ≡ true
unfolding leading_digits all_digits
leading_digits-all [] = refl
leading_digits-all (c ∷ t) = elim (Bool-cases (is_digit c)) [
  | inl d ↦ rw d (rw d (leading_digits-all t))
  | inr d ↦ rw d refl
]

and_left : (a b : Bool) → (a && b) ≡ true → a ≡ true
and_left true b h = refl
and_left false b h = cc

and_right : (a b : Bool) → (a && b) ≡ true → b ≡ true
and_right true b h = h
and_right false b h = cc

-- Before the dot stand the leading digits.
before_dot-leading :
    (t : Text) → is_fraction (after_digits t) ≡ true → before_dot t ≡ leading_digits t
unfolding is_fraction after_digits before_dot leading_digits
before_dot-leading [] h = refl
before_dot-leading (c ∷ t) h = elim (Bool-cases (is_digit c)) [
  | inl d ↦
      let plain : (c == b'.') ≡ false = ground arith in
      rw (d, plain) (ap (λ x. c ∷ x) (before_dot-leading t (rw d at h)))
  | inr d ↦ let dot : (c == b'.') ≡ true = and_left _ _ (rw d at h) in rw (d, dot) refl
]

-- A digit is no dot, so a text of digits has no second part.
before_dot-digits : (t : Text) → all_digits t ≡ true → before_dot t ≡ t
unfolding before_dot all_digits
before_dot-digits [] h = refl
before_dot-digits (c ∷ t) h = elim (Bool-cases (is_digit c)) [
  | inl d ↦
      let plain : (c == b'.') ≡ false = ground arith in
      rw plain (ap (λ x. c ∷ x) (before_dot-digits t (rw d at h)))
  | inr d ↦ cc (rw d at h)
]

-- Two places read as a number below a hundred.
places-lt : (f : Text) → has_length 1 2 f ≡ true → all_digits f ≡ true → big_int 0 (pad_end f) < 100
unfolding all_digits big_int
places-lt [] n h = cc
places-lt (a ∷ []) n h = ground arith
places-lt (a ∷ b ∷ []) n h = ground arith
places-lt (a ∷ b ∷ c ∷ f) n h = ground arith

after_dot-lt :
    (t : Text) → is_fraction (after_digits t) ≡ true → big_int 0 (pad_end (after_dot t)) < 100
unfolding is_fraction after_digits after_dot big_int
after_dot-lt [] h = omega arith
after_dot-lt (c ∷ t) h = elim (Bool-cases (is_digit c)) [
  | inl d ↦ let plain : (c == b'.') ≡ false = ground arith in rw plain (after_dot-lt t (rw d at h))
  | inr d ↦
      let whole = rw d at h in
      let dot = and_left (c == b'.') (has_length 1 2 t && all_digits t) whole in
      let places = and_right (c == b'.') (has_length 1 2 t && all_digits t) whole in
      let digits = and_right (has_length 1 2 t) (all_digits t) places in
      rw dot (
        rw (before_dot-digits t digits)
          (places-lt t (and_left (has_length 1 2 t) (all_digits t) places) digits))
]

pow10-le : (k n : ℕ) → k ≤ n → pow10 k ≤ pow10 n
pow10-le zero zero h = omega arith
pow10-le zero (suc n) h = omega (arith, pow10-le zero n (omega arith))
pow10-le (suc k) zero h = absurd (omega arith)
pow10-le (suc k) (suc n) h = omega (arith, pow10-le k n (omega arith))

cents_of-lt : (u : Text) → is_unsigned u ≡ true → cents_of u < 10 ^ 14
unfolding is_unsigned cents_of
cents_of-lt u h =
    let sized = and_left (has_length 1 12 (leading_digits u)) (is_fraction (after_digits u)) h in
    let fraction =
      and_right (has_length 1 12 (leading_digits u)) (is_fraction (after_digits u)) h in
    let short : length (leading_digits u) ≤ 12 = ground arith in
    let whole = big_int-lt 0 (leading_digits u) (leading_digits-all u) in
    rw (before_dot-leading u fraction)
      (omega (arith, whole, pow10-le (length (leading_digits u)) 12 short, after_dot-lt u fraction))

abs-signed : (b : Bool) (n : ℕ) → abs (signed b n) ≡ n
unfolding neg
abs-signed true n = ground arith
abs-signed false n = omega arith

-- Every string that `toCents` accepts has fewer than 10^14 cents, so that `fromCents` and `toCents`
-- give its amount again.
pub to_cents_bounds :
    (t : Text) {c : ℤ} → to_cents t ≡ ok c → (abs c < 10 ^ 14) × (to_cents (from_cents c) ≡ ok c)
unfolding to_cents is_money_string
to_cents_bounds t {c} e = elim (Bool-cases (is_unsigned (unsigned t))) [
  | inl good ↦
      let value : signed (is_negative t) (cents_of (unsigned t)) ≡ c = eq_of_ok (rw good at e) in
      let small : abs c < 10 ^ 14 =
        subst (λ x. abs x < 10 ^ 14) value
          (rw (abs-signed (is_negative t) (cents_of (unsigned t)))
            (cents_of-lt (unsigned t) good)) in
      (small, to_cents-from_cents c small)
  | inr bad ↦ cc (rw bad at e)
]

-- What the strings of a list add up to.
unfoldable pub total : List ℤ → ℤ
total [] = pos 0
total (c ∷ cs) = c +ℤ total cs

-- The amounts that a list of strings stands for.
unfoldable pub Reads : List Text → List ℤ → Type 0
Reads [] [] = Unit
Reads (t ∷ ts) (c ∷ cs) = (to_cents t ≡ ok c) × Reads ts cs
Reads ts cs = ⊥

sum_cents-eq :
    (acc : ℤ) (ts : List Text) (cs : List ℤ) → Reads ts cs → sum_cents acc ts ≡ ok (acc +ℤ total cs)
unfolding sum_cents total Reads
sum_cents-eq acc [] [] h = ap ok (omega int_laws)
sum_cents-eq acc (t ∷ ts) (c ∷ cs) h =
    rw (h.0) (sum_cents-eq (acc +ℤ c) ts cs h.1 ∙ ap ok (omega int_laws))
sum_cents-eq acc [] (c ∷ cs) h = elim h [ ]
sum_cents-eq acc (t ∷ ts) [] h = elim h [ ]

-- If all strings of a list are accepted and their amounts add up to fewer than 10^14 cents, then
-- `sumMoney` gives a string that stands for exactly that sum, whatever the partial sums are.
pub sum_money-total :
    (ts : List Text) (cs : List ℤ)
    → Reads ts cs
    → abs (total cs) < 10 ^ 14
    → (sum_money ts >>= to_cents) ≡ ok (total cs)
unfolding sum_money
sum_money-total ts cs h small =
    let zero_plus : pos 0 +ℤ total cs ≡ total cs = omega int_laws in
    rw (sum_cents-eq (pos 0) ts cs h) (rw zero_plus (to_cents-from_cents (total cs) small))

abs-neg : (x : ℤ) → abs (neg x) ≡ abs x
unfolding neg
abs-neg x = ground arith

-- For two accepted strings whose sum and difference have fewer than 10^14 cents, the strings of
-- `addMoney`, `subMoney` and `negateMoney` stand for exactly the sum, the difference and the negated
-- first amount.
pub add_money_exact :
    (a b : Text) (x y : ℤ)
    → to_cents a ≡ ok x
    → to_cents b ≡ ok y
    → abs (x +ℤ y) < 10 ^ 14
    → abs (x -ℤ y) < 10 ^ 14
    → ((add_money a b >>= to_cents) ≡ ok (x +ℤ y))
      × ((sub_money a b >>= to_cents) ≡ ok (x -ℤ y))
      × ((negate_money a >>= to_cents) ≡ ok (neg x))
unfolding add_money negate_money sub_money
add_money_exact a b x y ea eb small apart =
    let turned : abs (neg x) < 10 ^ 14 = rw (abs-neg x) (to_cents_bounds a ea).0 in
    rw (ea) (
      rw eb (
        to_cents-from_cents (x +ℤ y) small,
        to_cents-from_cents (x -ℤ y) apart,
        to_cents-from_cents (neg x) turned,
      ))
