-- ===== src/Money/RoundTrip.antt =====
-- packages/config/src/money.ts: `toCents` after `fromCents`.
use pulso_crm.Prelude.{
  ℕ, zero, suc, ◌+◌, ◌*◌, ◌/◌, ◌%◌, ◌^◌, ◌≤◌, ◌<◌, ◌≡◌, refl, ap, ◌∙◌, true, false, [], ◌∷◌, ◌++◌,
  ◌==◌, ltb, length, arith, Bool-cases, inl, inr, ltb→lt, lt→ltb, ltb_false→le, le→ltb_false, ok,
}
use pulso_crm.Prelude.Int.{ℤ, pos, negsuc, neg, ltb_ℤ}
use pulso_crm.Money.{
  Text, is_digit, leading_digits, after_digits, all_digits, is_fraction, is_unsigned, is_negative,
  unsigned, is_money_string, before_dot, after_dot, big_int, pad_start, cents_of, to_cents, print,
  to_string, abs, from_cents,
}
use pulso_crm.Money.Digits.{print-Prints, length-print}

print_small : (fuel n : ℕ) → 0 < fuel → n < 10 → print fuel n ≡ (b'0' + n) ∷ []
unfolding print
print_small zero n p h = absurd (omega arith)
print_small (suc fuel) n p h = rw (lt→ltb n 10 h) refl

print_big : (fuel n : ℕ) → 10 ≤ n → print (suc fuel) n ≡ print fuel (n / 10) ++ (b'0' + n % 10) ∷ []
unfolding print
print_big fuel n h = rw (le→ltb_false n 10 h) refl

-- The two places of the cents.
two_places : (f : ℕ) → f < 100 → pad_start (to_string f) ≡ (b'0' + f / 10) ∷ (b'0' + f % 10) ∷ []
unfolding to_string
two_places f h = elim (Bool-cases (ltb f 10)) [
  | inl small ↦
      let one = ltb→lt f 10 small in
      ap pad_start (print_small (f + 1) f (omega arith) one) ∙ ground arith
  | inr big ↦
      let two = ltb_false→le f 10 big in
      let next : f + 1 ≡ suc f = omega arith in
      ap (λ k. pad_start (print k f)) next
      ∙ ap pad_start (
          print_big f f two
          ∙ ap (λ t. t ++ (b'0' + f % 10) ∷ [])
              (print_small f (f / 10) (omega (arith, two)) (omega (arith, h))))
]

-- A text of digits before a dot.
module _ (rest : Text) where
  leading_digits-append : (w : Text) → all_digits w ≡ true → leading_digits (w ++ b'.' ∷ rest) ≡ w
  unfolding leading_digits all_digits
  leading_digits-append [] h = refl
  leading_digits-append (c ∷ w) h = elim (Bool-cases (is_digit c)) [
    | inl d ↦ rw d (ap (λ t. c ∷ t) (leading_digits-append w (rw d at h)))
    | inr d ↦ cc (rw d at h)
  ]

  after_digits-append :
      (w : Text) → all_digits w ≡ true → after_digits (w ++ b'.' ∷ rest) ≡ b'.' ∷ rest
  unfolding after_digits all_digits
  after_digits-append [] h = refl
  after_digits-append (c ∷ w) h = elim (Bool-cases (is_digit c)) [
    | inl d ↦ rw d (after_digits-append w (rw d at h))
    | inr d ↦ cc (rw d at h)
  ]

  not_dot : (c : ℕ) → is_digit c ≡ true → (c == b'.') ≡ false
  not_dot c h = ground arith

  before_dot-append : (w : Text) → all_digits w ≡ true → before_dot (w ++ b'.' ∷ rest) ≡ w
  unfolding before_dot all_digits
  before_dot-append [] h = refl
  before_dot-append (c ∷ w) h = elim (Bool-cases (is_digit c)) [
    | inl d ↦ rw (not_dot c d) (ap (λ t. c ∷ t) (before_dot-append w (rw d at h)))
    | inr d ↦ cc (rw d at h)
  ]

  after_dot-append :
      (w : Text) → all_digits w ≡ true → after_dot (w ++ b'.' ∷ rest) ≡ before_dot rest
  unfolding after_dot all_digits
  after_dot-append [] h = refl
  after_dot-append (c ∷ w) h = elim (Bool-cases (is_digit c)) [
    | inl d ↦ rw (not_dot c d) (after_dot-append w (rw d at h))
    | inr d ↦ cc (rw d at h)
  ]

-- A text that begins with a digit has no sign.
begins_with_digit :
    (w rest : Text)
    → all_digits w ≡ true
    → 1 ≤ length w
    → (is_negative (w ++ rest) ≡ false) × (unsigned (w ++ rest) ≡ w ++ rest)
unfolding all_digits
begins_with_digit [] rest h l = absurd (omega arith)
begins_with_digit (c ∷ w) rest h l = elim (Bool-cases (is_digit c)) [
  | inl d ↦ let plain : (c == b'-') ≡ false = ground arith in (plain, rw plain refl)
  | inr d ↦ cc (rw d at h)
]

-- A whole number of at most twelve digits and two places: the text is accepted and read.
read_unsigned :
    (w : Text) (d e : ℕ)
    → all_digits w ≡ true
    → 1 ≤ length w
    → length w ≤ 12
    → d < 10
    → e < 10
    → let u = w ++ b'.' ∷ (b'0' + d) ∷ (b'0' + e) ∷ [] in
      (is_unsigned u ≡ true) × (cents_of u ≡ big_int 0 w * 100 + (d * 10 + e))
unfolding is_unsigned is_fraction all_digits cents_of before_dot big_int
read_unsigned w d e h low high hd he =
    let places = (b'0' + d) ∷ (b'0' + e) ∷ [] in
    (
      rw (leading_digits-append places w h) (rw (after_digits-append places w h) (ground arith)),
      rw (before_dot-append places w h) (rw (after_dot-append places w h) (ground arith)),
    )

-- The text of an amount without its sign.
abbrev unsigned_text : ℕ → Text
unsigned_text n = to_string (n / 100) ++ b'.' ∷ pad_start (to_string (n % 100))

read_unsigned_text :
    (n : ℕ)
    → n < 10 ^ 14
    → (is_unsigned (unsigned_text n) ≡ true)
      × (cents_of (unsigned_text n) ≡ n)
      × (is_negative (unsigned_text n) ≡ false)
      × (unsigned (unsigned_text n) ≡ unsigned_text n)
unfolding to_string
read_unsigned_text n h =
    let w = print (n / 100 + 1) (n / 100) in
    let p = print-Prints (n / 100 + 1) (n / 100) (omega arith) in
    let short = length-print (n / 100 + 1) (n / 100) 11 (omega arith) (omega arith) in
    let d = n % 100 / 10 in
    let e = n % 100 % 10 in
    let places = two_places (n % 100) (omega arith) in
    let (accepted, value) =
      read_unsigned w d e p.digits p.some_digit short (omega arith) (omega arith) in
    let (plain, whole) =
      begins_with_digit w (b'.' ∷ (b'0' + d) ∷ (b'0' + e) ∷ []) p.digits p.some_digit in
    rw places (accepted, value ∙ rw p.reads (omega arith), plain, whole)

below_zero : (c : ℤ) → ltb_ℤ c (pos 0) ≡ true → neg (pos (abs c)) ≡ c
unfolding neg
below_zero (pos n) h = ground arith
below_zero (negsuc n) h = ground arith

not_below : (c : ℤ) → ltb_ℤ c (pos 0) ≡ false → pos (abs c) ≡ c
not_below (pos n) h = ground arith
not_below (negsuc n) h = ground arith

-- `toCents` reads what `fromCents` writes, for every amount of at most twelve digits before the point;
-- the sign is kept.
pub to_cents-from_cents : (c : ℤ) → abs c < 10 ^ 14 → to_cents (from_cents c) ≡ ok c
unfolding to_cents from_cents is_money_string
to_cents-from_cents c h =
    let (accepted, value, plain, whole) = read_unsigned_text (abs c) h in
    elim (Bool-cases (ltb_ℤ c (pos 0))) [
      | inl below ↦ rw below (rw accepted (rw value (ap ok (below_zero c below))))
      | inr above ↦
          rw above (rw whole (rw plain (rw accepted (rw value (ap ok (not_below c above))))))
    ]
