-- ===== src/Money/Digits.antt =====
-- packages/config/src/money.ts: decimal digits, printed and read.
use pulso_crm.Prelude.{
  ℕ, zero, suc, ◌+◌, ◌-◌, ◌*◌, ◌/◌, ◌%◌, ◌≤◌, ◌<◌, ◌≡◌, refl, ◌∙◌, true, [], ◌∷◌, ◌++◌, ltb, length,
  arith, Bool-cases, inl, inr, ltb→lt, lt→ltb, ltb_false→le,
}
use pulso_crm.Money.{Text, is_digit, all_digits, big_int, print}

pub big_int-append :
    (acc : ℕ) (xs : Text) (y : ℕ) → big_int acc (xs ++ y ∷ []) ≡ big_int acc xs * 10 + (y - b'0')
unfolding big_int
big_int-append acc [] y = refl
big_int-append acc (x ∷ xs) y = big_int-append (acc * 10 + (x - b'0')) xs y

pub all_digits-append :
    (xs : Text) (y : ℕ)
    → all_digits xs ≡ true
    → is_digit y ≡ true
    → all_digits (xs ++ y ∷ []) ≡ true
unfolding all_digits
all_digits-append [] y h k = rw k refl
all_digits-append (x ∷ xs) y h k = ground (arith, all_digits-append xs y)

pub length-append : (xs : Text) (y : ℕ) → length (xs ++ y ∷ []) ≡ length xs + 1
length-append [] y = omega arith
length-append (x ∷ xs) y = omega (arith, length-append xs y)

abbrev pub pow10 : ℕ → ℕ
pow10 zero = 1
pow10 (suc k) = 10 * pow10 k

-- What is printed with enough fuel: digits, at least one, that read as the number.
pub record Prints (n : ℕ) (t : Text) : Type 0 where
  pub digits : all_digits t ≡ true
  pub reads : big_int 0 t ≡ n
  pub some_digit : 1 ≤ length t

one_digit : (n : ℕ) → n < 10 → Prints n ((b'0' + n) ∷ [])
unfolding all_digits big_int
one_digit n h = record { digits = ground arith; reads = omega arith; some_digit = omega arith }

pub print-Prints : (fuel n : ℕ) → n < fuel → Prints n (print fuel n)
unfolding print
print-Prints zero n h = absurd (omega arith)
print-Prints (suc fuel) n h = elim (Bool-cases (ltb n 10)) [
  | inl small ↦ rw small (one_digit n (ltb→lt n 10 small))
  | inr big ↦
      let ih = print-Prints fuel (n / 10) (ground arith) in
      rw big (record {
        digits = all_digits-append _ _ ih.digits (ground arith);
        reads = big_int-append 0 _ _ ∙ rw ih.reads (omega arith);
        some_digit = omega (arith, length-append (print fuel (n / 10)) (b'0' + n % 10));
      })
]

-- A number below a power of ten has at most so many digits.
pub length-print : (fuel n k : ℕ) → n < fuel → n < pow10 (suc k) → length (print fuel n) ≤ suc k
unfolding print
length-print zero n k h m = absurd (omega arith)
length-print (suc fuel) n zero h m = rw (lt→ltb n 10 m) (omega arith)
length-print (suc fuel) n (suc k) h m = elim (Bool-cases (ltb n 10)) [
  | inl small ↦ rw small (omega arith)
  | inr big ↦
      let large = ltb_false→le n 10 big in
      rw big (
        omega (
          arith,
          length-append (print fuel (n / 10)) (b'0' + n % 10),
          length-print fuel (n / 10) k (omega (arith, h, large)) (omega (arith, m)),
        ))
]
