-- ===== src/Money/Tests.antt =====
-- Amounts as the program writes them.
use pulso_crm.Prelude.{
  ℕ, ◌+◌, ◌^◌, ◌<◌, ◌≡◌, refl, List, [], ◌∷◌, Result, ok, err, failure, ◌>>=◌, arith,
}
use pulso_crm.Prelude.Int.{ℤ, pos, negsuc, ◌+ℤ◌, ◌-ℤ◌, neg}
use pulso_crm.Money.{
  Text, to_cents, from_cents, normalize_money, add_money, sub_money, sum_money, compare_money,
  negate_money, multiply_money_by_int, abs, leading_digits, after_digits, all_digits, is_fraction,
  is_unsigned, is_money_string, before_dot, after_dot, big_int, cents_of, print, to_string,
}
use pulso_crm.Money.RoundTrip.{to_cents-from_cents}
use pulso_crm.Money.Bounds.{total, Reads, to_cents_bounds, sum_money-total, add_money_exact}

-- `-1234.50`, `5` and `0.05`.
abbrev refund : Text
refund = b'-' ∷ b'1' ∷ b'2' ∷ b'3' ∷ b'4' ∷ b'.' ∷ b'5' ∷ b'0' ∷ []

abbrev five : Text
five = b'5' ∷ []

abbrev five_cents : Text
five_cents = b'0' ∷ b'.' ∷ b'0' ∷ b'5' ∷ []

read_refund : to_cents refund ≡ ok (negsuc 123449)
unfolding leading_digits after_digits all_digits is_fraction is_unsigned is_money_string before_dot
    after_dot big_int cents_of to_cents neg
read_refund = refl

write_refund : from_cents (negsuc 123449) ≡ refund
unfolding print to_string from_cents
write_refund = refl

normalize_five : normalize_money five ≡ ok (b'5' ∷ b'.' ∷ b'0' ∷ b'0' ∷ [])
unfolding leading_digits after_digits is_fraction is_unsigned is_money_string before_dot after_dot
    big_int cents_of to_cents print to_string from_cents pulso_crm.Money.normalize_money
normalize_five = refl

-- Three places, an exponent and the empty string are refused.
refused :
    (to_cents (b'1' ∷ b'.' ∷ b'0' ∷ b'0' ∷ b'0' ∷ []) ≡ err failure)
    × (to_cents (b'1' ∷ b'e' ∷ b'3' ∷ []) ≡ err failure)
    × (to_cents [] ≡ err failure)
unfolding leading_digits after_digits is_fraction is_unsigned is_money_string to_cents
refused = (refl, refl, refl)

multiplied : multiply_money_by_int refund (pos 2) ≡ ok (from_cents (negsuc 246899))
unfolding leading_digits after_digits all_digits is_fraction is_unsigned is_money_string before_dot
    after_dot big_int cents_of to_cents pulso_crm.Money.multiply_money_by_int
    pulso_crm.Prelude.Int.◌*ℤ◌ neg
multiplied = refl

compared : compare_money refund five ≡ ok (negsuc 0)
unfolding leading_digits after_digits all_digits is_fraction is_unsigned is_money_string before_dot
    after_dot big_int cents_of to_cents pulso_crm.Money.compare_money neg
compared = refl

-- The sum of two accepted amounts may be a string that is not accepted.
abbrev most : ℤ
most = pos 99999999999999

too_large :
    ((add_money (from_cents most) five_cents) ≡ ok (from_cents (pos 100000000000004)))
    × ((add_money (from_cents most) five_cents >>= to_cents) ≡ err failure)
unfolding leading_digits after_digits all_digits is_fraction is_unsigned is_money_string before_dot
    after_dot big_int cents_of to_cents print to_string from_cents pulso_crm.Money.add_money ◌+ℤ◌
too_large = (refl, refl)

to_cents-from_cents_example : to_cents (from_cents (negsuc 4)) ≡ ok (negsuc 4)
to_cents-from_cents_example = to_cents-from_cents (negsuc 4) (omega arith)

to_cents_bounds_example :
    (abs (negsuc 123449) < 10 ^ 14) × (to_cents (from_cents (negsuc 123449)) ≡ ok (negsuc 123449))
to_cents_bounds_example = to_cents_bounds refund read_refund

read_five : to_cents five ≡ ok (pos 500)
unfolding leading_digits after_digits is_fraction is_unsigned is_money_string before_dot after_dot
    big_int cents_of to_cents
read_five = refl

amounts-Reads : Reads (refund ∷ five ∷ []) (negsuc 123449 ∷ pos 500 ∷ [])
unfolding Reads
amounts-Reads = (read_refund, (read_five, tt))

two_total : abs (total (negsuc 123449 ∷ pos 500 ∷ [])) < 10 ^ 14
unfolding total ◌+ℤ◌
two_total = omega arith

sum_money-total_example :
    (sum_money (refund ∷ five ∷ []) >>= to_cents) ≡ ok (total (negsuc 123449 ∷ pos 500 ∷ []))
sum_money-total_example =
    sum_money-total (refund ∷ five ∷ []) (negsuc 123449 ∷ pos 500 ∷ []) amounts-Reads two_total

small_sum : abs (negsuc 123449 +ℤ pos 500) < 10 ^ 14
unfolding ◌+ℤ◌
small_sum = omega arith

small_difference : abs (negsuc 123449 -ℤ pos 500) < 10 ^ 14
unfolding ◌-ℤ◌
small_difference = omega arith

add_money_exact_example :
    ((add_money refund five >>= to_cents) ≡ ok (negsuc 123449 +ℤ pos 500))
    × ((sub_money refund five >>= to_cents) ≡ ok (negsuc 123449 -ℤ pos 500))
    × ((negate_money refund >>= to_cents) ≡ ok (neg (negsuc 123449)))
add_money_exact_example =
    add_money_exact refund five (negsuc 123449) (pos 500) read_refund read_five small_sum
      small_difference
