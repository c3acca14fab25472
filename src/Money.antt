-- ===== src/Money.antt =====
-- packages/config/src/money.ts: amounts as decimal strings of two places. A string is the list of its
-- character codes, `BigInt` is ℤ, and what `BigInt(…)` and `toString()` do with decimal digits is
-- written out.
pub mod Digits
pub mod RoundTrip
pub mod Bounds
mod Tests
use pulso_crm.Prelude.{
  ℕ, zero, suc, ◌+◌, ◌-◌, ◌*◌, ◌/◌, ◌%◌, Bool, true, false, List, [], ◌∷◌, ◌++◌, ◌==◌, ◌&&◌, ltb,
  leb, if◌then◌else◌, length, Result, ok, err, ◌>>=◌, failure,
}
use pulso_crm.Prelude.Int.{ℤ, pos, negsuc, ◌+ℤ◌, ◌-ℤ◌, ◌*ℤ◌, neg, ltb_ℤ, leb_ℤ, pos_part, neg_part}

abbrev pub Text : Type 0
Text = List ℕ

abbrev pub is_digit : ℕ → Bool
is_digit c = leb b'0' c && leb c b'9'

-- The digits that the text begins with, and the rest.
unfoldable pub leading_digits : Text → Text
leading_digits [] = []
leading_digits (c ∷ cs) = if is_digit c then c ∷ leading_digits cs else []

unfoldable pub after_digits : Text → Text
after_digits [] = []
after_digits (c ∷ cs) = if is_digit c then after_digits cs else c ∷ cs

unfoldable pub all_digits : Text → Bool
all_digits [] = true
all_digits (c ∷ cs) = is_digit c && all_digits cs

abbrev pub has_length : ℕ → ℕ → Text → Bool
has_length low high t = leb low (length t) && leb (length t) high

-- `(\.\d{1,2})?$`.
unfoldable pub is_fraction : Text → Bool
is_fraction [] = true
is_fraction (c ∷ f) = (c == b'.') && (has_length 1 2 f && all_digits f)

-- `\d{1,12}(\.\d{1,2})?$`.
unfoldable pub is_unsigned : Text → Bool
is_unsigned u = has_length 1 12 (leading_digits u) && is_fraction (after_digits u)

-- `value.startsWith('-')`.
abbrev pub is_negative : Text → Bool
is_negative [] = false
is_negative (c ∷ cs) = c == b'-'

-- `negative ? value.slice(1) : value`.
abbrev pub unsigned : Text → Text
unsigned [] = []
unsigned (c ∷ cs) = if c == b'-' then cs else c ∷ cs

-- `isMoneyString`.
unfoldable pub is_money_string : Text → Bool
is_money_string value = is_unsigned (unsigned value)

-- The first two parts of `unsigned.split('.')`.
unfoldable pub before_dot : Text → Text
before_dot [] = []
before_dot (c ∷ cs) = if c == b'.' then [] else c ∷ before_dot cs

unfoldable pub after_dot : Text → Text
after_dot [] = []
after_dot (c ∷ cs) = if c == b'.' then before_dot cs else after_dot cs

-- `BigInt(digits)`, where `acc` has been read.
unfoldable pub big_int : ℕ → Text → ℕ
big_int acc [] = acc
big_int acc (c ∷ cs) = big_int (acc * 10 + (c - b'0')) cs

-- `frac.padEnd(2, '0')` and `frac.padStart(2, '0')`.
abbrev pub pad_end : Text → Text
pad_end [] = b'0' ∷ b'0' ∷ []
pad_end (a ∷ []) = a ∷ b'0' ∷ []
pad_end (a ∷ b ∷ rest) = a ∷ b ∷ rest

abbrev pub pad_start : Text → Text
pad_start [] = b'0' ∷ b'0' ∷ []
pad_start (a ∷ []) = b'0' ∷ a ∷ []
pad_start (a ∷ b ∷ rest) = a ∷ b ∷ rest

unfoldable pub cents_of : Text → ℕ
cents_of u = big_int 0 (before_dot u) * 100 + big_int 0 (pad_end (after_dot u))

abbrev pub signed : Bool → ℕ → ℤ
signed true cents = neg (pos cents)
signed false cents = pos cents

-- `toCents`.
unfoldable pub to_cents : Text → Result ℤ
to_cents value =
    if is_money_string value
    then ok (signed (is_negative value) (cents_of (unsigned value)))
    else err failure

-- `toString()`, with fuel: a number has fewer digits than it counts.
unfoldable pub print : ℕ → ℕ → Text
print zero n = []
print (suc fuel) n =
    let rest = print fuel (n / 10) ++ (b'0' + n % 10) ∷ [] in
    if ltb n 10 then (b'0' + n) ∷ [] else rest

unfoldable pub to_string : ℕ → Text
to_string n = print (n + 1) n

abbrev pub abs : ℤ → ℕ
abs a = pos_part a + neg_part a

abbrev pub sign_text : ℤ → Text
sign_text c = if ltb_ℤ c (pos 0) then b'-' ∷ [] else []

-- `fromCents`.
unfoldable pub from_cents : ℤ → Text
from_cents cents =
    sign_text cents
    ++ (to_string (abs cents / 100) ++ b'.' ∷ pad_start (to_string (abs cents % 100)))

unfoldable pub normalize_money : Text → Result Text
normalize_money value = do c ← to_cents value; ok (from_cents c)

unfoldable pub add_money : Text → Text → Result Text
add_money a b = do x ← to_cents a; y ← to_cents b; ok (from_cents (x +ℤ y))

unfoldable pub sub_money : Text → Text → Result Text
sub_money a b = do x ← to_cents a; y ← to_cents b; ok (from_cents (x -ℤ y))

-- The `reduce` of `sumMoney`.
unfoldable pub sum_cents : ℤ → List Text → Result ℤ
sum_cents acc [] = ok acc
sum_cents acc (v ∷ vs) = do c ← to_cents v; sum_cents (acc +ℤ c) vs

unfoldable pub sum_money : List Text → Result Text
sum_money values = do c ← sum_cents (pos 0) values; ok (from_cents c)

-- `compareMoney`: -1, 0 or 1.
unfoldable pub compare_money : Text → Text → Result ℤ
compare_money a b = do
  ca ← to_cents a
  cb ← to_cents b
  ok (if ltb_ℤ ca cb then negsuc 0 else if ltb_ℤ cb ca then pos 1 else pos 0)

unfoldable pub negate_money : Text → Result Text
negate_money v = do c ← to_cents v; ok (from_cents (neg c))

unfoldable pub abs_money : Text → Result Text
abs_money v = do c ← to_cents v; ok (from_cents (pos (abs c)))

-- `multiplyMoneyByInt`, for a quantity that is a safe integer.
unfoldable pub multiply_money_by_int : Text → ℤ → Result Text
multiply_money_by_int value qty = do c ← to_cents value; ok (from_cents (c *ℤ qty))
