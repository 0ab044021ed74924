-- ===== src/Bigamount.antt =====
-- Amounts (pkg/bigamount/amount.go): integers with a decimal text, as big.Int prints and reads it.
pub mod RoundTrip
use fincore_ledger.Prelude.{
  ℕ, zero, suc, ◌+◌, ◌-◌, ◌*◌, ◌/◌, ◌%◌, ByteString, Bool, true, false, Option, none, some, List,
  [], ◌∷◌, ◌++◌, ◌&&◌, ◌==◌, leb, ltb, if◌then◌else◌,
}
use fincore_ledger.Prelude.Int.{ℤ, pos, negsuc, ◌+ℤ◌, ◌-ℤ◌, ltb_ℤ}

-- The decimal digits of `n`, most significant first; `fuel` rounds print any number up to `fuel`.
unfoldable pub digits : ℕ → ℕ → ByteString
digits zero n = (b'0' + n % 10) ∷ []
digits (suc fuel) n =
    let rest = digits fuel (n / 10) in
    if ltb n 10 then (b'0' + n) ∷ [] else rest ++ ((b'0' + n % 10) ∷ [])

-- `String`
unfoldable pub to_string : ℤ → ByteString
unfolding digits
to_string (pos n) = digits n n
to_string (negsuc n) = b'-' ∷ digits (n + 1) (n + 1)

unfoldable pub read_digits : ℕ → ByteString → Option ℕ
read_digits n [] = some n
read_digits n (c ∷ s) =
    let rest = read_digits (n * 10 + (c - b'0')) s in
    if leb b'0' c && leb c b'9' then rest else none

-- At least one digit.
unfoldable pub read_nat : ByteString → Option ℕ
unfolding read_digits
read_nat [] = none
read_nat (c ∷ s) = read_digits 0 (c ∷ s)

unfoldable pub negated : ℕ → ℤ
negated zero = pos 0
negated (suc n) = negsuc n

abbrev pub map_option : (ℕ → ℤ) → Option ℕ → Option ℤ
map_option f none = none
map_option f (some n) = some (f n)

-- `FromString`, `new(big.Int).SetString(s, 10)`: an optional sign and digits.
unfoldable pub from_string : ByteString → Option ℤ
unfolding read_nat negated
from_string [] = none
from_string (c ∷ s) =
    if c == b'-'
    then map_option negated (read_nat s)
    else if c == b'+'
    then map_option pos (read_nat s)
    else map_option pos (read_nat (c ∷ s))

unfoldable pub is_positive : ℤ → Bool
is_positive a = ltb_ℤ (pos 0) a

unfoldable pub is_negative : ℤ → Bool
is_negative a = ltb_ℤ a (pos 0)

unfoldable pub is_zero : ℤ → Bool
is_zero (pos n) = n == 0
is_zero (negsuc n) = false

unfoldable pub neg : ℤ → ℤ
neg a = pos 0 -ℤ a
