-- ===== src/Bigamount/RoundTrip.antt =====
-- The decimal text of an amount, printed and read back (pkg/bigamount/amount.go).
use fincore_ledger.Prelude.{
  ℕ, zero, suc, ◌+◌, ◌-◌, ◌*◌, ◌/◌, ◌%◌, ◌≤◌, ◌<◌, ◌≡◌, ap, ◌∙◌, ByteString, some, [], ◌∷◌, ◌++◌,
  arith, ltb, Bool-cases, inl, inr, ltb→lt,
}
use fincore_ledger.Prelude.Int.{ℤ, pos, negsuc}
use fincore_ledger.Bigamount.{digits, to_string, read_digits, read_nat, negated, from_string}

read_digits-append :
    (acc : ℕ) (s t : ByteString) (n : ℕ)
    → read_digits acc s ≡ some n
    → read_digits acc (s ++ t) ≡ read_digits n t
unfolding read_digits
read_digits-append acc [] t n h = ground arith
read_digits-append acc (c ∷ s) t n h =
    ground (arith, read_digits-append (acc * 10 + (c - b'0')) s t n)

read_digit : (acc d : ℕ) → d < 10 → read_digits acc ((b'0' + d) ∷ []) ≡ some (acc * 10 + d)
unfolding read_digits
read_digit acc d h = ground arith

read_digits-digits : (fuel n : ℕ) → n ≤ fuel → read_digits 0 (digits fuel n) ≡ some n
unfolding digits
read_digits-digits zero n h = ground (arith, read_digit 0 (n % 10))
read_digits-digits (suc fuel) n h = elim (Bool-cases (ltb n 10)) [
  | inl small ↦ rw small (ground (arith, read_digit 0 n, ltb→lt n 10 small))
  | inr large ↦ rw large (
      read_digits-append 0 (digits fuel (n / 10)) ((b'0' + n % 10) ∷ []) (n / 10)
        (read_digits-digits fuel (n / 10) (ground arith))
      ∙ ground (arith, read_digit (n / 10) (n % 10)))
]

-- The first byte of a printed number is a digit, so no sign.
abbrev Starts : ByteString → Type 0
Starts [] = ⊥
Starts (c ∷ s) = (b'0' ≤ c) × (c ≤ b'9')

Starts-append : (s t : ByteString) → Starts s → Starts (s ++ t)
Starts-append [] t h = absurd h
Starts-append (c ∷ s) t h = h

digits-Starts : (fuel n : ℕ) → Starts (digits fuel n)
unfolding digits
digits-Starts zero n = omega arith
digits-Starts (suc fuel) n = elim (Bool-cases (ltb n 10)) [
  | inl small ↦ rw small (omega (arith, ltb→lt n 10 small))
  | inr large ↦ rw large (Starts-append (digits fuel (n / 10)) _ (digits-Starts fuel (n / 10)))
]

from_string_unsigned :
    (s : ByteString) {n : ℕ} → Starts s → read_digits 0 s ≡ some n → from_string s ≡ some (pos n)
unfolding from_string read_nat
from_string_unsigned [] h e = absurd h
from_string_unsigned (c ∷ s) h e = ground arith

from_string_negative :
    (s : ByteString) {n : ℕ}
    → Starts s
    → read_digits 0 s ≡ some (suc n)
    → from_string (b'-' ∷ s) ≡ some (negsuc n)
unfolding from_string read_nat negated
from_string_negative [] h e = absurd h
from_string_negative (c ∷ s) h e = ground arith

-- Reading the decimal text of an amount gives the amount back, whatever its sign.
pub from_string-to_string : (a : ℤ) → from_string (to_string a) ≡ some a
unfolding to_string
from_string-to_string (pos n) =
    from_string_unsigned (digits n n) (digits-Starts n n) (read_digits-digits n n (omega arith))
from_string-to_string (negsuc n) =
    from_string_negative (digits (n + 1) (n + 1)) (digits-Starts (n + 1) (n + 1))
      (read_digits-digits (n + 1) (n + 1) (omega arith) ∙ ap some (omega arith))
