-- ===== src/Strtonum/Decimal.antt =====
-- strtonum (include/libndt/internal/sys.hpp) on a string of decimal digits.
use libndt.Io.{ok}
use libndt.Prelude.{
  All, [], arith, false, ltb, refl, true, ℕ, ◌*◌, ◌+◌, ◌-◌, ◌<◌, ◌==◌, ◌^◌, ◌∷◌, ◌≡◌, ◌≤◌,
}
use libndt.Prelude.Bytes.{Bytes}
use libndt.Strtonum.{
  above, below, c_str, clamp, digits_from, is_digit, is_empty, is_space, llong_max, magnitude_of,
  signed_from, skip_spaces, starts_with_digit, strtoll, strtonum,
}

abbrev pub IsDigit : ℕ → Type 0
IsDigit c = (b'0' ≤ c) × (c ≤ b'9')

-- The number that digits write, behind digits that write `acc`.
unfoldable pub decimal_value : ℕ → Bytes → ℕ
decimal_value acc [] = acc
decimal_value acc (d ∷ ds) = decimal_value (acc * 10 + (d - b'0')) ds

is_digit-IsDigit : (c : ℕ) → IsDigit c → is_digit c ≡ true
unfolding is_digit
is_digit-IsDigit c h = ground arith

c_str-digits : (ds : Bytes) → All IsDigit ds → c_str ds ≡ ds
unfolding c_str
c_str-digits [] h = refl
c_str-digits (d ∷ ds) h =
    let e : (d == 0) ≡ false = ground arith in rw (e, c_str-digits ds h.1) refl

digits_from-digits :
    (acc : ℕ) (ds : Bytes) → All IsDigit ds → digits_from acc ds ≡ (decimal_value acc ds, [])
unfolding digits_from decimal_value
digits_from-digits acc [] h = refl
digits_from-digits acc (d ∷ ds) h =
    rw (is_digit-IsDigit d h.0) (digits_from-digits (acc * 10 + (d - b'0')) ds h.1)

-- The number is read as it is written, whichever its leading zeros.
strtoll-digits :
    (d : ℕ) (ds : Bytes)
    → All IsDigit (d ∷ ds)
    → decimal_value 0 (d ∷ ds) ≤ llong_max
    → strtoll (d ∷ ds) ≡ record {
      value = record { negative = false; magnitude = decimal_value 0 (d ∷ ds) };
      erange = false;
      moved = true;
      ep = [];
    }
unfolding strtoll skip_spaces is_space signed_from magnitude_of starts_with_digit clamp
    decimal_value
strtoll-digits d ds h small =
    let space : is_space d ≡ false = ground arith in
    let minus : (d == b'-') ≡ false = ground arith in
    let plus : (d == b'+') ≡ false = ground arith in
    let fits : ltb llong_max (decimal_value 0 (d ∷ ds)) ≡ false = ground arith in
    rw
      (space, minus, plus, is_digit-IsDigit d h.0, digits_from-digits (0 + (d - b'0')) ds h.1, fits)
      refl

-- Decimal digits whose value lies within the bounds, and in a long long, are read as that value.
pub strtonum-digits :
    (d : ℕ) (ds : Bytes) (minval maxval : ℕ)
    → All IsDigit (d ∷ ds)
    → minval ≤ decimal_value 0 (d ∷ ds)
    → decimal_value 0 (d ∷ ds) ≤ maxval
    → maxval < 2 ^ 63
    → strtonum (d ∷ ds) minval maxval ≡ ok (decimal_value 0 (d ∷ ds))
unfolding strtonum below above is_empty
strtonum-digits d ds minval maxval h low high small =
    let range : ltb maxval minval ≡ false = ground arith in
    let not_low : ltb (decimal_value 0 (d ∷ ds)) minval ≡ false = ground arith in
    let not_high : ltb maxval (decimal_value 0 (d ∷ ds)) ≡ false = ground arith in
    rw (range, c_str-digits (d ∷ ds) h, strtoll-digits d ds h (omega arith), not_low, not_high) refl
