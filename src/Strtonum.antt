-- ===== src/Strtonum.antt =====
-- include/libndt/internal/sys.hpp: strtonum, and the strtoll of the C library that it calls.
pub mod Bounds
pub mod Decimal
use libndt.Io.{Result, err, ok}
use libndt.Prelude.{
  Bool, [], false, if◌then◌else◌, leb, ltb, not, true, ℕ, ◌&&◌, ◌*◌, ◌+◌, ◌-◌, ◌==◌, ◌^◌, ◌||◌, ◌∷◌,
}
use libndt.Prelude.Bytes.{Bytes}

-- A `long long` that strtoll returns: its sign and its magnitude.
pub record Signed : Type 0 where
  pub negative : Bool
  pub magnitude : ℕ

-- The characters before the terminating NUL of s.c_str().
pub c_str : Bytes → Bytes
c_str [] = []
c_str (c ∷ cs) = if c == 0 then [] else c ∷ c_str cs

pub is_space : ℕ → Bool
is_space c = c == 32 || (leb 9 c && leb c 13)

pub is_digit : ℕ → Bool
is_digit c = leb b'0' c && leb c b'9'

pub skip_spaces : Bytes → Bytes
unfolding is_space
skip_spaces [] = []
skip_spaces (c ∷ cs) = if is_space c then skip_spaces cs else c ∷ cs

-- The value of the leading digits, and what follows them.
pub digits_from : ℕ → Bytes → ℕ × Bytes
unfolding is_digit
digits_from acc [] = (acc, [])
digits_from acc (c ∷ cs) =
    if is_digit c then digits_from (acc * 10 + (c - b'0')) cs else (acc, c ∷ cs)

pub starts_with_digit : Bytes → Bool
unfolding is_digit
starts_with_digit [] = false
starts_with_digit (c ∷ cs) = is_digit c

abbrev pub llong_max : ℕ
llong_max = 2 ^ 63 - 1

-- What strtoll leaves behind: its value, whether errno is ERANGE, whether `ep` moved, and `ep`.
pub record Strtoll : Type 0 where
  pub value : Signed
  pub erange : Bool
  pub moved : Bool
  pub ep : Bytes

pub clamp : Bool → ℕ → Bytes → Strtoll
clamp true m rest =
    if ltb (2 ^ 63) m
    then record {
      value = record { negative = true; magnitude = 2 ^ 63 };
      erange = true;
      moved = true;
      ep = rest;
    }
    else record {
      value = record { negative = true; magnitude = m };
      erange = false;
      moved = true;
      ep = rest;
    }
clamp false m rest =
    if ltb llong_max m
    then record {
      value = record { negative = false; magnitude = llong_max };
      erange = true;
      moved = true;
      ep = rest;
    }
    else record {
      value = record { negative = false; magnitude = m };
      erange = false;
      moved = true;
      ep = rest;
    }

pub magnitude_of : Bool → Bytes → Bytes → Strtoll
unfolding starts_with_digit digits_from clamp
magnitude_of negative s cs =
    if starts_with_digit cs
    then clamp negative (digits_from 0 cs).0 (digits_from 0 cs).1
    else record {
      value = record { negative = false; magnitude = 0 };
      erange = false;
      moved = false;
      ep = s;
    }

pub signed_from : Bytes → Bytes → Strtoll
unfolding magnitude_of
signed_from s [] = magnitude_of false s []
signed_from s (c ∷ cs) =
    if c == b'-'
    then magnitude_of true s cs
    else if c == b'+'
    then magnitude_of false s cs
    else magnitude_of false s (c ∷ cs)

-- strtoll(s, &ep, 10)
pub strtoll : Bytes → Strtoll
unfolding signed_from skip_spaces
strtoll s = signed_from s (skip_spaces s)

pub data StrError : Type 0 where
  invalid_number too_small too_large : StrError

-- ll < bound and ll > bound, for a bound that is not negative.
pub below : Signed → ℕ → Bool
below ll bound =
    (ll.negative && (ltb 0 ll.magnitude || ltb 0 bound))
    || (not ll.negative && ltb ll.magnitude bound)

pub above : Signed → ℕ → Bool
above ll bound = not ll.negative && ltb bound ll.magnitude

pub is_empty : Bytes → Bool
is_empty [] = true
is_empty (c ∷ cs) = false

-- Every caller passes bounds that are not negative.
pub strtonum : Bytes → ℕ → ℕ → Result StrError ℕ
unfolding strtoll c_str below above is_empty
strtonum numstr minval maxval =
    if ltb maxval minval
    then err invalid_number
    else let r = strtoll (c_str numstr) in
      if not r.moved || not (is_empty r.ep)
      then err invalid_number
      else if (r.value.negative && r.erange) || below r.value minval
      then err too_small
      else if (not r.value.negative && r.erange) || above r.value maxval
      then err too_large
      else ok r.value.magnitude
