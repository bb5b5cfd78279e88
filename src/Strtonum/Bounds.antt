-- ===== src/Strtonum/Bounds.antt =====
-- strtonum (include/libndt/internal/sys.hpp): the bounds of the caller.
use libndt.Io.{Result, err, ok}
use libndt.Prelude.{Bool-cases, arith, if◌then◌else◌, inl, inr, ltb, not, ℕ, ◌&&◌, ◌||◌, ◌≡◌, ◌≤◌}
use libndt.Prelude.Bytes.{Bytes}
use libndt.Strtonum.{
  StrError, Strtoll, above, below, c_str, invalid_number, is_empty, strtoll, strtonum, too_large,
  too_small,
}

-- The tests that strtonum makes on what strtoll left behind.
checks : Strtoll → ℕ → ℕ → Result StrError ℕ
unfolding below above is_empty
checks r minval maxval =
    if not r.moved || not (is_empty r.ep)
    then err invalid_number
    else if (r.value.negative && r.erange) || below r.value minval
    then err too_small
    else if (not r.value.negative && r.erange) || above r.value maxval
    then err too_large
    else ok r.value.magnitude

checks-bounds :
    (r : Strtoll) (minval maxval n : ℕ)
    → checks r minval maxval ≡ ok n
    → (minval ≤ n) × (n ≤ maxval)
unfolding checks below above is_empty
checks-bounds r minval maxval n e = ground arith

-- A number that strtonum returns lies within the bounds of the caller.
pub strtonum-bounds :
    (numstr : Bytes) (minval maxval n : ℕ)
    → strtonum numstr minval maxval ≡ ok n
    → (minval ≤ n) × (n ≤ maxval)
unfolding strtonum checks
strtonum-bounds numstr minval maxval n e = elim (Bool-cases (ltb maxval minval)) [
  | inl h ↦ let e' : err invalid_number ≡ ok n = rw h at e in cc
  | inr h ↦ checks-bounds (strtoll (c_str numstr)) minval maxval n (rw h at e)
]
