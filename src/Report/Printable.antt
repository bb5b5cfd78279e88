-- ===== src/Report/Printable.antt =====
-- What represent (include/libndt/libndt.hpp) shows.
use libndt.Prelude.{
  All, Bool, Bool-cases, [], arith, inl, inr, leb, refl, true, ℕ, ◌&&◌, ◌++◌, ◌∷◌, ◌≡◌, ◌≤◌,
}
use libndt.Prelude.Bytes.{Bytes, IsByte, holds_below, holds_below-true}
use libndt.Prelude.Text.{codes}
use libndt.Report.{escape, escape_all, hex_digit, is_printable, represent}

abbrev pub IsShown : ℕ → Type 0
IsShown c = (32 ≤ c) × (c ≤ 126)

-- A test of all of the bytes that `escape` writes.
abbrev all_shown : Bytes → Bool
all_shown [] = true
all_shown (c ∷ cs) = (leb 32 c && leb c 126) && all_shown cs

all_shown-All : (s : Bytes) → all_shown s ≡ true → All IsShown s
all_shown-All [] h = tt
all_shown-All (c ∷ cs) h = ((ground arith, ground arith), all_shown-All cs (ground arith))

escape_table : holds_below (λ c. all_shown (escape c)) 256 ≡ true
unfolding holds_below escape hex_digit
escape_table = refl

All-append : (a b : Bytes) → All IsShown a → All IsShown b → All IsShown (a ++ b)
All-append [] b ha hb = hb
All-append (c ∷ cs) b ha hb = (ha.0, All-append cs b ha.1 hb)

escape_all-IsShown : (s : Bytes) → All IsByte s → All IsShown (escape_all s)
unfolding escape_all
escape_all-IsShown [] h = tt
escape_all-IsShown (c ∷ cs) h =
    All-append (escape c) (escape_all cs)
      (all_shown-All (escape c) (holds_below-true _ 256 c escape_table h.0))
      (escape_all-IsShown cs h.1)

is_printable-IsShown : (s : Bytes) → is_printable s ≡ true → All IsShown s
unfolding is_printable
is_printable-IsShown [] h = tt
is_printable-IsShown (c ∷ cs) h =
    ((ground arith, ground arith), is_printable-IsShown cs (ground arith))

-- For every string of bytes, what represent shows of it is printable ASCII only.
pub represent-IsShown : (message : Bytes) → All IsByte message → All IsShown (represent message)
unfolding represent
represent-IsShown message h = elim (Bool-cases (is_printable message)) [
  | inl shown ↦ rw shown (is_printable-IsShown message shown)
  | inr other ↦ rw other (
      All-append (codes "binary([") (escape_all message ++ codes "])")
        (all_shown-All (codes "binary([") refl)
        (All-append (escape_all message) (codes "])") (escape_all-IsShown message h)
          (all_shown-All (codes "])") refl)))
]
