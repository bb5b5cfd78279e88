-- ===== src/Prelude/Bytes.antt =====
-- Bytes, and the masks on one byte as arithmetic: tables checked by evaluation.
use Prim.Native.Nat.{ℕ, zero, suc, ◌+◌, ◌*◌, ◌/◌, ◌%◌, ◌<◌, bit_and, bit_or, bit_xor}
use mathlib.Core.Path.{◌≡◌, refl}
use mathlib.Core.Bool.{Bool, true, ◌&&◌}
use mathlib.Core.List.{List}
use native.Mathlib.Omega.{arith}
use libndt.Prelude.Tests.{◌==◌, ==_iff, ltb}

abbrev pub IsByte : ℕ → Type 0
IsByte b = b < 256

abbrev pub Bytes : Type 0
Bytes = List ℕ

-- A test on each number below a bound, by evaluation.
unfoldable pub holds_below : (ℕ → Bool) → ℕ → Bool
holds_below test zero = true
holds_below test (suc bound) = holds_below test bound && test bound

pub holds_below-true :
    (test : ℕ → Bool) (bound x : ℕ) → holds_below test bound ≡ true → x < bound → test x ≡ true
unfolding holds_below
holds_below-true test zero x e small = absurd (omega arith)
holds_below-true test (suc bound) x e small = ground (arith, holds_below-true test bound x)

top_bit_table : holds_below (λ x. bit_and x 0x80 == x / 128 * 128) 256 ≡ true
unfolding holds_below
top_bit_table = refl

pub top_bit : (x : ℕ) → x < 256 → bit_and x 0x80 ≡ x / 128 * 128
top_bit x h = (==_iff _ _).0 (holds_below-true _ 256 x top_bit_table h)

low_seven_table : holds_below (λ x. bit_and x 0x7f == x % 128) 256 ≡ true
unfolding holds_below
low_seven_table = refl

pub low_seven : (x : ℕ) → x < 256 → bit_and x 0x7f ≡ x % 128
low_seven x h = (==_iff _ _).0 (holds_below-true _ 256 x low_seven_table h)

low_four_table : holds_below (λ x. bit_and x 0x0f == x % 16) 256 ≡ true
unfolding holds_below
low_four_table = refl

pub low_four : (x : ℕ) → x < 256 → bit_and x 0x0f ≡ x % 16
low_four x h = (==_iff _ _).0 (holds_below-true _ 256 x low_four_table h)

reserved_table : holds_below (λ x. bit_and x 0x70 == x / 16 % 8 * 16) 256 ≡ true
unfolding holds_below
reserved_table = refl

pub reserved_bits : (x : ℕ) → x < 256 → bit_and x 0x70 ≡ x / 16 % 8 * 16
reserved_bits x h = (==_iff _ _).0 (holds_below-true _ 256 x reserved_table h)

set_top_table : holds_below (λ x. bit_or x 0x80 == x + 128) 128 ≡ true
unfolding holds_below
set_top_table = refl

pub set_top_bit : (x : ℕ) → x < 128 → bit_or x 0x80 ≡ x + 128
set_top_bit x h = (==_iff _ _).0 (holds_below-true _ 128 x set_top_table h)

xor_table :
    holds_below
      (λ x. holds_below (λ m. (bit_xor (bit_xor x m) m == x) && ltb (bit_xor x m) 256) 256)
      256
    ≡ true
unfolding holds_below
xor_table = refl

-- Masking a byte twice by the same byte gives it back, and a masked byte is a byte.
pub xor_twice : (x m : ℕ) → x < 256 → m < 256 → (bit_xor (bit_xor x m) m ≡ x) × (bit_xor x m < 256)
xor_twice x m hx hm =
    let row = holds_below-true _ 256 x xor_table hx in
    let cell = holds_below-true _ 256 m row hm in ground arith
