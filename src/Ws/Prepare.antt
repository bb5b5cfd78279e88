-- ===== src/Ws/Prepare.antt =====
-- What ws_prepare_frame writes, read by a server: the frame is decoded as RFC 6455 section 5.2 says.
use libndt.Net.{Draw}
use libndt.Prelude.{
  All, Bool-cases, Option, [], ap, arith, bit_xor, drop, drop-append, get_or, if◌then◌else◌, inl,
  inr, leb, length, length-append, ltb, none, refl, some, suc, take, take-append, take-length, true,
  zero, ℕ, ◌%◌, ◌&&◌, ◌++◌, ◌+◌, ◌-◌, ◌/◌, ◌<◌, ◌==◌, ◌^◌, ◌∷◌, ◌≡◌, ◌≤◌,
}
use libndt.Prelude.Bytes.{
  Bytes, IsByte, holds_below, holds_below-true, low_seven, set_top_bit, xor_twice,
}
use libndt.Ws.{
  length16, length64, length_bytes, masked_body, printable, random_printable_fill, ws_prepare_frame,
  xor_mask,
}
use mathlib.Core.List.{append_assoc}

-- The payload length behind the 7 bit length, which has to be written in the shortest form.
pub decode_length : ℕ → Bytes → Option (ℕ × Bytes)
decode_length length7 rest =
    if ltb length7 126
    then some (length7, rest)
    else if length7 == 126
    then (if ltb (length16 rest) 126 then none else some (length16 rest, drop 2 rest))
    else if ltb (length64 rest) (2 ^ 16)
    then none
    else some (length64 rest, drop 8 rest)

-- Octet i of the payload is masked by octet i mod 4 of the key.
pub unmask : ℕ → ℕ → ℕ → ℕ → Bytes → Bytes
unmask a b c d [] = []
unmask a b c d (x ∷ xs) = bit_xor x a ∷ unmask b c d a xs

pub unmask_payload : ℕ → Bytes → Option (Bytes × Bytes)
unmask_payload n (a ∷ b ∷ c ∷ d ∷ body) =
    if ltb (length body) n then none else some (unmask a b c d (take n body), drop n body)
unmask_payload n _ = none

with_first : ℕ → Option (Bytes × Bytes) → Option (ℕ × Bytes × Bytes)
with_first b0 none = none
with_first b0 (some (payload, rest)) = some (b0, payload, rest)

-- The first byte, the payload, and what follows the frame. A frame that is not masked is refused.
pub decode_frame : Bytes → Option (ℕ × Bytes × Bytes)
unfolding with_first
decode_frame (b0 ∷ b1 ∷ rest) = if ltb b1 128 then none else elim (decode_length (b1 - 128) rest) [
  | none ↦ none
  | some (n, more) ↦ with_first b0 (unmask_payload n more)
]
decode_frame _ = none

unmask-xor_mask :
    (a b c d i : ℕ) (bs : Bytes)
    → i % 4 ≡ 0
    → All IsByte (a ∷ b ∷ c ∷ d ∷ [])
    → All IsByte bs
    → unmask a b c d (xor_mask (a ∷ b ∷ c ∷ d ∷ []) i bs) ≡ bs
unfolding unmask xor_mask
unmask-xor_mask a b c d i [] e hm hb = refl
unmask-xor_mask a b c d i (x0 ∷ []) e hm hb = ground (arith, xor_twice x0 a)
unmask-xor_mask a b c d i (x0 ∷ x1 ∷ []) e hm hb = ground (arith, xor_twice x0 a, xor_twice x1 b)
unmask-xor_mask a b c d i (x0 ∷ x1 ∷ x2 ∷ []) e hm hb =
    ground (arith, xor_twice x0 a, xor_twice x1 b, xor_twice x2 c)
unmask-xor_mask a b c d i (x0 ∷ x1 ∷ x2 ∷ x3 ∷ xs) e hm hb = ground (
  arith,
  xor_twice x0 a,
  xor_twice x1 b,
  xor_twice x2 c,
  xor_twice x3 d,
  unmask-xor_mask a b c d (i + 1 + 1 + 1 + 1) xs,
)

length-xor_mask : (mask : Bytes) (i : ℕ) (bs : Bytes) → length (xor_mask mask i bs) ≡ length bs
unfolding xor_mask
length-xor_mask mask i [] = refl
length-xor_mask mask i (b ∷ bs) = ap suc (length-xor_mask mask (i + 1) bs)

length_bytes-small : (n : ℕ) → n < 126 → length_bytes n ≡ (n + 128) ∷ []
unfolding length_bytes
length_bytes-small n h = ground (arith, low_seven n, set_top_bit n)

length_bytes-medium :
    (n : ℕ) → 126 ≤ n → n < 2 ^ 16 → length_bytes n ≡ 254 ∷ (n / 2 ^ 8 % 256) ∷ (n % 256) ∷ []
unfolding length_bytes
length_bytes-medium n lo hi = ground arith

abbrev pub eight_bytes : ℕ → Bytes
eight_bytes n =
    (n / 2 ^ 56 % 256)
    ∷ (n / 2 ^ 48 % 256)
    ∷ (n / 2 ^ 40 % 256)
    ∷ (n / 2 ^ 32 % 256)
    ∷ (n / 2 ^ 24 % 256)
    ∷ (n / 2 ^ 16 % 256)
    ∷ (n / 2 ^ 8 % 256)
    ∷ (n % 256)
    ∷ []

length_bytes-large : (n : ℕ) → 2 ^ 16 ≤ n → length_bytes n ≡ 255 ∷ eight_bytes n
unfolding length_bytes
length_bytes-large n h = ground arith

pub length64-eight_bytes :
    (n : ℕ) (rest : Bytes) → n < 2 ^ 64 → length64 (eight_bytes n ++ rest) ≡ n
unfolding length64
length64-eight_bytes n rest h = omega arith

printable_table :
    holds_below (λ i. leb 32 (get_or printable i 0) && leb (get_or printable i 0) 126) 95 ≡ true
unfolding holds_below
printable_table = refl

abbrev pub IsPrintable : ℕ → Type 0
IsPrintable b = (32 ≤ b) × (b ≤ 126)

printable-IsPrintable : (g : ℕ) → IsPrintable (get_or printable (g % length printable) 0)
printable-IsPrintable g =
    let cell = holds_below-true _ 95 (g % 95) printable_table (omega arith) in ground arith

module _ {S : Type 0} (draw : Draw S) where
  -- The buffer is filled, with printable characters only, whatever is drawn.
  pub random_printable_fill-All :
      (n : ℕ) (s : S)
      → (length (random_printable_fill draw n s).0 ≡ n)
        × All IsPrintable (random_printable_fill draw n s).0
  unfolding random_printable_fill
  random_printable_fill-All zero s = (refl, tt)
  random_printable_fill-All (suc n) s =
      let (l, a) = random_printable_fill-All n (draw s).1 in
      (ap suc l, (printable-IsPrintable (draw s).0, a))

-- A mask of four printable characters, taken apart.
four_bytes :
    (mask : Bytes)
    → length mask ≡ 4
    → All IsPrintable mask
    → (a b c d : ℕ) × (mask ≡ a ∷ b ∷ c ∷ d ∷ []) × All IsByte (a ∷ b ∷ c ∷ d ∷ [])
four_bytes (a ∷ b ∷ c ∷ d ∷ []) l h = (a, b, c, d, refl, omega arith)
four_bytes _ l h = absurd (omega arith)

unmask_payload-masked :
    (a b c d : ℕ) (payload rest : Bytes)
    → All IsByte (a ∷ b ∷ c ∷ d ∷ [])
    → All IsByte payload
    → unmask_payload
        (length payload)
        (a ∷ b ∷ c ∷ d ∷ xor_mask (a ∷ b ∷ c ∷ d ∷ []) 0 payload ++ rest)
      ≡ some (payload, rest)
unfolding unmask_payload
unmask_payload-masked a b c d payload rest hm hp =
    let masked = xor_mask (a ∷ b ∷ c ∷ d ∷ []) 0 payload in
    let l = length-xor_mask (a ∷ b ∷ c ∷ d ∷ []) 0 payload in
    let t = take-append masked rest in
    let r = drop-append masked rest in
    ground
      (arith, l, t, r, length-append masked rest, unmask-xor_mask a b c d 0 payload (refl) hm hp)

decode_frame-length_bytes :
    (b0 n : ℕ) (tail : Bytes)
    → n < 2 ^ 64
    → decode_frame (b0 ∷ length_bytes n ++ tail) ≡ with_first b0 (unmask_payload n tail)
unfolding decode_frame decode_length
decode_frame-length_bytes b0 n tail h = elim (Bool-cases (ltb n 126)) [
  | inl small ↦ rw (length_bytes-small n (ground arith)) (ground arith)
  | inr more ↦ elim (Bool-cases (ltb n (2 ^ 16))) [
    | inl medium ↦
        rw (length_bytes-medium n (ground arith) (ground arith)) (unfold length16 in ground arith)
    | inr large ↦
        rw (length_bytes-large n (ground arith)) (ground (arith, length64-eight_bytes n tail h))
  ]
]

length_bytes_bound : (n : ℕ) → length (length_bytes n) ≤ 9
unfolding length_bytes
length_bytes_bound n = ground arith

module _ {S : Type 0} (draw : Draw S) where
  -- A frame has at most 14 bytes more than its payload.
  pub length-prepare :
      (first_byte : ℕ) (payload : Bytes) (s : S)
      → length (ws_prepare_frame draw first_byte (some payload) (length payload) s).0
        ≤ 14 + length payload
  unfolding ws_prepare_frame masked_body
  length-prepare first_byte payload s =
      let mask = (random_printable_fill draw 4 s).0 in
      let l = (random_printable_fill-All draw 4 s).0 in
      rw (take-length payload) (
        omega (
          arith,
          l,
          length-append (length_bytes (length payload)) (mask ++ xor_mask mask 0 payload),
          length-append mask (xor_mask mask 0 payload),
          length-xor_mask mask 0 payload,
          length_bytes_bound (length payload),
        ))

  -- For a payload of bytes that is shorter than 2^64, a server that decodes the frame made by
  -- ws_prepare_frame, whatever random numbers were drawn, gets the first byte and the payload that
  -- were given, and goes on behind the frame.
  pub decode_frame-prepare :
      (first_byte : ℕ) (payload rest : Bytes) (s : S)
      → All IsByte payload
      → length payload < 2 ^ 64
      → decode_frame
          ((ws_prepare_frame draw first_byte (some payload) (length payload) s).0 ++ rest)
        ≡ some (first_byte, payload, rest)
  unfolding ws_prepare_frame masked_body
  decode_frame-prepare first_byte payload rest s hp hl =
      let (l, all) = random_printable_fill-All draw 4 s in
      let (a, b, c, d, e, hm) = four_bytes (random_printable_fill draw 4 s).0 l all in
      let n = length payload in
      let mask : Bytes = a ∷ b ∷ c ∷ d ∷ [] in
      let tail = mask ++ (xor_mask mask 0 payload ++ rest) in
      rw (e, take-length payload)
        (rw (append_assoc (length_bytes n) (mask ++ xor_mask mask 0 payload) rest) (
          rw (decode_frame-length_bytes first_byte n tail hl)
            (rw (unmask_payload-masked a b c d payload rest hm hp) (unfold with_first in refl))))
