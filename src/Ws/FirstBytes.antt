-- ===== src/Ws/FirstBytes.antt =====
-- The first two bytes of a frame: what RFC 6455 lets a server send, and what the client takes.
use libndt.Err.{invalid_argument, ws_proto}
use libndt.Io.{err, ok}
use libndt.Prelude.{
  arith, if◌then◌else◌, leb, ltb, not, sym, ℕ, ◌%◌, ◌&&◌, ◌/◌, ◌<◌, ◌==◌, ◌||◌, ◌∙◌, ◌≡◌, ◌≤◌, ◌⊎◌,
}
use libndt.Prelude.Bytes.{low_four, low_seven, reserved_bits, top_bit}
use libndt.Ws.{Header, is_control_opcode, is_known_opcode, parse_header}

-- A control frame has the highest bit of its opcode set.
abbrev pub IsControl : ℕ → Type 0
IsControl opcode = 8 ≤ opcode

-- A frame that is not masked, with no reserved bit, with a defined opcode, and neither fragmented
-- nor long if it is a control frame.
pub record IsServerHeader (b0 b1 : ℕ) : Type 0 where
  pub reserved_clear : b0 / 16 % 8 ≡ 0
  pub defined : (b0 % 16 < 3) ⊎ ((8 ≤ b0 % 16) × (b0 % 16 < 11))
  pub not_masked : b1 < 128
  pub control_whole : IsControl (b0 % 16) → (128 ≤ b0) × (b1 ≤ 125)

-- The fields as the RFC lays them out.
abbrev pub header_fields : ℕ → ℕ → Header
header_fields b0 b1 = record { opcode = b0 % 16; fin = leb 128 b0; length7 = b1 % 128 }

module _ (b0 b1 : ℕ) (h0 : b0 < 256) (h1 : b1 < 256) where
  -- The checks of the client on the masked bits, in plain arithmetic.
  parse_header-arith : parse_header b0 b1 ≡ (
      if not (b0 / 16 % 8 == 0)
      then err ws_proto
      else if not (is_known_opcode (b0 % 16))
      then err ws_proto
      else if leb 128 b1
      then err invalid_argument
      else if is_control_opcode (b0 % 16) && (ltb 125 (b1 % 128) || not (leb 128 b0))
      then err ws_proto
      else ok (header_fields b0 b1))
  unfolding parse_header
  parse_header-arith =
      rw (low_four b0 h0, low_seven b1 h1)
        (ground (arith, top_bit b0 h0, top_bit b1 h1, reserved_bits b0 h0))

  -- For two bytes: a header of a server that the RFC allows, without an extension, is taken, and
  -- its fields are read.
  pub parse_header_complete : IsServerHeader b0 b1 → parse_header b0 b1 ≡ ok (header_fields b0 b1)
  unfolding is_known_opcode is_control_opcode
  parse_header_complete v = rw parse_header-arith (ground arith)

  -- For two bytes: a header that is taken is one that the RFC allows, without an extension, and
  -- its fields are the ones that the RFC lays out.
  pub parse_header_sound :
      (h : Header) → parse_header b0 b1 ≡ ok h → IsServerHeader b0 b1 × (h ≡ header_fields b0 b1)
  unfolding is_known_opcode is_control_opcode
  parse_header_sound h e =
      let e' = sym parse_header-arith ∙ e in
      (
        record {
          reserved_clear = ground arith;
          defined = ground arith;
          not_masked = ground arith;
          control_whole = λ c. (ground arith, ground arith);
        },
        ground arith,
      )
