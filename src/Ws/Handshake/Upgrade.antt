-- ===== src/Ws/Handshake/Upgrade.antt =====
-- The headers of a response to ws_handshake (include/libndt/libndt.hpp), over a stream.
use libndt.Err.{Err, ws_proto}
use libndt.Io.{Result, err, ok, pure, raise}
use libndt.Io.Gives.{Gives, Gives-bind, Gives-pure, Gives-raise}
use libndt.Net.{Draw, Net}
use libndt.Net.Stream.{Stream, View}
use libndt.Prelude.{
  All, Bool-cases, List, [], arith, bit_and, bit_or, false, if◌then◌else◌, inl, inr, length, refl,
  suc, zero, ℕ, ◌++◌, ◌+◌, ◌<◌, ◌==◌, ◌∷◌, ◌≡◌,
}
use libndt.Prelude.Bytes.{Bytes}
use libndt.Types.{Socket}
use libndt.Ws.Handshake.{header_flag, max_line_length, read_headers, status_line}
use libndt.Ws.Handshake.Lines.{
  IsLine, crlf, is_line_text, line_bytes, over, text-IsLine, ws_recvln-line,
}
use mathlib.Core.List.{append_assoc}

-- The flags of the header lines, on top of those already seen.
abbrev pub seen_flags : Bytes → ℕ → List Bytes → ℕ
seen_flags proto flags [] = flags
seen_flags proto flags (l ∷ ls) = seen_flags proto (bit_or flags (header_flag proto l)) ls

-- What the flags make of the handshake.
abbrev pub verdict : ℕ → ℕ → Result Err Unit
verdict wanted seen = if bit_and seen wanted == wanted then ok tt else err ws_proto

-- A header line: a line, and not the empty one that ends the headers.
abbrev pub IsHeaderLine : Bytes → Type 0
IsHeaderLine l = IsLine max_line_length l × (0 < length l)

pub status_line-IsLine : IsLine max_line_length status_line
unfolding is_line_text
status_line-IsLine = text-IsLine status_line max_line_length refl

module _ {S K : Type 0} {net : Net S} {draw : Draw S} {sock : Socket} {view : S → View K} {k : K}
    (stream : Stream net draw sock view k) where
  end_headers :
      (v : View K) (wanted seen : ℕ)
      → Gives view
          (if bit_and seen wanted == wanted then pure tt else raise ws_proto)
          v
          (verdict wanted seen)
          v
  end_headers v wanted seen = elim (Bool-cases (bit_and seen wanted == wanted)) [
    | inl h ↦ rw h (Gives-pure tt v)
    | inr h ↦ rw h (Gives-raise ws_proto v)
  ]

  pub read_headers-lines :
      (ls : List Bytes) (rest out proto : Bytes) (fuel rounds wanted flags : ℕ)
      → All IsHeaderLine ls
      → length ls < rounds
      → max_line_length + 1 < fuel
      → Gives view
          (read_headers net fuel rounds sock proto wanted flags)
          (over stream ((line_bytes ls ++ crlf) ++ rest) out)
          (verdict wanted (seen_flags proto flags ls))
          (over stream rest out)
  unfolding read_headers
  read_headers-lines ls rest out proto fuel zero wanted flags h enough long = absurd (omega arith)
  read_headers-lines [] rest out proto fuel (suc rounds) wanted flags h enough long =
      Gives-bind _
        (ws_recvln-line stream [] rest out fuel max_line_length (tt, omega arith) (omega arith))
        (end_headers _ wanted flags)
  read_headers-lines (l ∷ ls) rest out proto fuel (suc rounds) wanted flags h enough long =
      let nonempty : (length l == 0) ≡ false = ground (arith, h.0.1) in
      rw
        (
          append_assoc (l ++ crlf) (line_bytes ls) crlf,
          append_assoc (l ++ crlf) (line_bytes ls ++ crlf) rest,
        )
        (Gives-bind _
          (ws_recvln-line stream l ((line_bytes ls ++ crlf) ++ rest) out fuel max_line_length h.0.0
            (omega (arith, h.0.0.1)))
          (rw nonempty (
            read_headers-lines ls rest out proto fuel rounds wanted
              (bit_or flags (header_flag proto l)) h.1 (omega arith) long)))
