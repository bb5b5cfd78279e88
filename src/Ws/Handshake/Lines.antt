-- ===== src/Ws/Handshake/Lines.antt =====
-- ws_sendln and ws_recvln (include/libndt/libndt.hpp) over a stream: lines that end in CR LF.
use libndt.Io.{ok}
use libndt.Io.Gives.{Gives, Gives-bind, Gives-pure}
use libndt.Net.{Draw, Net}
use libndt.Net.Stream.{Stream, View, recvn-append}
use libndt.Prelude.{
  All, Bool, List, [], arith, false, length, length-append, ltb, not, refl, suc, true, zero, ℕ,
  ◌&&◌, ◌++◌, ◌+◌, ◌<◌, ◌==◌, ◌^◌, ◌∷◌, ◌≡◌,
}
use libndt.Prelude.Bytes.{Bytes}
use libndt.Types.{Socket}
use libndt.Ws.Handshake.{recvln_loop, send_lines, ws_recvln, ws_sendln}
use mathlib.Core.List.{append-nil, append_assoc}

abbrev pub crlf : Bytes
crlf = 13 ∷ 10 ∷ []

-- The lines, each of them ended.
abbrev pub line_bytes : List Bytes → Bytes
line_bytes [] = []
line_bytes (l ∷ ls) = (l ++ crlf) ++ line_bytes ls

-- A line has neither CR nor LF inside, and is shorter than `maxlen`.
abbrev pub IsLine : ℕ → Bytes → Type 0
IsLine maxlen l = All (λ c. ((c == 13) ≡ false) × ((c == 10) ≡ false)) l × (length l < maxlen)

unfoldable pub is_line_text : Bytes → Bool
is_line_text [] = true
is_line_text (c ∷ cs) = not (c == 13) && (not (c == 10) && is_line_text cs)

pub is_line_text-All :
    (l : Bytes) → is_line_text l ≡ true → All (λ c. ((c == 13) ≡ false) × ((c == 10) ≡ false)) l
unfolding is_line_text
is_line_text-All [] h = tt
is_line_text-All (c ∷ cs) h = ((ground arith, ground arith), is_line_text-All cs (ground arith))

-- A line of a text, by evaluation.
pub text-IsLine :
    (l : Bytes) (maxlen : ℕ) → (is_line_text l && ltb (length l) maxlen) ≡ true → IsLine maxlen l
text-IsLine l maxlen h = (is_line_text-All l (ground arith), ground arith)

module _ {S K : Type 0} {net : Net S} {draw : Draw S} {sock : Socket} {view : S → View K} {k : K}
    (stream : Stream net draw sock view k) where
  abbrev pub over : Bytes → Bytes → View K
  over i out = record { input = i; output = out; kept = k }

  -- The lines are sent in their order.
  pub send_lines-line_bytes :
      (ls : List Bytes) (i out : Bytes)
      → All (λ l. length l + 2 < 2 ^ 63) ls
      → Gives view (send_lines net sock ls) (over i out) (ok tt) (over i (out ++ line_bytes ls))
  unfolding send_lines ws_sendln
  send_lines-line_bytes [] i out small = rw append-nil (Gives-pure tt (over i out))
  send_lines-line_bytes (l ∷ ls) i out small = rw (← append_assoc out (l ++ crlf) (line_bytes ls)) (
      Gives-bind _ (stream.sendn (l ++ crlf) i out (omega (arith, length-append l crlf, small.0)))
        (send_lines-line_bytes ls i (out ++ (l ++ crlf)) small.1))

  recvln_loop-line :
      (l acc rest out : Bytes) (fuel maxlen : ℕ)
      → All (λ c. ((c == 13) ≡ false) × ((c == 10) ≡ false)) l
      → length acc + length l < maxlen
      → length l + 1 < fuel
      → Gives view
          (recvln_loop net fuel sock maxlen acc)
          (over (l ++ (crlf ++ rest)) out)
          (ok (acc ++ l))
          (over rest out)
  unfolding recvln_loop
  recvln_loop-line l acc rest out zero maxlen h room enough = absurd (omega arith)
  recvln_loop-line l acc rest out (suc zero) maxlen h room enough = absurd (omega arith)
  recvln_loop-line [] acc rest out (suc (suc fuel)) maxlen h room enough =
      let below : ltb (length acc) maxlen ≡ true = ground arith in
      rw (below, append-nil)
        (Gives-bind _ (recvn-append stream 1 (13 ∷ []) (10 ∷ rest) out refl)
          (Gives-bind _ (recvn-append stream 1 (10 ∷ []) rest out refl) (Gives-pure acc _)))
  recvln_loop-line (c ∷ l) acc rest out (suc (suc fuel)) maxlen h room enough =
      let below : ltb (length acc) maxlen ≡ true = ground arith in
      let grown = length-append acc (c ∷ []) in
      rw below (
        Gives-bind _ (recvn-append stream 1 (c ∷ []) (l ++ (crlf ++ rest)) out refl) (
          rw (h.0.0, h.0.1, ← append_assoc acc (c ∷ []) l)
            (recvln_loop-line l (acc ++ c ∷ []) rest out (suc fuel) maxlen h.1 (omega arith)
              (omega arith))))

  -- Over a stream, a line without CR and LF inside that is shorter than `maxlen` is received
  -- without its end, and nothing behind it is consumed. The fuel is more than the line and its end
  -- need.
  pub ws_recvln-line :
      (l rest out : Bytes) (fuel maxlen : ℕ)
      → IsLine maxlen l
      → length l + 1 < fuel
      → Gives view
          (ws_recvln net fuel sock maxlen)
          (over ((l ++ crlf) ++ rest) out)
          (ok l)
          (over rest out)
  unfolding ws_recvln
  ws_recvln-line l rest out fuel maxlen h enough =
      let nonzero : (maxlen == 0) ≡ false = ground arith in
      rw (nonzero, append_assoc l crlf rest)
        (recvln_loop-line l [] rest out fuel maxlen h.0 (omega (arith, h.1)) enough)
