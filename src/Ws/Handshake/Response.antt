-- ===== src/Ws/Handshake/Response.antt =====
-- ws_handshake (include/libndt/libndt.hpp) over a stream: the bytes of the request, and which
-- responses are accepted.
-- Whether one of the lines is this text.
use libndt.Err.{ws_proto}
use libndt.Io.{err, ok}
use libndt.Io.Gives.{Gives, Gives-bind}
use libndt.Net.{Draw, Net}
use libndt.Net.Stream.{Stream, View}
use libndt.Prelude.{
  All, Bool, Bool-cases, List, [], ap, arith, bit_and, bit_or, false, if◌then◌else◌, inl, inr,
  length, ltb, not, refl, sym, true, ℕ, ◌&&◌, ◌++◌, ◌+◌, ◌<◌, ◌==◌, ◌^◌, ◌||◌, ◌∙◌, ◌∷◌, ◌≡◌,
}
use libndt.Prelude.Bytes.{Bytes, holds_below, holds_below-true}
use libndt.Prelude.Text.{codes, text_eq, text_eq_refl, text_eq→eq}
use libndt.Types.{Socket, has}
use libndt.Ws.Handshake.{
  accept_header, header_flag, host_header, max_headers, max_line_length, proto_header,
  request_lines, status_line, ws_handshake,
}
use libndt.Ws.Handshake.Lines.{crlf, line_bytes, over, send_lines-line_bytes, ws_recvln-line}
use libndt.Ws.Handshake.Upgrade.{
  IsHeaderLine, read_headers-lines, seen_flags, status_line-IsLine, verdict,
}
use mathlib.Core.List.{append-nil}
use mathlib.Core.Path.{subst}

abbrev pub any_line : Bytes → List Bytes → Bool
any_line text [] = false
any_line text (l ∷ ls) = text_eq l text || any_line text ls

-- If the caller asks for the flag, one of the lines is this text.
abbrev pub has_if_asked : ℕ → ℕ → Bytes → List Bytes → Bool
has_if_asked wanted flag text ls = not (has wanted flag) || any_line text ls

-- The response has a line for each of the flags.
abbrev pub is_upgrade : ℕ → Bytes → List Bytes → Bool
is_upgrade wanted protocol ls =
    has_if_asked wanted 1 (codes "Connection: Upgrade") ls
    && (has_if_asked wanted 2 (codes "Sec-WebSocket-Accept: s3pPLMBiTxaQ9kYGzzhZRbK+xOo=") ls
        && (has_if_asked wanted 4 (codes "Sec-WebSocket-Protocol: " ++ protocol) ls
            && has_if_asked wanted 8 (codes "Upgrade: websocket") ls))

-- The Host header, without the port where it is the default one.
abbrev pub host_bytes : Bool → Bytes → Bytes → Bytes
host_bytes tls hostname port =
    if (tls && text_eq port (codes "443")) || (not tls && text_eq port (codes "80"))
    then codes "Host: " ++ hostname
    else codes "Host: " ++ (hostname ++ (codes ":" ++ port))

-- The request of RFC 6455, with the fixed key that the client sends.
abbrev pub request_bytes : Bool → Bytes → Bytes → Bytes → Bytes → Bytes
request_bytes tls hostname port protocol url_path =
    ((codes "GET " ++ (url_path ++ codes " HTTP/1.1")) ++ crlf)
    ++ ((host_bytes tls hostname port ++ crlf)
        ++ ((codes "Upgrade: websocket" ++ crlf)
            ++ ((codes "Connection: Upgrade" ++ crlf)
                ++ ((codes "Sec-WebSocket-Key: dGhlIHNhbXBsZSBub25jZQ==" ++ crlf)
                    ++ (((codes "Sec-WebSocket-Protocol: " ++ protocol) ++ crlf)
                        ++ ((codes "Sec-WebSocket-Version: 13" ++ crlf) ++ crlf))))))

host_header-bytes :
    (tls : Bool) (hostname port : Bytes)
    → host_header tls hostname port ≡ host_bytes tls hostname port
unfolding host_header
host_header-bytes true hostname port = elim (Bool-cases (text_eq port (codes "443"))) [
  | inl default ↦ rw default (ap (λ (x : Bytes). codes "Host: " ++ x) (append-nil hostname))
  | inr other ↦ rw other refl
]
host_header-bytes false hostname port = elim (Bool-cases (text_eq port (codes "80"))) [
  | inl default ↦ rw default (ap (λ (x : Bytes). codes "Host: " ++ x) (append-nil hostname))
  | inr other ↦ rw other refl
]

request-bytes :
    (tls : Bool) (hostname port protocol url_path : Bytes)
    → line_bytes (request_lines tls hostname port protocol url_path)
      ≡ request_bytes tls hostname port protocol url_path
unfolding request_lines
request-bytes tls hostname port protocol url_path = rw (host_header-bytes tls hostname port) refl

abbrev same_test : Bool → Bool → Bool
same_test true b = b
same_test false b = not b

same_test→eq : (a b : Bool) → same_test a b ≡ true → a ≡ b
same_test→eq true b e = sym e
same_test→eq false true e = e
same_test→eq false false e = refl

-- Setting flags sets this one where one of the two has it.
abbrev joins : ℕ → ℕ → ℕ → Bool
joins flag a b = same_test (has (bit_or a b) flag) (has a flag || has b flag)

abbrev IsJoined : ℕ → Type 0
IsJoined flag = holds_below (λ a. holds_below (joins flag a) 16) 16 ≡ true

connection_table : IsJoined 1
unfolding holds_below has
connection_table = refl

accept_table : IsJoined 2
unfolding holds_below has
accept_table = refl

protocol_table : IsJoined 4
unfolding holds_below has
protocol_table = refl

upgrade_table : IsJoined 8
unfolding holds_below has
upgrade_table = refl

small_table : holds_below (λ a. holds_below (λ b. ltb (bit_or a b) 16) 16) 16 ≡ true
unfolding holds_below
small_table = refl

bit_or-small : (a b : ℕ) → a < 16 → b < 16 → bit_or a b < 16
bit_or-small a b ha hb =
    let row = holds_below-true _ 16 a small_table ha in
    let cell = holds_below-true _ 16 b row hb in ground arith

verdict_table :
    holds_below
      (λ w.
        holds_below
          (λ s. same_test (bit_and s w == w) (
            (not (has w 1) || has s 1)
            && ((not (has w 2) || has s 2)
                && ((not (has w 4) || has s 4) && (not (has w 8) || has s 8)))))
          16)
      16
    ≡ true
unfolding holds_below has
verdict_table = refl

-- What a header line sets: the flag of its text, and no other.
abbrev SetsFlags : Bytes → Bytes → Type 0
SetsFlags protocol l =
    (has (header_flag (proto_header protocol) l) 1 ≡ text_eq l (codes "Connection: Upgrade"))
    × (has (header_flag (proto_header protocol) l) 2
        ≡ text_eq l (codes "Sec-WebSocket-Accept: s3pPLMBiTxaQ9kYGzzhZRbK+xOo="))
    × (has (header_flag (proto_header protocol) l) 4
        ≡ text_eq l (codes "Sec-WebSocket-Protocol: " ++ protocol))
    × (has (header_flag (proto_header protocol) l) 8 ≡ text_eq l (codes "Upgrade: websocket"))
    × (header_flag (proto_header protocol) l < 16)

protocol-SetsFlags : (protocol : Bytes) → SetsFlags protocol (proto_header protocol)
unfolding header_flag text_eq has
protocol-SetsFlags protocol = rw (text_eq_refl protocol) (refl, refl, refl, refl, omega arith)

header_flag-SetsFlags : (protocol l : Bytes) → SetsFlags protocol l
unfolding header_flag text_eq has
header_flag-SetsFlags protocol l = elim (Bool-cases (text_eq l (codes "Upgrade: websocket"))) [
  | inl e ↦
      subst (SetsFlags protocol) (sym (text_eq→eq l _ e)) (refl, refl, refl, refl, omega arith)
  | inr upgrade ↦ elim (Bool-cases (text_eq l (codes "Connection: Upgrade"))) [
    | inl e ↦
        subst (SetsFlags protocol) (sym (text_eq→eq l _ e)) (refl, refl, refl, refl, omega arith)
    | inr connection ↦ elim (Bool-cases (text_eq l accept_header)) [
      | inl e ↦
          subst (SetsFlags protocol) (sym (text_eq→eq l _ e)) (refl, refl, refl, refl, omega arith)
      | inr accept ↦ elim (Bool-cases (text_eq l (proto_header protocol))) [
        | inl e ↦ subst (SetsFlags protocol) (sym (text_eq→eq l _ e)) (protocol-SetsFlags protocol)
        | inr other ↦ rw (upgrade, connection, accept, other) (refl, refl, refl, refl, omega arith)
      ]
    ]
  ]
]

seen_flags-small :
    (protocol : Bytes) (a : ℕ) (ls : List Bytes)
    → a < 16
    → seen_flags (proto_header protocol) a ls < 16
seen_flags-small protocol a [] h = h
seen_flags-small protocol a (l ∷ ls) h =
    let set = header_flag-SetsFlags protocol l in
    seen_flags-small protocol (bit_or a (header_flag (proto_header protocol) l)) ls
      (bit_or-small a _ h set.4)

or_swap : (a b c : Bool) → (a || b) || c ≡ a || (b || c)
or_swap true b c = refl
or_swap false b c = refl

seen_flags-any_line :
    (protocol : Bytes) (flag : ℕ) (text : Bytes) (a : ℕ) (ls : List Bytes)
    → IsJoined flag
    → ((l : Bytes) → has (header_flag (proto_header protocol) l) flag ≡ text_eq l text)
    → a < 16
    → has (seen_flags (proto_header protocol) a ls) flag ≡ has a flag || any_line text ls
seen_flags-any_line protocol flag text a [] joined sets h = or_false (has a flag)
  where
    or_false : (b : Bool) → b ≡ b || false
    or_false true = refl
    or_false false = refl
seen_flags-any_line protocol flag text a (l ∷ ls) joined sets h =
    let f = header_flag (proto_header protocol) l in
    let low : f < 16 = (header_flag-SetsFlags protocol l).4 in
    let rest =
      seen_flags-any_line protocol flag text (bit_or a f) ls joined sets (bit_or-small a f h low) in
    let cell = holds_below-true _ 16 f (holds_below-true _ 16 a joined h) low in
    let step : has (bit_or a f) flag ≡ has a flag || has f flag = same_test→eq _ _ cell in
    rest
    ∙ (ap (λ (b : Bool). b || any_line text ls) (step ∙ ap (λ (b : Bool). has a flag || b) (sets l))
        ∙ or_swap (has a flag) (text_eq l text) (any_line text ls))

verdict-is_upgrade :
    (wanted : ℕ) (protocol : Bytes) (ls : List Bytes)
    → wanted < 16
    → verdict wanted (seen_flags (proto_header protocol) 0 ls)
      ≡ (if is_upgrade wanted protocol ls then ok tt else err ws_proto)
unfolding has
verdict-is_upgrade wanted protocol ls h =
    let seen = seen_flags (proto_header protocol) 0 ls in
    let low = seen_flags-small protocol 0 ls (omega arith) in
    let cell = holds_below-true _ 16 seen (holds_below-true _ 16 wanted verdict_table h) low in
    let e1 =
      seen_flags-any_line protocol 1 _ 0 ls connection_table
        (λ l. (header_flag-SetsFlags protocol l).0) (omega arith) in
    let e2 =
      seen_flags-any_line protocol 2 _ 0 ls accept_table (λ l. (header_flag-SetsFlags protocol l).1)
        (omega arith) in
    let e4 =
      seen_flags-any_line protocol 4 _ 0 ls protocol_table
        (λ l. (header_flag-SetsFlags protocol l).2) (omega arith) in
    let e8 =
      seen_flags-any_line protocol 8 _ 0 ls upgrade_table
        (λ l. (header_flag-SetsFlags protocol l).3) (omega arith) in
    let agreed : (bit_and seen wanted == wanted)
        ≡ (not (has wanted 1) || has seen 1)
          && ((not (has wanted 2) || has seen 2)
              && ((not (has wanted 4) || has seen 4) && (not (has wanted 8) || has seen 8))) =
      same_test→eq _ _ cell in
    let same = rw (e1, e2, e4, e8) at agreed in
    ap (λ (b : Bool). if b then ok tt else err ws_proto) same

module _ {S K : Type 0} {net : Net S} {draw : Draw S} {sock : Socket} {view : S → View K} {k : K}
    (stream : Stream net draw sock view k) where
  -- Over a stream, with request lines of fewer than 2^63 - 2 bytes and any of the four flags
  -- asked for: a server that answers with the status line, with fewer than 1000 header lines, each
  -- shorter than 8000 bytes, and with the empty line is accepted exactly if, for each flag that is
  -- asked for, one of the lines is the text of its header, whatever the order of the lines and the
  -- other lines between them (`is_upgrade`), and is refused with `ws_proto` otherwise. The bytes
  -- of the request (`request_bytes`) have been sent, and what comes behind the response is left.
  -- The fuel is above 8001.
  pub ws_handshake-response :
      (ls : List Bytes) (rest out hostname port protocol url_path : Bytes) (tls : Bool)
      (fuel wanted : ℕ)
      → All IsHeaderLine ls
      → length ls < max_headers
      → max_line_length + 1 < fuel
      → wanted < 16
      → All (λ l. length l + 2 < 2 ^ 63) (request_lines tls hostname port protocol url_path)
      → Gives view
          (ws_handshake net fuel sock tls hostname port wanted protocol url_path)
          (over stream ((status_line ++ crlf) ++ ((line_bytes ls ++ crlf) ++ rest)) out)
          (if is_upgrade wanted protocol ls then ok tt else err ws_proto)
          (over stream rest (out ++ request_bytes tls hostname port protocol url_path))
  unfolding ws_handshake
  ws_handshake-response ls rest out hostname port protocol url_path tls fuel wanted h enough long
        asked small =
      let same = text_eq_refl status_line in
      let sent = rw (request-bytes tls hostname port protocol url_path) at (
        send_lines-line_bytes stream (request_lines tls hostname port protocol url_path)
          ((status_line ++ crlf) ++ ((line_bytes ls ++ crlf) ++ rest)) out small) in
      let read = rw (verdict-is_upgrade wanted protocol ls asked) at (
        read_headers-lines stream ls rest (out ++ request_bytes tls hostname port protocol url_path)
          (proto_header protocol) fuel max_headers wanted 0 h enough long) in
      Gives-bind _ sent (
        Gives-bind _
          (ws_recvln-line stream status_line ((line_bytes ls ++ crlf) ++ rest) _ fuel
            max_line_length status_line-IsLine (omega arith))
          (rw same read))
