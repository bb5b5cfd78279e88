-- ===== src/Ws/Handshake.antt =====
-- include/libndt/libndt.hpp: ws_sendln, ws_recvln and ws_handshake.
pub mod Lines
pub mod Upgrade
pub mod Response
use libndt.Err.{Err, invalid_argument, value_too_large, ws_proto}
use libndt.Io.{Io, out_of_fuel, pure, raise, ◌>>=◌, ◌>>◌}
use libndt.Net.{Net}
use libndt.Prelude.{
  Bool, List, [], bit_and, bit_or, get_or, if◌then◌else◌, length, ltb, not, suc, zero, ℕ, ◌++◌,
  ◌==◌, ◌∷◌,
}
use libndt.Prelude.Bytes.{Bytes}
use libndt.Prelude.Text.{codes, text_eq}
use libndt.Types.{Socket, ws_f_connection, ws_f_sec_ws_accept, ws_f_sec_ws_protocol, ws_f_upgrade}

-- The headers that the client looks for in the response.
abbrev pub accept_header : Bytes
accept_header = codes "Sec-WebSocket-Accept: s3pPLMBiTxaQ9kYGzzhZRbK+xOo="

abbrev pub proto_header : Bytes → Bytes
proto_header protocol = codes "Sec-WebSocket-Protocol: " ++ protocol

-- The flag that a header line sets; 0 for any other line.
unfoldable pub header_flag : Bytes → Bytes → ℕ
header_flag proto line =
    if text_eq line (codes "Upgrade: websocket")
    then ws_f_upgrade
    else if text_eq line (codes "Connection: Upgrade")
    then ws_f_connection
    else if text_eq line accept_header
    then ws_f_sec_ws_accept
    else if text_eq line proto
    then ws_f_sec_ws_protocol
    else 0

-- The value of the Host header: the port is left out where it is the default one.
unfoldable pub host_header : Bool → Bytes → Bytes → Bytes
host_header tls hostname port =
    let default_port = if tls then codes "443" else codes "80" in
    codes "Host: " ++ (hostname ++ (if text_eq port default_port then [] else codes ":" ++ port))

-- The lines of the upgrade request, in the order in which they are sent.
unfoldable pub request_lines : Bool → Bytes → Bytes → Bytes → Bytes → List Bytes
request_lines tls hostname port protocol url_path =
    (codes "GET " ++ (url_path ++ codes " HTTP/1.1"))
    ∷ host_header tls hostname port
    ∷ codes "Upgrade: websocket"
    ∷ codes "Connection: Upgrade"
    ∷ codes "Sec-WebSocket-Key: dGhlIHNhbXBsZSBub25jZQ=="
    ∷ proto_header protocol
    ∷ codes "Sec-WebSocket-Version: 13"
    ∷ []
    ∷ []

abbrev pub status_line : Bytes
status_line = codes "HTTP/1.1 101 Switching Protocols"

abbrev pub max_line_length : ℕ
max_line_length = 8000

abbrev pub max_headers : ℕ
max_headers = 1000

module _ {S : Type 0} (net : Net S) where
  pub ws_sendln : Socket → Bytes → Io S Err Unit
  ws_sendln sock line = net.sendn sock (line ++ 13 ∷ 10 ∷ [])

  -- The calls of ws_sendln that are joined by `||`: the first error ends them.
  pub send_lines : Socket → List Bytes → Io S Err Unit
  send_lines sock [] = pure tt
  send_lines sock (line ∷ lines) = do ws_sendln sock line; send_lines sock lines

  -- The loop of ws_recvln, with the line so far. `fuel` bounds the bytes that are read.
  pub recvln_loop : ℕ → Socket → ℕ → Bytes → Io S Err Bytes
  recvln_loop zero sock maxlen line = out_of_fuel
  recvln_loop (suc fuel) sock maxlen line =
      let again = λ (l : Bytes). recvln_loop fuel sock maxlen l in
      if ltb (length line) maxlen
      then (do
        buf ← net.recvn sock 1
        if get_or buf 0 0 == 13
            then again line
            else if get_or buf 0 0 == 10
            then pure line
            else again (line ++ get_or buf 0 0 ∷ []))
      else raise value_too_large

  pub ws_recvln : ℕ → Socket → ℕ → Io S Err Bytes
  ws_recvln fuel sock maxlen =
      if maxlen == 0 then raise invalid_argument else recvln_loop fuel sock maxlen []

  -- The loop over the response headers, with the rounds left and the flags so far.
  pub read_headers : ℕ → ℕ → Socket → Bytes → ℕ → ℕ → Io S Err Unit
  read_headers fuel zero sock proto ws_flags flags = raise value_too_large
  read_headers fuel (suc rounds) sock proto ws_flags flags =
      let again = λ (f : ℕ). read_headers fuel rounds sock proto ws_flags f in
      do
        line ← ws_recvln fuel sock max_line_length
        if length line == 0
            then (if bit_and flags ws_flags == ws_flags then pure tt else raise ws_proto)
            else again (bit_or flags (header_flag proto line))

  pub ws_handshake : ℕ → Socket → Bool → Bytes → Bytes → ℕ → Bytes → Bytes → Io S Err Unit
  ws_handshake fuel sock tls hostname port ws_flags ws_protocol url_path = do
    send_lines sock (request_lines tls hostname port ws_protocol url_path)
    line ← ws_recvln fuel sock max_line_length
    if not (text_eq line status_line)
        then raise ws_proto
        else read_headers fuel max_headers sock (proto_header ws_protocol) ws_flags 0
