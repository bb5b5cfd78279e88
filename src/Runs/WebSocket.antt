-- ===== src/Runs/WebSocket.antt =====
-- The theorems on WebSocket at concrete inputs.
use libndt.Client.{Client}
use libndt.Err.{eof, message_size, ws_proto}
use libndt.Io.{err, ok}
use libndt.Io.Gives.{Gives}
use libndt.Io.Returns.{Returns}
use libndt.Msg.Legacy.{Kept}
use libndt.Net.Reads.{Reads}
use libndt.Netx.Dial.{netx}
use libndt.Netx.Exact.{netx-IsExact}
use libndt.Prelude.{
  All, List, [], arith, false, if◌then◌else◌, inl, length, refl, some, true, ℕ, ◌++◌, ◌+◌, ◌<◌, ◌^◌,
  ◌∷◌, ◌≡◌,
}
use libndt.Prelude.Bytes.{Bytes, IsByte}
use libndt.Prelude.Text.{codes, text_eq}
use libndt.Runs.System.{one_by_one, one_by_one-IsBounded}
use libndt.Runs.Wire.{Wire, connected, over_ws, wire-Stream, wire_draw, wire_net, wire_view}
use libndt.Types.{fd, has, ws_opcode_text}
use libndt.Ws.{
  Frame, is_control_opcode, is_known_opcode, parse_header, ws_prepare_frame, ws_recv_frame,
  ws_recvmsg,
}
use libndt.Ws.Bounds.{IsFittingMessage, ws_recvmsg-Returns, ws_recvmsg-too_large}
use libndt.Ws.Control.{Control, Fits, close_byte, control_bytes, ping, pong, replies}
use libndt.Ws.FirstBytes.{IsServerHeader, header_fields, parse_header_sound}
use libndt.Ws.Fragments.{Fragment, IsSized, fragment_replies, message_bytes, ws_recvmsg-fragments}
use libndt.Ws.Handshake.{
  accept_header, host_header, max_line_length, request_lines, status_line, ws_handshake,
}
use libndt.Ws.Handshake.Lines.{crlf, is_line_text, line_bytes, text-IsLine}
use libndt.Ws.Handshake.Response.{is_upgrade, request_bytes, ws_handshake-response}
use libndt.Ws.Handshake.Upgrade.{IsHeaderLine}
use libndt.Ws.Messages.{close_frame, ws_recv_frame-close, ws_recv_frame-data}
use libndt.Ws.Prepare.{decode_frame, decode_frame-prepare}
use libndt.Ws.Receive.{IsServerFrame, server_frame}
use libndt.Ws.Talks.{Talks}
use libndt.Ws.Termination.{ws_recvmsg-Reads}

abbrev kept_ws : Kept
kept_ws = (over_ws, fd 3, [])

abbrev hello : Bytes
hello = 72 ∷ 105 ∷ []

abbrev greeting_frame : Frame
greeting_frame = record { opcode = 1; fin = true; payload = hello }

greeting_frame-IsServerFrame : IsServerFrame greeting_frame
greeting_frame-IsServerFrame = record {
  defined = inl (omega arith);
  control_whole = λ c. absurd (omega arith);
  top_bit_clear = omega arith;
}

-- A PING and a PONG.
abbrev some_controls : List Control
some_controls = ping hello ∷ pong [] ∷ []

hello-IsByte : All IsByte hello
hello-IsByte = (omega arith, (omega arith, tt))

some_controls-Fits : All (Fits 300) some_controls
some_controls-Fits =
    ((hello-IsByte, omega arith, omega arith), ((tt, omega arith, omega arith), tt))

abbrev start : Client Wire
start = connected over_ws (record { input = []; output = []; seed = 7 })

decode_frame-prepare_example :
    decode_frame ((ws_prepare_frame wire_draw 0x82 (some hello) 2 start).0 ++ 1 ∷ [])
    ≡ some (0x82, hello, 1 ∷ [])
decode_frame-prepare_example =
    decode_frame-prepare wire_draw 0x82 hello (1 ∷ []) start hello-IsByte (omega arith)

header-parsed : parse_header 0x82 5 ≡ ok (header_fields 0x82 5)
unfolding parse_header is_known_opcode is_control_opcode has
header-parsed = refl

parse_header_sound_example : IsServerHeader 0x82 5 × (header_fields 0x82 5 ≡ header_fields 0x82 5)
parse_header_sound_example =
    parse_header_sound 0x82 5 (omega arith) (omega arith) (header_fields 0x82 5) header-parsed

ws_recv_frame-data_example :
    Talks wire_view
      (ws_recv_frame wire_net wire_draw 5 (fd 3) 300)
      kept_ws
      (control_bytes some_controls ++ (server_frame greeting_frame ++ 9 ∷ []))
      (ok greeting_frame)
      (9 ∷ [])
      (replies some_controls)
ws_recv_frame-data_example =
    ws_recv_frame-data (wire-Stream kept_ws) some_controls greeting_frame 5 300 (9 ∷ [])
      (omega arith) (omega arith) some_controls-Fits (omega arith) (omega arith) (omega arith)

ws_recv_frame-close_example :
    Talks wire_view
      (ws_recv_frame wire_net wire_draw 5 (fd 3) 300)
      kept_ws
      (control_bytes some_controls ++ (server_frame (close_frame hello) ++ []))
      (err eof)
      []
      (replies some_controls ++ (close_byte, []) ∷ [])
ws_recv_frame-close_example =
    ws_recv_frame-close (wire-Stream kept_ws) some_controls hello 5 300 [] (omega arith)
      (omega arith) some_controls-Fits (omega arith) (omega arith)

abbrev first_part : Fragment
first_part = record { controls = some_controls; chunk = hello }

abbrev second_part : Fragment
second_part = record { controls = pong hello ∷ []; chunk = 33 ∷ [] }

parts-IsSized : All (λ h. IsSized 8 h.controls) (first_part ∷ second_part ∷ [])
parts-IsSized = (
  (omega arith, ((hello-IsByte, omega arith), ((tt, omega arith), tt))),
  ((omega arith, ((hello-IsByte, omega arith), tt)), tt),
)

ws_recvmsg-fragments_example :
    Talks wire_view
      (ws_recvmsg wire_net wire_draw 8 (fd 3) 300)
      kept_ws
      (message_bytes ws_opcode_text first_part (second_part ∷ []) ++ 9 ∷ [])
      (ok (record { opcode = ws_opcode_text; payload = 72 ∷ 105 ∷ 33 ∷ [] }))
      (9 ∷ [])
      (fragment_replies (first_part ∷ second_part ∷ []))
ws_recvmsg-fragments_example =
    ws_recvmsg-fragments (wire-Stream kept_ws) ws_opcode_text first_part (second_part ∷ []) 8 300
      (9 ∷ []) (inl refl) parts-IsSized (omega arith) (omega arith) (omega arith)

ws_recvmsg-Reads_example :
    Reads wire_view kept_ws 100 2 (ws_recvmsg wire_net wire_draw 100 (fd 3) 300)
ws_recvmsg-Reads_example = ws_recvmsg-Reads (wire-Stream kept_ws) 100 300

ws_recvmsg-Returns_example :
    Returns (ws_recvmsg (netx one_by_one 20) wire_draw 20 (fd 3) 300) (IsFittingMessage 300)
ws_recvmsg-Returns_example =
    ws_recvmsg-Returns wire_draw (netx-IsExact one_by_one one_by_one-IsBounded 20 (fd 3)) 20 300

abbrev header_lines : List Bytes
header_lines =
    codes "Server: x"
    ∷ codes "Upgrade: websocket"
    ∷ accept_header
    ∷ codes "Connection: Upgrade"
    ∷ codes "Sec-WebSocket-Protocol: ndt"
    ∷ []

header_lines-IsHeaderLine : All IsHeaderLine header_lines
unfolding is_line_text
header_lines-IsHeaderLine = (
  (text-IsLine (codes "Server: x") max_line_length refl, omega arith),
  (
    (text-IsLine (codes "Upgrade: websocket") max_line_length refl, omega arith),
    (
      (text-IsLine accept_header max_line_length refl, omega arith),
      (
        (text-IsLine (codes "Connection: Upgrade") max_line_length refl, omega arith),
        ((text-IsLine (codes "Sec-WebSocket-Protocol: ndt") max_line_length refl, omega arith), tt),
      ),
    ),
  ),
)

abbrev wanted_flags : ℕ
wanted_flags = 15

request_lines-small :
    All
      (λ l. length l + 2 < 2 ^ 63)
      (request_lines false (codes "h") (codes "3001") (codes "ndt") (codes "/ndt_protocol"))
unfolding request_lines host_header text_eq
request_lines-small = (
  omega arith,
  (
    omega arith,
    (omega arith, (omega arith, (omega arith, (omega arith, (omega arith, (omega arith, tt)))))),
  ),
)

ws_handshake-response_example :
    Gives wire_view
      (ws_handshake wire_net 9000
        (fd 3)
        false
        (codes "h")
        (codes "3001")
        wanted_flags
        (codes "ndt")
        (codes "/ndt_protocol"))
      (record {
        input = (status_line ++ crlf) ++ ((line_bytes header_lines ++ crlf) ++ 9 ∷ []);
        output = [];
        kept = kept_ws;
      })
      (if is_upgrade wanted_flags (codes "ndt") header_lines then ok tt else err ws_proto)
      (record {
        input = 9 ∷ [];
        output =
            request_bytes false (codes "h") (codes "3001") (codes "ndt") (codes "/ndt_protocol");
        kept = kept_ws;
      })
ws_handshake-response_example =
    ws_handshake-response (wire-Stream kept_ws) header_lines (9 ∷ []) [] (codes "h") (codes "3001")
      (codes "ndt") (codes "/ndt_protocol") false 9000 wanted_flags header_lines-IsHeaderLine
      (omega arith) (omega arith) (omega arith) request_lines-small

-- The server of the run above is accepted.
handshake_accepted : is_upgrade wanted_flags (codes "ndt") header_lines ≡ true
unfolding text_eq has
handshake_accepted = refl

abbrev big_frame : Frame
big_frame = record { opcode = 2; fin = true; payload = 1 ∷ 2 ∷ 3 ∷ [] }

big_frame-IsServerFrame : IsServerFrame big_frame
big_frame-IsServerFrame = record {
  defined = inl (omega arith);
  control_whole = λ c. (refl, omega arith);
  top_bit_clear = omega arith;
}

ws_recvmsg-too_large_example :
    Gives wire_view
      (ws_recvmsg wire_net wire_draw 5 (fd 3) 2)
      (record { input = server_frame big_frame ++ 9 ∷ []; output = []; kept = kept_ws })
      (err message_size)
      (record { input = 1 ∷ 2 ∷ 3 ∷ 9 ∷ []; output = []; kept = kept_ws })
ws_recvmsg-too_large_example =
    ws_recvmsg-too_large (wire-Stream kept_ws) big_frame 4 2 (9 ∷ []) [] big_frame-IsServerFrame
      (omega arith) (omega arith)
