-- ===== src/Runs/Messages.antt =====
-- The theorems on the NDT messages and on SOCKSv5 at concrete inputs.
use libndt.Err.{io_error}
use libndt.Io.{err, ok}
use libndt.Io.Gives.{Gives}
use libndt.Msg.{
  TestPrepare, login_flags, msg_header, msg_read_legacy, msg_write_legacy, parse_nflows,
  parse_test_prepare,
}
use libndt.Msg.Flags.{login_flags-sent}
use libndt.Msg.Frames.{msg_read_legacy-fragments, msg_write_legacy-wire_frames}
use libndt.Msg.Legacy.{Kept, msg_read_legacy-raw, wire, wire_frames}
use libndt.Msg.Options.{IsPrepared, parse_test_prepare-IsPrepared}
use libndt.Net.Stream.{View}
use libndt.Prelude.{All, [], arith, bit_and, false, refl, true, ◌%◌, ◌++◌, ◌/◌, ◌<◌, ◌∷◌, ◌≡◌}
use libndt.Prelude.Bytes.{Bytes}
use libndt.Prelude.Text.{codes}
use libndt.Runs.Wire.{over_ws, plain, plain_json, wire-Stream, wire_draw, wire_net, wire_view}
use libndt.Socks.{socks5h_negotiate}
use libndt.Socks.Negotiate.{
  connect_bytes, domain_name, greeting, socks5h_negotiate-accepted, socks5h_negotiate-refused,
}
use libndt.Strtonum.{strtonum}
use libndt.Strtonum.Decimal.{IsDigit, decimal_value, strtonum-digits}
use libndt.Types.{fd, has, msg_login, protocol_flag_websocket, ws_opcode_binary}
use libndt.Ws.Control.{ping}
use libndt.Ws.Fragments.{Fragment, fragment_replies, message_bytes}
use libndt.Ws.Talks.{Talks}

abbrev kept_plain : Kept
kept_plain = (plain, fd 3, [])

abbrev raw_view : Bytes → Bytes → View Kept
raw_view i out = record { input = i; output = out; kept = kept_plain }

abbrev body : Bytes
body = 118 ∷ 51 ∷ []

plain-raw : has plain.protocol_flags protocol_flag_websocket ≡ false
unfolding has
plain-raw = refl

ws-used : has over_ws.protocol_flags protocol_flag_websocket ≡ true
unfolding has
ws-used = refl

msg_read_legacy-raw_example :
    Gives wire_view
      (msg_read_legacy wire_net wire_draw plain_json 5)
      (raw_view (wire msg_login body ++ 9 ∷ []) [])
      (ok (record { code = msg_login; body = body }))
      (raw_view (9 ∷ []) [])
msg_read_legacy-raw_example =
    msg_read_legacy-raw (wire-Stream (plain, fd 3, [])) (λ s. refl) plain_json 5 msg_login body
      (9 ∷ []) [] plain-raw (omega arith)

abbrev part1 : Fragment
part1 = record { controls = ping (7 ∷ []) ∷ []; chunk = 2 ∷ 0 ∷ [] }

abbrev part2 : Fragment
part2 = record { controls = []; chunk = 2 ∷ 118 ∷ 51 ∷ [] }

msg_read_legacy-fragments_example :
    Talks wire_view
      (msg_read_legacy wire_net wire_draw plain_json 5)
      (over_ws, fd 3, [])
      (message_bytes ws_opcode_binary part1 (part2 ∷ []) ++ 9 ∷ [])
      (ok (record { code = msg_login; body = body }))
      (9 ∷ [])
      (fragment_replies (part1 ∷ part2 ∷ []))
unfolding msg_header
msg_read_legacy-fragments_example =
    msg_read_legacy-fragments (wire-Stream (over_ws, fd 3, [])) (λ s. refl) plain_json 5 msg_login
      body part1 (part2 ∷ []) (9 ∷ []) ws-used refl (omega arith)
      ((omega arith, (((omega arith, tt), omega arith), tt)), ((omega arith, tt), tt)) (omega arith)

login_flags-sent_example :
    (login_flags 0xff / 16 % 4 ≡ 3)
    × (login_flags 0xff % 2 ≡ 0)
    × (login_flags 0xff / 8 % 2 ≡ 0)
    × (login_flags 0xff / 64 % 2 ≡ 0)
    × (bit_and (login_flags 0xff) 134 ≡ bit_and 0xff 134)
    × (login_flags 0xff < 256)
login_flags-sent_example = login_flags-sent 0xff (omega arith)

abbrev three_digits : Bytes
three_digits = codes "443"

three_digits-IsDigit : All IsDigit three_digits
three_digits-IsDigit =
    ((omega arith, omega arith), ((omega arith, omega arith), ((omega arith, omega arith), tt)))

port-443_from_1 : strtonum (codes "443") 1 65535 ≡ ok 443
unfolding decimal_value
port-443_from_1 =
    strtonum-digits b'4' (b'4' ∷ b'3' ∷ []) 1 65535 three_digits-IsDigit (omega arith) (omega arith)
      (omega arith)

abbrev prepared : TestPrepare
prepared = record { port = codes "443"; nflows = 1 }

prepare_options-parsed : parse_test_prepare (codes "443" ∷ []) ≡ ok prepared
unfolding parse_test_prepare parse_nflows
prepare_options-parsed = rw (parse_test_prepare, port-443_from_1) refl

parse_test_prepare-IsPrepared_example : IsPrepared (codes "443" ∷ []) prepared
parse_test_prepare-IsPrepared_example =
    parse_test_prepare-IsPrepared (codes "443" ∷ []) prepared prepare_options-parsed

port-443 : strtonum (codes "443") 0 65535 ≡ ok 443
unfolding decimal_value
port-443 =
    strtonum-digits b'4' (b'4' ∷ b'3' ∷ []) 0 65535 three_digits-IsDigit (omega arith) (omega arith)
      (omega arith)

socks5h_negotiate-accepted_example :
    Gives wire_view
      (socks5h_negotiate wire_net (fd 3) (codes "h") (codes "443"))
      (raw_view
        ((5 ∷ 0 ∷ []) ++ ((5 ∷ 0 ∷ 0 ∷ 3 ∷ []) ++ ((1 ∷ 104 ∷ []) ++ ((1 ∷ 187 ∷ []) ++ 9 ∷ []))))
        [])
      (ok tt)
      (raw_view (9 ∷ []) (([] ++ greeting) ++ connect_bytes (codes "h") 443))
socks5h_negotiate-accepted_example =
    socks5h_negotiate-accepted (wire-Stream kept_plain) (codes "h") (codes "443") (1 ∷ 187 ∷ [])
      (9 ∷ []) [] 443 (domain_name (104 ∷ [])) (omega arith) port-443 (omega arith) refl

socks5h_negotiate-refused_example :
    Gives wire_view
      (socks5h_negotiate wire_net (fd 3) (codes "h") (codes "443"))
      (raw_view ((5 ∷ 0 ∷ []) ++ ((5 ∷ 4 ∷ 0 ∷ 1 ∷ []) ++ 9 ∷ [])) [])
      (err io_error)
      (raw_view (9 ∷ []) (([] ++ greeting) ++ connect_bytes (codes "h") 443))
socks5h_negotiate-refused_example =
    socks5h_negotiate-refused (wire-Stream kept_plain) (codes "h") (codes "443") (9 ∷ []) [] 443 4 0
      1 (omega arith) port-443 refl

msg_write_legacy-wire_frames_example :
    Talks wire_view
      (msg_write_legacy wire_net wire_draw plain_json 5 msg_login body)
      (over_ws, fd 3, [])
      []
      (ok tt)
      []
      (wire_frames msg_login body)
msg_write_legacy-wire_frames_example =
    msg_write_legacy-wire_frames (wire-Stream (over_ws, fd 3, [])) (λ s. refl) plain_json 5
      msg_login body [] ws-used (omega arith) (omega arith, (omega arith, tt)) (omega arith)
