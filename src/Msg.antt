-- ===== src/Msg.antt =====
-- include/libndt/libndt.hpp: the NDT messages (msg_write_legacy, msg_write, msg_write_login,
-- msg_read_legacy, msg_read, msg_expect, msg_expect_empty, msg_expect_test_prepare). The functions
-- return bool, so they fail with `tt`.
pub mod Legacy
pub mod Frames
pub mod Expect
pub mod Flags
pub mod Options
pub mod Lines
use libndt.Client.{Client, Json, uses}
use libndt.Err.{Err}
use libndt.Io.{Io, Result, err, lift, ok, pure, raise, stuck, ◌>>=◌, ◌>>◌}
use libndt.Net.{Draw, Net}
use libndt.Prelude.{
  List, Option, [], bit_and, bit_or, drop, get_or, if◌then◌else◌, leb, length, ltb, none, not, some,
  ℕ, ◌%◌, ◌*◌, ◌++◌, ◌+◌, ◌-◌, ◌/◌, ◌==◌, ◌^◌, ◌∷◌,
}
use libndt.Prelude.Bytes.{Bytes}
use libndt.Prelude.Text.{codes}
use libndt.Strtonum.{strtonum}
use libndt.Types.{
  Socket, has, msg_extended_login, msg_login, msg_test_prepare, nettest_flag_meta,
  nettest_flag_middlebox, nettest_flag_simple_firewall, nettest_flag_status,
  nettest_flag_upload_ext, protocol_flag_json, protocol_flag_websocket, ws_fin_flag,
  ws_opcode_binary, ws_opcode_continue,
}
use libndt.Ws.{Message, ws_recvmsg, ws_send_frame}

-- std::getline(ss, cur, delim) until it fails: `cur` is what has been read of a token.
pub getline_from : ℕ → Bytes → Bytes → List Bytes
getline_from delim cur [] = elim cur [ [] ↦ [] | c ∷ cs ↦ (c ∷ cs) ∷ [] ]
getline_from delim cur (c ∷ cs) =
    let next = getline_from delim [] cs in
    let more = getline_from delim (cur ++ c ∷ []) cs in if c == delim then cur ∷ next else more

unfoldable pub getlines : ℕ → Bytes → List Bytes
unfolding getline_from
getlines delim s = getline_from delim [] s

-- The header of an NDT message: the type, and the length of the body in network order.
unfoldable pub msg_header : ℕ → ℕ → Bytes
msg_header code len = code ∷ (len / 2 ^ 8 % 256) ∷ (len % 256) ∷ []

pub header_len : Bytes → ℕ
header_len buf = get_or buf 1 0 * 2 ^ 8 + get_or buf 2 0

-- The port and the number of flows of a MSG_TEST_PREPARE.
pub record TestPrepare : Type 0 where
  pub port : Bytes
  pub nflows : ℕ

unfoldable pub parse_nflows : Bytes → List Bytes → Result Unit TestPrepare
parse_nflows port options =
    if leb 6 (length options)
    then (elim (strtonum (get_or options 5 []) 1 16) [
      | ok n ↦ ok (record { port = port; nflows = n % 2 ^ 8 })
      | _ ↦ err tt
    ])
    else ok (record { port = port; nflows = 1 })

-- What msg_expect_test_prepare does with the options.
unfoldable pub parse_test_prepare : List Bytes → Result Unit TestPrepare
unfolding parse_nflows
parse_test_prepare [] = err tt
parse_test_prepare (port ∷ more) = elim (strtonum port 1 65535) [
  | ok n ↦ parse_nflows port (port ∷ more)
  | _ ↦ err tt
]

-- The nettest flags that msg_write_login sends.
pub login_flags : ℕ → ℕ
unfolding has
login_flags flags0 =
    let flags1 = bit_or flags0 (bit_or nettest_flag_status nettest_flag_meta) in
    let flags2 =
      if has flags1 nettest_flag_middlebox
      then bit_and flags1 (255 - nettest_flag_middlebox)
      else flags1 in
    let flags3 =
      if has flags2 nettest_flag_simple_firewall
      then bit_and flags2 (255 - nettest_flag_simple_firewall)
      else flags2 in
    if has flags3 nettest_flag_upload_ext
    then bit_and flags3 (255 - nettest_flag_upload_ext)
    else flags3

-- std::to_string of a number that fits in a byte.
pub decimal_byte : ℕ → Bytes
decimal_byte n =
    if ltb n 10
    then (b'0' + n) ∷ []
    else if ltb n 100
    then (b'0' + n / 10) ∷ (b'0' + n % 10) ∷ []
    else (b'0' + n / 100) ∷ (b'0' + n / 10 % 10) ∷ (b'0' + n % 10) ∷ []

-- The largest message that the buffer of msg_read_legacy holds.
abbrev pub max_msg_size : ℕ
max_msg_size = 3 + 65535

module _ {S A : Type 0} where
  -- A caller that only looks whether there was an error.
  abbrev pub to_bool : Io S Err A → Io S Unit A
  to_bool m s = elim (m s).0 [
    | ok a ↦ (ok a, (m s).1)
    | err e ↦ (err tt, (m s).1)
    | stuck ↦ (stuck, (m s).1)
  ]

  abbrev pub guard_some : Option A → Io S Unit A
  guard_some none = raise tt
  guard_some (some a) = pure a

-- A message that was read: its type and its body.
pub record Msg : Type 0 where
  pub code : ℕ
  pub body : Bytes

module _ {W J : Type 0} (net : Net (Client W)) (draw : Draw (Client W)) (json : Json J)
    (fuel : ℕ) where
  pub send_part : ℕ → Bytes → Io (Client W) Unit Unit
  send_part first_byte part s =
      to_bool
        (if uses protocol_flag_websocket s
          then ws_send_frame net draw s.sock first_byte (some part) (length part)
          else net.sendn s.sock part)
        s

  pub msg_write_legacy : ℕ → Bytes → Io (Client W) Unit Unit
  unfolding send_part
  msg_write_legacy code msg = if ltb 65535 (length msg) then raise tt else do
    send_part (bit_or ws_opcode_binary (if length msg == 0 then ws_fin_flag else 0))
        (msg_header code (length msg))
    if length msg == 0 then pure tt else send_part (bit_or ws_opcode_continue ws_fin_flag) msg

  unfoldable pub msg_write : ℕ → Bytes → Io (Client W) Unit Unit
  msg_write code msg s =
      (if uses protocol_flag_json s
          then (do
            text ← guard_some (json.dump (json.object ((codes "msg", msg) ∷ [])))
            msg_write_legacy code text)
          else msg_write_legacy code msg)
        s

  unfoldable pub set_nettest_flags : ℕ → Io (Client W) Unit Unit
  set_nettest_flags flags s =
      (ok tt, record s { settings = record s.settings { nettest_flags = flags } })

  unfoldable pub msg_write_login : Bytes → Io (Client W) Unit Unit
  unfolding set_nettest_flags
  msg_write_login version s =
      let flags = login_flags s.settings.nettest_flags in
      (do
        set_nettest_flags flags
        if uses protocol_flag_json s
            then (do
              text ← guard_some (
                  json.dump (
                    json.object
                      ((codes "msg", version) ∷ (codes "tests", decimal_byte flags) ∷ [])))
              msg_write_legacy msg_extended_login text)
            else msg_write_legacy msg_login (flags ∷ []))
        s

  -- The checks on a WebSocket message that is to be an NDT message.
  pub unwrap_ws : Message → Io (Client W) Unit Msg
  unwrap_ws m =
      if ltb (length m.payload) 3
      then raise tt
      else if not (m.opcode == ws_opcode_binary)
      then raise tt
      else if not (header_len m.payload == length m.payload - 3)
      then raise tt
      else pure (record { code = get_or m.payload 0 0; body = drop 3 m.payload })

  -- The branch of msg_read_legacy that is taken over WebSocket.
  pub read_ws : Socket → Io (Client W) Unit Msg
  read_ws sock = do m ← to_bool (ws_recvmsg net draw fuel sock max_msg_size); unwrap_ws m

  -- The branch that is taken without WebSocket.
  pub read_raw : Socket → Io (Client W) Unit Msg
  read_raw sock = do
    header ← to_bool (net.recvn sock 3)
    if header_len header == 0 then pure (record { code = get_or header 0 0; body = [] }) else do
      body ← to_bool (net.recvn sock (header_len header))
      pure (record { code = get_or header 0 0; body = body })

  pub msg_read_legacy : Io (Client W) Unit Msg
  unfolding read_ws read_raw
  msg_read_legacy s = (if uses protocol_flag_websocket s then read_ws s.sock else read_raw s.sock) s

  pub decode_body : Msg → Io (Client W) Unit Msg
  decode_body m s =
      (if uses protocol_flag_json s
          then (do
            value ← guard_some (json.parse m.body)
            text ← guard_some (json.at_string value (codes "msg"))
            pure (record { code = m.code; body = text }))
          else pure m)
        s

  pub msg_read : Io (Client W) Unit Msg
  unfolding decode_body
  msg_read = do m ← msg_read_legacy; decode_body m

  pub msg_expect : ℕ → Io (Client W) Unit Bytes
  msg_expect expected_code = do
    m ← msg_read
    if not (m.code == expected_code) then raise tt else pure m.body

  unfoldable pub msg_expect_empty : ℕ → Io (Client W) Unit Unit
  msg_expect_empty expected_code = do
    body ← msg_expect expected_code
    if not (length body == 0) then raise tt else pure tt

  pub msg_expect_test_prepare : Io (Client W) Unit TestPrepare
  msg_expect_test_prepare = do
    message ← msg_expect msg_test_prepare
    lift (parse_test_prepare (getlines b' ' message))
