-- ===== src/Client/Steps.antt =====
-- include/libndt/libndt.hpp: the steps of a test (connect, send_login, recv_kickoff,
-- wait_in_queue, recv_version, recv_tests_ids, run_tests, run_meta, recv_results_and_logout,
-- wait_close) and ndt7_connect.
pub mod Grants
pub mod Logout
use libndt.Client.{Client, Json, Settings, uses}
use libndt.Err.{Err}
use libndt.Io.{Io, Result, err, gets, ignore, ok, pure, raise, stuck, ◌>>=◌, ◌>>◌}
use libndt.Msg.{
  getlines, msg_expect, msg_expect_empty, msg_read, msg_write, msg_write_login, to_bool,
}
use libndt.Net.{Draw, Net}
use libndt.Netx.Tls.{netx_maybews_dial, set_protocol_flags}
use libndt.Prelude.{
  List, [], bit_or, if◌then◌else◌, length, not, suc, zero, ℕ, ◌%◌, ◌&&◌, ◌++◌, ◌==◌, ◌^◌, ◌||◌, ◌∷◌,
}
use libndt.Prelude.Bytes.{Bytes}
use libndt.Prelude.Text.{codes, text_eq}
use libndt.Strtonum.{strtonum}
use libndt.Sys.{Sys}
use libndt.Types.{
  has, invalid, is_socket_valid, max_loops, msg_login, msg_logout, msg_results, msg_srv_queue,
  msg_test_finalize, msg_test_msg, msg_test_prepare, msg_test_start, nettest_flag_download,
  nettest_flag_download_ext, nettest_flag_meta, nettest_flag_upload, protocol_flag_tls,
  protocol_flag_websocket,
}

abbrev pub kickoff : Bytes
kickoff = codes "123456 654321"

abbrev pub control_flags : ℕ
control_flags = 15

-- The port that connect uses.
unfoldable pub control_port : Settings → Bytes
unfolding has
control_port settings =
    if not (length settings.port == 0)
    then settings.port
    else if has settings.protocol_flags protocol_flag_tls
    then codes "3010"
    else codes "3001"

module _ {W J : Type 0} (sys : Sys W) (net : Net (Client W)) (draw : Draw (Client W))
    (json : Json J) (fuel : ℕ) where
  -- A socket that a previous attempt left open is closed.
  close_previous : Io (Client W) Unit Unit
  close_previous s =
      let closed = to_bool (ignore (net.closesocket s.sock)) s in
      if is_socket_valid s.sock then (closed.0, record closed.1 { sock = invalid }) else (ok tt, s)

  -- A dial into `sock_`.
  dial_control : Bytes → Bytes → Bytes → Io (Client W) Unit Unit
  dial_control port ws_protocol url_path s =
      let r =
        netx_maybews_dial sys net fuel s.settings.hostname port control_flags ws_protocol url_path
          s in
      let s1 = record r.1 { sock = r.0.1 } in
      let result : Result Err Unit = r.0.0 in
      elim result [ ok _ ↦ (ok tt, s1) | err e ↦ (err tt, s1) | stuck ↦ (stuck, s1) ]

  unfoldable pub connect : Io (Client W) Unit Unit
  unfolding close_previous dial_control
  connect s =
      let port = control_port s.settings in
      (do close_previous; dial_control port (codes "ndt") (codes "/ndt_protocol")) s

  change_flags : ℕ → Io (Client W) Unit Unit
  change_flags flags s = (ok tt, set_protocol_flags flags s)

  pub ndt7_connect : Bytes → Io (Client W) Unit Unit
  unfolding close_previous dial_control change_flags
  ndt7_connect url_path s =
      let port = if length s.settings.port == 0 then codes "443" else s.settings.port in
      (do
        close_previous
        flags ← gets (λ (s1 : Client W).
            bit_or s1.settings.protocol_flags (bit_or protocol_flag_websocket protocol_flag_tls))
        change_flags flags
        dial_control port (codes "net.measurementlab.ndt.v7") url_path)
        s

  unfoldable pub send_login : Io (Client W) Unit Unit
  send_login = msg_write_login net draw json fuel (codes "v3.7.0")

  unfoldable pub recv_kickoff : Io (Client W) Unit Unit
  recv_kickoff s =
      (if uses protocol_flag_websocket s then pure tt else do
        buf ← to_bool (net.recvn s.sock (length kickoff))
        if text_eq buf kickoff then pure tt else raise tt)
        s

  server_busy : Bytes → Io (Client W) Unit Unit
  server_busy msg s = (err tt, record s { busy = msg ∷ s.busy })

  unfoldable pub wait_in_queue : Io (Client W) Unit Unit
  unfolding server_busy
  wait_in_queue = do
    message ← msg_expect net draw json fuel msg_srv_queue
    if not (text_eq message (codes "0")) then server_busy message else pure tt

  unfoldable pub recv_version : Io (Client W) Unit Unit
  recv_version = do msg_expect net draw json fuel msg_login; pure tt

  -- The loop of recv_tests_ids over the words: what was granted before a bad word stays granted.
  unfoldable pub grant_tests : List Bytes → Io (Client W) Unit Unit
  grant_tests [] s = (ok tt, s)
  grant_tests (cur ∷ rest) s =
      let next = λ (tid : ℕ).
        grant_tests rest (record s { granted_suite = s.granted_suite ++ tid % 2 ^ 8 ∷ [] }) in
      elim (strtonum cur 1 256) [ ok tid ↦ next tid | _ ↦ (err tt, s) ]

  unfoldable pub recv_tests_ids : Io (Client W) Unit Unit
  recv_tests_ids = do
    message ← msg_expect net draw json fuel msg_login
    grant_tests (getlines b' ' message)

  unfoldable pub write_metadata : List (Bytes × Bytes) → Io (Client W) Unit Unit
  write_metadata [] = pure tt
  write_metadata ((k, v) ∷ rest) = do
    msg_write net draw json fuel msg_test_msg (k ++ b':' ∷ v)
    write_metadata rest

  unfoldable pub run_meta : Io (Client W) Unit Unit
  unfolding write_metadata
  run_meta = do
    msg_expect_empty net draw json fuel msg_test_prepare
    msg_expect_empty net draw json fuel msg_test_start
    metadata ← gets (λ s. s.settings.metadata)
    write_metadata metadata
    msg_write net draw json fuel msg_test_msg []
    msg_expect_empty net draw json fuel msg_test_finalize

  -- The loop of recv_results_and_logout, with the rounds left.
  pub read_results : ℕ → Io (Client W) Unit Unit
  read_results zero = raise tt
  read_results (suc rounds) =
      let again = read_results rounds in
      do
        m ← msg_read net draw json fuel
        if not (m.code == msg_results) && not (m.code == msg_logout)
            then raise tt
            else if m.code == msg_logout
            then pure tt
            else again

  pub recv_results_and_logout : Io (Client W) Unit Unit
  recv_results_and_logout = read_results max_loops

  unfoldable pub wait_close : Io (Client W) Unit Unit
  wait_close = do
    sock ← gets (λ (s : Client W). s.sock)
    to_bool (ignore (net.wait_readable sock 3))
    sock' ← gets (λ (s : Client W). s.sock)
    to_bool (ignore (net.closesocket sock'))

  -- One test of run_tests, over the methods that run an upload and a download.
  unfoldable pub run_test :
      Io (Client W) Unit Unit → Io (Client W) Unit Unit → ℕ → Io (Client W) Unit Unit
  run_test upload download tid =
      if tid == nettest_flag_upload
      then upload
      else if tid == nettest_flag_meta
      then run_meta
      else if tid == nettest_flag_download || tid == nettest_flag_download_ext
      then download
      else raise tt

  unfoldable pub run_suite :
      Io (Client W) Unit Unit → Io (Client W) Unit Unit → List ℕ → Io (Client W) Unit Unit
  run_suite upload download [] = pure tt
  run_suite upload download (tid ∷ rest) = do
    run_test upload download tid
    run_suite upload download rest

  unfoldable pub run_tests :
      Io (Client W) Unit Unit → Io (Client W) Unit Unit → Io (Client W) Unit Unit
  run_tests upload download s = run_suite upload download s.granted_suite s
