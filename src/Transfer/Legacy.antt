-- ===== src/Transfer/Legacy.antt =====
-- run_download and run_upload (include/libndt/libndt.hpp).
use libndt.Client.{Client, Json, Ratio, Summary, no_ratio, uses}
use libndt.Err.{Err}
use libndt.Io.{Io, Result, err, ignore, lift, ok, pure, raise, stuck, unless_stuck, ◌>>=◌, ◌>>◌}
use libndt.Msg.{
  msg_expect, msg_expect_empty, msg_expect_test_prepare, msg_read, msg_read_legacy, msg_write,
  to_bool,
}
use libndt.Net.{Draw, Net}
use libndt.Netx.Tls.{netx_maybews_dial}
use libndt.Prelude.{
  Bool, List, Option, [], if◌then◌else◌, length, none, not, some, suc, zero, ℕ, ◌%◌, ◌&&◌, ◌==◌,
  ◌^◌, ◌∷◌,
}
use libndt.Prelude.Bytes.{Bytes}
use libndt.Prelude.Text.{codes}
use libndt.Sys.{Sys}
use libndt.Transfer.{
  Clock, Numerals, change_summary, compute_speed_kbits, read_clock, reset_download,
  retransmission_rate, set_summary,
}
use libndt.Transfer.Flows.{Plan, Transfer, run_turns, start_transfer, stopped}
use libndt.Transfer.Ndt7.{Transferred}
use libndt.Transfer.Web100.{find_text, jsonify_web100}
use libndt.Types.{
  Socket, max_loops, msg_test_finalize, msg_test_msg, msg_test_start, nettest_flag_download,
  nettest_flag_upload, protocol_flag_websocket, ws_opcode_binary,
}
use libndt.Ws.{random_printable_fill, ws_prepare_frame, ws_recvmsg}

abbrev pub ndt_bufsize : ℕ
ndt_bufsize = 131072

-- The flags that a data connection wants of the handshake.
abbrev data_flags : ℕ
data_flags = 15

module _ {W : Type 0} (net : Net (Client W)) where
  -- ~SocketVector: every socket is closed, whatever the call returns.
  pub close_all : List Socket → Io (Client W) Err Unit
  close_all [] = pure tt
  close_all (sock ∷ socks) = do ignore (net.closesocket sock); close_all socks

  -- Code that ends with the sockets closed.
  pub with_sockets : {A : Type 0} → List Socket → Io (Client W) Unit A → Io (Client W) Unit A
  unfolding close_all
  with_sockets socks m s =
      let closed = close_all socks (m s).1 in (unless_stuck closed.0 (m s).0, closed.1)

-- The result of a transfer, once the thread that runs the test goes on. In the other states the
-- turns have not been enough.
pub transferred : {W : Type 0} → Transfer W → Result Unit Transferred × Client W
transferred t = elim t.main [
  | stopped elapsed ↦
      (ok (record { total = t.shared.total_data; elapsed = elapsed }), t.shared.client)
  | _ ↦ (stuck, t.shared.client)
]

-- The rate, if both numbers are there.
pub note_rate : Option Ratio → Option Ratio → Summary → Summary
note_rate (some retrans) (some sent) u = record u {
  download_retrans = retransmission_rate retrans sent;
}
note_rate _ _ u = u

module _ {W J : Type 0} (sys : Sys W) (net : Net (Client W)) (draw : Draw (Client W))
    (clock : Clock W) (json : Json J) (numerals : Numerals J) (budget : ℕ) where
  -- Dials one flow after the other, until one fails: the sockets, and whether all were dialed.
  pub dial_flows : ℕ → Bytes → Bytes → Client W → (List Socket × Result {0} Unit Unit) × Client W
  dial_flows zero port ws_protocol s = (([], ok tt), s)
  dial_flows (suc n) port ws_protocol s =
      let r =
        netx_maybews_dial sys net budget s.settings.hostname port data_flags ws_protocol
          (codes "/ndt_protocol") s in
      let rest = dial_flows n port ws_protocol r.1 in
      let result : Result Err Unit = r.0.0 in
      elim result [
        | ok _ ↦ ((r.0.1 ∷ rest.0.0, rest.0.1), rest.1)
        | err e ↦ (([], err tt), r.1)
        | stuck ↦ (([], stuck), r.1)
      ]

  -- What a thread of a download does in one round: a message, or some bytes.
  pub receive_piece : Bool → Socket → Bytes → Io (Client W) Unit ℕ
  receive_piece ws sock buffer =
      if ws
      then (do
        m ← to_bool (ws_recvmsg net draw budget sock ndt_bufsize)
        if m.opcode == ws_opcode_binary then pure (length m.payload) else raise tt)
      else (do data' ← to_bool (net.recv sock ndt_bufsize); pure (length data'))

  -- What a thread of an upload sends: its buffer, or the frame that is made of it.
  pub prepare_upload : Bool → Client W → Bytes × Client W
  prepare_upload ws s =
      let (buff, s1) = random_printable_fill draw ndt_bufsize s in
      let (frame, s2) = ws_prepare_frame draw 0x82 (some buff) ndt_bufsize s1 in
      (if ws then frame else buff, s2)

  pub send_piece : Bool → Socket → Bytes → Io (Client W) Unit ℕ
  send_piece ws sock buffer =
      if ws
      then (do to_bool (net.sendn sock buffer); pure (length buffer))
      else to_bool (net.send sock buffer)

  pub download_plan : ℕ → Client W → Plan W
  unfolding receive_piece
  download_plan begin s = record {
    tid = nettest_flag_download;
    prepare = λ s'. ([], s');
    move = receive_piece (uses protocol_flag_websocket s);
    clock = clock;
    begin = begin;
    max_runtime = s.settings.max_runtime;
  }

  pub upload_plan : ℕ → Client W → Plan W
  unfolding send_piece prepare_upload
  upload_plan begin s = record {
    tid = nettest_flag_upload;
    prepare = prepare_upload (uses protocol_flag_websocket s);
    move = send_piece (uses protocol_flag_websocket s);
    clock = clock;
    begin = begin;
    max_runtime = s.settings.max_runtime;
  }

  -- The threads take their turns in the order of `turns`.
  pub transfer : (ℕ → Client W → Plan W) → List ℕ → List Socket → Io (Client W) Unit Transferred
  unfolding transferred
  transfer plan turns socks = do
    begin ← read_clock clock
    λ s. transferred (run_turns (plan begin s) turns (start_transfer socks s))

  -- A text of the variables as a double.
  pub find_number : Bytes → List (Bytes × Bytes) → Option Ratio
  find_number name web100 = elim (find_text name web100) [
    | none ↦ none
    | some text ↦ numerals.stod text
  ]

  note_rtt : Option ℕ → Summary → Summary
  note_rtt none u = u
  note_rtt (some n) u = record u { min_rtt = n % 2 ^ 32 }

  note_rtt_text : Option Bytes → Summary → Summary
  unfolding note_rtt
  note_rtt_text none u = u
  note_rtt_text (some text) u = note_rtt (numerals.stoul text) u

  -- The retransmission rate and MinRTT of the variables; what is missing changes nothing.
  pub note_web100 : List (Bytes × Bytes) → Summary → Summary
  unfolding note_rate find_number note_rtt_text
  note_web100 web100 u = note_rtt_text (find_text (codes "TCPInfo.MinRTT") web100) (
      note_rate (find_number (codes "TCPInfo.BytesRetrans") web100)
        (find_number (codes "TCPInfo.BytesSent") web100) u)

  -- Another message of variables.
  add_web100 : Bytes → Io (Client W) Unit Unit
  add_web100 message s = (ok tt, record s { web100 = jsonify_web100 message s.web100 })

  finish_download : Io (Client W) Unit Unit
  unfolding note_web100
  finish_download s = (ok tt, set_summary s (note_web100 s.web100 s.summary))

  -- The messages behind the speed, of which there are `n` at most.
  pub read_web100 : ℕ → Io (Client W) Unit Unit
  unfolding add_web100 finish_download
  read_web100 zero = raise tt
  read_web100 (suc n) =
      let again = read_web100 n in
      do
        m ← msg_read net draw json budget
        if not (m.code == msg_test_msg) && not (m.code == msg_test_finalize)
            then raise tt
            else if m.code == msg_test_finalize
            then finish_download
            else do add_web100 m.body; again

  -- The speed that the server has computed.
  expect_speed : Io (Client W) Unit Unit
  expect_speed = do
    m ← msg_read_legacy net draw json budget
    if m.code == msg_test_msg then pure tt else raise tt

  write_speed : Io (Client W) Unit Unit
  write_speed s =
      msg_write net draw json budget msg_test_msg (numerals.to_string s.summary.download_speed) s

  pub download_over : List ℕ → List Socket → Io (Client W) Unit Unit
  unfolding transfer download_plan expect_speed write_speed read_web100
  download_over turns socks = do
    msg_expect_empty net draw json budget msg_test_start
    change_summary reset_download
    t ← transfer download_plan turns socks
    change_summary (λ u. record u { download_speed = compute_speed_kbits t.total t.elapsed })
    expect_speed
    write_speed
    read_web100 max_loops

  -- The flows, and what is done over them if all of them were dialed.
  pub over_flows :
      ℕ → Bytes → Bytes → (List Socket → Io (Client W) Unit Unit) → Io (Client W) Unit Unit
  unfolding dial_flows with_sockets
  over_flows nflows port ws_protocol body s =
      let d = dial_flows nflows port ws_protocol s in
      with_sockets net d.0.0 (do lift d.0.1; body d.0.0) d.1

  pub run_download : List ℕ → Io (Client W) Unit Unit
  unfolding over_flows download_over
  run_download turns = do
    p ← msg_expect_test_prepare net draw json budget
    over_flows p.nflows p.port (codes "s2c") (download_over turns)

  -- The speed that the server sends, if it is a number.
  note_upload_speed : Option Ratio → Summary → Summary
  note_upload_speed none u = u
  note_upload_speed (some speed) u = record u { upload_speed = speed }

  pub upload_over : List ℕ → List Socket → Io (Client W) Unit Unit
  unfolding transfer upload_plan note_upload_speed
  upload_over turns socks = do
    msg_expect_empty net draw json budget msg_test_start
    t ← transfer upload_plan turns socks
    change_summary (λ u. record u { upload_speed = no_ratio })
    message ← msg_expect net draw json budget msg_test_msg
    change_summary (note_upload_speed (numerals.stod message))
    msg_expect_empty net draw json budget msg_test_finalize

  -- Uploads have one flow.
  pub run_upload : List ℕ → Io (Client W) Unit Unit
  unfolding over_flows upload_over
  run_upload turns = do
    p ← msg_expect_test_prepare net draw json budget
    if not (p.nflows == 1) then raise tt else over_flows 1 p.port (codes "c2s") (upload_over turns)
