-- ===== src/Transfer/Ndt7.antt =====
-- ndt7_download and ndt7_upload (include/libndt/libndt.hpp).
pub mod Download
pub mod Messages
pub mod Upload
pub mod Frames
use libndt.Client.{Client, Json, Summary, no_ratio}
use libndt.Client.Steps.{ndt7_connect}
use libndt.Err.{Err, eof}
use libndt.Io.{Io, Result, err, ok, pure, stuck, ◌>>=◌, ◌>>◌}
use libndt.Msg.{to_bool}
use libndt.Net.{Draw, Net}
use libndt.Prelude.{
  List, Option, [], if◌then◌else◌, length, ltb, none, some, suc, zero, ℕ, ◌%◌, ◌*◌, ◌+◌, ◌-◌, ◌/◌,
  ◌==◌, ◌^◌, ◌∷◌,
}
use libndt.Prelude.Bytes.{Bytes}
use libndt.Prelude.Text.{codes, text_eq}
use libndt.Sys.{Sys}
use libndt.Transfer.{
  Clock, Numerals, change_summary, compute_speed_kbits, integral, measurement_interval,
  on_performance, one_second, read_clock, reset_download, retransmission_rate, set_summary,
}
use libndt.Types.{Socket, nettest_flag_download, nettest_flag_upload, ws_opcode_text}
use libndt.Ws.{Message, random_printable_fill, ws_prepare_frame, ws_recvmsg, ws_send_frame}

-- What happens to the summary when a measurement of the server has these counters. The rate is set
-- before MinRTT is looked at.
pub note_counters : Option ℕ → Option ℕ → Option ℕ → Summary → Summary
note_counters (some retrans) (some sent) (some rtt) u = record u {
  download_retrans = retransmission_rate (integral retrans) (integral sent);
  min_rtt = rtt % 2 ^ 32;
}
note_counters (some retrans) (some sent) none u = record u {
  download_retrans = retransmission_rate (integral retrans) (integral sent);
}
note_counters _ _ _ u = u

-- The JSON of an upload measurement: the microseconds, the bytes, and on Linux the fields of
-- NDT7_ENUM_TCP_INFO, by their names, if getsockopt gave them.
pub record UploadMeasurement : Type 0 where
  pub elapsed_usec : ℕ
  pub num_bytes : ℕ
  pub tcp_info : Option (List (Bytes × ℕ))

pub find_counter : Bytes → List (Bytes × ℕ) → Option ℕ
find_counter name [] = none
find_counter name ((k, v) ∷ more) =
    let rest = find_counter name more in if text_eq k name then some v else rest

pub note_upload_counters : Option ℕ → Option ℕ → Summary → Summary
note_upload_counters (some retrans) (some sent) u = record u {
  upload_retrans = retransmission_rate (integral retrans) (integral sent);
}
note_upload_counters _ _ u = u

-- The retransmission rate of an upload, where there is a "TCPInfo".
pub note_tcp_info : Option (List (Bytes × ℕ)) → Summary → Summary
unfolding note_upload_counters find_counter
note_tcp_info none u = u
note_tcp_info (some fields) u =
    note_upload_counters (find_counter (codes "TcpiBytesRetrans") fields)
      (find_counter (codes "TcpiBytesSent") fields) u

abbrev pub download_bufsiz : ℕ
download_bufsiz = 2 ^ 24

abbrev pub upload_bufsiz : ℕ
upload_bufsiz = 2 ^ 13

abbrev pub max_upload_time : ℕ
max_upload_time = 10 * one_second

-- What a loop knows: when it began, when it last reported, and the bytes so far, modulo 2^64.
pub record Progress : Type 0 where
  pub begin : ℕ
  pub latest : ℕ
  pub total : ℕ

-- The bytes of a transfer, and the time when it ended.
pub record Transferred : Type 0 where
  pub total : ℕ
  pub elapsed : ℕ

unfoldable pub latest_report : ℕ → Progress → ℕ
latest_report now p = if ltb measurement_interval (now - p.latest) then now else p.latest

-- A round at `now` that moved `n` bytes.
unfoldable pub advance : ℕ → ℕ → Progress → Progress
unfolding latest_report
advance now n p = record {
  begin = p.begin;
  latest = latest_report now p;
  total = (p.total + n) % 2 ^ 64;
}

module _ {W : Type 0} where
  -- on_performance, if the last report is more than a quarter of a second old.
  unfoldable pub report_download : ℕ → Progress → Client W → Client W
  report_download now p s =
      if ltb measurement_interval (now - p.latest)
      then on_performance
          (record {
            tid = nettest_flag_download;
            nflows = 1;
            measured_bytes = p.total;
            elapsed = now - p.begin;
            max_runtime = s.settings.max_runtime * one_second;
          })
          s
      else s

module _ {W J : Type 0} (json : Json J) (numerals : Numerals J) where
  pub note_parsed : Option J → Client W → Client W
  unfolding note_counters
  note_parsed none s = s
  note_parsed (some m) s = set_summary s (
      note_counters (numerals.tcp_counter m (codes "BytesRetrans"))
        (numerals.tcp_counter m (codes "BytesSent")) (numerals.tcp_counter m (codes "MinRTT"))
        s.summary)

  -- A text message: its counters, if it is JSON.
  pub note_measurement : Bytes → Client W → Client W
  unfolding note_parsed
  note_measurement text s = note_parsed (json.parse text) s

  -- What follows a message.
  pub note_message : Message → Client W → Client W
  unfolding note_measurement
  note_message m s = if m.opcode == ws_opcode_text then note_measurement m.payload s else s

  -- What follows ws_recvmsg: `again` goes on with more bytes.
  unfoldable pub after_message :
      (ℕ → Io (Client W) Unit Transferred)
      → Transferred
      → Result Err Message
      → Io (Client W) Unit Transferred
  unfolding note_message
  after_message again done (ok m) s = again (length m.payload) (note_message m s)
  after_message again done (err eof) s = (ok done, s)
  after_message again done (err e) s = (err tt, s)
  after_message again done stuck s = (stuck, s)

module _ {W J : Type 0} (net : Net (Client W)) (draw : Draw (Client W)) (clock : Clock W)
    (json : Json J) (numerals : Numerals J) (budget : ℕ) where
  unfoldable pub download_loop : ℕ → Progress → Io (Client W) Unit Transferred
  unfolding after_message report_download advance
  download_loop zero p s = (stuck, s)
  download_loop (suc fuel) p s =
      let now = (clock s.world).0 in
      let s1 = record s { world = (clock s.world).1 } in
      let s2 = report_download now p s1 in
      let again = λ (n : ℕ). download_loop fuel (advance now n p) in
      let done : Transferred = record { total = p.total; elapsed = now - p.begin } in
      let r = ws_recvmsg net draw budget s2.sock download_bufsiz s2 in
      if ltb (s.settings.max_runtime * one_second) (now - p.begin)
      then (err tt, s1)
      else after_message json numerals again done r.0 r.1

  pub ndt7_download : Sys W → ℕ → Io (Client W) Unit Unit
  unfolding download_loop
  ndt7_download sys fuel = do
    ndt7_connect sys net draw json budget (codes "/ndt/v7/download")
    begin ← read_clock clock
    change_summary reset_download
    t ← download_loop fuel (record { begin = begin; latest = begin; total = 0 })
    change_summary (λ u. record u { download_speed = compute_speed_kbits t.total t.elapsed })

module _ {W : Type 0} (net : Net (Client W)) (draw : Draw (Client W)) (clock : Clock W)
    (tcp_info : Socket → W → Option (List (Bytes × ℕ)) × W)
    (dump_measurement : UploadMeasurement → Bytes) where
  -- The measurement that is sent to the server once the last one is a quarter of a second old.
  unfoldable pub send_measurement : ℕ → Progress → Io (Client W) Unit Unit
  unfolding note_tcp_info
  send_measurement now p s =
      let info = tcp_info s.sock s.world in
      let usec = (now - p.begin) / 1000 in
      let s1 = set_summary (record s { world = info.1 }) (note_tcp_info info.0 s.summary) in
      let s2 =
        on_performance
          (record {
            tid = nettest_flag_upload;
            nflows = 1;
            measured_bytes = p.total;
            elapsed = now - p.begin;
            max_runtime = max_upload_time;
          })
          s1 in
      let text =
        dump_measurement (record { elapsed_usec = usec; num_bytes = p.total; tcp_info = info.0 }) in
      to_bool (ws_send_frame net draw s2.sock 0x81 (some text) (length text)) s2

  unfoldable pub measure : ℕ → Progress → Io (Client W) Unit Unit
  unfolding send_measurement
  measure now p =
      if ltb measurement_interval (now - p.latest) then send_measurement now p else pure tt

  unfoldable pub upload_loop : ℕ → Bytes → Progress → Io (Client W) Unit Transferred
  unfolding measure advance
  upload_loop zero frame p s = (stuck, s)
  upload_loop (suc fuel) frame p s =
      let now = (clock s.world).0 in
      let s1 = record s { world = (clock s.world).1 } in
      let again = upload_loop fuel frame (advance now upload_bufsiz p) in
      if ltb max_upload_time (now - p.begin)
      then (ok (record { total = p.total; elapsed = now - p.begin }), s1)
      else (do measure now p; to_bool (net.sendn s1.sock frame); again) s1

  -- The payload of the frames is drawn, and the frame is made, once.
  pub fill_buffer : ℕ → Io (Client W) Unit Bytes
  fill_buffer n s = (ok (random_printable_fill draw n s).0, (random_printable_fill draw n s).1)

  pub binary_frame : Bytes → Io (Client W) Unit Bytes
  binary_frame buff s =
      let r = ws_prepare_frame draw 0x82 (some buff) (length buff) s in (ok r.0, r.1)

  pub ndt7_upload : {J : Type 0} → Sys W → Json J → ℕ → ℕ → Io (Client W) Unit Unit
  unfolding upload_loop fill_buffer binary_frame
  ndt7_upload sys json budget fuel = do
    ndt7_connect sys net draw json budget (codes "/ndt/v7/upload")
    buff ← fill_buffer upload_bufsiz
    begin ← read_clock clock
    change_summary (λ u. record u { upload_speed = no_ratio })
    frame ← binary_frame buff
    t ← upload_loop fuel frame (record { begin = begin; latest = begin; total = 0 })
    change_summary (λ u. record u { upload_speed = compute_speed_kbits t.total t.elapsed })
