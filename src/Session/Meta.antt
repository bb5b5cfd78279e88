-- ===== src/Session/Meta.antt =====
-- run_tests and run_meta (include/libndt/libndt.hpp) over a stream, without WebSocket and without
-- JSON.
use libndt.Client.{Client, Json, Settings, uses}
use libndt.Client.Steps.{run_meta, run_suite, run_test, run_tests, write_metadata}
use libndt.Io.{Io, gets, ok, ◌>>◌}
use libndt.Io.Gives.{Gives, Gives-bind, Gives-on, Gives-pure, Gives-then}
use libndt.Msg.{msg_expect_empty, msg_write, msg_write_legacy}
use libndt.Msg.Expect.{msg_expect-raw}
use libndt.Msg.Legacy.{Kept, msg_write_legacy-raw, wire}
use libndt.Net.{Draw, Net}
use libndt.Net.Stream.{View}
use libndt.Prelude.{
  All, List, [], ap, arith, false, length, refl, true, ℕ, ◌++◌, ◌<◌, ◌==◌, ◌^◌, ◌∙◌, ◌∷◌, ◌≡◌,
}
use libndt.Prelude.Bytes.{Bytes}
use libndt.Session.Steps.{IsOnline, kept_of, same_flags, seen_at}
use libndt.Sys.{Sys}
use libndt.Types.{
  Socket, has, msg_test_finalize, msg_test_msg, msg_test_prepare, msg_test_start,
  protocol_flag_json, protocol_flag_tls, protocol_flag_websocket,
}
use mathlib.Core.List.{append-nil, append_assoc}

-- The messages of the server, and of the client, in the META test.
abbrev pub meta_input : Bytes
meta_input = wire msg_test_prepare [] ++ (wire msg_test_start [] ++ wire msg_test_finalize [])

abbrev pub metadata_bytes : List (Bytes × Bytes) → Bytes
metadata_bytes [] = []
metadata_bytes ((k, v) ∷ rest) = wire msg_test_msg (k ++ b':' ∷ v) ++ metadata_bytes rest

abbrev pub meta_output : List (Bytes × Bytes) → Bytes
meta_output metadata = metadata_bytes metadata ++ wire msg_test_msg []

module _ {W J : Type 0} (sys : Sys W) {net : Net (Client W)} {draw : Draw (Client W)}
    {sock : Socket} {view : Client W → View Kept} (online : IsOnline net draw sock view)
    (json : Json J) (fuel : ℕ) (settings : Settings) (suite : List ℕ)
    (tcp : has settings.protocol_flags protocol_flag_tls ≡ false)
    (raw : has settings.protocol_flags protocol_flag_websocket ≡ false)
    (no_json : has settings.protocol_flags protocol_flag_json ≡ false) where
  abbrev there : Bytes → Bytes → View Kept
  there i out = seen_at sys online json fuel settings suite i out

  msg_expect_empty-received :
      (code : ℕ) (rest out : Bytes)
      → Gives view
          (msg_expect_empty net draw json fuel code)
          (there (wire code [] ++ rest) out)
          (ok tt)
          (there rest out)
  unfolding msg_expect_empty
  msg_expect_empty-received code rest out =
      let same : (code == code) ≡ true = ground arith in
      let body =
        msg_expect-raw (online.stream settings suite tcp) online.sees json fuel code code [] rest
          out raw no_json (omega arith) in
      Gives-bind _ (rw same at body) (Gives-pure tt _)

  msg_write-sent :
      (code : ℕ) (body i out : Bytes)
      → length body < 2 ^ 16
      → Gives view
          (msg_write net draw json fuel code body)
          (there i out)
          (ok tt)
          (there i (out ++ wire code body))
  unfolding msg_write
  msg_write-sent code body i out short =
      Gives-on _ (msg_write_legacy net draw json fuel code body)
        (λ s h.
          let no_text : uses protocol_flag_json s ≡ false =
            same_flags sys online json fuel settings suite tcp raw no_json s i out
              protocol_flag_json h
            ∙ no_json in
          rw no_text refl)
        (msg_write_legacy-raw (online.stream settings suite tcp) online.sees json fuel code body i
          out raw short)

  write_metadata-sent :
      (metadata : List (Bytes × Bytes)) (i out : Bytes)
      → All (λ m. length (m.0 ++ b':' ∷ m.1) < 2 ^ 16) metadata
      → Gives view
          (write_metadata sys net draw json fuel metadata)
          (there i out)
          (ok tt)
          (there i (out ++ metadata_bytes metadata))
  unfolding write_metadata
  write_metadata-sent [] i out short = rw append-nil (Gives-pure tt _)
  write_metadata-sent ((k, v) ∷ rest) i out short =
      let first = wire msg_test_msg (k ++ b':' ∷ v) in
      let others = write_metadata-sent rest i (out ++ first) short.1 in
      Gives-bind _ (msg_write-sent msg_test_msg (k ++ b':' ∷ v) i out short.0)
        (rw (append_assoc out first (metadata_bytes rest)) at others)

  meta_metadata :
      (i out : Bytes)
      → Gives {E = Unit {0}} view
          (gets (λ (s : Client W). s.settings.metadata))
          (there i out)
          (ok settings.metadata)
          (there i out)
  meta_metadata i out = record {
    at = λ s h. (
      ap (λ (k : Kept). ok k.0.metadata) (kept_of sys online json fuel s settings suite i out h),
      h,
    );
  }

  -- Over a stream, without TLS, WebSocket and JSON: where the server sends the three empty
  -- messages of the META test, the test ends well, has sent a message `key:value` for each entry
  -- of the metadata, in their order, and an empty one behind them, and has left what follows. Each
  -- entry has fewer than 2^16 bytes.
  pub run_meta-sent :
      (rest out : Bytes)
      → All (λ m. length (m.0 ++ b':' ∷ m.1) < 2 ^ 16) settings.metadata
      → Gives view
          (run_meta sys net draw json fuel)
          (there (meta_input ++ rest) out)
          (ok tt)
          (there rest (out ++ meta_output settings.metadata))
  unfolding run_meta
  run_meta-sent rest out short =
      let prepare = wire msg_test_prepare [] in
      let start = wire msg_test_start [] in
      let final = wire msg_test_finalize [] in
      let sent = metadata_bytes settings.metadata in
      let split : meta_input ++ rest ≡ prepare ++ (start ++ (final ++ rest)) =
        append_assoc prepare (start ++ final) rest
        ∙ ap (λ (x : Bytes). prepare ++ x) (append_assoc start final rest) in
      let empty =
        rw (append_assoc out sent (wire msg_test_msg [])) at
          (msg_write-sent msg_test_msg [] (final ++ rest) (out ++ sent) (omega arith)) in
      rw split (
        Gives-then (msg_expect_empty-received msg_test_prepare (start ++ (final ++ rest)) out) (
          Gives-then (msg_expect_empty-received msg_test_start (final ++ rest) out) (
            Gives-bind
              (λ metadata. do
                write_metadata sys net draw json fuel metadata
                msg_write net draw json fuel msg_test_msg []
                msg_expect_empty net draw json fuel msg_test_finalize)
              (meta_metadata (final ++ rest) out)
              (Gives-then (write_metadata-sent settings.metadata (final ++ rest) out short) (
                Gives-then empty (
                  msg_expect_empty-received msg_test_finalize rest
                    (out ++ meta_output settings.metadata)))))))

  -- The tests with these ids take what is seen of the client from one view to the other, each of
  -- them well.
  pub data Tests (upload download : Io (Client W) Unit Unit)
      : List ℕ → View Kept → View Kept → Type 0 where
    no_tests : {v : View Kept} → Tests upload download [] v v
    then_test :
        {tid : ℕ} {rest : List ℕ} {v v1 v2 : View Kept}
        → Gives view (run_test sys net draw json fuel upload download tid) v (ok tt) v1
        → Tests upload download rest v1 v2
        → Tests upload download (tid ∷ rest) v v2

  run_suite-Tests :
      {upload download : Io (Client W) Unit Unit} {ids : List ℕ} {v v' : View Kept}
      → Tests upload download ids v v'
      → Gives view (run_suite sys net draw json fuel upload download ids) v (ok tt) v'
  unfolding run_suite
  run_suite-Tests no_tests = Gives-pure tt _
  run_suite-Tests (then_test test more) = Gives-bind _ test (run_suite-Tests more)

  pub run_tests-Tests :
      {upload download : Io (Client W) Unit Unit} (i out : Bytes) {v' : View Kept}
      → Tests upload download suite (there i out) v'
      → Gives view (run_tests sys net draw json fuel upload download) (there i out) (ok tt) v'
  unfolding run_tests
  run_tests-Tests {upload} {download} i out tests =
      Gives-on _ (run_suite sys net draw json fuel upload download suite)
        (λ s h.
          ap (λ (k : Kept). run_suite sys net draw json fuel upload download k.2 s)
            (kept_of sys online json fuel s settings suite i out h))
        (run_suite-Tests tests)
