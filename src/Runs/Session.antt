-- ===== src/Runs/Session.antt =====
-- A whole session with a server that grants the META test only.
use libndt.Client.{Client, Settings}
use libndt.Client.Run.{Methods, query_mlabns, run}
use libndt.Client.Run.Failover.{none_tried}
use libndt.Client.Steps.{connect, control_port, run_meta, run_test, wait_close}
use libndt.Client.Steps.Grants.{Ids, no_ids, then_id}
use libndt.Curl.{Libcurl}
use libndt.Io.{err, ok}
use libndt.Io.Gives.{Gives}
use libndt.Msg.{getlines, login_flags}
use libndt.Msg.Legacy.{Kept, wire}
use libndt.Net.Stream.{View}
use libndt.Netx.Tls.{netx_maybessl_dial, netx_maybews_dial}
use libndt.Prelude.{List, Option, [], arith, false, none, refl, ℕ, ◌++◌, ◌∷◌, ◌≡◌}
use libndt.Prelude.Bytes.{Bytes}
use libndt.Prelude.Text.{codes}
use libndt.Runs.System.{one_by_one}
use libndt.Runs.Transfers.{no_numerals}
use libndt.Runs.Wire.{
  Wire, connected, plain, plain_json, wire-Stream, wire_draw, wire_net, wire_view,
}
use libndt.Session.{own_methods}
use libndt.Session.Meta.{Tests, meta_input, meta_output, no_tests, run_meta-sent, then_test}
use libndt.Session.Steps.{IsOnline}
use libndt.Session.Whole.{closing_input, greeting_input, run-session}
use libndt.Socks.{netx_maybesocks5h_dial}
use libndt.Strtonum.{strtonum}
use libndt.Strtonum.Decimal.{decimal_value, strtonum-digits}
use libndt.Transfer.{Clock}
use libndt.Transfer.Legacy.{run_download, run_upload}
use libndt.Transfer.Ndt7.{UploadMeasurement}
use libndt.Types.{
  Socket, fd, has, invalid, is_socket_valid, msg_login, protocol_flag_json, protocol_flag_tls,
  protocol_flag_websocket,
}

-- Nothing is asked of the name service, and no transfer is made.
abbrev no_curl : Libcurl Wire
no_curl = record {
  easy_init = λ w. (none, w);
  easy_cleanup = λ h w. w;
  easy_setopt = λ h o w. (false, w);
  easy_perform = λ h callback ss w. (err tt, w);
  response_code = λ h w. (none, w);
}

abbrev session_clock : Clock Wire
session_clock w = (0, w)

abbrev no_info : Socket → Wire → Option (List (Bytes × ℕ)) × Wire
no_info sock w = (none, w)

abbrev no_dump : UploadMeasurement → Bytes
no_dump m = []

abbrev at_h : Settings
at_h = record plain { hostname = codes "h" }

abbrev session_input : Bytes
session_input =
    greeting_input (codes "v3.7.0") (codes "32")
    ++ (meta_input ++ (closing_input ((7 ∷ []) ∷ []) [] ++ 9 ∷ []))

abbrev idle_client : Client Wire
idle_client = record (connected at_h (record { input = session_input; output = []; seed = 3 })) {
  sock = invalid;
}

wire-IsOnline : IsOnline wire_net wire_draw (fd 3) wire_view
wire-IsOnline = record {
  stream = λ settings suite tcp. wire-Stream (settings, fd 3, suite);
  sees = λ s. refl;
  updates = λ settings suite s. refl;
  waits = λ timeout s own. ((λ p. cc), own);
  closes = λ s own. λ p. cc;
}

id-32 : strtonum (codes "32") 1 256 ≡ ok 32
unfolding decimal_value
id-32 =
    strtonum-digits b'3' (b'2' ∷ []) 1 256
      ((omega arith, omega arith), ((omega arith, omega arith), tt)) (omega arith) (omega arith)
      (omega arith)

meta_granted : Ids (getlines b' ' (codes "32")) (32 ∷ [])
unfolding getlines
meta_granted = then_id id-32 no_ids

abbrev run_it : Methods (Client Wire)
run_it =
    own_methods one_by_one wire_net wire_draw session_clock plain_json no_numerals no_curl no_info
      no_dump 20 []

abbrev logged_in_at_h : Settings
logged_in_at_h = record at_h { nettest_flags = login_flags at_h.nettest_flags }

abbrev wire_at : Settings → List ℕ → Bytes → Bytes → View Kept
wire_at settings suite i out = record { input = i; output = out; kept = (settings, fd 3, suite) }

h_raw : has at_h.protocol_flags protocol_flag_websocket ≡ false
unfolding has
h_raw = refl

h_tcp : has at_h.protocol_flags protocol_flag_tls ≡ false
unfolding has
h_tcp = refl

h_no_json : has at_h.protocol_flags protocol_flag_json ≡ false
unfolding has
h_no_json = refl

abbrev sent_login : Bytes
sent_login = [] ++ wire msg_login (login_flags at_h.nettest_flags ∷ [])

abbrev sent_all : Bytes
sent_all = sent_login ++ meta_output at_h.metadata

abbrev session_end : Bytes
session_end = closing_input ((7 ∷ []) ∷ []) [] ++ 9 ∷ []

meta_alone :
    Tests one_by_one wire-IsOnline plain_json 20 logged_in_at_h
      (32 ∷ [])
      h_tcp
      h_raw
      h_no_json
      (run_upload one_by_one wire_net wire_draw session_clock plain_json no_numerals 20 [])
      (run_download one_by_one wire_net wire_draw session_clock plain_json no_numerals 20 [])
      (32 ∷ [])
      (wire_at logged_in_at_h (32 ∷ []) (meta_input ++ session_end) sent_login)
      (wire_at logged_in_at_h (32 ∷ []) session_end sent_all)
unfolding run_test
meta_alone =
    then_test
      (run_meta-sent one_by_one wire-IsOnline plain_json 20 logged_in_at_h (32 ∷ []) h_tcp h_raw
        h_no_json session_end sent_login (omega arith))
      no_tests

abbrev dialed_client : Client Wire
dialed_client = connected at_h (record { input = session_input; output = []; seed = 3 })

run-session_example :
    (s2 : Client Wire) × (run run_it idle_client
      ≡ wait_close one_by_one wire_net wire_draw plain_json 20 s2)
    × ((run run_it idle_client).0 ≡ ok tt)
    × (wire_view s2 ≡ wire_at logged_in_at_h (32 ∷ []) (9 ∷ []) sent_all)
unfolding query_mlabns connect control_port netx_maybews_dial netx_maybessl_dial
    netx_maybesocks5h_dial has is_socket_valid
run-session_example =
    run-session one_by_one wire-IsOnline session_clock plain_json no_numerals no_curl no_info
      no_dump 20 [] at_h [] h_tcp h_raw h_no_json idle_client dialed_client (codes "h") []
      (codes "v3.7.0") (codes "32") [] (9 ∷ []) [] sent_all ((7 ∷ []) ∷ []) (32 ∷ [])
      (meta_input ++ session_end) refl none_tried refl refl refl (omega arith) meta_granted
      (omega arith) meta_alone (omega arith) (omega arith, tt) (omega arith)

run_meta-sent_example :
    Gives wire_view
      (run_meta one_by_one wire_net wire_draw plain_json 20)
      (wire_at at_h [] (meta_input ++ 9 ∷ []) [])
      (ok tt)
      (wire_at at_h [] (9 ∷ []) ([] ++ meta_output at_h.metadata))
run_meta-sent_example =
    run_meta-sent one_by_one wire-IsOnline plain_json 20 at_h [] h_tcp h_raw h_no_json (9 ∷ []) []
      (omega arith)
