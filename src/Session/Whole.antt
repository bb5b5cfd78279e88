-- ===== src/Session/Whole.antt =====
-- Client::run (include/libndt/libndt.hpp): a whole session with one server.
use libndt.Client.{Client, Json, Settings, uses}
use libndt.Client.Run.{Methods, authorize, query_mlabns, run, run_authorized, set_hostname}
use libndt.Client.Run.Failover.{Refused, run_hosts-first_willing}
use libndt.Client.Steps.{
  connect, kickoff, recv_kickoff, recv_results_and_logout, send_login, wait_close, wait_in_queue,
}
use libndt.Client.Steps.Grants.{Ids, kept_ids}
use libndt.Client.Steps.Logout.{recv_results_and_logout-logout, results_bytes}
use libndt.Curl.{Libcurl, query_mlabns_curl}
use libndt.Io.{Result, ok, ◌>>◌}
use libndt.Io.Gives.{Gives, Gives-then, Leads, Leads-here, Leads-then}
use libndt.Msg.{getlines, login_flags}
use libndt.Msg.Legacy.{Kept, wire}
use libndt.Net.{Draw, Net}
use libndt.Net.Stream.{View}
use libndt.Prelude.{All, List, Option, [], ap, false, length, ℕ, ◌++◌, ◌<◌, ◌^◌, ◌∙◌, ◌∷◌, ◌≡◌}
use libndt.Prelude.Bytes.{Bytes}
use libndt.Prelude.Text.{codes}
use libndt.Session.{own_methods}
use libndt.Session.Meta.{Tests, run_tests-Tests}
use libndt.Session.Steps.{
  IsOnline, kept_of, recv_kickoff-received, recv_tests_ids-granted, recv_version-received, seen_at,
  send_login-sent, wait_close-ok, wait_in_queue-free, with_login_flags,
}
use libndt.Sys.{Sys}
use libndt.Transfer.{Clock, Numerals}
use libndt.Transfer.Legacy.{run_download, run_upload}
use libndt.Transfer.Ndt7.{UploadMeasurement}
use libndt.Types.{
  Socket, has, max_loops, msg_login, msg_logout, msg_srv_queue, protocol_flag_json,
  protocol_flag_ndt7, protocol_flag_tls, protocol_flag_websocket,
}
use mathlib.Core.List.{append_assoc}

-- What the server sends before the first test: the kickoff, no queue, its version, and the tests.
abbrev pub greeting_input : Bytes → Bytes → Bytes
greeting_input version tests =
    kickoff ++ (wire msg_srv_queue (codes "0") ++ (wire msg_login version ++ wire msg_login tests))

-- What it sends behind the last test.
abbrev pub closing_input : List Bytes → Bytes → Bytes
closing_input results last = results_bytes results ++ wire msg_logout last

module _ {W J : Type 0} (sys : Sys W) {net : Net (Client W)} {draw : Draw (Client W)}
    {sock : Socket} {view : Client W → View Kept} (online : IsOnline net draw sock view)
    (clock : Clock W) (json : Json J) (numerals : Numerals J) (curl : Libcurl W)
    (tcp_info : Socket → W → Option (List (Bytes × ℕ)) × W)
    (dump_measurement : UploadMeasurement → Bytes) (budget : ℕ) (turns : List ℕ)
    (settings : Settings) (suite : List ℕ)
    (tcp : has settings.protocol_flags protocol_flag_tls ≡ false)
    (raw : has settings.protocol_flags protocol_flag_websocket ≡ false)
    (no_json : has settings.protocol_flags protocol_flag_json ≡ false) where
  abbrev own : Methods (Client W)
  own = own_methods sys net draw clock json numerals curl tcp_info dump_measurement budget turns

  abbrev at : List ℕ → Bytes → Bytes → View Kept
  at ids i out = seen_at sys online json budget (with_login_flags settings) ids i out

  -- The bytes of the login.
  abbrev pub login_output : Bytes
  login_output = wire msg_login (login_flags settings.nettest_flags ∷ [])

  -- What is left of authorize once the client is connected.
  logged_in :
      (i out : Bytes)
      → Gives view
          (do
            send_login sys net draw json budget
            recv_kickoff sys net draw json budget
            wait_in_queue sys net draw json budget)
          (seen_at sys online json budget settings suite
            (kickoff ++ (wire msg_srv_queue (codes "0") ++ i))
            out)
          (ok tt)
          (at suite i (out ++ login_output))
  logged_in i out =
      let queue = wire msg_srv_queue (codes "0") in
      Gives-then
        (send_login-sent sys online json budget settings suite tcp raw no_json
          (kickoff ++ (queue ++ i)) out)
        (Gives-then
          (recv_kickoff-received sys online json budget (with_login_flags settings) suite tcp raw
            no_json (queue ++ i) (out ++ login_output))
          (wait_in_queue-free sys online json budget (with_login_flags settings) suite tcp raw
            no_json i (out ++ login_output)))

  -- What is left of the run, up to wait_close.
  tested :
      (version tests last rest out out' : Bytes) (results : List Bytes) (ids : List ℕ) (i : Bytes)
      → length version < 2 ^ 16
      → Ids (getlines b' ' tests) ids
      → length tests < 2 ^ 16
      → Tests sys online json budget
          (with_login_flags settings)
          (suite ++ kept_ids ids)
          tcp
          raw
          no_json
          (run_upload sys net draw clock json numerals budget turns)
          (run_download sys net draw clock json numerals budget turns)
          (suite ++ kept_ids ids)
          (at (suite ++ kept_ids ids) i out)
          (at (suite ++ kept_ids ids) (closing_input results last ++ rest) out')
      → length results < max_loops
      → All (λ b. length b < 2 ^ 16) results
      → length last < 2 ^ 16
      → Leads view
          (run_authorized own)
          (at suite (wire msg_login version ++ (wire msg_login tests ++ i)) out)
          (wait_close sys net draw json budget)
          (at (suite ++ kept_ids ids) rest out')
  unfolding run_authorized own_methods
  tested version tests last rest out out' results ids i short words small run few all_short ends =
      let granted = suite ++ kept_ids ids in
      let logged_out : Gives view (recv_results_and_logout sys net draw json budget)
          (at granted (closing_input results last ++ rest) out') (ok tt) (at granted rest out') =
        rw (append_assoc (results_bytes results) (wire msg_logout last) rest) (
          recv_results_and_logout-logout sys (online.stream (with_login_flags settings) granted tcp)
            online.sees json budget raw no_json results last rest out' few all_short ends) in
      Leads-then
        (recv_version-received sys online json budget (with_login_flags settings) suite tcp raw
          no_json version (wire msg_login tests ++ i) out short)
        (Leads-then
          (recv_tests_ids-granted sys online json budget (with_login_flags settings) suite tcp raw
            no_json tests i out ids words small)
          (Leads-then
            (run_tests-Tests sys online json budget (with_login_flags settings) granted tcp raw
              no_json i out run)
            (Leads-then logged_out (Leads-here _ _))))

  -- The client's own methods over a stream, without TLS, WebSocket, JSON and ndt7. The hosts that the
  -- name service gives refuse, up to one that is connected and drives the whole session: kickoff,
  -- no queue, its version, the ids of the tests, the messages of each test, fewer than 256 results
  -- and the logout. Then the run ends well: it has sent the login first, with the flags that the
  -- login allows, it has run exactly the granted tests, in their order, has left what the server
  -- sends behind the logout, and its last step is wait_close; the hosts behind this one are not
  -- contacted. `Tests` says what each granted test sends and receives. The messages have fewer
  -- than 2^16 bytes.
  pub run-session :
      {bad : List Bytes} {s0 s' : Client W} (s s1 : Client W) (host : Bytes) (more : List Bytes)
      (version tests last rest out out' : Bytes) (results : List Bytes) (ids : List ℕ) (i : Bytes)
      → query_mlabns json (query_mlabns_curl curl) s ≡ (ok (bad ++ host ∷ more), s0)
      → Refused own bad s0 s'
      → uses protocol_flag_ndt7 (set_hostname own host s') ≡ false
      → connect sys net draw json budget (set_hostname own host s') ≡ (ok tt, s1)
      → view s1
        ≡ seen_at sys online json budget settings suite (greeting_input version tests ++ i) out
      → length version < 2 ^ 16
      → Ids (getlines b' ' tests) ids
      → length tests < 2 ^ 16
      → Tests sys online json budget
          (with_login_flags settings)
          (suite ++ kept_ids ids)
          tcp
          raw
          no_json
          (run_upload sys net draw clock json numerals budget turns)
          (run_download sys net draw clock json numerals budget turns)
          (suite ++ kept_ids ids)
          (at (suite ++ kept_ids ids) i (out ++ login_output))
          (at (suite ++ kept_ids ids) (closing_input results last ++ rest) out')
      → length results < max_loops
      → All (λ b. length b < 2 ^ 16) results
      → length last < 2 ^ 16
      → (s2 : Client W) × (run own s ≡ wait_close sys net draw json budget s2)
        × ((run own s).0 ≡ ok tt)
        × (view s2 ≡ at (suite ++ kept_ids ids) rest out')
  unfolding run own_methods authorize
  run-session {bad} {s0} {s'} s s1 host more version tests last rest out out' results ids i hosts
        refused legacy dialed seen short words small tests_run few all_short ends =
      let queue = wire msg_srv_queue (codes "0") in
      let logins = wire msg_login version ++ wire msg_login tests in
      let after = wire msg_login version ++ (wire msg_login tests ++ i) in
      let split : greeting_input version tests ++ i ≡ kickoff ++ (queue ++ after) =
        append_assoc kickoff (queue ++ logins) i
        ∙ ap (λ (x : Bytes). kickoff ++ x)
            (append_assoc queue logins i
              ∙ ap (λ (x : Bytes). queue ++ x)
                  (append_assoc (wire msg_login version) (wire msg_login tests) i)) in
      let (o, v) = (logged_in after out).at s1 (rw split at seen) in
      let s3 =
        (do
          send_login sys net draw json budget
          recv_kickoff sys net draw json budget
          wait_in_queue sys net draw json budget)
          s1 in
      let (s2, e, v2) =
        (tested version tests last rest (out ++ login_output) out' results ids i short words small
            tests_run few all_short ends).at
          s3.1 v in
      let taken : authorize own (set_hostname own host s') ≡ (ok tt, s3.1) =
        rw dialed (ap (λ (r : Result Unit Unit). (r, s3.1)) o) in
      let first = run_hosts-first_willing own host more refused legacy taken in
      let whole : run own s ≡ wait_close sys net draw json budget s2 = rw hosts (first ∙ e) in
      (s2, whole, ap (λ r. r.0) whole ∙ closed s2 v2, v2)
    where
      closed :
          (c : Client W)
          → view c ≡ at (suite ++ kept_ids ids) rest out'
          → (wait_close sys net draw json budget c).0 ≡ ok tt
      closed c v = wait_close-ok sys online json budget c (
          ap (λ (k : Kept). k.1)
            (kept_of sys online json budget c (with_login_flags settings) (suite ++ kept_ids ids)
              rest out' v))
