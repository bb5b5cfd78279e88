-- ===== src/Runs/Steps.antt =====
-- The theorems on run and on its steps at concrete inputs.
use libndt.Client.{Client, uses}
use libndt.Client.Run.{Methods, authorize, run_authorized, run_hosts, set_hostname}
use libndt.Client.Run.Failover.{Refused, none_tried, run_hosts-first_willing, then_refused}
use libndt.Client.Steps.{grant_tests}
use libndt.Client.Steps.Grants.{grant_tests-Ids, no_ids, then_id}
use libndt.Err.{ssl_generic}
use libndt.Io.{err, ok, pure}
use libndt.Io.Returns.{Returns}
use libndt.Netx.{find_ssl, netx_recvn}
use libndt.Netx.Dial.{netx}
use libndt.Netx.Exact.{netx_recvn-exact}
use libndt.Netx.Tls.{start_tls}
use libndt.Netx.Tls.Leak.{start_tls-no_ctx}
use libndt.Prelude.{[], arith, false, if◌then◌else◌, length, none, refl, true, ◌++◌, ◌∷◌, ◌≡◌}
use libndt.Prelude.Bytes.{Bytes}
use libndt.Prelude.Text.{codes, text_eq}
use libndt.Runs.System.{one_by_one, one_by_one-IsBounded}
use libndt.Runs.Wire.{Wire, connected, plain, plain_json, wire_draw, wire_net}
use libndt.Strtonum.{strtonum}
use libndt.Strtonum.Decimal.{decimal_value, strtonum-digits}
use libndt.Sys.{Sys}
use libndt.Types.{fd, has, protocol_flag_tls}

abbrev idle : Client Wire
idle = connected plain (record { input = []; output = []; seed = 0 })

-- Only the host "b" takes the client.
abbrev choosy : Methods (Client Wire)
choosy = record {
  query_mlabns = pure (codes "a" ∷ codes "b" ∷ codes "c" ∷ []);
  ndt7_download = pure tt;
  ndt7_upload = pure tt;
  connect = λ s. if text_eq s.settings.hostname (codes "b") then (ok tt, s) else (err tt, s);
  send_login = pure tt;
  recv_kickoff = pure tt;
  wait_in_queue = pure tt;
  recv_version = pure tt;
  recv_tests_ids = pure tt;
  run_tests = pure tt;
  recv_results_and_logout = pure tt;
  wait_close = pure tt;
}

abbrev at_host : Bytes → Client Wire
at_host h = set_hostname choosy h idle

a-Refused : Refused choosy (codes "a" ∷ []) idle (at_host (codes "a"))
unfolding authorize has text_eq
a-Refused = then_refused refl refl none_tried

run_hosts-first_willing_example :
    run_hosts choosy ((codes "a" ∷ []) ++ codes "b" ∷ codes "c" ∷ []) idle
    ≡ run_authorized choosy (at_host (codes "b"))
unfolding authorize has text_eq
run_hosts-first_willing_example =
    run_hosts-first_willing choosy (codes "b") (codes "c" ∷ []) a-Refused refl refl

id-256 : strtonum (codes "256") 1 256 ≡ ok 256
unfolding decimal_value
id-256 =
    strtonum-digits b'2' (b'5' ∷ b'6' ∷ []) 1 256
      ((omega arith, omega arith), ((omega arith, omega arith), ((omega arith, omega arith), tt)))
      (omega arith) (omega arith) (omega arith)

id-4 : strtonum (codes "4") 1 256 ≡ ok 4
unfolding decimal_value
id-4 =
    strtonum-digits b'4' [] 1 256 ((omega arith, omega arith), tt) (omega arith) (omega arith)
      (omega arith)

grant_tests-Ids_example :
    grant_tests one_by_one wire_net wire_draw plain_json 5
      ((codes "4" ∷ codes "256" ∷ []) ++ [])
      idle
    ≡ grant_tests one_by_one wire_net wire_draw plain_json 5 []
        (record idle { granted_suite = 4 ∷ 0 ∷ [] })
grant_tests-Ids_example =
    grant_tests-Ids one_by_one wire_net wire_draw plain_json 5 [] idle
      (then_id id-4 (then_id id-256 no_ids))

netx_recvn-exact_example : Returns (netx_recvn one_by_one 20 20 (fd 3) 4) (λ d. length d ≡ 4)
netx_recvn-exact_example = netx_recvn-exact one_by_one one_by_one-IsBounded 20 20 (fd 3) 4

-- A system without memory for an SSL_CTX.
abbrev no_ctx : Sys Wire
no_ctx = record one_by_one { ssl_ctx_new = λ w. (false, w) }

abbrev trusting : Client Wire
trusting =
    connected (record plain { protocol_flags = protocol_flag_tls; tls_verify_peer = false })
      (record { input = []; output = []; seed = 0 })

trusting-tls : uses protocol_flag_tls trusting ≡ true
unfolding has
trusting-tls = refl

not_registered : find_ssl (fd 3) trusting.fd_to_ssl ≡ none
unfolding find_ssl
not_registered = refl

start_tls-no_ctx_example :
    start_tls no_ctx (netx no_ctx 5) 5 (fd 3) (codes "h") trusting ≡ (err ssl_generic, trusting)
start_tls-no_ctx_example =
    start_tls-no_ctx no_ctx 5 (fd 3) (codes "h") trusting trusting-tls not_registered refl refl

abbrev with_input : Client Wire
with_input = connected plain (record { input = 1 ∷ 2 ∷ 3 ∷ []; output = []; seed = 0 })

with_input-plain : has with_input.settings.protocol_flags protocol_flag_tls ≡ false
unfolding has
with_input-plain = refl
