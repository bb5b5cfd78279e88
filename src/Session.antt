-- ===== src/Session.antt =====
-- include/libndt/libndt.hpp: Client::run over the client's own methods.
pub mod Steps
pub mod Meta
pub mod Whole
pub mod Online
use libndt.Client.{Client, Json}
use libndt.Client.Run.{Methods, query_mlabns}
use libndt.Client.Steps.{
  connect, recv_kickoff, recv_results_and_logout, recv_tests_ids, recv_version, run_tests,
  send_login, wait_close, wait_in_queue,
}
use libndt.Curl.{Libcurl, query_mlabns_curl}
use libndt.Net.{Draw, Net}
use libndt.Prelude.{List, Option, ℕ}
use libndt.Prelude.Bytes.{Bytes}
use libndt.Sys.{Sys}
use libndt.Transfer.{Clock, Numerals}
use libndt.Transfer.Legacy.{run_download, run_upload}
use libndt.Transfer.Ndt7.{UploadMeasurement, ndt7_download, ndt7_upload}
use libndt.Types.{Socket}

module _ {W J : Type 0} (sys : Sys W) (net : Net (Client W)) (draw : Draw (Client W))
    (clock : Clock W) (json : Json J) (numerals : Numerals J) (curl : Libcurl W)
    (tcp_info : Socket → W → Option (List (Bytes × ℕ)) × W)
    (dump_measurement : UploadMeasurement → Bytes) (budget : ℕ) where
  -- `turns` is the order in which the threads of the transfers take their turns.
  unfoldable pub own_methods : List ℕ → Methods (Client W)
  own_methods turns = record {
    query_mlabns = query_mlabns json (query_mlabns_curl curl);
    ndt7_download = ndt7_download net draw clock json numerals budget sys budget;
    ndt7_upload = ndt7_upload net draw clock tcp_info dump_measurement sys json budget budget;
    connect = connect sys net draw json budget;
    send_login = send_login sys net draw json budget;
    recv_kickoff = recv_kickoff sys net draw json budget;
    wait_in_queue = wait_in_queue sys net draw json budget;
    recv_version = recv_version sys net draw json budget;
    recv_tests_ids = recv_tests_ids sys net draw json budget;
    run_tests =
        run_tests sys net draw json budget
          (run_upload sys net draw clock json numerals budget turns)
          (run_download sys net draw clock json numerals budget turns);
    recv_results_and_logout = recv_results_and_logout sys net draw json budget;
    wait_close = wait_close sys net draw json budget;
  }
