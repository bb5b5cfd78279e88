-- ===== src/Client.antt =====
-- include/libndt/libndt.hpp: the settings and the state of a Client.
pub mod Steps
pub mod Run
use libndt.Prelude.{Bool, List, Option, [], false, true, ℕ, ◌∷◌}
use libndt.Prelude.Bytes.{Bytes}
use libndt.Prelude.Text.{codes}
use libndt.Types.{Socket, has, mlabns_policy_geo_options, nettest_flag_download}

pub record Settings : Type 0 where
  pub mlabns_base_url : Bytes
  pub mlabns_policy : ℕ
  pub timeout : ℕ
  pub hostname : Bytes
  pub port : Bytes
  pub nettest_flags : ℕ
  pub verbosity : ℕ
  pub metadata : List (Bytes × Bytes)
  pub protocol_flags : ℕ
  pub max_runtime : ℕ
  pub socks5h_port : Bytes
  pub ca_bundle_path : Bytes
  pub tls_verify_peer : Bool
  pub summary_only : Bool

-- The values that a Settings starts with.
abbrev pub default_settings : Settings
default_settings = record {
  mlabns_base_url = codes "https://locate.measurementlab.net";
  mlabns_policy = mlabns_policy_geo_options;
  timeout = 7;
  hostname = [];
  port = [];
  nettest_flags = nettest_flag_download;
  verbosity = 0;
  metadata =
      (codes "client.application", codes "measurement-kit/libndt")
      ∷ (codes "client.version", codes "v3.7.0")
      ∷ [];
  protocol_flags = 0;
  max_runtime = 14;
  socks5h_port = [];
  ca_bundle_path = [];
  tls_verify_peer = true;
  summary_only = false;
}

-- A double that the client computes, as the exact fraction. Rounding is not modelled.
pub record Ratio : Type 0 where
  pub num : ℕ
  pub den : ℕ

abbrev pub no_ratio : Ratio
no_ratio = record { num = 0; den = 1 }

-- SummaryData.
pub record Summary : Type 0 where
  pub download_speed : Ratio
  pub download_retrans : Ratio
  pub upload_speed : Ratio
  pub upload_retrans : Ratio
  pub min_rtt : ℕ

abbrev pub no_summary : Summary
no_summary = record {
  download_speed = no_ratio;
  download_retrans = no_ratio;
  upload_speed = no_ratio;
  upload_retrans = no_ratio;
  min_rtt = 0;
}

-- A call of on_performance. Times are in nanoseconds.
pub record Report : Type 0 where
  pub tid : ℕ
  pub nflows : ℕ
  pub measured_bytes : ℕ
  pub elapsed : ℕ
  pub max_runtime : ℕ

-- `world` is what the client reaches through the system: sockets, clocks, random numbers. `busy`
-- holds the messages that on_server_busy was called with, and `reports` the calls of
-- on_performance, the latest first. `web100` is the object of strings of that name.
pub record Client (W : Type 0) : Type 0 where
  pub settings : Settings
  pub sock : Socket
  pub granted_suite : List ℕ
  pub fd_to_ssl : List (Socket × ℕ)
  pub busy : List Bytes
  pub summary : Summary
  pub web100 : List (Bytes × Bytes)
  pub reports : List Report
  pub world : W

module _ {W : Type 0} where
  abbrev pub set_settings : Client W → Settings → Client W
  set_settings s settings = record s { settings = settings }

  abbrev pub uses : ℕ → Client W → Bool
  uses flag s = has s.settings.protocol_flags flag

-- What nlohmann/json does for the client: a parse fails on what is no JSON, `at_string` is
-- `json.at(key).get<std::string>()`, which throws if there is no such string, and `object` builds
-- an object of strings; `dump` throws on text that is not UTF-8.
pub record Json (J : Type 0) : Type 0 where
  pub parse : Bytes → Option J
  pub at_string : J → Bytes → Option Bytes
  pub object : List (Bytes × Bytes) → J
  pub dump : J → Option Bytes
  -- The elements that a range-for visits, after a single object is wrapped into an array.
  pub entries : J → List J
