-- ===== src/Client/Run.antt =====
-- include/libndt/libndt.hpp: Client::run over the virtual methods that it calls, and
-- Client::query_mlabns.
pub mod Failover
pub mod Tweaks
use libndt.Client.{Client, Json, Settings, set_settings, uses}
use libndt.Io.{Io, Result, err, lift, ok, stuck, ◌>>=◌, ◌>>◌}
use libndt.Msg.{guard_some}
use libndt.Prelude.{List, [], bit_or, if◌then◌else◌, length, none, not, some, ℕ, ◌++◌, ◌==◌, ◌∷◌}
use libndt.Prelude.Bytes.{Bytes}
use libndt.Prelude.Text.{codes}
use libndt.Types.{
  clear, has, mlabns_policy_geo_options, mlabns_policy_random, nettest_flag_download,
  nettest_flag_download_ext, nettest_flag_upload, protocol_flag_json, protocol_flag_ndt7,
  protocol_flag_tls, protocol_flag_websocket,
}

-- The high-level methods, which a subclass may override.
pub record Methods (S : Type 0) : Type 0 where
  pub query_mlabns : Io S Unit (List Bytes)
  pub ndt7_download : Io S Unit Unit
  pub ndt7_upload : Io S Unit Unit
  pub connect : Io S Unit Unit
  pub send_login : Io S Unit Unit
  pub recv_kickoff : Io S Unit Unit
  pub wait_in_queue : Io S Unit Unit
  pub recv_version : Io S Unit Unit
  pub recv_tests_ids : Io S Unit Unit
  pub run_tests : Io S Unit Unit
  pub recv_results_and_logout : Io S Unit Unit
  pub wait_close : Io S Unit Unit

module _ {W : Type 0} (methods : Methods (Client W)) where
  -- A nettest of ndt7, if its flag is set; a failure is only logged.
  pub ndt7_nettest : ℕ → Io (Client W) Unit Unit → Io (Client W) Unit Unit
  unfolding has
  ndt7_nettest flag nettest s =
      if has s.settings.nettest_flags flag
      then (elim (nettest s).0 [ stuck ↦ (stuck, (nettest s).1) | _ ↦ (ok tt, (nettest s).1) ])
      else (ok tt, s)

  pub run_ndt7 : Io (Client W) Unit Unit
  run_ndt7 = do
    ndt7_nettest nettest_flag_download methods.ndt7_download
    ndt7_nettest nettest_flag_upload methods.ndt7_upload

  -- The calls after which a failure moves on to the next host.
  unfoldable pub authorize : Io (Client W) Unit Unit
  authorize = do methods.connect; methods.send_login; methods.recv_kickoff; methods.wait_in_queue

  -- The calls after which a failure ends the run.
  unfoldable pub run_authorized : Io (Client W) Unit Unit
  run_authorized = do
    methods.recv_version
    methods.recv_tests_ids
    methods.run_tests
    methods.recv_results_and_logout
    methods.wait_close

  abbrev pub set_hostname : Bytes → Client W → Client W
  set_hostname fqdn s = record s { settings = record s.settings { hostname = fqdn } }

  -- The loop of run over the hosts.
  pub run_hosts : List Bytes → Io (Client W) Unit Unit
  run_hosts [] s = (err tt, s)
  run_hosts (fqdn ∷ rest) s =
      let again = run_hosts rest in
      let s0 = set_hostname fqdn s in
      if uses protocol_flag_ndt7 s0 then run_ndt7 s0 else elim (authorize s0).0 [
        | ok _ ↦ run_authorized (authorize s0).1
        | err _ ↦ again (authorize s0).1
        | stuck ↦ (stuck, (authorize s0).1)
      ]

  unfoldable pub run : Io (Client W) Unit Unit
  run = do fqdns ← methods.query_mlabns; run_hosts fqdns

-- The settings after query_mlabns has tweaked them for the multi-stream download.
pub tweak_settings : Settings → Settings
unfolding has
tweak_settings settings =
    if has settings.nettest_flags nettest_flag_download_ext
    then record settings {
      protocol_flags =
          bit_or (clear (clear settings.protocol_flags protocol_flag_tls) protocol_flag_websocket)
            protocol_flag_json;
    }
    else settings

-- The URL that is queried.
pub mlabns_url : Settings → Bytes
unfolding has
mlabns_url settings =
    let tool =
      if has settings.nettest_flags nettest_flag_download_ext
      then codes "/neubot"
      else if has settings.protocol_flags protocol_flag_ndt7
      then codes "/ndt7"
      else if has settings.protocol_flags protocol_flag_tls
      then codes "/ndt_ssl"
      else codes "/ndt" in
    let policy =
      if settings.mlabns_policy == mlabns_policy_random
      then codes "?policy=random"
      else if settings.mlabns_policy == mlabns_policy_geo_options
      then codes "?policy=geo_options"
      else [] in
    settings.mlabns_base_url ++ (tool ++ policy)

module _ {W J : Type 0} (json : Json J) (http_get : Bytes → ℕ → Io (Client W) Unit Bytes) where
  -- The loop over the entries: the first one without a name fails the query.
  pub read_fqdns : List J → Result Unit (List Bytes)
  read_fqdns [] = ok []
  read_fqdns (entry ∷ rest) =
      let others = read_fqdns rest in
      elim (json.at_string entry (codes "fqdn")) [
        | none ↦ err tt
        | some fqdn ↦ elim others [ ok names ↦ ok (fqdn ∷ names) | err e ↦ err e | stuck ↦ stuck ]
      ]

  -- The host name in the settings is moved from, which leaves it empty.
  unfoldable pub query_mlabns : Io (Client W) Unit (List Bytes)
  query_mlabns s =
      if not (length s.settings.hostname == 0)
      then (ok (s.settings.hostname ∷ []), set_settings s (record s.settings { hostname = [] }))
      else (do
        body ← http_get (mlabns_url s.settings) s.settings.timeout
        value ← guard_some (json.parse body)
        lift (read_fqdns (json.entries value)))
          (set_settings s (tweak_settings s.settings))
