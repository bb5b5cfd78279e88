-- ===== src/CommandLine.antt =====
-- main of libndt-client.cpp: what the command line asks for. The library argh has cut it into
-- flags, parameters with a value, and other arguments.
pub mod Verified
use libndt.Client.{Settings, default_settings}
use libndt.Io.{Result, err, ok, stuck}
use libndt.Prelude.{Bool, List, [], bit_or, false, if◌then◌else◌, true, ℕ, ◌==◌, ◌∷◌}
use libndt.Prelude.Bytes.{Bytes}
use libndt.Prelude.Text.{codes, text_eq}
use libndt.Types.{
  mlabns_policy_closest, mlabns_policy_geo_options, mlabns_policy_random, nettest_flag_download,
  nettest_flag_download_ext, nettest_flag_upload, protocol_flag_json, protocol_flag_ndt7,
  protocol_flag_tls, protocol_flag_websocket,
}

pub record Cmdline : Type 0 where
  pub flags : List Bytes
  pub params : List (Bytes × Bytes)
  pub pos_args : List Bytes

-- The status with which main calls exit.
pub data Exit : Type 0 where
  exit_success exit_failure : Exit

pub record Options : Type 0 where
  pub settings : Settings
  pub batch_mode : Bool
  pub summary : Bool

abbrev verbosity_info : ℕ
verbosity_info = 2

abbrev verbosity_debug : ℕ
verbosity_debug = 3

-- The options before the command line is read.
abbrev pub first_options : Options
first_options = record {
  settings = record default_settings { verbosity = verbosity_info; nettest_flags = 0 };
  batch_mode = false;
  summary = false;
}

abbrev with_settings : Options → Settings → Result {0} Exit Options
with_settings o settings = ok (record o { settings = settings })

-- A test that is asked for.
abbrev with_test : ℕ → Options → Result {0} Exit Options
with_test flag o =
    with_settings o (record o.settings { nettest_flags = bit_or o.settings.nettest_flags flag })

-- A protocol that is asked for.
abbrev with_protocol : ℕ → Options → Result {0} Exit Options
with_protocol flag o =
    with_settings o (record o.settings { protocol_flags = bit_or o.settings.protocol_flags flag })

unfoldable pub flag_step : Bytes → Options → Result {0} Exit Options
flag_step flag o =
    if text_eq flag (codes "download")
    then with_test nettest_flag_download o
    else if text_eq flag (codes "download-ext")
    then with_test nettest_flag_download_ext o
    else if text_eq flag (codes "help")
    then err exit_success
    else if text_eq flag (codes "insecure")
    then with_settings o (record o.settings { tls_verify_peer = false })
    else if text_eq flag (codes "json")
    then with_protocol protocol_flag_json o
    else if text_eq flag (codes "ndt7")
    then with_protocol protocol_flag_ndt7 o
    else if text_eq flag (codes "random")
    then with_settings o (record o.settings { mlabns_policy = mlabns_policy_random })
    else if text_eq flag (codes "tls")
    then with_protocol protocol_flag_tls o
    else if text_eq flag (codes "upload")
    then with_test nettest_flag_upload o
    else if text_eq flag (codes "verbose")
    then with_settings o (record o.settings { verbosity = verbosity_debug })
    else if text_eq flag (codes "version")
    then err exit_success
    else if text_eq flag (codes "websocket")
    then with_protocol protocol_flag_websocket o
    else if text_eq flag (codes "batch")
    then ok (record o { batch_mode = true })
    else if text_eq flag (codes "summary")
    then ok (record o { summary = true })
    else err exit_failure

unfoldable pub policy_step : Bytes → Options → Result {0} Exit Options
policy_step value o =
    if text_eq value (codes "closest")
    then with_settings o (record o.settings { mlabns_policy = mlabns_policy_closest })
    else if text_eq value (codes "random")
    then with_settings o (record o.settings { mlabns_policy = mlabns_policy_random })
    else if text_eq value (codes "geo-options")
    then with_settings o (record o.settings { mlabns_policy = mlabns_policy_geo_options })
    else err exit_failure

unfoldable pub param_step : Bytes × Bytes → Options → Result {0} Exit Options
unfolding policy_step
param_step (name, value) o =
    if text_eq name (codes "ca-bundle-path")
    then with_settings o (record o.settings { ca_bundle_path = value })
    else if text_eq name (codes "lookup-policy")
    then policy_step value o
    else if text_eq name (codes "port")
    then with_settings o (record o.settings { port = value })
    else if text_eq name (codes "socks5h")
    then with_settings o (record o.settings { socks5h_port = value })
    else err exit_failure

-- The options that a step gives, for the next one; an exit is final.
abbrev pub and_then :
    Result {0} Exit Options → (Options → Result {0} Exit Options) → Result {0} Exit Options
and_then (ok o) next = next o
and_then (err e) next = err e
and_then stuck next = stuck

module _ {A : Type 0} where
  -- A step for each element.
  unfoldable pub each :
      (A → Options → Result {0} Exit Options) → List A → Options → Result {0} Exit Options
  each step [] o = ok o
  each step (a ∷ more) o = and_then (step a o) (each step more)

unfoldable pub host_step : List Bytes → Options → Result {0} Exit Options
host_step (program ∷ []) o = ok o
host_step (program ∷ hostname ∷ []) o = with_settings o (record o.settings { hostname = hostname })
host_step _ o = err exit_failure

-- The last check, and what is set behind it.
unfoldable pub final_step : Options → Result {0} Exit Options
final_step o =
    if o.settings.nettest_flags == 0
    then err exit_failure
    else with_settings o (record o.settings { summary_only = o.summary })

-- The options with which main builds its Client, or the status with which it exits before.
unfoldable pub parse_command_line : Cmdline → Result {0} Exit Options
unfolding flag_step param_step each host_step final_step
parse_command_line c = and_then (each flag_step c.flags first_options) (λ o1.
    and_then (each param_step c.params o1) (λ o2. and_then (host_step c.pos_args o2) final_step))
