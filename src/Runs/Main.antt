-- ===== src/Runs/Main.antt =====
-- The theorem on the command line at a concrete input.
use libndt.CommandLine.{
  Cmdline, Options, each, final_step, first_options, flag_step, host_step, param_step,
  parse_command_line,
}
use libndt.CommandLine.Verified.{parse_command_line-IsChecked}
use libndt.Io.{ok}
use libndt.Prelude.{All, [], false, refl, true, ◌∷◌, ◌≡◌, ◌≢◌}
use libndt.Prelude.Text.{codes, text_eq}
use libndt.Types.{nettest_flag_download, protocol_flag_tls}

-- libndt-client -download -tls -port 4443
abbrev some_line : Cmdline
some_line = record {
  flags = codes "download" ∷ codes "tls" ∷ [];
  params = (codes "port", codes "4443") ∷ [];
  pos_args = codes "libndt-client" ∷ [];
}

abbrev some_options : Options
some_options = record first_options {
  settings = record first_options.settings {
    nettest_flags = nettest_flag_download;
    protocol_flags = protocol_flag_tls;
    port = codes "4443";
  };
}

some_line-accepted : parse_command_line some_line ≡ ok some_options
unfolding parse_command_line each flag_step param_step host_step final_step text_eq
some_line-accepted = refl

not_insecure : All (λ flag. text_eq flag (codes "insecure") ≡ false) some_line.flags
unfolding text_eq
not_insecure = (refl, (refl, tt))

parse_command_line-IsChecked_example :
    (some_options.settings.tls_verify_peer ≡ true) × (some_options.settings.nettest_flags ≢ 0)
parse_command_line-IsChecked_example =
    parse_command_line-IsChecked some_line some_options not_insecure some_line-accepted
