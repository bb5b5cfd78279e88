-- ===== src/Transfer.antt =====
-- include/libndt/libndt.hpp: what the transfers share, which are run_download, run_upload,
-- ndt7_download and ndt7_upload: the clock, the speed, the reports, and the parsers of numbers.
pub mod Ndt7
pub mod Flows
pub mod Web100
pub mod Legacy
use libndt.Client.{Client, Ratio, Report, Summary, no_ratio}
use libndt.Io.{Io, ok}
use libndt.Prelude.{Option, if◌then◌else◌, ltb, ℕ, ◌*◌, ◌==◌, ◌^◌, ◌∷◌}
use libndt.Prelude.Bytes.{Bytes}

-- std::chrono::steady_clock::now, in nanoseconds.
abbrev pub Clock : Type 0 → Type 0
Clock W = W → ℕ × W

-- What the standard library and nlohmann/json make of numbers: std::stod, std::stoul and
-- std::to_string of a double, and a counter of the object "TCPInfo" of a measurement. `none` is an
-- exception.
pub record Numerals (J : Type 0) : Type 0 where
  pub stod : Bytes → Option Ratio
  pub stoul : Bytes → Option ℕ
  pub to_string : Ratio → Bytes
  pub tcp_counter : J → Bytes → Option ℕ

abbrev pub one_second : ℕ
one_second = 10 ^ 9

-- The quarter of a second after which a report is made.
abbrev pub measurement_interval : ℕ
measurement_interval = 250 * 10 ^ 6

-- compute_speed_kbits, of bytes and nanoseconds.
unfoldable pub compute_speed_kbits : ℕ → ℕ → Ratio
compute_speed_kbits data' elapsed =
    if ltb 0 elapsed then record { num = data' * 8 * 10 ^ 6; den = elapsed } else no_ratio

-- The retransmission rate, of two numbers that are fractions.
unfoldable pub retransmission_rate : Ratio → Ratio → Ratio
retransmission_rate retrans sent =
    if sent.num == 0
    then no_ratio
    else record { num = retrans.num * sent.den; den = retrans.den * sent.num }

abbrev pub integral : ℕ → Ratio
integral n = record { num = n; den = 1 }

-- The fields that a download sets again before it starts.
abbrev pub reset_download : Summary → Summary
reset_download u = record u { download_speed = no_ratio; download_retrans = no_ratio; min_rtt = 0 }

module _ {W : Type 0} where
  abbrev pub set_summary : Client W → Summary → Client W
  set_summary s u = record s { summary = u }

  -- A change of the summary.
  abbrev pub change_summary : (Summary → Summary) → Io (Client W) Unit Unit
  change_summary f s = (ok tt, set_summary s (f s.summary))

  abbrev pub read_clock : {E : Type 0} → Clock W → Io (Client W) E ℕ
  read_clock clock s = (ok (clock s.world).0, record s { world = (clock s.world).1 })

  -- on_performance, unless the settings ask for the summary only.
  abbrev pub on_performance : Report → Client W → Client W
  on_performance r s = if s.settings.summary_only then s else record s { reports = r ∷ s.reports }
