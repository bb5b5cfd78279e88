-- ===== src/Client/Run/Tweaks.antt =====
-- query_mlabns (include/libndt/libndt.hpp): the settings for the multi-stream download.
use libndt.Client.{Settings}
use libndt.Client.Run.{tweak_settings}
use libndt.Prelude.{Bool, arith, bit_or, refl, true, ℕ, ◌%◌, ◌&&◌, ◌/◌, ◌<◌, ◌==◌, ◌≡◌}
use libndt.Prelude.Bytes.{holds_below, holds_below-true}
use libndt.Types.{
  clear, has, nettest_flag_download_ext, protocol_flag_json, protocol_flag_tls,
  protocol_flag_websocket,
}

abbrev tweaked : ℕ → ℕ
tweaked n = bit_or (clear (clear n protocol_flag_tls) protocol_flag_websocket) protocol_flag_json

abbrev as_tweaked : ℕ → ℕ → Bool
as_tweaked n m = (m % 2 == 1) && ((m / 2 % 2 == 0) && ((m / 4 % 2 == 0) && (m / 8 == n / 8)))

tweaked_table : holds_below (λ n. as_tweaked n (tweaked n)) 16 ≡ true
unfolding holds_below clear
tweaked_table = refl

-- With DOWNLOAD_EXT, and of the four protocol flags: JSON is set, TLS and WebSocket are cleared,
-- and NDT7 is left as it is.
tweak_settings-flags :
    (settings : Settings)
    → has settings.nettest_flags nettest_flag_download_ext ≡ true
    → settings.protocol_flags < 16
    → ((tweak_settings settings).protocol_flags % 2 ≡ 1)
      × ((tweak_settings settings).protocol_flags / 2 % 2 ≡ 0)
      × ((tweak_settings settings).protocol_flags / 4 % 2 ≡ 0)
      × ((tweak_settings settings).protocol_flags / 8 ≡ settings.protocol_flags / 8)
unfolding tweak_settings
tweak_settings-flags settings ext small =
    let row = holds_below-true _ 16 settings.protocol_flags tweaked_table small in
    rw (tweak_settings, ext) (ground arith, ground arith, ground arith, ground arith)
