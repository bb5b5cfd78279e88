-- ===== src/Msg/Flags.antt =====
-- msg_write_login (include/libndt/libndt.hpp): the nettest flags that are sent.
use libndt.Msg.{login_flags}
use libndt.Prelude.{Bool, arith, bit_and, ltb, refl, true, ℕ, ◌%◌, ◌&&◌, ◌/◌, ◌<◌, ◌==◌, ◌≡◌}
use libndt.Prelude.Bytes.{holds_below, holds_below-true}
use libndt.Types.{has}

abbrev sent_flags : ℕ → ℕ → Bool
sent_flags n m =
    (m / 16 % 4 == 3)
    && ((m % 2 == 0)
        && ((m / 8 % 2 == 0)
            && ((m / 64 % 2 == 0) && ((bit_and m 134 == bit_and n 134) && ltb m 256))))

sent_flags_table : holds_below (λ n. sent_flags n (login_flags n)) 256 ≡ true
unfolding holds_below login_flags has
sent_flags_table = refl

-- From flags in one byte, the login asks for META and STATUS, never for MIDDLEBOX, SIMPLE_FIREWALL
-- or UPLOAD_EXT, leaves UPLOAD, DOWNLOAD and DOWNLOAD_EXT as the settings have them, and fits in
-- the byte it is sent in.
pub login_flags-sent :
    (flags : ℕ)
    → flags < 256
    → (login_flags flags / 16 % 4 ≡ 3)
      × (login_flags flags % 2 ≡ 0)
      × (login_flags flags / 8 % 2 ≡ 0)
      × (login_flags flags / 64 % 2 ≡ 0)
      × (bit_and (login_flags flags) 134 ≡ bit_and flags 134)
      × (login_flags flags < 256)
login_flags-sent flags h =
    let row = holds_below-true _ 256 flags sent_flags_table h in
    (ground arith, ground arith, ground arith, ground arith, ground arith, ground arith)
