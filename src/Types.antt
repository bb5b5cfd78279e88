-- ===== src/Types.antt =====
-- include/libndt/libndt.hpp: the flags, the NDT message types and the WebSocket constants.
use libndt.Prelude.{Bool, bit_and, false, not, true, ℕ, ◌-◌, ◌==◌, ◌^◌}

-- A descriptor, or `(Socket)-1`.
pub data Socket : Type 0 where
  fd : ℕ → Socket
  invalid : Socket

-- `==` on sockets.
unfoldable pub socket_eq : Socket → Socket → Bool
socket_eq (fd a) (fd b) = a == b
socket_eq (fd a) invalid = false
socket_eq invalid (fd b) = false
socket_eq invalid invalid = true

unfoldable pub is_socket_valid : Socket → Bool
is_socket_valid (fd a) = true
is_socket_valid invalid = false

-- `(flags & flag) != 0`
unfoldable pub has : ℕ → ℕ → Bool
has flags flag = not (bit_and flags flag == 0)

-- `flags &= ~flag` on an unsigned int of 32 bits.
unfoldable pub clear : ℕ → ℕ → ℕ
clear flags flag = bit_and flags (2 ^ 32 - 1 - flag)

abbrev pub nettest_flag_middlebox : ℕ
nettest_flag_middlebox = 1

abbrev pub nettest_flag_upload : ℕ
nettest_flag_upload = 2

abbrev pub nettest_flag_download : ℕ
nettest_flag_download = 4

abbrev pub nettest_flag_simple_firewall : ℕ
nettest_flag_simple_firewall = 8

abbrev pub nettest_flag_status : ℕ
nettest_flag_status = 16

abbrev pub nettest_flag_meta : ℕ
nettest_flag_meta = 32

abbrev pub nettest_flag_upload_ext : ℕ
nettest_flag_upload_ext = 64

abbrev pub nettest_flag_download_ext : ℕ
nettest_flag_download_ext = 128

abbrev pub protocol_flag_json : ℕ
protocol_flag_json = 1

abbrev pub protocol_flag_tls : ℕ
protocol_flag_tls = 2

abbrev pub protocol_flag_websocket : ℕ
protocol_flag_websocket = 4

abbrev pub protocol_flag_ndt7 : ℕ
protocol_flag_ndt7 = 8

abbrev pub mlabns_policy_closest : ℕ
mlabns_policy_closest = 0

abbrev pub mlabns_policy_random : ℕ
mlabns_policy_random = 1

abbrev pub mlabns_policy_geo_options : ℕ
mlabns_policy_geo_options = 2

abbrev pub msg_srv_queue : ℕ
msg_srv_queue = 1

abbrev pub msg_login : ℕ
msg_login = 2

abbrev pub msg_test_prepare : ℕ
msg_test_prepare = 3

abbrev pub msg_test_start : ℕ
msg_test_start = 4

abbrev pub msg_test_msg : ℕ
msg_test_msg = 5

abbrev pub msg_test_finalize : ℕ
msg_test_finalize = 6

abbrev pub msg_results : ℕ
msg_results = 8

abbrev pub msg_logout : ℕ
msg_logout = 9

abbrev pub msg_extended_login : ℕ
msg_extended_login = 11

abbrev pub ws_opcode_continue : ℕ
ws_opcode_continue = 0

abbrev pub ws_opcode_text : ℕ
ws_opcode_text = 1

abbrev pub ws_opcode_binary : ℕ
ws_opcode_binary = 2

abbrev pub ws_opcode_close : ℕ
ws_opcode_close = 8

abbrev pub ws_opcode_ping : ℕ
ws_opcode_ping = 9

abbrev pub ws_opcode_pong : ℕ
ws_opcode_pong = 10

abbrev pub ws_fin_flag : ℕ
ws_fin_flag = 0x80

abbrev pub ws_reserved_mask : ℕ
ws_reserved_mask = 0x70

abbrev pub ws_opcode_mask : ℕ
ws_opcode_mask = 0x0f

abbrev pub ws_mask_flag : ℕ
ws_mask_flag = 0x80

abbrev pub ws_len_mask : ℕ
ws_len_mask = 0x7f

abbrev pub ws_f_connection : ℕ
ws_f_connection = 1

abbrev pub ws_f_sec_ws_accept : ℕ
ws_f_sec_ws_accept = 2

abbrev pub ws_f_sec_ws_protocol : ℕ
ws_f_sec_ws_protocol = 4

abbrev pub ws_f_upgrade : ℕ
ws_f_upgrade = 8

abbrev pub max_loops : ℕ
max_loops = 256
