-- ===== src/Lib.antt =====
-- libndt (include/libndt/libndt.hpp): a client of the NDT network performance tests.
--
-- The program is one class, Client, whose virtual methods call each other from the top down: run
-- tries the hosts of M-Lab one after the other; the steps of a test exchange NDT messages; the
-- messages go over TCP, or over WebSocket; the dialers stack SOCKSv5, TLS and WebSocket; and the
-- netx methods wrap the system calls.
--
-- Which file models which part:
--   Err, Types, Client: err.hpp, the constants, Settings, and the state of Client (settings_,
--     sock_, granted_suite_, fd_to_ssl_, and the world that the system calls change).
--   Ws and its children: random_printable_fill, ws_prepare_frame, ws_send_frame,
--     ws_recv_any_frame, ws_recv_frame, ws_recvmsg; Ws/Handshake: ws_sendln, ws_recvln,
--     ws_handshake.
--   Msg and its children: msg_write_legacy, msg_write, msg_write_login, msg_read_legacy, msg_read
--     and the msg_expect family.
--   Client/Steps, Client/Run: connect to wait_close, run_tests, run_meta, ndt7_connect, run and
--     query_mlabns.
--   Session: run over the methods of Client itself, with the messages of a whole session.
--   Curl: curlx.hpp and query_mlabns_curl.
--   Socks: netx_maybesocks5h_dial. Netx/Tls: netx_maybessl_dial, netx_maybews_dial,
--     ssl_retry_unary_op. Netx, Netx/Descriptors, Netx/Dial: the other netx
--     methods. Netx/Errors: the error maps.
--   Netx/Bio: libndt_bio_read, libndt_bio_write, which OpenSSL calls to reach the socket.
--   Netx/Peer: the netx methods over a connection, as the byte stream that the protocols rely on.
--   Transfer/Ndt7: ndt7_download, ndt7_upload. Transfer/Legacy: run_download, run_upload, with the
--     SocketVector that closes the data connections. Transfer/Flows: the threads of these two.
--     Transfer/Web100: trim, jsonify_web100. Transfer: compute_speed_kbits and what they share.
--   Report: represent, libndt_perror. CommandLine: main of libndt-client.cpp up to the run.
--   Strtonum: strtonum of internal/sys.hpp, with the strtoll that it calls.
--   Io: a method is an action of `Io S E A`, a function of the state into a result and a state;
--     `Gives` and `Returns` reason about actions. Net: the virtual networking methods as an
--     interface, with the contract of a byte stream (Net/Stream) that the theorems on the protocols
--     rely on. Sys: the system calls and OpenSSL, as a parameter, behind the checks of Sys::Recv and
--     Sys::Send.
--   Prelude: tests on numbers, lists, bytes and text. Runs: the theorems at concrete inputs.
--
-- A call that returns its values through pointers returns them in the result; null checks on these
-- pointers have no counterpart. Bytes and counters are natural numbers, with the wrap-around of
-- the source written out. The loops that read until something arrives take fuel, which bounds the
-- rounds: for WebSocket messages any fuel above the bytes that are left to receive is enough, for
-- a line as much fuel as the line has bytes with its CR LF. Loops that retry a system call have no
-- bound in the source: what they return is right for any fuel, and over a connection more fuel than
-- the calls that find the socket not ready is enough; the rounds of netx_recvn and netx_sendn are
-- at most one more than the bytes.
--
-- The transfers: std::chrono::steady_clock is a function of the world, in nanoseconds, and a
-- double is the exact fraction. The threads of run_download and run_upload take turns: an access to
-- what they share, or a call that receives or sends, is one turn, and their order is an argument,
-- so that a theorem for every order holds for every interleaving of these; an order that ends too
-- early gives no result. The rounds of ndt7_download need no more fuel than there are bytes to come.
--
-- Not modelled: libndt_bio_method, logging, the summary and BatchClient,
-- which call libraries or print; single_include, which is generated. nlohmann/json, libcurl,
-- OpenSSL, argh, the system calls, and the conversions between texts and doubles are parameters.
pub mod Prelude
pub mod Err
pub mod Io
pub mod Types
pub mod Net
pub mod Ws
pub mod Client
pub mod Strtonum
pub mod Msg
pub mod Socks
pub mod Sys
pub mod Netx
pub mod Report
pub mod CommandLine
pub mod Transfer
pub mod Curl
pub mod Session
pub mod Runs
