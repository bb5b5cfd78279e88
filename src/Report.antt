-- ===== src/Report.antt =====
-- represent (include/libndt/libndt.hpp), which shows a message of a server, and libndt_perror
-- (include/libndt/internal/err.hpp).
pub mod Printable
use libndt.Err.{
  Err, ai_again, ai_fail, ai_generic, ai_noname, broken_pipe, connection_aborted,
  connection_refused, connection_reset, eof, function_not_supported, host_unreachable, interrupted,
  invalid_argument, io_error, message_size, network_down, network_reset, network_unreachable,
  operation_in_progress, operation_would_block, socks5h, ssl_generic, ssl_syscall, ssl_want_read,
  ssl_want_write, timed_out, value_too_large, ws_proto,
}
use libndt.Prelude.{
  Bool, List, [], if◌then◌else◌, leb, ltb, not, suc, true, zero, ℕ, ◌%◌, ◌&&◌, ◌++◌, ◌+◌, ◌/◌, ◌||◌,
  ◌∷◌,
}
use libndt.Prelude.Bytes.{Bytes}
use libndt.Prelude.Text.{codes}

-- Two digits, as std::hex writes them.
pub hex_digit : ℕ → ℕ
hex_digit n = if ltb n 10 then 48 + n else 87 + n

pub escape : ℕ → Bytes
unfolding hex_digit
escape c =
    if leb c b' ' || ltb b'~' c
    then codes "<0x" ++ hex_digit (c / 16) ∷ hex_digit (c % 16) ∷ codes ">"
    else c ∷ []

pub escape_all : Bytes → Bytes
unfolding escape
escape_all [] = []
escape_all (c ∷ cs) = escape c ++ escape_all cs

pub is_printable : Bytes → Bool
is_printable [] = true
is_printable (c ∷ cs) = not (ltb c b' ' || ltb b'~' c) && is_printable cs

pub represent : Bytes → Bytes
unfolding is_printable escape_all
represent message =
    if is_printable message then message else codes "binary([" ++ escape_all message ++ codes "])"

-- The name of a code, and for ssl_generic what ssl_format_error makes of OpenSSL's errors.
pub error_name : Err → Bytes
error_name broken_pipe = codes "broken_pipe"
error_name connection_aborted = codes "connection_aborted"
error_name connection_refused = codes "connection_refused"
error_name connection_reset = codes "connection_reset"
error_name function_not_supported = codes "function_not_supported"
error_name host_unreachable = codes "host_unreachable"
error_name interrupted = codes "interrupted"
error_name invalid_argument = codes "invalid_argument"
error_name io_error = codes "io_error"
error_name message_size = codes "message_size"
error_name network_down = codes "network_down"
error_name network_reset = codes "network_reset"
error_name network_unreachable = codes "network_unreachable"
error_name operation_in_progress = codes "operation_in_progress"
error_name operation_would_block = codes "operation_would_block"
error_name timed_out = codes "timed_out"
error_name value_too_large = codes "value_too_large"
error_name eof = codes "eof"
error_name ai_generic = codes "ai_generic"
error_name ai_again = codes "ai_again"
error_name ai_fail = codes "ai_fail"
error_name ai_noname = codes "ai_noname"
error_name socks5h = codes "socks5h"
error_name ssl_generic = codes "ssl_generic"
error_name ssl_want_read = codes "ssl_want_read"
error_name ssl_want_write = codes "ssl_want_write"
error_name ssl_syscall = codes "ssl_syscall"
error_name ws_proto = codes "ws_proto"

-- The errors that OpenSSL has queued, with ": " between them: at most USHRT_MAX of them.
pub join_reasons : Bytes → ℕ → List Bytes → Bytes
join_reasons separator zero reasons = []
join_reasons separator (suc n) [] = []
join_reasons separator (suc n) (reason ∷ more) =
    separator ++ (reason ++ join_reasons (codes ": ") n more)

pub libndt_perror : List Bytes → Err → Bytes
unfolding error_name join_reasons
libndt_perror queued ssl_generic =
    error_name ssl_generic ++ (codes ": " ++ join_reasons [] 65535 queued)
libndt_perror queued e = error_name e
