-- ===== src/Netx/Errors.antt =====
-- netx_map_errno, map_ssl_error and netx_map_eai (include/libndt/libndt.hpp).
use libndt.Err.{
  Err, ai_again, ai_fail, ai_generic, ai_noname, broken_pipe, connection_aborted,
  connection_refused, connection_reset, eof, host_unreachable, interrupted, invalid_argument,
  io_error, network_down, network_reset, network_unreachable, operation_in_progress,
  operation_would_block, ssl_generic, ssl_syscall, ssl_want_read, ssl_want_write, timed_out,
}
use libndt.Prelude.{Option, none, some}
use libndt.Sys.{
  AiError, Errno, SslError, eagain, eai_again, eai_fail, eai_noname, eai_other, eai_system,
  econnaborted, econnrefused, econnreset, ehostunreach, einprogress, eintr, einval, eio, enetdown,
  enetreset, enetunreach, epipe, etimedout, ewouldblock, no_error, other_errno, ssl_error_none,
  ssl_error_other, ssl_error_syscall, ssl_error_want_read, ssl_error_want_write,
  ssl_error_zero_return,
}

unfoldable pub map_errno : Errno → Err
map_errno no_error = io_error
map_errno epipe = broken_pipe
map_errno econnaborted = connection_aborted
map_errno econnrefused = connection_refused
map_errno econnreset = connection_reset
map_errno ehostunreach = host_unreachable
map_errno eintr = interrupted
map_errno einval = invalid_argument
map_errno eio = io_error
map_errno enetdown = network_down
map_errno enetreset = network_reset
map_errno enetunreach = network_unreachable
map_errno einprogress = operation_in_progress
map_errno ewouldblock = operation_would_block
map_errno eagain = operation_would_block
map_errno etimedout = timed_out
map_errno (other_errno n) = io_error

-- `none` is Err::none.
pub map_ssl_error : SslError → Errno → Option Err
map_ssl_error ssl_error_none e = none
map_ssl_error ssl_error_zero_return e = some eof
map_ssl_error ssl_error_want_read e = some ssl_want_read
map_ssl_error ssl_error_want_write e = some ssl_want_write
map_ssl_error ssl_error_syscall no_error = some ssl_syscall
map_ssl_error ssl_error_syscall e = some (map_errno e)
map_ssl_error ssl_error_other e = some ssl_generic

pub map_eai : AiError → Errno → Err
map_eai eai_again e = ai_again
map_eai eai_fail e = ai_fail
map_eai eai_noname e = ai_noname
map_eai eai_system e = map_errno e
map_eai eai_other e = ai_generic
