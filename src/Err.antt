-- ===== src/Err.antt =====
-- include/libndt/internal/err.hpp: the error codes.

pub data Err : Type 0 where
  broken_pipe connection_aborted connection_refused connection_reset : Err
  function_not_supported host_unreachable interrupted invalid_argument io_error : Err
  message_size network_down network_reset network_unreachable : Err
  operation_in_progress operation_would_block timed_out value_too_large : Err
  ai_generic ai_again ai_fail ai_noname : Err
  ssl_generic ssl_want_read ssl_want_write ssl_syscall : Err
  eof socks5h ws_proto : Err
