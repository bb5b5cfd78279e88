-- ===== src/Netx/Descriptors.antt =====
-- netx_setnonblocking and netx_closesocket (include/libndt/libndt.hpp).
use libndt.Client.{Client, uses}
use libndt.Err.{Err, invalid_argument}
use libndt.Io.{Io, err, pure, ◌>>=◌}
use libndt.Netx.{erase_ssl, errno_result, find_ssl, o_nonblock, on_world}
use libndt.Prelude.{Bool, bit_and, bit_or, if◌then◌else◌, none, some, ◌-◌, ◌^◌}
use libndt.Sys.{Sys}
use libndt.Types.{Socket, protocol_flag_tls}

module _ {W : Type 0} (sys : Sys W) where
  pub netx_setnonblocking : Socket → Bool → Io (Client W) Err Unit
  unfolding errno_result
  netx_setnonblocking sock enable = do
    flags ← on_world (sys.get_flags sock)
    elim flags [
      | none ↦ errno_result sys
      | some f ↦ (do
        done ← on_world (
            sys.set_flags sock
              (if enable then bit_or f o_nonblock else bit_and f (2 ^ 32 - 1 - o_nonblock)))
        if done then pure tt else errno_result sys)
    ]

  unfoldable pub close_descriptor : Socket → Io (Client W) Err Unit
  unfolding errno_result
  close_descriptor sock = do
    done ← on_world (sys.closesocket sock)
    if done then pure tt else errno_result sys

  unfoldable pub netx_closesocket : Socket → Io (Client W) Err Unit
  unfolding close_descriptor
  netx_closesocket sock s =
      if uses protocol_flag_tls s
      then (elim (find_ssl sock s.fd_to_ssl) [
        | none ↦ (err invalid_argument, s)
        | some ssl ↦
            close_descriptor sock (record s {
              fd_to_ssl = erase_ssl sock s.fd_to_ssl;
              world = sys.ssl_free ssl s.world;
            })
      ])
      else close_descriptor sock s
