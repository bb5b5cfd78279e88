-- ===== src/Sys.antt =====
-- The operating system and OpenSSL as the client calls them: include/libndt/internal/sys.hpp and
-- the SSL calls of include/libndt/libndt.hpp. What they call is not code of the repository, so it
-- is a record of functions over what the client cannot see, `W`; the checks of Sys::Recv and
-- Sys::Send in front of the calls are functions. A call that returns -1 answers `none` or `false`.
use libndt.Prelude.{Bool, List, Option, if◌then◌else◌, length, ltb, none, ℕ, ◌-◌, ◌^◌, ◌⊎◌}
use libndt.Prelude.Bytes.{Bytes}
use libndt.Types.{Socket}

-- The values of errno that the client tells apart.
pub data Errno : Type 0 where
  no_error epipe econnaborted econnrefused econnreset ehostunreach eintr einval eio : Errno
  enetdown enetreset enetunreach einprogress ewouldblock eagain etimedout : Errno
  other_errno : ℕ → Errno

-- What SSL_get_error returns.
pub data SslError : Type 0 where
  ssl_error_none ssl_error_zero_return ssl_error_want_read ssl_error_want_write : SslError
  ssl_error_syscall ssl_error_other : SslError

-- What getaddrinfo returns.
pub data AiError : Type 0 where
  eai_again eai_fail eai_noname eai_system eai_other : AiError

pub record PollFd : Type 0 where
  pub sock : Socket
  pub events : ℕ
  pub revents : ℕ

pub record Sys (W : Type 0) : Type 0 where
  pub get_last_error : W → Errno
  pub set_last_error : Errno → W → W
  pub recv : Socket → ℕ → W → Option Bytes × W
  pub send : Socket → Bytes → W → Option ℕ × W
  -- The number of descriptors with events, and the vector that poll fills in.
  pub poll : List PollFd → ℕ → W → (Option ℕ × List PollFd) × W
  pub closesocket : Socket → W → Bool × W
  pub shutdown : Socket → W → Bool × W
  pub get_flags : Socket → W → Option ℕ × W
  pub set_flags : Socket → ℕ → W → Bool × W
  -- getaddrinfo on a host and a port: the entries of its list.
  pub getaddrinfo : Bool → Bytes → Bytes → W → (AiError ⊎ List ℕ) × W
  pub getnameinfo : ℕ → W → Option Bytes × W
  pub new_socket : ℕ → W → Socket × W
  pub connect : Socket → ℕ → W → Bool × W
  -- getsockopt of SO_ERROR.
  pub so_error : Socket → W → Option Errno × W
  pub ssl_read : ℕ → ℕ → W → Option Bytes × W
  pub ssl_write : ℕ → Bytes → W → Option ℕ × W
  pub ssl_get_error : ℕ → W → SslError
  pub ssl_free : ℕ → W → W
  pub ssl_shutdown : ℕ → W → W
  pub ssl_do_handshake : ℕ → W → W
  pub access : Bytes → W → Bool
  -- SSL_CTX_new, SSL_CTX_load_verify_locations and SSL_new: an SSL, or which of them failed.
  pub ssl_ctx_new : W → Bool × W
  pub ssl_load_ca : Bytes → W → Bool × W
  pub ssl_new : W → Option ℕ × W
  pub bio_new : W → Bool × W
  pub ssl_set_host : ℕ → Bytes → W → Bool × W

-- LIBNDT_OS_SSIZE_MAX, where a size has 64 bits.
abbrev pub ssize_max : ℕ
ssize_max = 2 ^ 63 - 1

module _ {W : Type 0} (sys : Sys W) where
  unfoldable pub sys_recv : Socket → ℕ → W → Option Bytes × W
  sys_recv sock count w =
      if ltb ssize_max count then (none, sys.set_last_error einval w) else sys.recv sock count w

  unfoldable pub sys_send : Socket → Bytes → W → Option ℕ × W
  sys_send sock base w =
      if ltb ssize_max (length base)
      then (none, sys.set_last_error einval w)
      else sys.send sock base w
