-- ===== src/Net.antt =====
-- The virtual networking methods of `Client` (include/libndt/libndt.hpp) that the protocol code
-- above them calls, as an interface over the state `S`. A subclass may override each of them.
pub mod Stream
pub mod Reads
use libndt.Err.{Err}
use libndt.Io.{Io}
use libndt.Prelude.{ℕ}
use libndt.Prelude.Bytes.{Bytes}
use libndt.Types.{Socket}

pub record Net (S : Type 0) : Type 0 where
  -- netx_recvn: exactly this many bytes, or an error.
  pub recvn : Socket → ℕ → Io S Err Bytes
  -- netx_recv: some bytes, at most this many.
  pub recv : Socket → ℕ → Io S Err Bytes
  -- netx_send: how many of the bytes were sent.
  pub send : Socket → Bytes → Io S Err ℕ
  -- netx_sendn: all of the bytes, or an error.
  pub sendn : Socket → Bytes → Io S Err Unit
  -- netx_dial: connects to a host name and a port.
  pub dial : Bytes → Bytes → Io S Err Socket
  pub closesocket : Socket → Io S Err Unit
  pub wait_readable : Socket → ℕ → Io S Err Unit

-- A draw of the generator `std::mt19937` that a std::random_device seeds.
abbrev pub Draw : Type 0 → Type 0
Draw S = S → ℕ × S
