-- ===== src/Netx.antt =====
-- include/libndt/libndt.hpp: the networking layer (netx_recv, netx_recvn, netx_send, netx_sendn,
-- netx_wait, netx_poll, ...), its error maps and its descriptors. Each loop takes fuel.
pub mod Errors
pub mod Descriptors
pub mod Dial
pub mod Tls
pub mod Bio
pub mod Exact
pub mod Limits
pub mod Ready
pub mod Peer
use libndt.Client.{Client, uses}
use libndt.Err.{
  Err, eof, interrupted, invalid_argument, io_error, operation_would_block, ssl_want_read,
  ssl_want_write, timed_out, value_too_large,
}
use libndt.Io.{Io, Result, err, ok, out_of_fuel, pure, raise, stuck, ◌>>=◌, ◌>>◌}
use libndt.Netx.Errors.{map_errno, map_ssl_error}
use libndt.Prelude.{
  List, Option, [], drop, if◌then◌else◌, length, ltb, none, some, suc, zero, ℕ, ◌*◌, ◌++◌, ◌+◌, ◌-◌,
  ◌/◌, ◌==◌, ◌^◌, ◌∷◌,
}
use libndt.Prelude.Bytes.{Bytes}
use libndt.Sys.{PollFd, Sys, no_error, sys_recv, sys_send}
use libndt.Types.{Socket, protocol_flag_tls, socket_eq}

abbrev pub int_max : ℕ
int_max = 2 ^ 31 - 1

abbrev pub pollin : ℕ
pollin = 1

abbrev pub pollout : ℕ
pollout = 4

abbrev pub o_nonblock : ℕ
o_nonblock = 2048

-- The milliseconds that netx_wait passes to netx_poll.
pub wait_msec : ℕ → ℕ
wait_msec timeout = (if ltb (int_max / 1000) timeout then int_max / 1000 else timeout) * 1000

-- fd_to_ssl_.count(fd) and fd_to_ssl_.at(fd).
unfoldable pub find_ssl : Socket → List (Socket × ℕ) → Option ℕ
find_ssl sock [] = none
find_ssl sock ((k, v) ∷ m) = if socket_eq k sock then some v else find_ssl sock m

-- fd_to_ssl_.erase(fd)
unfoldable pub erase_ssl : Socket → List (Socket × ℕ) → List (Socket × ℕ)
erase_ssl sock [] = []
erase_ssl sock ((k, v) ∷ m) =
    if socket_eq k sock then erase_ssl sock m else (k, v) ∷ erase_ssl sock m

pub clear_revents : List PollFd → List PollFd
clear_revents [] = []
clear_revents (p ∷ ps) = record p { revents = 0 } ∷ clear_revents ps

-- A value, unless there is an error.
abbrev pub unless_error : {A : Type 0} → A → Option Err → Result Err A
unless_error a none = ok a
unless_error a (some e) = err e

module _ {W A : Type 0} where
  -- A system call of the client.
  abbrev pub on_world : (W → A × W) → Io (Client W) Err A
  on_world f s = (ok (f s.world).0, record s { world = (f s.world).1 })

  -- What an error becomes, and what becomes of the rest.
  abbrev pub handle : (Err → Io (Client W) Err A) → Result Err A → Io (Client W) Err A
  handle handler (ok a) s = (ok a, s)
  handle handler (err e) s = handler e s
  handle handler stuck s = (stuck, s)

  -- Code that goes on after an error of `m`.
  abbrev pub catch : Io (Client W) Err A → (Err → Io (Client W) Err A) → Io (Client W) Err A
  catch m handler s = handle handler (m s).0 (m s).1

module _ {W : Type 0} (sys : Sys W) where
  abbrev pub change_world : (W → W) → Io (Client W) Err Unit
  change_world f s = (ok tt, record s { world = f s.world })

  abbrev pub last_error : Client W → Err
  last_error s = map_errno (sys.get_last_error s.world)

  abbrev pub last_ssl_error : ℕ → Client W → Option Err
  last_ssl_error ssl s = map_ssl_error (sys.ssl_get_error ssl s.world) (sys.get_last_error s.world)

  -- What follows a call that returned -1.
  unfoldable pub errno_result : {A : Type 0} → Io (Client W) Err A
  errno_result s = (err (last_error s), s)

  pub ssl_result : {A : Type 0} → ℕ → A → Io (Client W) Err A
  ssl_result ssl nothing s = (unless_error nothing (last_ssl_error ssl s), s)

  pub read_ssl : ℕ → ℕ → Io (Client W) Err Bytes
  unfolding ssl_result
  read_ssl ssl count = do
    ret ← on_world (sys.ssl_read ssl count)
    elim ret [ none ↦ ssl_result ssl [] | some data' ↦ pure data' ]

  pub recv_tls : Socket → ℕ → Io (Client W) Err Bytes
  recv_tls sock count s =
      if ltb int_max count then (err invalid_argument, s) else elim (find_ssl sock s.fd_to_ssl) [
        | none ↦ (err invalid_argument, s)
        | some ssl ↦ read_ssl ssl count s
      ]

  unfoldable pub recv_tcp : Socket → ℕ → Io (Client W) Err Bytes
  unfolding errno_result
  recv_tcp sock count = do
    rv ← on_world (sys_recv sys sock count)
    elim rv [
      | none ↦ errno_result
      | some data' ↦ if length data' == 0 then raise eof else pure data'
    ]

  pub netx_recv_nonblocking : Socket → ℕ → Io (Client W) Err Bytes
  unfolding recv_tls recv_tcp
  netx_recv_nonblocking sock count s =
      (if count == 0 then raise invalid_argument else do
        change_world (sys.set_last_error no_error)
        if uses protocol_flag_tls s then recv_tls sock count else recv_tcp sock count)
        s

  send_tls : Socket → Bytes → Io (Client W) Err ℕ
  unfolding ssl_result
  send_tls sock base s =
      if ltb int_max (length base)
      then (err invalid_argument, s)
      else elim (find_ssl sock s.fd_to_ssl) [
        | none ↦ (err invalid_argument, s)
        | some ssl ↦
            (do
              ret ← on_world (sys.ssl_write ssl base)
              elim ret [ none ↦ ssl_result ssl 0 | some n ↦ pure n ])
              s
      ]

  pub send_tcp : Socket → Bytes → Io (Client W) Err ℕ
  unfolding errno_result
  send_tcp sock base = do
    rv ← on_world (sys_send sys sock base)
    elim rv [ none ↦ errno_result | some n ↦ if n == 0 then raise io_error else pure n ]

  pub netx_send_nonblocking : Socket → Bytes → Io (Client W) Err ℕ
  unfolding send_tls send_tcp
  netx_send_nonblocking sock base s =
      (if length base == 0 then raise invalid_argument else do
        change_world (sys.set_last_error no_error)
        if uses protocol_flag_tls s then send_tls sock base else send_tcp sock base)
        s

  -- What follows a poll that returned -1; `again` is the `goto again`.
  pub poll_failed : Io (Client W) Err Unit → Err → Io (Client W) Err Unit
  poll_failed again interrupted s = again s
  poll_failed again e s = (err e, s)

  -- The system's poll, and what netx_poll makes of its return value.
  pub poll_once : Io (Client W) Err Unit → List PollFd → ℕ → Io (Client W) Err Unit
  unfolding poll_failed
  poll_once again pfds timeout_msec s =
      let r = sys.poll pfds timeout_msec s.world in
      let s' = record s { world = r.1 } in
      elim r.0.0 [
        | none ↦ poll_failed again (last_error s') s'
        | some n ↦ if n == 0 then (err timed_out, s') else (ok tt, s')
      ]

  pub poll_loop : ℕ → List PollFd → ℕ → Io (Client W) Err Unit
  unfolding poll_once
  poll_loop zero pfds timeout_msec = out_of_fuel
  poll_loop (suc fuel) pfds timeout_msec =
      let again = poll_loop fuel pfds timeout_msec in
      if ltb 255 (length pfds) then raise value_too_large else poll_once again pfds timeout_msec

  -- `fuel` bounds the interrupted calls of poll.
  pub netx_poll : ℕ → List PollFd → ℕ → Io (Client W) Err Unit
  unfolding clear_revents poll_loop
  netx_poll fuel pfds timeout_msec = poll_loop fuel (clear_revents pfds) timeout_msec

  pub netx_wait : ℕ → ℕ → Socket → ℕ → Io (Client W) Err Unit
  netx_wait fuel events sock timeout =
      netx_poll fuel (record { sock = sock; events = events; revents = 0 } ∷ []) (wait_msec timeout)

  unfoldable pub netx_wait_readable : ℕ → Socket → ℕ → Io (Client W) Err Unit
  netx_wait_readable fuel = netx_wait fuel pollin

  pub netx_wait_writeable : ℕ → Socket → ℕ → Io (Client W) Err Unit
  netx_wait_writeable fuel = netx_wait fuel pollout

  -- What netx_recv does with an error of netx_recv_nonblocking.
  pub retry_recv : {A : Type 0} → ℕ → Socket → Io (Client W) Err A → Err → Io (Client W) Err A
  retry_recv fuel sock again operation_would_block s =
      (do netx_wait_readable fuel sock s.settings.timeout; again) s
  retry_recv fuel sock again ssl_want_read s =
      (do netx_wait_readable fuel sock s.settings.timeout; again) s
  retry_recv fuel sock again ssl_want_write s =
      (do netx_wait_writeable fuel sock s.settings.timeout; again) s
  retry_recv fuel sock again e s = (err e, s)

  -- `budget` bounds the retries, and the interrupted calls of poll in each.
  pub netx_recv : ℕ → Socket → ℕ → Io (Client W) Err Bytes
  netx_recv zero sock count = out_of_fuel
  netx_recv (suc fuel) sock count =
      let again = netx_recv fuel sock count in
      catch (netx_recv_nonblocking sock count) (retry_recv fuel sock again)

  -- What netx_send does with an error of netx_send_nonblocking.
  pub retry_send : {A : Type 0} → ℕ → Socket → Io (Client W) Err A → Err → Io (Client W) Err A
  retry_send fuel sock again ssl_want_read s =
      (do netx_wait_readable fuel sock s.settings.timeout; again) s
  retry_send fuel sock again operation_would_block s =
      (do netx_wait_writeable fuel sock s.settings.timeout; again) s
  retry_send fuel sock again ssl_want_write s =
      (do netx_wait_writeable fuel sock s.settings.timeout; again) s
  retry_send fuel sock again e s = (err e, s)

  pub netx_send : ℕ → Socket → Bytes → Io (Client W) Err ℕ
  netx_send zero sock base = out_of_fuel
  netx_send (suc fuel) sock base =
      let again = netx_send fuel sock base in
      catch (netx_send_nonblocking sock base) (retry_send fuel sock again)

  -- The loop of netx_recvn, with what is in the buffer. `fuel` bounds its rounds.
  pub recvn_loop : ℕ → ℕ → Socket → ℕ → Bytes → Io (Client W) Err Bytes
  recvn_loop budget zero sock count acc = out_of_fuel
  recvn_loop budget (suc fuel) sock count acc =
      let again = λ (acc' : Bytes). recvn_loop budget fuel sock count acc' in
      if ltb (length acc) count
      then (do
        part ← netx_recv budget sock (count - length acc)
        if ltb (2 ^ 64 - 1 - length part) (length acc)
            then raise value_too_large
            else again (acc ++ part))
      else pure acc

  pub netx_recvn : ℕ → ℕ → Socket → ℕ → Io (Client W) Err Bytes
  netx_recvn budget fuel sock count = recvn_loop budget fuel sock count []

  -- The loop of netx_sendn, from the offset `off` on.
  pub sendn_loop : ℕ → ℕ → Socket → Bytes → ℕ → Io (Client W) Err Unit
  sendn_loop budget zero sock base off = out_of_fuel
  sendn_loop budget (suc fuel) sock base off =
      let again = λ (off' : ℕ). sendn_loop budget fuel sock base off' in
      if ltb off (length base)
      then (do
        n ← netx_send budget sock (drop off base)
        if ltb (2 ^ 64 - 1 - n) off then raise value_too_large else again (off + n))
      else pure tt

  pub netx_sendn : ℕ → ℕ → Socket → Bytes → Io (Client W) Err Unit
  netx_sendn budget fuel sock base = sendn_loop budget fuel sock base 0
