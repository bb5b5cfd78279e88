-- ===== src/Netx/Peer.antt =====
-- The networking methods (include/libndt/libndt.hpp) without TLS on a non-blocking socket: what
-- the system calls do over a connection, and what netx_recv and netx_send make of it.
pub mod Calls
pub mod Recvn
pub mod Sendn
pub mod Contract
use libndt.Client.{Client}
use libndt.Err.{Err}
use libndt.Io.{Io, ok}
use libndt.Netx.{clear_revents, netx_poll, netx_wait, poll_loop, poll_once, wait_msec}
use libndt.Netx.Ready.{Takes}
use libndt.Prelude.{
  List, Option, [], arith, false, length, none, refl, some, suc, take, ℕ, ◌++◌, ◌<◌, ◌==◌, ◌^◌, ◌∙◌,
  ◌∷◌, ◌≡◌, ◌≤◌, ◌⊎◌,
}
use libndt.Prelude.Bytes.{Bytes}
use libndt.Sys.{Errno, PollFd, Sys, ewouldblock}
use libndt.Types.{Socket, has, protocol_flag_tls}

-- What is seen of a connection: the bytes that will be received, the bytes that were sent, and how
-- often recv and send will still find the socket not ready.
pub record Link (W : Type 0) : Type 0 where
  pub received : W → Bytes
  pub sent : W → Bytes
  pub stalls : W → ℕ

-- A call leaves both directions as they are.
pub record Quiet {W : Type 0} (link : Link W) (w w' : W) : Type 0 where
  pub received_same : link.received w' ≡ link.received w
  pub sent_same : link.sent w' ≡ link.sent w

-- What send does with these bytes: it takes the first `k`, at least one.
pub record Sends {W : Type 0} (link : Link W) (bytes : Bytes) (k : ℕ) (w : W) (result : Option ℕ)
    (w' : W) : Type 0 where
  pub some_bytes : 0 < k
  pub in_bytes : k ≤ length bytes
  pub counted : result ≡ some k
  pub received_same : link.received w' ≡ link.received w
  pub appended : link.sent w' ≡ link.sent w ++ take k bytes

-- What netx_wait polls: the socket alone.
abbrev pub one_pfd : Socket → ℕ → List PollFd
one_pfd sock events = record { sock = sock; events = events; revents = 0 } ∷ []

-- The connection to a responsive peer, over a socket that does not block, for calls with fewer than
-- 2^63 bytes: recv hands out a piece of the bytes in their order, the end after the last one, or
-- EWOULDBLOCK; send takes a piece or answers EWOULDBLOCK; poll on the socket alone reports it ready
-- before the timeout. Fewer than `limit` calls in a row find it not ready.
pub record IsPeer {W : Type 0} (sys : Sys W) (sock : Socket) (link : Link W) (limit : ℕ)
    : Type 0 where
  pub received_small : (w : W) → length (link.received w) < 2 ^ 63
  pub patient : (w : W) → link.stalls w < limit
  pub errno_apart :
      (e : Errno) (w : W)
      → Quiet link w (sys.set_last_error e w)
        × (link.stalls (sys.set_last_error e w) ≡ link.stalls w)
  pub errno_kept : (e : Errno) (w : W) → sys.get_last_error (sys.set_last_error e w) ≡ e
  pub recv_answers :
      (n : ℕ) (w : W)
      → 0 < n
      → n < 2 ^ 63
      → ((k : ℕ) × Takes n k
            (link.received w)
            (sys.recv sock n w).0
            (link.received (sys.recv sock n w).1)
          × (link.sent (sys.recv sock n w).1 ≡ link.sent w))
        ⊎ (((link.received w ≡ [])
              × ((sys.recv sock n w).0 ≡ some [])
              × Quiet link w (sys.recv sock n w).1)
            ⊎ (((sys.recv sock n w).0 ≡ none)
                × (sys.get_last_error (sys.recv sock n w).1 ≡ ewouldblock)
                × (link.stalls (sys.recv sock n w).1 < link.stalls w)
                × Quiet link w (sys.recv sock n w).1))
  pub send_answers :
      (bytes : Bytes) (w : W)
      → 0 < length bytes
      → length bytes < 2 ^ 63
      → ((k : ℕ) × Sends link bytes k w (sys.send sock bytes w).0 (sys.send sock bytes w).1)
        ⊎ (((sys.send sock bytes w).0 ≡ none)
            × (sys.get_last_error (sys.send sock bytes w).1 ≡ ewouldblock)
            × (link.stalls (sys.send sock bytes w).1 < link.stalls w)
            × Quiet link w (sys.send sock bytes w).1)
  pub poll_ready :
      (events msec : ℕ) (w : W)
      → ((m : ℕ) × ((sys.poll (one_pfd sock events) msec w).0.0 ≡ some (suc m)))
        × Quiet link w (sys.poll (one_pfd sock events) msec w).1
        × (link.stalls (sys.poll (one_pfd sock events) msec w).1 ≤ link.stalls w)

module _ {W : Type 0} {link : Link W} where
  pub Quiet-trans : {a b c : W} → Quiet link a b → Quiet link b c → Quiet link a c
  Quiet-trans p q = record {
    received_same = q.received_same ∙ p.received_same;
    sent_same = q.sent_same ∙ p.sent_same;
  }

-- Without TLS.
abbrev pub IsTcp : {W : Type 0} → Client W → Type 0
IsTcp s = has s.settings.protocol_flags protocol_flag_tls ≡ false

-- The client at another world.
abbrev pub at_world : {W : Type 0} → Client W → W → Client W
at_world s w = record s { world = w }

module _ {W : Type 0} (sys : Sys W) (sock : Socket) (link : Link W) (limit : ℕ)
    (peer : IsPeer sys sock link limit) where
  poll_once-ready :
      (again : Io (Client W) Err Unit) (events msec : ℕ) (s : Client W)
      → poll_once sys again (one_pfd sock events) msec s
        ≡ (ok tt, at_world s (sys.poll (one_pfd sock events) msec s.world).1)
  unfolding poll_once
  poll_once-ready again events msec s =
      let (m, e) = (peer.poll_ready events msec s.world).0 in
      let answered : (suc m == 0) ≡ false = ground arith in rw (e, poll_once) (rw answered refl)

  pub wait_ready :
      (fuel events timeout : ℕ) (s : Client W)
      → (w : W) × Quiet link s.world w
        × (link.stalls w ≤ link.stalls s.world)
        × (netx_wait sys (suc fuel) events sock timeout s ≡ (ok tt, at_world s w))
  unfolding netx_wait netx_poll poll_loop clear_revents
  wait_ready fuel events timeout s =
      let pfds = one_pfd sock events in
      let msec = wait_msec timeout in
      let (_, q, l) = peer.poll_ready events msec s.world in
      (
        (sys.poll pfds msec s.world).1,
        q,
        l,
        poll_once-ready (poll_loop sys fuel pfds msec) events msec s,
      )
