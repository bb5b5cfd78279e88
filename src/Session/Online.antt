-- ===== src/Session/Online.antt =====
-- The client's own networking methods (include/libndt/libndt.hpp) without TLS are what a session
-- relies on.
use libndt.Client.{Client, uses}
use libndt.Io.{stuck}
use libndt.Net.{Draw}
use libndt.Netx.{errno_result, find_ssl, netx_wait, netx_wait_readable, pollin}
use libndt.Netx.Descriptors.{close_descriptor, netx_closesocket}
use libndt.Netx.Dial.{netx}
use libndt.Netx.Peer.{IsPeer, Link, wait_ready}
use libndt.Netx.Peer.Contract.{link_view, netx-Stream}
use libndt.Prelude.{Bool-cases, Option-cases, inl, inr, refl, suc, sym, ℕ, ◌≡◌, ◌≢◌, ◌≤◌}
use libndt.Session.Steps.{IsOnline}
use libndt.Sys.{Sys}
use libndt.Types.{Socket, protocol_flag_tls}
use mathlib.Core.Path.{subst}

module _ {W : Type 0} (sys : Sys W) where
  close_descriptor-ends : (sock : Socket) (s : Client W) → (close_descriptor sys sock s).0 ≢ stuck
  unfolding close_descriptor errno_result
  close_descriptor-ends sock s = elim (Bool-cases (sys.closesocket sock s.world).0) [
    | inl done ↦ rw done (λ p. cc)
    | inr failed ↦ rw failed (λ p. cc)
  ]

  netx_closesocket-ends : (sock : Socket) (s : Client W) → (netx_closesocket sys sock s).0 ≢ stuck
  unfolding netx_closesocket
  netx_closesocket-ends sock s = elim (Bool-cases (uses protocol_flag_tls s)) [
    | inr no_tls ↦ rw no_tls (close_descriptor-ends sock s)
    | inl tls ↦ elim (Option-cases (find_ssl sock s.fd_to_ssl)) [
      | inl absent ↦ rw (tls, absent) (λ p. cc)
      | inr (ssl, found) ↦ rw (tls, found) (close_descriptor-ends sock _)
    ]
  ]

  -- Over a connection to a responsive peer (`IsPeer`), where fewer calls in a row than the fuel
  -- find the socket not ready, and where drawing random numbers leaves the connection alone: the
  -- client's own netx methods are what the theorems on a session rely on, whatever the settings.
  -- Without TLS in the settings they are a byte stream, waiting on the socket returns and leaves
  -- the client's socket, and closing it returns.
  pub netx-IsOnline :
      (sock : Socket) (link : Link W) (limit : ℕ) (draw : Draw (Client W)) (fuel : ℕ)
      → IsPeer sys sock link limit
      → ((s : Client W) → link_view link (draw s).1 ≡ link_view link s)
      → limit ≤ suc fuel
      → IsOnline (netx sys (suc fuel)) draw sock (link_view link)
  unfolding netx netx_wait_readable
  netx-IsOnline sock link limit draw fuel peer draws patience = record {
    stream = λ settings suite tcp.
        netx-Stream sys sock link limit peer settings sock suite tcp draw (suc fuel) draws patience;
    sees = λ s. refl;
    updates = λ settings suite s. refl;
    waits = λ timeout s own.
        let (w, q, l, e) = wait_ready sys sock link limit peer fuel pollin timeout s in
        subst
          (λ (x : Socket).
            ((netx_wait sys (suc fuel) pollin x timeout s).0 ≢ stuck)
            × ((link_view link (netx_wait sys (suc fuel) pollin x timeout s).1).kept.1 ≡ sock))
          (sym own) (rw e ((λ p. cc), own));
    closes = λ s own. netx_closesocket-ends s.sock s;
  }
