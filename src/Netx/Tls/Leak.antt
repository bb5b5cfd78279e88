-- ===== src/Netx/Tls/Leak.antt =====
-- netx_maybessl_dial (include/libndt/libndt.hpp): an error path that leaves the socket open.
use libndt.Client.{Client, uses}
use libndt.Err.{invalid_argument, ssl_generic}
use libndt.Io.{err, ok}
use libndt.Netx.{find_ssl}
use libndt.Netx.Descriptors.{netx_closesocket}
use libndt.Netx.Dial.{netx}
use libndt.Netx.Tls.{choose_ca_bundle, fail_closed, start_tls}
use libndt.Prelude.{ap, arith, false, length, none, refl, true, ℕ, ◌&&◌, ◌==◌, ◌≡◌}
use libndt.Prelude.Bytes.{Bytes}
use libndt.Sys.{Sys}
use libndt.Types.{Socket, protocol_flag_tls}

module _ {W : Type 0} (sys : Sys W) (fuel : ℕ) where
  netx_closesocket-unknown :
      (sock : Socket) (s : Client W)
      → uses protocol_flag_tls s ≡ true
      → find_ssl sock s.fd_to_ssl ≡ none
      → netx_closesocket sys sock s ≡ (err invalid_argument, s)
  unfolding netx_closesocket
  netx_closesocket-unknown sock s tls unknown = rw (netx_closesocket, tls, unknown) refl

  pub fail_closed-unregistered :
      {A : Type 0} (sock : Socket) (s : Client W)
      → uses protocol_flag_tls s ≡ true
      → find_ssl sock s.fd_to_ssl ≡ none
      → fail_closed sys (netx sys fuel) {A = A} sock s ≡ (err ssl_generic, s)
  unfolding fail_closed netx
  fail_closed-unregistered {A} sock s tls unknown =
      let e = netx_closesocket-unknown sock s tls unknown in
      rw (fail_closed, ap (λ x. x.0) e, ap (λ x. x.1) e) refl

  choose_ca_bundle-trusting :
      (s : Client W)
      → s.settings.tls_verify_peer ≡ false
      → choose_ca_bundle sys (netx sys fuel) s ≡ (ok tt, s)
  unfolding choose_ca_bundle
  choose_ca_bundle-trusting s trust =
      let skipped : (length s.settings.ca_bundle_path == 0 && s.settings.tls_verify_peer) ≡ false =
        ground arith in
      rw skipped refl

  -- With TLS, when SSL_CTX_new fails for a socket that fd_to_ssl_ does not hold, and the peer is
  -- not verified, the dial fails and nothing is called after SSL_CTX_new: the state is the one that
  -- it left, so the socket, which is connected, is not closed.
  pub start_tls-no_ctx :
      (sock : Socket) (hostname : Bytes) (s : Client W)
      → uses protocol_flag_tls s ≡ true
      → find_ssl sock s.fd_to_ssl ≡ none
      → s.settings.tls_verify_peer ≡ false
      → (sys.ssl_ctx_new s.world).0 ≡ false
      → start_tls sys (netx sys fuel) fuel sock hostname s
        ≡ (err ssl_generic, record s { world = (sys.ssl_ctx_new s.world).1 })
  unfolding start_tls
  start_tls-no_ctx sock hostname s tls unknown trust failed =
      let e = choose_ca_bundle-trusting s trust in
      let s' : Client W = record s { world = (sys.ssl_ctx_new s.world).1 } in
      let closed : fail_closed sys (netx sys fuel) sock s' ≡ (err ssl_generic, s') =
        fail_closed-unregistered sock s' tls unknown in
      rw (start_tls, ap (λ x. x.0) e, ap (λ x. x.1) e) (rw failed closed)
