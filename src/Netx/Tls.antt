-- ===== src/Netx/Tls.antt =====
-- include/libndt/libndt.hpp: ssl_retry_unary_op, netx_shutdown_both, netx_maybessl_dial and
-- netx_maybews_dial. The last two leave a value in `*sock` on their error paths too, so the socket
-- comes back beside the result.
pub mod Leak
pub mod Registry
use libndt.Client.{Client, uses}
use libndt.Err.{Err, invalid_argument, ssl_generic, ssl_want_read, ssl_want_write}
use libndt.Io.{Io, Result, err, ok, pure, stuck, unless_stuck, ◌>>=◌, ◌>>◌}
use libndt.Net.{Net}
use libndt.Netx.{
  catch, find_ssl, last_error, last_ssl_error, netx_wait_readable, netx_wait_writeable, on_world,
}
use libndt.Prelude.{
  Option, [], if◌then◌else◌, length, none, not, some, suc, zero, ℕ, ◌&&◌, ◌==◌, ◌∷◌,
}
use libndt.Prelude.Bytes.{Bytes}
use libndt.Prelude.Text.{codes}
use libndt.Socks.{netx_maybesocks5h_dial}
use libndt.Sys.{Sys}
use libndt.Types.{Socket, clear, invalid, protocol_flag_tls, protocol_flag_websocket}
use libndt.Ws.Handshake.{ws_handshake}

abbrev pub Dialed : Type 0 → Type 0
Dialed W = (Result Err Unit × Socket) × Client W

module _ {W : Type 0} where
  abbrev pub set_protocol_flags : ℕ → Client W → Client W
  set_protocol_flags flags s = record s { settings = record s.settings { protocol_flags = flags } }

  abbrev pub set_ca_bundle_path : Bytes → Client W → Client W
  set_ca_bundle_path path s = record s { settings = record s.settings { ca_bundle_path = path } }

module _ {W : Type 0} (sys : Sys W) (net : Net (Client W)) where
  -- What follows the operation; `again` is the `goto again`.
  pub retry_unary : ℕ → Socket → Io (Client W) Err Unit → Option Err → Io (Client W) Err Unit
  retry_unary fuel sock again none s = (ok tt, s)
  retry_unary fuel sock again (some ssl_want_read) s =
      (do netx_wait_readable sys fuel sock s.settings.timeout; again) s
  retry_unary fuel sock again (some ssl_want_write) s =
      (do netx_wait_writeable sys fuel sock s.settings.timeout; again) s
  retry_unary fuel sock again (some e) s = (err e, s)

  -- `fuel` bounds the retries of the operation.
  pub ssl_retry_unary_op : ℕ → (ℕ → W → W) → ℕ → Socket → Io (Client W) Err Unit
  unfolding retry_unary
  ssl_retry_unary_op zero op ssl sock s = (stuck, s)
  ssl_retry_unary_op (suc fuel) op ssl sock s =
      let again = ssl_retry_unary_op fuel op ssl sock in
      let s1 = record s { world = op ssl s.world } in
      retry_unary fuel sock again (last_ssl_error sys ssl s1) s1

  shutdown_descriptor : Socket → Io (Client W) Err Unit
  shutdown_descriptor sock = do
    done ← on_world (sys.shutdown sock)
    if done then pure tt else (λ s. (err (last_error sys s), s))

  pub netx_shutdown_both : ℕ → Socket → Io (Client W) Err Unit
  unfolding shutdown_descriptor
  netx_shutdown_both fuel sock s =
      if uses protocol_flag_tls s
      then (elim (find_ssl sock s.fd_to_ssl) [
        | none ↦ (err invalid_argument, s)
        | some ssl ↦
            (do ssl_retry_unary_op fuel sys.ssl_shutdown ssl sock; shutdown_descriptor sock) s
      ])
      else shutdown_descriptor sock s

  -- The first of the two usual places that can be read.
  pub find_ca_bundle : W → Bytes
  find_ca_bundle w =
      if sys.access (codes "/etc/ssl/cert.pem") w
      then codes "/etc/ssl/cert.pem"
      else if sys.access (codes "/etc/ssl/certs/ca-certificates.crt") w
      then codes "/etc/ssl/certs/ca-certificates.crt"
      else []

  pub choose_ca_bundle : Io (Client W) Err Unit
  unfolding find_ca_bundle
  choose_ca_bundle s =
      if length s.settings.ca_bundle_path == 0 && s.settings.tls_verify_peer
      then (let path = find_ca_bundle s.world in
          let s1 = set_ca_bundle_path path s in
          if length path == 0 then (err invalid_argument, s) else (ok tt, s1))
      else (ok tt, s)

  -- The error paths: netx_closesocket(*sock), and its own error is dropped.
  pub fail_closed : {A : Type 0} → Socket → Io (Client W) Err A
  fail_closed sock s = elim (net.closesocket sock s).0 [
    | stuck ↦ (stuck, (net.closesocket sock s).1)
    | _ ↦ (err ssl_generic, (net.closesocket sock s).1)
  ]

  pub load_ca : Socket → Io (Client W) Err Unit
  unfolding fail_closed
  load_ca sock s =
      (if s.settings.tls_verify_peer
          then (do
            loaded ← on_world (sys.ssl_load_ca s.settings.ca_bundle_path)
            if loaded then pure tt else fail_closed sock)
          else pure tt)
        s

  pub register_ssl : Socket → ℕ → Io (Client W) Err Unit
  register_ssl sock ssl s = (ok tt, record s { fd_to_ssl = (sock, ssl) ∷ s.fd_to_ssl })

  pub set_host : Socket → Bytes → ℕ → Io (Client W) Err Unit
  unfolding fail_closed
  set_host sock hostname ssl s =
      (if s.settings.tls_verify_peer
          then (do
            done ← on_world (sys.ssl_set_host ssl hostname)
            if done then pure tt else fail_closed sock)
          else pure tt)
        s

  -- What follows SSL_new.
  pub attach_ssl : ℕ → Socket → Bytes → Option ℕ → Io (Client W) Err Unit
  unfolding register_ssl set_host
  attach_ssl fuel sock hostname none = fail_closed sock
  attach_ssl fuel sock hostname (some ssl) = do
    register_ssl sock ssl
    bio ← on_world sys.bio_new
    if not bio then fail_closed sock else do
      set_host sock hostname ssl
      catch (ssl_retry_unary_op fuel sys.ssl_do_handshake ssl sock) (λ e. fail_closed sock)

  -- The part of netx_maybessl_dial behind the connection.
  pub start_tls : ℕ → Socket → Bytes → Io (Client W) Err Unit
  unfolding choose_ca_bundle load_ca attach_ssl
  start_tls fuel sock hostname = do
    choose_ca_bundle
    ctx ← on_world sys.ssl_ctx_new
    if not ctx
        then fail_closed sock
        else do load_ca sock; found ← on_world sys.ssl_new; attach_ssl fuel sock hostname found

  unfoldable pub netx_maybessl_dial : ℕ → Bytes → Bytes → Client W → Dialed W
  netx_maybessl_dial fuel hostname port s =
      let flags = s.settings.protocol_flags in
      let s0 = set_protocol_flags (clear flags protocol_flag_tls) s in
      let r = netx_maybesocks5h_dial net s.settings.socks5h_port hostname port s0 in
      let s1 = set_protocol_flags flags r.1 in
      elim r.0 [
        | stuck ↦ ((stuck, invalid), s1)
        | err e ↦ ((err e, invalid), s1)
        | ok sock ↦
            if uses protocol_flag_tls s1
            then (((start_tls fuel sock hostname s1).0, sock), (start_tls fuel sock hostname s1).1)
            else ((ok tt, sock), s1)
      ]

  -- The part of netx_maybews_dial behind netx_maybessl_dial.
  pub start_ws : ℕ → Bytes → ℕ → Bytes → Bytes → Socket → Client W → Dialed W
  start_ws fuel port ws_flags ws_protocol url_path sock s =
      let tls = uses protocol_flag_tls s in
      let r =
        ws_handshake net fuel sock tls s.settings.hostname port ws_flags ws_protocol url_path s in
      elim r.0 [
        | ok _ ↦ ((ok tt, sock), r.1)
        | stuck ↦ ((stuck, sock), r.1)
        | err e ↦ (
          (unless_stuck (net.closesocket sock r.1).0 (err e), invalid),
          (net.closesocket sock r.1).1,
        )
      ]

  unfoldable pub netx_maybews_dial : ℕ → Bytes → Bytes → ℕ → Bytes → Bytes → Client W → Dialed W
  netx_maybews_dial fuel hostname port ws_flags ws_protocol url_path s =
      let r = netx_maybessl_dial fuel hostname port s in
      let result : Result Err Unit = r.0.0 in
      elim result [
        | ok _ ↦
            if uses protocol_flag_websocket r.1
            then start_ws fuel port ws_flags ws_protocol url_path r.0.1 r.1
            else ((ok tt, r.0.1), r.1)
        | err e ↦ ((err e, r.0.1), r.1)
        | stuck ↦ ((stuck, r.0.1), r.1)
      ]
