-- ===== src/Netx/Tls/Registry.antt =====
-- fd_to_ssl_ (include/libndt/libndt.hpp) and the SSLs that OpenSSL holds: what the calls of the
-- system do to them, and what leaves them alone.
pub mod Dialing
pub mod Closing
use libndt.Client.{Client, uses}
use libndt.Err.{Err, interrupted, ssl_want_read, ssl_want_write, value_too_large}
use libndt.Io.{Io, pure}
use libndt.Io.Ensures.{Holds, Keeps, Keeps-bind, Keeps-if, Keeps-pure, Keeps-raise, Keeps-then}
use libndt.Net.{Net}
use libndt.Netx.{
  errno_result, last_error, last_ssl_error, netx_poll, netx_wait, netx_wait_readable,
  netx_wait_writeable, on_world, poll_failed, poll_loop, poll_once, pollin, pollout,
}
use libndt.Netx.Descriptors.{close_descriptor}
use libndt.Netx.Tls.{choose_ca_bundle, find_ca_bundle, retry_unary, ssl_retry_unary_op}
use libndt.Prelude.{
  Bool, Bool-cases, List, Option, Option-cases, ap, if◌then◌else◌, inl, inr, length, ltb, none,
  refl, some, suc, zero, ℕ, ◌&&◌, ◌++◌, ◌==◌, ◌∙◌, ◌∷◌, ◌≡◌,
}
use libndt.Prelude.Bytes.{Bytes}
use libndt.Sys.{PollFd, Sys}
use libndt.Transfer.Flows.Counts.{live}
use libndt.Types.{Socket, protocol_flag_tls}

-- What the calls do to the SSLs that are not yet freed: `live` lists them, the latest first.
pub record TracksSsl {W : Type 0} (sys : Sys W) (live : W → List ℕ) : Type 0 where
  pub made :
      (w : W) (ssl : ℕ) → (sys.ssl_new w).0 ≡ some ssl → live (sys.ssl_new w).1 ≡ ssl ∷ live w
  pub not_made : (w : W) → (sys.ssl_new w).0 ≡ none → live (sys.ssl_new w).1 ≡ live w
  pub freed :
      (ssl : ℕ) (w : W) (xs ys : List ℕ)
      → live w ≡ xs ++ ssl ∷ ys
      → live (sys.ssl_free ssl w) ≡ xs ++ ys
  pub ctx_made : (w : W) → live (sys.ssl_ctx_new w).1 ≡ live w
  pub ca_loaded : (path : Bytes) (w : W) → live (sys.ssl_load_ca path w).1 ≡ live w
  pub bio_made : (w : W) → live (sys.bio_new w).1 ≡ live w
  pub host_set : (ssl : ℕ) (host : Bytes) (w : W) → live (sys.ssl_set_host ssl host w).1 ≡ live w
  pub handshake : (ssl : ℕ) (w : W) → live (sys.ssl_do_handshake ssl w) ≡ live w
  pub closesocket : (sock : Socket) (w : W) → live (sys.closesocket sock w).1 ≡ live w
  pub poll : (pfds : List PollFd) (msec : ℕ) (w : W) → live (sys.poll pfds msec w).1 ≡ live w

-- The TLS flag, fd_to_ssl_, and the SSLs.
abbrev pub Registry : Type 0
Registry = Bool × List (Socket × ℕ) × List ℕ

abbrev pub registry : {W : Type 0} → (W → List ℕ) → Client W → Registry
registry live s = (uses protocol_flag_tls s, s.fd_to_ssl, live s.world)

module _ {W : Type 0} (sys : Sys W) (live : W → List ℕ) (tracks : TracksSsl sys live) where
  pub same_world :
      (s : Client W) (w : W)
      → live w ≡ live s.world
      → registry live (record s { world = w }) ≡ registry live s
  same_world s w e = ap (λ (l : List ℕ). (uses protocol_flag_tls s, s.fd_to_ssl, l)) e

  pub on_world-Keeps :
      {A : Type 0} (f : W → A × W)
      → ((w : W) → live (f w).1 ≡ live w)
      → Keeps {E = Err} (registry live) (on_world f)
  on_world-Keeps f h = record { at = λ s. same_world s (f s.world).1 (h s.world) }

  -- A call of the system does not fail, so the failure may be said to leave anything.
  pub on_world-Holds :
      {A : Type 0} (f : W → A × W) (v : Registry) (R : Client W → Type 0)
      → ((w : W) → live (f w).1 ≡ live w)
      → Holds {E = Err} (λ s. registry live s ≡ v) (on_world f) (λ a s. registry live s ≡ v) R
  on_world-Holds f v R h = record { at = λ s p. same_world s (f s.world).1 (h s.world) ∙ p }

  pub close_descriptor-Keeps : (sock : Socket) → Keeps (registry live) (close_descriptor sys sock)
  unfolding close_descriptor errno_result
  close_descriptor-Keeps sock =
      let failed : Keeps (registry live) (errno_result sys {A = Unit {0}}) = record {
        at = λ s. refl;
      } in
      Keeps-bind (λ done. if done then pure tt else errno_result sys)
        (on_world-Keeps (sys.closesocket sock) (tracks.closesocket sock))
        (λ done. Keeps-if done (Keeps-pure tt) failed)

  poll_failed-Keeps :
      (again : Io (Client W) Err Unit) (e : Err)
      → Keeps (registry live) again
      → Keeps (registry live) (poll_failed sys again e)
  unfolding poll_failed
  poll_failed-Keeps again interrupted k = k
  poll_failed-Keeps again _ k = record { at = λ s. refl }

  poll_once-Keeps :
      (again : Io (Client W) Err Unit) (pfds : List PollFd) (msec : ℕ)
      → Keeps (registry live) again
      → Keeps (registry live) (poll_once sys again pfds msec)
  unfolding poll_once
  poll_once-Keeps again pfds msec k = record {
    at = λ s.
        let w = (sys.poll pfds msec s.world).1 in
        let s' : Client W = record s { world = w } in
        let same = same_world s w (tracks.poll pfds msec s.world) in
        elim (Option-cases (sys.poll pfds msec s.world).0.0) [
          | inl failed ↦
              rw (failed, poll_once) ((poll_failed-Keeps again (last_error sys s') k).at s' ∙ same)
          | inr (n, e) ↦ elim (Bool-cases (n == 0)) [
            | inl late ↦ rw (e, poll_once, late) same
            | inr some_ready ↦ rw (e, poll_once, some_ready) same
          ]
        ];
  }

  poll_loop-Keeps :
      (fuel : ℕ) (pfds : List PollFd) (msec : ℕ)
      → Keeps (registry live) (poll_loop sys fuel pfds msec)
  unfolding poll_loop
  poll_loop-Keeps zero pfds msec = record { at = λ s. refl }
  poll_loop-Keeps (suc fuel) pfds msec =
      Keeps-if (ltb 255 (length pfds)) (Keeps-raise value_too_large)
        (poll_once-Keeps (poll_loop sys fuel pfds msec) pfds msec (poll_loop-Keeps fuel pfds msec))

  wait-Keeps :
      (fuel events : ℕ) (sock : Socket) (timeout : ℕ)
      → Keeps (registry live) (netx_wait sys fuel events sock timeout)
  unfolding netx_wait netx_poll
  wait-Keeps fuel events sock timeout = poll_loop-Keeps fuel _ _

  retry_unary-Keeps :
      (net : Net (Client W)) (fuel : ℕ) (sock : Socket) (again : Io (Client W) Err Unit)
      (e : Option Err)
      → Keeps (registry live) again
      → Keeps (registry live) (retry_unary sys net fuel sock again e)
  unfolding retry_unary netx_wait_readable netx_wait_writeable
  retry_unary-Keeps net fuel sock again none k = record { at = λ s. refl }
  retry_unary-Keeps net fuel sock again (some ssl_want_read) k = record {
    at = λ s. (Keeps-then (wait-Keeps fuel pollin sock s.settings.timeout) k).at s;
  }
  retry_unary-Keeps net fuel sock again (some ssl_want_write) k = record {
    at = λ s. (Keeps-then (wait-Keeps fuel pollout sock s.settings.timeout) k).at s;
  }
  retry_unary-Keeps net fuel sock again (some _) k = record { at = λ s. refl }

  pub handshake-Keeps :
      (net : Net (Client W)) (fuel ssl : ℕ) (sock : Socket)
      → Keeps (registry live) (ssl_retry_unary_op sys net fuel sys.ssl_do_handshake ssl sock)
  unfolding ssl_retry_unary_op
  handshake-Keeps net zero ssl sock = record { at = λ s. refl }
  handshake-Keeps net (suc fuel) ssl sock = record {
    at = λ s.
        let s1 : Client W = record s { world = sys.ssl_do_handshake ssl s.world } in
        (retry_unary-Keeps net fuel sock _ (last_ssl_error sys ssl s1)
            (handshake-Keeps net fuel ssl sock)).at
          s1
        ∙ same_world s (sys.ssl_do_handshake ssl s.world) (tracks.handshake ssl s.world);
  }

  pub choose_ca_bundle-Keeps :
      (net : Net (Client W)) → Keeps (registry live) (choose_ca_bundle sys net)
  unfolding choose_ca_bundle
  choose_ca_bundle-Keeps net = record {
    at = λ s.
        elim (Bool-cases (length s.settings.ca_bundle_path == 0 && s.settings.tls_verify_peer)) [
          | inl e ↦ elim (Bool-cases (length (find_ca_bundle sys net s.world) == 0)) [
            | inl f ↦ rw (e, choose_ca_bundle, f) refl
            | inr f ↦ rw (e, choose_ca_bundle, f) refl
          ]
          | inr e ↦ rw (e, choose_ca_bundle) refl
        ];
  }
