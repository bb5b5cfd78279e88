-- ===== src/Netx/Tls/Registry/Dialing.antt =====
-- netx_maybessl_dial (include/libndt/libndt.hpp) behind the connection: the SSL that is made.
use libndt.Client.{Client, uses}
use libndt.Err.{Err}
use libndt.Io.{Io, Result, err, ok, stuck}
use libndt.Io.Ensures.{After, Holds, Holds-Keeps, Holds-bind, Holds-if, Holds-pure, Holds-then}
use libndt.Net.Reads.{Result-cases}
use libndt.Netx.{catch, erase_ssl, find_ssl, handle, on_world}
use libndt.Netx.Descriptors.{netx_closesocket}
use libndt.Netx.Dial.{netx}
use libndt.Netx.Tls.{
  attach_ssl, fail_closed, load_ca, register_ssl, set_host, ssl_retry_unary_op, start_tls,
}
use libndt.Netx.Tls.Leak.{fail_closed-unregistered}
use libndt.Netx.Tls.Registry.{
  Registry, TracksSsl, choose_ca_bundle-Keeps, close_descriptor-Keeps, handshake-Keeps,
  on_world-Holds, registry, same_world,
}
use libndt.Netx.Tls.Registry.Closing.{erase-first, find-first}
use libndt.Prelude.{
  Bool, List, Option, Option-cases, [], ap, inl, inr, none, not, some, true, ℕ, ◌∙◌, ◌∷◌, ◌≡◌,
}
use libndt.Prelude.Bytes.{Bytes}
use libndt.Sys.{Sys}
use libndt.Types.{Socket, protocol_flag_tls}
use mathlib.Core.Path.{ap₂}

-- The socket is new: fd_to_ssl_, which is `m`, does not hold it, and `l` are the SSLs.
module _ {W : Type 0} (sys : Sys W) (live : W → List ℕ) (tracks : TracksSsl sys live) (fuel : ℕ)
    (sock : Socket) (m : List (Socket × ℕ)) (l : List ℕ) (absent : find_ssl sock m ≡ none) where
  abbrev Without : Client W → Type 0
  Without s = registry live s ≡ (true, m, l)

  abbrev With : ℕ → Client W → Type 0
  With ssl s = registry live s ≡ (true, (sock, ssl) ∷ m, ssl ∷ l)

  closed-Without :
      {A : Type 0} (Q : A → Client W → Type 0)
      → Holds Without (fail_closed sys (netx sys fuel) {A = A} sock) Q Without
  closed-Without Q = record {
    at = λ s p.
        let tls : uses protocol_flag_tls s ≡ true = ap (λ (r : Registry). r.0) p in
        let unknown : find_ssl sock s.fd_to_ssl ≡ none =
          ap (λ (r : Registry). find_ssl sock r.1) p ∙ absent in
        rw (fail_closed-unregistered sys fuel sock s tls unknown) p;
  }

  -- The SSL of a socket is freed, and forgotten.
  close_registered : (ssl : ℕ) (s : Client W) → With ssl s → Without (netx_closesocket sys sock s).1
  unfolding netx_closesocket
  close_registered ssl s p =
      let tls : uses protocol_flag_tls s ≡ true = ap (λ (r : Registry). r.0) p in
      let held : s.fd_to_ssl ≡ (sock, ssl) ∷ m = ap (λ (r : Registry). r.1) p in
      let found : find_ssl sock s.fd_to_ssl ≡ some ssl =
        ap (find_ssl sock) held ∙ find-first sock ssl m in
      let left : erase_ssl sock s.fd_to_ssl ≡ m =
        ap (erase_ssl sock) held ∙ erase-first sock ssl m absent in
      let s1 : Client W = record s {
        fd_to_ssl = erase_ssl sock s.fd_to_ssl;
        world = sys.ssl_free ssl s.world;
      } in
      let free : live (sys.ssl_free ssl s.world) ≡ l =
        tracks.freed ssl s.world [] l (ap (λ (r : Registry). r.2) p) in
      let seen : registry live s1 ≡ (true, m, l) =
        ap₂ (λ (b : Bool) (r : List (Socket × ℕ) × List ℕ). (b, r.0, r.1)) tls
          (ap₂ (λ (x : List (Socket × ℕ)) (y : List ℕ). (x, y)) left free) in
      rw (tls, found) ((close_descriptor-Keeps sys live tracks sock).at s1 ∙ seen)

  closed-With :
      {A : Type 0} (Q : A → Client W → Type 0) (ssl : ℕ)
      → Holds (With ssl) (fail_closed sys (netx sys fuel) {A = A} sock) Q Without
  unfolding fail_closed netx
  closed-With Q ssl = record {
    at = λ s p. elim (Result-cases (netx_closesocket sys sock s).0) [
      | inl (u, e) ↦ rw (fail_closed, netx, e) (close_registered ssl s p)
      | inr (inl (x, e)) ↦ rw (fail_closed, netx, e) (close_registered ssl s p)
      | inr (inr e) ↦ rw (fail_closed, netx, e) tt
    ];
  }

  load_ca-Without : Holds Without (load_ca sys (netx sys fuel) sock) (λ u. Without) Without
  unfolding load_ca
  load_ca-Without = record {
    at = λ s p.
        (Holds-if s.settings.tls_verify_peer
            (Holds-bind _ (λ b. Without)
              (on_world-Holds sys live tracks (sys.ssl_load_ca s.settings.ca_bundle_path) _ _
                (tracks.ca_loaded _))
              (λ loaded.
                Holds-if loaded (Holds-pure (λ u. Without) Without tt (λ x q. q))
                  (closed-Without (λ u. Without))))
            (Holds-pure (λ u. Without) Without tt (λ x q. q))).at
          s p;
  }

  set_host-With :
      (hostname : Bytes) (ssl : ℕ)
      → Holds (With ssl) (set_host sys (netx sys fuel) sock hostname ssl) (λ u. With ssl) Without
  unfolding set_host
  set_host-With hostname ssl = record {
    at = λ s p.
        (Holds-if s.settings.tls_verify_peer
            (Holds-bind _ (λ b. With ssl)
              (on_world-Holds sys live tracks (sys.ssl_set_host ssl hostname) _ _
                (tracks.host_set ssl hostname))
              (λ done.
                Holds-if done (Holds-pure (λ u. With ssl) Without tt (λ x q. q))
                  (closed-With (λ u. With ssl) ssl)))
            (Holds-pure (λ u. With ssl) Without tt (λ x q. q))).at
          s p;
  }

  registered :
      (ssl : ℕ)
      → Holds
          (λ s. registry live s ≡ (true, m, ssl ∷ l))
          (register_ssl sys (netx sys fuel) sock ssl)
          (λ u. With ssl)
          Without
  unfolding register_ssl
  registered ssl = record { at = λ s p. ap (λ (r : Registry). (r.0, (sock, ssl) ∷ r.1, r.2)) p }

  caught :
      (ssl : ℕ) (r : Result Err Unit) (s : Client W)
      → With ssl s
      → After
          (λ u. With ssl)
          Without
          (handle (λ e. fail_closed sys (netx sys fuel) sock) r s).0
          (handle (λ e. fail_closed sys (netx sys fuel) sock) r s).1
  caught ssl (ok u) s p = p
  caught ssl (err e) s p = (closed-With (λ u. With ssl) ssl).at s p
  caught ssl stuck s p = tt

  finished :
      (ssl : ℕ)
      → Holds
          (With ssl)
          (catch
            (ssl_retry_unary_op sys (netx sys fuel) fuel sys.ssl_do_handshake ssl sock)
            (λ e. fail_closed sys (netx sys fuel) sock))
          (λ u. With ssl)
          Without
  finished ssl = record {
    at = λ s p.
        caught ssl (ssl_retry_unary_op sys (netx sys fuel) fuel sys.ssl_do_handshake ssl sock s).0
          (ssl_retry_unary_op sys (netx sys fuel) fuel sys.ssl_do_handshake ssl sock s).1
          ((handshake-Keeps sys live tracks (netx sys fuel) fuel ssl sock).at s ∙ p);
  }

  abbrev Made : Option ℕ → Client W → Type 0
  Made none s = Without s
  Made (some ssl) s = registry live s ≡ (true, m, ssl ∷ l)

  created : Holds {E = Err} Without (on_world sys.ssl_new) Made Without
  created = record {
    at = λ s p. elim (Option-cases (sys.ssl_new s.world).0) [
      | inl e ↦
          rw e
            (same_world sys live tracks s (sys.ssl_new s.world).1 (tracks.not_made s.world e) ∙ p)
      | inr (ssl, e) ↦
          let add : live (sys.ssl_new s.world).1 ≡ ssl ∷ live s.world = tracks.made s.world ssl e in
          rw e (
            ap (λ (x : List ℕ). (uses protocol_flag_tls s, s.fd_to_ssl, x)) add
            ∙ ap (λ (r : Registry). (r.0, r.1, ssl ∷ r.2)) p)
    ];
  }

  weakened :
      (ssl : ℕ) {n : Io (Client W) Err Unit}
      → Holds (With ssl) n (λ u. With ssl) Without
      → Holds (With ssl) n (λ u s. (id : ℕ) × With id s) Without
  weakened ssl h = record { at = λ s p. weaker ssl _ _ (h.at s p) }
    where
      weaker :
          (ssl : ℕ) (r : Result Err Unit) (s : Client W)
          → After (λ u. With ssl) Without r s
          → After (λ u s. (id : ℕ) × With id s) Without r s
      weaker ssl (ok u) s p = (ssl, p)
      weaker ssl (err e) s p = p
      weaker ssl stuck s p = tt

  attached :
      (hostname : Bytes) (found : Option ℕ)
      → Holds
          (Made found)
          (attach_ssl sys (netx sys fuel) fuel sock hostname found)
          (λ u s. (ssl : ℕ) × With ssl s)
          Without
  unfolding attach_ssl
  attached hostname none = closed-Without _
  attached hostname (some ssl) = Holds-then (With ssl) (registered ssl) (
      Holds-bind _ (λ bio. With ssl)
        (on_world-Holds sys live tracks sys.bio_new _ _ tracks.bio_made)
        (λ bio.
          Holds-if (not bio) (closed-With _ ssl)
            (Holds-then (With ssl) (set_host-With hostname ssl) (weakened ssl (finished ssl)))))

  -- With TLS, for a new socket that fd_to_ssl_ does not hold, whatever OpenSSL, the disk and the
  -- peer answer: if the dial succeeds, exactly one SSL was made and is not freed, and fd_to_ssl_
  -- has it under the socket, in front of what it had; if the dial fails, on whichever path, the
  -- SSL that was made, if any, is freed, and fd_to_ssl_ is what it was. No other SSL is freed.
  pub start_tls-registered :
      (hostname : Bytes)
      → Holds Without
          (start_tls sys (netx sys fuel) fuel sock hostname)
          (λ u s. (ssl : ℕ) × With ssl s)
          Without
  unfolding start_tls
  start_tls-registered hostname =
      Holds-then Without (Holds-Keeps _ (choose_ca_bundle-Keeps sys live tracks (netx sys fuel))) (
        Holds-bind _ (λ ctx. Without)
          (on_world-Holds sys live tracks sys.ssl_ctx_new _ _ tracks.ctx_made)
          (λ ctx.
            Holds-if (not ctx) (closed-Without _)
              (Holds-then Without load_ca-Without (Holds-bind _ Made created (attached hostname)))))
