-- ===== src/Runs/Tls.antt =====
-- An OpenSSL that has room for one SSL, and a peer that ends each handshake at once.
use libndt.Client.{Client, no_summary, uses}
use libndt.Io.Ensures.{Holds}
use libndt.Netx.{find_ssl}
use libndt.Netx.Descriptors.{netx_closesocket}
use libndt.Netx.Dial.{netx}
use libndt.Netx.Tls.{start_tls}
use libndt.Netx.Tls.Registry.{TracksSsl, registry}
use libndt.Netx.Tls.Registry.Closing.{FreedOne, IsRegistered, netx_closesocket-IsRegistered}
use libndt.Netx.Tls.Registry.Dialing.{start_tls-registered}
use libndt.Prelude.{
  Bool, List, Option, [], ap, arith, drop, false, inr, length, length-append, none, refl, some,
  true, ℕ, ◌++◌, ◌∷◌, ◌≡◌,
}
use libndt.Prelude.Text.{codes}
use libndt.Runs.Wire.{plain}
use libndt.Sys.{Sys, no_error, ssl_error_none}
use libndt.Types.{Socket, fd, has, protocol_flag_tls, socket_eq}

record Slot : Type 0 where
  taken : Bool

abbrev slot_ssls : Bool → List ℕ
slot_ssls false = []
slot_ssls true = 1 ∷ []

abbrev slot_live : Slot → List ℕ
slot_live w = slot_ssls w.taken

abbrev slot_new : Bool → Option ℕ × Slot
slot_new false = (some 1, record { taken = true })
slot_new true = (none, record { taken = true })

abbrev slot_sys : Sys Slot
slot_sys = record {
  get_last_error = λ w. no_error;
  set_last_error = λ e w. w;
  recv = λ sock n w. (some [], w);
  send = λ sock bytes w. (some (length bytes), w);
  poll = λ pfds timeout w. ((some 1, pfds), w);
  closesocket = λ sock w. (true, w);
  shutdown = λ sock w. (true, w);
  get_flags = λ sock w. (some 0, w);
  set_flags = λ sock flags w. (true, w);
  getaddrinfo = λ numeric host port w. (inr [], w);
  getnameinfo = λ a w. (none, w);
  new_socket = λ a w. (fd 3, w);
  connect = λ sock a w. (true, w);
  so_error = λ sock w. (none, w);
  ssl_read = λ ssl n w. (some [], w);
  ssl_write = λ ssl bytes w. (some (length bytes), w);
  ssl_get_error = λ ssl w. ssl_error_none;
  ssl_free = λ ssl w. record { taken = false };
  ssl_shutdown = λ ssl w. w;
  ssl_do_handshake = λ ssl w. w;
  access = λ path w. true;
  ssl_ctx_new = λ w. (true, w);
  ssl_load_ca = λ path w. (true, w);
  ssl_new = λ w. slot_new w.taken;
  bio_new = λ w. (true, w);
  ssl_set_host = λ ssl host w. (true, w);
}

slot_made :
    (b : Bool) (ssl : ℕ) → (slot_new b).0 ≡ some ssl → slot_live (slot_new b).1 ≡ ssl ∷ slot_ssls b
slot_made false ssl e = ap (λ (o : Option ℕ). elim o [ none ↦ [] | some k ↦ k ∷ [] ]) e
slot_made true ssl e = cc

slot_not_made : (b : Bool) → (slot_new b).0 ≡ none → slot_live (slot_new b).1 ≡ slot_ssls b
slot_not_made false e = cc
slot_not_made true e = refl

-- Of one SSL, nothing stands beside the one that is freed.
slot_freed : (b : Bool) (ssl : ℕ) (xs ys : List ℕ) → slot_ssls b ≡ xs ++ ssl ∷ ys → [] ≡ xs ++ ys
slot_freed false ssl [] ys e = cc
slot_freed false ssl (x ∷ xs) ys e = cc
slot_freed true ssl [] ys e = ap (drop 1) e
slot_freed true ssl (x ∷ xs) ys e = absurd (omega (arith, ap length e, length-append xs (ssl ∷ ys)))

slot-TracksSsl : TracksSsl slot_sys slot_live
slot-TracksSsl = record {
  made = λ w ssl e. slot_made w.taken ssl e;
  not_made = λ w e. slot_not_made w.taken e;
  freed = λ ssl w xs ys e. slot_freed w.taken ssl xs ys e;
  ctx_made = λ w. refl;
  ca_loaded = λ path w. refl;
  bio_made = λ w. refl;
  host_set = λ ssl host w. refl;
  handshake = λ ssl w. refl;
  closesocket = λ sock w. refl;
  poll = λ pfds msec w. refl;
}

start_tls-registered_example :
    Holds
      (λ s. registry slot_live s ≡ (true, [], []))
      (start_tls slot_sys (netx slot_sys 5) 5 (fd 3) (codes "h"))
      (λ u s. (ssl : ℕ) × (registry slot_live s ≡ (true, (fd 3, ssl) ∷ [], ssl ∷ [])))
      (λ s. registry slot_live s ≡ (true, [], []))
unfolding find_ssl
start_tls-registered_example =
    start_tls-registered slot_sys slot_live slot-TracksSsl 5 (fd 3) [] [] refl (codes "h")

abbrev tls_client : Client Slot
tls_client = record {
  settings = record plain { protocol_flags = protocol_flag_tls };
  sock = fd 3;
  granted_suite = [];
  fd_to_ssl = (fd 3, 1) ∷ [];
  busy = [];
  summary = no_summary;
  web100 = [];
  reports = [];
  world = record { taken = true };
}

tls_client-tls : uses protocol_flag_tls tls_client ≡ true
unfolding has
tls_client-tls = refl

tls_client-IsRegistered : IsRegistered (registry slot_live tls_client)
unfolding find_ssl
tls_client-IsRegistered = record { all_held = refl; distinct = (refl, tt) }

netx_closesocket-IsRegistered_example :
    IsRegistered (registry slot_live (netx_closesocket slot_sys (fd 3) tls_client).1)
    × FreedOne
        (find_ssl (fd 3) tls_client.fd_to_ssl)
        (slot_live tls_client.world)
        (slot_live (netx_closesocket slot_sys (fd 3) tls_client).1.world)
    × (find_ssl (fd 3) (netx_closesocket slot_sys (fd 3) tls_client).1.fd_to_ssl ≡ none)
    × ((k : Socket)
        → socket_eq k (fd 3) ≡ false
        → find_ssl k (netx_closesocket slot_sys (fd 3) tls_client).1.fd_to_ssl
          ≡ find_ssl k tls_client.fd_to_ssl)
netx_closesocket-IsRegistered_example =
    netx_closesocket-IsRegistered slot_sys slot_live slot-TracksSsl (fd 3) tls_client tls_client-tls
      tls_client-IsRegistered
