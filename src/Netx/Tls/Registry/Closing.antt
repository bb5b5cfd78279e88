-- ===== src/Netx/Tls/Registry/Closing.antt =====
-- netx_closesocket (include/libndt/libndt.hpp) with TLS: the SSL of the socket.
use libndt.Client.{Client, uses}
use libndt.Netx.{erase_ssl, find_ssl}
use libndt.Netx.Descriptors.{netx_closesocket}
use libndt.Netx.Tls.Registry.{Registry, TracksSsl, close_descriptor-Keeps, registry}
use libndt.Prelude.{
  Bool-cases, List, Option, Option-cases, [], ap, arith, false, inl, inr, none, refl, some, sym,
  true, ℕ, ◌++◌, ◌∙◌, ◌∷◌, ◌≡◌,
}
use libndt.Sys.{Sys}
use libndt.Types.{Socket, fd, invalid, protocol_flag_tls, socket_eq}
use mathlib.Core.Path.{subst}

socket_eq_refl : (sock : Socket) → socket_eq sock sock ≡ true
unfolding socket_eq
socket_eq_refl (fd n) = ground arith
socket_eq_refl invalid = refl

erase-absent :
    (sock : Socket) (m : List (Socket × ℕ)) → find_ssl sock m ≡ none → erase_ssl sock m ≡ m
unfolding find_ssl erase_ssl
erase-absent sock [] absent = refl
erase-absent sock ((k, v) ∷ m) absent = elim (Bool-cases (socket_eq k sock)) [
  | inl same ↦ let e = rw same at absent in cc
  | inr other ↦
      let e = rw other at absent in
      rw other (ap (λ (rest : List (Socket × ℕ)). (k, v) ∷ rest) (erase-absent sock m e))
]

pub find-first :
    (sock : Socket) (ssl : ℕ) (m : List (Socket × ℕ)) → find_ssl sock ((sock, ssl) ∷ m) ≡ some ssl
unfolding find_ssl
find-first sock ssl m = rw (socket_eq_refl sock) refl

pub erase-first :
    (sock : Socket) (ssl : ℕ) (m : List (Socket × ℕ))
    → find_ssl sock m ≡ none
    → erase_ssl sock ((sock, ssl) ∷ m) ≡ m
unfolding erase_ssl
erase-first sock ssl m absent = rw (socket_eq_refl sock) (erase-absent sock m absent)

abbrev pub ssl_values : List (Socket × ℕ) → List ℕ
ssl_values [] = []
ssl_values ((k, v) ∷ m) = v ∷ ssl_values m

-- No socket is a key twice, as in a std::map.
abbrev pub HasDistinctKeys : List (Socket × ℕ) → Type 0
HasDistinctKeys [] = Unit
HasDistinctKeys ((k, v) ∷ m) = (find_ssl k m ≡ none) × HasDistinctKeys m

-- Every SSL that is not freed stands in fd_to_ssl_, once, and there are no others in it.
pub record IsRegistered (r : Registry) : Type 0 where
  pub all_held : r.2 ≡ ssl_values r.1
  pub distinct : HasDistinctKeys r.1

socket_eq→eq : (a b : Socket) → socket_eq a b ≡ true → a ≡ b
unfolding socket_eq
socket_eq→eq (fd a) (fd b) e = ground arith
socket_eq→eq (fd a) invalid e = cc
socket_eq→eq invalid (fd b) e = cc
socket_eq→eq invalid invalid e = refl

abbrev value_of : Option ℕ → ℕ
value_of none = 0
value_of (some v) = v

erase-values :
    (sock : Socket) (v : ℕ) (m : List (Socket × ℕ))
    → HasDistinctKeys m
    → find_ssl sock m ≡ some v
    → (xs : List ℕ) × (ys : List ℕ) × (ssl_values m ≡ xs ++ v ∷ ys)
      × (ssl_values (erase_ssl sock m) ≡ xs ++ ys)
unfolding find_ssl erase_ssl
erase-values sock v [] distinct found = cc
erase-values sock v ((k, u) ∷ m) distinct found = elim (Bool-cases (socket_eq k sock)) [
  | inl same ↦
      let key : k ≡ sock = socket_eq→eq k sock same in
      let value : some u ≡ some v = rw same at found in
      let absent : find_ssl sock m ≡ none =
        ap (λ (x : Socket). find_ssl x m) (sym key) ∙ distinct.0 in
      (
        [],
        ssl_values m,
        ap (λ (o : Option ℕ). value_of o ∷ ssl_values m) value,
        rw same (ap ssl_values (erase-absent sock m absent)),
      )
  | inr other ↦
      let found' = rw other at found in
      let (xs, ys, e, e') = erase-values sock v m distinct.1 found' in
      (u ∷ xs, ys, ap (λ (l : List ℕ). u ∷ l) e, rw other (ap (λ (l : List ℕ). u ∷ l) e'))
]

-- What is erased is found no more, and nothing else comes in.
find-erase : (sock : Socket) (m : List (Socket × ℕ)) → find_ssl sock (erase_ssl sock m) ≡ none
unfolding find_ssl erase_ssl
find-erase sock [] = refl
find-erase sock ((k, v) ∷ m) = elim (Bool-cases (socket_eq k sock)) [
  | inl same ↦ rw same (find-erase sock m)
  | inr other ↦ rw (other, find_ssl, other) (find-erase sock m)
]

find-erase_none :
    (k sock : Socket) (m : List (Socket × ℕ))
    → find_ssl k m ≡ none
    → find_ssl k (erase_ssl sock m) ≡ none
unfolding find_ssl erase_ssl
find-erase_none k sock [] absent = refl
find-erase_none k sock ((j, v) ∷ m) absent = elim (Bool-cases (socket_eq j k)) [
  | inl same ↦ let e = rw same at absent in cc
  | inr apart ↦
      let rest = find-erase_none k sock m (rw apart at absent) in
      elim (Bool-cases (socket_eq j sock)) [
        | inl gone ↦ rw gone rest
        | inr stays ↦ rw (stays, find_ssl, apart) rest
      ]
]

-- The other sockets are found as before.
find-erase_other :
    (k sock : Socket) (m : List (Socket × ℕ))
    → socket_eq k sock ≡ false
    → find_ssl k (erase_ssl sock m) ≡ find_ssl k m
unfolding find_ssl erase_ssl
find-erase_other k sock [] apart = refl
find-erase_other k sock ((j, v) ∷ m) apart = elim (Bool-cases (socket_eq j sock)) [
  | inl gone ↦
      let key : j ≡ sock = socket_eq→eq j sock gone in
      elim (Bool-cases (socket_eq j k)) [
        | inl same ↦
            let own : j ≡ k = socket_eq→eq j k same in
            let clash : socket_eq k sock ≡ true =
              ap (λ (x : Socket). socket_eq x sock) (sym own) ∙ gone in
            absurd (cc)
        | inr other ↦ rw (gone, other) (find-erase_other k sock m apart)
      ]
  | inr stays ↦ elim (Bool-cases (socket_eq j k)) [
    | inl same ↦ rw (stays, find_ssl, same) refl
    | inr other ↦ rw (stays, find_ssl, other) (find-erase_other k sock m apart)
  ]
]

-- The SSLs that are not freed, before and after: one of them is freed, or none.
abbrev pub FreedOne : Option ℕ → List ℕ → List ℕ → Type 0
FreedOne none before after = after ≡ before
FreedOne (some ssl) before after =
    (xs : List ℕ) × (ys : List ℕ) × (before ≡ xs ++ ssl ∷ ys) × (after ≡ xs ++ ys)

erase-HasDistinctKeys :
    (sock : Socket) (m : List (Socket × ℕ)) → HasDistinctKeys m → HasDistinctKeys (erase_ssl sock m)
unfolding erase_ssl
erase-HasDistinctKeys sock [] distinct = distinct
erase-HasDistinctKeys sock ((k, v) ∷ m) distinct = elim (Bool-cases (socket_eq k sock)) [
  | inl same ↦ rw same (erase-HasDistinctKeys sock m distinct.1)
  | inr other ↦
      rw other (find-erase_none k sock m distinct.0, erase-HasDistinctKeys sock m distinct.1)
]

module _ {W : Type 0} (sys : Sys W) (live : W → List ℕ) (tracks : TracksSsl sys live) where
  -- With TLS: where every SSL that is not freed stands in fd_to_ssl_, under one socket, this is so
  -- behind netx_closesocket too, whatever the system answers. The SSL of the socket, if there is
  -- one, is freed, and every other SSL is as before (`FreedOne`); fd_to_ssl_ does not hold the
  -- socket any more, and holds every other socket with its SSL as before.
  pub netx_closesocket-IsRegistered :
      (sock : Socket) (s : Client W)
      → uses protocol_flag_tls s ≡ true
      → IsRegistered (registry live s)
      → IsRegistered (registry live (netx_closesocket sys sock s).1)
        × FreedOne
            (find_ssl sock s.fd_to_ssl)
            (live s.world)
            (live (netx_closesocket sys sock s).1.world)
        × (find_ssl sock (netx_closesocket sys sock s).1.fd_to_ssl ≡ none)
        × ((k : Socket)
            → socket_eq k sock ≡ false
            → find_ssl k (netx_closesocket sys sock s).1.fd_to_ssl ≡ find_ssl k s.fd_to_ssl)
  unfolding netx_closesocket
  netx_closesocket-IsRegistered sock s tls h = elim (Option-cases (find_ssl sock s.fd_to_ssl)) [
    | inl absent ↦ rw (tls, absent) (h, refl, absent, (λ k apart. refl))
    | inr (ssl, found) ↦
        let s1 : Client W = record s {
          fd_to_ssl = erase_ssl sock s.fd_to_ssl;
          world = sys.ssl_free ssl s.world;
        } in
        let (xs, ys, before, after) = erase-values sock ssl s.fd_to_ssl h.distinct found in
        let freed = tracks.freed ssl s.world xs ys (h.all_held ∙ before) in
        let same = (close_descriptor-Keeps sys live tracks sock).at s1 in
        let left : IsRegistered (registry live s1) = record {
          all_held = freed ∙ sym after;
          distinct = erase-HasDistinctKeys sock s.fd_to_ssl h.distinct;
        } in
        rw (tls, found)
          (
            subst IsRegistered (sym same) left,
            (xs, ys, h.all_held ∙ before, ap (λ (r : Registry). r.2) same ∙ freed),
            ap (λ (r : Registry). find_ssl sock r.1) same ∙ find-erase sock s.fd_to_ssl,
            (λ k apart.
                ap (λ (r : Registry). find_ssl k r.1) same
                ∙ find-erase_other k sock s.fd_to_ssl apart),
          )
  ]
