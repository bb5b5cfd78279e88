-- ===== src/Socks/Negotiate.antt =====
-- netx_maybesocks5h_dial (include/libndt/libndt.hpp): what the client and the proxy say.
use libndt.Err.{io_error}
use libndt.Io.{err, ok}
use libndt.Io.Gives.{Gives, Gives-bind, Gives-bind_err, Gives-lift_eq, Gives-pure}
use libndt.Net.{Draw, Net}
use libndt.Net.Stream.{Stream, View, recvn-append}
use libndt.Prelude.{
  [], arith, false, length, length-append, ltb, refl, ℕ, ◌%◌, ◌++◌, ◌/◌, ◌<◌, ◌==◌, ◌^◌, ◌∷◌, ◌≡◌,
}
use libndt.Prelude.Bytes.{Bytes}
use libndt.Socks.{
  AddressType, check_auth, check_connect, connect_request, domain, ipv4, ipv6, recv_address,
  socks5h_negotiate,
}
use libndt.Strtonum.{strtonum}
use libndt.Types.{Socket}

-- The address that the proxy is bound to.
pub data Address : Type 0 where
  address4 address6 domain_name : Bytes → Address

abbrev pub address_type : Address → ℕ
address_type (address4 a) = 1
address_type (address6 a) = 4
address_type (domain_name n) = 3

abbrev pub address_bytes : Address → Bytes
address_bytes (address4 a) = a
address_bytes (address6 a) = a
address_bytes (domain_name n) = (length n ∷ []) ++ n

abbrev pub IsAddress : Address → Type 0
IsAddress (address4 a) = length a ≡ 4
IsAddress (address6 a) = length a ≡ 16
IsAddress (domain_name n) = length n < 256

abbrev pub greeting : Bytes
greeting = 5 ∷ 1 ∷ 0 ∷ []

-- A CONNECT to a host name and a port in network order.
abbrev pub connect_bytes : Bytes → ℕ → Bytes
connect_bytes hostname port =
    5 ∷ 1 ∷ 0 ∷ 3 ∷ length hostname ∷ hostname ++ ((port / 2 ^ 8 % 256) ∷ (port % 256) ∷ [])

connect_request-connect_bytes :
    (hostname port : Bytes) (portno : ℕ)
    → length hostname < 256
    → strtonum port 0 65535 ≡ ok portno
    → connect_request hostname port ≡ ok (connect_bytes hostname portno)
unfolding connect_request
connect_request-connect_bytes hostname port portno short e =
    let fits : ltb 255 (length hostname) ≡ false = ground arith in rw (fits, e) refl

connect_bytes_small :
    (hostname : Bytes) (port : ℕ)
    → length hostname < 256
    → length (connect_bytes hostname port) < 2 ^ 63
connect_bytes_small hostname port short =
    omega (arith, length-append hostname ((port / 2 ^ 8 % 256) ∷ (port % 256) ∷ []))

-- What `type` stands for.
kind : Address → AddressType
kind (address4 a) = ipv4
kind (address6 a) = ipv6
kind (domain_name n) = domain

check_connect-kind : (a : Address) → check_connect 5 0 0 (address_type a) ≡ ok (kind a)
unfolding check_connect kind
check_connect-kind (address4 a) = refl
check_connect-kind (address6 a) = refl
check_connect-kind (domain_name n) = refl

check_auth-none : check_auth 5 0 ≡ ok tt
unfolding check_auth
check_auth-none = refl

check_connect-refused :
    (reply reserved type : ℕ)
    → (reply == 0) ≡ false
    → check_connect 5 reply reserved type ≡ err io_error
unfolding check_connect
check_connect-refused reply reserved type bad = rw bad refl

module _ {S K : Type 0} {net : Net S} {draw : Draw S} {sock : Socket} {view : S → View K} {k : K}
    (stream : Stream net draw sock view k) where
  abbrev at : Bytes → Bytes → View K
  at i out = record { input = i; output = out; kept = k }

  recv_address-address_bytes :
      (a : Address) (rest out : Bytes)
      → IsAddress a
      → (got : Bytes) × Gives view
          (recv_address net sock (kind a))
          (at (address_bytes a ++ rest) out)
          (ok got)
          (at rest out)
  unfolding recv_address kind
  recv_address-address_bytes (address4 a) rest out h = (a, recvn-append stream 4 a rest out h)
  recv_address-address_bytes (address6 a) rest out h = (a, recvn-append stream 16 a rest out h)
  recv_address-address_bytes (domain_name n) rest out h = (
    n,
    Gives-bind _ (recvn-append stream 1 (length n ∷ []) (n ++ rest) out refl)
        (recvn-append stream (length n) n rest out refl),
  )

  -- Over a stream, with a proxy that takes the method and the request: the client says hello, asks
  -- for the host name, of fewer than 256 bytes, and the port, a number up to 65535, reads the
  -- whole answer, whichever kind of address stands in it, and leaves what comes behind it for the
  -- connection.
  pub socks5h_negotiate-accepted :
      (hostname port bound_port rest out : Bytes) (portno : ℕ) (a : Address)
      → length hostname < 256
      → strtonum port 0 65535 ≡ ok portno
      → IsAddress a
      → length bound_port ≡ 2
      → Gives view
          (socks5h_negotiate net sock hostname port)
          (at
            ((5 ∷ 0 ∷ [])
              ++ ((5 ∷ 0 ∷ 0 ∷ address_type a ∷ []) ++ (address_bytes a ++ (bound_port ++ rest))))
            out)
          (ok tt)
          (at rest ((out ++ greeting) ++ connect_bytes hostname portno))
  unfolding socks5h_negotiate
  socks5h_negotiate-accepted hostname port bound_port rest out portno a short e good two =
      let (got, g) =
        recv_address-address_bytes a (bound_port ++ rest)
          ((out ++ greeting) ++ connect_bytes hostname portno) good in
      let answer = address_bytes a ++ (bound_port ++ rest) in
      let header = 5 ∷ 0 ∷ 0 ∷ address_type a ∷ [] in
      Gives-bind _ (stream.sendn greeting ((5 ∷ 0 ∷ []) ++ (header ++ answer)) out (omega arith)) (
        Gives-bind _ (recvn-append stream 2 (5 ∷ 0 ∷ []) (header ++ answer) (out ++ greeting) refl)
          (Gives-bind _ (Gives-lift_eq _ check_auth-none) (
            Gives-bind _
              (Gives-lift_eq _ (connect_request-connect_bytes hostname port portno short e))
              (Gives-bind _
                (stream.sendn (connect_bytes hostname portno) (header ++ answer) (out ++ greeting)
                  (connect_bytes_small hostname portno short))
                (Gives-bind _ (recvn-append stream 4 header answer _ refl) (
                  Gives-bind _ (Gives-lift_eq _ (check_connect-kind a)) (
                    Gives-bind _ g (
                      Gives-bind _ (recvn-append stream 2 bound_port rest _ two)
                        (Gives-pure tt _)))))))))

  -- Over a stream, a proxy that takes the method and then refuses the request makes the exchange
  -- fail with `io_error`, before the address of its answer is read. The host name has fewer than
  -- 256 bytes, and the port is a number up to 65535.
  pub socks5h_negotiate-refused :
      (hostname port rest out : Bytes) (portno reply reserved type : ℕ)
      → length hostname < 256
      → strtonum port 0 65535 ≡ ok portno
      → (reply == 0) ≡ false
      → Gives view
          (socks5h_negotiate net sock hostname port)
          (at ((5 ∷ 0 ∷ []) ++ ((5 ∷ reply ∷ reserved ∷ type ∷ []) ++ rest)) out)
          (err io_error)
          (at rest ((out ++ greeting) ++ connect_bytes hostname portno))
  unfolding socks5h_negotiate
  socks5h_negotiate-refused hostname port rest out portno reply reserved type short e bad =
      let header = 5 ∷ reply ∷ reserved ∷ type ∷ [] in
      Gives-bind _ (stream.sendn greeting ((5 ∷ 0 ∷ []) ++ (header ++ rest)) out (omega arith)) (
        Gives-bind _ (recvn-append stream 2 (5 ∷ 0 ∷ []) (header ++ rest) (out ++ greeting) refl) (
          Gives-bind _ (Gives-lift_eq _ check_auth-none) (
            Gives-bind _
              (Gives-lift_eq _ (connect_request-connect_bytes hostname port portno short e))
              (Gives-bind _
                (stream.sendn (connect_bytes hostname portno) (header ++ rest) (out ++ greeting)
                  (connect_bytes_small hostname portno short))
                (Gives-bind _ (recvn-append stream 4 header rest _ refl) (
                  Gives-bind_err _
                    (Gives-lift_eq _ (check_connect-refused reply reserved type bad))))))))
