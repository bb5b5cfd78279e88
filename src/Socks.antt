-- ===== src/Socks.antt =====
-- include/libndt/libndt.hpp: netx_maybesocks5h_dial, the client's side of SOCKSv5. On every error
-- path behind a successful netx_dial the source closes the socket and sets `*sock` to -1, so the
-- socket is the value of the action.
pub mod Negotiate
use libndt.Curl.{request}
use libndt.Err.{Err, invalid_argument, io_error, socks5h}
use libndt.Io.{Io, Result, err, lift, ok, pure, stuck, unless_stuck, ◌>>=◌, ◌>>◌}
use libndt.Net.{Net}
use libndt.Prelude.{[], get_or, if◌then◌else◌, length, ltb, not, ℕ, ◌%◌, ◌++◌, ◌/◌, ◌==◌, ◌^◌, ◌∷◌}
use libndt.Prelude.Bytes.{Bytes}
use libndt.Prelude.Text.{codes}
use libndt.Strtonum.{strtonum}
use libndt.Types.{Socket}

pub data AddressType : Type 0 where
  ipv4 domain ipv6 : AddressType

-- The checks on the two bytes of the auth response, in their order.
pub check_auth : ℕ → ℕ → Result Err Unit
check_auth version method =
    if not (version == 5) then err socks5h else if not (method == 0) then err socks5h else ok tt

-- The checks on the four bytes of the connect response, in their order.
pub check_connect : ℕ → ℕ → ℕ → ℕ → Result Err AddressType
check_connect version error reserved type =
    if not (version == 5)
    then err socks5h
    else if not (error == 0)
    then err io_error
    else if not (reserved == 0)
    then err socks5h
    else if type == 1
    then ok ipv4
    else if type == 3
    then ok domain
    else if type == 4
    then ok ipv6
    else err socks5h

-- The bytes of the connect request.
pub connect_request : Bytes → Bytes → Result Err Bytes
connect_request hostname port =
    if ltb 255 (length hostname) then err invalid_argument else elim (strtonum port 0 65535) [
      | ok portno ↦ ok (
          5 ∷ 1 ∷ 0 ∷ 3 ∷ length hostname ∷ hostname
          ++ ((portno / 2 ^ 8 % 256) ∷ (portno % 256) ∷ []))
      | _ ↦ err invalid_argument
    ]

module _ {S A : Type 0} where
  -- The clean-up that each error path repeats: the error of netx_closesocket is dropped.
  abbrev pub closing : Net S → Socket → Io S Err A → Io S Err A
  closing net sock m s = elim (m s).0 [
    | ok a ↦ (ok a, (m s).1)
    | err e ↦
        (unless_stuck (net.closesocket sock (m s).1).0 (err e), (net.closesocket sock (m s).1).1)
    | stuck ↦ (stuck, (m s).1)
  ]

module _ {S : Type 0} (net : Net S) where
  pub recv_address : Socket → AddressType → Io S Err Bytes
  recv_address sock ipv4 = net.recvn sock 4
  recv_address sock ipv6 = net.recvn sock 16
  recv_address sock domain = do len ← net.recvn sock 1; net.recvn sock (get_or len 0 0)

  -- What is sent and received once the proxy is connected.
  pub socks5h_negotiate : Socket → Bytes → Bytes → Io S Err Unit
  unfolding recv_address
  socks5h_negotiate sock hostname port = do
    net.sendn sock (5 ∷ 1 ∷ 0 ∷ [])
    auth ← net.recvn sock 2
    lift (check_auth (get_or auth 0 0) (get_or auth 1 0))
    request ← lift (connect_request hostname port)
    net.sendn sock request
    hdr ← net.recvn sock 4
    type ← lift (check_connect (get_or hdr 0 0) (get_or hdr 1 0) (get_or hdr 2 0) (get_or hdr 3 0))
    recv_address sock type
    net.recvn sock 2
    pure tt

  unfoldable pub netx_maybesocks5h_dial : Bytes → Bytes → Bytes → Io S Err Socket
  netx_maybesocks5h_dial socks5h_port hostname port =
      if length socks5h_port == 0 then net.dial hostname port else do
        sock ← net.dial (codes "127.0.0.1") socks5h_port
        closing net sock (socks5h_negotiate sock hostname port)
        pure sock
