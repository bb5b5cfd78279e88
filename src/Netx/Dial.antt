-- ===== src/Netx/Dial.antt =====
-- include/libndt/libndt.hpp: netx_resolve and netx_dial, and the netx functions as a `Net`.
use libndt.Client.{Client}
use libndt.Err.{Err, ai_generic, io_error, operation_in_progress}
use libndt.Io.{Io, err, pure, raise, ◌>>=◌, ◌>>◌}
use libndt.Net.{Net}
use libndt.Netx.{
  catch, change_world, last_error, netx_recv, netx_recvn, netx_send, netx_sendn, netx_wait_readable,
  netx_wait_writeable, on_world,
}
use libndt.Netx.Descriptors.{netx_closesocket, netx_setnonblocking}
use libndt.Netx.Errors.{map_eai}
use libndt.Prelude.{
  List, Option, [], false, if◌then◌else◌, inl, inr, length, none, not, some, suc, true, ℕ, ◌∷◌,
}
use libndt.Prelude.Bytes.{Bytes}
use libndt.Prelude.Text.{codes}
use libndt.Sys.{AiError, Sys, no_error}
use libndt.Types.{Socket, is_socket_valid}

module _ {W : Type 0} (sys : Sys W) where
  -- The loop of netx_resolve over the entries that getaddrinfo found.
  names : List ℕ → Io (Client W) Err (List Bytes)
  names [] = pure []
  names (aip ∷ rest) = do
    address ← on_world (sys.getnameinfo aip)
    elim address [ none ↦ raise ai_generic | some a ↦ (do others ← names rest; pure (a ∷ others)) ]

  raise_eai : {A : Type 0} → AiError → Io (Client W) Err A
  raise_eai e s = (err (map_eai e (sys.get_last_error s.world)), s)

  pub netx_resolve : Bytes → Io (Client W) Err (List Bytes)
  unfolding names raise_eai
  netx_resolve hostname = do
    numeric ← on_world (sys.getaddrinfo true hostname (codes "80"))
    elim numeric [
      | inr entries ↦ names entries
      | inl _ ↦ (do
        any ← on_world (sys.getaddrinfo false hostname (codes "80"))
        elim any [ inr entries ↦ names entries | inl e ↦ raise_eai e ])
    ]

  -- The last lines of a round of netx_dial: the socket is closed and the next entry is tried.
  give_up : Socket → Io (Client W) Err (Option Socket)
  give_up sock = do on_world (sys.closesocket sock); pure none

  check_so_error : Socket → Io (Client W) Err (Option Socket)
  unfolding give_up
  check_so_error sock = do
    soerr ← on_world (sys.so_error sock)
    elim soerr [
      | none ↦ give_up sock
      | some no_error ↦ pure (some sock)
      | some e ↦ (do change_world sys (sys.set_last_error e); give_up sock)
    ]

  -- A connect() that is in progress is waited for; any other failure gives the entry up.
  finish_connect : ℕ → Socket → Io (Client W) Err (Option Socket)
  unfolding give_up check_so_error
  finish_connect fuel sock s = elim (last_error sys s) [
    | operation_in_progress ↦
        catch (do netx_wait_writeable sys fuel sock s.settings.timeout; check_so_error sock)
          (λ e. give_up sock) s
    | _ ↦ give_up sock s
  ]

  connect_socket : ℕ → ℕ → Socket → Io (Client W) Err (Option Socket)
  unfolding give_up finish_connect
  connect_socket fuel aip sock = do
    done ← on_world (sys.connect sock aip)
    if done then pure (some sock) else finish_connect fuel sock

  -- A round of the inner loop of netx_dial: a connected socket, or `none` for `continue`.
  pub connect_entry : ℕ → ℕ → Io (Client W) Err (Option Socket)
  unfolding give_up connect_socket
  connect_entry fuel aip = do
    change_world sys (sys.set_last_error no_error)
    sock ← on_world (sys.new_socket aip)
    if not (is_socket_valid sock)
        then pure none
        else catch (do netx_setnonblocking sys sock true; connect_socket fuel aip sock)
            (λ e. give_up sock)

  pub connect_entries : ℕ → List ℕ → Io (Client W) Err (Option Socket)
  connect_entries fuel [] = pure none
  connect_entries fuel (aip ∷ rest) = do
    found ← connect_entry fuel aip
    elim found [ some sock ↦ pure (some sock) | none ↦ connect_entries fuel rest ]

  pub dial_addresses : ℕ → Bytes → List Bytes → Io (Client W) Err (Option Socket)
  unfolding raise_eai
  dial_addresses fuel port [] = pure none
  dial_addresses fuel port (addr ∷ rest) = do
    entries ← on_world (sys.getaddrinfo true addr port)
    elim entries [
      | inl e ↦ raise_eai e
      | inr list ↦ (do
        found ← connect_entries fuel list
        elim found [ some sock ↦ pure (some sock) | none ↦ dial_addresses fuel port rest ])
    ]

  -- Every caller passes a `*sock` that is -1.
  pub netx_dial : ℕ → Bytes → Bytes → Io (Client W) Err Socket
  netx_dial fuel hostname port = do
    addresses ← netx_resolve hostname
    found ← dial_addresses fuel port addresses
    elim found [ some sock ↦ pure sock | none ↦ raise io_error ]

  -- The client's own networking methods. `fuel` bounds the retries; each round of netx_recvn and of
  -- netx_sendn moves at least a byte, so that the rounds are one more than the bytes at most.
  unfoldable pub netx : ℕ → Net (Client W)
  netx fuel = record {
    recv = netx_recv sys fuel;
    send = netx_send sys fuel;
    recvn = λ sock count. netx_recvn sys fuel (suc count) sock count;
    sendn = λ sock base. netx_sendn sys fuel (suc (length base)) sock base;
    dial = netx_dial fuel;
    closesocket = netx_closesocket sys;
    wait_readable = netx_wait_readable sys fuel;
  }
