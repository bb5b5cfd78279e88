-- ===== src/Netx/Peer/Calls.antt =====
-- netx_recv and netx_send (include/libndt/libndt.hpp) without TLS over a connection: a piece is
-- received or sent, after as many tries as the socket needs to become ready.
use libndt.Client.{Client}
use libndt.Err.{Err, eof, invalid_argument, operation_would_block}
use libndt.Io.{Result, err, ok}
use libndt.Io.Returns.{bind-on_ok}
use libndt.Netx.{
  errno_result, netx_recv, netx_recv_nonblocking, netx_send, netx_send_nonblocking,
  netx_wait_readable, netx_wait_writeable, pollin, pollout, recv_tcp, retry_recv, retry_send,
  send_tcp,
}
use libndt.Netx.Errors.{map_errno}
use libndt.Netx.Peer.{IsPeer, IsTcp, Link, Quiet, Quiet-trans, Sends, at_world, wait_ready}
use libndt.Netx.Ready.{Takes}
use libndt.Prelude.{
  [], arith, false, inl, inr, length, length-take, ltb, refl, some, suc, sym, take, true, zero, ℕ,
  ◌<◌, ◌==◌, ◌^◌, ◌∙◌, ◌≡◌, ◌≤◌, ◌⊎◌,
}
use libndt.Prelude.Bytes.{Bytes}
use libndt.Sys.{Sys, einval, no_error, ssize_max, sys_recv, sys_send}
use libndt.Types.{Socket}

module _ {W : Type 0} (sys : Sys W) (sock : Socket) (link : Link W) (limit : ℕ)
    (peer : IsPeer sys sock link limit) where
  recv_nonblocking_tcp :
      (n : ℕ) (s : Client W)
      → IsTcp s
      → 0 < n
      → netx_recv_nonblocking sys sock n s
        ≡ recv_tcp sys sock n (at_world s (sys.set_last_error no_error s.world))
  unfolding netx_recv_nonblocking
  recv_nonblocking_tcp n s tcp room =
      let nonzero : (n == 0) ≡ false = ground arith in rw (nonzero, tcp) refl

  send_nonblocking_tcp :
      (bytes : Bytes) (s : Client W)
      → IsTcp s
      → 0 < length bytes
      → netx_send_nonblocking sys sock bytes s
        ≡ send_tcp sys sock bytes (at_world s (sys.set_last_error no_error s.world))
  unfolding netx_send_nonblocking
  send_nonblocking_tcp bytes s tcp some_bytes =
      let nonzero : (length bytes == 0) ≡ false = ground arith in rw (nonzero, tcp) refl

  -- A call that finds the socket not ready is tried again after the wait.
  netx_recv-again :
      (fuel n : ℕ) (s s1 : Client W)
      → 0 < fuel
      → netx_recv_nonblocking sys sock n s ≡ (err operation_would_block, s1)
      → (w : W) × Quiet link s1.world w
        × (link.stalls w ≤ link.stalls s1.world)
        × (netx_recv sys (suc fuel) sock n s ≡ netx_recv sys fuel sock n (at_world s1 w))
  unfolding netx_recv retry_recv netx_wait_readable
  netx_recv-again zero n s s1 some_fuel e = absurd (omega arith)
  netx_recv-again (suc fuel) n s s1 some_fuel e =
      let wait = netx_wait_readable sys (suc fuel) sock s1.settings.timeout in
      let (w, q, l, ready) =
        wait_ready sys sock link limit peer fuel pollin s1.settings.timeout s1 in
      (w, q, l, rw e (bind-on_ok wait (λ _. netx_recv sys (suc fuel) sock n) ready))

  netx_send-again :
      (fuel : ℕ) (bytes : Bytes) (s s1 : Client W)
      → 0 < fuel
      → netx_send_nonblocking sys sock bytes s ≡ (err operation_would_block, s1)
      → (w : W) × Quiet link s1.world w
        × (link.stalls w ≤ link.stalls s1.world)
        × (netx_send sys (suc fuel) sock bytes s ≡ netx_send sys fuel sock bytes (at_world s1 w))
  unfolding netx_send retry_send netx_wait_writeable
  netx_send-again zero bytes s s1 some_fuel e = absurd (omega arith)
  netx_send-again (suc fuel) bytes s s1 some_fuel e =
      let wait = netx_wait_writeable sys (suc fuel) sock s1.settings.timeout in
      let (w, q, l, ready) =
        wait_ready sys sock link limit peer fuel pollout s1.settings.timeout s1 in
      (w, q, l, rw e (bind-on_ok wait (λ _. netx_send sys (suc fuel) sock bytes) ready))

  -- What netx_recv returns: a piece of what will be received, or the end of it.
  abbrev pub RecvOutcome : ℕ → Client W → Result Err Bytes × Client W → Type 0
  RecvOutcome n s r =
      (w : W) × (link.sent w ≡ link.sent s.world)
      × (((k : ℕ) × Takes n k (link.received s.world) (some (take k (link.received s.world)))
              (link.received w)
            × (r ≡ (ok (take k (link.received s.world)), at_world s w)))
          ⊎ ((link.received s.world ≡ []) × (link.received w ≡ []) × (r ≡ (err eof, at_world s w))))

  recv_tcp-piece :
      (n k : ℕ) (s : Client W)
      → n < 2 ^ 63
      → Takes n k
          (link.received s.world)
          (sys.recv sock n s.world).0
          (link.received (sys.recv sock n s.world).1)
      → recv_tcp sys sock n s
        ≡ (ok (take k (link.received s.world)), at_world s (sys.recv sock n s.world).1)
  unfolding recv_tcp sys_recv
  recv_tcp-piece n k s small t =
      let fits : ltb ssize_max n ≡ false = ground arith in
      let some_taken : (length (take k (link.received s.world)) == 0) ≡ false =
        ground (arith, t.some_bytes, t.in_ready, length-take k (link.received s.world)) in
      rw (fits, t.taken) (rw some_taken refl)

  RecvOutcome-Quiet :
      (n : ℕ) (s : Client W) (w : W) (r : Result Err Bytes × Client W)
      → Quiet link s.world w
      → RecvOutcome n (at_world s w) r
      → RecvOutcome n s r
  RecvOutcome-Quiet n s w r q o = rw (q.received_same, q.sent_same) at o

  -- By induction on the calls that find the socket not ready.
  pub netx_recv-outcome :
      (fuel n : ℕ) (s : Client W)
      → IsTcp s
      → 0 < n
      → n < 2 ^ 63
      → link.stalls s.world < fuel
      → RecvOutcome n s (netx_recv sys fuel sock n s)
  unfolding netx_recv recv_tcp errno_result retry_recv map_errno sys_recv
  netx_recv-outcome zero n s tcp room small h = absurd (omega arith)
  netx_recv-outcome (suc fuel) n s tcp room small h =
      let fits : ltb ssize_max n ≡ false = ground arith in
      let w0 = sys.set_last_error no_error s.world in
      let s0 = at_world s w0 in
      let (q, same) = peer.errno_apart no_error s.world in
      let direct = recv_nonblocking_tcp n s tcp room in
      elim (peer.recv_answers n w0 room small) [
        | inl (k, t, e) ↦
            let r = link.received w0 in
            let w1 = (sys.recv sock n w0).1 in
            let t' : Takes n k r (some (take k r)) (link.received w1) = record {
              some_bytes = t.some_bytes;
              in_room = t.in_room;
              in_ready = t.in_ready;
              taken = refl;
              left = t.left;
            } in
            (
              w1,
              e ∙ q.sent_same,
              inl (
                k,
                rw (q.received_same) at t',
                rw (direct, recv_tcp-piece n k s0 small t, q.received_same) refl,
              ),
            )
        | inr (inl (none_left, e, q')) ↦ (
          (sys.recv sock n w0).1,
          q'.sent_same ∙ q.sent_same,
          inr (
            sym q.received_same ∙ none_left,
            q'.received_same ∙ none_left,
            rw (direct, fits, e) refl,
          ),
        )
        | inr (inr (e, errno, less, q')) ↦
            let s1 = at_world s (sys.recv sock n w0).1 in
            let stalled : netx_recv_nonblocking sys sock n s ≡ (err operation_would_block, s1) =
              rw (direct, fits, e, errno, map_errno) refl in
            let (w, q2, l, again) = netx_recv-again fuel n s s1 (omega arith) stalled in
            RecvOutcome-Quiet n s w _ (Quiet-trans q (Quiet-trans q' q2))
              (rw again (netx_recv-outcome fuel n (at_world s w) tcp room small (omega arith)))
      ]

  -- What netx_send does: it sends a piece.
  abbrev pub SendOutcome : Bytes → Client W → Result Err ℕ × Client W → Type 0
  SendOutcome bytes s r =
      (k : ℕ) × (w : W) × Sends link bytes k s.world (some k) w × (r ≡ (ok k, at_world s w))

  SendOutcome-Quiet :
      (bytes : Bytes) (s : Client W) (w : W) (r : Result Err ℕ × Client W)
      → Quiet link s.world w
      → SendOutcome bytes (at_world s w) r
      → SendOutcome bytes s r
  SendOutcome-Quiet bytes s w r q (k, w', t, e) = (
    k,
    w',
    record {
      some_bytes = t.some_bytes;
      in_bytes = t.in_bytes;
      counted = refl;
      received_same = t.received_same ∙ q.received_same;
      appended = rw q.sent_same at t.appended;
    },
    e,
  )

  send_tcp-piece :
      (bytes : Bytes) (k : ℕ) (s : Client W)
      → (sys.send sock bytes s.world).0 ≡ some k
      → 0 < k
      → length bytes < 2 ^ 63
      → send_tcp sys sock bytes s ≡ (ok k, at_world s (sys.send sock bytes s.world).1)
  unfolding send_tcp sys_send
  send_tcp-piece bytes k s e pos small =
      let fits : ltb ssize_max (length bytes) ≡ false = ground arith in
      let some_taken : (k == 0) ≡ false = ground arith in rw (fits, e) (rw some_taken refl)

  -- By induction on the calls that find the socket not ready.
  pub netx_send-outcome :
      (fuel : ℕ) (bytes : Bytes) (s : Client W)
      → IsTcp s
      → 0 < length bytes
      → length bytes < 2 ^ 63
      → link.stalls s.world < fuel
      → SendOutcome bytes s (netx_send sys fuel sock bytes s)
  unfolding netx_send send_tcp errno_result map_errno sys_send
  netx_send-outcome zero bytes s tcp some_bytes small h = absurd (omega arith)
  netx_send-outcome (suc fuel) bytes s tcp some_bytes small h =
      let fits : ltb ssize_max (length bytes) ≡ false = ground arith in
      let w0 = sys.set_last_error no_error s.world in
      let s0 = at_world s w0 in
      let w1 = (sys.send sock bytes w0).1 in
      let (q, same) = peer.errno_apart no_error s.world in
      let direct = send_nonblocking_tcp bytes s tcp some_bytes in
      elim (peer.send_answers bytes w0 some_bytes small) [
        | inl (k, t) ↦ SendOutcome-Quiet bytes s w0 _ q (
          k,
          w1,
          record {
            some_bytes = t.some_bytes;
            in_bytes = t.in_bytes;
            counted = refl;
            received_same = t.received_same;
            appended = t.appended;
          },
          rw (direct, send_tcp-piece bytes k s0 t.counted t.some_bytes small) refl,
        )
        | inr (e, errno, less, q') ↦
            let s1 = at_world s w1 in
            let stalled : netx_send_nonblocking sys sock bytes s ≡ (err operation_would_block, s1) =
              rw (direct, fits, e, errno, map_errno) refl in
            let (w, q2, l, again) = netx_send-again fuel bytes s s1 (omega arith) stalled in
            SendOutcome-Quiet bytes s w _ (Quiet-trans q (Quiet-trans q' q2)) (
              rw again
                (netx_send-outcome fuel bytes (at_world s w) tcp some_bytes small (omega arith)))
      ]

  -- What Sys::Recv and Sys::Send refuse: the error is EINVAL, and nothing moves.
  refused_world : W → W
  refused_world w = sys.set_last_error einval (sys.set_last_error no_error w)

  refused-Quiet : (w : W) → Quiet link w (refused_world w)
  unfolding refused_world
  refused-Quiet w =
      Quiet-trans (peer.errno_apart no_error w).0
        (peer.errno_apart einval (sys.set_last_error no_error w)).0

  pub netx_recv-oversized :
      (fuel n : ℕ) (s : Client W)
      → IsTcp s
      → 2 ^ 63 ≤ n
      → 0 < fuel
      → (w : W) × Quiet link s.world w
        × (netx_recv sys fuel sock n s ≡ (err invalid_argument, at_world s w))
  unfolding netx_recv recv_tcp errno_result retry_recv map_errno sys_recv refused_world
  netx_recv-oversized zero n s tcp huge some_fuel = absurd (omega arith)
  netx_recv-oversized (suc fuel) n s tcp huge some_fuel =
      let past : ltb ssize_max n ≡ true = ground arith in
      let direct = recv_nonblocking_tcp n s tcp (omega arith) in
      let errno = peer.errno_kept einval (sys.set_last_error no_error s.world) in
      (refused_world s.world, refused-Quiet s.world, rw (direct, past, errno, map_errno) refl)

  pub netx_send-oversized :
      (fuel : ℕ) (bytes : Bytes) (s : Client W)
      → IsTcp s
      → 2 ^ 63 ≤ length bytes
      → 0 < fuel
      → (w : W) × Quiet link s.world w
        × (netx_send sys fuel sock bytes s ≡ (err invalid_argument, at_world s w))
  unfolding netx_send send_tcp errno_result retry_send map_errno sys_send refused_world
  netx_send-oversized zero bytes s tcp huge some_fuel = absurd (omega arith)
  netx_send-oversized (suc fuel) bytes s tcp huge some_fuel =
      let past : ltb ssize_max (length bytes) ≡ true = ground arith in
      let direct = send_nonblocking_tcp bytes s tcp (omega arith) in
      let errno = peer.errno_kept einval (sys.set_last_error no_error s.world) in
      (refused_world s.world, refused-Quiet s.world, rw (direct, past, errno, map_errno) refl)
