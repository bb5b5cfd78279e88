-- ===== src/Netx/Peer/Recvn.antt =====
-- netx_recvn (include/libndt/libndt.hpp) without TLS over a connection.
use libndt.Client.{Client}
use libndt.Err.{Err, eof, invalid_argument}
use libndt.Io.{Result, err, ok}
use libndt.Io.Returns.{bind-on_err}
use libndt.Netx.{netx_recv, netx_recvn, recvn_loop}
use libndt.Netx.Peer.{IsPeer, IsTcp, Link, Quiet, at_world}
use libndt.Netx.Peer.Calls.{netx_recv-outcome, netx_recv-oversized}
use libndt.Netx.Ready.{Takes, drop_add, recvn_loop-round, take_add}
use libndt.Prelude.{
  Bool-cases, [], ap, arith, drop, false, inl, inr, length, length-append, length-drop, length-take,
  ltb, refl, some, suc, take, true, zero, ℕ, ◌++◌, ◌+◌, ◌-◌, ◌<◌, ◌^◌, ◌∙◌, ◌≡◌, ◌≤◌, ◌⊎◌,
}
use libndt.Prelude.Bytes.{Bytes}
use libndt.Sys.{Sys}
use libndt.Types.{Socket}
use mathlib.Core.List.{append-nil, append_assoc}

module _ {W : Type 0} (sys : Sys W) (sock : Socket) (link : Link W) (limit : ℕ)
    (peer : IsPeer sys sock link limit) where
  recvn_loop-stop :
      (budget fuel count : ℕ) (acc : Bytes) (s s1 : Client W)
      → ltb (length acc) count ≡ true
      → netx_recv sys budget sock (count - length acc) s ≡ (err eof, s1)
      → recvn_loop sys budget (suc fuel) sock count acc s ≡ (err eof, s1)
  unfolding recvn_loop
  recvn_loop-stop budget fuel count acc s s1 less e =
      rw less (bind-on_err (netx_recv sys budget sock (count - length acc)) _ e)

  -- What the loop returns when `m` bytes are missing: all of them, or the end of the stream.
  abbrev pub LoopOutcome : ℕ → Bytes → Client W → Result Err Bytes × Client W → Type 0
  LoopOutcome m acc s r =
      (w : W) × (link.sent w ≡ link.sent s.world)
      × (((m ≤ length (link.received s.world))
            × (link.received w ≡ drop m (link.received s.world))
            × (r ≡ (ok (acc ++ take m (link.received s.world)), at_world s w)))
          ⊎ ((length (link.received s.world) < m)
              × (link.received w ≡ [])
              × (r ≡ (err eof, at_world s w))))

  -- A piece, and what the other rounds return.
  LoopOutcome-piece :
      (n k m' m : ℕ) (acc : Bytes) (s : Client W) (w1 : W) (r : Result Err Bytes × Client W)
      → Takes n k (link.received s.world) (some (take k (link.received s.world))) (link.received w1)
      → link.sent w1 ≡ link.sent s.world
      → m ≡ k + m'
      → LoopOutcome m' (acc ++ take k (link.received s.world)) (at_world s w1) r
      → LoopOutcome m acc s r
  LoopOutcome-piece n k m' m acc s w1 r t e split (w, e', rest) =
      let ready = link.received s.world in
      let left : length (link.received w1) ≡ length ready - k = rw t.left (length-drop k ready) in
      let joined : (acc ++ take k ready) ++ take m' (link.received w1) ≡ acc ++ take m ready =
        append_assoc acc (take k ready) (take m' (link.received w1))
        ∙ ap (λ (x : Bytes). acc ++ x)
            (ap (λ (x : Bytes). take k ready ++ take m' x) t.left ∙ take_add k m' m ready split) in
      (
        w,
        e' ∙ e,
        elim rest [
          | inl (enough, after, e2) ↦ inl (
            omega (arith, left, t.in_ready, split),
            after ∙ (ap (drop m') t.left ∙ drop_add k m' m ready split),
            rw joined at e2,
          )
          | inr (short, after, e2) ↦ inr (omega (arith, left, t.in_ready, split), after, e2)
        ],
      )

  recvn_loop-outcome :
      (budget fuel count : ℕ) (acc : Bytes) (s : Client W)
      → IsTcp s
      → limit ≤ budget
      → length acc ≤ count
      → count < 2 ^ 63
      → length acc + length (link.received s.world) < 2 ^ 64
      → count - length acc < fuel
      → LoopOutcome (count - length acc) acc s (recvn_loop sys budget fuel sock count acc s)
  unfolding recvn_loop
  recvn_loop-outcome budget zero count acc s tcp patience le low small fueled = absurd (omega arith)
  recvn_loop-outcome budget (suc fuel) count acc s tcp patience le low small fueled =
      elim (Bool-cases (ltb (length acc) count)) [
        | inr whole ↦
            let none_left : count - length acc ≡ 0 = ground arith in
            (
              s.world,
              refl,
              inl (omega arith, rw none_left refl, rw (whole, none_left, append-nil) refl),
            )
        | inl less ↦
            let n = count - length acc in
            let got =
              netx_recv-outcome sys sock link limit peer budget n s tcp (ground arith) (omega arith)
                (omega (arith, peer.patient s.world)) in
            let ready = link.received s.world in
            elim got.2 [
              | inr (none_left, after, e) ↦ (
                got.0,
                got.1,
                inr (
                  rw none_left (ground arith),
                  after,
                  recvn_loop-stop budget fuel count acc s (at_world s got.0) less e,
                ),
              )
              | inl (k, t, e) ↦
                  let piece = take k ready in
                  let s1 = at_world s got.0 in
                  let l = length-take k ready in
                  let fits : ltb (2 ^ 64 - 1 - length piece) (length acc) ≡ false =
                    ground (arith, t.in_room, t.in_ready, l) in
                  let grown : length (acc ++ piece) ≡ length acc + k =
                    omega (arith, length-append acc piece, l, t.in_ready) in
                  let left : length (link.received got.0) ≡ length ready - k =
                    rw t.left (length-drop k ready) in
                  let rest =
                    recvn_loop-outcome budget fuel count (acc ++ piece) s1 tcp patience
                      (omega (arith, t.in_room, grown)) low (omega (arith, left, grown, t.in_ready))
                      (omega (arith, grown, t.some_bytes, t.in_room)) in
                  LoopOutcome-piece n k (count - length (acc ++ piece)) n acc s got.0 _ t got.1
                    (omega (arith, grown, t.in_room, le))
                    (rw (recvn_loop-round sys sock budget fuel count acc piece s s1 less e fits)
                      rest)
            ]
      ]

  -- netx_recvn of `count` bytes.
  pub netx_recvn-outcome :
      (budget count : ℕ) (s : Client W)
      → IsTcp s
      → limit ≤ budget
      → count < 2 ^ 63
      → LoopOutcome count [] s (netx_recvn sys budget (suc count) sock count s)
  unfolding netx_recvn
  netx_recvn-outcome budget count s tcp patience low =
      let e : count - 0 ≡ count = omega arith in
      rw e at (
        recvn_loop-outcome budget (suc count) count [] s tcp patience (omega arith) low
          (omega (arith, peer.received_small s.world)) (omega arith))

  recvn_loop-refused :
      (budget fuel count : ℕ) (s s1 : Client W)
      → ltb 0 count ≡ true
      → netx_recv sys budget sock (count - 0) s ≡ (err invalid_argument, s1)
      → recvn_loop sys budget (suc fuel) sock count [] s ≡ (err invalid_argument, s1)
  unfolding recvn_loop
  recvn_loop-refused budget fuel count s s1 some_room e =
      rw some_room (bind-on_err (netx_recv sys budget sock (count - 0)) _ e)

  -- netx_recvn of more bytes than Sys::Recv accepts.
  pub netx_recvn-oversized :
      (budget count : ℕ) (s : Client W)
      → IsTcp s
      → limit ≤ budget
      → 2 ^ 63 ≤ count
      → (w : W) × Quiet link s.world w
        × (netx_recvn sys budget (suc count) sock count s ≡ (err invalid_argument, at_world s w))
  unfolding netx_recvn
  netx_recvn-oversized budget count s tcp patience huge =
      let (w, q, e) =
        netx_recv-oversized sys sock link limit peer budget (count - 0) s tcp (omega arith)
          (omega (arith, peer.patient s.world)) in
      (w, q, recvn_loop-refused budget count count s (at_world s w) (ground arith) e)
