-- ===== src/Ws/Fragments.antt =====
-- ws_recvmsg on a message in fragments, with control frames between them.
use libndt.Err.{Err}
use libndt.Io.{Result, ok, pure}
use libndt.Net.{Draw, Net}
use libndt.Net.Stream.{Stream, View}
use libndt.Prelude.{
  All, Bool, List, [], arith, false, if◌then◌else◌, length, length-append, ltb, not, suc, true,
  zero, ℕ, ◌&&◌, ◌++◌, ◌+◌, ◌-◌, ◌<◌, ◌==◌, ◌^◌, ◌∷◌, ◌≡◌, ◌≤◌, ◌⊎◌,
}
use libndt.Prelude.Bytes.{Bytes, IsByte}
use libndt.Types.{Socket, ws_opcode_binary, ws_opcode_continue, ws_opcode_text}
use libndt.Ws.{Frame, Message, join_fragment, recv_continuation, ws_recvmsg}
use libndt.Ws.Control.{Control, Fits, control_bytes, control_payload, replies}
use libndt.Ws.Messages.{ws_recv_frame-data}
use libndt.Ws.Receive.{server_frame}
use libndt.Ws.Talks.{Talks, Talks-bind, Talks-pure}
use mathlib.Core.List.{append-nil, append_assoc}

-- A fragment of a message: the control frames that come before it, and its payload.
pub record Fragment : Type 0 where
  pub controls : List Control
  pub chunk : Bytes

-- The frames of the fragments behind the first one.
abbrev pub fragment_bytes : List Fragment → Bytes
fragment_bytes [] = []
fragment_bytes (g ∷ []) =
    control_bytes g.controls
    ++ server_frame (record { opcode = ws_opcode_continue; fin = true; payload = g.chunk })
fragment_bytes (g ∷ h ∷ gs) =
    (control_bytes g.controls
      ++ server_frame (record { opcode = ws_opcode_continue; fin = false; payload = g.chunk }))
    ++ fragment_bytes (h ∷ gs)

-- A message in fragments: the first frame has the opcode, the last one the FIN flag.
abbrev pub message_bytes : ℕ → Fragment → List Fragment → Bytes
message_bytes opcode g [] =
    control_bytes g.controls
    ++ server_frame (record { opcode = opcode; fin = true; payload = g.chunk })
message_bytes opcode g (h ∷ gs) =
    (control_bytes g.controls
      ++ server_frame (record { opcode = opcode; fin = false; payload = g.chunk }))
    ++ fragment_bytes (h ∷ gs)

abbrev pub chunks : List Fragment → Bytes
chunks [] = []
chunks (g ∷ gs) = g.chunk ++ chunks gs

abbrev pub fragment_replies : List Fragment → List (ℕ × Bytes)
fragment_replies [] = []
fragment_replies (g ∷ gs) = replies g.controls ++ fragment_replies gs

-- Fewer control frames than the fuel, each of them one that the RFC allows.
abbrev pub IsSized : ℕ → List Control → Type 0
IsSized budget cs =
    (length cs < budget)
    × All (λ c. All IsByte (control_payload c) × (length (control_payload c) ≤ 125)) cs

Fits-IsSized :
    (total : ℕ) (cs : List Control)
    → 125 ≤ total
    → All (λ c. All IsByte (control_payload c) × (length (control_payload c) ≤ 125)) cs
    → All (Fits total) cs
Fits-IsSized total [] room h = tt
Fits-IsSized total (c ∷ cs) room h = ((h.0.0, h.0.1, omega arith), Fits-IsSized total cs room h.1)

abbrev continuation : Bool → Bytes → Frame
continuation fin chunk = record { opcode = ws_opcode_continue; fin = fin; payload = chunk }

module _ {S K : Type 0} {net : Net S} {draw : Draw S} {sock : Socket} {view : S → View K} {k : K}
    (stream : Stream net draw sock view k) where
  -- One round of the loop of ws_recvmsg.
  continuation_step :
      (g : Fragment) (fin : Bool) (budget fuel total opcode : ℕ) (acc rest : Bytes)
      (r : Result Err Message) (i' : Bytes) (fs : List (ℕ × Bytes))
      → IsSized budget g.controls
      → length acc + length g.chunk + 125 ≤ total
      → total < 2 ^ 63
      → Talks view
          (if fin
            then pure (record { opcode = opcode; payload = acc ++ g.chunk })
            else recv_continuation net draw budget fuel sock total opcode (acc ++ g.chunk))
          k
          rest
          r
          i'
          fs
      → Talks view
          (recv_continuation net draw budget (suc fuel) sock total opcode acc)
          k
          (control_bytes g.controls ++ (server_frame (continuation fin g.chunk) ++ rest))
          r
          i'
          (replies g.controls ++ fs)
  unfolding recv_continuation join_fragment
  continuation_step g fin budget fuel total opcode acc rest r i' fs sized room small t =
      let below : ltb (length acc) total ≡ true = ground arith in
      let no_overflow : ltb (2 ^ 64 - 1 - length g.chunk) (length acc) ≡ false = ground arith in
      rw below (
        Talks-bind _
          (ws_recv_frame-data stream g.controls (continuation fin g.chunk) budget
            (total - length acc) rest sized.0 (omega arith)
            (Fits-IsSized (total - length acc) g.controls (omega arith) sized.1) (omega arith)
            (omega arith) (omega arith))
          (rw no_overflow t))

  recv_continuation-fragments :
      (g : Fragment) (gs : List Fragment) (budget fuel total opcode : ℕ) (acc rest : Bytes)
      → All (λ h. IsSized budget h.controls) (g ∷ gs)
      → length gs < fuel
      → length acc + length (chunks (g ∷ gs)) + 125 ≤ total
      → total < 2 ^ 63
      → Talks view
          (recv_continuation net draw budget fuel sock total opcode acc)
          k
          (fragment_bytes (g ∷ gs) ++ rest)
          (ok (record { opcode = opcode; payload = acc ++ chunks (g ∷ gs) }))
          rest
          (fragment_replies (g ∷ gs))
  recv_continuation-fragments g gs budget zero total opcode acc rest sized enough room small =
      absurd (omega arith)
  recv_continuation-fragments g [] budget (suc fuel) total opcode acc rest sized enough room small =
      let l = length-append g.chunk [] in
      rw (append_assoc (control_bytes g.controls) (server_frame (continuation true g.chunk)) rest) (
        continuation_step g true budget fuel total opcode acc rest _ rest [] sized.0 (omega arith)
          small (rw append-nil (Talks-pure _ k rest)))
  recv_continuation-fragments g (h ∷ gs) budget (suc fuel) total opcode acc rest sized enough room
        small =
      let l = length-append g.chunk (chunks (h ∷ gs)) in
      let l' = length-append acc g.chunk in
      let tail = fragment_bytes (h ∷ gs) ++ rest in
      let first = server_frame (continuation false g.chunk) in
      rw
        (
          append_assoc (control_bytes g.controls ++ first) (fragment_bytes (h ∷ gs)) rest,
          append_assoc (control_bytes g.controls) first tail,
        )
        (continuation_step g false budget fuel total opcode acc tail _ rest
          (fragment_replies (h ∷ gs)) sized.0 (omega arith) small
          (rw (← append_assoc acc g.chunk (chunks (h ∷ gs))) (
            recv_continuation-fragments h gs budget fuel total opcode (acc ++ g.chunk) rest sized.1
              (omega arith) (omega arith) small)))

  ws_recvmsg_first :
      (opcode : ℕ) (g : Fragment) (fin : Bool) (fuel total : ℕ) (rest i' : Bytes)
      (r : Result Err Message) (fs : List (ℕ × Bytes))
      → (opcode ≡ ws_opcode_text) ⊎ (opcode ≡ ws_opcode_binary)
      → IsSized fuel g.controls
      → length g.chunk + 125 ≤ total
      → total < 2 ^ 63
      → Talks view
          (if fin
            then pure (record { opcode = opcode; payload = g.chunk })
            else recv_continuation net draw fuel fuel sock total opcode g.chunk)
          k
          rest
          r
          i'
          fs
      → Talks view
          (ws_recvmsg net draw fuel sock total)
          k
          (control_bytes g.controls
            ++ (server_frame (record { opcode = opcode; fin = fin; payload = g.chunk }) ++ rest))
          r
          i'
          (replies g.controls ++ fs)
  unfolding ws_recvmsg
  ws_recvmsg_first opcode g fin fuel total rest i' r fs data' sized room small t =
      let nonzero : (total == 0) ≡ false = ground arith in
      let good : (not (opcode == ws_opcode_binary) && not (opcode == ws_opcode_text)) ≡ false =
        ground arith in
      let f : Frame = record { opcode = opcode; fin = fin; payload = g.chunk } in
      rw nonzero (
        Talks-bind _
          (ws_recv_frame-data stream g.controls f fuel total rest sized.0 (omega arith)
            (Fits-IsSized total g.controls (omega arith) sized.1) (ground arith) (omega arith)
            (omega arith))
          (rw good t))

  -- Over a stream, a message of a server in one or more fragments, with PING and PONG frames
  -- before each of them, is delivered whole, with the opcode of its first fragment, text or
  -- binary, and each PING is answered, in order, by a PONG with its payload. The control frames
  -- are allowed by the RFC, the buffer has room for the message and one control frame more, its
  -- size is below 2^63, and the fuel is more than the fragments behind the first one, and than the
  -- control frames before each fragment.
  pub ws_recvmsg-fragments :
      (opcode : ℕ) (g : Fragment) (gs : List Fragment) (fuel total : ℕ) (rest : Bytes)
      → (opcode ≡ ws_opcode_text) ⊎ (opcode ≡ ws_opcode_binary)
      → All (λ h. IsSized fuel h.controls) (g ∷ gs)
      → length gs < fuel
      → length (chunks (g ∷ gs)) + 125 ≤ total
      → total < 2 ^ 63
      → Talks view
          (ws_recvmsg net draw fuel sock total)
          k
          (message_bytes opcode g gs ++ rest)
          (ok (record { opcode = opcode; payload = chunks (g ∷ gs) }))
          rest
          (fragment_replies (g ∷ gs))
  ws_recvmsg-fragments opcode g [] fuel total rest text' sized enough room small =
      let l = length-append g.chunk [] in
      let f : Frame = record { opcode = opcode; fin = true; payload = g.chunk } in
      rw (append_assoc (control_bytes g.controls) (server_frame f) rest) (
        ws_recvmsg_first opcode g true fuel total rest rest _ [] text' sized.0 (omega arith) small
          (rw append-nil (Talks-pure _ k rest)))
  ws_recvmsg-fragments opcode g (h ∷ gs) fuel total rest text' sized enough room small =
      let l = length-append g.chunk (chunks (h ∷ gs)) in
      let f : Frame = record { opcode = opcode; fin = false; payload = g.chunk } in
      let tail = fragment_bytes (h ∷ gs) ++ rest in
      rw
        (
          append_assoc (control_bytes g.controls ++ server_frame f) (fragment_bytes (h ∷ gs)) rest,
          append_assoc (control_bytes g.controls) (server_frame f) tail,
        )
        (ws_recvmsg_first opcode g false fuel total tail rest _ (fragment_replies (h ∷ gs)) text'
          sized.0 (omega arith) small
          (recv_continuation-fragments h gs fuel fuel total opcode g.chunk rest sized.1
            (omega arith) (omega arith) small))
