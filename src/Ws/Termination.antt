-- ===== src/Ws/Termination.antt =====
-- The loops of the WebSocket code end over every stream: with more fuel than there are bytes to
-- come, no call runs out of it.
use libndt.Err.{Err, message_size, value_too_large, ws_proto}
use libndt.Io.{Io, stuck}
use libndt.Net.{Draw, Net}
use libndt.Net.Reads.{
  Reads, Reads-bind, Reads-if, Reads-ignore, Reads-lift, Reads-no_room, Reads-pure, Reads-raise,
  Reads-recvn, Reads-sendn, Reads-weaken,
}
use libndt.Net.Stream.{Stream, View}
use libndt.Prelude.{Option, arith, length, ltb, not, suc, zero, ℕ, ◌++◌, ◌-◌, ◌==◌, ◌^◌, ◌≢◌, ◌≤◌}
use libndt.Prelude.Bytes.{Bytes}
use libndt.Types.{Socket, ws_opcode_continue}
use libndt.Ws.{
  Frame, Message, dispatch_frame, join_fragment, parse_header, recv_body, recv_continuation,
  recv_length, ws_prepare_frame, ws_recv_any_frame, ws_recv_frame, ws_recvmsg, ws_send_frame,
}
use libndt.Ws.Control.{prepare-view}

parse_header-ne-stuck : (b0 b1 : ℕ) → parse_header b0 b1 ≢ stuck
unfolding parse_header
parse_header-ne-stuck b0 b1 = ground arith

module _ {S K : Type 0} {net : Net S} {draw : Draw S} {sock : Socket} {view : S → View K} {k : K}
    (stream : Stream net draw sock view k) where
  recv_length-Reads : (room length7 : ℕ) → Reads view k room 0 (recv_length net sock length7)
  unfolding recv_length
  recv_length-Reads room length7 =
      Reads-if _ 0 _ _
        (Reads-weaken room 0 2 (omega arith) (omega arith)
          (Reads-bind _ room 2 0 (omega arith) (Reads-recvn stream room 2) (λ buf. Reads-pure _)))
        (Reads-if _ 0 _ _
          (Reads-weaken room 0 8 (omega arith) (omega arith) (
            Reads-bind _ room 8 0 (omega arith) (Reads-recvn stream room 8)
              (λ buf. Reads-if _ 0 _ _ (Reads-raise 0 _) (Reads-pure _))))
          (Reads-pure _))

  recv_body-Reads : (room n : ℕ) → Reads view k room 0 (recv_body net sock n)
  unfolding recv_body
  recv_body-Reads room n =
      Reads-if _ 0 _ _
        (Reads-weaken room 0 n (omega arith) (omega arith) (Reads-recvn stream room n))
        (Reads-pure _)

  recv_any_frame-Reads : (room total : ℕ) → Reads view k room 2 (ws_recv_any_frame net sock total)
  unfolding ws_recv_any_frame
  recv_any_frame-Reads room total = Reads-if _ 2 _ _ (Reads-raise 2 _) (
      Reads-bind _ room 2 0 (omega arith) (Reads-recvn stream room 2) (λ buf.
        Reads-bind _ room 0 0 (omega arith) (Reads-lift _ (parse_header-ne-stuck _ _)) (λ header.
          Reads-bind _ room 0 0 (omega arith) (recv_length-Reads room _) (λ n.
            Reads-if _ 0 _ _ (Reads-raise 0 _) (
              Reads-bind _ room 0 0 (omega arith) (recv_body-Reads room n)
                (λ body. Reads-pure _))))))

  send_frame-Reads :
      (room b : ℕ) (base : Option Bytes) (n : ℕ)
      → Reads view k room 0 (ws_send_frame net draw sock b base n)
  unfolding ws_send_frame
  send_frame-Reads room b base n =
      let bytes = λ (s : S). (ws_prepare_frame draw b base n s).0 in
      let next = λ (s : S). (ws_prepare_frame draw b base n s).1 in
      let same = λ (s : S). prepare-view stream b base n s in
      record {
        ends = λ s u h.
            (Reads-sendn stream room (bytes s)).ends (next s) (rw (same s) u) (rw (same s) h);
        keeps = λ s u. (Reads-sendn stream room (bytes s)).keeps (next s) (rw (same s) u);
        shrinks = λ s u.
            rw (same s) at ((Reads-sendn stream room (bytes s)).shrinks (next s) (rw (same s) u));
        costs = λ s a u e.
            rw (same s) at ((Reads-sendn stream room (bytes s)).costs (next s) a (rw (same s) u) e);
      }

  dispatch-Reads :
      (room : ℕ) (again : Io S Err Frame) (f : Frame)
      → Reads view k room 0 again
      → Reads view k room 0 (dispatch_frame net draw sock again f)
  unfolding dispatch_frame
  dispatch-Reads room again f r =
      Reads-if _ 0 _ _
        (Reads-bind _ room 0 0 (omega arith) (Reads-ignore (send_frame-Reads room _ _ _))
          (λ _. Reads-raise 0 _))
        (Reads-if _ 0 _ _ r (
          Reads-if _ 0 _ _
            (Reads-bind _ room 0 0 (omega arith) (send_frame-Reads room _ _ _) (λ _. r))
            (Reads-pure _)))

  pub ws_recv_frame-Reads :
      (fuel total : ℕ) → Reads view k fuel 2 (ws_recv_frame net draw fuel sock total)
  unfolding ws_recv_frame
  ws_recv_frame-Reads zero total = Reads-no_room 2
  ws_recv_frame-Reads (suc fuel) total = Reads-if _ 2 _ _ (Reads-raise 2 _) (
      Reads-bind _ fuel 2 0 (omega arith) (recv_any_frame-Reads (suc fuel) total) (λ f.
        dispatch-Reads fuel _ f
          (Reads-weaken fuel 0 2 (omega arith) (omega arith) (ws_recv_frame-Reads fuel total))))

  join_fragment-Reads :
      (room opcode : ℕ) (again : Bytes → Io S Err Message) (acc : Bytes) (f : Frame)
      → Reads view k room 0 (again (acc ++ f.payload))
      → Reads view k room 0 (join_fragment net draw again opcode acc f)
  unfolding join_fragment
  join_fragment-Reads room opcode again acc f r =
      Reads-if (ltb (2 ^ 64 - 1 - length f.payload) (length acc)) 0 _ _
        (Reads-raise 0 value_too_large)
        (Reads-if (not (f.opcode == ws_opcode_continue)) 0 _ _ (Reads-raise 0 ws_proto) (
          Reads-if f.fin 0 _ _ (Reads-pure (record { opcode = opcode; payload = acc ++ f.payload }))
            r))

  recv_continuation-Reads :
      (budget fuel total opcode : ℕ) (acc : Bytes)
      → fuel ≤ budget
      → Reads view k fuel 0 (recv_continuation net draw budget fuel sock total opcode acc)
  unfolding recv_continuation
  recv_continuation-Reads budget zero total opcode acc h = Reads-no_room 0
  recv_continuation-Reads budget (suc fuel) total opcode acc h =
      Reads-if _ 0 _ _
        (Reads-weaken (suc fuel) 0 2 (omega arith) (omega arith) (
          Reads-bind _ fuel 2 0 (omega arith)
            (Reads-weaken budget 2 2 h (omega arith)
              (ws_recv_frame-Reads budget (total - length acc)))
            (λ f.
              join_fragment-Reads fuel opcode _ acc f (
                recv_continuation-Reads budget fuel total opcode (acc ++ f.payload)
                  (omega arith)))))
        (Reads-raise 0 message_size)

  -- Over a stream with fewer bytes left to receive than the fuel, ws_recvmsg ends with a message
  -- or an error, never for want of fuel, whatever the bytes are; no input is put back, and a
  -- message that is returned has cost at least the two bytes of a frame header.
  pub ws_recvmsg-Reads :
      (fuel total : ℕ) → Reads view k fuel 2 (ws_recvmsg net draw fuel sock total)
  unfolding ws_recvmsg
  ws_recvmsg-Reads fuel total = Reads-if _ 2 _ _ (Reads-raise 2 _) (
      Reads-bind _ fuel 2 0 (omega arith) (ws_recv_frame-Reads fuel total) (λ f.
        Reads-if _ 0 _ _ (Reads-raise 0 _) (
          Reads-if _ 0 _ _ (Reads-pure _)
            (recv_continuation-Reads fuel fuel total f.opcode f.payload (omega arith)))))
