-- ===== src/Ws/Messages.antt =====
-- ws_recv_frame on whole exchanges: data frames and CLOSE.
use libndt.Err.{Err, eof}
use libndt.Io.{Io, err, ok, pure}
use libndt.Net.{Draw, Net}
use libndt.Net.Stream.{Stream, View}
use libndt.Prelude.{
  All, List, [], arith, false, inl, inr, length, refl, suc, true, ℕ, ◌++◌, ◌-◌, ◌<◌, ◌==◌, ◌^◌, ◌∷◌,
  ◌≡◌, ◌≤◌,
}
use libndt.Prelude.Bytes.{Bytes}
use libndt.Types.{Socket, ws_opcode_close}
use libndt.Ws.{Frame, dispatch_frame, ws_recv_frame, ws_recvmsg}
use libndt.Ws.Control.{
  Control, Fits, close_byte, control_bytes, replies, ws_recv_frame-controls,
  ws_send_frame-Talks_null,
}
use libndt.Ws.Receive.{IsServerFrame, recv_any-server_frame, server_frame}
use libndt.Ws.Talks.{
  Talks, Talks-bind, Talks-bind_err, Talks-ignore, Talks-pure, Talks-quiet, Talks-raise,
}
use mathlib.Core.List.{append-nil}

abbrev pub close_frame : Bytes → Frame
close_frame reason = record { opcode = ws_opcode_close; fin = true; payload = reason }

dispatch-data :
    {S : Type 0} (net : Net S) (draw : Draw S) (sock : Socket) (again : Io S Err Frame) (f : Frame)
    → f.opcode < 3
    → dispatch_frame net draw sock again f ≡ pure f
unfolding dispatch_frame
dispatch-data net draw sock again f h = ground arith

module _ {S K : Type 0} {net : Net S} {draw : Draw S} {sock : Socket} {view : S → View K} {k : K}
    (stream : Stream net draw sock view k) where
  -- Over a stream, a data frame behind control frames is returned, and every PING before it is
  -- answered by a PONG with its payload. The control frames are fewer than the fuel and allowed by
  -- the RFC, all payloads fit in the buffer, which is not empty, and the data frame is shorter
  -- than 2^63.
  pub ws_recv_frame-data :
      (cs : List Control) (f : Frame) (fuel total : ℕ) (rest : Bytes)
      → length cs < fuel
      → 0 < total
      → All (Fits total) cs
      → f.opcode < 3
      → length f.payload < 2 ^ 63
      → length f.payload ≤ total
      → Talks view
          (ws_recv_frame net draw fuel sock total)
          k
          (control_bytes cs ++ (server_frame f ++ rest))
          (ok f)
          rest
          (replies cs)
  ws_recv_frame-data cs f fuel total rest enough pos h data' short fits =
      let nonzero : (total == 0) ≡ false = ground arith in
      let v : IsServerFrame f = record {
        defined = inl data';
        control_whole = λ c. absurd (omega arith);
        top_bit_clear = short;
      } in
      let n = fuel - length cs - 1 in
      let one : Talks view (ws_recv_frame net draw (suc n) sock total) k (server_frame f ++ rest)
          (ok f) rest [] =
        unfold ws_recv_frame in
        rw nonzero (
          Talks-bind _ (Talks-quiet λ out. recv_any-server_frame stream out f total rest v fits pos)
            (rw (dispatch-data net draw sock _ f data') (Talks-pure f k rest))) in
      rw append-nil at (
        ws_recv_frame-controls stream cs (suc n) fuel total (server_frame f ++ rest) rest (ok f) []
          (omega arith) pos h one)

  -- Over a stream, a CLOSE frame behind control frames is answered by an empty CLOSE frame after
  -- the PONGs, and the result is `eof`. The control frames are fewer than the fuel and allowed by
  -- the RFC, all payloads fit in the buffer, which is not empty, and the reason has at most 125
  -- bytes.
  pub ws_recv_frame-close :
      (cs : List Control) (reason : Bytes) (fuel total : ℕ) (rest : Bytes)
      → length cs < fuel
      → 0 < total
      → All (Fits total) cs
      → length reason ≤ 125
      → length reason ≤ total
      → Talks view
          (ws_recv_frame net draw fuel sock total)
          k
          (control_bytes cs ++ (server_frame (close_frame reason) ++ rest))
          (err eof)
          rest
          (replies cs ++ (close_byte, []) ∷ [])
  ws_recv_frame-close cs reason fuel total rest enough pos h short fits =
      let nonzero : (total == 0) ≡ false = ground arith in
      let f = close_frame reason in
      let v : IsServerFrame f = record {
        defined = inr (omega arith);
        control_whole = λ _. (refl, short);
        top_bit_clear = omega arith;
      } in
      let n = fuel - length cs - 1 in
      let one : Talks view (ws_recv_frame net draw (suc n) sock total) k (server_frame f ++ rest)
          (err eof) rest ((close_byte, []) ∷ []) =
        unfold ws_recv_frame dispatch_frame in
        rw nonzero (
          Talks-bind _ (Talks-quiet λ out. recv_any-server_frame stream out f total rest v fits pos)
            (Talks-bind _ (Talks-ignore (ws_send_frame-Talks_null stream close_byte rest))
              (Talks-raise eof k rest))) in
      ws_recv_frame-controls stream cs (suc n) fuel total (server_frame f ++ rest) rest (err eof) _
        (omega arith) pos h one

  -- So ws_recvmsg ends with `eof` too.
  pub ws_recvmsg-close :
      (cs : List Control) (reason : Bytes) (fuel total : ℕ) (rest : Bytes)
      → length cs < fuel
      → 0 < total
      → All (Fits total) cs
      → length reason ≤ 125
      → length reason ≤ total
      → Talks view
          (ws_recvmsg net draw fuel sock total)
          k
          (control_bytes cs ++ (server_frame (close_frame reason) ++ rest))
          (err eof)
          rest
          (replies cs ++ (close_byte, []) ∷ [])
  unfolding ws_recvmsg
  ws_recvmsg-close cs reason fuel total rest enough pos h short fits =
      let nonzero : (total == 0) ≡ false = ground arith in
      rw nonzero
        (Talks-bind_err _ (ws_recv_frame-close cs reason fuel total rest enough pos h short fits))
