-- ===== src/Ws/Bounds.antt =====
-- What the receiving functions return, over any network, and what they do with a frame that does
-- not fit in the buffer of the caller.
use libndt.Err.{Err, eof, invalid_argument, message_size, value_too_large, ws_proto}
use libndt.Io.{Io, err, ok}
use libndt.Io.Gives.{Gives, Gives-bind_err}
use libndt.Io.Returns.{
  Returns, Returns-any, Returns-bind, Returns-fuel, Returns-if, Returns-lift, Returns-pure,
  Returns-raise,
}
use libndt.Net.{Draw, Net}
use libndt.Net.Stream.{Stream, View}
use libndt.Prelude.{
  [], arith, false, get_or, length, length-append, ltb, not, suc, true, zero, ℕ, ◌&&◌, ◌++◌, ◌-◌,
  ◌<◌, ◌==◌, ◌^◌, ◌≡◌, ◌≤◌, ◌⊎◌,
}
use libndt.Prelude.Bytes.{Bytes}
use libndt.Types.{
  Socket, ws_opcode_binary, ws_opcode_close, ws_opcode_continue, ws_opcode_ping, ws_opcode_pong,
  ws_opcode_text,
}
use libndt.Ws.{
  Frame, Header, Message, dispatch_frame, is_known_opcode, join_fragment, parse_header, recv_body,
  recv_continuation, recv_length, ws_recv_any_frame, ws_recv_frame, ws_recvmsg,
}
use libndt.Ws.Receive.{IsServerFrame, recv_any-too_large, server_frame}

-- netx_recvn fills the buffer that it was given, or fails.
pub record IsExact {S : Type 0} (net : Net S) (sock : Socket) : Type 0 where
  pub recvn : (n : ℕ) → Returns (net.recvn sock n) (λ a. length a ≡ n)

-- A frame that fits in a buffer of `total` bytes and has a defined opcode.
abbrev pub IsFitting : ℕ → Frame → Type 0
IsFitting total f = (length f.payload ≤ total) × (is_known_opcode f.opcode ≡ true)

-- A data frame that fits.
abbrev pub IsData : ℕ → Frame → Type 0
IsData total f = (length f.payload ≤ total) × (f.opcode < 3)

-- A text or binary message that fits.
abbrev pub IsFittingMessage : ℕ → Message → Type 0
IsFittingMessage total m =
    (length m.payload ≤ total) × ((m.opcode ≡ ws_opcode_text) ⊎ (m.opcode ≡ ws_opcode_binary))

known-parse_header :
    (b0 b1 : ℕ) (h : Header) → parse_header b0 b1 ≡ ok h → is_known_opcode h.opcode ≡ true
unfolding parse_header
known-parse_header b0 b1 h e = ground arith

data_opcode :
    (opcode : ℕ)
    → is_known_opcode opcode ≡ true
    → (opcode == ws_opcode_close) ≡ false
    → (opcode == ws_opcode_pong) ≡ false
    → (opcode == ws_opcode_ping) ≡ false
    → opcode < 3
unfolding is_known_opcode
data_opcode opcode h c p q = ground arith

module _ {S : Type 0} {net : Net S} (draw : Draw S) {sock : Socket} (exact : IsExact net sock) where
  recv_body-Returns : (n : ℕ) → Returns (recv_body net sock n) (λ a. length a ≡ n)
  unfolding recv_body
  recv_body-Returns n =
      Returns-if (ltb 0 n) _ _ (λ h. exact.recvn n) (λ h. Returns-pure _ [] (ground arith))

  pub recv_any_frame-Returns :
      (total : ℕ) → Returns (ws_recv_any_frame net sock total) (IsFitting total)
  unfolding ws_recv_any_frame
  recv_any_frame-Returns total =
      Returns-if (total == 0) _ _ (λ h. Returns-raise _ invalid_argument)
        (λ h.
          Returns-bind _ (λ buf. length buf ≡ 2) (exact.recvn 2)
            (λ buf l.
              Returns-bind _ (λ header. is_known_opcode header.opcode ≡ true)
                (Returns-lift _ (parse_header (get_or buf 0 0) (get_or buf 1 0))
                  (known-parse_header (get_or buf 0 0) (get_or buf 1 0)))
                (λ header known.
                  Returns-bind _ (λ n. Unit {0}) (Returns-any (recv_length net sock header.length7))
                    (λ n _.
                      Returns-if (ltb total n) _ _ (λ h. Returns-raise _ message_size)
                        (λ fits.
                          Returns-bind _ (λ body. length body ≡ n) (recv_body-Returns n)
                            (λ body e.
                              Returns-pure _
                                (record {
                                  opcode = header.opcode;
                                  fin = header.fin;
                                  payload = body;
                                })
                                (ground arith, known)))))))

  dispatch-Returns :
      (total : ℕ) (again : Io S Err Frame) (f : Frame)
      → IsFitting total f
      → Returns again (IsData total)
      → Returns (dispatch_frame net draw sock again f) (IsData total)
  unfolding dispatch_frame
  dispatch-Returns total again f h r =
      Returns-if (f.opcode == ws_opcode_close) _ _
        (λ c.
          Returns-bind _ (λ u. Unit {0}) (record { at = λ s a e. tt }) (λ u _. Returns-raise _ eof))
        (λ c.
          Returns-if (f.opcode == ws_opcode_pong) _ _ (λ p. r)
            (λ p.
              Returns-if (f.opcode == ws_opcode_ping) _ _
                (λ q. Returns-bind _ (λ u. Unit {0}) (record { at = λ s a e. tt }) (λ u _. r))
                (λ q. Returns-pure _ f (h.0, data_opcode f.opcode h.1 c p q))))

  -- Only data frames are returned, and none is larger than the buffer.
  pub ws_recv_frame-Returns :
      (fuel total : ℕ) → Returns (ws_recv_frame net draw fuel sock total) (IsData total)
  unfolding ws_recv_frame
  ws_recv_frame-Returns zero total = Returns-fuel _
  ws_recv_frame-Returns (suc fuel) total =
      Returns-if (total == 0) _ _ (λ h. Returns-raise _ invalid_argument)
        (λ h.
          Returns-bind _ (IsFitting total) (recv_any_frame-Returns total)
            (λ f fits. dispatch-Returns total _ f fits (ws_recv_frame-Returns fuel total)))

  recv_continuation-Returns :
      (budget fuel total opcode : ℕ) (acc : Bytes)
      → (opcode ≡ ws_opcode_text) ⊎ (opcode ≡ ws_opcode_binary)
      → Returns
          (recv_continuation net draw budget fuel sock total opcode acc)
          (IsFittingMessage total)
  unfolding recv_continuation join_fragment
  recv_continuation-Returns budget zero total opcode acc h = Returns-fuel _
  recv_continuation-Returns budget (suc fuel) total opcode acc h =
      Returns-if (ltb (length acc) total) _ _
        (λ room.
          Returns-bind _ (IsData (total - length acc))
            (ws_recv_frame-Returns budget (total - length acc))
            (λ f d.
              Returns-if (ltb (2 ^ 64 - 1 - length f.payload) (length acc)) _ _
                (λ _. Returns-raise _ value_too_large)
                (λ _.
                  Returns-if (not (f.opcode == ws_opcode_continue)) _ _
                    (λ _. Returns-raise _ ws_proto)
                    (λ _.
                      Returns-if f.fin _ _
                        (λ _.
                          let l = length-append acc f.payload in Returns-pure _ _ (ground arith, h))
                        (λ _.
                          recv_continuation-Returns budget fuel total opcode (acc ++ f.payload)
                            h)))))
        (λ _. Returns-raise _ message_size)

  -- Over any network whose netx_recvn fills its buffer or fails: a message that is returned is
  -- text or binary, and has at most `total` bytes, however the server cuts the message into frames.
  pub ws_recvmsg-Returns :
      (fuel total : ℕ) → Returns (ws_recvmsg net draw fuel sock total) (IsFittingMessage total)
  unfolding ws_recvmsg
  ws_recvmsg-Returns fuel total =
      Returns-if (total == 0) _ _ (λ h. Returns-raise _ invalid_argument)
        (λ h. Returns-bind _ (IsData total) (ws_recv_frame-Returns fuel total) (λ f d.
          Returns-if (not (f.opcode == ws_opcode_binary) && not (f.opcode == ws_opcode_text)) _ _
            (λ _. Returns-raise _ ws_proto)
            (λ good.
              Returns-if f.fin _ _ (λ _. Returns-pure _ _ (d.0, ground arith))
                (λ _.
                  recv_continuation-Returns fuel fuel total f.opcode f.payload (ground arith)))))

ws_recv_frame-too_large :
    {S K : Type 0} {net : Net S} {draw : Draw S} {sock : Socket} {view : S → View K} {k : K}
    (stream : Stream net draw sock view k) (f : Frame) (fuel total : ℕ) (rest out : Bytes)
    → IsServerFrame f
    → total < length f.payload
    → 0 < total
    → Gives view
        (ws_recv_frame net draw (suc fuel) sock total)
        (record { input = server_frame f ++ rest; output = out; kept = k })
        (err message_size)
        (record { input = f.payload ++ rest; output = out; kept = k })
unfolding ws_recv_frame
ws_recv_frame-too_large stream f fuel total rest out allowed larger pos =
    let nonzero : (total == 0) ≡ false = ground arith in
    let refused = recv_any-too_large stream out f total rest allowed larger pos in
    rw nonzero (Gives-bind_err _ refused)

-- Over a stream: where the first frame of a server, one that RFC 6455 allows, has a payload of more
-- than the `total` bytes of the caller's buffer, which is not empty, ws_recvmsg fails with
-- `message_size`, and has received the header of the frame only: its whole payload, and what
-- follows it, are left, so that nothing is written behind the end of the buffer.
pub ws_recvmsg-too_large :
    {S K : Type 0} {net : Net S} {draw : Draw S} {sock : Socket} {view : S → View K} {k : K}
    (stream : Stream net draw sock view k) (f : Frame) (fuel total : ℕ) (rest out : Bytes)
    → IsServerFrame f
    → total < length f.payload
    → 0 < total
    → Gives view
        (ws_recvmsg net draw (suc fuel) sock total)
        (record { input = server_frame f ++ rest; output = out; kept = k })
        (err message_size)
        (record { input = f.payload ++ rest; output = out; kept = k })
unfolding ws_recvmsg
ws_recvmsg-too_large stream f fuel total rest out allowed larger pos =
    let nonzero : (total == 0) ≡ false = ground arith in
    let frame = ws_recv_frame-too_large stream f fuel total rest out allowed larger pos in
    rw nonzero (Gives-bind_err _ frame)
