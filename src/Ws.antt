-- ===== src/Ws.antt =====
-- include/libndt/libndt.hpp: the frames and messages of the WebSocket implementation
-- (random_printable_fill, ws_prepare_frame, ws_send_frame, ws_recv_any_frame, ws_recv_frame,
-- ws_recvmsg). A buffer `base` with its `count` is the list of its bytes; a null `base` is `none`.
pub mod Handshake
pub mod Prepare
pub mod FirstBytes
pub mod Receive
pub mod Talks
pub mod Control
pub mod Messages
pub mod Fragments
pub mod Termination
pub mod Bounds
use libndt.Err.{Err, eof, invalid_argument, message_size, value_too_large, ws_proto}
use libndt.Io.{Io, Result, err, ignore, lift, ok, out_of_fuel, pure, raise, ◌>>=◌, ◌>>◌}
use libndt.Net.{Draw, Net}
use libndt.Prelude.{
  Bool, Option, [], bit_and, bit_or, bit_xor, get_or, if◌then◌else◌, length, ltb, none, not, some,
  suc, take, zero, ℕ, ◌%◌, ◌&&◌, ◌*◌, ◌++◌, ◌+◌, ◌-◌, ◌/◌, ◌==◌, ◌^◌, ◌||◌, ◌∷◌,
}
use libndt.Prelude.Bytes.{Bytes}
use libndt.Prelude.Text.{codes}
use libndt.Types.{
  Socket, has, ws_fin_flag, ws_len_mask, ws_mask_flag, ws_opcode_binary, ws_opcode_close,
  ws_opcode_continue, ws_opcode_mask, ws_opcode_ping, ws_opcode_pong, ws_opcode_text,
  ws_reserved_mask,
}

-- The printable characters, from the space to the tilde.
abbrev pub printable : Bytes
printable =
    codes " !"
    ++ (0x22 ∷ codes "#$%&'()*+,-./"
        ++ (codes "0123456789"
            ++ (codes ":;<=>?@"
                ++ (codes "ABCDEFGHIJKLMNOPQRSTUVWXYZ"
                    ++ (0x5b ∷ 0x5c ∷ codes "]^_`"
                        ++ (codes "abcdefghijklmnopqrstuvwxyz" ++ codes "{|}~"))))))

-- base[i] ^ mask[i % mask_size], from the index `i` on.
pub xor_mask : Bytes → ℕ → Bytes → Bytes
xor_mask mask i [] = []
xor_mask mask i (b ∷ bs) = bit_xor b (get_or mask (i % 4) 0) ∷ xor_mask mask (i + 1) bs

-- The bytes that the macro LB writes: the length, big endian, behind the flag that says that the
-- payload is masked.
pub length_bytes : ℕ → Bytes
length_bytes count =
    if ltb count 126
    then bit_or (bit_and count ws_len_mask) ws_mask_flag ∷ []
    else if ltb count (2 ^ 16)
    then (bit_or (bit_and 126 ws_len_mask) ws_mask_flag
        ∷ (count / 2 ^ 8 % 256)
        ∷ (count % 256)
        ∷ [])
    else bit_or (bit_and 127 ws_len_mask) ws_mask_flag
      ∷ (count / 2 ^ 56 % 256)
      ∷ (count / 2 ^ 48 % 256)
      ∷ (count / 2 ^ 40 % 256)
      ∷ (count / 2 ^ 32 % 256)
      ∷ (count / 2 ^ 24 % 256)
      ∷ (count / 2 ^ 16 % 256)
      ∷ (count / 2 ^ 8 % 256)
      ∷ (count % 256)
      ∷ []

pub masked_body : Bytes → Option Bytes → ℕ → Bytes
masked_body mask none count = []
masked_body mask (some base) count = xor_mask mask 0 (take count base)

-- What a received frame carries.
pub record Frame : Type 0 where
  pub opcode : ℕ
  pub fin : Bool
  pub payload : Bytes

-- What a received message carries.
pub record Message : Type 0 where
  pub opcode : ℕ
  pub payload : Bytes

-- The opcode, the FIN flag and the 7 bit length in the first two bytes of a frame.
pub record Header : Type 0 where
  pub opcode : ℕ
  pub fin : Bool
  pub length7 : ℕ

unfoldable pub is_known_opcode : ℕ → Bool
is_known_opcode opcode =
    opcode == ws_opcode_continue
    || opcode == ws_opcode_text
    || opcode == ws_opcode_binary
    || opcode == ws_opcode_close
    || opcode == ws_opcode_ping
    || opcode == ws_opcode_pong

unfoldable pub is_control_opcode : ℕ → Bool
is_control_opcode opcode =
    opcode == ws_opcode_close || opcode == ws_opcode_ping || opcode == ws_opcode_pong

-- The checks of ws_recv_any_frame on the first two bytes, in their order.
unfoldable pub parse_header : ℕ → ℕ → Result Err Header
unfolding has is_known_opcode is_control_opcode
parse_header b0 b1 =
    let fin = has b0 ws_fin_flag in
    let opcode = bit_and b0 ws_opcode_mask in
    let length7 = bit_and b1 ws_len_mask in
    if has b0 ws_reserved_mask
    then err ws_proto
    else if not (is_known_opcode opcode)
    then err ws_proto
    else if has b1 ws_mask_flag
    then err invalid_argument
    else if is_control_opcode opcode && (ltb 125 length7 || not fin)
    then err ws_proto
    else ok (record { opcode = opcode; fin = fin; length7 = length7 })

-- A 16 bit length, and a 64 bit length, by the additions of the macro AL.
pub length16 : Bytes → ℕ
length16 buf = (get_or buf 0 0 * 2 ^ 8 + get_or buf 1 0) % 2 ^ 64

pub length64 : Bytes → ℕ
length64 buf =
    (get_or buf 0 0 * 2 ^ 56
      + get_or buf 1 0 * 2 ^ 48
      + get_or buf 2 0 * 2 ^ 40
      + get_or buf 3 0 * 2 ^ 32
      + get_or buf 4 0 * 2 ^ 24
      + get_or buf 5 0 * 2 ^ 16
      + get_or buf 6 0 * 2 ^ 8
      + get_or buf 7 0)
    % 2 ^ 64

module _ {S : Type 0} (draw : Draw S) where
  -- buffer[i] = ascii[g() % ascii.size()], `n` times.
  unfoldable pub random_printable_fill : ℕ → S → Bytes × S
  random_printable_fill zero s = ([], s)
  random_printable_fill (suc n) s =
      let (g, s1) = draw s in
      let (rest, s2) = random_printable_fill n s1 in
      (get_or printable (g % length printable) 0 ∷ rest, s2)

  -- The buffer that the caller passes is masked in place; no caller reads it again.
  unfoldable pub ws_prepare_frame : ℕ → Option Bytes → ℕ → S → Bytes × S
  ws_prepare_frame first_byte base count s =
      let (mask, s1) = random_printable_fill 4 s in
      (first_byte ∷ length_bytes count ++ (mask ++ masked_body mask base count), s1)

module _ {S : Type 0} (net : Net S) where
  pub recv_length : Socket → ℕ → Io S Err ℕ
  unfolding has
  recv_length sock length7 =
      if length7 == 126
      then (do buf ← net.recvn sock 2; pure (length16 buf))
      else if length7 == 127
      then (do
        buf ← net.recvn sock 8
        if has (get_or buf 0 0) 0x80 then raise ws_proto else pure (length64 buf))
      else pure length7

  pub recv_body : Socket → ℕ → Io S Err Bytes
  recv_body sock length = if ltb 0 length then net.recvn sock length else pure []

  -- The buffer of the caller holds `total` bytes.
  unfoldable pub ws_recv_any_frame : Socket → ℕ → Io S Err Frame
  ws_recv_any_frame sock total = if total == 0 then raise invalid_argument else do
    buf ← net.recvn sock 2
    header ← lift (parse_header (get_or buf 0 0) (get_or buf 1 0))
    length ← recv_length sock header.length7
    if ltb total length then raise message_size else do
      body ← recv_body sock length
      pure (record { opcode = header.opcode; fin = header.fin; payload = body })

module _ {S : Type 0} (net : Net S) (draw : Draw S) where
  unfoldable pub ws_send_frame : Socket → ℕ → Option Bytes → ℕ → Io S Err Unit
  ws_send_frame sock first_byte base count s =
      let (prep, s1) = ws_prepare_frame draw first_byte base count s in net.sendn sock prep s1

  -- What ws_recv_frame does with a frame; `again` is its `goto again`.
  pub dispatch_frame : Socket → Io S Err Frame → Frame → Io S Err Frame
  dispatch_frame sock again f =
      if f.opcode == ws_opcode_close
      then (do ignore (ws_send_frame sock (bit_or ws_opcode_close ws_fin_flag) none 0); raise eof)
      else if f.opcode == ws_opcode_pong
      then again
      else if f.opcode == ws_opcode_ping
      then (do
        ws_send_frame sock (bit_or ws_opcode_pong ws_fin_flag) (some f.payload) (length f.payload)
        again)
      else pure f

  -- `fuel` bounds the control frames that are read before a data frame.
  unfoldable pub ws_recv_frame : ℕ → Socket → ℕ → Io S Err Frame
  ws_recv_frame zero sock total = out_of_fuel
  ws_recv_frame (suc fuel) sock total =
      let again = ws_recv_frame fuel sock total in
      if total == 0
      then raise invalid_argument
      else do f ← ws_recv_any_frame net sock total; dispatch_frame sock again f

  -- What the loop of ws_recvmsg does with a frame, where `acc` is in the buffer.
  pub join_fragment : (Bytes → Io S Err Message) → ℕ → Bytes → Frame → Io S Err Message
  join_fragment again opcode acc f =
      if ltb (2 ^ 64 - 1 - length f.payload) (length acc)
      then raise value_too_large
      else if not (f.opcode == ws_opcode_continue)
      then raise ws_proto
      else if f.fin
      then pure (record { opcode = opcode; payload = acc ++ f.payload })
      else again (acc ++ f.payload)

  -- The loop of ws_recvmsg. `fuel` bounds its rounds.
  pub recv_continuation : ℕ → ℕ → Socket → ℕ → ℕ → Bytes → Io S Err Message
  recv_continuation budget zero sock total opcode acc = out_of_fuel
  recv_continuation budget (suc fuel) sock total opcode acc =
      let again = λ (acc' : Bytes). recv_continuation budget fuel sock total opcode acc' in
      if ltb (length acc) total
      then (do f ← ws_recv_frame budget sock (total - length acc); join_fragment again opcode acc f)
      else raise message_size

  unfoldable pub ws_recvmsg : ℕ → Socket → ℕ → Io S Err Message
  ws_recvmsg fuel sock total = if total == 0 then raise invalid_argument else do
    f ← ws_recv_frame fuel sock total
    if not (f.opcode == ws_opcode_binary) && not (f.opcode == ws_opcode_text)
        then raise ws_proto
        else if f.fin
        then pure (record { opcode = f.opcode; payload = f.payload })
        else recv_continuation fuel fuel sock total f.opcode f.payload
