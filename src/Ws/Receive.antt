-- ===== src/Ws/Receive.antt =====
-- ws_recv_any_frame on the frames that a server sends.
use libndt.Err.{message_size}
use libndt.Io.{err, ok, pure}
use libndt.Io.Gives.{Gives, Gives-bind, Gives-lift_eq, Gives-pure, Gives-raise}
use libndt.Net.{Draw, Net}
use libndt.Net.Stream.{Stream, View, recvn-append}
use libndt.Prelude.{
  Bool, Bool-cases, [], arith, false, if◌then◌else◌, inl, inr, length, ltb, refl, suc, true, ℕ, ◌%◌,
  ◌++◌, ◌+◌, ◌/◌, ◌<◌, ◌==◌, ◌^◌, ◌∙◌, ◌∷◌, ◌≡◌, ◌≤◌, ◌⊎◌,
}
use libndt.Prelude.Bytes.{Bytes, top_bit}
use libndt.Types.{Socket, has}
use libndt.Ws.{Frame, length16, parse_header, recv_body, recv_length, ws_recv_any_frame}
use libndt.Ws.FirstBytes.{IsControl, IsServerHeader, parse_header_complete}
use libndt.Ws.Prepare.{eight_bytes, length64-eight_bytes}
use mathlib.Core.List.{append_assoc}

-- The payload length in its shortest form, behind the first byte of a frame that is not masked.
pub server_length : ℕ → Bytes
server_length n =
    if ltb n 126
    then n ∷ []
    else if ltb n (2 ^ 16)
    then 126 ∷ (n / 2 ^ 8 % 256) ∷ (n % 256) ∷ []
    else 127 ∷ eight_bytes n

pub first_byte_of : Bool → ℕ → ℕ
first_byte_of fin opcode = (if fin then 128 else 0) + opcode

-- A frame as a server sends it.
pub server_frame : Frame → Bytes
server_frame f = first_byte_of f.fin f.opcode ∷ server_length (length f.payload) ++ f.payload

-- The frames that RFC 6455 lets a server send.
pub record IsServerFrame (f : Frame) : Type 0 where
  pub defined : (f.opcode < 3) ⊎ ((8 ≤ f.opcode) × (f.opcode < 11))
  pub control_whole : IsControl f.opcode → (f.fin ≡ true) × (length f.payload ≤ 125)
  pub top_bit_clear : length f.payload < 2 ^ 63

-- The 7 bit length that stands for `n`.
abbrev length7_of : ℕ → ℕ
length7_of n = if ltb n 126 then n else if ltb n (2 ^ 16) then 126 else 127

-- What follows it.
extended_length : ℕ → Bytes
extended_length n =
    if ltb n 126
    then []
    else if ltb n (2 ^ 16)
    then (n / 2 ^ 8 % 256) ∷ (n % 256) ∷ []
    else eight_bytes n

server_length-split : (n : ℕ) → server_length n ≡ length7_of n ∷ extended_length n
unfolding server_length extended_length
server_length-split n = ground arith

parse_header-server_frame :
    (f : Frame)
    → IsServerFrame f
    → parse_header (first_byte_of f.fin f.opcode) (length7_of (length f.payload))
      ≡ ok (record { opcode = f.opcode; fin = f.fin; length7 = length7_of (length f.payload) })
unfolding first_byte_of
parse_header-server_frame f v =
    let b0 = (if f.fin then 128 else 0) + f.opcode in
    let b1 = length7_of (length f.payload) in
    let h : IsServerHeader b0 b1 = record {
      reserved_clear = ground (arith, v.defined);
      defined = ground (arith, v.defined);
      not_masked = ground arith;
      control_whole = λ c. ground (arith, v.defined, v.control_whole);
    } in
    parse_header_complete b0 b1 (ground (arith, v.defined)) (ground arith) h
    ∙ ground (arith, v.defined)

top_bit_clear-has : (n : ℕ) → n < 2 ^ 63 → has (n / 2 ^ 56 % 256) 0x80 ≡ false
unfolding has
top_bit_clear-has n h = ground (arith, top_bit (n / 2 ^ 56 % 256))

recv_length-small :
    {S : Type 0} (net : Net S) (sock : Socket) (n : ℕ) → n < 126 → recv_length net sock n ≡ pure n
unfolding recv_length
recv_length-small net sock n h = ground arith

module _ {S K : Type 0} {net : Net S} {draw : Draw S} {sock : Socket} {view : S → View K} {k : K}
    (stream : Stream net draw sock view k) (out : Bytes) where
  -- The view with this input.
  abbrev pub reading : Bytes → View K
  reading input = record { input = input; output = out; kept = k }

  recv_length-extended :
      (n : ℕ) (rest : Bytes)
      → n < 2 ^ 63
      → Gives view
          (recv_length net sock (length7_of n))
          (reading (extended_length n ++ rest))
          (ok n)
          (reading rest)
  unfolding extended_length
  recv_length-extended n rest h = elim (Bool-cases (ltb n 126)) [
    | inl small ↦ rw (small, recv_length-small net sock n (ground arith)) (Gives-pure n _)
    | inr more ↦ elim (Bool-cases (ltb n (2 ^ 16))) [
      | inl medium ↦
          let bytes : Bytes = (n / 2 ^ 8 % 256) ∷ (n % 256) ∷ [] in
          let e : length16 bytes ≡ n = unfold length16 in ground arith in
          rw (more, medium)
            (unfold recv_length in
              Gives-bind _ (recvn-append stream 2 bytes rest out refl) (rw e (Gives-pure n _)))
      | inr large ↦
          rw (more, large)
            (unfold recv_length in
              Gives-bind _ (recvn-append stream 8 (eight_bytes n) rest out refl) (
                rw (top_bit_clear-has n h, length64-eight_bytes n [] (omega arith))
                  (Gives-pure n _)))
    ]
  ]

  recv_body-payload :
      (payload rest : Bytes)
      → Gives view
          (recv_body net sock (length payload))
          (reading (payload ++ rest))
          (ok payload)
          (reading rest)
  unfolding recv_body
  recv_body-payload [] rest = Gives-pure [] _
  recv_body-payload (x ∷ xs) rest =
      let e : ltb 0 (suc (length xs)) ≡ true = ground arith in
      rw e (recvn-append stream (length (x ∷ xs)) (x ∷ xs) rest out refl)

  -- Over a stream, a frame of a server that the RFC allows, whose payload fits in a buffer that is
  -- not empty, is received whole, and what follows it is left.
  pub recv_any-server_frame :
      (f : Frame) (total : ℕ) (rest : Bytes)
      → IsServerFrame f
      → length f.payload ≤ total
      → 0 < total
      → Gives view
          (ws_recv_any_frame net sock total)
          (reading (server_frame f ++ rest))
          (ok f)
          (reading rest)
  unfolding ws_recv_any_frame server_frame
  recv_any-server_frame f total rest v fits pos =
      let n = length f.payload in
      let b0 = first_byte_of f.fin f.opcode in
      let nonzero : (total == 0) ≡ false = ground arith in
      let fitting : ltb total n ≡ false = ground arith in
      rw (nonzero, server_length-split n)
        (rw (append_assoc (extended_length n) f.payload rest) (
          Gives-bind _
            (recvn-append stream 2 (b0 ∷ length7_of n ∷ [])
              (extended_length n ++ (f.payload ++ rest)) out refl)
            (Gives-bind _ (Gives-lift_eq _ (parse_header-server_frame f v)) (
              Gives-bind _ (recv_length-extended n (f.payload ++ rest) (v.top_bit_clear))
                (rw fitting (Gives-bind _ (recv_body-payload f.payload rest) (Gives-pure _ _)))))))

  -- A frame that does not fit is refused behind its header: no byte of its payload is received.
  pub recv_any-too_large :
      (f : Frame) (total : ℕ) (rest : Bytes)
      → IsServerFrame f
      → total < length f.payload
      → 0 < total
      → Gives view
          (ws_recv_any_frame net sock total)
          (reading (server_frame f ++ rest))
          (err message_size)
          (reading (f.payload ++ rest))
  unfolding ws_recv_any_frame server_frame
  recv_any-too_large f total rest v larger pos =
      let n = length f.payload in
      let b0 = first_byte_of f.fin f.opcode in
      let nonzero : (total == 0) ≡ false = ground arith in
      let past : ltb total n ≡ true = ground arith in
      rw (nonzero, server_length-split n)
        (rw (append_assoc (extended_length n) f.payload rest) (
          Gives-bind _
            (recvn-append stream 2 (b0 ∷ length7_of n ∷ [])
              (extended_length n ++ (f.payload ++ rest)) out refl)
            (Gives-bind _ (Gives-lift_eq _ (parse_header-server_frame f v)) (
              Gives-bind _ (recv_length-extended n (f.payload ++ rest) (v.top_bit_clear))
                (rw past (Gives-raise message_size _))))))
