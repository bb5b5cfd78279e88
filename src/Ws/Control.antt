-- ===== src/Ws/Control.antt =====
-- ws_send_frame, and ws_recv_frame over the frames that a server sends: control frames are taken
-- care of, and data frames are returned.
use libndt.Err.{Err}
use libndt.Io.{Io, Result, ok}
use libndt.Net.{Draw, Net}
use libndt.Net.Stream.{Stream, View}
use libndt.Prelude.{
  All, List, Option, [], arith, false, inr, length, none, refl, some, suc, true, zero, ℕ, ◌++◌, ◌+◌,
  ◌<◌, ◌==◌, ◌^◌, ◌∙◌, ◌∷◌, ◌≡◌, ◌≤◌,
}
use libndt.Prelude.Bytes.{Bytes, IsByte}
use libndt.Types.{Socket, ws_opcode_ping, ws_opcode_pong}
use libndt.Ws.{
  Frame, dispatch_frame, masked_body, random_printable_fill, ws_prepare_frame, ws_recv_frame,
  ws_send_frame, xor_mask,
}
use libndt.Ws.Prepare.{decode_frame-prepare, length-prepare}
use libndt.Ws.Receive.{IsServerFrame, recv_any-server_frame, server_frame}
use libndt.Ws.Talks.{Frames-one, Talks, Talks-bind, Talks-quiet}
use mathlib.Core.List.{append_assoc}

-- PING and PONG frames of a server, before a data frame.
pub data Control : Type 0 where
  ping pong : Bytes → Control

pub control_frame : Control → Frame
control_frame (ping p) = record { opcode = ws_opcode_ping; fin = true; payload = p }
control_frame (pong p) = record { opcode = ws_opcode_pong; fin = true; payload = p }

abbrev pub control_payload : Control → Bytes
control_payload (ping p) = p
control_payload (pong p) = p

-- The bytes of these frames.
unfoldable pub control_bytes : List Control → Bytes
control_bytes [] = []
control_bytes (c ∷ cs) = server_frame (control_frame c) ++ control_bytes cs

-- The frames that answer them: a PONG with the payload of each PING, in their order.
abbrev pub pong_byte : ℕ
pong_byte = 0x8a

abbrev pub close_byte : ℕ
close_byte = 0x88

pub replies : List Control → List (ℕ × Bytes)
replies [] = []
replies (ping p ∷ cs) = (pong_byte, p) ∷ replies cs
replies (pong p ∷ cs) = replies cs

-- The payload is bytes, is short, and fits in the buffer of the caller.
abbrev pub Fits : ℕ → Control → Type 0
Fits total c =
    All IsByte (control_payload c)
    × (length (control_payload c) ≤ 125)
    × (length (control_payload c) ≤ total)

replies-cons :
    (c : Control) (cs : List Control) (fs : List (ℕ × Bytes))
    → replies (c ∷ []) ++ (replies cs ++ fs) ≡ replies (c ∷ cs) ++ fs
unfolding replies
replies-cons (ping p) cs fs = refl
replies-cons (pong p) cs fs = refl

payload-control_frame : (c : Control) → (control_frame c).payload ≡ control_payload c
unfolding control_frame
payload-control_frame (ping p) = refl
payload-control_frame (pong p) = refl

module _ {S K : Type 0} {net : Net S} {draw : Draw S} {sock : Socket} {view : S → View K} {k : K}
    (stream : Stream net draw sock view k) where
  fill-view : (n : ℕ) (s : S) → view (random_printable_fill draw n s).1 ≡ view s
  unfolding random_printable_fill
  fill-view zero s = refl
  fill-view (suc n) s = fill-view n (draw s).1 ∙ stream.draws s

  pub prepare-view :
      (b : ℕ) (base : Option Bytes) (n : ℕ) (s : S)
      → view (ws_prepare_frame draw b base n s).1 ≡ view s
  unfolding ws_prepare_frame
  prepare-view b base n s = fill-view 4 s

module _ {S K : Type 0} {net : Net S} {draw : Draw S} {sock : Socket} {view : S → View K} {k : K}
    (stream : Stream net draw sock view k) where
  -- A frame that is sent has its first byte and its payload.
  pub ws_send_frame-Talks :
      (b : ℕ) (payload i : Bytes)
      → All IsByte payload
      → length payload + 14 < 2 ^ 63
      → Talks view
          (ws_send_frame net draw sock b (some payload) (length payload))
          k
          i
          (ok tt)
          i
          ((b, payload) ∷ [])
  unfolding ws_send_frame
  ws_send_frame-Talks b payload i hp hl = record {
    at = λ out s h.
        let n = length payload in
        let p = ws_prepare_frame draw b (some payload) n s in
        let g =
          (stream.sendn p.0 i out (omega (arith, length-prepare draw b payload s, hl))).at p.1
            (prepare-view stream b (some payload) n s ∙ h) in
        (
          p.0,
          g.0,
          Frames-one b payload (record {
            decoded = λ rest. decode_frame-prepare draw b payload rest s hp (omega arith);
          }),
          g.1,
        );
  }

  -- The same with a null buffer.
  pub ws_send_frame-Talks_null :
      (b : ℕ) (i : Bytes)
      → Talks view (ws_send_frame net draw sock b none 0) k i (ok tt) i ((b, []) ∷ [])
  unfolding ws_send_frame
  ws_send_frame-Talks_null b i =
      unfold ws_prepare_frame masked_body xor_mask in ws_send_frame-Talks b [] i tt (omega arith)

  IsServerFrame-control :
      (c : Control) → length (control_payload c) ≤ 125 → IsServerFrame (control_frame c)
  unfolding control_frame
  IsServerFrame-control (ping p) h = record {
    defined = inr (omega arith);
    control_whole = λ _. (refl, h);
    top_bit_clear = omega arith;
  }
  IsServerFrame-control (pong p) h = record {
    defined = inr (omega arith);
    control_whole = λ _. (refl, h);
    top_bit_clear = omega arith;
  }

  -- What dispatch_frame makes of a PING or a PONG, before it reads again.
  dispatch-control :
      (c : Control) (total : ℕ) (again : Io S Err Frame) (i i' : Bytes) (r : Result Err Frame)
      (fs : List (ℕ × Bytes))
      → Fits total c
      → Talks view again k i r i' fs
      → Talks view
          (dispatch_frame net draw sock again (control_frame c))
          k
          i
          r
          i'
          (replies (c ∷ []) ++ fs)
  unfolding dispatch_frame control_frame replies
  dispatch-control (ping p) total again i i' r fs h t =
      Talks-bind _ (ws_send_frame-Talks pong_byte p i h.0 (omega arith)) t
  dispatch-control (pong p) total again i i' r fs h t = t

  -- PINGs are answered and PONGs are skipped, one after the other, before the next frame is read.
  pub ws_recv_frame-controls :
      (cs : List Control) (fuel fuel' total : ℕ) (i i' : Bytes) (r : Result Err Frame)
      (fs : List (ℕ × Bytes))
      → fuel' ≡ length cs + fuel
      → 0 < total
      → All (Fits total) cs
      → Talks view (ws_recv_frame net draw fuel sock total) k i r i' fs
      → Talks view
          (ws_recv_frame net draw fuel' sock total)
          k
          (control_bytes cs ++ i)
          r
          i'
          (replies cs ++ fs)
  unfolding control_bytes ws_recv_frame
  ws_recv_frame-controls [] fuel fuel' total i i' r fs e pos h t =
      let e' : fuel' ≡ fuel = omega arith in unfold replies in rw e' t
  ws_recv_frame-controls (c ∷ cs) fuel zero total i i' r fs e pos h t = absurd (omega arith)
  ws_recv_frame-controls (c ∷ cs) fuel (suc fuel') total i i' r fs e pos h t =
      let nonzero : (total == 0) ≡ false = ground arith in
      let f = control_frame c in
      let fits : length f.payload ≤ total = rw (payload-control_frame c) (h.0.2) in
      let more = control_bytes cs ++ i in
      rw (nonzero, append_assoc (server_frame f) (control_bytes cs) i, ← replies-cons c cs fs)
        (Talks-bind _
          (Talks-quiet λ out.
            recv_any-server_frame stream out f total more (IsServerFrame-control c h.0.1) fits pos)
          (dispatch-control c total _ more i' r (replies cs ++ fs) h.0
            (ws_recv_frame-controls cs fuel fuel' total i i' r fs (omega arith) pos h.1 t)))
