-- ===== src/Msg/Frames.antt =====
-- msg_read_legacy (include/libndt/libndt.hpp) over WebSocket, where a message may come in fragments.
use libndt.Client.{Client, Json, Settings, uses}
use libndt.Err.{Err}
use libndt.Io.{Io, Result, ok}
use libndt.Msg.{
  header_len, max_msg_size, msg_header, msg_read_legacy, msg_write_legacy, read_ws, send_part,
  to_bool, unwrap_ws,
}
use libndt.Msg.Legacy.{Kept, header_len-msg_header, length-msg_header, wire, wire_frames}
use libndt.Net.{Draw, Net}
use libndt.Net.Stream.{Stream, View}
use libndt.Prelude.{
  All, List, [], ap, arith, false, inr, length, ltb, refl, some, suc, sym, true, ℕ, ◌++◌, ◌+◌, ◌-◌,
  ◌<◌, ◌==◌, ◌^◌, ◌∙◌, ◌∷◌, ◌≡◌, ◌≤◌,
}
use libndt.Prelude.Bytes.{Bytes, IsByte}
use libndt.Types.{Socket, has, protocol_flag_websocket, ws_opcode_binary}
use libndt.Ws.{ws_send_frame}
use libndt.Ws.Control.{ws_send_frame-Talks}
use libndt.Ws.Fragments.{
  Fragment, IsSized, chunks, fragment_replies, message_bytes, ws_recvmsg-fragments,
}
use libndt.Ws.Talks.{Talks, Talks-bind, Talks-pure}
use mathlib.Core.List.{append-nil}

module _ {W J : Type 0} {net : Net (Client W)} {draw : Draw (Client W)} {sock : Socket}
    {view : Client W → View Kept} {settings : Settings} {suite : List ℕ}
    (stream : Stream net draw sock view (settings, sock, suite))
    (sees : (s : Client W) → (view s).kept ≡ (s.settings, s.sock, s.granted_suite)) (json : Json J)
    (fuel : ℕ) where
  Talks-to_bool :
      {A : Type 0} {m : Io (Client W) Err A} {k : Kept} {i i' : Bytes} {fs : List (ℕ × Bytes)}
      {a : A}
      → Talks view m k i (ok a) i' fs
      → Talks view (to_bool m) k i (ok a) i' fs
  Talks-to_bool {m} t = record {
    at = λ out s h.
        let (sent, e, fr, v) = t.at out s h in (sent, rw (e, to_bool), fr, rw (e, to_bool) v);
  }

  Talks-on :
      {A : Type 0} (m m' : Io (Client W) Unit A) {k : Kept} {i i' : Bytes} {r : Result Unit A}
      {fs : List (ℕ × Bytes)}
      → ((s : Client W) → (view s).kept ≡ k → m s ≡ m' s)
      → Talks view m' k i r i' fs
      → Talks view m k i r i' fs
  Talks-on m m' same t = record {
    at = λ out s h.
        let (sent, e, fr, v) = t.at out s h in
        let e' = same s (ap (λ (x : View Kept). x.kept) h) in (sent, rw e' e, fr, rw e' v);
  }

  unwrap_ws-wire :
      (code : ℕ) (body i : Bytes)
      → length body < 2 ^ 15
      → Talks view
          (unwrap_ws net draw json fuel
            (record { opcode = ws_opcode_binary; payload = wire code body }))
          (settings, sock, suite)
          i
          (ok (record { code = code; body = body }))
          i
          []
  unfolding unwrap_ws msg_header
  unwrap_ws-wire code body i small =
      let head = header_len-msg_header code (length body) body (omega arith) in
      let whole : ltb (length (wire code body)) 3 ≡ false = ground arith in
      let same : (header_len (wire code body) == length (wire code body) - 3) ≡ true =
        rw head (ground arith) in
      rw (whole, same) (Talks-pure (record { code = code; body = body }) (settings, sock, suite) i)

  read_ws-fragments :
      (code : ℕ) (body : Bytes) (g : Fragment) (gs : List Fragment) (rest : Bytes)
      → chunks (g ∷ gs) ≡ wire code body
      → length body < 2 ^ 15
      → All (λ h. IsSized fuel h.controls) (g ∷ gs)
      → length gs < fuel
      → Talks view
          (read_ws net draw json fuel sock)
          (settings, sock, suite)
          (message_bytes ws_opcode_binary g gs ++ rest)
          (ok (record { code = code; body = body }))
          rest
          (fragment_replies (g ∷ gs))
  unfolding read_ws msg_header
  read_ws-fragments code body g gs rest e small sized enough =
      let long : length (wire code body) ≡ suc (suc (suc (length body))) = refl in
      let room : length (chunks (g ∷ gs)) + 125 ≤ max_msg_size = rw e (omega (arith, long)) in
      let got =
        ws_recvmsg-fragments stream ws_opcode_binary g gs fuel max_msg_size rest (inr refl) sized
          enough room (omega arith) in
      rw append-nil at (
        Talks-bind (unwrap_ws net draw json fuel) (Talks-to_bool (rw e at got))
          (unwrap_ws-wire code body rest small))

  -- Over a stream, with WebSocket, an NDT message that the server cuts into fragments of a binary
  -- message, with control frames before each of them, is read as its type and its body, and the
  -- PINGs are answered. The body has fewer than 2^15 bytes, the control frames are allowed by the
  -- RFC, and the fuel is more than the fragments behind the first one, and than the control frames
  -- before each fragment.
  pub msg_read_legacy-fragments :
      (code : ℕ) (body : Bytes) (g : Fragment) (gs : List Fragment) (rest : Bytes)
      → has settings.protocol_flags protocol_flag_websocket ≡ true
      → chunks (g ∷ gs) ≡ wire code body
      → length body < 2 ^ 15
      → All (λ h. IsSized fuel h.controls) (g ∷ gs)
      → length gs < fuel
      → Talks view
          (msg_read_legacy net draw json fuel)
          (settings, sock, suite)
          (message_bytes ws_opcode_binary g gs ++ rest)
          (ok (record { code = code; body = body }))
          rest
          (fragment_replies (g ∷ gs))
  unfolding msg_read_legacy has
  msg_read_legacy-fragments code body g gs rest ws e small sized enough =
      Talks-on _ (read_ws net draw json fuel sock)
        (λ s h.
          let e' = sym (sees s) ∙ h in
          let e1 : s.settings ≡ settings = ap (λ (x : Kept). x.0) e' in
          let e2 : s.sock ≡ sock = ap (λ (x : Kept). x.1) e' in
          let e3 : uses protocol_flag_websocket s ≡ true = rw e1 ws in rw (e3, e2))
        (read_ws-fragments code body g gs rest e small sized enough)

  send_part-ws :
      (b : ℕ) (part i : Bytes)
      → has settings.protocol_flags protocol_flag_websocket ≡ true
      → All IsByte part
      → length part + 14 < 2 ^ 63
      → Talks view
          (send_part net draw json fuel b part)
          (settings, sock, suite)
          i
          (ok tt)
          i
          ((b, part) ∷ [])
  unfolding send_part has
  send_part-ws b part i ws bytes small =
      Talks-on _ (to_bool (ws_send_frame net draw sock b (some part) (length part)))
        (λ s h.
          let e' = sym (sees s) ∙ h in
          let e1 : s.settings ≡ settings = ap (λ (x : Kept). x.0) e' in
          let e2 : s.sock ≡ sock = ap (λ (x : Kept). x.1) e' in
          let e3 : uses protocol_flag_websocket s ≡ true = rw e1 ws in rw (e3, e2))
        (Talks-to_bool (ws_send_frame-Talks stream b part i bytes small))

  msg_header-IsByte : (code len : ℕ) → code < 256 → All IsByte (msg_header code len)
  unfolding msg_header
  msg_header-IsByte code len h = (h, (omega arith, (omega arith, tt)))

  -- Over a stream, with WebSocket, a message is sent as one frame with its header, which is the
  -- last frame if the body is empty, and otherwise a continuation frame, the last one, with the
  -- body. The type fits in a byte, and the body is bytes, fewer than 2^16 of them.
  pub msg_write_legacy-wire_frames :
      (code : ℕ) (body i : Bytes)
      → has settings.protocol_flags protocol_flag_websocket ≡ true
      → code < 256
      → All IsByte body
      → length body < 2 ^ 16
      → Talks view
          (msg_write_legacy net draw json fuel code body)
          (settings, sock, suite)
          i
          (ok tt)
          i
          (wire_frames code body)
  unfolding msg_write_legacy
  msg_write_legacy-wire_frames code [] i ws small bytes h =
      Talks-bind _
        (send_part-ws 0x82 (msg_header code 0) i ws (msg_header-IsByte code 0 small)
          (rw (length-msg_header code 0) (omega arith)))
        (Talks-pure tt (settings, sock, suite) i)
  msg_write_legacy-wire_frames code (x ∷ xs) i ws small bytes h =
      let fits : ltb 65535 (length (x ∷ xs)) ≡ false = ground arith in
      let nonempty : (length (x ∷ xs) == 0) ≡ false = ground arith in
      let len = length (x ∷ xs) in
      rw (fits, nonempty)
        (Talks-bind _
          (send_part-ws 0x02 (msg_header code len) i ws (msg_header-IsByte code len small)
            (rw (length-msg_header code len) (omega arith)))
          (send_part-ws 0x80 (x ∷ xs) i ws bytes (omega (arith, h))))
