-- ===== src/Msg/Legacy.antt =====
-- msg_write_legacy and msg_read_legacy: what goes over the wire, with and without WebSocket.
use libndt.Client.{Client, Json, Settings, uses}
use libndt.Err.{Err}
use libndt.Io.{Io, err, ok}
use libndt.Io.Gives.{Gives, Gives-bind, Gives-on, Gives-pure, Gives-raise}
use libndt.Msg.{
  header_len, msg_header, msg_read_legacy, msg_write_legacy, read_raw, send_part, to_bool,
}
use libndt.Net.{Draw, Net}
use libndt.Net.Stream.{Stream, View, recvn-append}
use libndt.Prelude.{
  List, [], ap, arith, bit_or, false, get_or, length, ltb, refl, sym, true, ℕ, ◌++◌, ◌<◌, ◌==◌, ◌^◌,
  ◌∙◌, ◌∷◌, ◌≡◌, ◌≤◌,
}
use libndt.Prelude.Bytes.{Bytes}
use libndt.Types.{Socket, has, protocol_flag_websocket, ws_fin_flag, ws_opcode_continue}
use mathlib.Core.List.{append-nil, append_assoc}

-- The bytes of an NDT message.
abbrev pub wire : ℕ → Bytes → Bytes
wire code body = msg_header code (length body) ++ body

pub header_len-msg_header :
    (code len : ℕ) (more : Bytes) → len < 2 ^ 16 → header_len (msg_header code len ++ more) ≡ len
unfolding header_len msg_header
header_len-msg_header code len more h = ground arith

pub length-msg_header : (code len : ℕ) → length (msg_header code len) ≡ 3
unfolding msg_header
length-msg_header code len = refl

header_len-alone : (code len : ℕ) → len < 2 ^ 16 → header_len (msg_header code len) ≡ len
header_len-alone code len h = rw append-nil at (header_len-msg_header code len [] h)

get_or-msg_header : (code len : ℕ) → get_or (msg_header code len) 0 0 ≡ code
unfolding msg_header
get_or-msg_header code len = refl

-- The part of a client that networking leaves alone.
abbrev pub Kept : Type 0
Kept = Settings × Socket × List ℕ

-- The frames of a message over WebSocket: the header is one frame and the body another one.
abbrev pub wire_frames : ℕ → Bytes → List (ℕ × Bytes)
wire_frames code [] = (0x82, msg_header code 0) ∷ []
wire_frames code (x ∷ xs) = (0x02, msg_header code (length (x ∷ xs))) ∷ (0x80, x ∷ xs) ∷ []

module _ {W J : Type 0} {net : Net (Client W)} {draw : Draw (Client W)} {sock : Socket}
    {view : Client W → View Kept} {settings : Settings} {suite : List ℕ}
    (stream : Stream net draw sock view (settings, sock, suite))
    (sees : (s : Client W) → (view s).kept ≡ (s.settings, s.sock, s.granted_suite)) (json : Json J)
    (fuel : ℕ) where
  -- The view with this input and this output, of a client with these settings.
  abbrev pub at_view : Bytes → Bytes → View Kept
  at_view i out = record { input = i; output = out; kept = (settings, sock, suite) }

  sees_at :
      (s : Client W) (v : View Kept) → view s ≡ v → (s.settings, s.sock, s.granted_suite) ≡ v.kept
  sees_at s v h = sym (sees s) ∙ ap (λ (x : View Kept). x.kept) h

  pub Gives-to_bool :
      {A : Type 0} {m : Io (Client W) Err A} {v v' : View Kept} {a : A}
      → Gives view m v (ok a) v'
      → Gives view (to_bool m) v (ok a) v'
  Gives-to_bool {m} g = record {
    at = λ s h. (rw ((g.at s h).0, to_bool), rw ((g.at s h).0, to_bool) (g.at s h).1);
  }

  send_part-raw :
      (b : ℕ) (part i out : Bytes)
      → has settings.protocol_flags protocol_flag_websocket ≡ false
      → length part < 2 ^ 63
      → Gives view
          (send_part net draw json fuel b part)
          (at_view i out)
          (ok tt)
          (at_view i (out ++ part))
  unfolding send_part has
  send_part-raw b part i out raw small =
      Gives-on _ (to_bool (net.sendn sock part))
        (λ s h.
          let e = sees_at s _ h in
          let e1 : s.settings ≡ settings = ap (λ (x : Kept). x.0) e in
          let e2 : s.sock ≡ sock = ap (λ (x : Kept). x.1) e in
          let e3 : uses protocol_flag_websocket s ≡ false = rw e1 raw in rw (e3, e2))
        (Gives-to_bool (stream.sendn part i out small))

  -- Over a stream, without WebSocket, a body of fewer than 2^16 bytes is sent as the header, which
  -- has its type and its length, and then the body.
  pub msg_write_legacy-raw :
      (code : ℕ) (body i out : Bytes)
      → has settings.protocol_flags protocol_flag_websocket ≡ false
      → length body < 2 ^ 16
      → Gives view
          (msg_write_legacy net draw json fuel code body)
          (at_view i out)
          (ok tt)
          (at_view i (out ++ wire code body))
  unfolding msg_write_legacy msg_header
  msg_write_legacy-raw code [] i out raw h =
      Gives-bind _ (send_part-raw _ _ i out raw (omega arith)) (Gives-pure tt _)
  msg_write_legacy-raw code (x ∷ xs) i out raw h =
      let fits : ltb 65535 (length (x ∷ xs)) ≡ false = ground arith in
      let nonempty : (length (x ∷ xs) == 0) ≡ false = ground arith in
      let len = length (x ∷ xs) in
      let second =
        send_part-raw (bit_or ws_opcode_continue ws_fin_flag) (x ∷ xs) i
          (out ++ msg_header code len) raw (omega arith) in
      rw (fits, nonempty)
        (Gives-bind _ (send_part-raw _ (msg_header code len) i out raw (omega arith))
          (rw (append_assoc out (msg_header code len) (x ∷ xs)) at second))

  -- A body of 2^16 bytes or more is refused, and nothing is sent.
  msg_write_legacy-too_long :
      (code : ℕ) (body : Bytes) (v : View Kept)
      → 2 ^ 16 ≤ length body
      → Gives view (msg_write_legacy net draw json fuel code body) v (err tt) v
  unfolding msg_write_legacy
  msg_write_legacy-too_long code body v h =
      let long : ltb 65535 (length body) ≡ true = ground arith in rw long (Gives-raise tt v)

  read_raw-wire :
      (code : ℕ) (body rest out : Bytes)
      → length body < 2 ^ 16
      → Gives view
          (read_raw net draw json fuel sock)
          (at_view (wire code body ++ rest) out)
          (ok (record { code = code; body = body }))
          (at_view rest out)
  unfolding read_raw msg_header
  read_raw-wire code [] rest out h =
      let first =
        Gives-to_bool
          (recvn-append stream 3 (msg_header code 0) rest out (length-msg_header code 0)) in
      Gives-bind _ first (rw (header_len-alone code 0 h, get_or-msg_header code 0) (Gives-pure _ _))
  read_raw-wire code (x ∷ xs) rest out h =
      let len = length (x ∷ xs) in
      let nonempty : (len == 0) ≡ false = ground arith in
      let first = Gives-to_bool (
        recvn-append stream 3 (msg_header code len) (x ∷ xs ++ rest) out
          (length-msg_header code len)) in
      let second = Gives-to_bool (recvn-append stream len (x ∷ xs) rest out refl) in
      Gives-bind _ first (
        rw (header_len-alone code len h, get_or-msg_header code len, nonempty)
          (Gives-bind _ second (Gives-pure _ _)))

  -- Over a stream, without WebSocket, the bytes of a message, whose body has fewer than 2^16
  -- bytes, are read as its type and its body, and what follows them is left.
  pub msg_read_legacy-raw :
      (code : ℕ) (body rest out : Bytes)
      → has settings.protocol_flags protocol_flag_websocket ≡ false
      → length body < 2 ^ 16
      → Gives view
          (msg_read_legacy net draw json fuel)
          (at_view (wire code body ++ rest) out)
          (ok (record { code = code; body = body }))
          (at_view rest out)
  unfolding msg_read_legacy has
  msg_read_legacy-raw code body rest out raw h =
      Gives-on _ (read_raw net draw json fuel sock)
        (λ s g.
          let e = sees_at s _ g in
          let e1 : s.settings ≡ settings = ap (λ (x : Kept). x.0) e in
          let e2 : s.sock ≡ sock = ap (λ (x : Kept). x.1) e in
          let e3 : uses protocol_flag_websocket s ≡ false = rw e1 raw in rw (e3, e2))
        (read_raw-wire code body rest out h)
