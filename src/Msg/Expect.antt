-- ===== src/Msg/Expect.antt =====
-- msg_read and msg_expect (include/libndt/libndt.hpp) without WebSocket and without JSON.
use libndt.Client.{Client, Json, Settings, uses}
use libndt.Io.{Result, err, ok, pure}
use libndt.Io.Gives.{Gives, Gives-bind, Gives-on, Gives-pure, Gives-raise}
use libndt.Msg.{Msg, decode_body, msg_expect, msg_read}
use libndt.Msg.Legacy.{Kept, at_view, msg_read_legacy-raw, wire}
use libndt.Net.{Draw, Net}
use libndt.Net.Stream.{Stream, View}
use libndt.Prelude.{
  Bool-cases, List, ap, false, if◌then◌else◌, inl, inr, length, refl, sym, ℕ, ◌++◌, ◌<◌, ◌==◌, ◌^◌,
  ◌∙◌, ◌≡◌,
}
use libndt.Prelude.Bytes.{Bytes}
use libndt.Types.{Socket, has, protocol_flag_json, protocol_flag_websocket}

-- What msg_expect makes of a message.
abbrev pub expected : ℕ → ℕ → Bytes → Result Unit Bytes
expected wanted code body = if code == wanted then ok body else err tt

module _ {W J : Type 0} {net : Net (Client W)} {draw : Draw (Client W)} {sock : Socket}
    {view : Client W → View Kept} {settings : Settings} {suite : List ℕ}
    (stream : Stream net draw sock view (settings, sock, suite))
    (sees : (s : Client W) → (view s).kept ≡ (s.settings, s.sock, s.granted_suite)) (json : Json J)
    (fuel : ℕ) where
  decode_body-plain :
      (m : Msg) (v : View Kept)
      → has settings.protocol_flags protocol_flag_json ≡ false
      → v.kept ≡ (settings, sock, suite)
      → Gives view (decode_body net draw json fuel m) v (ok m) v
  unfolding decode_body
  decode_body-plain m v no_json kept =
      Gives-on _ (pure m)
        (λ s h.
          let e = sym (sees s) ∙ (ap (λ (x : View Kept). x.kept) h ∙ kept) in
          let e1 : s.settings ≡ settings = ap (λ (x : Kept). x.0) e in
          let e2 : uses protocol_flag_json s ≡ false = rw e1 no_json in rw e2 refl)
        (Gives-pure m v)

  pub msg_read-raw :
      (code : ℕ) (body rest out : Bytes)
      → has settings.protocol_flags protocol_flag_websocket ≡ false
      → has settings.protocol_flags protocol_flag_json ≡ false
      → length body < 2 ^ 16
      → Gives view
          (msg_read net draw json fuel)
          (at_view stream sees json fuel (wire code body ++ rest) out)
          (ok (record { code = code; body = body }))
          (at_view stream sees json fuel rest out)
  unfolding msg_read
  msg_read-raw code body rest out raw no_json h =
      Gives-bind _ (msg_read_legacy-raw stream sees json fuel code body rest out raw h)
        (decode_body-plain _ _ no_json refl)

  -- Over a stream, without WebSocket and without JSON, a message, whose body has fewer than 2^16
  -- bytes, is consumed whole; its body is returned if it has the type that is expected, and there
  -- is an error otherwise.
  pub msg_expect-raw :
      (wanted code : ℕ) (body rest out : Bytes)
      → has settings.protocol_flags protocol_flag_websocket ≡ false
      → has settings.protocol_flags protocol_flag_json ≡ false
      → length body < 2 ^ 16
      → Gives view
          (msg_expect net draw json fuel wanted)
          (at_view stream sees json fuel (wire code body ++ rest) out)
          (expected wanted code body)
          (at_view stream sees json fuel rest out)
  unfolding msg_expect
  msg_expect-raw wanted code body rest out raw no_json h =
      Gives-bind _ (msg_read-raw code body rest out raw no_json h)
        (elim (Bool-cases (code == wanted)) [
          | inl e ↦ rw e (Gives-pure body _)
          | inr e ↦ rw e (Gives-raise tt _)
        ])
