-- ===== src/Transfer/Ndt7/Messages.antt =====
-- The loop of ndt7_download (include/libndt/libndt.hpp) over the messages of a server.
use libndt.Client.{Client, Json, Settings}
use libndt.Io.{ok}
use libndt.Msg.Legacy.{Kept}
use libndt.Net.{Draw, Net}
use libndt.Net.Stream.{Stream, View}
use libndt.Prelude.{
  All, List, [], ap, arith, false, length, ltb, refl, suc, sym, zero, ℕ, ◌%◌, ◌*◌, ◌++◌, ◌+◌, ◌-◌,
  ◌<◌, ◌^◌, ◌∙◌, ◌∷◌, ◌≡◌, ◌≤◌, ◌⊎◌,
}
use libndt.Prelude.Bytes.{Bytes}
use libndt.Transfer.{Clock, Numerals, one_second}
use libndt.Transfer.Ndt7.{
  Progress, Transferred, advance, after_message, download_bufsiz, download_loop, note_message,
  report_download,
}
use libndt.Transfer.Ndt7.Download.{IsApart, note-view, own_socket, report-view}
use libndt.Types.{Socket, ws_opcode_binary, ws_opcode_text}
use libndt.Ws.{Message, ws_recvmsg}
use libndt.Ws.Control.{control_bytes}
use libndt.Ws.Fragments.{Fragment, IsSized, chunks, message_bytes, ws_recvmsg-fragments}
use libndt.Ws.Messages.{close_frame, ws_recvmsg-close}
use libndt.Ws.Receive.{server_frame}
use mathlib.Core.List.{append_assoc}

-- A message of the server, in one or more fragments.
pub record Piece : Type 0 where
  pub opcode : ℕ
  pub first : Fragment
  pub others : List Fragment

abbrev pub piece_payload : Piece → Bytes
piece_payload m = chunks (m.first ∷ m.others)

-- A text or binary message that fits in the buffer, with control frames that are allowed.
abbrev pub IsPiece : ℕ → Piece → Type 0
IsPiece budget m =
    ((m.opcode ≡ ws_opcode_text) ⊎ (m.opcode ≡ ws_opcode_binary))
    × All (λ h. IsSized budget h.controls) (m.first ∷ m.others)
    × (length m.others < budget)
    × (length (piece_payload m) + 125 ≤ download_bufsiz)

-- What the server sends: its messages, and a CLOSE frame.
abbrev pub download_bytes : List Piece → Bytes → Bytes
download_bytes [] reason = server_frame (close_frame reason)
download_bytes (m ∷ ms) reason = message_bytes m.opcode m.first m.others ++ download_bytes ms reason

abbrev pub payload_bytes : List Piece → ℕ
payload_bytes [] = 0
payload_bytes (m ∷ ms) = length (piece_payload m) + payload_bytes ms

ltb_of : (a b : ℕ) → b ≤ a → ltb a b ≡ false
ltb_of a b h = ground arith

module _ {W J : Type 0} {net : Net (Client W)} {draw : Draw (Client W)} {sock : Socket}
    {view : Client W → View Kept} {settings : Settings} {suite : List ℕ}
    (stream : Stream net draw sock view (settings, sock, suite))
    (sees : (s : Client W) → (view s).kept ≡ (s.settings, s.sock, s.granted_suite))
    (clock : Clock W) (json : Json J) (numerals : Numerals J)
    (apart : IsApart stream sees clock json numerals) where
  -- The client when ws_recvmsg is called in a round.
  abbrev reported_at : Progress → Client W → Client W
  reported_at p s = report_download (clock s.world).0 p (record s { world = (clock s.world).1 })

  reported_at-view : (p : Progress) (s : Client W) → view (reported_at p s) ≡ view s
  reported_at-view p s =
      report-view stream sees clock json numerals apart (clock s.world).0 p
        (record s { world = (clock s.world).1 })
      ∙ apart.ticks s

  reported_at-sock :
      (p : Progress) (s : Client W)
      → (view s).kept ≡ (settings, sock, suite)
      → (reported_at p s).sock ≡ sock
  reported_at-sock p s u =
      own_socket stream sees clock json numerals apart (reported_at p s)
        (rw (reported_at-view p s) u)

  -- The time is not up.
  in_time :
      (p : Progress) (s : Client W)
      → (view s).kept ≡ (settings, sock, suite)
      → (clock s.world).0 - p.begin ≤ settings.max_runtime * one_second
      → ltb (s.settings.max_runtime * one_second) ((clock s.world).0 - p.begin) ≡ false
  in_time p s u h =
      let set : s.settings ≡ settings = ap (λ (x : Kept). x.0) (sym (sees s) ∙ u) in
      rw set (ltb_of (settings.max_runtime * one_second) ((clock s.world).0 - p.begin) h)

  -- Over a stream, where the clock, the summary and the reports are no part of what is seen of a
  -- client, and the time is not up at any look at the clock: when the server sends messages, text
  -- or binary, in any fragments and with any PING and PONG frames between them, each short enough
  -- for the buffer, and then a CLOSE frame, the loop of ndt7_download succeeds, and has counted
  -- the bytes of their payloads on top of the bytes before, modulo 2^64. The fuel is more than the
  -- messages.
  pub download_loop-messages :
      (ms : List Piece) (reason rest out : Bytes) (budget fuel : ℕ) (p : Progress) (s : Client W)
      → view s ≡ record {
        input = download_bytes ms reason ++ rest;
        output = out;
        kept = (settings, sock, suite);
      }
      → All (IsPiece budget) ms
      → length reason ≤ 125
      → 0 < budget
      → length ms < fuel
      → p.total < 2 ^ 64
      → ((w : W) → (clock w).0 - p.begin ≤ settings.max_runtime * one_second)
      → (t : Transferred) × ((download_loop net draw clock json numerals budget fuel p s).0 ≡ ok t)
        × (t.total ≡ (p.total + payload_bytes ms) % 2 ^ 64)
  unfolding download_loop after_message advance control_bytes
  download_loop-messages ms reason rest out budget zero p s seen good short pos enough low prompt =
      absurd (omega arith)
  download_loop-messages [] reason rest out budget (suc fuel) p s seen good short pos enough low
        prompt =
      let kept : (view s).kept ≡ (settings, sock, suite) = ap (λ (x : View Kept). x.kept) seen in
      let own = reported_at-sock p s kept in
      let early = in_time p s kept (prompt s.world) in
      let (_, e, _, _) =
        (ws_recvmsg-close stream [] reason budget download_bufsiz rest (omega arith) (omega arith)
            tt short (omega arith)).at
          out (reported_at p s) (reported_at-view p s ∙ seen) in
      let done : Transferred = record { total = p.total; elapsed = (clock s.world).0 - p.begin } in
      (done, rw (early, own, e) refl, omega arith)
  download_loop-messages (m ∷ ms) reason rest out budget (suc fuel) p s seen good short pos enough
        low prompt =
      let kept : (view s).kept ≡ (settings, sock, suite) = ap (λ (x : View Kept). x.kept) seen in
      let own = reported_at-sock p s kept in
      let early = in_time p s kept (prompt s.world) in
      let (kind, sized, few, room) = good.0 in
      let more = download_bytes ms reason ++ rest in
      let split =
        append_assoc (message_bytes m.opcode m.first m.others) (download_bytes ms reason) rest in
      let (sent, e, _, v) =
        (ws_recvmsg-fragments stream m.opcode m.first m.others budget download_bufsiz more kind
            sized few room (omega arith)).at
          out (reported_at p s) (reported_at-view p s ∙ (rw split at seen)) in
      let got : Message = record { opcode = m.opcode; payload = piece_payload m } in
      let s3 = (ws_recvmsg net draw budget sock download_bufsiz (reported_at p s)).1 in
      let p' = advance (clock s.world).0 (length (piece_payload m)) p in
      let (t, e', sum) =
        download_loop-messages ms reason rest (out ++ sent) budget fuel p'
          (note_message json numerals got s3)
          (note-view stream sees clock json numerals apart got s3 ∙ v) good.1 short pos
          (omega arith) (omega arith) prompt in
      (t, rw (early, own, e) e', omega (arith, sum))
