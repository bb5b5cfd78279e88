-- ===== src/Client/Steps/Logout.antt =====
-- recv_results_and_logout (include/libndt/libndt.hpp): the results up to the logout.
use libndt.Client.{Client, Json, Settings}
use libndt.Client.Steps.{read_results, recv_results_and_logout}
use libndt.Io.{Result, err, ok}
use libndt.Io.Gives.{Gives, Gives-bind, Gives-pure, Gives-raise}
use libndt.Msg.Expect.{msg_read-raw}
use libndt.Msg.Legacy.{Kept, at_view, wire}
use libndt.Net.{Draw, Net}
use libndt.Net.Stream.{Stream, View}
use libndt.Prelude.{
  All, List, [], arith, false, length, suc, zero, ℕ, ◌++◌, ◌+◌, ◌-◌, ◌<◌, ◌^◌, ◌∷◌, ◌≡◌,
}
use libndt.Prelude.Bytes.{Bytes}
use libndt.Sys.{Sys}
use libndt.Types.{
  Socket, has, max_loops, msg_logout, msg_results, protocol_flag_json, protocol_flag_websocket,
}
use mathlib.Core.List.{append_assoc}

-- The MSG_RESULTS messages with these bodies.
abbrev pub results_bytes : List Bytes → Bytes
results_bytes [] = []
results_bytes (b ∷ bs) = wire msg_results b ++ results_bytes bs

module _ {W J : Type 0} (sys : Sys W) {net : Net (Client W)} {draw : Draw (Client W)}
    {sock : Socket} {view : Client W → View Kept} {settings : Settings} {suite : List ℕ}
    (stream : Stream net draw sock view (settings, sock, suite))
    (sees : (s : Client W) → (view s).kept ≡ (s.settings, s.sock, s.granted_suite)) (json : Json J)
    (fuel : ℕ) (raw : has settings.protocol_flags protocol_flag_websocket ≡ false)
    (no_json : has settings.protocol_flags protocol_flag_json ≡ false) where
  read_results-results :
      (bs : List Bytes) (rounds rounds' : ℕ) (i i' out : Bytes) (r : Result Unit Unit)
      → rounds' ≡ length bs + rounds
      → All (λ b. length b < 2 ^ 16) bs
      → Gives view
          (read_results sys net draw json fuel rounds)
          (at_view stream sees json fuel i out)
          r
          (at_view stream sees json fuel i' out)
      → Gives view
          (read_results sys net draw json fuel rounds')
          (at_view stream sees json fuel (results_bytes bs ++ i) out)
          r
          (at_view stream sees json fuel i' out)
  unfolding read_results
  read_results-results [] rounds rounds' i i' out r e h g =
      let e' : rounds' ≡ rounds = omega arith in rw e' g
  read_results-results (b ∷ bs) rounds zero i i' out r e h g = absurd (omega arith)
  read_results-results (b ∷ bs) rounds (suc rounds') i i' out r e h g =
      rw (append_assoc (wire msg_results b) (results_bytes bs) i) (
        Gives-bind _
          (msg_read-raw stream sees json fuel msg_results b (results_bytes bs ++ i) out raw no_json
            h.0)
          (read_results-results bs rounds rounds' i i' out r (omega arith) h.1 g))

  -- Over a stream, without WebSocket and without JSON: fewer than 256 MSG_RESULTS messages and then
  -- a MSG_LOGOUT, each with fewer than 2^16 bytes, end the step well, and what follows is left.
  pub recv_results_and_logout-logout :
      (bs : List Bytes) (last rest out : Bytes)
      → length bs < max_loops
      → All (λ b. length b < 2 ^ 16) bs
      → length last < 2 ^ 16
      → Gives view
          (recv_results_and_logout sys net draw json fuel)
          (at_view stream sees json fuel (results_bytes bs ++ (wire msg_logout last ++ rest)) out)
          (ok tt)
          (at_view stream sees json fuel rest out)
  unfolding recv_results_and_logout
  recv_results_and_logout-logout bs last rest out few h short =
      let n = max_loops - length bs - 1 in
      read_results-results bs (suc n) max_loops (wire msg_logout last ++ rest) rest out (ok tt)
        (omega arith) h
        (unfold read_results in
          Gives-bind _
            (msg_read-raw stream sees json fuel msg_logout last rest out raw no_json short)
            (Gives-pure tt _))

  -- Over a stream, without WebSocket and without JSON: 256 MSG_RESULTS messages, each with fewer
  -- than 2^16 bytes, make the step fail, and nothing behind them is read, a MSG_LOGOUT neither.
  recv_results_and_logout-too_many :
      (bs : List Bytes) (rest out : Bytes)
      → length bs ≡ max_loops
      → All (λ b. length b < 2 ^ 16) bs
      → Gives view
          (recv_results_and_logout sys net draw json fuel)
          (at_view stream sees json fuel (results_bytes bs ++ rest) out)
          (err tt)
          (at_view stream sees json fuel rest out)
  unfolding recv_results_and_logout
  recv_results_and_logout-too_many bs rest out many h =
      read_results-results bs 0 max_loops rest rest out (err tt) (omega arith) h
        (unfold read_results in Gives-raise tt _)
