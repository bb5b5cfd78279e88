-- ===== src/Runs/Replies.antt =====
-- The theorems on what the server replies, on settings and on timeouts at concrete inputs.
use libndt.Client.{Settings}
use libndt.Client.Steps.{recv_results_and_logout}
use libndt.Client.Steps.Logout.{recv_results_and_logout-logout, results_bytes}
use libndt.Io.{ok}
use libndt.Io.Gives.{Gives}
use libndt.Msg.Legacy.{Kept, wire}
use libndt.Net.Stream.{View}
use libndt.Prelude.{
  All, List, [], ap, arith, false, length, refl, suc, true, zero, ℕ, ◌++◌, ◌<◌, ◌^◌, ◌∷◌, ◌≡◌,
}
use libndt.Prelude.Bytes.{Bytes}
use libndt.Runs.System.{one_by_one}
use libndt.Runs.Wire.{plain, plain_json, wire-Stream, wire_draw, wire_net, wire_view}
use libndt.Types.{
  fd, has, msg_logout, nettest_flag_download_ext, protocol_flag_json, protocol_flag_websocket,
}

abbrev plain_view : Bytes → View Kept
plain_view i = record { input = i; output = []; kept = (plain, fd 3, []) }

plain_raw : has plain.protocol_flags protocol_flag_websocket ≡ false
unfolding has
plain_raw = refl

plain_no_json : has plain.protocol_flags protocol_flag_json ≡ false
unfolding has
plain_no_json = refl

recv_results_and_logout-logout_example :
    Gives wire_view
      (recv_results_and_logout one_by_one wire_net wire_draw plain_json 5)
      (plain_view (results_bytes ((7 ∷ []) ∷ [] ∷ []) ++ (wire msg_logout [] ++ 9 ∷ [])))
      (ok tt)
      (plain_view (9 ∷ []))
recv_results_and_logout-logout_example =
    recv_results_and_logout-logout one_by_one (wire-Stream (plain, fd 3, [])) (λ s. refl) plain_json
      5 plain_raw plain_no_json ((7 ∷ []) ∷ [] ∷ []) [] (9 ∷ []) [] (omega arith)
      (omega arith, (omega arith, tt)) (omega arith)

abbrev empties : ℕ → List Bytes
empties zero = []
empties (suc n) = [] ∷ empties n

length-empties : (n : ℕ) → length (empties n) ≡ n
length-empties zero = refl
length-empties (suc n) = ap suc (length-empties n)

empties-All : (n : ℕ) → All (λ b. length b < 2 ^ 16) (empties n)
empties-All zero = tt
empties-All (suc n) = (omega arith, empties-All n)

abbrev multi_stream : Settings
multi_stream = record plain { nettest_flags = nettest_flag_download_ext; protocol_flags = 14 }

multi_stream-has : has multi_stream.nettest_flags nettest_flag_download_ext ≡ true
unfolding has
multi_stream-has = refl
