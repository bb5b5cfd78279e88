-- ===== src/Runs/Transfers.antt =====
-- The theorems on the transfers at concrete inputs.
use libndt.Client.{Client}
use libndt.Io.{ok, stuck}
use libndt.Msg.Legacy.{Kept}
use libndt.Net.Reads.{Reads}
use libndt.Prelude.{
  All, List, Option, [], arith, inl, inr, none, refl, some, ℕ, ◌%◌, ◌*◌, ◌++◌, ◌+◌, ◌<◌, ◌^◌, ◌∷◌,
  ◌≡◌, ◌≢◌, ◌≤◌,
}
use libndt.Prelude.Bytes.{Bytes}
use libndt.Prelude.Text.{codes}
use libndt.Report.{represent}
use libndt.Report.Printable.{IsShown, represent-IsShown}
use libndt.Runs.Wire.{
  Wire, connected, over_ws, plain, plain_json, wire-Stream, wire_draw, wire_net, wire_view,
}
use libndt.Transfer.{Clock, Numerals, one_second}
use libndt.Transfer.Flows.{
  Plan, after_move, flow_turn, flow_turn_at, flows_turn, main_turn_at, run_turns, start_transfer,
  stopped, turn, watch,
}
use libndt.Transfer.Flows.Accounting.{
  IsAccounted, run_turns-IsAccounted, start_transfer-IsAccounted,
}
use libndt.Transfer.Flows.Deadline.{busy_turns, busy_turns-left, left_all}
use libndt.Transfer.Ndt7.{
  Progress, Transferred, after_message, download_loop, latest_report, report_download, upload_loop,
}
use libndt.Transfer.Ndt7.Download.{IsApart, download_loop-Reads, download_loop-in_time}
use libndt.Transfer.Ndt7.Messages.{IsPiece, Piece, download_bytes, download_loop-messages}
use libndt.Transfer.Ndt7.Upload.{IsForward, upload_loop-ends}
use libndt.Transfer.Web100.{find_text, is_blank, jsonify_line}
use libndt.Transfer.Web100.Blanks.{jsonify_line-found, last_or}
use libndt.Types.{Socket, fd, ws_opcode_binary, ws_opcode_text}
use libndt.Ws.{ws_recv_any_frame, ws_recv_frame, ws_recvmsg}
use libndt.Ws.Control.{ping}

-- A clock of a second for each look at it, which the seed of the wire counts.
abbrev second_clock : Clock Wire
second_clock w = (w.seed * one_second, record w { seed = w.seed + 1 })

-- Counters are not read, and no text is a number.
abbrev pub no_numerals : Numerals Bytes
no_numerals = record {
  stod = λ text. none;
  stoul = λ text. none;
  to_string = λ r. [];
  tcp_counter = λ m name. none;
}

abbrev ws_kept : Kept
ws_kept = (over_ws, fd 3, [])

second_clock-IsApart : IsApart (wire-Stream ws_kept) (λ s. refl) second_clock plain_json no_numerals
second_clock-IsApart = record {
  ticks = λ s. refl;
  summarized = λ s u. refl;
  reported = λ s reports. refl;
}

abbrev at_start : Progress
at_start = record { begin = 0; latest = 0; total = 0 }

download_loop-Reads_example :
    Reads wire_view ws_kept 50 0
      (download_loop wire_net wire_draw second_clock plain_json no_numerals 60 50 at_start)
download_loop-Reads_example =
    download_loop-Reads (wire-Stream ws_kept) (λ s. refl) second_clock plain_json no_numerals
      second_clock-IsApart 60 50 at_start (omega arith)

abbrev two_plans : Plan Wire
two_plans = record {
  tid = 32;
  prepare = λ s. ([], s);
  move = λ sock buffer s. (ok 100, s);
  clock = λ w. (20 * one_second, w);
  begin = 0;
  max_runtime = 14;
}

abbrev two_sockets : List Socket
two_sockets = fd 4 ∷ fd 5 ∷ []

abbrev any_client : Client Wire
any_client = connected plain (record { input = []; output = []; seed = 7 })

-- Three turns to start the threads, five for each of them, and a look at `active`.
abbrev some_turns : List ℕ
some_turns = 0 ∷ 0 ∷ 0 ∷ 1 ∷ 2 ∷ 2 ∷ 1 ∷ 1 ∷ 1 ∷ 2 ∷ 2 ∷ 2 ∷ 1 ∷ 0 ∷ []

run_turns-IsAccounted_example :
    IsAccounted two_sockets (run_turns two_plans some_turns (start_transfer two_sockets any_client))
run_turns-IsAccounted_example =
    run_turns-IsAccounted two_plans some_turns two_sockets (start_transfer two_sockets any_client)
      (omega arith) (start_transfer-IsAccounted two_plans two_sockets any_client)

some_turns-stopped :
    (run_turns two_plans some_turns (start_transfer two_sockets any_client)).main
    ≡ stopped (20 * one_second)
unfolding run_turns turn main_turn_at watch flows_turn flow_turn flow_turn_at after_move
some_turns-stopped = refl

busy_turns-left_example :
    busy_turns two_plans some_turns (start_transfer two_sockets any_client)
      + left_all (run_turns two_plans some_turns (start_transfer two_sockets any_client))
    ≤ left_all (start_transfer two_sockets any_client)
busy_turns-left_example =
    busy_turns-left two_plans (λ w. omega arith) (λ sock buffer s p. cc) some_turns
      (start_transfer two_sockets any_client)

-- A server that is gone after its upgrade.
abbrev over_ws_client : Client Wire
over_ws_client = connected over_ws (record { input = []; output = []; seed = 3 })

abbrev nothing_received : Transferred
nothing_received = record { total = 0; elapsed = 3 * one_second }

download_loop-nothing :
    (download_loop wire_net wire_draw second_clock plain_json no_numerals 60 2 at_start
      over_ws_client).0
    ≡ ok nothing_received
unfolding download_loop after_message report_download latest_report ws_recvmsg ws_recv_frame
    ws_recv_any_frame
download_loop-nothing = refl

download_loop-in_time_example : (3 * one_second ≤ 14 * one_second) × (0 < 2 ^ 64)
download_loop-in_time_example =
    download_loop-in_time (wire-Stream ws_kept) (λ s. refl) second_clock plain_json no_numerals
      second_clock-IsApart 60 2 at_start over_ws_client nothing_received refl (omega arith)
      download_loop-nothing

-- A clock that stands still.
abbrev still_clock : Clock Wire
still_clock w = (0, w)

still_clock-IsApart : IsApart (wire-Stream ws_kept) (λ s. refl) still_clock plain_json no_numerals
still_clock-IsApart = record {
  ticks = λ s. refl;
  summarized = λ s u. refl;
  reported = λ s reports. refl;
}

-- A measurement, then data in two fragments with a PING before the last one, then a CLOSE frame.
abbrev measurement_piece : Piece
measurement_piece = record {
  opcode = ws_opcode_text;
  first = record { controls = []; chunk = codes "{}" };
  others = [];
}

abbrev data_piece : Piece
data_piece = record {
  opcode = ws_opcode_binary;
  first = record { controls = []; chunk = 1 ∷ 2 ∷ 3 ∷ [] };
  others = record { controls = ping (7 ∷ []) ∷ []; chunk = 4 ∷ [] } ∷ [];
}

abbrev two_pieces : List Piece
two_pieces = measurement_piece ∷ data_piece ∷ []

two_pieces-IsPiece : All (IsPiece 8) two_pieces
two_pieces-IsPiece = (
  (inl refl, ((omega arith, tt), tt), omega arith, omega arith),
  (
    (
      inr refl,
      ((omega arith, tt), ((omega arith, (((omega arith, tt), omega arith), tt)), tt)),
      omega arith,
      omega arith,
    ),
    tt,
  ),
)

abbrev served_client : Client Wire
served_client =
    connected over_ws
      (record { input = download_bytes two_pieces [] ++ 9 ∷ []; output = []; seed = 3 })

download_loop-messages_example :
    (t : Transferred) × ((download_loop wire_net wire_draw still_clock plain_json no_numerals 8 5
        at_start served_client).0
      ≡ ok t)
    × (t.total ≡ 6 % 2 ^ 64)
download_loop-messages_example =
    download_loop-messages (wire-Stream ws_kept) (λ s. refl) still_clock plain_json no_numerals
      still_clock-IsApart two_pieces [] (9 ∷ []) [] 8 5 at_start served_client refl
      two_pieces-IsPiece (omega arith) (omega arith) (omega arith) (omega arith) (λ w. omega arith)

jsonify_line-found_example :
    find_text (codes "MinRTT") (jsonify_line (codes "MinRTT: 51") []) ≡ some (codes "51")
unfolding is_blank last_or
jsonify_line-found_example =
    jsonify_line-found [] (codes "MinRTT") [] (codes " ") (codes "51") [] [] tt tt (refl, tt) tt
      (refl, refl) (refl, refl) (refl, (refl, (refl, (refl, (refl, (refl, tt))))))

-- A text that would clear a screen.
abbrev clearing : Bytes
clearing = 27 ∷ codes "[2J"

represent-IsShown_example : All IsShown (represent clearing)
represent-IsShown_example =
    represent-IsShown clearing (omega arith, (omega arith, (omega arith, (omega arith, tt))))

-- A clock that is a second later at each look.
abbrev later_clock : Clock Wire
later_clock w = ((w.seed + 1) * one_second, record w { seed = w.seed + 1 })

abbrev no_tcp_info : Socket → Wire → Option (List (Bytes × ℕ)) × Wire
no_tcp_info sock w = (none, w)

later_clock-IsForward :
    IsForward wire_net wire_draw later_clock no_tcp_info (λ m. []) (λ s. s.world.seed * one_second)
later_clock-IsForward = record {
  ticks = λ s. (omega arith, omega arith);
  sends = λ sock bytes s. ((λ p. cc), omega arith);
  draws = λ s. omega arith;
  asks = λ s. omega arith;
  summarized = λ s u. omega arith;
  reported = λ s reports. omega arith;
}

-- After ten seconds.
abbrev late_client : Client Wire
late_client = connected over_ws (record { input = []; output = []; seed = 10 })

upload_loop-ends_example :
    (upload_loop wire_net wire_draw later_clock no_tcp_info
      (λ m. [])
      2
      (1 ∷ 2 ∷ [])
      at_start
      late_client).0
    ≢ stuck
upload_loop-ends_example =
    upload_loop-ends wire_net wire_draw later_clock no_tcp_info (λ m. [])
      (λ s. s.world.seed * one_second) later_clock-IsForward 2 (1 ∷ 2 ∷ []) at_start late_client
      (omega arith)
