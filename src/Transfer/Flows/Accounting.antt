-- ===== src/Transfer/Flows/Accounting.antt =====
-- The counters that the threads of run_download and run_upload (include/libndt/libndt.hpp) share,
-- in every order of their turns.
use libndt.Client.{Client}
use libndt.Prelude.{
  Bool-cases, List, [], ap, arith, inl, inr, length, refl, suc, zero, ℕ, ◌%◌, ◌++◌, ◌==◌, ◌^◌, ◌∷◌,
  ◌≡◌, ◌≤◌,
}
use libndt.Transfer.Flows.{
  MainAt, Plan, Transfer, main_turn_at, run_turns, spawning, start_transfer, stopped, turn, watch,
  watching,
}
use libndt.Transfer.Flows.Counts.{
  counted_by, counted_by-append, flow_socket, flows_turn-AllAccounts, live, live-append,
  live-sockets, sockets-append,
}
use libndt.Types.{Socket}
use mathlib.Core.List.{map}

-- The connections that have no thread yet.
abbrev pub pending : MainAt → List Socket
pending (spawning socks) = socks
pending _ = []

-- What holds of a transfer over these sockets: the counters agree with the threads, each socket
-- has its thread or is still to get one, in their order, and once the test goes on no thread runs.
pub record IsAccounted {W : Type 0} (socks : List Socket) (t : Transfer W) : Type 0 where
  pub active_agrees : t.shared.active ≡ live t.flows % 2 ^ 8
  pub total_agrees : t.shared.total_data ≡ counted_by t.flows % 2 ^ 64
  pub placed : map flow_socket t.flows ++ pending t.main ≡ socks
  pub quiet : (elapsed : ℕ) → t.main ≡ stopped elapsed → live t.flows ≡ 0

module _ {W : Type 0} (plan : Plan W) where
  watch-IsAccounted :
      (socks : List Socket) (t : Transfer W)
      → length socks ≤ 255
      → t.main ≡ watching
      → IsAccounted socks t
      → IsAccounted socks (watch plan t)
  unfolding watch
  watch-IsAccounted socks t few main h = elim (Bool-cases (t.shared.active == 0)) [
    | inl none_active ↦
        let all_placed : map flow_socket t.flows ++ [] ≡ socks = rw main at h.placed in
        let none_live : live t.flows ≡ 0 =
          ground (arith, h.active_agrees, live-sockets t.flows [], ap length all_placed) in
        rw none_active (record {
          active_agrees = h.active_agrees;
          total_agrees = h.total_agrees;
          placed = all_placed;
          quiet = λ elapsed e. none_live;
        })
    | inr some_active ↦ rw some_active (record {
      active_agrees = h.active_agrees;
      total_agrees = h.total_agrees;
      placed = h.placed;
      quiet = h.quiet;
    })
  ]

  main_turn_at-IsAccounted :
      (m : MainAt) (socks : List Socket) (t : Transfer W)
      → length socks ≤ 255
      → t.main ≡ m
      → IsAccounted socks t
      → IsAccounted socks (main_turn_at plan m t)
  unfolding main_turn_at
  main_turn_at-IsAccounted (spawning []) socks t few main h = record {
    active_agrees = h.active_agrees;
    total_agrees = h.total_agrees;
    placed = rw main at h.placed;
    quiet = λ elapsed e. cc;
  }
  main_turn_at-IsAccounted (spawning (sock ∷ more)) socks t few main h = record {
    active_agrees = rw (live-append t.flows sock) (omega (arith, h.active_agrees));
    total_agrees = rw (counted_by-append t.flows sock) h.total_agrees;
    placed = rw (sockets-append t.flows sock more) (rw main at h.placed);
    quiet = λ elapsed e. cc;
  }
  main_turn_at-IsAccounted watching socks t few main h = watch-IsAccounted socks t few main h
  main_turn_at-IsAccounted (stopped elapsed) socks t few main h = h

  turn-IsAccounted :
      (i : ℕ) (socks : List Socket) (t : Transfer W)
      → length socks ≤ 255
      → IsAccounted socks t
      → IsAccounted socks (turn plan i t)
  unfolding turn
  turn-IsAccounted zero socks t few h = main_turn_at-IsAccounted t.main socks t few refl h
  turn-IsAccounted (suc j) socks t few h =
      let all =
        flows_turn-AllAccounts plan j 0 0 t.flows t.shared (omega (arith, h.active_agrees))
          (omega (arith, h.total_agrees)) in
      record {
        active_agrees = omega (arith, all.active_agrees);
        total_agrees = omega (arith, all.total_agrees);
        placed = rw all.same_sockets h.placed;
        quiet = λ elapsed e. omega (arith, all.no_revival, h.quiet elapsed e);
      }

  -- Whatever the threads do in their turns, and whatever the order of the turns, for up to 255
  -- data connections: `active` is the number of threads that have not ended, `total_data` is the
  -- sum of what they have counted, as a 64 bit number, each socket has one thread or is still
  -- waiting for it, in their order, and once the test goes on no thread runs any more.
  pub run_turns-IsAccounted :
      (is : List ℕ) (socks : List Socket) (t : Transfer W)
      → length socks ≤ 255
      → IsAccounted socks t
      → IsAccounted socks (run_turns plan is t)
  unfolding run_turns
  run_turns-IsAccounted [] socks t few h = h
  run_turns-IsAccounted (i ∷ is) socks t few h =
      run_turns-IsAccounted is socks (turn plan i t) few (turn-IsAccounted i socks t few h)

  -- Before the first thread is started.
  pub start_transfer-IsAccounted :
      (socks : List Socket) (s : Client W) → IsAccounted socks (start_transfer socks s)
  unfolding live counted_by
  start_transfer-IsAccounted socks s = record {
    active_agrees = omega arith;
    total_agrees = omega arith;
    placed = refl;
    quiet = λ elapsed e. refl;
  }
