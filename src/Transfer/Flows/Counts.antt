-- ===== src/Transfer/Flows/Counts.antt =====
-- The threads of run_download and run_upload (include/libndt/libndt.hpp): what a turn of a thread
-- does to the counters that they share.
use libndt.Io.{Result, err, ok, stuck}
use libndt.Prelude.{
  Bool, List, [], ap, arith, false, if◌then◌else◌, length, ltb, refl, suc, true, zero, ℕ, ◌%◌, ◌*◌,
  ◌++◌, ◌+◌, ◌-◌, ◌^◌, ◌∷◌, ◌≡◌, ◌≤◌,
}
use libndt.Transfer.{one_second}
use libndt.Transfer.Flows.{
  Flow, FlowAt, Plan, Shared, after_move, counting, finished, flow_turn, flow_turn_at, flows_turn,
  leaving, moving, new_flow, starting, timing,
}
use libndt.Types.{Socket}
use mathlib.Core.List.{map}

abbrev pub is_live : FlowAt → ℕ
is_live finished = 0
is_live _ = 1

-- The threads that have not ended.
unfoldable pub live : List Flow → ℕ
live [] = 0
live (f ∷ fs) = is_live f.at + live fs

-- What the threads have counted.
unfoldable pub counted_by : List Flow → ℕ
counted_by [] = 0
counted_by (f ∷ fs) = f.counted + counted_by fs

abbrev pub flow_socket : Flow → Socket
flow_socket f = f.sock

pub live-append : (fs : List Flow) (sock : Socket) → live (fs ++ new_flow sock ∷ []) ≡ live fs + 1
unfolding live
live-append [] sock = refl
live-append (f ∷ fs) sock = omega (arith, live-append fs sock)

pub counted_by-append :
    (fs : List Flow) (sock : Socket) → counted_by (fs ++ new_flow sock ∷ []) ≡ counted_by fs
unfolding counted_by
counted_by-append [] sock = refl
counted_by-append (f ∷ fs) sock = omega (arith, counted_by-append fs sock)

pub sockets-append :
    (fs : List Flow) (sock : Socket) (more : List Socket)
    → map flow_socket (fs ++ new_flow sock ∷ []) ++ more ≡ map flow_socket fs ++ sock ∷ more
sockets-append [] sock more = refl
sockets-append (f ∷ fs) sock more =
    ap (λ (ss : List Socket). f.sock ∷ ss) (sockets-append fs sock more)

is_live_bound : (at : FlowAt) → is_live at ≤ 1
is_live_bound starting = omega arith
is_live_bound moving = omega arith
is_live_bound timing = omega arith
is_live_bound leaving = omega arith
is_live_bound finished = omega arith
is_live_bound (counting n) = omega arith

pub live-sockets :
    (fs : List Flow) (more : List Socket) → live fs ≤ length (map flow_socket fs ++ more)
unfolding live
live-sockets [] more = omega arith
live-sockets (f ∷ fs) more = omega (arith, is_live_bound f.at, live-sockets fs more)

module _ {W : Type 0} (plan : Plan W) where
  live_after_move : (r : Result Unit ℕ) → is_live (after_move plan r) ≡ 1
  unfolding after_move
  live_after_move (ok n) = refl
  live_after_move (err e) = refl
  live_after_move stuck = refl

  live_after_timing : (b : Bool) → is_live (if b then leaving else moving) ≡ 1
  live_after_timing true = refl
  live_after_timing false = refl

  -- A thread before and after a turn: what it is in the counters, and its socket.
  record Accounts (at : FlowAt) (a c : ℕ) (f : Flow) (r : Flow × Shared W) : Type 0 where
    active_agrees : r.1.active ≡ (a + is_live r.0.at) % 2 ^ 8
    total_agrees : r.1.total_data ≡ (c + r.0.counted) % 2 ^ 64
    no_revival : is_live r.0.at ≤ is_live at
    same_socket : r.0.sock ≡ f.sock

  flow_turn_at-Accounts :
      (at : FlowAt) (a c : ℕ) (f : Flow) (sh : Shared W)
      → f.at ≡ at
      → sh.active ≡ (a + is_live at) % 2 ^ 8
      → sh.total_data ≡ (c + f.counted) % 2 ^ 64
      → Accounts at a c f (flow_turn_at plan at f sh)
  unfolding flow_turn_at
  flow_turn_at-Accounts starting a c f sh same ha hc = record {
    active_agrees = ha;
    total_agrees = hc;
    no_revival = omega arith;
    same_socket = refl;
  }
  flow_turn_at-Accounts moving a c f sh same ha hc =
      let l = live_after_move (plan.move f.sock f.buffer sh.client).0 in
      record {
        active_agrees = rw l ha;
        total_agrees = hc;
        no_revival = rw l (omega arith);
        same_socket = refl;
      }
  flow_turn_at-Accounts (counting n) a c f sh same ha hc = record {
    active_agrees = ha;
    total_agrees = omega arith;
    no_revival = omega arith;
    same_socket = refl;
  }
  flow_turn_at-Accounts timing a c f sh same ha hc =
      let l =
        live_after_timing
          (ltb (plan.max_runtime * one_second) ((plan.clock sh.client.world).0 - plan.begin)) in
      record {
        active_agrees = rw l ha;
        total_agrees = hc;
        no_revival = rw l (omega arith);
        same_socket = refl;
      }
  flow_turn_at-Accounts leaving a c f sh same ha hc = record {
    active_agrees = omega arith;
    total_agrees = hc;
    no_revival = omega arith;
    same_socket = refl;
  }
  flow_turn_at-Accounts finished a c f sh same ha hc = record {
    active_agrees = rw same ha;
    total_agrees = hc;
    no_revival = rw same (omega arith);
    same_socket = refl;
  }

  -- The turn of one of the threads, next to others.
  pub record AllAccounts (a c : ℕ) (fs : List Flow) (r : List Flow × Shared W) : Type 0 where
    pub active_agrees : r.1.active ≡ (a + live r.0) % 2 ^ 8
    pub total_agrees : r.1.total_data ≡ (c + counted_by r.0) % 2 ^ 64
    pub no_revival : live r.0 ≤ live fs
    pub same_sockets : map flow_socket r.0 ≡ map flow_socket fs

  pub flows_turn-AllAccounts :
      (j a c : ℕ) (fs : List Flow) (sh : Shared W)
      → sh.active ≡ (a + live fs) % 2 ^ 8
      → sh.total_data ≡ (c + counted_by fs) % 2 ^ 64
      → AllAccounts a c fs (flows_turn plan j fs sh)
  unfolding flows_turn flow_turn live counted_by
  flows_turn-AllAccounts j a c [] sh ha hc = record {
    active_agrees = ha;
    total_agrees = hc;
    no_revival = omega arith;
    same_sockets = refl;
  }
  flows_turn-AllAccounts zero a c (f ∷ fs) sh ha hc =
      let own =
        flow_turn_at-Accounts f.at (a + live fs) (c + counted_by fs) f sh refl (omega arith)
          (omega arith) in
      record {
        active_agrees = omega (arith, own.active_agrees);
        total_agrees = omega (arith, own.total_agrees);
        no_revival = omega (arith, own.no_revival);
        same_sockets = ap (λ (s : Socket). s ∷ map flow_socket fs) own.same_socket;
      }
  flows_turn-AllAccounts (suc j) a c (f ∷ fs) sh ha hc =
      let others =
        flows_turn-AllAccounts j (a + is_live f.at) (c + f.counted) fs sh (omega arith)
          (omega arith) in
      record {
        active_agrees = omega (arith, others.active_agrees);
        total_agrees = omega (arith, others.total_agrees);
        no_revival = omega (arith, others.no_revival);
        same_sockets = ap (λ (ss : List Socket). f.sock ∷ ss) others.same_sockets;
      }
