-- ===== src/Transfer/Flows.antt =====
-- The threads of run_download and run_upload (include/libndt/libndt.hpp): one for each data
-- connection, and the one that starts them and waits. They share the client, and the atomic
-- counters `active` and `total_data`. A turn of a thread is what it does between two accesses to
-- what is shared.
pub mod Counts
pub mod Accounting
pub mod Deadline
use libndt.Client.{Client}
use libndt.Io.{Io, Result, err, ok, stuck}
use libndt.Prelude.{
  List, [], if◌then◌else◌, ltb, suc, zero, ℕ, ◌%◌, ◌*◌, ◌++◌, ◌+◌, ◌-◌, ◌==◌, ◌^◌, ◌∷◌,
}
use libndt.Prelude.Bytes.{Bytes}
use libndt.Transfer.{Clock, on_performance, one_second}
use libndt.Types.{Socket}

-- Where the main function of a thread stands: before its buffer is made, before it receives or
-- sends, before it adds `n` to `total_data`, before it looks at the clock, before it takes itself
-- out of `active`, or at its end.
pub data FlowAt : Type 0 where
  starting moving timing leaving finished : FlowAt
  counting : ℕ → FlowAt

-- `buffer` is what an upload sends. `counted`, which the source has not, is what this thread has
-- added to `total_data` so far.
pub record Flow : Type 0 where
  pub sock : Socket
  pub buffer : Bytes
  pub at : FlowAt
  pub counted : ℕ

-- The thread that runs the test: it starts the others, then it waits, and then it has the time
-- that has passed.
pub data MainAt : Type 0 where
  spawning : List Socket → MainAt
  watching : MainAt
  stopped : ℕ → MainAt

-- What the threads share.
pub record Shared (W : Type 0) : Type 0 where
  pub client : Client W
  pub active : ℕ
  pub total_data : ℕ

pub record Transfer (W : Type 0) : Type 0 where
  pub shared : Shared W
  pub main : MainAt
  pub flows : List Flow

abbrev pub new_flow : Socket → Flow
new_flow sock = record { sock = sock; buffer = []; at = starting; counted = 0 }

-- What a transfer is about: the code of the test, how a thread makes its buffer, and how it moves
-- bytes over a socket; an error ends the thread. `begin` and `max_runtime` are read once.
pub record Plan (W : Type 0) : Type 0 where
  pub tid : ℕ
  pub prepare : Client W → Bytes × Client W
  pub move : Socket → Bytes → Io (Client W) Unit ℕ
  pub clock : Clock W
  pub begin : ℕ
  pub max_runtime : ℕ

-- Before the first thread is started.
abbrev pub start_transfer : {W : Type 0} → List Socket → Client W → Transfer W
start_transfer socks s = record {
  shared = record { client = s; active = 0; total_data = 0 };
  main = spawning socks;
  flows = [];
}

module _ {W : Type 0} (plan : Plan W) where
  abbrev set_client : Shared W → Client W → Shared W
  set_client sh s = record sh { client = s }

  -- A thread whose transfer of bytes has returned this.
  unfoldable pub after_move : Result Unit ℕ → FlowAt
  after_move (ok n) = counting n
  after_move (err e) = leaving
  after_move stuck = moving

  unfoldable pub flow_turn_at : FlowAt → Flow → Shared W → Flow × Shared W
  unfolding after_move
  flow_turn_at starting f sh =
      let r = plan.prepare sh.client in
      (record f { buffer = r.0; at = moving }, record sh { client = r.1 })
  flow_turn_at moving f sh =
      let r = plan.move f.sock f.buffer sh.client in
      (record f { at = after_move r.0 }, record sh { client = r.1 })
  flow_turn_at (counting n) f sh = (
    record f { at = timing; counted = f.counted + n },
    record sh { total_data = (sh.total_data + n) % 2 ^ 64 },
  )
  flow_turn_at timing f sh =
      let r = plan.clock sh.client.world in
      (
        record f {
          at = if ltb (plan.max_runtime * one_second) (r.0 - plan.begin) then leaving else moving;
        },
        record sh { client = record sh.client { world = r.1 } },
      )
  flow_turn_at leaving f sh =
      (record f { at = finished }, record sh { active = (sh.active + 255) % 2 ^ 8 })
  flow_turn_at finished f sh = (f, sh)

  unfoldable pub flow_turn : Flow → Shared W → Flow × Shared W
  unfolding flow_turn_at
  flow_turn f sh = flow_turn_at f.at f sh

  -- The turn of the thread with this number.
  unfoldable pub flows_turn : ℕ → List Flow → Shared W → List Flow × Shared W
  unfolding flow_turn
  flows_turn j [] sh = ([], sh)
  flows_turn zero (f ∷ fs) sh = let r = flow_turn f sh in (r.0 ∷ fs, r.1)
  flows_turn (suc j) (f ∷ fs) sh = let r = flows_turn j fs sh in (f ∷ r.0, r.1)

  -- A look at `active` after 250 milliseconds of sleep.
  unfoldable pub watch : Transfer W → Transfer W
  watch t =
      let sh = t.shared in
      let r = plan.clock sh.client.world in
      let s = record sh.client { world = r.1 } in
      if sh.active == 0
      then record t { main = stopped (r.0 - plan.begin); shared = record sh { client = s } }
      else record t {
        shared = record sh {
          client =
              on_performance
                (record {
                  tid = plan.tid;
                  nflows = sh.active;
                  measured_bytes = sh.total_data;
                  elapsed = r.0 - plan.begin;
                  max_runtime = s.settings.max_runtime * one_second;
                })
                s;
        };
      }

  unfoldable pub main_turn_at : MainAt → Transfer W → Transfer W
  unfolding watch
  main_turn_at (spawning []) t = record t { main = watching }
  main_turn_at (spawning (sock ∷ socks)) t = record t {
    main = spawning socks;
    flows = t.flows ++ new_flow sock ∷ [];
    shared = record t.shared { active = (t.shared.active + 1) % 2 ^ 8 };
  }
  main_turn_at watching t = watch t
  main_turn_at (stopped elapsed) t = t

  -- The thread that runs the test is number 0.
  unfoldable pub turn : ℕ → Transfer W → Transfer W
  unfolding main_turn_at flows_turn
  turn zero t = main_turn_at t.main t
  turn (suc j) t = let r = flows_turn j t.flows t.shared in record t { flows = r.0; shared = r.1 }

  -- The threads take turns in this order.
  unfoldable pub run_turns : List ℕ → Transfer W → Transfer W
  unfolding turn
  run_turns [] t = t
  run_turns (i ∷ is) t = run_turns is (turn i t)
