-- ===== src/Transfer/Flows/Deadline.antt =====
-- How the threads of run_download and run_upload (include/libndt/libndt.hpp) end.
use libndt.Client.{Client}
use libndt.Io.{Result, err, ok, stuck}
use libndt.Prelude.{
  Bool-cases, List, [], arith, inl, inr, length, ltb, refl, suc, true, zero, ℕ, ◌*◌, ◌++◌, ◌+◌, ◌-◌,
  ◌<◌, ◌==◌, ◌∷◌, ◌≡◌, ◌≢◌, ◌≤◌,
}
use libndt.Prelude.Bytes.{Bytes}
use libndt.Transfer.{one_second}
use libndt.Transfer.Flows.{
  Flow, FlowAt, MainAt, Plan, Shared, Transfer, after_move, counting, finished, flow_turn,
  flow_turn_at, flows_turn, leaving, main_turn_at, moving, new_flow, run_turns, spawning, starting,
  stopped, timing, turn, watch, watching,
}
use libndt.Types.{Socket}

-- The turns that a thread has left at most, once the time is up.
abbrev pub left_at : FlowAt → ℕ
left_at starting = 5
left_at moving = 4
left_at (counting n) = 3
left_at timing = 2
left_at leaving = 1
left_at finished = 0

pub turns_left : List Flow → ℕ
turns_left [] = 0
turns_left (f ∷ fs) = left_at f.at + turns_left fs

-- What the thread that runs the test has left before it waits, and what it gives to threads.
abbrev left_main : MainAt → ℕ
left_main (spawning socks) = 1 + 6 * length socks
left_main _ = 0

pub left_all : {W : Type 0} → Transfer W → ℕ
unfolding turns_left
left_all t = left_main t.main + turns_left t.flows

-- Whether a turn of a thread does something: not if it has ended.
abbrev busy_at : FlowAt → ℕ
busy_at finished = 0
busy_at _ = 1

pub busy_flow : ℕ → List Flow → ℕ
busy_flow j [] = 0
busy_flow zero (f ∷ fs) = busy_at f.at
busy_flow (suc j) (f ∷ fs) = busy_flow j fs

abbrev busy_main : MainAt → ℕ
busy_main (spawning socks) = 1
busy_main _ = 0

-- The turns of these that do something, but for those that wait.
pub busy_turn : {W : Type 0} → ℕ → Transfer W → ℕ
unfolding busy_flow
busy_turn zero t = busy_main t.main
busy_turn (suc j) t = busy_flow j t.flows

module _ {W : Type 0} (plan : Plan W) where
  pub busy_turns : List ℕ → Transfer W → ℕ
  unfolding busy_turn
  busy_turns [] t = 0
  busy_turns (i ∷ is) t = busy_turn i t + busy_turns is (turn plan i t)

  module _ (late : (w : W) → plan.max_runtime * one_second < (plan.clock w).0 - plan.begin)
      (returns : (sock : Socket) (buffer : Bytes) (s : Client W)
        → (plan.move sock buffer s).0 ≢ stuck) where
    left_after_move : (r : Result Unit ℕ) → r ≢ stuck → left_at (after_move plan r) ≤ 3
    unfolding after_move
    left_after_move (ok n) h = omega arith
    left_after_move (err e) h = omega arith
    left_after_move stuck h = absurd (h refl)

    flow_turn_at-left :
        (at : FlowAt) (f : Flow) (sh : Shared W)
        → f.at ≡ at
        → left_at (flow_turn_at plan at f sh).0.at + busy_at at ≤ left_at at
    unfolding flow_turn_at
    flow_turn_at-left starting f sh same = omega arith
    flow_turn_at-left moving f sh same =
        let l =
          left_after_move (plan.move f.sock f.buffer sh.client).0
            (returns f.sock f.buffer sh.client) in
        omega (arith, l)
    flow_turn_at-left (counting n) f sh same = omega arith
    flow_turn_at-left timing f sh same =
        let time_up : ltb (plan.max_runtime * one_second)
              ((plan.clock sh.client.world).0 - plan.begin)
            ≡ true =
          ground (arith, late sh.client.world) in
        rw time_up (omega arith)
    flow_turn_at-left leaving f sh same = omega arith
    flow_turn_at-left finished f sh same = rw same (omega arith)

    flows_turn-left :
        (j : ℕ) (fs : List Flow) (sh : Shared W)
        → turns_left (flows_turn plan j fs sh).0 + busy_flow j fs ≤ turns_left fs
    unfolding flows_turn flow_turn turns_left busy_flow
    flows_turn-left j [] sh = omega arith
    flows_turn-left zero (f ∷ fs) sh = omega (arith, flow_turn_at-left f.at f sh refl)
    flows_turn-left (suc j) (f ∷ fs) sh = omega (arith, flows_turn-left j fs sh)

    left-append :
        (fs : List Flow) (sock : Socket) → turns_left (fs ++ new_flow sock ∷ []) ≡ turns_left fs + 5
    unfolding turns_left
    left-append [] sock = refl
    left-append (f ∷ fs) sock = omega (arith, left-append fs sock)

    main_turn_at-left :
        (m : MainAt) (t : Transfer W)
        → t.main ≡ m
        → left_all (main_turn_at plan m t) + busy_main m ≤ left_all t
    unfolding main_turn_at left_all watch
    main_turn_at-left (spawning []) t e = rw e (omega arith)
    main_turn_at-left (spawning (sock ∷ more)) t e = rw e (omega (arith, left-append t.flows sock))
    main_turn_at-left watching t e = elim (Bool-cases (t.shared.active == 0)) [
      | inl none_active ↦ rw (none_active, e) (omega arith)
      | inr some_active ↦ rw (some_active, e) (omega arith)
    ]
    main_turn_at-left (stopped elapsed) t e = omega arith

    turn-left : (i : ℕ) (t : Transfer W) → left_all (turn plan i t) + busy_turn i t ≤ left_all t
    unfolding turn busy_turn left_all
    turn-left zero t = main_turn_at-left t.main t refl
    turn-left (suc j) t = omega (arith, flows_turn-left j t.flows t.shared)

    -- Once the clock is past the end of the transfer and where receiving and sending return: in
    -- every order of turns, the turns that do something, but for the wait of the test itself, are
    -- no more than what `left_all` says: at most five for each thread, six for each connection that
    -- has no thread yet, and one to begin the wait.
    pub busy_turns-left :
        (is : List ℕ) (t : Transfer W)
        → busy_turns is t + left_all (run_turns plan is t) ≤ left_all t
    unfolding busy_turns run_turns
    busy_turns-left [] t = omega arith
    busy_turns-left (i ∷ is) t = omega (arith, turn-left i t, busy_turns-left is (turn plan i t))
