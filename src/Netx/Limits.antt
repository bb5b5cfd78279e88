-- ===== src/Netx/Limits.antt =====
-- netx_wait (include/libndt/libndt.hpp): the timeout in milliseconds.
use libndt.Netx.{int_max, wait_msec}
use libndt.Prelude.{arith, min, ℕ, ◌*◌, ◌/◌, ◌≡◌, ◌≤◌}

-- The milliseconds of a wait fit in an `int`: they are the seconds that were asked for, but for
-- longer waits the most whole seconds whose milliseconds fit.
pub wait_msec-int_max :
    (timeout : ℕ)
    → (wait_msec timeout ≤ int_max) × (wait_msec timeout ≡ min timeout (int_max / 1000) * 1000)
unfolding wait_msec
wait_msec-int_max timeout = (ground arith, ground arith)
