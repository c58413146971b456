-- ===== src/Timer/Timeout.antt =====
-- The arithmetic of timeouts.
use lightway_cffi.Base.{ℕ, ◌+◌, ◌-◌, ◌*◌, ◌≤◌, ◌<◌, ◌≡◌, arith, ◌↔◌}
use lightway_cffi.Timer.{nanos_per_ms, i32_max, duration_to_timeout_ms, deadline_to_timeout_ms}

-- A timeout is the duration in milliseconds rounded up, when that fits in an i32: it never ends
-- before the duration does, and at most a millisecond after.
pub duration_to_timeout_ms_rounds_up :
    (d : ℕ)
    → d ≤ i32_max * nanos_per_ms
    → (d ≤ duration_to_timeout_ms d * nanos_per_ms)
      × (duration_to_timeout_ms d * nanos_per_ms < d + nanos_per_ms)
unfolding duration_to_timeout_ms
duration_to_timeout_ms_rounds_up d h = (omega arith, omega arith)

-- Only an empty duration gives the timeout 0, which means no timer.
duration_to_timeout_ms_zero : (d : ℕ) → (duration_to_timeout_ms d ≡ 0) ↔ (d ≡ 0)
unfolding duration_to_timeout_ms
duration_to_timeout_ms_zero d = ground arith

-- The timeout of a deadline is at least 1, also of one that has passed, and fits in an i32.
deadline_to_timeout_ms_bounds :
    (deadline now : ℕ)
    → (1 ≤ deadline_to_timeout_ms deadline now) × (deadline_to_timeout_ms deadline now ≤ i32_max)
unfolding deadline_to_timeout_ms duration_to_timeout_ms
deadline_to_timeout_ms_bounds deadline now = (omega arith, omega arith)

-- When a deadline is near enough for an i32, it has passed once the timeout is over.
pub deadline_to_timeout_ms_reached :
    (deadline now : ℕ)
    → deadline - now ≤ i32_max * nanos_per_ms
    → deadline ≤ now + deadline_to_timeout_ms deadline now * nanos_per_ms
unfolding deadline_to_timeout_ms duration_to_timeout_ms
deadline_to_timeout_ms_reached deadline now h = omega arith
