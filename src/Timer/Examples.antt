-- ===== src/Timer/Examples.antt =====
-- A host with a tick pending.
use lightway_cffi.Base.{
  is_some, ℕ, ◌+◌, ◌*◌, ◌≤◌, ◌<◌, ◌≡◌, none, some, [], ◌∷◌, arith, if◌then◌else◌,
}
use lightway_cffi.Timer.{
  payload_tick, CffiAppState, min_or, unwrap_or, earliest_tick_deadline, cffi_schedule_tick_cb,
  duration_to_timeout_ms, deadline_to_timeout_ms, nanos_per_ms,
}
use lightway_cffi.Timer.Timeout.{duration_to_timeout_ms_rounds_up}
use lightway_cffi.Timer.Schedule.{cffi_schedule_tick_cb_earliest}

-- A connection tick at 5 ms and a retransmit at 2 ms.
abbrev waiting : CffiAppState ℕ
waiting = record {
  next_tick = some 5000000;
  pending_ticks = (2000000, 7) ∷ [];
  ip_config = none;
  nudge_time_cb = some 3;
  ctx = 4;
}

duration_to_timeout_ms_rounds_up_example :
    (1 ≤ duration_to_timeout_ms 1 * nanos_per_ms)
    × (duration_to_timeout_ms 1 * nanos_per_ms < 1 + nanos_per_ms)
duration_to_timeout_ms_rounds_up_example = duration_to_timeout_ms_rounds_up 1 (omega arith)

cffi_schedule_tick_cb_earliest_example :
    (cffi_schedule_tick_cb 1000000 9000000 waiting (payload_tick 8)).1 ≡ (
      if is_some waiting.nudge_time_cb
      then some (
          deadline_to_timeout_ms
            (unwrap_or
              (min_or (some (1000000 + 9000000)) (earliest_tick_deadline waiting))
              (1000000 + 9000000))
            1000000)
      else none)
cffi_schedule_tick_cb_earliest_example =
    cffi_schedule_tick_cb_earliest 1000000 9000000 waiting (payload_tick 8)
