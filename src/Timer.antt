-- ===== src/Timer.antt =====
-- src/cffi_state.rs: the ticks that a connection has asked for, and the one timer that the host
-- keeps for them. A Duration and an Instant are counted in nanoseconds.
use lightway_cffi.Base.{
  ℕ, ◌+◌, ◌-◌, ◌*◌, ◌/◌, ◌^◌, min, max, Option, none, some, List, [], ◌∷◌, ◌++◌, leb, if◌then◌else◌,
  is_some, Bool, true, false,
}
pub mod Timeout
pub mod Schedule
mod Examples

abbrev pub nanos_per_ms : ℕ
nanos_per_ms = 1000000

-- `Duration::MAX`.
abbrev pub duration_max : ℕ
duration_max = (2 ^ 64 - 1) * 1000000000 + 999999999

abbrev pub i32_max : ℕ
i32_max = 2 ^ 31 - 1

unfoldable pub duration_to_timeout_ms : ℕ → ℕ
duration_to_timeout_ms duration = min (min (duration + 999999) duration_max / nanos_per_ms) i32_max

-- `saturating_duration_since` is 0 for a deadline in the past.
unfoldable pub deadline_to_timeout_ms : ℕ → ℕ → ℕ
deadline_to_timeout_ms deadline now = max (duration_to_timeout_ms (deadline - now)) 1

-- `lightway_core::TickType`: `ConnectionTick`, or one of those with a payload of type P.
pub data TickType (P : Type 0) : Type 0 where
  connection_tick : TickType P
  payload_tick : P → TickType P

-- `lightway_core::InsideIpConfig`, each address as its four bytes.
pub record InsideIpConfig : Type 0 where
  pub client_ip : List ℕ
  pub server_ip : List ℕ
  pub dns_ip : List ℕ

-- A callback and the opaque context are the numbers of their pointers.
pub record CffiAppState (P : Type 0) : Type 0 where
  pub next_tick : Option ℕ
  pub pending_ticks : List (ℕ × P)
  pub ip_config : Option InsideIpConfig
  pub nudge_time_cb : Option ℕ
  pub ctx : ℕ

abbrev pub min_or : Option ℕ → Option ℕ → Option ℕ
min_or none b = b
min_or (some a) none = some a
min_or (some a) (some b) = some (min a b)

-- The earlier deadline is kept.
abbrev pub merge : Option ℕ → ℕ → ℕ
merge none deadline = deadline
merge (some existing) deadline = if leb existing deadline then existing else deadline

abbrev pub unwrap_or : Option ℕ → ℕ → ℕ
unwrap_or none d = d
unwrap_or (some x) d = x

module _ {P : Type 0} where
  unfoldable pub default : CffiAppState P
  default = record {
    next_tick = none;
    pending_ticks = [];
    ip_config = none;
    nudge_time_cb = none;
    ctx = 0;
  }

  -- `iter().map(|(t, _)| *t).min()`.
  unfoldable pub earliest_pending : List (ℕ × P) → Option ℕ
  earliest_pending [] = none
  earliest_pending ((t, p) ∷ ticks) = min_or (some t) (earliest_pending ticks)

  unfoldable pub earliest_tick_deadline : CffiAppState P → Option ℕ
  earliest_tick_deadline s = min_or s.next_tick (earliest_pending s.pending_ticks)

  unfoldable pub record_tick : ℕ → CffiAppState P → TickType P → CffiAppState P
  record_tick deadline s connection_tick = record s {
    next_tick = some (merge s.next_tick deadline);
  }
  record_tick deadline s (payload_tick p) = record s {
    pending_ticks = s.pending_ticks ++ (deadline, p) ∷ [];
  }

  -- The state, and the timeout that the host is told if it has set the callback.
  unfoldable pub cffi_schedule_tick_cb :
      ℕ → ℕ → CffiAppState P → TickType P → CffiAppState P × Option ℕ
  unfolding record_tick
  cffi_schedule_tick_cb now d s tick_type =
      let deadline = now + d in
      let s' = record_tick deadline s tick_type in
      (
        s',
        if is_some s'.nudge_time_cb
            then some (deadline_to_timeout_ms (unwrap_or (earliest_tick_deadline s') deadline) now)
            else none,
      )
