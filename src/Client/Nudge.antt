-- ===== src/Client/Nudge.antt =====
-- src/lib.rs: he_conn_nudge, which runs the ticks that are due.
use lightway_cffi.Base.{
  ℕ, Bool, true, false, ◌&&◌, not, leb, if◌then◌else◌, Option, none, some, List, [], ◌∷◌, ◌++◌,
  Result, ok, err,
}
use lightway_cffi.Capi.{is_null}
use lightway_cffi.Timer.{
  CffiAppState, connection_tick, payload_tick, unwrap_or, nanos_per_ms, cffi_schedule_tick_cb,
}
use lightway_cffi.Client.{
  ReturnCode, he_success, he_err_failed, he_err_null_pointer, he_connection_timed_out,
  he_err_invalid_conn_state, ConnectionType, Conn,
}
use lightway_cffi.Client.Core.{State, connecting, link_up, authenticating, Core, Std, Live, Client}
use lightway_cffi.Client.Events.{Call, nudge_time_calls, run_live}
use lightway_cffi.Client.Lock.{with_client, outcome, returning}
use lightway_cffi.Client.Teardown.{sync_conn_info, fatal_disconnect}
use lightway_cffi.Client.Traffic.{refresh}

-- The readings of the clock in one nudge.
pub record Clock : Type 0 where
  pub connection_tick_now : ℕ
  pub retry_now : ℕ
  pub error_now : ℕ
  pub payload_now : ℕ
  pub timeout_now : ℕ

-- The states in which a failed tick is tried again.
abbrev pub is_handshake : State → Bool
is_handshake connecting = true
is_handshake link_up = true
is_handshake authenticating = true
is_handshake _ = false

abbrev pub is_due : ℕ → Option ℕ → Bool
is_due now none = false
is_due now (some t) = leb t now

-- `partition(|(t, _)| now >= *t)`: the due ones and the others.
unfoldable pub partition_due {ℓ} : {P : Type ℓ} → ℕ → List (ℕ × P) → List (ℕ × P) × List (ℕ × P)
partition_due now [] = ([], [])
partition_due now ((t, p) ∷ ticks) =
    let (due, remaining) = partition_due now ticks in
    if leb t now then ((t, p) ∷ due, remaining) else (due, (t, p) ∷ remaining)

module _ (C : Core) where
  -- The timer is cleared before the callback of the teardown can see it.
  unfoldable pub tear_down : Client C → ReturnCode → Client C × List Call × ReturnCode
  tear_down client code =
      let (client', calls) =
        fatal_disconnect C (record client { conn = record client.conn { nudge_time_ms = 0 } }) in
      (client', calls, code)

  unfoldable pub handle_connection_tick_error :
      Client C → C.Error → ConnectionType → Client C × List Call × ReturnCode
  unfolding tear_down
  handle_connection_tick_error client error type =
      if C.is_timed_out error
      then tear_down client he_connection_timed_out
      else if C.is_fatal error type
      then tear_down client he_err_failed
      else (client, [], he_err_failed)

module _ (C : Core) (std : Std) where
  -- The state, the calls, and whether the tick was armed again.
  unfoldable pub retry_connection_tick_after_error :
      ℕ
      → C.Error
      → ConnectionType
      → State
      → ℕ
      → CffiAppState C.Payload
      → CffiAppState C.Payload × List Call × Bool
  retry_connection_tick_after_error now error type state retry_delay app_state =
      if not (C.is_fatal error type) && is_handshake state
      then (let (app_state', timeout) =
            cffi_schedule_tick_cb now retry_delay app_state connection_tick in
          (app_state', nudge_time_calls C std app_state' timeout, true))
      else (app_state, [], false)

  -- The connection object, the connection and the calls, and the error of a failed tick.
  abbrev pub Ticked : Type 0
  Ticked = Conn × Live C × List Call × Option C.Error

  unfoldable pub after_tick :
      ℕ → ConnectionType → ℕ → Conn × Live C × List Call → Result (Unit {0}) C.Error → Ticked
  after_tick retry_now type retry_delay (conn, live, calls) (ok _) = (conn, live, calls, none)
  after_tick retry_now type retry_delay (conn, live, calls) (err e) =
      let (app_state', calls', armed) =
        retry_connection_tick_after_error retry_now e type (C.state live.core) retry_delay
          live.app_state in
      (conn, record live { app_state = app_state' }, calls ++ calls', some e)

  -- The tick is taken from its slot before it runs.
  unfoldable pub connection_tick_step : Clock → Conn → Live C → Ticked
  unfolding after_tick
  connection_tick_step clock conn live =
      if is_due clock.connection_tick_now live.app_state.next_tick
      then (let retry_delay = unwrap_or (C.tick_interval live.core) nanos_per_ms in
          let (core', cs, result) = C.tick live.core connection_tick in
          after_tick clock.retry_now (C.connection_type live.core) retry_delay
            (run_live C std conn
              (record live { app_state = record live.app_state { next_tick = none } }) core' cs)
            result)
      else (conn, live, [], none)

  unfoldable pub fatal_of : ConnectionType → Result (Unit {0}) C.Error → Option C.Error
  fatal_of type (ok _) = none
  fatal_of type (err e) = if C.is_fatal e type then some e else none

  -- The due ticks in their order, up to the first fatal error.
  unfoldable pub dispatch : ConnectionType → List (ℕ × C.Payload) → Conn → Live C → Ticked
  unfolding fatal_of
  dispatch type [] conn live = (conn, live, [], none)
  dispatch type ((t, p) ∷ due) conn live =
      let (core', cs, result) = C.tick live.core (payload_tick p) in
      let (conn', live', calls) = run_live C std conn live core' cs in
      elim (fatal_of type result) [
        | some e ↦ (conn', live', calls, some e)
        | none ↦
            let (conn'', live'', calls', error) = dispatch type due conn' live' in
            (conn'', live'', calls ++ calls', error)
      ]

  -- What is not due is stored before the dispatch.
  unfoldable pub payload_step : Clock → Conn → Live C → Ticked
  unfolding partition_due dispatch
  payload_step clock conn live =
      let (due, remaining) = partition_due clock.payload_now live.app_state.pending_ticks in
      dispatch (C.connection_type live.core) due conn
        (record live { app_state = record live.app_state { pending_ticks = remaining } })

  unfoldable pub after_payload :
      Clock → Client C → ConnectionType → Ticked → Client C × List Call × ReturnCode
  after_payload clock client type (conn, live, calls, none) = (
    record client { conn = refresh C std clock.timeout_now live conn; connection = some live },
    calls,
    he_success,
  )
  after_payload clock client type (conn, live, calls, some e) =
      let (client', calls', code) =
        handle_connection_tick_error C (record client { conn = conn; connection = some live }) e
          type in
      (client', calls ++ calls', code)

  unfoldable pub payload_phase : Clock → Client C → Client C × List Call × ReturnCode
  unfolding payload_step after_payload
  payload_phase clock client = elim client.connection [
    | none ↦ (client, [], he_err_invalid_conn_state)
    | some live ↦
        after_payload clock client (C.connection_type live.core)
          (payload_step clock client.conn live)
  ]

  unfoldable pub after_connection :
      Clock → Client C → ConnectionType → Ticked → Client C × List Call × ReturnCode
  unfolding payload_phase
  after_connection clock client type (conn, live, calls, none) =
      let (client', calls', code) =
        payload_phase clock
          (sync_conn_info C (record client { conn = conn; connection = some live })) in
      (client', calls ++ calls', code)
  after_connection clock client type (conn, live, calls, some e) =
      let (client', calls', code) =
        handle_connection_tick_error C
          (record client { conn = refresh C std clock.error_now live conn; connection = some live })
          e type in
      (client', calls ++ calls', code)

  unfoldable pub nudge_locked : Clock → Client C → Client C × List Call × ReturnCode
  unfolding after_connection connection_tick_step
  nudge_locked clock client = elim client.connection [
    | none ↦ (client, [], he_err_invalid_conn_state)
    | some live ↦
        after_connection clock client (C.connection_type live.core)
          (connection_tick_step clock client.conn live)
  ]

  -- `he_conn_nudge`.
  unfoldable pub nudge : Clock → ℕ → Option (Client C) → Option (Client C) × List Call × ReturnCode
  unfolding nudge_locked
  nudge clock me conn =
      if is_null conn
      then (conn, [], he_err_null_pointer)
      else outcome C (with_client C me conn (returning C (nudge_locked clock)))
