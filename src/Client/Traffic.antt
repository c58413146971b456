-- ===== src/Client/Traffic.antt =====
-- src/lib.rs: the packets that the host hands over, and the key rotation that it drives.
use lightway_cffi.Base.{ℕ, ◌||◌, if◌then◌else◌, Option, none, some, List, [], ◌++◌, Result, ok, err}
use lightway_cffi.Capi.{is_null, from_raw_parts}
use lightway_cffi.Timer.{deadline_to_timeout_ms, earliest_tick_deadline}
use lightway_cffi.Client.{
  ReturnCode, he_success, he_err_failed, he_err_null_pointer, he_err_invalid_conn_state,
  ConnectionType, Conn,
}
use lightway_cffi.Client.Core.{State, online, Core, Std, Live, Client}
use lightway_cffi.Client.Events.{Call, run, run_live}
use lightway_cffi.Client.Lock.{with_client, outcome, returning}
use lightway_cffi.Client.Teardown.{sync_conn_info, fatal_disconnect}

unfoldable pub nudge_ms_until : Option ℕ → ℕ → ℕ
nudge_ms_until none now = 0
nudge_ms_until (some t) now = deadline_to_timeout_ms t now

module _ (C : Core) (std : Std) where
  -- A fatal error ends the connection, and another one is not the host's to see.
  unfoldable pub after_outside :
      ConnectionType
      → Result (Unit {0}) C.Error
      → Client C
      → List Call
      → Client C × List Call × ReturnCode
  after_outside type (ok _) client calls = (sync_conn_info C client, calls, he_success)
  after_outside type (err e) client calls =
      if C.is_fatal e type
      then (let (client', calls') = fatal_disconnect C client in
          (client', calls ++ calls', he_err_failed))
      else (sync_conn_info C client, calls, he_success)

  unfoldable pub outside_locked : List ℕ → Client C → Client C × List Call × ReturnCode
  unfolding after_outside
  outside_locked bytes client = elim client.connection [
    | none ↦ (client, [], he_err_invalid_conn_state)
    | some live ↦
        let (core', cs, result) = C.outside_data_received live.core bytes in
        let (client', calls) = run C std client live core' cs in
        after_outside (C.connection_type live.core) result client' calls
  ]

  -- `he_conn_outside_data_received`.
  unfoldable pub outside_data_received :
      ℕ → Option (Client C) → Option (List ℕ) → ℕ → Option (Client C) × List Call × ReturnCode
  unfolding outside_locked
  outside_data_received me conn buffer len =
      if is_null conn || is_null buffer
      then (conn, [], he_err_null_pointer)
      else outcome C
          (with_client C me conn (returning C (outside_locked (from_raw_parts buffer len))))

  inside_code : Result (Unit {0}) C.Error → ReturnCode
  inside_code (ok _) = he_success
  inside_code (err e) = if C.is_invalid_state e then he_err_invalid_conn_state else he_err_failed

  unfoldable pub inside_locked : List ℕ → Client C → Client C × List Call × ReturnCode
  unfolding inside_code
  inside_locked bytes client = elim client.connection [
    | none ↦ (client, [], he_err_invalid_conn_state)
    | some live ↦
        let (core', cs, result) = C.inside_data_received live.core bytes in
        let (client', calls) = run C std client live core' cs in
        (sync_conn_info C client', calls, inside_code result)
  ]

  -- `he_conn_inside_packet_received`.
  unfoldable pub inside_packet_received :
      ℕ → Option (Client C) → Option (List ℕ) → ℕ → Option (Client C) × List Call × ReturnCode
  unfolding inside_locked
  inside_packet_received me conn packet len =
      if is_null conn || is_null packet
      then (conn, [], he_err_null_pointer)
      else outcome C
          (with_client C me conn (returning C (inside_locked (from_raw_parts packet len))))

  -- The timer that a polling host sees, from the ticks that the connection waits for.
  abbrev pub refresh : ℕ → Live C → Conn → Conn
  refresh now live conn = record conn {
    nudge_time_ms = nudge_ms_until (earliest_tick_deadline live.app_state) now;
  }

  unfoldable pub rotate_live : ℕ → Client C → Live C → State → Client C × List Call × ReturnCode
  rotate_live now client live online =
      let (core', cs, result) = C.rotate_expresslane_key live.core in
      let (conn', live', calls) = run_live C std client.conn live core' cs in
      (record client { conn = refresh now live' conn'; connection = some live' }, calls, he_success)
  rotate_live now client live _ = (client, [], he_success)

  unfoldable pub rotate_locked : ℕ → Client C → Client C × List Call × ReturnCode
  unfolding rotate_live
  rotate_locked now client = elim client.connection [
    | none ↦ (client, [], he_err_invalid_conn_state)
    | some live ↦ rotate_live now client live (C.state live.core)
  ]

  -- `he_conn_expresslane_rotate_if_due`, where `now` is the clock after the rotation.
  unfoldable pub rotate_if_due :
      ℕ → ℕ → Option (Client C) → Option (Client C) × List Call × ReturnCode
  unfolding rotate_locked
  rotate_if_due now me conn =
      if is_null conn
      then (conn, [], he_err_null_pointer)
      else outcome C (with_client C me conn (returning C (rotate_locked now)))
