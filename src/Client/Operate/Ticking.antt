-- ===== src/Client/Operate/Ticking.antt =====
-- The body of a nudge is a chain of moves.
use lightway_cffi.Base.{
  ℕ, Bool, not, ◌&&◌, refl, none, some, List, [], ◌∷◌, Result, ok, err, inl, inr, Bool-cases,
  Option-cases,
}
use lightway_cffi.Timer.{connection_tick, payload_tick, cffi_schedule_tick_cb}
use lightway_cffi.Client.{ConnectionType, Conn}
use lightway_cffi.Client.Core.{Core, Std, Live, Client, State}
use lightway_cffi.Client.Events.{Call, run_live}
use lightway_cffi.Client.Nudge.{
  Clock, is_due, is_handshake, handle_connection_tick_error, tear_down,
  retry_connection_tick_after_error, Ticked, after_tick, connection_tick_step, fatal_of, dispatch,
  payload_step, after_payload, payload_phase, after_connection, nudge_locked, partition_due,
}
use lightway_cffi.Client.Moves.{
  tick_call, Moves, done, silently, loudly, join, loud, synced, timed, stored, failed, told,
}
use lightway_cffi.Client.Operate.{Done, at, call_live}

module _ (C : Core) (std : Std) (fresh : Bool) where
  handle-Moves :
      (client : Client C) (e : C.Error) (type : ConnectionType)
      → Done C std fresh client (handle_connection_tick_error C client e type)
  unfolding handle_connection_tick_error tear_down
  handle-Moves client e type = elim (Bool-cases (C.is_timed_out e)) [
    | inl t ↦ rw (t) (loudly (silently done (timed client 0)) (failed _))
    | inr f ↦ elim (Bool-cases (C.is_fatal e type)) [
      | inl t ↦ rw (f, t) (loudly (silently done (timed client 0)) (failed _))
      | inr g ↦ rw (f, g) done
    ]
  ]

  dispatch-Moves :
      (client : Client C) (type : ConnectionType) (due : List (ℕ × C.Payload)) (conn : Conn)
      (live : Live C)
      → let r = dispatch C std type due conn live in
        Moves C std fresh (at C std fresh client conn live) r.2 (at C std fresh client r.0 r.1)
  unfolding dispatch
  dispatch-Moves client type [] conn live = done
  dispatch-Moves client type ((t, p) ∷ due) conn live =
      let (core', cs, result) = C.tick live.core (payload_tick p) in
      let (conn', live', calls) = run_live C std conn live core' cs in
      let first = call_live C std fresh client conn live (tick_call (payload_tick p)) in
      elim (Option-cases (fatal_of C std type result)) [
        | inl n ↦
            rw (dispatch, n) (join C std fresh first (dispatch-Moves client type due conn' live'))
        | inr (e, h) ↦ rw (dispatch, h) first
      ]

  retry-Moves :
      (client : Client C) (conn : Conn) (live : Live C) (now : ℕ) (e : C.Error)
      (type : ConnectionType) (s : State) (delay : ℕ)
      → let r = retry_connection_tick_after_error C std now e type s delay live.app_state in
        Moves C std fresh
          (at C std fresh client conn live)
          r.1
          (at C std fresh client conn (record live { app_state = r.0 }))
  unfolding retry_connection_tick_after_error
  retry-Moves client conn live now e type s delay =
      elim (Bool-cases (not (C.is_fatal e type) && is_handshake s)) [
        | inl t ↦
            let (s', timeout) = cffi_schedule_tick_cb now delay live.app_state connection_tick in
            rw (t) (
              silently (loud C std fresh (told (at C std fresh client conn live) s' timeout))
                (stored (at C std fresh client conn live) live s' refl))
        | inr f ↦ rw (f) done
      ]

  after_tick-Moves :
      (client : Client C) (start : Client C) (conn : Conn) (live : Live C) (calls : List Call)
      (now : ℕ) (type : ConnectionType) (delay : ℕ) (result : Result (Unit {0}) C.Error)
      → Moves C std fresh start calls (at C std fresh client conn live)
      → let r = after_tick C std now type delay (conn, live, calls) result in
        Moves C std fresh start r.2 (at C std fresh client r.0 r.1)
  unfolding after_tick
  after_tick-Moves client start conn live calls now type delay (ok u) m = m
  after_tick-Moves client start conn live calls now type delay (err e) m =
      join C std fresh m (retry-Moves client conn live now e type (C.state live.core) delay)

  connection_tick_step-Moves :
      (clock : Clock) (client : Client C) (conn : Conn) (live : Live C)
      → let r = connection_tick_step C std clock conn live in
        Moves C std fresh (at C std fresh client conn live) r.2 (at C std fresh client r.0 r.1)
  unfolding connection_tick_step
  connection_tick_step-Moves clock client conn live =
      elim (Bool-cases (is_due clock.connection_tick_now live.app_state.next_tick)) [
        | inr f ↦ rw (f) done
        | inl t ↦
            let taken = record live { app_state = record live.app_state { next_tick = none } } in
            let (core', cs, result) = C.tick live.core connection_tick in
            let (conn', live', calls) = run_live C std conn taken core' cs in
            rw (t) (
              after_tick-Moves client (at C std fresh client conn live) conn' live' calls
                clock.retry_now _ _ result
                (join C std fresh
                  (silently done
                    (stored (at C std fresh client conn live) live taken.app_state refl))
                  (call_live C std fresh client conn taken (tick_call connection_tick))))
      ]

  after_payload-Moves :
      (clock : Clock) (client : Client C) (type : ConnectionType) (r : Ticked C std)
      (start : Client C)
      → Moves C std fresh start r.2 (at C std fresh client r.0 r.1)
      → let e = after_payload C std clock client type r in Moves C std fresh start e.1 e.0
  unfolding after_payload
  after_payload-Moves clock client type (conn, live, calls, none) start m = silently m (timed _ _)
  after_payload-Moves clock client type (conn, live, calls, some e) start m =
      join C std fresh m (handle-Moves (at C std fresh client conn live) e type)

  payload_phase-Moves :
      (clock : Clock) (client : Client C)
      → Done C std fresh client (payload_phase C std clock client)
  unfolding payload_phase payload_step
  payload_phase-Moves clock client = elim (Option-cases client.connection) [
    | inl n ↦ rw (n) done
    | inr (live, h) ↦
        let (due, remaining) = partition_due clock.payload_now live.app_state.pending_ticks in
        let kept = record live {
          app_state = record live.app_state { pending_ticks = remaining };
        } in
        rw (h) (
          after_payload-Moves clock client (C.connection_type live.core)
            (payload_step C std clock client.conn live) (at C std fresh client client.conn live)
            (join C std fresh
              (silently done
                (stored (at C std fresh client client.conn live) live kept.app_state refl))
              (dispatch-Moves client (C.connection_type live.core) due client.conn kept)))
  ]

  after_connection-Moves :
      (clock : Clock) (client : Client C) (type : ConnectionType) (r : Ticked C std)
      (start : Client C)
      → Moves C std fresh start r.2 (at C std fresh client r.0 r.1)
      → let e = after_connection C std clock client type r in Moves C std fresh start e.1 e.0
  unfolding after_connection
  after_connection-Moves clock client type (conn, live, calls, none) start m =
      join C std fresh (silently m (synced (at C std fresh client conn live)))
        (payload_phase-Moves clock _)
  after_connection-Moves clock client type (conn, live, calls, some e) start m =
      join C std fresh (silently m (timed _ _)) (handle-Moves _ e type)

  pub nudge_locked-Moves :
      (clock : Clock) (client : Client C)
      → Done C std fresh client (nudge_locked C std clock client)
  unfolding nudge_locked
  nudge_locked-Moves clock client = elim (Option-cases client.connection) [
    | inl n ↦ rw (n) done
    | inr (live, h) ↦ rw (h) (
        after_connection-Moves clock client (C.connection_type live.core)
          (connection_tick_step C std clock client.conn live)
          (at C std fresh client client.conn live)
          (connection_tick_step-Moves clock client client.conn live))
  ]
