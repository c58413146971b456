-- ===== src/Client/Ticks.antt =====
-- What a nudge leaves behind.
use lightway_cffi.Base.{
  ℕ, Bool, true, false, ◌||◌, arith, ◌≡◌, refl, sym, ap, ◌∙◌, subst, none, some, List, [], ◌∷◌,
  ◌++◌, inl, inr, ◌⊎◌, Bool-cases, both_false, Option-cases, Result, ok, err,
}
use lightway_cffi.Timer.{payload_tick, earliest_tick_deadline}
use lightway_cffi.Client.{
  ReturnCode, he_success, he_err_failed, he_connection_timed_out, ConnState, state_disconnected,
  ConnectionType, Conn,
}
use lightway_cffi.Client.Core.{Core, Std, Live, Client}
use lightway_cffi.Client.Events.{Call, run_live}
use lightway_cffi.Client.Teardown.{is_disconnected, sync_conn_info, fatal_disconnect}
use lightway_cffi.Client.Traffic.{nudge_ms_until, refresh}
use lightway_cffi.Client.Nudge.{
  Clock, tear_down, handle_connection_tick_error, Ticked, connection_tick_step, fatal_of, dispatch,
  payload_step, after_payload, payload_phase, after_connection, nudge_locked,
}

pub is_disconnected_lem : (s : ConnState) → is_disconnected s ≡ true → s ≡ state_disconnected
is_disconnected_lem s h = ground arith

or_true : (a b : Bool) → b ≡ true → a || b ≡ true
or_true true b h = refl
or_true false b h = h

module _ (C : Core) where
  -- The connection is gone, and the host reads that, with no timer left.
  pub record IsTornDown (client : Client C) : Type 0 where
    pub gone : client.connection ≡ none
    pub state : client.conn.state ≡ state_disconnected
    pub timer : client.conn.nudge_time_ms ≡ 0

  fatal_disconnect-IsTornDown :
      (client : Client C) → client.conn.nudge_time_ms ≡ 0 → IsTornDown (fatal_disconnect C client).0
  unfolding fatal_disconnect
  fatal_disconnect-IsTornDown client z = elim (Bool-cases (is_disconnected client.conn.state)) [
    | inl t ↦
        rw (t) (record { gone = refl; state = is_disconnected_lem client.conn.state t; timer = z })
    | inr f ↦ rw (f) (record { gone = refl; state = refl; timer = z })
  ]

  -- What a nudge of a live connection gets: the timer of the ticks that are left, an error of a
  -- connection that lives on, or its end.
  pub data NudgeEnd (clock : Clock) (r : Client C × List Call × ReturnCode) : Type 0 where
    ticked :
        (live : Live C)
        → r.2 ≡ he_success
        → r.0.connection ≡ some live
        → r.0.conn.nudge_time_ms
          ≡ nudge_ms_until (earliest_tick_deadline live.app_state) clock.timeout_now
        → NudgeEnd clock r
    lives_on :
        (live : Live C)
        → r.2 ≡ he_err_failed
        → r.0.connection ≡ some live
        → r.0.conn.nudge_time_ms
          ≡ nudge_ms_until (earliest_tick_deadline live.app_state) clock.error_now
        → NudgeEnd clock r
    torn_down :
        (r.2 ≡ he_connection_timed_out) ⊎ (r.2 ≡ he_err_failed) → IsTornDown r.0 → NudgeEnd clock r

  handle-IsTornDown :
      (client : Client C) (e : C.Error) (type : ConnectionType)
      → C.is_timed_out e || C.is_fatal e type ≡ true
      → let r = handle_connection_tick_error C client e type in
        ((r.2 ≡ he_connection_timed_out) ⊎ (r.2 ≡ he_err_failed)) × IsTornDown r.0
  unfolding handle_connection_tick_error tear_down
  handle-IsTornDown client e type h = elim (Bool-cases (C.is_timed_out e)) [
    | inl t ↦ rw (t) (inl refl, fatal_disconnect-IsTornDown _ refl)
    | inr f ↦
        rw (f, subst (λ b. b || C.is_fatal e type ≡ true) f h)
          (inr refl, fatal_disconnect-IsTornDown _ refl)
  ]

  pub handle_kept :
      (client : Client C) (e : C.Error) (type : ConnectionType)
      → C.is_timed_out e || C.is_fatal e type ≡ false
      → handle_connection_tick_error C client e type ≡ (client, [], he_err_failed)
  unfolding handle_connection_tick_error
  handle_kept client e type h =
      let no = both_false (C.is_timed_out e) (C.is_fatal e type) h in rw (no.0, no.1) refl

module _ (C : Core) (std : Std) where
  fatal_of-is_fatal :
      (type : ConnectionType) (r : Result (Unit {0}) C.Error) (e : C.Error)
      → fatal_of C std type r ≡ some e
      → C.is_fatal e type ≡ true
  unfolding fatal_of
  fatal_of-is_fatal type (ok u) e h = cc
  fatal_of-is_fatal type (err e') e h = ground arith

  module _ (type : ConnectionType) (t : ℕ) (p : C.Payload) (due : List (ℕ × C.Payload))
      (conn : Conn) (live : Live C) where
    abbrev pub ran_tick : Conn × Live C × List Call
    ran_tick =
        let (core', cs, result) = C.tick live.core (payload_tick p) in
        run_live C std conn live core' cs

    pub dispatch_goes_on :
        fatal_of C std type (C.tick live.core (payload_tick p)).2 ≡ none
        → let rest = dispatch C std type due ran_tick.0 ran_tick.1 in
          dispatch C std type ((t, p) ∷ due) conn live
          ≡ (rest.0, rest.1, ran_tick.2 ++ rest.2, rest.3)
    unfolding dispatch run_live
    dispatch_goes_on n = rw (dispatch, n) refl

    pub dispatch_stops :
        (e : C.Error)
        → fatal_of C std type (C.tick live.core (payload_tick p)).2 ≡ some e
        → dispatch C std type ((t, p) ∷ due) conn live
          ≡ (ran_tick.0, ran_tick.1, ran_tick.2, some e)
    unfolding dispatch run_live
    dispatch_stops e h = rw (dispatch, h) refl

  -- Only a fatal error stops the dispatch.
  dispatch-is_fatal :
      (type : ConnectionType) (due : List (ℕ × C.Payload)) (conn : Conn) (live : Live C)
      (e : C.Error)
      → (dispatch C std type due conn live).3 ≡ some e
      → C.is_fatal e type ≡ true
  unfolding dispatch
  dispatch-is_fatal type [] conn live e h = cc
  dispatch-is_fatal type ((t, p) ∷ due) conn live e h =
      elim (Option-cases (fatal_of C std type (C.tick live.core (payload_tick p)).2)) [
        | inl n ↦
            dispatch-is_fatal type due (ran_tick type t p due conn live).0
              (ran_tick type t p due conn live).1 e
              (sym (ap (λ r. r.3) (dispatch_goes_on type t p due conn live n)) ∙ h)
        | inr (e', f) ↦
            fatal_of-is_fatal type _ e
              (f ∙ sym (ap (λ r. r.3) (dispatch_stops type t p due conn live e' f)) ∙ h)
      ]

  after_payload-NudgeEnd :
      (clock : Clock) (client : Client C) (type : ConnectionType) (r : Ticked C std)
      → ((e : C.Error) → r.3 ≡ some e → C.is_fatal e type ≡ true)
      → NudgeEnd C clock (after_payload C std clock client type r)
  unfolding after_payload
  after_payload-NudgeEnd clock client type (conn, live, calls, none) h = ticked live refl refl refl
  after_payload-NudgeEnd clock client type (conn, live, calls, some e) h =
      let end =
        handle-IsTornDown C _ e type (or_true (C.is_timed_out e) (C.is_fatal e type) (h e refl)) in
      torn_down end.0 end.1

  payload_phase-NudgeEnd :
      (clock : Clock) (client : Client C) (live : Live C)
      → client.connection ≡ some live
      → NudgeEnd C clock (payload_phase C std clock client)
  unfolding payload_phase payload_step
  payload_phase-NudgeEnd clock client live h = rw (h) (
      after_payload-NudgeEnd clock client (C.connection_type live.core)
        (payload_step C std clock client.conn live) (λ e. dispatch-is_fatal _ _ _ _ e))

  -- The calls before the last phase do not matter to the end.
  more_calls :
      (clock : Clock) (r : Client C × List Call × ReturnCode) (calls : List Call)
      → NudgeEnd C clock r
      → NudgeEnd C clock (r.0, calls, r.2)
  more_calls clock r calls (ticked live c e t) = ticked live c e t
  more_calls clock r calls (lives_on live c e t) = lives_on live c e t
  more_calls clock r calls (torn_down c d) = torn_down c d

  failed-NudgeEnd :
      (clock : Clock) (client : Client C) (live : Live C) (e : C.Error) (type : ConnectionType)
      → client.connection ≡ some live
      → client.conn.nudge_time_ms
        ≡ nudge_ms_until (earliest_tick_deadline live.app_state) clock.error_now
      → NudgeEnd C clock (handle_connection_tick_error C client e type)
  failed-NudgeEnd clock client live e type h t =
      elim (Bool-cases (C.is_timed_out e || C.is_fatal e type)) [
        | inl f ↦ let end = handle-IsTornDown C client e type f in torn_down end.0 end.1
        | inr k ↦
            subst (NudgeEnd C clock) (sym (handle_kept C client e type k)) (lives_on live refl h t)
      ]

  after_connection-NudgeEnd :
      (clock : Clock) (client : Client C) (type : ConnectionType) (r : Ticked C std)
      → NudgeEnd C clock (after_connection C std clock client type r)
  unfolding after_connection sync_conn_info
  after_connection-NudgeEnd clock client type (conn, live, calls, none) =
      let synced = sync_conn_info C (record client { conn = conn; connection = some live }) in
      more_calls clock (payload_phase C std clock synced) _
        (payload_phase-NudgeEnd clock synced live refl)
  after_connection-NudgeEnd clock client type (conn, live, calls, some e) =
      let left = record client {
        conn = refresh C std clock.error_now live conn;
        connection = some live;
      } in
      more_calls clock (handle_connection_tick_error C left e type) _
        (failed-NudgeEnd clock left live e type refl refl)

  -- A nudge of a live connection ends in one of three ways. It succeeds, and the host reads the
  -- time to the earliest tick that is left; it fails with the connection still live, and the host
  -- reads that time too; or it fails or times out with the connection gone, the state
  -- disconnected and no timer.
  pub nudge_locked-NudgeEnd :
      (clock : Clock) (client : Client C) (live : Live C)
      → client.connection ≡ some live
      → NudgeEnd C clock (nudge_locked C std clock client)
  unfolding nudge_locked
  nudge_locked-NudgeEnd clock client live h = rw (h) (
      after_connection-NudgeEnd clock client (C.connection_type live.core)
        (connection_tick_step C std clock client.conn live))
