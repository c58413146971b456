-- ===== src/Client/Operate.antt =====
-- The body of each call that runs under the lock is a chain of moves.
use lightway_cffi.Base.{
  ℕ, Bool, true, is_some, if◌then◌else◌, not, ◌&&◌, ◌||◌, ◌≡◌, refl, sym, subst, Option, none, some,
  List, [], ◌∷◌, Result, ok, err, inl, inr, Bool-cases, Option-cases,
}
use lightway_cffi.Timer.{connection_tick, payload_tick, cffi_schedule_tick_cb}
use lightway_cffi.Client.{ReturnCode, he_err_invalid_conn_state, ConnectionType, Conn}
use lightway_cffi.Client.Core.{
  Core, Std, Live, Client, State, connecting, link_up, authenticating, online, disconnecting,
  disconnected,
}
use lightway_cffi.Client.Events.{Call, run, run_live}
use lightway_cffi.Client.Teardown.{
  is_disconnecting, is_disconnected, end_states, goodbye, client_disconnect_locked,
}
use lightway_cffi.Client.Connect.{prepare, begin, client_connect_locked}
use lightway_cffi.Client.Traffic.{
  after_outside, outside_locked, inside_locked, rotate_live, rotate_locked,
}
use lightway_cffi.Client.Nudge.{
  Clock, is_due, is_handshake, handle_connection_tick_error, tear_down,
  retry_connection_tick_after_error, Ticked, after_tick, connection_tick_step, fatal_of, dispatch,
  payload_step, after_payload, payload_phase, after_connection, nudge_locked, partition_due,
}
use lightway_cffi.Client.Moves.{
  CoreCall, tick_call, outside_call, inside_call, disconnect_call, rotate_call, perform, Moves,
  done, silently, loudly, join, loud, synced, timed, stored, dropped, called, failed, told, started,
  finished,
}
pub mod Ticking

module _ (C : Core) (std : Std) (fresh : Bool) where
  -- The client with these parts.
  abbrev pub at : Client C → Conn → Live C → Client C
  at client conn live = record client { conn = conn; connection = some live }

  -- A body that ended with this result went there by moves.
  abbrev pub Done : Client C → Client C × List Call × ReturnCode → Type 0
  Done client r = Moves C std fresh client r.1 r.0

  pub call_live :
      (client : Client C) (conn : Conn) (live : Live C) (k : CoreCall C)
      → let (core', cs, result) = perform C k live.core in
        let (conn', live', calls) = run_live C std conn live core' cs in
        Moves C std fresh (at client conn live) calls (at client conn' live')
  unfolding run
  call_live client conn live k = loud C std fresh (called (at client conn live) live k refl)

  after_outside-Moves :
      (start client : Client C) (calls : List Call) (type : ConnectionType)
      (result : Result (Unit {0}) C.Error)
      → Moves C std fresh start calls client
      → Done start (after_outside C std type result client calls)
  unfolding after_outside
  after_outside-Moves start client calls type (ok u) m = silently m (synced client)
  after_outside-Moves start client calls type (err e) m = elim (Bool-cases (C.is_fatal e type)) [
    | inl t ↦ rw (t) (loudly m (failed client))
    | inr f ↦ rw (f) (silently m (synced client))
  ]

  pub outside_locked-Moves :
      (bytes : List ℕ) (client : Client C) → Done client (outside_locked C std bytes client)
  unfolding outside_locked
  outside_locked-Moves bytes client = elim (Option-cases client.connection) [
    | inl n ↦ rw (n) done
    | inr (live, h) ↦ rw (h) (
        after_outside-Moves (at client client.conn live) _ _ _ _
          (loud C std fresh (called (at client client.conn live) live (outside_call bytes) refl)))
  ]

  pub inside_locked-Moves :
      (bytes : List ℕ) (client : Client C) → Done client (inside_locked C std bytes client)
  unfolding inside_locked
  inside_locked-Moves bytes client = elim (Option-cases client.connection) [
    | inl n ↦ rw (n) done
    | inr (live, h) ↦ rw (h) (
        silently
          (loud C std fresh (called (at client client.conn live) live (inside_call bytes) refl))
          (synced _))
  ]

  rotate_live-Moves :
      (now : ℕ) (client : Client C) (live : Live C) (s : State)
      → Done
          (at client client.conn live)
          (rotate_live C std now (at client client.conn live) live s)
  unfolding rotate_live
  rotate_live-Moves now client live online =
      silently (call_live client client.conn live rotate_call) (timed _ _)
  rotate_live-Moves now client live connecting = done
  rotate_live-Moves now client live link_up = done
  rotate_live-Moves now client live authenticating = done
  rotate_live-Moves now client live disconnecting = done
  rotate_live-Moves now client live disconnected = done

  pub rotate_locked-Moves :
      (now : ℕ) (client : Client C) → Done client (rotate_locked C std now client)
  unfolding rotate_locked
  rotate_locked-Moves now client = elim (Option-cases client.connection) [
    | inl n ↦ rw (n) done
    | inr (live, h) ↦ rw (h) (rotate_live-Moves now client live (C.state live.core))
  ]

  end_states-Moves :
      (start client : Client C) (calls : List Call)
      → Moves C std fresh start calls client
      → Done start (end_states C client calls)
  unfolding end_states
  end_states-Moves start client calls m =
      elim (Bool-cases (is_disconnecting client.conn.state || is_disconnected client.conn.state)) [
        | inl t ↦ rw (t) (silently m (dropped client t))
        | inr f ↦ rw (f) (loudly m (finished client))
      ]

  goodbye-Moves :
      (client : Client C) (o : Option (Live C))
      → client.connection ≡ o
      → let r = goodbye C std client o in Moves C std fresh client r.1 r.0
  unfolding goodbye
  goodbye-Moves client none h = done
  goodbye-Moves client (some live) h = loud C std fresh (called client live disconnect_call h)

  pub client_disconnect_locked-Moves :
      (client : Client C) → Done client (client_disconnect_locked C std client)
  unfolding client_disconnect_locked
  client_disconnect_locked-Moves client =
      end_states-Moves client _ _ (goodbye-Moves client client.connection refl)

module _ (C : Core) (std : Std) where
  begin-Moves :
      (client : Client C) (r : Result C.ConnBuilder ReturnCode)
      → client.connection ≡ none
      → Done C std true client (begin C std client r)
  unfolding begin
  begin-Moves client (err code) n = done
  begin-Moves client (ok b) n = loud C std true (started client b refl n)

  pub client_connect_locked-Moves :
      (client : Client C) → Done C std true client (client_connect_locked C std client)
  unfolding client_connect_locked
  client_connect_locked-Moves client = elim (Option-cases client.connection) [
    | inr (live, h) ↦ rw (h) done
    | inl n ↦
        subst
          (λ o. Done C std true client (
            if is_some o
            then (client, [], he_err_invalid_conn_state)
            else begin C std client (prepare C std client)))
          (sym n) (begin-Moves client (prepare C std client) n)
  ]
