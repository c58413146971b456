-- ===== src/Client/Examples.antt =====
-- The client at work on the core of Toy.
use lightway_cffi.Base.{
  ℕ, ◌≤◌, ◌+◌, negsuc, true, ◌≡◌, refl, arith, none, some, List, [], ◌∷◌, ◌++◌, err,
}
use lightway_cffi.Timer.{unwrap_or, nanos_per_ms, default}
use lightway_cffi.Client.{
  he_success, he_err_failed, state_none, state_connecting, state_online, state_disconnecting,
  state_disconnected, dtls_1_3, datagram, Conn, default_conn, default_ssl_ctx,
}
use lightway_cffi.Client.Core.{connecting, Live, Client}
use lightway_cffi.Client.Toy.{toy_core, toy_std, toy_laws}
use lightway_cffi.Client.Setup.{
  SetCall, on_ca, on_connection_type, on_event_cb, configure_all, configure_all-is_config_valid,
}
use lightway_cffi.Client.Events.{
  state_change_call, run, run_live, callbacks, callback, on_event, rust_state_to_c,
}
use lightway_cffi.Client.Lock.{lock_client, with_client, set_owner}
use lightway_cffi.Client.Teardown.{
  disconnect, client_disconnect_locked, goodbye, end_states, sync_conn_info, snapshot,
}
use lightway_cffi.Client.Traffic.{outside_data_received, outside_locked, after_outside}
use lightway_cffi.Client.Connect.{
  is_config_valid, config_code, client_connect_locked, connect, begin, prepare, auth_of, build,
  connect_with, install, hooks_of, opening, connecting_calls, fresh_conn,
}
use lightway_cffi.Client.Nudge.{
  Clock, nudge, nudge_locked, payload_step, after_connection, connection_tick_step, payload_phase,
  partition_due, dispatch, fatal_of, after_payload,
}
use lightway_cffi.Client.History.{
  Op, connect_op, disconnect_op, outside_op, inside_op, rotate_op, nudge_op, operate, history,
  history-lock_owner,
}
use lightway_cffi.Client.Received.{OutsideEnd, outside_locked-OutsideEnd}
use lightway_cffi.Client.Shown.{reported}
use lightway_cffi.Client.Reports.{IsHeard, history-reported}
use lightway_cffi.Client.Tracks.{Tracks, history-Tracks}
use lightway_cffi.Client.Captured.{Keeps, history-Keeps}
use lightway_cffi.Client.Config.{is_conf_not_set, client_connect_locked-is_config_valid}
use lightway_cffi.Client.Established.{ConnectEnd, client_connect_locked-ConnectEnd}
use lightway_cffi.Client.Ticks.{NudgeEnd, nudge_locked-NudgeEnd}
use lightway_cffi.Client.Retry.{Waits, nudge_locked-Waits}
use lightway_cffi.Client.Pending.{
  select, due_at, not_due_at, tick_all, asked_by, payload_step-tick_all, payload_step-select,
}

abbrev host_conn : Conn
host_conn = record default_conn {
  client_ptr = true;
  username = some (117 ∷ []);
  password = some (112 ∷ []);
}

abbrev host : Client toy_core
host = record {
  conn = host_conn;
  ssl_ctx = record default_ssl_ctx {
    state_change_cb = some 9;
    outside_write_cb = some 7;
    ca_cert = some (1 ∷ []);
  };
  connection = none;
}

-- Its handshake fails with a benign error, and it waits for three ticks.
abbrev live : Live toy_core
live = record {
  core = record { phase = connecting; fault = some 3 };
  app_state = record {
    next_tick = some 100;
    pending_ticks = (40, 1) ∷ (900, 2) ∷ [];
    ip_config = none;
    nudge_time_cb = some 5;
    ctx = 0;
  };
  hooks = record {
    state_change_cb = some 9;
    event_cb = none;
    expresslane_state_change_cb = none;
    network_config_ipv4_cb = none;
    ctx = 0;
  };
}

abbrev connected_host : Client toy_core
connected_host = record host {
  conn = record host_conn {
    state = state_connecting;
    current_protocol = dtls_1_3;
    cipher_name = some (65 ∷ []);
  };
  connection = some live;
}

abbrev clock : Clock
clock = record {
  connection_tick_now = 100;
  retry_now = 101;
  error_now = 102;
  payload_now = 103;
  timeout_now = 104;
}

abbrev day : List (ℕ × Op)
day = (1, connect_op) ∷ (1, outside_op (1 ∷ []) 1) ∷ (2, nudge_op clock) ∷ (1, disconnect_op) ∷ []

abbrev traffic : List (ℕ × Op)
traffic = (1, outside_op (1 ∷ []) 1) ∷ (2, inside_op (1 ∷ []) 1) ∷ (2, rotate_op 9) ∷ []

host-IsHeard : IsHeard toy_core toy_std 9 host
host-IsHeard = record { set = refl; connected = tt }

-- The host is told of the connection coming up and of its end, once each.
day_calls :
    (history toy_core toy_std day (some host)).1
    ≡ state_change_call 9 state_connecting 0
      ∷ state_change_call 9 state_online 0
      ∷ state_change_call 9 state_disconnecting 0
      ∷ state_change_call 9 state_disconnected 0
      ∷ []
unfolding history operate connect disconnect outside_data_received nudge lock_client with_client
    set_owner client_connect_locked begin prepare auth_of build connect_with install hooks_of
    opening connecting_calls fresh_conn outside_locked after_outside nudge_locked after_connection
    connection_tick_step payload_phase payload_step partition_due dispatch after_payload
    client_disconnect_locked goodbye end_states run run_live callbacks callback on_event
    rust_state_to_c sync_conn_info snapshot default
day_calls = refl

history-reported_example :
    (after : Client toy_core) × (((history toy_core toy_std day (some host)).0 ≡ some after)
      × (reported state_none (history toy_core toy_std day (some host)).1 ≡ after.conn.state))
history-reported_example = history-reported toy_core toy_std 9 day host host-IsHeard

history-Tracks_example :
    (after : Client toy_core) × (((history toy_core toy_std day (some host)).0 ≡ some after)
      × Tracks toy_core toy_std after.conn.state after.connection)
history-Tracks_example = history-Tracks toy_core toy_std toy_laws day host refl

history-Keeps_example :
    (after : Client toy_core) × (((history toy_core toy_std traffic (some connected_host)).0
        ≡ some after)
      × Keeps connected_host.conn after.conn)
history-Keeps_example = history-Keeps toy_core toy_std traffic connected_host refl

history-lock_owner_example :
    (after : Client toy_core) × (((history toy_core toy_std day (some host)).0 ≡ some after)
      × (after.conn.lock_owner ≡ 0))
history-lock_owner_example = history-lock_owner toy_core toy_std day host refl

abbrev busy : Client toy_core → Client toy_core
busy client = record client { conn = record client.conn { nudge_time_ms = 7 } }

client_connect_locked-is_config_valid_example :
    is_conf_not_set (client_connect_locked toy_core toy_std host).2
    ≡ is_conf_not_set (is_config_valid toy_core (some host))
client_connect_locked-is_config_valid_example =
    client_connect_locked-is_config_valid toy_core toy_std host refl

client_connect_locked-ConnectEnd_example :
    ConnectEnd toy_core toy_std host (client_connect_locked toy_core toy_std host)
client_connect_locked-ConnectEnd_example = client_connect_locked-ConnectEnd toy_core toy_std host

-- The core of Toy takes an empty packet for a fatal error.
outside_locked-OutsideEnd_example :
    let ran = run_live toy_core toy_std connected_host.conn live live.core [] in
    OutsideEnd toy_core toy_std
      (run toy_core toy_std connected_host live live.core []).0
      datagram
      (err 2)
      ran.1
      (outside_locked toy_core toy_std [] connected_host)
outside_locked-OutsideEnd_example =
    outside_locked-OutsideEnd toy_core toy_std [] connected_host live refl

nudge_locked-NudgeEnd_example :
    NudgeEnd toy_core clock (nudge_locked toy_core toy_std clock connected_host)
nudge_locked-NudgeEnd_example =
    nudge_locked-NudgeEnd toy_core toy_std clock connected_host live refl

nudge_locked-Waits_example :
    let r = nudge_locked toy_core toy_std clock connected_host in
    (live' : Live toy_core) × ((r.0.connection ≡ some live')
      × Waits toy_core toy_std (101 + unwrap_or (some 2000000) nanos_per_ms) live'
      × (1 ≤ r.0.conn.nudge_time_ms)
      × (r.2 ≡ he_err_failed))
nudge_locked-Waits_example =
    nudge_locked-Waits toy_core toy_std clock connected_host live 100 live.core [] 3 refl refl
      (omega arith) refl refl refl

no_error : (payload_step toy_core toy_std clock host_conn live).3 ≡ none
unfolding payload_step partition_due dispatch fatal_of run_live
no_error = refl

payload_step-tick_all_example :
    (payload_step toy_core toy_std clock host_conn live).1.core
    ≡ tick_all toy_core toy_std live.core (select (due_at 103) live.app_state.pending_ticks)
payload_step-tick_all_example = payload_step-tick_all toy_core toy_std clock host_conn live no_error

payload_step-select_example :
    (payload_step toy_core toy_std clock host_conn live).1.app_state.pending_ticks
    ≡ select (not_due_at 103) live.app_state.pending_ticks
      ++ asked_by toy_core toy_std
          (toy_core.connection_type live.core)
          (select (due_at 103) live.app_state.pending_ticks)
          live.core
payload_step-select_example = payload_step-select toy_core toy_std clock host_conn live

abbrev set_calls : List SetCall
set_calls = on_event_cb 4 ∷ on_ca none 5 ∷ on_connection_type (negsuc 0) ∷ []

host_valid : is_config_valid toy_core (some host) ≡ he_success
unfolding is_config_valid config_code
host_valid = refl

configure_all-is_config_valid_example :
    is_config_valid toy_core (some (configure_all toy_core (λ b. true) host set_calls)) ≡ he_success
configure_all-is_config_valid_example =
    configure_all-is_config_valid toy_core (λ b. true) host set_calls host_valid
