-- ===== src/Client/Events.antt =====
-- src/cffi_event.rs, src/cffi_ip_config.rs and src/cffi_io.rs: what lightway-core's callbacks do to
-- the client, and the C callbacks that they make. A C callback that comes back into the library is
-- refused by the lock, and one that uses a setter is not modelled.
use lightway_cffi.Base.{
  ℕ, Option, none, some, List, [], ◌∷◌, ◌++◌, take, length, min, replicate, write_at, Result, ok,
  err,
}
use lightway_cffi.Timer.{CffiAppState, InsideIpConfig, cffi_schedule_tick_cb}
use lightway_cffi.Client.{
  ReturnCode, he_success, ConnState, state_disconnected, state_connecting, state_disconnecting,
  state_authenticating, state_link_up, state_online, ConnEvent, first_message_received, pong,
  secure_renegotiation_started, secure_renegotiation_completed, pending_session_acknowledged,
  ExpresslaneState, NetworkConfigIpv4, Conn,
}
use lightway_cffi.Client.Core.{
  State, connecting, link_up, authenticating, online, disconnecting, disconnected, Event,
  state_changed, keepalive_reply, first_packet_received, session_id_rotation_acknowledged,
  tls_keys_update_start, tls_keys_update_completed, encoding_state_changed,
  session_id_rotation_started, expresslane_state_changed, Callback, event, schedule_tick,
  set_ip_config, Core, Std, Hooks, Live, Client,
}

-- A call of a C callback: its pointer, its argument, and the context.
pub data Call : Type 0 where
  state_change_call : ℕ → ConnState → ℕ → Call
  event_call : ℕ → ConnEvent → ℕ → Call
  expresslane_state_call : ℕ → ExpresslaneState → ℕ → Call
  network_config_call : ℕ → NetworkConfigIpv4 → ℕ → Call
  nudge_time_call : ℕ → ℕ → ℕ → Call

unfoldable pub rust_state_to_c : State → ConnState
rust_state_to_c connecting = state_connecting
rust_state_to_c link_up = state_link_up
rust_state_to_c authenticating = state_authenticating
rust_state_to_c online = state_online
rust_state_to_c disconnecting = state_disconnecting
rust_state_to_c disconnected = state_disconnected

-- lightway-core's `ExpresslaneState` has the C type's values, under the same names.
rust_expresslane_state_to_c : ExpresslaneState → ExpresslaneState
rust_expresslane_state_to_c state = state

-- The call of a callback, if it is set.
abbrev pub call_if : Option ℕ → (ℕ → Call) → List Call
call_if none call = []
call_if (some cb) call = call cb ∷ []

unfoldable pub fire_event : Hooks → ConnEvent → List Call
fire_event hooks ev = call_if hooks.event_cb (λ cb. event_call cb ev hooks.ctx)

-- The connection object after an event, and the calls.
unfoldable pub on_event : Hooks → Conn → Event → Conn × List Call
unfolding rust_state_to_c rust_expresslane_state_to_c fire_event
on_event hooks conn (state_changed s) = (
  record conn { state = rust_state_to_c s },
  call_if hooks.state_change_cb (λ cb. state_change_call cb (rust_state_to_c s) hooks.ctx),
)
on_event hooks conn keepalive_reply = (conn, fire_event hooks pong)
on_event hooks conn first_packet_received = (conn, fire_event hooks first_message_received)
on_event hooks conn session_id_rotation_acknowledged =
    (conn, fire_event hooks pending_session_acknowledged)
on_event hooks conn tls_keys_update_start = (conn, fire_event hooks secure_renegotiation_started)
on_event hooks conn tls_keys_update_completed =
    (conn, fire_event hooks secure_renegotiation_completed)
on_event hooks conn (expresslane_state_changed s) = (
  conn,
  call_if hooks.expresslane_state_change_cb
      (λ cb. expresslane_state_call cb (rust_expresslane_state_to_c s) hooks.ctx),
)
on_event hooks conn encoding_state_changed = (conn, [])
on_event hooks conn session_id_rotation_started = (conn, [])

-- `result == HE_SUCCESS` of the C callback that takes a packet: the bytes sent, or its code.
unfoldable pub send : List ℕ → ReturnCode → Result ℕ ReturnCode
send buf he_success = ok (length buf)
send buf code = err code

module _ (C : Core) (std : Std) where
  -- The text and a NUL at the front of `dst`, at most 63 bytes of it.
  unfoldable pub copy_ip_str : List ℕ → List ℕ → List ℕ
  copy_ip_str addr dst =
      let s = std.display addr in
      let len = min (length s) 63 in write_at (write_at dst 0 (take len s)) len (0 ∷ [])

  network_config : InsideIpConfig → NetworkConfigIpv4
  unfolding copy_ip_str
  network_config config = record {
    local_ip = copy_ip_str config.client_ip (replicate 64 0);
    dns_ip = copy_ip_str config.dns_ip (replicate 64 0);
    peer_ip = copy_ip_str config.server_ip (replicate 64 0);
    mtu = C.max_inside_mtu;
  }

  unfoldable pub on_ip_config :
      Hooks → CffiAppState C.Payload → InsideIpConfig → CffiAppState C.Payload × List Call
  unfolding network_config
  on_ip_config hooks app_state config = (
    record app_state { ip_config = some config },
    call_if hooks.network_config_ipv4_cb
        (λ cb. network_config_call cb (network_config config) hooks.ctx),
  )

  unfoldable pub nudge_time_calls : CffiAppState C.Payload → Option ℕ → List Call
  nudge_time_calls app_state none = []
  nudge_time_calls app_state (some timeout) =
      call_if app_state.nudge_time_cb (λ cb. nudge_time_call cb timeout app_state.ctx)

  -- What the callbacks of one call of the core change.
  pub record Inner : Type 0 where
    pub conn : Conn
    pub app_state : CffiAppState C.Payload
    pub calls : List Call

  unfoldable pub callback : Hooks → Inner → Callback C.Payload → Inner
  unfolding nudge_time_calls
  callback hooks inner (event e) =
      let (conn', calls) = on_event hooks inner.conn e in
      record inner { conn = conn'; calls = inner.calls ++ calls }
  callback hooks inner (schedule_tick now delay tick) =
      let (app_state', timeout) = cffi_schedule_tick_cb now delay inner.app_state tick in
      record inner {
        app_state = app_state';
        calls = inner.calls ++ nudge_time_calls app_state' timeout;
      }
  callback hooks inner (set_ip_config config) =
      let (app_state', calls) = on_ip_config hooks inner.app_state config in
      record inner { app_state = app_state'; calls = inner.calls ++ calls }

  unfoldable pub callbacks : Hooks → Inner → List (Callback C.Payload) → Inner
  callbacks hooks inner [] = inner
  callbacks hooks inner (c ∷ cs) = callbacks hooks (callback hooks inner c) cs

  -- The connection object and the live connection after a call of the core, and the calls made.
  unfoldable pub run_live :
      Conn → Live C → C.Connection → List (Callback C.Payload) → Conn × Live C × List Call
  run_live conn live core cs =
      let inner =
        callbacks live.hooks (record { conn = conn; app_state = live.app_state; calls = [] }) cs in
      (inner.conn, record live { core = core; app_state = inner.app_state }, inner.calls)

  -- The same on the whole client.
  unfoldable pub run :
      Client C → Live C → C.Connection → List (Callback C.Payload) → Client C × List Call
  unfolding run_live
  run client live core cs =
      let (conn', live', calls) = run_live client.conn live core cs in
      (record client { conn = conn'; connection = some live' }, calls)
