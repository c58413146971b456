-- ===== src/Client/Core.antt =====
-- lightway-core as the client uses it, and the client object around a connection of it.
use lightway_cffi.Base.{ℕ, Bool, true, Option, none, List, Result}
use lightway_cffi.Timer.{TickType, CffiAppState, InsideIpConfig}
use lightway_cffi.Client.{
  Conn, SslCtx, ConnectionType, ExpresslaneState, default_conn, default_ssl_ctx,
}

pub data State : Type 0 where
  connecting link_up authenticating online disconnecting disconnected : State

pub data ProtocolVersion : Type 0 where
  dtls_v1_2 dtls_v1_3 tls_v1_2 tls_v1_3 other_version : ProtocolVersion

pub data Event : Type 0 where
  state_changed : State → Event
  keepalive_reply first_packet_received session_id_rotation_acknowledged tls_keys_update_start
        tls_keys_update_completed encoding_state_changed session_id_rotation_started :
      Event
  expresslane_state_changed : ExpresslaneState → Event

pub data AuthMethod : Type 0 where
  user_pass : (user password : List ℕ) → AuthMethod
  token : List ℕ → AuthMethod

-- What a call of the core does to its owner: the callbacks that it runs, in their order. A tick
-- is scheduled at an instant, for a delay.
pub data Callback (P : Type 0) : Type 0 where
  event : Event → Callback P
  schedule_tick : (now delay : ℕ) → TickType P → Callback P
  set_ip_config : InsideIpConfig → Callback P

-- A call gives the connection after it, the callbacks that it ran, and its result. The connection
-- is generic in its AppState, so what it does cannot depend on that.
pub record Core : Type 1 where
  pub Connection : Type 0
  pub Payload : Type 0
  pub Error : Type 0
  pub Builder : Type 0
  pub ConnBuilder : Type 0
  pub max_inside_mtu : ℕ
  pub is_timed_out : Error → Bool
  pub is_invalid_state : Error → Bool
  pub is_fatal : Error → ConnectionType → Bool
  -- `ClientContextBuilder` and `ClientConnectionBuilder`: a failed call gives none.
  pub new_builder : ConnectionType → List ℕ → Option ℕ → Option ℕ → Option Builder
  pub with_chacha20 : Builder → Option Builder
  pub with_expresslane : Builder → Builder
  pub with_expresslane_cb : Builder → ℕ → Builder
  pub with_expresslane_metrics : Builder → ℕ → Builder
  pub start_connect : Builder → ℕ → ℕ → Option ConnBuilder
  pub with_auth : ConnBuilder → AuthMethod → ConnBuilder
  pub with_server_domain_name_validation : ConnBuilder → List ℕ → ConnBuilder
  pub with_sni_header : ConnBuilder → List ℕ → ConnBuilder
  pub with_pq_crypto : ConnBuilder → ConnBuilder
  pub connect : ConnBuilder → List (Callback Payload) × Option Connection
  pub connection_type : Connection → ConnectionType
  pub state : Connection → State
  pub tick_interval : Connection → Option ℕ
  pub session_id : Connection → List ℕ
  pub tunnel_protocol_version : Connection → ℕ
  pub tls_protocol_version : Connection → ProtocolVersion
  pub current_curve : Connection → Option (List ℕ)
  pub current_cipher : Connection → Option (List ℕ)
  pub tick :
      Connection → TickType Payload → Connection × List (Callback Payload) × Result (Unit {0}) Error
  pub outside_data_received :
      Connection → List ℕ → Connection × List (Callback Payload) × Result (Unit {0}) Error
  pub inside_data_received :
      Connection → List ℕ → Connection × List (Callback Payload) × Result (Unit {0}) Error
  pub disconnect : Connection → Connection × List (Callback Payload) × Result (Unit {0}) Error
  pub rotate_expresslane_key :
      Connection → Connection × List (Callback Payload) × Result (Unit {0}) Error

-- The standard library's tests and printers: whether bytes are UTF-8, and an address as text.
pub record Std : Type 0 where
  pub is_utf8 : List ℕ → Bool
  pub display : List ℕ → List ℕ

-- `CffiEventCallback` and `CffiIpConfig`: the C callbacks as they were when the client connected.
pub record Hooks : Type 0 where
  pub state_change_cb : Option ℕ
  pub event_cb : Option ℕ
  pub expresslane_state_change_cb : Option ℕ
  pub network_config_ipv4_cb : Option ℕ
  pub ctx : ℕ

module _ (C : Core) where
  -- A `Connection<CffiAppState>` with what it was given.
  pub record Live : Type 0 where
    pub core : C.Connection
    pub app_state : CffiAppState C.Payload
    pub hooks : Hooks

  pub record Client : Type 0 where
    pub conn : Conn
    pub ssl_ctx : SslCtx
    pub connection : Option Live

  -- `he_client_t::new`.
  abbrev pub new_client : Client
  new_client = record {
    conn = record default_conn { client_ptr = true };
    ssl_ctx = default_ssl_ctx;
    connection = none;
  }
