-- ===== src/Client.antt =====
-- src/types.rs and src/conn.rs: the client object of the C library and the values that it shows
-- to C. A function pointer and an opaque context are the numbers of their pointers, and a CString
-- is its bytes without the NUL.
use lightway_cffi.Base.{ℕ, Bool, true, false, Option, none, some, List, []}
use lightway_cffi.Timer.{CffiAppState}
pub mod Codes
pub mod Core
pub mod Lock
pub mod Setters
pub mod Access
pub mod Setup
pub mod Events
pub mod Teardown
pub mod Connect
pub mod Expresslane
pub mod Traffic
pub mod Nudge
pub mod Moves
pub mod Operate
pub mod History
pub mod Shown
pub mod Reports
pub mod Tracks
pub mod Captured
pub mod Ticks
pub mod Received
pub mod Retry
pub mod Pending
pub mod Toy
mod Examples
mod Tests
pub mod Config
pub mod Established

pub data ReturnCode : Type 0 where
  he_success he_err_failed he_err_null_pointer he_err_no_memory he_err_buffer_too_small
        he_err_bad_param he_err_access_denied he_err_payload_too_large he_err_string_too_long
        he_connection_timed_out he_err_incorrect_protocol_version he_err_ssl_error
        he_err_conf_not_set he_err_invalid_conn_state :
      ReturnCode

pub data ConnState : Type 0 where
  state_none state_disconnected state_connecting state_disconnecting state_authenticating
        state_link_up state_configuring state_online :
      ConnState

pub data ConnEvent : Type 0 where
  first_message_received pong rejected_fragmented_packets_sent_by_host secure_renegotiation_started
        secure_renegotiation_completed pending_session_acknowledged :
      ConnEvent

-- Also lightway-core's `ConnectionType`, which has the same two values.
pub data ConnectionType : Type 0 where
  datagram stream : ConnectionType

pub data ConnectionProtocol : Type 0 where
  protocol_none dtls_1_2 dtls_1_3 tls_1_2 tls_1_3 : ConnectionProtocol

pub data ExpresslaneState : Type 0 where
  el_disabled el_inactive el_waiting_for_client el_active el_degraded : ExpresslaneState

pub record NetworkConfigIpv4 : Type 0 where
  pub local_ip : List ℕ
  pub dns_ip : List ℕ
  pub peer_ip : List ℕ
  pub mtu : ℕ

pub record SslCtx : Type 0 where
  pub state_change_cb : Option ℕ
  pub inside_write_cb : Option ℕ
  pub outside_write_cb : Option ℕ
  pub network_config_ipv4_cb : Option ℕ
  pub server_config_cb : Option ℕ
  pub nudge_time_cb : Option ℕ
  pub event_cb : Option ℕ
  pub auth_cb : Option ℕ
  pub auth_token_cb : Option ℕ
  pub auth_buf_cb : Option ℕ
  pub populate_network_config_ipv4_cb : Option ℕ
  pub pmtud_state_change_cb : Option ℕ
  pub pmtud_time_cb : Option ℕ
  pub expresslane_cb : Option ℕ
  pub expresslane_state_change_cb : Option ℕ
  pub expresslane_metrics_cb : Option ℕ
  pub enable_expresslane : Bool
  pub connection_type : ConnectionType
  pub ca_cert : Option (List ℕ)
  pub server_dn : Option (List ℕ)
  pub use_pqc : Bool
  pub use_chacha20 : Bool

abbrev pub default_ssl_ctx : SslCtx
default_ssl_ctx = record {
  state_change_cb = none;
  inside_write_cb = none;
  outside_write_cb = none;
  network_config_ipv4_cb = none;
  server_config_cb = none;
  nudge_time_cb = none;
  event_cb = none;
  auth_cb = none;
  auth_token_cb = none;
  auth_buf_cb = none;
  populate_network_config_ipv4_cb = none;
  pmtud_state_change_cb = none;
  pmtud_time_cb = none;
  expresslane_cb = none;
  expresslane_state_change_cb = none;
  expresslane_metrics_cb = none;
  enable_expresslane = false;
  connection_type = datagram;
  ca_cert = none;
  server_dn = none;
  use_pqc = false;
  use_chacha20 = false;
}

-- `client_ptr` is whether the back-pointer is set, and `lock_owner` the token of the thread that
-- holds the lock, 0 for none. The lock itself is held between two operations by nobody.
pub record Conn : Type 0 where
  pub client_ptr : Bool
  pub lock_owner : ℕ
  pub username : Option (List ℕ)
  pub password : Option (List ℕ)
  pub auth_token : Option (List ℕ)
  pub sni_hostname : Option (List ℕ)
  pub outside_mtu : ℕ
  pub context : ℕ
  pub state : ConnState
  pub nudge_time_ms : ℕ
  pub outside_mtu_negotiated : ℕ
  pub effective_pmtu : ℕ
  pub current_protocol : ConnectionProtocol
  pub curve_name : Option (List ℕ)
  pub cipher_name : Option (List ℕ)

abbrev pub default_conn : Conn
default_conn = record {
  client_ptr = false;
  lock_owner = 0;
  username = none;
  password = none;
  auth_token = none;
  sni_hostname = none;
  outside_mtu = 1500;
  context = 0;
  state = state_none;
  nudge_time_ms = 0;
  outside_mtu_negotiated = 1500;
  effective_pmtu = 0;
  current_protocol = protocol_none;
  curve_name = none;
  cipher_name = none;
}
