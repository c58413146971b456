-- ===== src/Client/Teardown.antt =====
-- src/lib.rs: what every call on a live connection may end with, the snapshot of what was
-- negotiated and the teardown, and the graceful disconnect.
use lightway_cffi.Base.{
  ℕ, Bool, true, false, ◌||◌, ◌==◌, if◌then◌else◌, Option, none, some, List, [], ◌∷◌, ◌++◌,
}
use lightway_cffi.Client.{
  ReturnCode, he_success, ConnState, state_disconnected, state_disconnecting, ConnectionProtocol,
  protocol_none, dtls_1_2, dtls_1_3, tls_1_2, tls_1_3, Conn, SslCtx,
}
use lightway_cffi.Client.Core.{
  ProtocolVersion, dtls_v1_2, dtls_v1_3, tls_v1_2, tls_v1_3, other_version, Core, Std, Live, Client,
}
use lightway_cffi.Client.Events.{Call, state_change_call, call_if, run}
use lightway_cffi.Client.Lock.{lock_client, outcome, returning}

unfoldable pub protocol_of : ProtocolVersion → ConnectionProtocol
protocol_of dtls_v1_2 = dtls_1_2
protocol_of dtls_v1_3 = dtls_1_3
protocol_of tls_v1_2 = tls_1_2
protocol_of tls_v1_3 = tls_1_3
protocol_of other_version = protocol_none

abbrev has_nul : List ℕ → Bool
has_nul [] = false
has_nul (b ∷ bytes) = (b == 0) || has_nul bytes

-- `name.and_then(|c| CString::new(c).ok())`: a name with a NUL in it is none.
unfoldable pub c_string : Option (List ℕ) → Option (List ℕ)
c_string none = none
c_string (some name) = if has_nul name then none else some name

-- What was captured is kept.
abbrev pub or_else {ℓ} : {A : Type ℓ} → Option A → Option A → Option A
or_else none new = new
or_else (some old) new = some old

unfoldable pub capture_protocol : ConnectionProtocol → ProtocolVersion → ConnectionProtocol
capture_protocol protocol_none v = protocol_of v
capture_protocol dtls_1_2 v = dtls_1_2
capture_protocol dtls_1_3 v = dtls_1_3
capture_protocol tls_1_2 v = tls_1_2
capture_protocol tls_1_3 v = tls_1_3

abbrev pub is_disconnected : ConnState → Bool
is_disconnected state_disconnected = true
is_disconnected _ = false

abbrev pub is_disconnecting : ConnState → Bool
is_disconnecting state_disconnecting = true
is_disconnecting _ = false

-- The call of the state-change callback as the SSL context has it now.
abbrev pub notify : SslCtx → Conn → ConnState → List Call
notify ssl_ctx conn s = call_if ssl_ctx.state_change_cb (λ cb. state_change_call cb s conn.context)

module _ (C : Core) where
  unfoldable pub synced_conn : Conn → C.Connection → Conn
  unfolding capture_protocol c_string
  synced_conn conn core = record conn {
    current_protocol = capture_protocol conn.current_protocol (C.tls_protocol_version core);
    curve_name = or_else conn.curve_name (c_string (C.current_curve core));
    cipher_name = or_else conn.cipher_name (c_string (C.current_cipher core));
  }

  unfoldable pub snapshot : Conn → Option (Live C) → Conn
  unfolding synced_conn
  snapshot conn none = conn
  snapshot conn (some live) = synced_conn conn live.core

  unfoldable pub sync_conn_info : Client C → Client C
  unfolding snapshot
  sync_conn_info client = record client { conn = snapshot client.conn client.connection }

  unfoldable pub fatal_disconnect : Client C → Client C × List Call
  fatal_disconnect client =
      if is_disconnected client.conn.state then (record client { connection = none }, []) else (
        record client {
          conn = record client.conn { state = state_disconnected };
          connection = none;
        },
        notify client.ssl_ctx client.conn state_disconnected,
      )

  -- `connection.disconnect()`, if there is a connection. Its result is ignored.
  unfoldable pub goodbye : Std → Client C → Option (Live C) → Client C × List Call
  goodbye std client none = (client, [])
  goodbye std client (some live) =
      let (core', cs, result) = C.disconnect live.core in run C std client live core' cs

  unfoldable pub end_states : Client C → List Call → Client C × List Call × ReturnCode
  end_states client calls =
      if is_disconnecting client.conn.state || is_disconnected client.conn.state
      then (record client { connection = none }, calls, he_success)
      else (
        record client {
          conn = record client.conn { state = state_disconnected };
          connection = none;
        },
        calls
            ++ (notify client.ssl_ctx client.conn state_disconnecting
                ++ notify client.ssl_ctx client.conn state_disconnected),
        he_success,
      )

  unfoldable pub client_disconnect_locked : Std → Client C → Client C × List Call × ReturnCode
  unfolding goodbye end_states
  client_disconnect_locked std client =
      let (client', calls) = goodbye std client client.connection in end_states client' calls

  -- `he_client_disconnect`.
  unfoldable pub disconnect :
      Std → ℕ → Option (Client C) → Option (Client C) × List Call × ReturnCode
  unfolding lock_client
  disconnect std me client =
      outcome C (lock_client C me client (returning C (client_disconnect_locked std)))
