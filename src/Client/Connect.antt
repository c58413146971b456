-- ===== src/Client/Connect.antt =====
-- src/lib.rs: he_client_is_config_valid and he_client_connect.
use lightway_cffi.Base.{
  ℕ, Bool, true, false, ◌&&◌, not, if◌then◌else◌, is_some, Option, none, some, List, [], ◌++◌,
  Result, ok, err, ok_or, ◌>>=◌,
}
use lightway_cffi.Timer.{CffiAppState, default}
use lightway_cffi.Client.{
  ReturnCode, he_success, he_err_null_pointer, he_err_conf_not_set, he_err_bad_param,
  he_err_ssl_error, he_err_invalid_conn_state, ConnState, state_connecting, protocol_none, Conn,
  SslCtx,
}
use lightway_cffi.Client.Core.{AuthMethod, user_pass, token, Core, Std, Hooks, Client, Callback}
use lightway_cffi.Client.Events.{Call, Inner, callbacks}
use lightway_cffi.Client.Lock.{lock_client, outcome, returning}
use lightway_cffi.Client.Teardown.{notify}

abbrev pub is_connecting : ConnState → Bool
is_connecting state_connecting = true
is_connecting _ = false

module _ (C : Core) where
  unfoldable pub config_code : Client C → ReturnCode
  config_code client =
      let has_user_pass = is_some client.conn.username && is_some client.conn.password in
      let has_token = is_some client.conn.auth_token in
      if not has_user_pass && not has_token
      then he_err_conf_not_set
      else if not (is_some client.ssl_ctx.outside_write_cb)
      then he_err_conf_not_set
      else if not (is_some client.ssl_ctx.ca_cert)
      then he_err_conf_not_set
      else he_success

  unfoldable pub is_config_valid : Option (Client C) → ReturnCode
  unfolding config_code
  is_config_valid none = he_err_null_pointer
  is_config_valid (some client) = config_code client

module _ (C : Core) (std : Std) where
  unfoldable pub auth_of_token : Option (List ℕ) → Result AuthMethod ReturnCode
  auth_of_token none = err he_err_conf_not_set
  auth_of_token (some bytes) = if std.is_utf8 bytes then ok (token bytes) else err he_err_bad_param

  -- A user name with a password goes before a token.
  unfoldable pub auth_of :
      Option (List ℕ) → Option (List ℕ) → Option (List ℕ) → Result AuthMethod ReturnCode
  unfolding auth_of_token
  auth_of none pass tok = auth_of_token tok
  auth_of (some user) none tok = auth_of_token tok
  auth_of (some user) (some pass) tok =
      if std.is_utf8 user && std.is_utf8 pass
      then ok (user_pass user pass)
      else err he_err_bad_param

  -- An optional step of the builder.
  abbrev build_if {ℓ} : {A : Type ℓ} → Option ℕ → (A → ℕ → A) → A → A
  build_if none step b = b
  build_if (some cb) step b = step b cb

  unfoldable pub chacha20_step : SslCtx → C.Builder → Result C.Builder ReturnCode
  chacha20_step ssl_ctx b =
      if ssl_ctx.use_chacha20 then ok_or (C.with_chacha20 b) he_err_ssl_error else ok b

  expresslane_step : SslCtx → C.Builder → C.Builder
  expresslane_step ssl_ctx b =
      if ssl_ctx.enable_expresslane
      then build_if ssl_ctx.expresslane_metrics_cb C.with_expresslane_metrics
          (build_if ssl_ctx.expresslane_cb C.with_expresslane_cb (C.with_expresslane b))
      else b

  -- A name that is set must be UTF-8.
  unfoldable pub named_step :
      Option (List ℕ)
      → (C.ConnBuilder → List ℕ → C.ConnBuilder)
      → C.ConnBuilder
      → Result C.ConnBuilder ReturnCode
  named_step none step b = ok b
  named_step (some name) step b =
      if std.is_utf8 name then ok (step b name) else err he_err_bad_param

  pqc_step : SslCtx → C.ConnBuilder → C.ConnBuilder
  pqc_step ssl_ctx b = if ssl_ctx.use_pqc then C.with_pq_crypto b else b

  -- The builders, from the context's to the connection's.
  unfoldable pub build : Client C → ℕ → List ℕ → AuthMethod → Result C.ConnBuilder ReturnCode
  unfolding chacha20_step expresslane_step named_step pqc_step
  build client outside_write_cb ca_cert auth = do
    new_builder ←
        ok_or
          (C.new_builder client.ssl_ctx.connection_type ca_cert client.ssl_ctx.inside_write_cb
            client.ssl_ctx.network_config_ipv4_cb)
          he_err_ssl_error
    ctx_builder ← chacha20_step client.ssl_ctx new_builder
    conn_builder ←
        ok_or
          (C.start_connect (expresslane_step client.ssl_ctx ctx_builder) outside_write_cb
            client.conn.outside_mtu)
          he_err_ssl_error
    validated ←
        named_step client.ssl_ctx.server_dn C.with_server_domain_name_validation
          (C.with_auth conn_builder auth)
    named ← named_step client.conn.sni_hostname C.with_sni_header validated
    ok (pqc_step client.ssl_ctx named)

  -- Everything before `connect()`: it changes nothing in the client.
  unfoldable pub prepare : Client C → Result C.ConnBuilder ReturnCode
  unfolding auth_of build
  prepare client = do
    outside_write_cb ← ok_or client.ssl_ctx.outside_write_cb he_err_conf_not_set
    ca_cert ← ok_or client.ssl_ctx.ca_cert he_err_conf_not_set
    auth ← auth_of client.conn.username client.conn.password client.conn.auth_token
    build client outside_write_cb ca_cert auth

  unfoldable pub hooks_of : Client C → Hooks
  hooks_of client = record {
    state_change_cb = client.ssl_ctx.state_change_cb;
    event_cb = client.ssl_ctx.event_cb;
    expresslane_state_change_cb = client.ssl_ctx.expresslane_state_change_cb;
    network_config_ipv4_cb = client.ssl_ctx.network_config_ipv4_cb;
    ctx = client.conn.context;
  }

  new_app_state : Client C → CffiAppState C.Payload
  new_app_state client = record default {
    nudge_time_cb = client.ssl_ctx.nudge_time_cb;
    ctx = client.conn.context;
  }

  -- The connection object of a fresh connection.
  unfoldable pub fresh_conn : Conn → Conn
  fresh_conn conn = record conn {
    current_protocol = protocol_none;
    curve_name = none;
    cipher_name = none;
    outside_mtu_negotiated = conn.outside_mtu;
    state = state_connecting;
  }

  -- The transition to connecting is synthesised, unless the state is that already.
  unfoldable pub connecting_calls : SslCtx → Conn → ℕ → List Call
  connecting_calls ssl_ctx conn ctx =
      if is_connecting conn.state
      then []
      else notify ssl_ctx (record conn { context = ctx }) state_connecting

  unfoldable pub install :
      Client C → Inner C std → Option C.Connection → Client C × List Call × ReturnCode
  unfolding fresh_conn connecting_calls hooks_of
  install client inner none = (record client { conn = inner.conn }, inner.calls, he_err_ssl_error)
  install client inner (some core) = (
    record client {
      conn = fresh_conn inner.conn;
      connection =
          some (record { core = core; app_state = inner.app_state; hooks = hooks_of client });
    },
    inner.calls ++ connecting_calls client.ssl_ctx inner.conn client.conn.context,
    he_success,
  )

  unfoldable pub opening : Client C → Inner C std
  unfolding new_app_state
  opening client = record { conn = client.conn; app_state = new_app_state client; calls = [] }

  unfoldable pub connect_with :
      Client C → List (Callback C.Payload) × Option C.Connection → Client C × List Call × ReturnCode
  unfolding install hooks_of opening
  connect_with client (cs, connection) =
      install client (callbacks C std (hooks_of client) (opening client) cs) connection

  unfoldable pub begin :
      Client C → Result C.ConnBuilder ReturnCode → Client C × List Call × ReturnCode
  unfolding connect_with
  begin client (err code) = (client, [], code)
  begin client (ok builder) = connect_with client (C.connect builder)

  unfoldable pub client_connect_locked : Client C → Client C × List Call × ReturnCode
  unfolding begin prepare
  client_connect_locked client =
      if is_some client.connection
      then (client, [], he_err_invalid_conn_state)
      else begin client (prepare client)

  -- `he_client_connect`.
  unfoldable pub connect : ℕ → Option (Client C) → Option (Client C) × List Call × ReturnCode
  unfolding lock_client
  connect me client = outcome C (lock_client C me client (returning C client_connect_locked))
