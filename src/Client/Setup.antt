-- ===== src/Client/Setup.antt =====
-- The configuration of a client, by any calls of the setters.
use lightway_cffi.Base.{
  ℕ, ℤ, Bool, true, ◌&&◌, not, is_some, if◌then◌else◌, ◌≡◌, Option, none, some, List, [], ◌∷◌, inl,
  inr, Bool-cases, arith,
}
use lightway_cffi.Client.{ReturnCode, he_success, he_err_conf_not_set, Conn, SslCtx, ConnectionType}
use lightway_cffi.Client.Core.{Core, Client}
use lightway_cffi.Client.Setters.{
  set_state_change_cb, set_inside_write_cb, set_outside_write_cb, set_network_config_ipv4_cb,
  set_server_config_cb, set_nudge_time_cb, set_event_cb, set_auth_cb, set_auth_token_cb,
  set_auth_buf_cb, set_populate_network_config_ipv4_cb, set_pmtud_state_change_cb,
  set_pmtud_time_cb, set_expresslane_cb, set_expresslane_state_change_cb,
  set_expresslane_metrics_cb, set_use_pqc, set_use_chacha20, set_enable_expresslane, set_ca,
  set_server_dn, set_connection_type, c_str, connection_type_of, put_connection_type,
}
use lightway_cffi.Client.Access.{
  set_username, set_password, set_auth_token, set_sni_hostname, set_outside_mtu, set_context,
}
use lightway_cffi.Client.Connect.{is_config_valid, config_code}

-- A call of a setter, with what it is given.
pub data SetCall : Type 0 where
  on_state_change_cb on_inside_write_cb on_outside_write_cb on_network_config_ipv4_cb
        on_server_config_cb on_nudge_time_cb on_event_cb on_auth_cb on_auth_token_cb on_auth_buf_cb
        on_populate_network_config_ipv4_cb on_pmtud_state_change_cb on_pmtud_time_cb
        on_expresslane_cb on_expresslane_state_change_cb on_expresslane_metrics_cb :
      ℕ → SetCall
  on_use_pqc on_use_chacha20 on_enable_expresslane : Bool → SetCall
  on_ca on_auth_token : (memory : Option (List ℕ)) (len : ℕ) → SetCall
  on_server_dn on_username on_password on_sni_hostname : Option (List ℕ) → SetCall
  on_connection_type : ℤ → SetCall
  on_outside_mtu on_context : ℕ → SetCall

-- The validation, from what is set: the user name, the password, the token, the callback, the CA.
abbrev validated : Bool → Bool → Bool → Bool → Bool → ReturnCode
validated u w t o c =
    if not (u && w) && not t
    then he_err_conf_not_set
    else if not o
    then he_err_conf_not_set
    else if not c
    then he_err_conf_not_set
    else he_success

more_user :
    (u w t o c : Bool) → validated u w t o c ≡ he_success → validated true w t o c ≡ he_success
more_user u w t o c h = ground arith

more_password :
    (u w t o c : Bool) → validated u w t o c ≡ he_success → validated u true t o c ≡ he_success
more_password u w t o c h = ground arith

more_token :
    (u w t o c : Bool) → validated u w t o c ≡ he_success → validated u w true o c ≡ he_success
more_token u w t o c h = ground arith

more_callback :
    (u w t o c : Bool) → validated u w t o c ≡ he_success → validated u w t true c ≡ he_success
more_callback u w t o c h = ground arith

more_ca :
    (u w t o c : Bool) → validated u w t o c ≡ he_success → validated u w t o true ≡ he_success
more_ca u w t o c h = ground arith

module _ (C : Core) (is_utf8 : List ℕ → Bool) where
  -- The client after a setter wrote through `he_client_get_ssl_ctx` or `he_client_get_conn`.
  put_ssl_ctx : Client C → Option SslCtx × ReturnCode → Client C
  put_ssl_ctx client (none, code) = client
  put_ssl_ctx client (some ssl_ctx, code) = record client { ssl_ctx = ssl_ctx }

  put_conn : Client C → Option Conn × ReturnCode → Client C
  put_conn client (none, code) = client
  put_conn client (some conn, code) = record client { conn = conn }

  unfoldable pub configure : Client C → SetCall → Client C
  unfolding put_ssl_ctx put_conn
  configure client (on_state_change_cb cb) =
      put_ssl_ctx client (set_state_change_cb (some client.ssl_ctx) cb)
  configure client (on_inside_write_cb cb) =
      put_ssl_ctx client (set_inside_write_cb (some client.ssl_ctx) cb)
  configure client (on_outside_write_cb cb) =
      put_ssl_ctx client (set_outside_write_cb (some client.ssl_ctx) cb)
  configure client (on_network_config_ipv4_cb cb) =
      put_ssl_ctx client (set_network_config_ipv4_cb (some client.ssl_ctx) cb)
  configure client (on_server_config_cb cb) =
      put_ssl_ctx client (set_server_config_cb (some client.ssl_ctx) cb)
  configure client (on_nudge_time_cb cb) =
      put_ssl_ctx client (set_nudge_time_cb (some client.ssl_ctx) cb)
  configure client (on_event_cb cb) = put_ssl_ctx client (set_event_cb (some client.ssl_ctx) cb)
  configure client (on_auth_cb cb) = put_ssl_ctx client (set_auth_cb (some client.ssl_ctx) cb)
  configure client (on_auth_token_cb cb) =
      put_ssl_ctx client (set_auth_token_cb (some client.ssl_ctx) cb)
  configure client (on_auth_buf_cb cb) =
      put_ssl_ctx client (set_auth_buf_cb (some client.ssl_ctx) cb)
  configure client (on_populate_network_config_ipv4_cb cb) =
      put_ssl_ctx client (set_populate_network_config_ipv4_cb (some client.ssl_ctx) cb)
  configure client (on_pmtud_state_change_cb cb) =
      put_ssl_ctx client (set_pmtud_state_change_cb (some client.ssl_ctx) cb)
  configure client (on_pmtud_time_cb cb) =
      put_ssl_ctx client (set_pmtud_time_cb (some client.ssl_ctx) cb)
  configure client (on_expresslane_cb cb) =
      put_ssl_ctx client (set_expresslane_cb (some client.ssl_ctx) cb)
  configure client (on_expresslane_state_change_cb cb) =
      put_ssl_ctx client (set_expresslane_state_change_cb (some client.ssl_ctx) cb)
  configure client (on_expresslane_metrics_cb cb) =
      put_ssl_ctx client (set_expresslane_metrics_cb (some client.ssl_ctx) cb)
  configure client (on_use_pqc b) = put_ssl_ctx client (set_use_pqc (some client.ssl_ctx) b)
  configure client (on_use_chacha20 b) =
      put_ssl_ctx client (set_use_chacha20 (some client.ssl_ctx) b)
  configure client (on_enable_expresslane b) =
      put_ssl_ctx client (set_enable_expresslane (some client.ssl_ctx) b)
  configure client (on_ca memory len) = put_ssl_ctx client (set_ca (some client.ssl_ctx) memory len)
  configure client (on_server_dn memory) =
      put_ssl_ctx client (set_server_dn is_utf8 (some client.ssl_ctx) memory)
  configure client (on_connection_type v) =
      put_ssl_ctx client (set_connection_type (some client.ssl_ctx) v)
  configure client (on_auth_token memory len) =
      put_conn client (set_auth_token (some client.conn) memory len)
  configure client (on_username memory) = put_conn client (set_username (some client.conn) memory)
  configure client (on_password memory) = put_conn client (set_password (some client.conn) memory)
  configure client (on_sni_hostname memory) =
      put_conn client (set_sni_hostname (some client.conn) memory)
  configure client (on_outside_mtu mtu) = put_conn client (set_outside_mtu (some client.conn) mtu)
  configure client (on_context ctx) = put_conn client (set_context (some client.conn) ctx)

  unfoldable pub configure_all : Client C → List SetCall → Client C
  configure_all client [] = client
  configure_all client (call ∷ calls) = configure_all (configure client call) calls

  abbrev IsReady : Client C → Type 0
  IsReady client = is_config_valid C (some client) ≡ he_success

  connection_type-IsReady :
      (client : Client C) (t : Option ConnectionType)
      → IsReady client
      → IsReady (put_ssl_ctx client (put_connection_type client.ssl_ctx t))
  unfolding is_config_valid config_code put_ssl_ctx put_connection_type
  connection_type-IsReady client none h = h
  connection_type-IsReady client (some t) h = h

  configure-IsReady :
      (client : Client C) (call : SetCall) → IsReady client → IsReady (configure client call)
  unfolding configure is_config_valid config_code put_ssl_ctx put_conn set_state_change_cb
      set_inside_write_cb set_outside_write_cb set_network_config_ipv4_cb set_server_config_cb
      set_nudge_time_cb set_event_cb set_auth_cb set_auth_token_cb set_auth_buf_cb
      set_populate_network_config_ipv4_cb set_pmtud_state_change_cb set_pmtud_time_cb
      set_expresslane_cb set_expresslane_state_change_cb set_expresslane_metrics_cb set_use_pqc
      set_use_chacha20 set_enable_expresslane set_ca set_server_dn set_connection_type set_username
      set_password set_auth_token set_sni_hostname set_outside_mtu set_context
  configure-IsReady client (on_state_change_cb cb) h = h
  configure-IsReady client (on_inside_write_cb cb) h = h
  configure-IsReady client (on_outside_write_cb cb) h =
      more_callback (is_some client.conn.username) (is_some client.conn.password)
        (is_some client.conn.auth_token) (is_some client.ssl_ctx.outside_write_cb)
        (is_some client.ssl_ctx.ca_cert) h
  configure-IsReady client (on_network_config_ipv4_cb cb) h = h
  configure-IsReady client (on_server_config_cb cb) h = h
  configure-IsReady client (on_nudge_time_cb cb) h = h
  configure-IsReady client (on_event_cb cb) h = h
  configure-IsReady client (on_auth_cb cb) h = h
  configure-IsReady client (on_auth_token_cb cb) h = h
  configure-IsReady client (on_auth_buf_cb cb) h = h
  configure-IsReady client (on_populate_network_config_ipv4_cb cb) h = h
  configure-IsReady client (on_pmtud_state_change_cb cb) h = h
  configure-IsReady client (on_pmtud_time_cb cb) h = h
  configure-IsReady client (on_expresslane_cb cb) h = h
  configure-IsReady client (on_expresslane_state_change_cb cb) h = h
  configure-IsReady client (on_expresslane_metrics_cb cb) h = h
  configure-IsReady client (on_use_pqc b) h = h
  configure-IsReady client (on_use_chacha20 b) h = h
  configure-IsReady client (on_enable_expresslane b) h = h
  configure-IsReady client (on_ca none len) h = h
  configure-IsReady client (on_ca (some memory) len) h =
      more_ca (is_some client.conn.username) (is_some client.conn.password)
        (is_some client.conn.auth_token) (is_some client.ssl_ctx.outside_write_cb)
        (is_some client.ssl_ctx.ca_cert) h
  configure-IsReady client (on_server_dn none) h = h
  configure-IsReady client (on_server_dn (some memory)) h =
      elim (Bool-cases (is_utf8 (c_str memory))) [ inl t ↦ rw (t) h | inr f ↦ rw (f) h ]
  configure-IsReady client (on_connection_type v) h =
      connection_type-IsReady client (connection_type_of v) h
  configure-IsReady client (on_auth_token none len) h = h
  configure-IsReady client (on_auth_token (some memory) len) h =
      more_token (is_some client.conn.username) (is_some client.conn.password)
        (is_some client.conn.auth_token) (is_some client.ssl_ctx.outside_write_cb)
        (is_some client.ssl_ctx.ca_cert) h
  configure-IsReady client (on_username none) h = h
  configure-IsReady client (on_username (some memory)) h =
      more_user (is_some client.conn.username) (is_some client.conn.password)
        (is_some client.conn.auth_token) (is_some client.ssl_ctx.outside_write_cb)
        (is_some client.ssl_ctx.ca_cert) h
  configure-IsReady client (on_password none) h = h
  configure-IsReady client (on_password (some memory)) h =
      more_password (is_some client.conn.username) (is_some client.conn.password)
        (is_some client.conn.auth_token) (is_some client.ssl_ctx.outside_write_cb)
        (is_some client.ssl_ctx.ca_cert) h
  configure-IsReady client (on_sni_hostname none) h = h
  configure-IsReady client (on_sni_hostname (some memory)) h = h
  configure-IsReady client (on_outside_mtu mtu) h = h
  configure-IsReady client (on_context ctx) h = h

  -- A client whose configuration is valid stays so, whatever setters are called with whatever
  -- arguments, null pointers and values that are refused included.
  pub configure_all-is_config_valid :
      (client : Client C) (calls : List SetCall)
      → is_config_valid C (some client) ≡ he_success
      → is_config_valid C (some (configure_all client calls)) ≡ he_success
  unfolding configure_all
  configure_all-is_config_valid client [] h = h
  configure_all-is_config_valid client (call ∷ calls) h =
      configure_all-is_config_valid (configure client call) calls (configure-IsReady client call h)
