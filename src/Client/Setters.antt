-- ===== src/Client/Setters.antt =====
-- src/lib.rs: the setters of the SSL context. A null pointer is none, a callback the number of its
-- pointer, and what a pointer to characters points at the bytes from there on.
use lightway_cffi.Base.{
  ℕ, ℤ, pos, negsuc, ◌==◌, if◌then◌else◌, Bool, Option, none, some, List, [], ◌∷◌,
}
use lightway_cffi.Capi.{from_raw_parts}
use lightway_cffi.Client.{
  ReturnCode, he_success, he_err_null_pointer, he_err_bad_param, SslCtx, ConnectionType, datagram,
  stream,
}

-- `CStr::from_ptr`: the bytes before the NUL.
unfoldable pub c_str : List ℕ → List ℕ
c_str [] = []
c_str (b ∷ bytes) = let rest = c_str bytes in if b == 0 then [] else b ∷ rest

unfoldable pub set_state_change_cb : Option SslCtx → ℕ → Option SslCtx × ReturnCode
set_state_change_cb none cb = (none, he_err_null_pointer)
set_state_change_cb (some ssl_ctx) cb =
    (some (record ssl_ctx { state_change_cb = some cb }), he_success)

unfoldable pub set_inside_write_cb : Option SslCtx → ℕ → Option SslCtx × ReturnCode
set_inside_write_cb none cb = (none, he_err_null_pointer)
set_inside_write_cb (some ssl_ctx) cb =
    (some (record ssl_ctx { inside_write_cb = some cb }), he_success)

unfoldable pub set_outside_write_cb : Option SslCtx → ℕ → Option SslCtx × ReturnCode
set_outside_write_cb none cb = (none, he_err_null_pointer)
set_outside_write_cb (some ssl_ctx) cb =
    (some (record ssl_ctx { outside_write_cb = some cb }), he_success)

unfoldable pub set_network_config_ipv4_cb : Option SslCtx → ℕ → Option SslCtx × ReturnCode
set_network_config_ipv4_cb none cb = (none, he_err_null_pointer)
set_network_config_ipv4_cb (some ssl_ctx) cb =
    (some (record ssl_ctx { network_config_ipv4_cb = some cb }), he_success)

unfoldable pub set_server_config_cb : Option SslCtx → ℕ → Option SslCtx × ReturnCode
set_server_config_cb none cb = (none, he_err_null_pointer)
set_server_config_cb (some ssl_ctx) cb =
    (some (record ssl_ctx { server_config_cb = some cb }), he_success)

unfoldable pub set_nudge_time_cb : Option SslCtx → ℕ → Option SslCtx × ReturnCode
set_nudge_time_cb none cb = (none, he_err_null_pointer)
set_nudge_time_cb (some ssl_ctx) cb =
    (some (record ssl_ctx { nudge_time_cb = some cb }), he_success)

unfoldable pub set_event_cb : Option SslCtx → ℕ → Option SslCtx × ReturnCode
set_event_cb none cb = (none, he_err_null_pointer)
set_event_cb (some ssl_ctx) cb = (some (record ssl_ctx { event_cb = some cb }), he_success)

unfoldable pub set_auth_cb : Option SslCtx → ℕ → Option SslCtx × ReturnCode
set_auth_cb none cb = (none, he_err_null_pointer)
set_auth_cb (some ssl_ctx) cb = (some (record ssl_ctx { auth_cb = some cb }), he_success)

unfoldable pub set_auth_token_cb : Option SslCtx → ℕ → Option SslCtx × ReturnCode
set_auth_token_cb none cb = (none, he_err_null_pointer)
set_auth_token_cb (some ssl_ctx) cb =
    (some (record ssl_ctx { auth_token_cb = some cb }), he_success)

unfoldable pub set_auth_buf_cb : Option SslCtx → ℕ → Option SslCtx × ReturnCode
set_auth_buf_cb none cb = (none, he_err_null_pointer)
set_auth_buf_cb (some ssl_ctx) cb = (some (record ssl_ctx { auth_buf_cb = some cb }), he_success)

unfoldable pub set_populate_network_config_ipv4_cb : Option SslCtx → ℕ → Option SslCtx × ReturnCode
set_populate_network_config_ipv4_cb none cb = (none, he_err_null_pointer)
set_populate_network_config_ipv4_cb (some ssl_ctx) cb =
    (some (record ssl_ctx { populate_network_config_ipv4_cb = some cb }), he_success)

unfoldable pub set_pmtud_state_change_cb : Option SslCtx → ℕ → Option SslCtx × ReturnCode
set_pmtud_state_change_cb none cb = (none, he_err_null_pointer)
set_pmtud_state_change_cb (some ssl_ctx) cb =
    (some (record ssl_ctx { pmtud_state_change_cb = some cb }), he_success)

unfoldable pub set_pmtud_time_cb : Option SslCtx → ℕ → Option SslCtx × ReturnCode
set_pmtud_time_cb none cb = (none, he_err_null_pointer)
set_pmtud_time_cb (some ssl_ctx) cb =
    (some (record ssl_ctx { pmtud_time_cb = some cb }), he_success)

unfoldable pub set_ca : Option SslCtx → Option (List ℕ) → ℕ → Option SslCtx × ReturnCode
set_ca none ca_cert len = (none, he_err_null_pointer)
set_ca (some ssl_ctx) none len = (some ssl_ctx, he_err_null_pointer)
set_ca (some ssl_ctx) (some memory) len =
    (some (record ssl_ctx { ca_cert = some (from_raw_parts (some memory) len) }), he_success)

-- Whether bytes are UTF-8 is the standard library's to say.
unfoldable pub set_server_dn :
    (List ℕ → Bool) → Option SslCtx → Option (List ℕ) → Option SslCtx × ReturnCode
set_server_dn is_utf8 none server_dn = (none, he_err_null_pointer)
set_server_dn is_utf8 (some ssl_ctx) none = (some ssl_ctx, he_err_null_pointer)
set_server_dn is_utf8 (some ssl_ctx) (some memory) =
    if is_utf8 (c_str memory)
    then (some (record ssl_ctx { server_dn = some (c_str memory) }), he_success)
    else (some ssl_ctx, he_err_bad_param)

unfoldable pub set_use_pqc : Option SslCtx → Bool → Option SslCtx × ReturnCode
set_use_pqc none use_pqc = (none, he_err_null_pointer)
set_use_pqc (some ssl_ctx) use_pqc = (some (record ssl_ctx { use_pqc = use_pqc }), he_success)

unfoldable pub set_use_chacha20 : Option SslCtx → Bool → Option SslCtx × ReturnCode
set_use_chacha20 none use_chacha20 = (none, he_err_null_pointer)
set_use_chacha20 (some ssl_ctx) use_chacha20 =
    (some (record ssl_ctx { use_chacha20 = use_chacha20 }), he_success)

unfoldable pub connection_type_of : ℤ → Option ConnectionType
connection_type_of (pos n) = if n == 0 then some datagram else if n == 1 then some stream else none
connection_type_of (negsuc n) = none

unfoldable pub put_connection_type : SslCtx → Option ConnectionType → Option SslCtx × ReturnCode
put_connection_type ssl_ctx none = (some ssl_ctx, he_err_bad_param)
put_connection_type ssl_ctx (some t) = (some (record ssl_ctx { connection_type = t }), he_success)

unfoldable pub set_connection_type : Option SslCtx → ℤ → Option SslCtx × ReturnCode
unfolding connection_type_of put_connection_type
set_connection_type none connection_type = (none, he_err_null_pointer)
set_connection_type (some ssl_ctx) connection_type =
    put_connection_type ssl_ctx (connection_type_of connection_type)

unfoldable pub set_enable_expresslane : Option SslCtx → Bool → Option SslCtx × ReturnCode
set_enable_expresslane none enable = (none, he_err_null_pointer)
set_enable_expresslane (some ssl_ctx) enable =
    (some (record ssl_ctx { enable_expresslane = enable }), he_success)

unfoldable pub set_expresslane_cb : Option SslCtx → ℕ → Option SslCtx × ReturnCode
set_expresslane_cb none cb = (none, he_err_null_pointer)
set_expresslane_cb (some ssl_ctx) cb =
    (some (record ssl_ctx { expresslane_cb = some cb }), he_success)

unfoldable pub set_expresslane_state_change_cb : Option SslCtx → ℕ → Option SslCtx × ReturnCode
set_expresslane_state_change_cb none cb = (none, he_err_null_pointer)
set_expresslane_state_change_cb (some ssl_ctx) cb =
    (some (record ssl_ctx { expresslane_state_change_cb = some cb }), he_success)

unfoldable pub set_expresslane_metrics_cb : Option SslCtx → ℕ → Option SslCtx × ReturnCode
set_expresslane_metrics_cb none cb = (none, he_err_null_pointer)
set_expresslane_metrics_cb (some ssl_ctx) cb =
    (some (record ssl_ctx { expresslane_metrics_cb = some cb }), he_success)
