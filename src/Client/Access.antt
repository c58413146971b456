-- ===== src/Client/Access.antt =====
-- src/lib.rs and src/conn.rs: the setters and getters of the connection object. Null is none.
use lightway_cffi.Base.{ℕ, Option, none, some, List, map}
use lightway_cffi.Capi.{from_raw_parts}
use lightway_cffi.Client.{
  ReturnCode, he_success, he_err_null_pointer, ConnectionProtocol, protocol_none, Conn,
}
use lightway_cffi.Client.Setters.{c_str}

-- `CString::new` takes the bytes before a NUL without fail, so the arm for its error is never run.
unfoldable pub set_username : Option Conn → Option (List ℕ) → Option Conn × ReturnCode
set_username none username = (none, he_err_null_pointer)
set_username (some conn) none = (some conn, he_err_null_pointer)
set_username (some conn) (some memory) =
    (some (record conn { username = some (c_str memory) }), he_success)

unfoldable pub set_password : Option Conn → Option (List ℕ) → Option Conn × ReturnCode
set_password none password = (none, he_err_null_pointer)
set_password (some conn) none = (some conn, he_err_null_pointer)
set_password (some conn) (some memory) =
    (some (record conn { password = some (c_str memory) }), he_success)

unfoldable pub set_auth_token : Option Conn → Option (List ℕ) → ℕ → Option Conn × ReturnCode
set_auth_token none token len = (none, he_err_null_pointer)
set_auth_token (some conn) none len = (some conn, he_err_null_pointer)
set_auth_token (some conn) (some memory) len =
    (some (record conn { auth_token = some (from_raw_parts (some memory) len) }), he_success)

unfoldable pub set_sni_hostname : Option Conn → Option (List ℕ) → Option Conn × ReturnCode
set_sni_hostname none hostname = (none, he_err_null_pointer)
set_sni_hostname (some conn) none = (some conn, he_err_null_pointer)
set_sni_hostname (some conn) (some memory) =
    (some (record conn { sni_hostname = some (c_str memory) }), he_success)

unfoldable pub set_outside_mtu : Option Conn → ℕ → Option Conn × ReturnCode
set_outside_mtu none mtu = (none, he_err_null_pointer)
set_outside_mtu (some conn) mtu = (some (record conn { outside_mtu = mtu }), he_success)

unfoldable pub set_context : Option Conn → ℕ → Option Conn × ReturnCode
set_context none context = (none, he_err_null_pointer)
set_context (some conn) context = (some (record conn { context = context }), he_success)

unfoldable pub get_nudge_time : Option Conn → ℕ
get_nudge_time none = 0
get_nudge_time (some conn) = conn.nudge_time_ms

unfoldable pub get_outside_mtu : Option Conn → ℕ
get_outside_mtu none = 0
get_outside_mtu (some conn) = conn.outside_mtu_negotiated

unfoldable pub get_effective_pmtu : Option Conn → ℕ
get_effective_pmtu none = 0
get_effective_pmtu (some conn) = conn.effective_pmtu

unfoldable pub get_current_protocol : Option Conn → ConnectionProtocol
get_current_protocol none = protocol_none
get_current_protocol (some conn) = conn.current_protocol

-- A name that is there is a pointer to it, and one that is not is null.
unfoldable pub get_cipher_name : Option Conn → Option (List ℕ)
get_cipher_name none = none
get_cipher_name (some conn) = conn.cipher_name

unfoldable pub get_curve_name : Option Conn → Option (List ℕ)
get_curve_name none = none
get_curve_name (some conn) = conn.curve_name

unfoldable pub scrub_bytes : List ℕ → List ℕ
scrub_bytes = map (λ b. 0)

-- The buffers of a connection object as they are freed.
pub record Freed : Type 0 where
  pub auth_token : Option (List ℕ)
  pub password : Option (List ℕ)
  pub username : Option (List ℕ)

unfoldable pub scrub : Option (List ℕ) → Option (List ℕ)
unfolding scrub_bytes
scrub none = none
scrub (some bytes) = some (scrub_bytes bytes)

-- `Drop for he_conn_t`.
unfoldable pub drop_conn : Conn → Freed
unfolding scrub
drop_conn conn = record {
  auth_token = scrub conn.auth_token;
  password = scrub conn.password;
  username = scrub conn.username;
}
