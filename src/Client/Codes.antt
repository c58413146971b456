-- ===== src/Client/Codes.antt =====
-- src/types.rs and src/lib.rs: return codes as integers, and the names of codes and protocols.
use Prim.Native.String.{String}
use lightway_cffi.Base.{
  ℕ, ℤ, pos, negsuc, ◌≡◌, refl, subst, ◌↔◌, Option, none, some, arith, ◌==◌, if◌then◌else◌,
}
use lightway_cffi.Client.{
  ReturnCode, he_success, he_err_failed, he_err_null_pointer, he_err_no_memory,
  he_err_buffer_too_small, he_err_bad_param, he_err_access_denied, he_err_payload_too_large,
  he_err_string_too_long, he_connection_timed_out, he_err_incorrect_protocol_version,
  he_err_ssl_error, he_err_conf_not_set, he_err_invalid_conn_state, ConnectionProtocol,
  protocol_none, dtls_1_2, dtls_1_3, tls_1_2, tls_1_3,
}

-- The discriminants.
unfoldable pub code_value : ReturnCode → ℤ
code_value he_success = pos 0
code_value he_err_failed = negsuc 0
code_value he_err_null_pointer = negsuc 1
code_value he_err_no_memory = negsuc 2
code_value he_err_buffer_too_small = negsuc 3
code_value he_err_bad_param = negsuc 4
code_value he_err_access_denied = negsuc 5
code_value he_err_payload_too_large = negsuc 6
code_value he_err_string_too_long = negsuc 7
code_value he_connection_timed_out = negsuc 8
code_value he_err_incorrect_protocol_version = negsuc 9
code_value he_err_ssl_error = negsuc 10
code_value he_err_conf_not_set = negsuc 11
code_value he_err_invalid_conn_state = negsuc 12

-- The arms below 0: `n` stands for `- (n + 1)`.
unfoldable pub from_negative : ℕ → Option ReturnCode
from_negative n =
    if n == 0
    then some he_err_failed
    else if n == 1
    then some he_err_null_pointer
    else if n == 2
    then some he_err_no_memory
    else if n == 3
    then some he_err_buffer_too_small
    else if n == 4
    then some he_err_bad_param
    else if n == 5
    then some he_err_access_denied
    else if n == 6
    then some he_err_payload_too_large
    else if n == 7
    then some he_err_string_too_long
    else if n == 8
    then some he_connection_timed_out
    else if n == 9
    then some he_err_incorrect_protocol_version
    else if n == 10
    then some he_err_ssl_error
    else if n == 11
    then some he_err_conf_not_set
    else if n == 12
    then some he_err_invalid_conn_state
    else none

unfoldable pub from_repr : ℤ → Option ReturnCode
unfolding from_negative
from_repr (pos n) = if n == 0 then some he_success else none
from_repr (negsuc n) = from_negative n

-- The name without its NUL.
unfoldable pub as_cstr : ReturnCode → String
as_cstr he_success = "HE_SUCCESS"
as_cstr he_err_failed = "HE_ERR_FAILED"
as_cstr he_err_null_pointer = "HE_ERR_NULL_POINTER"
as_cstr he_err_no_memory = "HE_ERR_NO_MEMORY"
as_cstr he_err_buffer_too_small = "HE_ERR_BUFFER_TOO_SMALL"
as_cstr he_err_bad_param = "HE_ERR_BAD_PARAM"
as_cstr he_err_access_denied = "HE_ERR_ACCESS_DENIED"
as_cstr he_err_payload_too_large = "HE_ERR_PAYLOAD_TOO_LARGE"
as_cstr he_err_string_too_long = "HE_ERR_STRING_TOO_LONG"
as_cstr he_connection_timed_out = "HE_CONNECTION_TIMED_OUT"
as_cstr he_err_incorrect_protocol_version = "HE_ERR_INCORRECT_PROTOCOL_VERSION"
as_cstr he_err_ssl_error = "HE_ERR_SSL_ERROR"
as_cstr he_err_conf_not_set = "HE_ERR_CONF_NOT_SET"
as_cstr he_err_invalid_conn_state = "HE_ERR_INVALID_CONN_STATE"

unfoldable pub return_code_name : ℤ → String
return_code_name code = elim (from_repr code) [ some c ↦ as_cstr c | none ↦ "HE_ERR_UNKNOWN" ]

unfoldable pub protocol_value : ConnectionProtocol → ℤ
protocol_value protocol_none = pos 0
protocol_value dtls_1_2 = pos 1
protocol_value dtls_1_3 = pos 2
protocol_value tls_1_2 = pos 3
protocol_value tls_1_3 = pos 4

unfoldable pub connection_protocol_name : ℤ → String
connection_protocol_name (pos n) =
    if n == 0
    then "none"
    else if n == 1
    then "DTLS 1.2"
    else if n == 2
    then "DTLS 1.3"
    else if n == 3
    then "TLS 1.2"
    else if n == 4
    then "TLS 1.3"
    else "unknown"
connection_protocol_name (negsuc n) = "unknown"

from_repr-code_value : (c : ReturnCode) → from_repr (code_value c) ≡ some c
unfolding from_repr code_value
from_repr-code_value he_success = refl
from_repr-code_value he_err_failed = refl
from_repr-code_value he_err_null_pointer = refl
from_repr-code_value he_err_no_memory = refl
from_repr-code_value he_err_buffer_too_small = refl
from_repr-code_value he_err_bad_param = refl
from_repr-code_value he_err_access_denied = refl
from_repr-code_value he_err_payload_too_large = refl
from_repr-code_value he_err_string_too_long = refl
from_repr-code_value he_connection_timed_out = refl
from_repr-code_value he_err_incorrect_protocol_version = refl
from_repr-code_value he_err_ssl_error = refl
from_repr-code_value he_err_conf_not_set = refl
from_repr-code_value he_err_invalid_conn_state = refl

code_value-from_repr : (v : ℤ) (c : ReturnCode) → from_repr v ≡ some c → code_value c ≡ v
unfolding from_repr code_value
code_value-from_repr (pos n) c h = ground arith
code_value-from_repr (negsuc n) c h = ground arith

-- An integer from C is read as a code exactly if it is that code's value; every other integer has
-- no code.
from_repr_iff : (v : ℤ) (c : ReturnCode) → (from_repr v ≡ some c) ↔ (code_value c ≡ v)
from_repr_iff v c =
    (code_value-from_repr v c, λ e. subst (λ w. from_repr w ≡ some c) e (from_repr-code_value c))
