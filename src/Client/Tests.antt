-- ===== src/Client/Tests.antt =====
-- What the host reads, on small inputs.
use lightway_cffi.Base.{negsuc, ◌≡◌, refl, none, some, [], ◌∷◌, ◌++◌, replicate, write_at, ok, err}
use lightway_cffi.Client.{
  he_success, he_err_failed, state_online, dtls_1_3, protocol_none, Conn, default_conn,
}
use lightway_cffi.Client.Core.{new_client}
use lightway_cffi.Client.Codes.{
  return_code_name, from_repr, from_negative, as_cstr, connection_protocol_name, protocol_value,
}
use lightway_cffi.Client.Access.{
  get_nudge_time, get_outside_mtu, get_effective_pmtu, get_current_protocol, get_cipher_name,
  get_curve_name, drop_conn, scrub, scrub_bytes,
}
use lightway_cffi.Client.Lock.{get_session_id, lock_client, session_number, unwrap_or_zero}
use lightway_cffi.Client.Events.{copy_ip_str, send}
use lightway_cffi.Client.Expresslane.{update, get_stats, stats_of}
use lightway_cffi.Client.Toy.{toy_core, toy_std}

abbrev met : Conn
met = record default_conn {
  state = state_online;
  password = some (112 ∷ 119 ∷ []);
  nudge_time_ms = 20;
  outside_mtu_negotiated = 1400;
  current_protocol = dtls_1_3;
  cipher_name = some (67 ∷ []);
}

readings :
    (get_nudge_time (some met) ≡ 20)
    × (get_outside_mtu (some met) ≡ 1400)
    × (get_effective_pmtu (some met) ≡ 0)
    × (get_current_protocol (some met) ≡ dtls_1_3)
    × (get_cipher_name (some met) ≡ some (67 ∷ []))
    × (get_curve_name (some met) ≡ none)
unfolding get_nudge_time get_outside_mtu get_effective_pmtu get_current_protocol get_cipher_name
    get_curve_name
readings = (refl, refl, refl, refl, refl, refl)

null_readings :
    (get_nudge_time none ≡ 0)
    × (get_outside_mtu none ≡ 0)
    × (get_effective_pmtu none ≡ 0)
    × (get_current_protocol none ≡ protocol_none)
    × (get_cipher_name none ≡ none)
    × (get_curve_name none ≡ none)
unfolding get_nudge_time get_outside_mtu get_effective_pmtu get_current_protocol get_cipher_name
    get_curve_name
null_readings = (refl, refl, refl, refl, refl, refl)

-- A destroyed connection object leaves no password behind.
password_scrubbed : (drop_conn met).password ≡ some (0 ∷ 0 ∷ [])
unfolding drop_conn scrub scrub_bytes
password_scrubbed = refl

no_session : get_session_id toy_core 1 (some (new_client toy_core)) ≡ 0
unfolding get_session_id lock_client session_number unwrap_or_zero
no_session = refl

code_names :
    (return_code_name (negsuc 8) ≡ "HE_CONNECTION_TIMED_OUT")
    × (return_code_name (negsuc 98) ≡ "HE_ERR_UNKNOWN")
    × (connection_protocol_name (protocol_value dtls_1_3) ≡ "DTLS 1.3")
unfolding return_code_name from_repr from_negative as_cstr connection_protocol_name protocol_value
code_names = (refl, refl, refl)

-- A text that is too long for its field is cut, and the NUL stays.
long_text :
    copy_ip_str toy_core toy_std (replicate 70 49) (replicate 64 0) ≡ replicate 63 49 ++ 0 ∷ []
unfolding copy_ip_str write_at
long_text = refl

sends : (send (1 ∷ 2 ∷ []) he_success ≡ ok 2) × (send (1 ∷ []) he_err_failed ≡ err he_err_failed)
unfolding send
sends = (refl, refl)

keys_scrubbed :
    (update (1 ∷ []) (record { self_key = 5 ∷ []; peer_key = 6 ∷ []; version = 2 })).1
    ≡ record { session_id = 1 ∷ []; self_key = 0 ∷ []; peer_key = 0 ∷ []; version = 2 }
unfolding update scrub_bytes
keys_scrubbed = refl

-- A callback that fails gives no counts.
failed_stats :
    get_stats (λ sid sent received. (he_err_failed, 4, 5)) (1 ∷ [])
    ≡ record { sent = 0; received = 0 }
unfolding get_stats stats_of
failed_stats = refl
