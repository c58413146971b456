-- ===== src/Capi/Packets.antt =====
-- lightway-expresslane-cffi/src/lib.rs: `he_expresslane_encrypt` and `he_expresslane_decrypt`.
use lightway_cffi.Base.{
  ℕ, Bool, true, false, ◌||◌, ◌&&◌, Option, none, some, List, [], ltb, ◌==◌, if◌then◌else◌, Result,
  ok, err,
}
use lightway_cffi.Data.{ExpresslaneError}
use lightway_cffi.Cipher.{Aead}
use lightway_cffi.Session.{State}
use lightway_cffi.Session
use lightway_cffi.Capi.{
  ReturnCode, success, null_pointer, panic, from_error, ffi_guard, is_null, from_raw_parts,
  try_into, written, store, Handle,
}
pub mod Calls
pub mod Handles
pub mod RoundTrip
mod Examples

module _ (a : Aead) where
  -- What a call of `he_expresslane_encrypt` leaves: the session, the memory behind `out` and
  -- `out_len`, and the code that it returns.
  pub record EncryptCall : Type 0 where
    pub session : Handle a
    pub out : Option (List ℕ)
    pub out_len : Option ℕ
    pub code : ReturnCode

  -- `out_len` was set to 0 before.
  encrypt_end :
      Option (List ℕ) → ℕ → Option ℕ → State a × List ℕ × Result ℕ ExpresslaneError → EncryptCall
  encrypt_end out out_capacity out_len (s, slice, ok n) = record {
    session = some s;
    out = written out out_capacity slice;
    out_len = store out_len n;
    code = success;
  }
  encrypt_end out out_capacity out_len (s, slice, err e) = record {
    session = some s;
    out = written out out_capacity slice;
    out_len = store out_len 0;
    code = from_error e;
  }

  -- An empty payload is not read.
  abbrev pub payload : Option (List ℕ) → ℕ → List ℕ
  payload plain_text plain_text_len =
      if plain_text_len == 0 then [] else from_raw_parts plain_text plain_text_len

  encrypt_body :
      State a
      → ℕ
      → Option (List ℕ)
      → List ℕ
      → Option (List ℕ)
      → Bool
      → Option (List ℕ)
      → ℕ
      → Option ℕ
      → Option EncryptCall
  encrypt_body s counter (some session_id) plain_text (some iv) is_encoded out out_capacity
        out_len =
      some (
        encrypt_end out out_capacity out_len (
          Session.encrypt a s counter session_id plain_text iv is_encoded
            (from_raw_parts out out_capacity)))
  encrypt_body s counter _ plain_text _ is_encoded out out_capacity out_len = none

  unfoldable pub encrypt :
      Handle a
      → ℕ
      → Option (List ℕ)
      → Option (List ℕ)
      → ℕ
      → Option (List ℕ)
      → Bool
      → Option (List ℕ)
      → ℕ
      → Option ℕ
      → EncryptCall
  unfolding encrypt_body encrypt_end ffi_guard
  encrypt none counter session_id plain_text plain_text_len iv is_encoded out out_capacity out_len =
      record { session = none; out = out; out_len = out_len; code = null_pointer }
  encrypt (some s) counter session_id plain_text plain_text_len iv is_encoded out out_capacity
        out_len =
      if is_null session_id
        || (is_null plain_text && ltb 0 plain_text_len)
        || is_null iv
        || is_null out
        || is_null out_len
      then record { session = some s; out = out; out_len = out_len; code = null_pointer }
      else ffi_guard
          (record { session = some s; out = out; out_len = store out_len 0; code = panic })
          (encrypt_body s counter (try_into 8 (from_raw_parts session_id 8))
            (payload plain_text plain_text_len) (try_into 12 (from_raw_parts iv 12)) is_encoded out
            out_capacity out_len)

  pub record DecryptCall : Type 0 where
    pub session : Handle a
    pub out : Option (List ℕ)
    pub out_len : Option ℕ
    pub is_encoded : Option Bool
    pub code : ReturnCode

  -- `out_len` and `is_encoded` were set to 0 and false before.
  decrypt_end :
      Option (List ℕ)
      → ℕ
      → Option ℕ
      → Option Bool
      → State a × List ℕ × Result (ℕ × Bool) ExpresslaneError
      → DecryptCall
  decrypt_end out out_capacity out_len is_encoded (s, slice, ok (len, encoded)) = record {
    session = some s;
    out = written out out_capacity slice;
    out_len = store out_len len;
    is_encoded = store is_encoded encoded;
    code = success;
  }
  decrypt_end out out_capacity out_len is_encoded (s, slice, err e) = record {
    session = some s;
    out = written out out_capacity slice;
    out_len = store out_len 0;
    is_encoded = store is_encoded false;
    code = from_error e;
  }

  -- A buffer of no bytes is not touched.
  abbrev pub output : Option (List ℕ) → ℕ → List ℕ
  output out out_capacity = if out_capacity == 0 then [] else from_raw_parts out out_capacity

  decrypt_body :
      State a
      → Option (List ℕ)
      → List ℕ
      → Option (List ℕ)
      → ℕ
      → Option ℕ
      → Option Bool
      → Option DecryptCall
  decrypt_body s none wire_packet out out_capacity out_len is_encoded = none
  decrypt_body s (some session_id) wire_packet out out_capacity out_len is_encoded = some (
      decrypt_end out out_capacity out_len is_encoded
        (Session.decrypt a s session_id wire_packet (output out out_capacity)))

  unfoldable pub decrypt :
      Handle a
      → Option (List ℕ)
      → Option (List ℕ)
      → ℕ
      → Option (List ℕ)
      → ℕ
      → Option ℕ
      → Option Bool
      → DecryptCall
  unfolding decrypt_body decrypt_end ffi_guard
  decrypt none session_id wire_packet wire_packet_len out out_capacity out_len is_encoded = record {
    session = none;
    out = out;
    out_len = out_len;
    is_encoded = is_encoded;
    code = null_pointer;
  }
  decrypt (some s) session_id wire_packet wire_packet_len out out_capacity out_len is_encoded =
      if is_null session_id
        || is_null wire_packet
        || (is_null out && ltb 0 out_capacity)
        || is_null out_len
        || is_null is_encoded
      then record {
        session = some s;
        out = out;
        out_len = out_len;
        is_encoded = is_encoded;
        code = null_pointer;
      }
      else ffi_guard
          (record {
            session = some s;
            out = out;
            out_len = store out_len 0;
            is_encoded = store is_encoded false;
            code = panic;
          })
          (decrypt_body s (try_into 8 (from_raw_parts session_id 8))
            (from_raw_parts wire_packet wire_packet_len) out out_capacity out_len is_encoded)
