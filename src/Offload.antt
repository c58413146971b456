-- ===== src/Offload.antt =====
-- src/lib.rs: what a host needs to take ExpressLane packets past the connection, the header that
-- is put in front of one and the test that tells one from a control packet. The header's wire
-- format is lightway-core's, and a parameter here; pointers are as in Capi.
use lightway_cffi.Base.{
  ℕ, Bool, true, false, ◌||◌, ◌&&◌, not, Option, none, some, List, ◌++◌, ◌≡◌, arith, ltb, leb, ◌==◌,
  if◌then◌else◌, length, take, drop, replicate, Result, ok, err,
}
use lightway_cffi.Client.{
  ReturnCode, he_success, he_err_failed, he_err_null_pointer, he_err_bad_param,
  he_err_invalid_conn_state,
}
use lightway_cffi.Client.Core.{Core, Live, Client}
use lightway_cffi.Client.Lock.{lock_client}
use lightway_cffi.Capi.{ffi_guard, is_null, from_raw_parts, store}
pub mod RoundTrip
mod Examples

pub data PacketKind : Type 0 where
  undecidable control expresslane : PacketKind

-- `lightway_core::Header`.
pub record Header : Type 0 where
  pub version : ℕ
  pub aggressive_mode : Bool
  pub expresslane_data : Bool
  pub session : List ℕ

abbrev pub wire_size : ℕ
wire_size = 16

-- The calls of lightway-core.
pub record HeaderFormat : Type 0 where
  pub try_from_wire : List ℕ → Option Header
  pub append_to_wire : Header → List ℕ
  pub is_reserved : List ℕ → Bool

-- The parser reads what the printer writes, for a session id of 8 bytes.
pub record HeaderFormatLaws (format : HeaderFormat) : Type 0 where
  pub length-append_to_wire :
      (h : Header) → length h.session ≡ 8 → length (format.append_to_wire h) ≡ wire_size
  pub try_from_wire-append_to_wire :
      (h : Header) → length h.session ≡ 8 → format.try_from_wire (format.append_to_wire h) ≡ some h

-- The bytes at a pointer after the first ones were overwritten.
abbrev pub overwrite : Option (List ℕ) → List ℕ → Option (List ℕ)
overwrite none bytes = none
overwrite (some memory) bytes = some (bytes ++ drop (length bytes) memory)

-- What `he_conn_identify_packet` leaves at its out-params, and its code.
pub record IdentifyCall : Type 0 where
  pub kind : Option PacketKind
  pub session_id : Option (List ℕ)
  pub header_len : Option ℕ
  pub code : ReturnCode

module _ (format : HeaderFormat) where
  kind_of : Header → PacketKind
  kind_of hdr = if hdr.expresslane_data then expresslane else control

  identify_body :
      Option Header → Option PacketKind → Option (List ℕ) → Option ℕ → Option IdentifyCall
  identify_body none kind session_id header_len =
      some (record {
        kind = kind;
        session_id = session_id;
        header_len = header_len;
        code = he_success;
      })
  identify_body (some hdr) kind session_id header_len = some (record {
    kind = store kind (kind_of hdr);
    session_id = overwrite session_id hdr.session;
    header_len = store header_len wire_size;
    code = he_success;
  })

  -- The out-params are set to their defaults before the datagram is read.
  unfoldable pub identify_packet :
      Option (List ℕ) → ℕ → Option PacketKind → Option (List ℕ) → Option ℕ → IdentifyCall
  unfolding identify_body kind_of ffi_guard
  identify_packet packet len kind session_id header_len =
      if is_null kind || (is_null packet && ltb 0 len)
      then record {
        kind = kind;
        session_id = session_id;
        header_len = header_len;
        code = he_err_null_pointer;
      }
      else let kind' = store kind undecidable in
        let session_id' = overwrite session_id (replicate 8 0) in
        let header_len' = store header_len 0 in
        if ltb len wire_size
        then record {
          kind = kind';
          session_id = session_id';
          header_len = header_len';
          code = he_success;
        }
        else ffi_guard
            (record {
              kind = kind';
              session_id = session_id';
              header_len = header_len';
              code = he_err_failed;
            })
            (identify_body (format.try_from_wire (from_raw_parts packet wire_size)) kind'
              session_id' header_len')

  header_of : (C : Core) → List ℕ → Option (Live C) → Result (List ℕ) ReturnCode
  header_of C session none = err he_err_invalid_conn_state
  header_of C session (some live) = ok (
      format.append_to_wire (record {
        version = C.tunnel_protocol_version live.core;
        aggressive_mode = false;
        expresslane_data = true;
        session = session;
      }))

  -- `copy_nonoverlapping` of the first bytes, if there are enough.
  build_end :
      Option (List ℕ)
      → Result (Result (List ℕ) ReturnCode) ReturnCode
      → Option (List ℕ) × ReturnCode
  build_end out (ok (ok bytes)) =
      if leb wire_size (length bytes)
      then (overwrite out (take wire_size bytes), he_success)
      else (out, he_err_failed)
  build_end out (ok (err code)) = (out, code)
  build_end out (err code) = (out, code)

  -- The memory at `out` and the code. What runs under the lock only reads the client.
  unfoldable pub build_expresslane_header :
      (C : Core)
      → ℕ
      → Option (Client C)
      → Option (List ℕ)
      → Option (List ℕ)
      → Option (List ℕ) × ReturnCode
  unfolding build_end header_of ffi_guard lock_client
  build_expresslane_header C me client session_id out =
      if is_null out || is_null session_id || is_null client
      then (out, he_err_null_pointer)
      else let session = from_raw_parts session_id 8 in
        if format.is_reserved session
        then (out, he_err_bad_param)
        else ffi_guard (out, he_err_failed)
            (some (
              build_end out
                (lock_client C me client (λ c. (c, header_of C session c.connection))).1))
