-- ===== src/Capi.antt =====
-- lightway-expresslane-cffi/src: the C interface of a session. A pointer is an option, `none` for
-- null; what it points to is the list of bytes behind it, which the caller promises to be long
-- enough, and a call gives the memory back as it leaves it.
use lightway_cffi.Base.{
  ℕ, Bool, true, false, ◌&&◌, ◌||◌, Option, none, some, List, [], ◌++◌, ltb, ◌==◌, if◌then◌else◌,
  length, take, drop, Result, ok, err,
}
use lightway_cffi.Data.{
  ExpresslaneError, insufficient_data, buffer_too_small, invalid_data, replayed, key_not_set,
  invalid_key, ExpresslaneVersion, unknown, version1, version2, from_u8, expresslane_key_size,
}
use lightway_cffi.Cipher.{Aead}
use lightway_cffi.Session.{State}
use lightway_cffi.Session
pub mod Packets
pub mod Codes

pub data ReturnCode : Type 0 where
  success null_pointer err_buffer_too_small err_insufficient_data err_invalid_data err_replayed
        err_key_not_set err_invalid_key panic :
      ReturnCode

-- `From<ExpresslaneError>`.
unfoldable pub from_error : ExpresslaneError → ReturnCode
from_error insufficient_data = err_insufficient_data
from_error buffer_too_small = err_buffer_too_small
from_error invalid_data = err_invalid_data
from_error replayed = err_replayed
from_error key_not_set = err_key_not_set
from_error invalid_key = err_invalid_key

-- A body that panics gives none.
unfoldable pub ffi_guard {ℓ} : {R : Type ℓ} → R → Option R → R
ffi_guard default none = default
ffi_guard default (some r) = r

abbrev pub is_null {ℓ} : {A : Type ℓ} → Option A → Bool
is_null none = true
is_null (some x) = false

-- `from_raw_parts(p, len)`, for a pointer that was checked.
abbrev pub from_raw_parts : Option (List ℕ) → ℕ → List ℕ
from_raw_parts none len = []
from_raw_parts (some memory) len = take len memory

-- `try_into()` from a slice to an array of n bytes.
abbrev pub try_into : ℕ → List ℕ → Option (List ℕ)
try_into n bytes = if length bytes == n then some bytes else none

-- The memory behind a pointer after its first bytes were written as a slice.
abbrev pub written : Option (List ℕ) → ℕ → List ℕ → Option (List ℕ)
written none len slice = none
written (some memory) len slice = some (slice ++ drop len memory)

-- `*p = x`.
abbrev pub store {ℓ} : {A : Type ℓ} → Option A → A → Option A
store none x = none
store (some old) x = some x

is_unknown : ExpresslaneVersion → Bool
is_unknown unknown = true
is_unknown version1 = false
is_unknown version2 = false

unfoldable pub wire_overhead : ℕ
wire_overhead = Session.wire_overhead

module _ (a : Aead) where
  -- A handle to a session.
  abbrev pub Handle : Type 0
  Handle = Option (State a)

  unfoldable pub session_create : ℕ → Handle
  unfolding is_unknown
  session_create version =
      if is_unknown (from_u8 version)
      then none
      else ffi_guard none (some (some (Session.new (from_u8 version))))

  -- The handle may not be used again.
  unfoldable pub session_destroy : Handle → Handle
  session_destroy none = none
  session_destroy (some s) = none

  unfoldable pub reserve_counter : Handle → Handle × ℕ
  reserve_counter none = (none, 0)
  reserve_counter (some s) = let (s', counter) = Session.reserve_counter s in (some s', counter)

  -- The bytes behind `key`, installed by either setter.
  abbrev pub install_result : State a × Result (Unit {0}) ExpresslaneError → Handle × ReturnCode
  install_result (s, ok u) = (some s, success)
  install_result (s, err e) = (some s, from_error e)

  abbrev pub install_bytes :
      (State a → List ℕ → State a × Result (Unit {0}) ExpresslaneError)
      → State a
      → Option (List ℕ)
      → Option (Handle × ReturnCode)
  install_bytes install s none = none
  install_bytes install s (some key) = some (install_result (install s key))

  unfoldable pub set_key_from_ptr :
      Handle
      → Option (List ℕ)
      → (State a → List ℕ → State a × Result (Unit {0}) ExpresslaneError)
      → Handle × ReturnCode
  unfolding ffi_guard
  set_key_from_ptr none key install = (none, null_pointer)
  set_key_from_ptr (some s) none install = (some s, null_pointer)
  set_key_from_ptr (some s) (some memory) install =
      ffi_guard (some s, panic)
        (install_bytes install s
          (try_into expresslane_key_size (from_raw_parts (some memory) expresslane_key_size)))

  unfoldable pub set_next_self_key : Handle → Option (List ℕ) → Handle × ReturnCode
  set_next_self_key session key = set_key_from_ptr session key (Session.update_next_self_key a)

  unfoldable pub set_peer_key : Handle → Option (List ℕ) → Handle × ReturnCode
  set_peer_key session key = set_key_from_ptr session key (Session.update_peer_key a)

  unfoldable pub promote_self_key : Handle → Handle
  promote_self_key none = none
  promote_self_key (some s) = some (Session.promote_self_key s)

  unfoldable pub packets_sent : Handle → ℕ
  packets_sent none = 0
  packets_sent (some s) = Session.packets_sent s

  unfoldable pub packets_received : Handle → ℕ
  packets_received none = 0
  packets_received (some s) = Session.packets_received s

  -- The session behind the pointer, as each of the two loads finds it.
  unfoldable pub has_valid_keys : Option (State a × State a) → Bool
  has_valid_keys none = false
  has_valid_keys (some (at_peer, at_self)) = Session.has_valid_keys at_peer at_self
