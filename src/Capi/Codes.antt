-- ===== src/Capi/Codes.antt =====
-- What a caller can read from a return code.
use lightway_cffi.Base.{◌≡◌, refl, Option, none, some}
use lightway_cffi.Data.{
  ExpresslaneError, insufficient_data, buffer_too_small, invalid_data, replayed, key_not_set,
  invalid_key,
}
use lightway_cffi.Capi.{
  ReturnCode, success, null_pointer, err_buffer_too_small, err_insufficient_data, err_invalid_data,
  err_replayed, err_key_not_set, err_invalid_key, panic, from_error,
}

-- The error behind a code, if it stands for one.
abbrev pub error_of : ReturnCode → Option ExpresslaneError
error_of success = none
error_of null_pointer = none
error_of err_buffer_too_small = some buffer_too_small
error_of err_insufficient_data = some insufficient_data
error_of err_invalid_data = some invalid_data
error_of err_replayed = some replayed
error_of err_key_not_set = some key_not_set
error_of err_invalid_key = some invalid_key
error_of panic = none

-- A code tells which error the session reported: no two errors share one, and none is reported as
-- success, as a null pointer or as a panic.
error_of-from_error : (e : ExpresslaneError) → error_of (from_error e) ≡ some e
unfolding from_error
error_of-from_error insufficient_data = refl
error_of-from_error buffer_too_small = refl
error_of-from_error invalid_data = refl
error_of-from_error replayed = refl
error_of-from_error key_not_set = refl
error_of-from_error invalid_key = refl
