-- ===== src/Data.antt =====
-- The plain data of lightway-expresslane: error.rs, version.rs and key.rs.
use lightway_cffi.Base.{
  ℕ, Bool, true, false, List, [], ◌∷◌, ◌&&◌, ◌==◌, leb, if◌then◌else◌, replicate,
}

pub data ExpresslaneError : Type 0 where
  insufficient_data buffer_too_small invalid_data replayed key_not_set invalid_key :
      ExpresslaneError

pub data ExpresslaneVersion : Type 0 where
  unknown version1 version2 : ExpresslaneVersion

-- `version as u8`, the derived order's key.
unfoldable pub to_u8 : ExpresslaneVersion → ℕ
to_u8 unknown = 0
to_u8 version1 = 1
to_u8 version2 = 2

-- `ExpresslaneVersion::from(u8)`.
unfoldable pub from_u8 : ℕ → ExpresslaneVersion
from_u8 value = if value == 1 then version1 else if value == 2 then version2 else unknown

-- `self >= other` of the derived order.
unfoldable pub version_ge : ExpresslaneVersion → ExpresslaneVersion → Bool
unfolding to_u8
version_ge self other = leb (to_u8 other) (to_u8 self)

abbrev pub expresslane_key_size : ℕ
expresslane_key_size = 32

-- The derived equality of byte arrays.
unfoldable pub bytes_eq : List ℕ → List ℕ → Bool
bytes_eq [] [] = true
bytes_eq (a ∷ as') (b ∷ bs) = a == b && bytes_eq as' bs
bytes_eq _ _ = false

-- A key is its 32 bytes; `INVALID` is all zero.
unfoldable pub invalid_sentinel : List ℕ
invalid_sentinel = replicate expresslane_key_size 0

unfoldable pub is_invalid : List ℕ → Bool
is_invalid key = bytes_eq key invalid_sentinel
