-- ===== src/Cipher.antt =====
-- lightway-expresslane/src/cipher.rs: the AES-256-GCM wrapper. The cipher itself is the `ring`
-- crate's, and a parameter here.
use lightway_cffi.Base.{
  ℕ, ◌≤◌, ◌≡◌, Bool, true, Option, none, some, List, arith, ◌==◌, if◌then◌else◌, length, Result, ok,
  err,
}
use lightway_cffi.Data.{ExpresslaneError, invalid_data, invalid_key, expresslane_key_size}

-- The calls of `ring::aead` that the wrapper makes. `seal` and `unseal` work in place: the first
-- result is the buffer after the call, whatever the outcome.
pub record Aead : Type 1 where
  -- `LessSafeKey`.
  pub Key : Type 0
  -- `UnboundKey::new(&AES_256_GCM, bytes)`.
  pub new_key : List ℕ → Option Key
  -- `seal_in_place_separate_tag(nonce, aad, buf)`.
  pub seal : Key → List ℕ → List ℕ → List ℕ → List ℕ × Option (List ℕ)
  -- `open_in_place_separate_tag(nonce, aad, tag, buf, 0..)`.
  pub unseal : Key → List ℕ → List ℕ → List ℕ → List ℕ → List ℕ × Bool

-- What ring documents. A failed call leaves unspecified bytes, but as many as there were.
pub record AeadLaws (a : Aead) : Type 0 where
  pub new_key_ok :
      (bytes : List ℕ)
      → length bytes ≡ expresslane_key_size
      → (k : a.Key) × (a.new_key bytes ≡ some k)
  pub length-seal : (k : a.Key) (iv aad buf : List ℕ) → length (a.seal k iv aad buf).0 ≡ length buf
  pub length-unseal :
      (k : a.Key) (iv aad buf tag : List ℕ) → length (a.unseal k iv aad buf tag).0 ≡ length buf
  pub length-tag :
      (k : a.Key) (iv aad buf : List ℕ) {tag : List ℕ}
      → (a.seal k iv aad buf).1 ≡ some tag
      → length tag ≡ 16
  pub unseal-seal :
      (k : a.Key) (iv aad buf : List ℕ) {tag : List ℕ}
      → (a.seal k iv aad buf).1 ≡ some tag
      → a.unseal k iv aad (a.seal k iv aad buf).0 tag ≡ (buf, true)

-- A seal fails only on a text that is too long, far above what a packet holds.
pub record SealsPackets (a : Aead) : Type 0 where
  pub seal_ok :
      (k : a.Key) (iv aad buf : List ℕ)
      → length iv ≡ 12
      → length buf ≤ 65535
      → (tag : List ℕ) × ((a.seal k iv aad buf).1 ≡ some tag)

module _ (a : Aead) where
  unfoldable pub new : List ℕ → Result a.Key ExpresslaneError
  new key = elim (a.new_key key) [ none ↦ err invalid_key | some k ↦ ok k ]

  -- `tag.as_ref().try_into()` fails unless the tag has 16 bytes.
  tag_of : Option (List ℕ) → Result (List ℕ) ExpresslaneError
  tag_of none = err invalid_data
  tag_of (some tag) = if length tag == 16 then ok tag else err invalid_data

  -- The buffer after the call, and the tag.
  unfoldable pub encrypt :
      a.Key → List ℕ → List ℕ → List ℕ → List ℕ × Result (List ℕ) ExpresslaneError
  unfolding tag_of
  encrypt k iv aad buf = ((a.seal k iv aad buf).0, tag_of (a.seal k iv aad buf).1)

  -- The buffer after the call, and whether the tag was right; every error is `invalid_data`.
  unfoldable pub decrypt : a.Key → List ℕ → List ℕ → List ℕ → List ℕ → List ℕ × Bool
  decrypt k iv aad buf tag = a.unseal k iv aad buf tag

  -- When ring seals, so does the wrapper: the tag has 16 bytes.
  pub encrypt_seal :
      AeadLaws a
      → (k : a.Key) (iv aad buf : List ℕ) {tag : List ℕ} → (a.seal k iv aad buf).1 ≡ some tag
      → encrypt k iv aad buf ≡ ((a.seal k iv aad buf).0, ok tag)
  unfolding encrypt
  encrypt_seal laws k iv aad buf h = ground (arith, laws.length-tag k iv aad buf h)
