-- ===== src/Session/Attempt.antt =====
-- The key attempts of `decrypt`: each starts from the ciphertext, whatever the one before left.
use lightway_cffi.Base.{
  ℕ, ◌-◌, ◌≡◌, refl, sym, ap, true, false, Option, none, some, List, ◌++◌, arith, length, take,
  drop, write_at_front, write_at_start, take-length-append, drop-length-append,
}
use lightway_cffi.Cipher.{Aead, AeadLaws}
use lightway_cffi.Session.{attempt, retry, try_keys}

module _ (a : Aead) (laws : AeadLaws a) (iv aad ct tag : List ℕ) where
  pub attempt_lem :
      (k : a.Key) (out : List ℕ)
      → attempt a k iv aad ct tag out
        ≡ ((a.unseal k iv aad ct tag).0 ++ drop (length ct) out, (a.unseal k iv aad ct tag).1)
  unfolding attempt
  attempt_lem k out =
      rw
        (
          write_at_start out ct,
          copied,
          write_at_front ct _ (a.unseal k iv aad ct tag).0 (laws.length-unseal k iv aad ct tag),
        )
        refl
    where
      copied : take (length ct - 0) (ct ++ drop (length ct) out) ≡ ct
      copied = take-length-append ct _ (length ct - 0) (omega arith)

  -- The first key that authenticates the packet gives the plaintext; behind it `out` is kept.
  pub try_keys_current :
      (k : a.Key) (prev : Option a.Key) (out : List ℕ)
      → (a.unseal k iv aad ct tag).1 ≡ true
      → try_keys a k prev iv aad ct tag out
        ≡ ((a.unseal k iv aad ct tag).0 ++ drop (length ct) out, true)
  unfolding try_keys retry
  try_keys_current k prev out h = rw (attempt_lem k out, h) refl

  pub try_keys_only :
      (k : a.Key) (out : List ℕ)
      → (a.unseal k iv aad ct tag).1 ≡ false
      → try_keys a k none iv aad ct tag out
        ≡ ((a.unseal k iv aad ct tag).0 ++ drop (length ct) out, false)
  unfolding try_keys retry
  try_keys_only k out h = rw (attempt_lem k out, h) refl

  pub try_keys_prev :
      (k p : a.Key) (out : List ℕ)
      → (a.unseal k iv aad ct tag).1 ≡ false
      → try_keys a k (some p) iv aad ct tag out
        ≡ ((a.unseal p iv aad ct tag).0 ++ drop (length ct) out, (a.unseal p iv aad ct tag).1)
  unfolding try_keys retry
  try_keys_prev k p out h =
      rw (attempt_lem k out, h, attempt_lem p)
        (ap (λ t. ((a.unseal p iv aad ct tag).0 ++ t, (a.unseal p iv aad ct tag).1))
          (drop-length-append _ (drop (length ct) out) (length ct)
            (sym (laws.length-unseal k iv aad ct tag))))
