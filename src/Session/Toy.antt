-- ===== src/Session/Toy.antt =====
-- A concrete cipher for the examples: the payload in the clear, with a checksum of the key, the
-- nonce, the associated data and the payload as its tag. It meets what is asked of ring.
use lightway_cffi.Base.{
  ℕ, ◌+◌, ◌*◌, ◌%◌, ◌≡◌, refl, ap, subst, Bool, true, none, some, List, [], ◌∷◌, ◌++◌, arith, ◌==◌,
  if◌then◌else◌, length, replicate,
}
use lightway_cffi.Data.{bytes_eq, expresslane_key_size}
use lightway_cffi.Cipher.{Aead, AeadLaws}
use lightway_cffi.Session.Keys.{bytes_eq_refl}

unfoldable pub checksum : ℕ → List ℕ → ℕ
checksum acc [] = acc
checksum acc (x ∷ xs) = checksum ((acc * 31 + x) % 251) xs

unfoldable pub toy_tag : List ℕ → List ℕ → List ℕ → List ℕ → List ℕ
unfolding checksum
toy_tag key iv aad buf = replicate 16 (checksum 0 (key ++ (iv ++ (aad ++ buf))))

abbrev pub toy : Aead
toy = record {
  Key = List ℕ;
  new_key = λ bytes. if length bytes == expresslane_key_size then some bytes else none;
  seal = λ key iv aad buf. (buf, some (toy_tag key iv aad buf));
  unseal = λ key iv aad buf tag. (buf, bytes_eq tag (toy_tag key iv aad buf));
}

some-injective : {A : Type 0} {x y : A} → some x ≡ some y → x ≡ y
some-injective {A} {x} {y} e = grind arith

pub toy_laws : AeadLaws toy
unfolding toy_tag
toy_laws = record {
  new_key_ok = λ bytes h. (bytes, ground arith);
  length-seal = λ k iv aad buf. refl;
  length-unseal = λ k iv aad buf tag. refl;
  length-tag = λ k iv aad buf e. subst (λ t. length t ≡ 16) (some-injective e) refl;
  unseal-seal = λ k iv aad buf e.
      ap {B = List ℕ × Bool} (λ b. (buf, b))
        (subst (λ t. bytes_eq t (toy_tag k iv aad buf) ≡ true) (some-injective e)
          (bytes_eq_refl (toy_tag k iv aad buf)));
}
