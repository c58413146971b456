-- ===== src/Session/Verdict.antt =====
-- What a caller of `decrypt` may conclude from its answer.
use lightway_cffi.Base.{
  ℕ, ◌≡◌, refl, Bool, true, List, ◌++◌, arith, drop, replicate, inl, inr, ◌⊎◌, Result, ok, err,
}
use lightway_cffi.Data.{ExpresslaneError, invalid_data}
use lightway_cffi.Cipher.{Aead, AeadLaws}
use lightway_cffi.Session.{State, decrypt}
use lightway_cffi.Session.Decrypt.{
  wire_counter, wire_len, wire_encoded, committed, unseal_wire, Opens, Passes, Decrypts, short,
  replay, truncated, no_room, no_key, forged, opened, decrypt-Decrypts,
}

module _ (a : Aead) where
  -- The answer of a packet that a key opens.
  pub record Authentic (s : State a) (sid wire out : List ℕ) (n : ℕ) (enc : Bool) : Type 0 where
    pub key : a.Key
    pub opens : Opens a s sid wire key
    pub good : (unseal_wire a s sid wire key).1 ≡ true
    pub passes : Passes a s wire out
    pub same_length : n ≡ wire_len wire
    pub same_flag : enc ≡ wire_encoded wire
    pub plaintext : decrypt a s sid wire out ≡ (
      committed a s (wire_counter wire),
      (unseal_wire a s sid wire key).0 ++ drop n out,
      ok (n, enc),
    )

  module _ (laws : AeadLaws a) (s : State a) (sid wire out : List ℕ) where
    Refused : ExpresslaneError → State a × List ℕ × Result (ℕ × Bool) ExpresslaneError → Type 0
    Refused e r =
        (r ≡ (s, out, err e))
        ⊎ ((e ≡ invalid_data)
            × (r ≡ (s, replicate (wire_len wire) 0 ++ drop (wire_len wire) out, err e)))

    Refused-by :
        {e e' : ExpresslaneError} {r : State a × List ℕ × Result (ℕ × Bool) ExpresslaneError}
        → r.2 ≡ err e
        → r ≡ (s, out, err e')
        → Refused e r
    unfolding Refused
    Refused-by h k = inl (grind arith)

    refusal :
        (e : ExpresslaneError) {r : State a × List ℕ × Result (ℕ × Bool) ExpresslaneError}
        → r.2 ≡ err e
        → Decrypts a s sid wire out r
        → Refused e r
    unfolding Refused
    refusal e h (short _ k) = Refused-by h k
    refusal e h (replay _ _ k) = Refused-by h k
    refusal e h (truncated _ _ _ k) = Refused-by h k
    refusal e h (no_room _ _ _ k) = Refused-by h k
    refusal e h (no_key _ _ k) = Refused-by h k
    refusal e h (forged _ _ _ _ k) = inr (grind arith, grind arith)
    refusal e h (opened _ q _ _ k) = absurd (grind arith)

    acceptance :
        (n : ℕ) (enc : Bool) {r : State a × List ℕ × Result (ℕ × Bool) ExpresslaneError}
        → r.2 ≡ ok (n, enc)
        → r ≡ decrypt a s sid wire out
        → Decrypts a s sid wire out r
        → Authentic s sid wire out n enc
    acceptance n enc h same (short _ k) = absurd (grind arith)
    acceptance n enc h same (replay _ _ k) = absurd (grind arith)
    acceptance n enc h same (truncated _ _ _ k) = absurd (grind arith)
    acceptance n enc h same (no_room _ _ _ k) = absurd (grind arith)
    acceptance n enc h same (no_key _ _ k) = absurd (grind arith)
    acceptance n enc h same (forged _ _ _ _ k) = absurd (grind arith)
    acceptance n enc h same (opened p q o good k) = record {
      key = q;
      opens = o;
      good = good;
      passes = p;
      same_length = grind arith;
      same_flag = grind arith;
      plaintext = grind arith;
    }

    -- A refused packet leaves the session, its replay window included, as it was. The output
    -- buffer is untouched too, or the packet failed to authenticate and the payload's place in
    -- the buffer is all zero.
    pub decrypt_error :
        (e : ExpresslaneError)
        → (decrypt a s sid wire out).2 ≡ err e
        → (decrypt a s sid wire out ≡ (s, out, err e))
          ⊎ ((e ≡ invalid_data)
              × (decrypt a s sid wire out
                  ≡ (s, replicate (wire_len wire) 0 ++ drop (wire_len wire) out, err e)))
    unfolding Refused
    decrypt_error e h = refusal e h (decrypt-Decrypts a laws s sid wire out)

    -- An accepted packet was opened by the current key, or by the previous one after the current
    -- one failed; its counter was fresh and is now in the window, and the buffer holds exactly
    -- that key's plaintext with the rest of it kept.
    pub decrypt_success :
        (n : ℕ) (enc : Bool)
        → (decrypt a s sid wire out).2 ≡ ok (n, enc)
        → Authentic s sid wire out n enc
    decrypt_success n enc h = acceptance n enc h refl (decrypt-Decrypts a laws s sid wire out)
