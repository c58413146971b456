-- ===== src/Capi/Packets/Calls.antt =====
-- What a packet call leaves behind.
use lightway_cffi.Base.{
  ℕ, ◌≡◌, ◌≢◌, refl, ap, subst, Bool, true, false, Option, none, some, List, if◌then◌else◌, Result,
  ok, err, inl, inr,
}
use lightway_cffi.Data.{ExpresslaneError}
use lightway_cffi.Cipher.{Aead, AeadLaws}
use lightway_cffi.Session.{State}
use lightway_cffi.Session
use lightway_cffi.Session.Verdict.{decrypt_error}
use lightway_cffi.Capi.{
  success, null_pointer, panic, ffi_guard, from_raw_parts, try_into, store, Handle,
}
use lightway_cffi.Capi.Packets.{DecryptCall, decrypt, decrypt_body, decrypt_end, output}

module _ (a : Aead) (laws : AeadLaws a) where
  -- After a refused packet: nothing but the buffer has changed, and the out-params are safe.
  abbrev Clean : Handle a → Option ℕ → Option Bool → DecryptCall a → Type 0
  Clean session out_len is_encoded call =
      call.code ≢ success
      → call.code ≢ null_pointer
      → (call.session ≡ session)
        × (call.out_len ≡ store out_len 0)
        × (call.is_encoded ≡ store is_encoded false)

  decrypt_error_session :
      (s : State a) (sid wire out : List ℕ) (e : ExpresslaneError)
      → (Session.decrypt a s sid wire out).2 ≡ err e
      → (Session.decrypt a s sid wire out).0 ≡ s
  decrypt_error_session s sid wire out e h = elim (decrypt_error a laws s sid wire out e h) [
    | inl r ↦ ap (λ t. t.0) r
    | inr (_, r) ↦ ap (λ t. t.0) r
  ]

  decrypt_end-Clean :
      (s : State a) (out : Option (List ℕ)) (out_capacity : ℕ) (out_len : Option ℕ)
      (is_encoded : Option Bool) (r : State a × List ℕ × Result (ℕ × Bool) ExpresslaneError)
      → ((e : ExpresslaneError) → r.2 ≡ err e → r.0 ≡ s)
      → Clean (some s) out_len is_encoded (decrypt_end a out out_capacity out_len is_encoded r)
  unfolding decrypt_end
  decrypt_end-Clean s out out_capacity out_len is_encoded (t, slice, ok (n, b)) h failed _ =
      absurd (failed refl)
  decrypt_end-Clean s out out_capacity out_len is_encoded (t, slice, err e) h _ _ =
      (ap some (h e refl), refl, refl)

  Clean-if :
      (session : Handle a) (out_len : Option ℕ) (is_encoded : Option Bool) (b : Bool)
      (x y : DecryptCall a)
      → x.code ≡ null_pointer
      → Clean session out_len is_encoded y
      → Clean session out_len is_encoded (if b then x else y)
  Clean-if session out_len is_encoded true x y null clean _ set = absurd (set null)
  Clean-if session out_len is_encoded false x y null clean failed set = clean failed set

  decrypt_body-Clean :
      (s : State a) (sid : Option (List ℕ)) (wire : List ℕ) (out : Option (List ℕ))
      (out_capacity : ℕ) (out_len : Option ℕ) (is_encoded : Option Bool)
      → Clean (some s) out_len is_encoded (
          ffi_guard
            (record {
              session = some s;
              out = out;
              out_len = store out_len 0;
              is_encoded = store is_encoded false;
              code = panic;
            })
            (decrypt_body a s sid wire out out_capacity out_len is_encoded))
  unfolding decrypt_body ffi_guard
  decrypt_body-Clean s none wire out out_capacity out_len is_encoded _ _ = (refl, refl, refl)
  decrypt_body-Clean s (some sid) wire out out_capacity out_len is_encoded failed set =
      decrypt_end-Clean s out out_capacity out_len is_encoded _
        (decrypt_error_session s sid wire (output a out out_capacity)) failed set

  -- After a call of `he_expresslane_decrypt` that reports an error of the packet or a panic, the
  -- session is as before, `out_len` is 0 and `is_encoded` is false.
  pub decrypt_failed :
      (s : State a) (session_id wire : Option (List ℕ)) (wire_len : ℕ) (out : Option (List ℕ))
      (out_capacity : ℕ) (out_len : Option ℕ) (is_encoded : Option Bool) {call : DecryptCall a}
      → decrypt a (some s) session_id wire wire_len out out_capacity out_len is_encoded ≡ call
      → call.code ≢ success
      → call.code ≢ null_pointer
      → (call.session ≡ some s)
        × (call.out_len ≡ store out_len 0)
        × (call.is_encoded ≡ store is_encoded false)
  unfolding decrypt
  decrypt_failed s session_id wire wire_len out out_capacity out_len is_encoded e =
      subst (Clean (some s) out_len is_encoded) e (
        Clean-if (some s) out_len is_encoded _ _ _ refl (
          decrypt_body-Clean s (try_into 8 (from_raw_parts session_id 8))
            (from_raw_parts wire wire_len) out out_capacity out_len is_encoded))
