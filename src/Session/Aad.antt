-- ===== src/Session/Aad.antt =====
-- `build_aad`: what the associated data binds.
use lightway_cffi.Base.{
  ℕ, ◌^◌, ◌<◌, ◌≡◌, sym, ap, ◌∙◌, true, false, List, [], ◌++◌, arith, if◌then◌else◌, length, take,
  replicate, write_at, to_be_bytes, length-to_be_bytes, write_at_front, write_at_behind,
  take-length-append, to_be_two-injective, to_be_eight-injective, append-injective, Bool-cases, inl,
  inr, take_behind,
}
use lightway_cffi.Data.{ExpresslaneVersion, version2, version_ge}
use lightway_cffi.Session.{aad_bytes}

-- With a session id of 8 bytes the associated data is the id, the counter's 8 bytes, and from
-- version 2 on the 2 bytes of the whole flags field.
aad_bytes_fields :
    (version : ExpresslaneVersion) (session_id : List ℕ) (counter flags : ℕ)
    → length session_id ≡ 8
    → aad_bytes version session_id counter flags
      ≡ session_id
        ++ (to_be_bytes 8 counter
            ++ (if version_ge version version2 then to_be_bytes 2 flags else []))
unfolding aad_bytes
aad_bytes_fields version sid counter flags h = elim (Bool-cases (version_ge version version2)) [
  | inl new ↦
      rw (new, two_written)
        (ap (take 18) three_written
          ∙ take_behind sid (c8 ++ (f2 ++ [])) 18 10 (omega arith)
          ∙ ap (◌++◌ sid) (
              take_behind c8 (f2 ++ []) 10 2 (omega (arith, length-to_be_bytes 8 counter))
              ∙ ap (◌++◌ c8)
                  (take-length-append f2 [] 2 (omega (arith, length-to_be_bytes 2 flags)))))
  | inr old ↦
      rw (old, two_written)
        (take_behind sid (c8 ++ zeros 2) 16 8 (omega arith)
          ∙ ap (◌++◌ sid)
              (take_behind c8 (zeros 2) 8 0 (omega (arith, length-to_be_bytes 8 counter))))
]
  where
    zeros : ℕ → List ℕ
    zeros n = replicate n 0

    c8 : List ℕ
    c8 = to_be_bytes 8 counter

    f2 : List ℕ
    f2 = to_be_bytes 2 flags

    two_written : write_at (write_at (zeros 18) 0 sid) 8 c8 ≡ sid ++ (c8 ++ zeros 2)
    two_written =
        ap (λ t. write_at t 8 c8) (write_at_front (zeros 8) (zeros 10) sid h)
        ∙ write_at_behind sid (zeros 10) c8 8 0 (omega arith)
        ∙ ap (◌++◌ sid) (write_at_front (zeros 8) (zeros 2) c8 (length-to_be_bytes 8 counter))

    three_written : write_at (sid ++ (c8 ++ zeros 2)) 16 f2 ≡ sid ++ (c8 ++ (f2 ++ []))
    three_written =
        write_at_behind sid (c8 ++ zeros 2) f2 16 8 (omega arith)
        ∙ ap (◌++◌ sid) (
            write_at_behind c8 (zeros 2) f2 8 0 (omega (arith, length-to_be_bytes 8 counter))
            ∙ ap (◌++◌ c8) (write_at_front (zeros 2) [] f2 (length-to_be_bytes 2 flags)))

-- Two packets with the same associated data have the same session id and counter, and under
-- version 2 the same flags, reserved bits included.
pub aad_bytes-binds :
    (version : ExpresslaneVersion) (sid sid' : List ℕ) (counter counter' flags flags' : ℕ)
    → length sid ≡ 8
    → length sid' ≡ 8
    → counter < 2 ^ 64
    → counter' < 2 ^ 64
    → flags < 2 ^ 16
    → flags' < 2 ^ 16
    → aad_bytes version sid counter flags ≡ aad_bytes version sid' counter' flags'
    → (sid ≡ sid') × (counter ≡ counter') × (version_ge version version2 ≡ true → flags ≡ flags')
aad_bytes-binds version sid sid' c c' f f' hs hs' hc hc' hf hf' e = (
  outer.0,
  to_be_eight-injective c c' hc hc' inner.0,
  λ new. to_be_two-injective f f' hf hf' (rw new at inner.1),
)
  where
    tail : ℕ → List ℕ
    tail flags = if version_ge version version2 then to_be_bytes 2 flags else []

    outer : (sid ≡ sid') × (to_be_bytes 8 c ++ tail f ≡ to_be_bytes 8 c' ++ tail f')
    outer =
        append-injective sid sid' _ _ (hs ∙ sym hs')
          (sym (aad_bytes_fields version sid c f hs) ∙ e ∙ aad_bytes_fields version sid' c' f' hs')

    inner : (to_be_bytes 8 c ≡ to_be_bytes 8 c') × (tail f ≡ tail f')
    inner =
        append-injective _ _ (tail f) (tail f')
          (length-to_be_bytes 8 c ∙ sym (length-to_be_bytes 8 c')) outer.1

-- Below version 2 the flags are not authenticated: any flags give the same associated data.
aad_bytes_flags_free :
    (version : ExpresslaneVersion) (sid : List ℕ) (counter flags flags' : ℕ)
    → version_ge version version2 ≡ false
    → aad_bytes version sid counter flags ≡ aad_bytes version sid counter flags'
unfolding aad_bytes
aad_bytes_flags_free version sid counter flags flags' old = rw old
