-- ===== src/Session/Keys.antt =====
-- The key operations: what each one changes, on every branch.
use lightway_cffi.Base.{
  Result-cases, ℕ, ◌+◌, ◌≡◌, ◌≢◌, refl, sym, ap, ◌∙◌, Bool, true, false, none, some, List, [], ◌∷◌,
  arith, length, replicate, add64, ltb, Bool-cases, Option-cases, inl, inr, ◌⊎◌, ok, err,
}
use lightway_cffi.Data.{
  ExpresslaneError, buffer_too_small, invalid_data, key_not_set, invalid_key, is_invalid,
  invalid_sentinel, bytes_eq, expresslane_key_size,
}
use lightway_cffi.Cipher.{Aead, AeadLaws}
use lightway_cffi.Cipher
use lightway_cffi.Session.{
  State, promote_self_key, update_next_self_key, update_peer_key, load_key, encrypt, seal_packet,
  wire_overhead,
}

pub bytes_eq_refl : (xs : List ℕ) → bytes_eq xs xs ≡ true
unfolding bytes_eq
bytes_eq_refl [] = refl
bytes_eq_refl (x ∷ xs) = ground (arith, bytes_eq_refl xs)

bytes_eq_sound : (xs ys : List ℕ) → bytes_eq xs ys ≡ true → xs ≡ ys
unfolding bytes_eq
bytes_eq_sound [] [] h = refl
bytes_eq_sound [] (y ∷ ys) h = absurd (grind arith)
bytes_eq_sound (x ∷ xs) [] h = absurd (grind arith)
bytes_eq_sound (x ∷ xs) (y ∷ ys) h = ground (arith, bytes_eq_sound xs ys)

module _ (a : Aead) where
  pub promote_cases :
      (s : State a)
      → ((s.next_self ≡ none) × (promote_self_key s ≡ s))
        ⊎ ((k : a.Key) × (s.next_self ≡ some k)
            × (promote_self_key s
                ≡ record s { current_self = some k; next_self = none; self_key_installed = true }))
  unfolding promote_self_key
  promote_cases s = elim (Option-cases s.next_self) [
    | inl e ↦ inl (e, simp (promote_self_key, e))
    | inr (k, e) ↦ inr (k, e, simp (promote_self_key, e))
  ]

  pub update_peer_cases :
      (s : State a) (key : List ℕ)
      → ((e : ExpresslaneError) × (load_key a key ≡ err e) × (update_peer_key a s key ≡ (s, err e)))
        ⊎ ((k : a.Key) × (load_key a key ≡ ok k)
            × (update_peer_key a s key ≡ (
              record s {
                rx = record (s.rx) { current_peer = some k; prev_peer = s.rx.current_peer };
                peer_key_installed = true;
              },
              ok tt,
            )))
  unfolding update_peer_key
  update_peer_cases s key = elim (Result-cases (load_key a key)) [
    | inl (k, e) ↦ inr (k, e, simp (update_peer_key, e))
    | inr (e, h) ↦ inl (e, h, simp (update_peer_key, h))
  ]

  pub update_next_cases :
      (s : State a) (key : List ℕ)
      → ((e : ExpresslaneError) × (load_key a key ≡ err e)
          × (update_next_self_key a s key ≡ (s, err e)))
        ⊎ ((k : a.Key) × (load_key a key ≡ ok k)
            × (update_next_self_key a s key ≡ (record s { next_self = some k }, ok tt)))
  unfolding update_next_self_key
  update_next_cases s key = elim (Result-cases (load_key a key)) [
    | inl (k, e) ↦ inr (k, e, simp (update_next_self_key, e))
    | inr (e, h) ↦ inl (e, h, simp (update_next_self_key, h))
  ]

  -- A sealed packet is counted; otherwise `encrypt` leaves the session alone.
  pub encrypt_cases :
      (s : State a) (c : ℕ) (sid plain iv : List ℕ) (enc : Bool) (out : List ℕ)
      → ((e : ExpresslaneError) × ((encrypt a s c sid plain iv enc out).0 ≡ s)
          × ((encrypt a s c sid plain iv enc out).2 ≡ err e))
        ⊎ ((n : ℕ) × ((encrypt a s c sid plain iv enc out).0
              ≡ record s { packets_sent = add64 s.packets_sent 1 })
            × ((encrypt a s c sid plain iv enc out).2 ≡ ok n))
  unfolding encrypt
  encrypt_cases s c sid plain iv enc out =
      elim (Bool-cases (ltb (length out) (wire_overhead + length plain))) [
        | inl h ↦ inl (buffer_too_small, simp h, simp h)
        | inr h1 ↦ elim (Bool-cases (ltb 65535 (length plain))) [
          | inl h ↦ inl (invalid_data, simp (h1, h), simp (h1, h))
          | inr h2 ↦ elim (Option-cases s.current_self) [
            | inl e ↦ inl (key_not_set, simp (h1, h2, e), simp (h1, h2, e))
            | inr (k, e) ↦
                elim (Result-cases (seal_packet a k s.version c sid plain iv enc out).1) [
                  | inl (n, r) ↦ inr (n, simp (h1, h2, e, r), simp (h1, h2, e, r))
                  | inr (w, r) ↦ inl (w, simp (h1, h2, e, r), simp (h1, h2, e, r))
                ]
          ]
        ]
      ]

  sentinel_load : load_key a (replicate expresslane_key_size 0) ≡ err invalid_key
  unfolding load_key is_invalid invalid_sentinel bytes_eq
  sentinel_load = refl

  -- Neither setter takes the all-zero key: it answers `invalid_key` and changes nothing.
  sentinel_refused :
      (s : State a)
      → (update_peer_key a s (replicate expresslane_key_size 0) ≡ (s, err invalid_key))
        × (update_next_self_key a s (replicate expresslane_key_size 0) ≡ (s, err invalid_key))
  unfolding update_peer_key update_next_self_key
  sentinel_refused s =
      (simp (update_peer_key, sentinel_load), simp (update_next_self_key, sentinel_load))

  module _ (laws : AeadLaws a) (key : List ℕ) (whole : length key ≡ expresslane_key_size)
      (usable : key ≢ replicate expresslane_key_size 0) where
    loaded : (k : a.Key) × (a.new_key key ≡ some k) × (load_key a key ≡ ok k)
    unfolding load_key is_invalid invalid_sentinel Cipher.new
    loaded = (
      (laws.new_key_ok key whole).0,
      (laws.new_key_ok key whole).1,
      simp (load_key, Cipher.new, not_sentinel, (laws.new_key_ok key whole).1),
    )
      where
        not_sentinel : bytes_eq key (replicate expresslane_key_size 0) ≡ false
        not_sentinel = elim (Bool-cases (bytes_eq key (replicate expresslane_key_size 0))) [
          | inl h ↦ absurd (usable (bytes_eq_sound key _ h))
          | inr h ↦ h
        ]

    -- Any other 32 bytes are taken: the peer's key becomes current, the one that was current
    -- becomes the previous one, the peer flag is raised, and nothing else of the session changes.
    pub peer_key_rotates :
        (s : State a)
        → (k : a.Key) × (a.new_key key ≡ some k)
          × (update_peer_key a s key ≡ (
            record s {
              rx = record (s.rx) { current_peer = some k; prev_peer = s.rx.current_peer };
              peer_key_installed = true;
            },
            ok tt,
          ))
    unfolding update_peer_key
    peer_key_rotates s = (loaded.0, loaded.1, simp (update_peer_key, loaded.2))

    pub next_key_staged :
        (s : State a)
        → (k : a.Key) × (a.new_key key ≡ some k)
          × (update_next_self_key a s key ≡ (record s { next_self = some k }, ok tt))
    unfolding update_next_self_key
    next_key_staged s = (loaded.0, loaded.1, simp (update_next_self_key, loaded.2))

    -- A self key sends nothing until it is promoted; `promote_self_key` then makes it the active
    -- one and raises the self flag, and a second call changes nothing.
    staged_promoted :
        (s : State a)
        → (k : a.Key) × (a.new_key key ≡ some k)
          × ((update_next_self_key a s key).0.current_self ≡ s.current_self)
          × (promote_self_key (update_next_self_key a s key).0
              ≡ record s { current_self = some k; next_self = none; self_key_installed = true })
          × (promote_self_key (promote_self_key (update_next_self_key a s key).0)
              ≡ promote_self_key (update_next_self_key a s key).0)
    unfolding promote_self_key
    staged_promoted s =
        let (k, made, staged) = next_key_staged s in
        (
          k,
          made,
          ap (λ t. t.0.current_self) staged,
          ap (λ t. promote_self_key t.0) staged,
          ap (λ t. promote_self_key (promote_self_key t.0)) staged
              ∙ ap (λ t. promote_self_key t.0) (sym staged),
        )
