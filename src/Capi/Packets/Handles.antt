-- ===== src/Capi/Packets/Handles.antt =====
-- The handles and the calls of two sessions that share a key.
use lightway_cffi.Base.{
  take_all, ℕ, ◌+◌, ◌^◌, ◌≤◌, ◌<◌, ◌≡◌, ◌≢◌, ◌⊎◌, refl, sym, ap, ap₂, ◌∙◌, Bool, true, false, none,
  some, List, [], ◌∷◌, ◌++◌, arith, ◌==◌, if◌then◌else◌, length, take, drop, replicate, Result, ok,
  err, inl, inr,
}
use lightway_cffi.Data.{ExpresslaneError, from_u8, expresslane_key_size}
use lightway_cffi.Cipher.{Aead, AeadLaws}
use lightway_cffi.Session.{State, flags_of, aad_bytes}
use lightway_cffi.Session
use lightway_cffi.Session.RoundTrip
use lightway_cffi.Session.Packet.{encrypt-packet}
use lightway_cffi.Session.Decrypt.{committed}
use lightway_cffi.Replay.{would_reject}
use lightway_cffi.Session.Keys.{next_key_staged, peer_key_rotates}
use lightway_cffi.Capi.{
  success, panic, install_result, ffi_guard, from_raw_parts, try_into, Handle, session_create,
  set_next_self_key, set_peer_key, set_key_from_ptr, install_bytes, is_unknown, promote_self_key,
}
use lightway_cffi.Capi.Packets.{
  encrypt_body, encrypt_end, decrypt_body, decrypt_end, EncryptCall, DecryptCall, encrypt, decrypt,
  payload,
}

pub some-injective : {A : Type 0} {x y : A} → some x ≡ some y → x ≡ y
some-injective {A} {x} {y} e = grind arith

ok-injective : {A E : Type 0} {x y : A} → ◌≡◌ {A = Result A E} (ok x) (ok y) → x ≡ y
ok-injective e = grind arith

append_rest : {A : Type 0} (xs ys : List A) → xs ++ drop (length ys) ys ≡ xs
append_rest [] [] = refl
append_rest [] (y ∷ ys) = append_rest [] ys
append_rest (x ∷ xs) ys = ap (◌∷◌ x) (append_rest xs ys)

whole_slice :
    (xs : List ℕ) → (if length xs == 0 then [] else from_raw_parts (some xs) (length xs)) ≡ xs
whole_slice [] = refl
whole_slice (x ∷ xs) = ground (arith, take_all (x ∷ xs) (length (x ∷ xs)) refl)

array : (n : ℕ) (xs : List ℕ) → length xs ≡ n → try_into n (from_raw_parts (some xs) n) ≡ some xs
array n xs h = rw (take_all xs n (sym h)) (ground arith)

module _ (a : Aead) where
  created :
      (version : ℕ)
      → (version ≡ 1) ⊎ (version ≡ 2)
      → session_create a version ≡ some (Session.new (from_u8 version))
  unfolding session_create from_u8 ffi_guard is_unknown
  created version (inl e) = rw e refl
  created version (inr e) = rw e refl

  set_key :
      (s t : State a) (key : List ℕ)
      (install : State a → List ℕ → State a × Result (Unit {0}) ExpresslaneError)
      → length key ≡ expresslane_key_size
      → install s key ≡ (t, ok tt)
      → set_key_from_ptr a (some s) (some key) install ≡ (some t, success)
  unfolding set_key_from_ptr ffi_guard
  set_key s t key install h e =
      ap (λ o. ffi_guard (some s, panic) (install_bytes a install s o))
        (array expresslane_key_size key h)
      ∙ ap (install_result a) e

  encrypted :
      (s : State a) (c : ℕ) (sid plain iv : List ℕ) (enc : Bool) (buf : List ℕ)
      → length sid ≡ 8
      → length iv ≡ 12
      → encrypt a
          (some s)
          c
          (some sid)
          (some plain)
          (length plain)
          (some iv)
          enc
          (some buf)
          (length buf)
          (some 0)
        ≡ encrypt_end a
            (some buf)
            (length buf)
            (some 0)
            (Session.encrypt a s c sid plain iv enc buf)
  unfolding encrypt encrypt_body ffi_guard
  encrypted s c sid plain iv enc buf es ei =
      ap
        (λ o. ffi_guard panicked (
          encrypt_body a s c o (payload a (some plain) (length plain)) (try_into 12 (take 12 iv))
            enc (some buf) (length buf) (some 0)))
        (array 8 sid es)
      ∙ ap
          (λ o. ffi_guard panicked (
            encrypt_body a s c (some sid) (payload a (some plain) (length plain)) o enc (some buf)
              (length buf) (some 0)))
          (array 12 iv ei)
      ∙ ap₂
          (λ p b.
            encrypt_end a (some buf) (length buf) (some 0) (Session.encrypt a s c sid p iv enc b))
          (whole_slice plain) (take_all buf (length buf) refl)
    where
      panicked : EncryptCall a
      panicked = record { session = some s; out = some buf; out_len = some 0; code = panic }

  decrypted :
      (s : State a) (sid wire : List ℕ) (n : ℕ) (out : List ℕ)
      → length sid ≡ 8
      → decrypt a (some s) (some sid) (some wire) n (some out) (length out) (some 0) (some false)
        ≡ decrypt_end a
            (some out)
            (length out)
            (some 0)
            (some false)
            (Session.decrypt a s sid (take n wire) out)
  unfolding decrypt decrypt_body ffi_guard
  decrypted s sid wire n out es =
      ap
        (λ o.
          ffi_guard panicked
            (decrypt_body a s o (take n wire) (some out) (length out) (some 0) (some false)))
        (array 8 sid es)
      ∙ ap
          (λ o.
            decrypt_end a (some out) (length out) (some 0) (some false)
              (Session.decrypt a s sid (take n wire) o))
          (whole_slice out)
    where
      panicked : DecryptCall a
      panicked = record {
        session = some s;
        out = some out;
        out_len = some 0;
        is_encoded = some false;
        code = panic;
      }

  -- `create`, `set_next_self_key` and `promote_self_key`, and `create` and `set_peer_key`.
  abbrev pub sending : ℕ → List ℕ → Handle a
  sending version key =
      promote_self_key a (set_next_self_key a (session_create a version) (some key)).0

  abbrev pub receiving : ℕ → List ℕ → Handle a
  receiving version key = (set_peer_key a (session_create a version) (some key)).0

  module _ (laws : AeadLaws a) (version : ℕ) (key : List ℕ) (known : (version ≡ 1) ⊎ (version ≡ 2))
      (whole : length key ≡ expresslane_key_size)
      (usable : key ≢ replicate expresslane_key_size 0) where
    abbrev pub fresh : State a
    fresh = Session.new (from_u8 version)

    -- The two handles, with the same key.
    pub sender :
        (k : a.Key) × (a.new_key key ≡ some k)
        × (sending version key
            ≡ some (record fresh {
              current_self = some k;
              next_self = none;
              self_key_installed = true;
            }))
    unfolding promote_self_key set_next_self_key Session.promote_self_key
    sender =
        let (k, made, staged) = next_key_staged a laws key whole usable fresh in
        (
          k,
          made,
          ap (λ h. promote_self_key a (set_next_self_key a h (some key)).0) (created version known)
              ∙ ap (λ h. promote_self_key a h.0)
                  (set_key fresh _ key (Session.update_next_self_key a) whole staged),
        )

    pub receiver :
        (k : a.Key) × (a.new_key key ≡ some k)
        × (receiving version key
            ≡ some (record fresh {
              rx = record (fresh.rx) { current_peer = some k; prev_peer = fresh.rx.current_peer };
              peer_key_installed = true;
            }))
    unfolding set_peer_key
    receiver =
        let (k, made, set) = peer_key_rotates a laws key whole usable fresh in
        (
          k,
          made,
          ap (λ h. (set_peer_key a h (some key)).0) (created version known)
              ∙ ap (λ h. h.0) (set_key fresh _ key (Session.update_peer_key a) whole set),
        )

  encrypt_end_ok :
      (buf : List ℕ) (n : ℕ) (r : State a × List ℕ × Result ℕ ExpresslaneError)
      → r.2 ≡ ok n
      → encrypt_end a (some buf) (length buf) (some 0) r
        ≡ record { session = some r.0; out = some r.1; out_len = some n; code = success }
  unfolding encrypt_end
  encrypt_end_ok buf n (s, slice, ok m) h =
      ap₂ (λ o k. record { session = some s; out = some o; out_len = some k; code = success })
        (append_rest slice buf) (ok-injective h)
  encrypt_end_ok buf n (s, slice, err e) h = absurd (grind arith)

  -- A packet from a session to one that holds its key.
  module _ (laws : AeadLaws a) (tx rx : State a) (k : a.Key) (c : ℕ) (sid plain iv : List ℕ)
      (enc : Bool) (buf out tag : List ℕ) (es : length sid ≡ 8) (ei : length iv ≡ 12)
      (small : length plain ≤ 65535) (fits : Session.wire_overhead + length plain ≤ length buf)
      (key : tx.current_self ≡ some k)
      (et : (a.seal k iv (aad_bytes tx.version sid c (flags_of enc)) plain).1 ≡ some tag) where
    abbrev pub packet_call : State a × List ℕ × Result ℕ ExpresslaneError
    packet_call = Session.encrypt a tx c sid plain iv enc buf

    pub sent_call :
        encrypt a
          (some tx)
          c
          (some sid)
          (some plain)
          (length plain)
          (some iv)
          enc
          (some buf)
          (length buf)
          (some 0)
        ≡ record {
          session = some packet_call.0;
          out = some packet_call.1;
          out_len = some (Session.wire_overhead + length plain);
          code = success;
        }
    sent_call =
        encrypted tx c sid plain iv enc buf es ei
        ∙ encrypt_end_ok buf (Session.wire_overhead + length plain) packet_call (
            ap (λ t. t.2)
              (encrypt-packet a laws tx c sid plain iv enc buf k tag key ei small fits et))

    pub delivered_call :
        rx.rx.current_peer ≡ some k
        → tx.version ≡ rx.version
        → c < 2 ^ 64
        → length plain ≤ length out
        → would_reject rx.rx.replay_window c ≡ false
        → decrypt a
            (some rx)
            (some sid)
            (some packet_call.1)
            (Session.wire_overhead + length plain)
            (some out)
            (length out)
            (some 0)
            (some false)
          ≡ record {
            session = some (committed a rx c);
            out = some (plain ++ drop (length plain) out);
            out_len = some (length plain);
            is_encoded = some enc;
            code = success;
          }
    unfolding decrypt_end
    delivered_call peer same hc room unseen =
        decrypted rx sid packet_call.1 (Session.wire_overhead + length plain) out es
        ∙ ap (decrypt_end a (some out) (length out) (some 0) (some false)) (
            Session.RoundTrip.round_trip a laws tx rx c sid plain iv enc buf out k tag key peer same
              ei small hc fits room unseen et)
        ∙ ap
            (λ o. record {
              session = some (committed a rx c);
              out = some o;
              out_len = some (length plain);
              is_encoded = some enc;
              code = success;
            })
            (append_rest (plain ++ drop (length plain) out) out)
