-- ===== src/Session/Decrypt.antt =====
-- What `decrypt` leaves behind: on an error nothing but a scrubbed buffer, on success an
-- authentic plaintext and one more counter in the window.
use lightway_cffi.Base.{
  ℕ, ◌+◌, ◌-◌, ◌≤◌, ◌<◌, ◌≡◌, refl, sym, ap, subst, ◌∙◌, Bool, true, false, not, Option, none, some,
  List, ◌++◌, arith, length, drop, replicate, slice, write_at_front, length-take, length-drop,
  length-replicate, from_be_bytes, bit_and, ◌==◌, ltb, Bool-cases, Option-cases, inl, inr, Result,
  ok, err,
}
use lightway_cffi.Data.{
  ExpresslaneError, insufficient_data, buffer_too_small, invalid_data, replayed, key_not_set,
}
use lightway_cffi.Cipher.{Aead, AeadLaws}
use lightway_cffi.Replay.{would_reject, commit}
use lightway_cffi.Replay.Runs.{would_reject-commit}
use lightway_cffi.Session.{
  State, wire_overhead, flag_encoded, aad_bytes, scrub, try_keys, finish, decrypt,
}
use lightway_cffi.Session.Attempt.{try_keys_current, try_keys_only, try_keys_prev}

-- The fields of a received packet.
abbrev pub wire_counter : List ℕ → ℕ
wire_counter wire = from_be_bytes 0 (slice wire 0 8)

abbrev pub wire_iv : List ℕ → List ℕ
wire_iv wire = slice wire 8 20

abbrev pub wire_tag : List ℕ → List ℕ
wire_tag wire = slice wire 20 36

abbrev pub wire_len : List ℕ → ℕ
wire_len wire = from_be_bytes 0 (slice wire 36 38)

abbrev pub wire_flags : List ℕ → ℕ
wire_flags wire = from_be_bytes 0 (slice wire 38 40)

abbrev pub wire_encoded : List ℕ → Bool
wire_encoded wire = not (bit_and (wire_flags wire) flag_encoded == 0)

abbrev pub wire_data : List ℕ → List ℕ
wire_data wire = slice wire 40 (40 + wire_len wire)

length-wire_data :
    (wire : List ℕ)
    → wire_overhead + wire_len wire ≤ length wire
    → length (wire_data wire) ≡ wire_len wire
length-wire_data wire h =
    omega (arith, length-take (40 + wire_len wire - 40) (drop 40 wire), length-drop 40 wire)

module _ (a : Aead) where
  -- The session with a counter committed to its window.
  abbrev pub committed : State a → ℕ → State a
  committed s counter = record s {
    rx = record (s.rx) { replay_window = (commit s.rx.replay_window counter).0 };
  }

  -- ring's answer to the packet under a key.
  abbrev pub unseal_wire : State a → List ℕ → List ℕ → a.Key → List ℕ × Bool
  unseal_wire s sid wire k =
      a.unseal k (wire_iv wire) (aad_bytes s.version sid (wire_counter wire) (wire_flags wire))
        (wire_data wire) (wire_tag wire)

  -- The commit after the pre-check never refuses.
  pub finish_good :
      (s : State a) (counter n : ℕ) (enc : Bool) (out : List ℕ)
      → would_reject s.rx.replay_window counter ≡ false
      → finish a s counter n enc (out, true) ≡ (committed s counter, out, ok (n, enc))
  unfolding finish
  finish_good s counter n enc out h = ground (arith, would_reject-commit s.rx.replay_window counter)

  pub finish_bad :
      (s : State a) (counter n : ℕ) (enc : Bool) (out : List ℕ)
      → finish a s counter n enc (out, false) ≡ (s, scrub out n, err invalid_data)
  unfolding finish
  finish_bad s counter n enc out = refl

  scrub_payload :
      (buf out : List ℕ) (n : ℕ)
      → length buf ≡ n
      → scrub (buf ++ drop n out) n ≡ replicate n 0 ++ drop n out
  scrub_payload buf out n h =
      write_at_front buf (drop n out) (replicate n 0) (length-replicate n 0 ∙ sym h)

  -- Which key opens a packet: the current one, or the previous one when the current one fails.
  pub data Opens (s : State a) (sid wire : List ℕ) (k : a.Key) : Type 0 where
    current : s.rx.current_peer ≡ some k → Opens s sid wire k
    previous :
        (c : a.Key)
        → s.rx.current_peer ≡ some c
        → (unseal_wire s sid wire c).1 ≡ false
        → s.rx.prev_peer ≡ some k
        → Opens s sid wire k

  -- The checks of `decrypt` up to the first one that refuses the packet.
  pub record Passes (s : State a) (wire out : List ℕ) : Type 0 where
    pub header : wire_overhead ≤ length wire
    pub not_replayed : would_reject s.rx.replay_window (wire_counter wire) ≡ false
    pub payload : wire_overhead + wire_len wire ≤ length wire
    pub room : wire_len wire ≤ length out

  -- Every way in which `decrypt` can end.
  pub data Decrypts (s : State a) (sid wire out : List ℕ)
      (r : State a × List ℕ × Result (ℕ × Bool) ExpresslaneError) : Type 0 where
    short :
        length wire < wire_overhead
        → r ≡ (s, out, err insufficient_data)
        → Decrypts s sid wire out r
    replay :
        wire_overhead ≤ length wire
        → would_reject s.rx.replay_window (wire_counter wire) ≡ true
        → r ≡ (s, out, err replayed)
        → Decrypts s sid wire out r
    truncated :
        wire_overhead ≤ length wire
        → would_reject s.rx.replay_window (wire_counter wire) ≡ false
        → length wire < wire_overhead + wire_len wire
        → r ≡ (s, out, err insufficient_data)
        → Decrypts s sid wire out r
    no_room :
        would_reject s.rx.replay_window (wire_counter wire) ≡ false
        → wire_overhead + wire_len wire ≤ length wire
        → length out < wire_len wire
        → r ≡ (s, out, err buffer_too_small)
        → Decrypts s sid wire out r
    no_key :
        Passes s wire out
        → s.rx.current_peer ≡ none
        → r ≡ (s, out, err key_not_set)
        → Decrypts s sid wire out r
    forged :
        Passes s wire out
        → (c : a.Key) → s.rx.current_peer ≡ some c
        → ((k : a.Key) → Opens s sid wire k → (unseal_wire s sid wire k).1 ≡ false)
        → r ≡ (s, replicate (wire_len wire) 0 ++ drop (wire_len wire) out, err invalid_data)
        → Decrypts s sid wire out r
    opened :
        Passes s wire out
        → (k : a.Key) → Opens s sid wire k
        → (unseal_wire s sid wire k).1 ≡ true
        → r ≡ (
          committed s (wire_counter wire),
          (unseal_wire s sid wire k).0 ++ drop (wire_len wire) out,
          ok (wire_len wire, wire_encoded wire),
        )
        → Decrypts s sid wire out r

  module _ (laws : AeadLaws a) (s : State a) (sid wire out : List ℕ) where
    good_end :
        (k : a.Key) {t : List ℕ × Bool}
        → Passes s wire out
        → t ≡ ((unseal_wire s sid wire k).0 ++ drop (length (wire_data wire)) out, true)
        → finish a s (wire_counter wire) (wire_len wire) (wire_encoded wire) t ≡ (
          committed s (wire_counter wire),
          (unseal_wire s sid wire k).0 ++ drop (wire_len wire) out,
          ok (wire_len wire, wire_encoded wire),
        )
    good_end k p e =
        ap (finish a s (wire_counter wire) (wire_len wire) (wire_encoded wire)) (
          e
          ∙ ap (λ n. ((unseal_wire s sid wire k).0 ++ drop n out, true))
              (length-wire_data wire p.payload))
        ∙ finish_good s _ _ _ _ p.not_replayed

    bad_end :
        (buf : List ℕ) {t : List ℕ × Bool}
        → Passes s wire out
        → length buf ≡ length (wire_data wire)
        → t ≡ (buf ++ drop (length (wire_data wire)) out, false)
        → finish a s (wire_counter wire) (wire_len wire) (wire_encoded wire) t
          ≡ (s, replicate (wire_len wire) 0 ++ drop (wire_len wire) out, err invalid_data)
    bad_end buf p same e =
        ap (finish a s (wire_counter wire) (wire_len wire) (wire_encoded wire))
          (e ∙ ap (λ n. (buf ++ drop n out, false)) (length-wire_data wire p.payload))
        ∙ finish_bad s _ _ _ _
        ∙ ap {B = State a × List ℕ × Result (ℕ × Bool) ExpresslaneError}
            (λ o. (s, o, err invalid_data))
            (scrub_payload buf out (wire_len wire) (same ∙ length-wire_data wire p.payload))

    -- No key opens the packet when those that there are fail.
    no_opener :
        (c : a.Key)
        → s.rx.current_peer ≡ some c
        → (unseal_wire s sid wire c).1 ≡ false
        → ((q : a.Key) → s.rx.prev_peer ≡ some q → (unseal_wire s sid wire q).1 ≡ false)
        → (k : a.Key) → Opens s sid wire k
        → (unseal_wire s sid wire k).1 ≡ false
    no_opener c key bad rest k (current e) = cc
    no_opener c key bad rest k (previous c' e bad' e') = rest k e'

    abbrev tried : a.Key → Option a.Key → List ℕ × Bool
    tried c o =
        try_keys a c o (wire_iv wire)
          (aad_bytes s.version sid (wire_counter wire) (wire_flags wire)) (wire_data wire)
          (wire_tag wire) out

    abbrev unsealed : a.Key → List ℕ
    unsealed k = (unseal_wire s sid wire k).0 ++ drop (length (wire_data wire)) out

    -- Past the cheap checks, with a current key.
    after_checks :
        (c : a.Key)
        → Passes s wire out
        → s.rx.current_peer ≡ some c
        → Decrypts s sid wire out (
            finish a s (wire_counter wire) (wire_len wire) (wire_encoded wire) (
              try_keys a c s.rx.prev_peer
                (wire_iv wire)
                (aad_bytes s.version sid (wire_counter wire) (wire_flags wire))
                (wire_data wire)
                (wire_tag wire)
                out))
    after_checks c p key = elim (Bool-cases (unseal_wire s sid wire c).1) [
      | inl good ↦
          opened p c (current key) good
            (good_end c p (try_keys_current a laws _ _ _ _ c s.rx.prev_peer out good))
      | inr bad ↦ elim (Option-cases s.rx.prev_peer) [
        | inl e ↦ forged p c key (no_opener c key bad (λ q e'. cc)) (
            bad_end (unseal_wire s sid wire c).0 p (laws.length-unseal c _ _ _ _)
              (ap (tried c) e ∙ try_keys_only a laws _ _ _ _ c out bad))
        | inr (q, e) ↦ elim (Bool-cases (unseal_wire s sid wire q).1) [
          | inl good ↦ opened p q (previous c key bad e) good (
              good_end q p (
                ap (tried c) e
                ∙ try_keys_prev a laws _ _ _ _ c q out bad
                ∙ ap (λ b. (unsealed q, b)) good))
          | inr worse ↦ forged p c key (no_opener c key bad (λ q' e'. cc)) (
              bad_end (unseal_wire s sid wire q).0 p (laws.length-unseal q _ _ _ _) (
                ap (tried c) e
                ∙ try_keys_prev a laws _ _ _ _ c q out bad
                ∙ ap (λ b. (unsealed q, b)) worse))
        ]
      ]
    ]

    -- `decrypt` ends in one of seven ways, each with what leads to it: too short, replayed,
    -- truncated, no room, no current key, forged under every key that there is, or opened by the
    -- current or the previous key. Only the last changes the session, only the last two write `out`,
    -- and the forged payload is zeroed.
    pub decrypt-Decrypts : Decrypts s sid wire out (decrypt a s sid wire out)
    unfolding decrypt
    decrypt-Decrypts = elim (Bool-cases (ltb (length wire) wire_overhead)) [
      | inl h ↦ short (ground arith) (rw h refl)
      | inr h1 ↦ elim (Bool-cases (would_reject s.rx.replay_window (wire_counter wire))) [
        | inl h ↦ replay (ground arith) h (rw (h1, h) refl)
        | inr h2 ↦ elim (Bool-cases (ltb (length wire) (wire_overhead + wire_len wire))) [
          | inl h ↦ truncated (ground arith) h2 (ground arith) (rw (h1, h2, h) refl)
          | inr h3 ↦ elim (Bool-cases (ltb (length out) (wire_len wire))) [
            | inl h ↦ no_room h2 (ground arith) (ground arith) (rw (h1, h2, h3, h) refl)
            | inr h4 ↦ past_checks h1 h2 h3 h4 (record {
              header = ground arith;
              not_replayed = h2;
              payload = ground arith;
              room = ground arith;
            })
          ]
        ]
      ]
    ]
      where
        past_checks :
            ltb (length wire) wire_overhead ≡ false
            → would_reject s.rx.replay_window (wire_counter wire) ≡ false
            → ltb (length wire) (wire_overhead + wire_len wire) ≡ false
            → ltb (length out) (wire_len wire) ≡ false
            → Passes s wire out
            → Decrypts s sid wire out (decrypt a s sid wire out)
        past_checks h1 h2 h3 h4 p = elim (Option-cases s.rx.current_peer) [
          | inl e ↦ no_key p e (simp (h1, h2, h3, h4, e))
          | inr (c, e) ↦
              subst (Decrypts s sid wire out) (sym (simp (h1, h2, h3, h4, e))) (after_checks c p e)
        ]
