-- ===== src/Session/Life.antt =====
-- What holds of a session over its whole life.
use lightway_cffi.Base.{
  is_some, ℕ, ◌≡◌, refl, ap, Bool, true, false, none, List, [], ◌∷◌, arith, if◌then◌else◌, inl, inr,
  ◌⊎◌, Result,
}
use lightway_cffi.Data.{ExpresslaneError}
use lightway_cffi.Cipher.{Aead, AeadLaws}
use lightway_cffi.Replay.{would_reject, commit}
use lightway_cffi.Replay.History.{record_accept}
use lightway_cffi.Replay.Refine.{Tracks, commit-Tracks}
use lightway_cffi.Replay.Runs.{would_reject-commit}
use lightway_cffi.Session.{
  State, reserve_counter, promote_self_key, update_next_self_key, update_peer_key, encrypt, decrypt,
}
use lightway_cffi.Session.Decrypt.{
  wire_counter, committed, Decrypts, short, replay, truncated, no_room, no_key, forged, opened,
  decrypt-Decrypts,
}
use lightway_cffi.Session.Keys.{promote_cases, update_peer_cases, update_next_cases, encrypt_cases}
use lightway_cffi.Session.Steps.{
  Op, reserve, promote, stage, install, send, receive, is_ok, step, run, got, counter_of, seen,
}

module _ (a : Aead) (laws : AeadLaws a) where
  -- The flags mirror the key slots, and the window tracks the accepted counters.
  pub record Sound (s : State a) (history : List ℕ) : Type 0 where
    pub self_mirror : s.self_key_installed ≡ is_some s.current_self
    pub peer_mirror : s.peer_key_installed ≡ is_some s.rx.current_peer
    pub prev_behind : s.rx.current_peer ≡ none → s.rx.prev_peer ≡ none
    pub tracks : Tracks s.rx.replay_window history

  -- A packet is refused and changes nothing, or its counter is fresh and is committed.
  pub receive_cases :
      (s : State a) (sid wire out : List ℕ)
      {r : State a × List ℕ × Result (ℕ × Bool) ExpresslaneError}
      → Decrypts a s sid wire out r
      → ((r.0 ≡ s) × (is_ok r.2 ≡ false))
        ⊎ ((r.0 ≡ committed a s (wire_counter wire))
            × (is_ok r.2 ≡ true)
            × (would_reject s.rx.replay_window (wire_counter wire) ≡ false))
  receive_cases s sid wire out (short _ k) = inl (ap (λ t. t.0) k, ap (λ t. is_ok t.2) k)
  receive_cases s sid wire out (replay _ _ k) = inl (ap (λ t. t.0) k, ap (λ t. is_ok t.2) k)
  receive_cases s sid wire out (truncated _ _ _ k) = inl (ap (λ t. t.0) k, ap (λ t. is_ok t.2) k)
  receive_cases s sid wire out (no_room _ _ _ k) = inl (ap (λ t. t.0) k, ap (λ t. is_ok t.2) k)
  receive_cases s sid wire out (no_key _ _ k) = inl (ap (λ t. t.0) k, ap (λ t. is_ok t.2) k)
  receive_cases s sid wire out (forged _ _ _ _ k) = inl (ap (λ t. t.0) k, ap (λ t. is_ok t.2) k)
  receive_cases s sid wire out (opened p q _ _ k) =
      inr (ap (λ t. t.0) k, ap (λ t. is_ok t.2) k, p.not_replayed)

  recorded :
      (s : State a) (history : List ℕ) (c : ℕ)
      → Tracks s.rx.replay_window history
      → would_reject s.rx.replay_window c ≡ false
      → Tracks (commit s.rx.replay_window c).0 (c ∷ history)
  unfolding record_accept
  recorded s history c t h = ground (
    arith,
    (commit-Tracks s.rx.replay_window history c t).0,
    (commit-Tracks s.rx.replay_window history c t).1,
    would_reject-commit s.rx.replay_window c,
  )

  committed-Sound :
      (s : State a) (history : List ℕ) (c : ℕ)
      → Sound s history
      → would_reject s.rx.replay_window c ≡ false
      → Sound (committed a s c) (c ∷ history)
  committed-Sound s history c i h = record {
    self_mirror = i.self_mirror;
    peer_mirror = i.peer_mirror;
    prev_behind = i.prev_behind;
    tracks = recorded s history c i.tracks h;
  }

  step_reserve-Sound :
      (s : State a) (history : List ℕ) → Sound s history → Sound (reserve_counter s).0 history
  unfolding reserve_counter
  step_reserve-Sound s history i = record {
    self_mirror = i.self_mirror;
    peer_mirror = i.peer_mirror;
    prev_behind = i.prev_behind;
    tracks = i.tracks;
  }

  step_promote-Sound :
      (s : State a) (history : List ℕ) → Sound s history → Sound (promote_self_key s) history
  step_promote-Sound s history i = elim (promote_cases a s) [
    | inl (_, e) ↦ rw e i
    | inr (k, _, e) ↦ rw e (record {
      self_mirror = refl;
      peer_mirror = i.peer_mirror;
      prev_behind = i.prev_behind;
      tracks = i.tracks;
    })
  ]

  step_stage-Sound :
      (s : State a) (key history : List ℕ)
      → Sound s history
      → Sound (update_next_self_key a s key).0 history
  step_stage-Sound s key history i = elim (update_next_cases a s key) [
    | inl (_, _, e) ↦ rw e i
    | inr (k, _, e) ↦ rw e (record {
      self_mirror = i.self_mirror;
      peer_mirror = i.peer_mirror;
      prev_behind = i.prev_behind;
      tracks = i.tracks;
    })
  ]

  step_install-Sound :
      (s : State a) (key history : List ℕ)
      → Sound s history
      → Sound (update_peer_key a s key).0 history
  step_install-Sound s key history i = elim (update_peer_cases a s key) [
    | inl (_, _, e) ↦ rw e i
    | inr (k, _, e) ↦ rw e (record {
      self_mirror = i.self_mirror;
      peer_mirror = refl;
      prev_behind = λ h. absurd (grind arith);
      tracks = i.tracks;
    })
  ]

  step_send-Sound :
      (s : State a) (c : ℕ) (sid plain iv : List ℕ) (enc : Bool) (out history : List ℕ)
      → Sound s history
      → Sound (encrypt a s c sid plain iv enc out).0 history
  step_send-Sound s c sid plain iv enc out history i =
      elim (encrypt_cases a s c sid plain iv enc out) [
        | inl (_, e, _) ↦ rw e i
        | inr (_, e, _) ↦ rw e (record {
          self_mirror = i.self_mirror;
          peer_mirror = i.peer_mirror;
          prev_behind = i.prev_behind;
          tracks = i.tracks;
        })
      ]

  step_receive-Sound :
      (s : State a) (sid wire out history : List ℕ)
      → Sound s history
      → Sound
          (decrypt a s sid wire out).0
          (if is_ok (decrypt a s sid wire out).2 then wire_counter wire ∷ history else history)
  step_receive-Sound s sid wire out history i =
      elim (receive_cases s sid wire out (decrypt-Decrypts a laws s sid wire out)) [
        | inl (e, refused) ↦ rw (e, refused) i
        | inr (e, taken, fresh) ↦
            rw (e, taken) (committed-Sound s history (wire_counter wire) i fresh)
      ]

  pub step-Sound :
      (s : State a) (op : Op) (history : List ℕ)
      → Sound s history
      → Sound (step a s op) (if got a s op then counter_of a op ∷ history else history)
  unfolding step got
  step-Sound s reserve history i = step_reserve-Sound s history i
  step-Sound s promote history i = step_promote-Sound s history i
  step-Sound s (stage key) history i = step_stage-Sound s key history i
  step-Sound s (install key) history i = step_install-Sound s key history i
  step-Sound s (send c sid plain iv enc out) history i =
      step_send-Sound s c sid plain iv enc out history i
  step-Sound s (receive sid wire out) history i = step_receive-Sound s sid wire out history i

  pub run-Sound :
      (s : State a) (history : List ℕ) (ops : List Op)
      → Sound s history
      → Sound (run a s ops) (seen a s history ops)
  unfolding run seen
  run-Sound s history [] i = i
  run-Sound s history (op ∷ ops) i = run-Sound (step a s op) _ ops (step-Sound s op history i)
