-- ===== src/Session/Lifetime.antt =====
-- A session from its creation on, under any sequence of operations.
use lightway_cffi.Base.{
  ℕ, ◌+◌, ◌%◌, ◌≤◌, ◌≡◌, refl, ap, subst, ◌∙◌, Bool, true, false, not, List, [], ◌∷◌, arith,
  if◌then◌else◌, length, u64_mod, ltb, ok, err,
}
use lightway_cffi.Data.{ExpresslaneVersion, replayed}
use lightway_cffi.Cipher.{Aead, AeadLaws}
use lightway_cffi.Replay.{would_reject}
use lightway_cffi.Replay.History.{contains}
use lightway_cffi.Replay.Refine.{Tracks, default-Tracks, commit-Tracks}
use lightway_cffi.Replay.Runs.{would_reject-commit, record_accept_again}
use lightway_cffi.Session.{State, new, packets_received, decrypt, wire_overhead}
use lightway_cffi.Session.Decrypt.{wire_counter}
use lightway_cffi.Session.Life.{Sound, run-Sound, step-Sound}
use lightway_cffi.Session.Steps.{Op, receive, is_ok, step, run, got, counter_of, seen, count_got}

module _ (a : Aead) (laws : AeadLaws a) where
  new-Sound : (v : ExpresslaneVersion) → Sound a laws (new v) []
  unfolding new
  new-Sound v = record {
    self_mirror = refl;
    peer_mirror = refl;
    prev_behind = λ h. refl;
    tracks = default-Tracks;
  }

  life :
      (v : ExpresslaneVersion) (ops : List Op)
      → Sound a laws (run a (new v) ops) (seen a (new v) [] ops)
  life v ops = run-Sound a laws (new v) [] ops (new-Sound v)

  contains-seen :
      (s : State a) (history : List ℕ) (ops : List Op) (c : ℕ)
      → contains history c ≡ true
      → contains (seen a s history ops) c ≡ true
  unfolding seen
  contains-seen s history [] c h = h
  contains-seen s history (op ∷ ops) c h = contains-seen (step a s op) _ ops c (ground arith)

  -- A datagram whose counter was recorded is refused.
  replay_refused :
      (s : State a) (history sid wire out : List ℕ)
      → Tracks s.rx.replay_window history
      → contains history (wire_counter wire) ≡ true
      → wire_overhead ≤ length wire
      → decrypt a s sid wire out ≡ (s, out, err replayed)
  unfolding decrypt
  replay_refused s history sid wire out t h whole = simp (decrypt, long, rejected)
    where
      long : ltb (length wire) wire_overhead ≡ false
      long = ground arith

      rejected : would_reject s.rx.replay_window (wire_counter wire) ≡ true
      rejected =
          would_reject-commit s.rx.replay_window (wire_counter wire)
          ∙ ap not (
              (commit-Tracks _ history (wire_counter wire) t).1
              ∙ record_accept_again history (wire_counter wire) h)

  -- A session never delivers two packets with one counter: once a packet has been accepted, at
  -- any time in the session's life, every later packet with its counter, whatever else it holds
  -- and whatever keys were installed in between, is refused as a replay.
  pub decrypt_once :
      (v : ExpresslaneVersion) (ops later : List Op) (sid wire out sid' wire' out' : List ℕ)
      (n : ℕ × Bool)
      → (decrypt a (run a (new v) ops) sid wire out).2 ≡ ok n
      → wire_counter wire' ≡ wire_counter wire
      → wire_overhead ≤ length wire'
      → decrypt a (run a (decrypt a (run a (new v) ops) sid wire out).0 later) sid' wire' out'
        ≡ (run a (decrypt a (run a (new v) ops) sid wire out).0 later, out', err replayed)
  unfolding got step
  decrypt_once v ops later sid wire out sid' wire' out' n h same whole =
      replay_refused (run a s later) (seen a s (wire_counter wire ∷ seen a (new v) [] ops) later)
        sid' wire' out' (run-Sound a laws s _ later first).tracks
        (contains-seen s _ later (wire_counter wire') (ground (arith, same))) whole
    where
      s : State a
      s = (decrypt a (run a (new v) ops) sid wire out).0

      first : Sound a laws s (wire_counter wire ∷ seen a (new v) [] ops)
      first =
          subst
            (λ b.
              Sound a laws s
                (if b then wire_counter wire ∷ seen a (new v) [] ops else seen a (new v) [] ops))
            (ap is_ok h)
            (step-Sound a laws (run a (new v) ops) (receive sid wire out) _ (life v ops))

  length-seen :
      (s : State a) (history : List ℕ) (ops : List Op)
      → length (seen a s history ops) ≡ length history + count_got a s ops
  unfolding seen count_got
  length-seen s history [] = omega arith
  length-seen s history (op ∷ ops) = ground (
    arith,
    length-seen (step a s op) history ops,
    length-seen (step a s op) (counter_of a op ∷ history) ops,
  )

  -- `packets_received` counts the packets that were accepted, modulo 2 ^ 64.
  pub packets_received-run :
      (v : ExpresslaneVersion) (ops : List Op)
      → packets_received (run a (new v) ops) ≡ count_got a (new v) ops % u64_mod
  unfolding packets_received
  packets_received-run v ops =
      (life v ops).tracks.counted ∙ ap (λ n. n % u64_mod) (length-seen (new v) [] ops ∙ omega arith)
