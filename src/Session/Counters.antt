-- ===== src/Session/Counters.antt =====
-- The send side's counters over a session's life.
use lightway_cffi.Base.{
  ◌+◌, ◌%◌, ◌<◌, ◌≡◌, ◌≢◌, refl, sym, ap, subst, ◌∙◌, List, [], ◌∷◌, arith, if◌then◌else◌, u64_mod,
  add64, inl, inr,
}
use lightway_cffi.Data.{ExpresslaneVersion}
use lightway_cffi.Cipher.{Aead, AeadLaws}
use lightway_cffi.Session.{State, new, reserve_counter, packets_sent}
use lightway_cffi.Session.Decrypt.{decrypt-Decrypts}
use lightway_cffi.Session.Keys.{promote_cases, update_peer_cases, update_next_cases, encrypt_cases}
use lightway_cffi.Session.Life.{receive_cases}
use lightway_cffi.Session.Steps.{
  Op, reserve, promote, stage, install, send, receive, step, run, wrote, count_wrote, count_reserve,
  is_reserve,
}

module _ (a : Aead) (laws : AeadLaws a) where
  -- What one operation does to the send side's counters.
  abbrev Effects : State a → Op → State a → Type 0
  Effects s op t =
      (t.version ≡ s.version)
      × (t.packets_sent ≡ (if wrote a s op then add64 s.packets_sent 1 else s.packets_sent))
      × (t.next_counter ≡ (if is_reserve op then add64 s.next_counter 1 else s.next_counter))

  step-Effects : (s : State a) (op : Op) → Effects s op (step a s op)
  unfolding step wrote reserve_counter
  step-Effects s reserve = (refl, refl, refl)
  step-Effects s promote = elim (promote_cases a s) [
    | inl (_, e) ↦ subst (Effects s promote) (sym e) (refl, refl, refl)
    | inr (_, _, e) ↦ subst (Effects s promote) (sym e) (refl, refl, refl)
  ]
  step-Effects s (stage key) = elim (update_next_cases a s key) [
    | inl (_, _, e) ↦ subst (Effects s (stage key)) (sym (ap (λ t. t.0) e)) (refl, refl, refl)
    | inr (_, _, e) ↦ subst (Effects s (stage key)) (sym (ap (λ t. t.0) e)) (refl, refl, refl)
  ]
  step-Effects s (install key) = elim (update_peer_cases a s key) [
    | inl (_, _, e) ↦ subst (Effects s (install key)) (sym (ap (λ t. t.0) e)) (refl, refl, refl)
    | inr (_, _, e) ↦ subst (Effects s (install key)) (sym (ap (λ t. t.0) e)) (refl, refl, refl)
  ]
  step-Effects s (send c sid plain iv enc out) = elim (encrypt_cases a s c sid plain iv enc out) [
    | inl (_, e, w) ↦
        subst (Effects s (send c sid plain iv enc out)) (sym e) (refl, rw w refl, refl)
    | inr (_, e, w) ↦
        subst (Effects s (send c sid plain iv enc out)) (sym e) (refl, rw w refl, refl)
  ]
  step-Effects s (receive sid wire out) =
      elim (receive_cases a laws s sid wire out (decrypt-Decrypts a laws s sid wire out)) [
        | inl (e, _) ↦ subst (Effects s (receive sid wire out)) (sym e) (refl, refl, refl)
        | inr (e, _, _) ↦ subst (Effects s (receive sid wire out)) (sym e) (refl, refl, refl)
      ]

  sent_run :
      (s : State a) (ops : List Op)
      → s.packets_sent < u64_mod
      → (run a s ops).packets_sent ≡ (s.packets_sent + count_wrote a s ops) % u64_mod
  unfolding run count_wrote
  sent_run s [] h = ground arith
  sent_run s (op ∷ ops) h = ground (arith, sent_run (step a s op) ops, (step-Effects s op).1)

  reserve_run :
      (s : State a) (ops : List Op)
      → s.next_counter < u64_mod
      → (run a s ops).next_counter ≡ (s.next_counter + count_reserve ops) % u64_mod
  unfolding run
  reserve_run s [] h = ground arith
  reserve_run s (op ∷ ops) h = ground (arith, reserve_run (step a s op) ops, (step-Effects s op).2)

  -- `packets_sent` counts the packets that `encrypt` wrote, modulo 2 ^ 64.
  pub packets_sent-run :
      (v : ExpresslaneVersion) (ops : List Op)
      → packets_sent (run a (new v) ops) ≡ count_wrote a (new v) ops % u64_mod
  unfolding packets_sent new
  packets_sent-run v ops = sent_run (new v) ops (omega arith) ∙ omega arith

  -- The n-th reservation of a session's life gives n, modulo 2 ^ 64: the first packet is 1.
  pub reserve_counter-run :
      (v : ExpresslaneVersion) (ops : List Op)
      → (reserve_counter (run a (new v) ops)).1 ≡ (count_reserve ops + 1) % u64_mod
  unfolding reserve_counter new
  reserve_counter-run v ops = omega (arith, reserve_run (new v) ops (omega arith))

  -- Two reservations with fewer than 2 ^ 64 - 1 others between them never give the same counter.
  pub reserve_counter_distinct :
      (v : ExpresslaneVersion) (ops later : List Op)
      → count_reserve later + 1 < u64_mod
      → (reserve_counter (run a (new v) ops)).1
        ≢ (reserve_counter (run a (reserve_counter (run a (new v) ops)).0 later)).1
  unfolding reserve_counter
  reserve_counter_distinct v ops later h e =
      omega (arith, reserve_run (reserve_counter (run a (new v) ops)).0 later (omega arith))
