-- ===== src/Bench/Encrypts.antt =====
-- lightway-expresslane-bench/src/arms.rs: the arms that encrypt.
use lightway_cffi.Base.{
  some, Option, ℕ, suc, ◌+◌, ◌*◌, ◌^◌, ◌≤◌, ◌<◌, ◌≡◌, refl, sym, ap, ◌∙◌, List, arith, length,
  slice, length-write_at,
}
use lightway_cffi.Base.Slices.{length-slice}
use lightway_cffi.Cipher.{AeadLaws, SealsPackets}
use lightway_cffi.Session.{wire_overhead}
use lightway_cffi.Bench.Pool.{Src, Sched, iv_for, aad_v2}
use lightway_cffi.Bench.Arms.{
  Providers, Ctx, Pass, start, fold, fold_tag, slot_of, fold_of, seal_payload,
}
use lightway_cffi.Bench.Bounds.{Fits}
use lightway_cffi.Bench.Totals.{
  arm_rc_aesgcm_enc_total, arm_ring_aesgcm_enc_total, arm_session_enc_total,
}
use lightway_cffi.Bench.Arms.{arm_rc_aesgcm_enc, arm_ring_aesgcm_enc, arm_session_enc}
use lightway_cffi.Bench.Passes.{
  rc_enc_pass, ring_enc_pass, session_enc_pass, sealed_body, rc_enc_body, ring_enc_body,
  session_enc_body,
}
use lightway_cffi.Bench.Sent.{Sends, length-IsPacket, encrypt-IsPacket}
use lightway_cffi.Bench.Filled.{payload_at}
use lightway_cffi.Bench.Built.{IsPool}
use lightway_cffi.Bench.Visits.{each_all}
use lightway_cffi.Bench.Agree.{SameCipher}
use lightway_cffi.Bench.Recovers.{length-payload_at}
use lightway_cffi.Bench.Folds.{fold_packet, sealed_sum, Sums, Folded, from-Sums, each-Folded}

module _ (p : Providers) (laws : AeadLaws p.ring) (can : SealsPackets p.ring) (x : Ctx p)
    (src : Src) (pool : IsPool p.ring p.cc x.ring_key x.cc_key x.sid src)
    (same : SameCipher p.ring p.rc x.ring_key x.rc_key) (few : src.slots ≤ 2 ^ 32) (dst : List ℕ)
    (big : src.slots * src.stride ≤ length dst) (es : length x.sid ≡ 8) (sch : Sched)
    (visits : (i : ℕ) → i < sch.n → slot_of p sch i < src.slots)
    (inside : (i : ℕ) → i < sch.n → fold_of p sch i + 8 ≤ src.len) where
  abbrev Sealed : Pass p → Type 0
  Sealed = Folded p x src pool few sch visits p.ring can x.ring_key

  abbrev sum : ℕ → ℕ × ℕ
  sum i = sealed_sum p.ring x.ring_key x.sid src sch i

  abbrev payload_of : ℕ → List ℕ
  payload_of i = payload_at src.len src.stride src.plain (slot_of p sch i)

  pub rc_enc-Folded : Sealed (rc_enc_pass p x src dst sch)
  unfolding rc_enc_pass
  rc_enc-Folded =
      each-Folded p x src pool few sch visits p.ring can x.ring_key (rc_enc_body p x src sch)
        (start p x dst) alike refl refl
    where
      alike :
          (i : ℕ) (t : Pass p)
          → rc_enc_body p x src sch i t
            ≡ sealed_body p sch i
                (slot_of p sch i * src.stride)
                t
                (seal_payload p.ring x.ring_key x.sid (slot_of p sch i) (payload_of i))
      alike i t =
          unfold rc_enc_body seal_payload in
          ap (sealed_body p sch i (slot_of p sch i * src.stride) t) (
            same.same (iv_for (slot_of p sch i + 1)) (aad_v2 x.sid (slot_of p sch i + 1) 0)
              (payload_of i))

  pub ring_enc-Folded : Sealed (ring_enc_pass p x src dst sch)
  unfolding ring_enc_pass ring_enc_body
  ring_enc-Folded =
      each-Folded p x src pool few sch visits p.ring can x.ring_key (ring_enc_body p x src sch)
        (start p x dst) (λ i t. refl) refl refl

  -- The session's pass after `i` rounds.
  pub record Sent (i : ℕ) (t : Pass p) : Type 0 where
    sums : Sums p x src pool few sch visits p.ring can x.ring_key i t
    pub size : length t.dst ≡ length dst
    pub tx : Sends p.ring x.ring_key t.tx

  session_round-Sent :
      (i : ℕ) (t : Pass p) → i < sch.n → Sent i t → Sent (suc i) (session_enc_body p x src sch i t)
  unfolding session_enc_body sealed_sum seal_payload
  session_round-Sent i t h k =
      let (w, pw, e) =
        encrypt-IsPacket p.ring laws can x.ring_key x.sid es t.tx (slot_of p sch i + 1)
          (payload_of i) buf k.tx small_payload length_buf in
      rw e (record {
        sums = (
          fold_packet p.ring laws x.ring_key x.sid (slot_of p sch i + 1) (payload_of i) w t.acc
                (fold_of p sch i) pw (omega (arith, visits i h, few)) small_payload
                (omega (arith, length_payload, inside i h))
              ∙ (λ j. fold (fold (k.sums.0 j) pw.tag 0) ct (fold_of p sch i))
              ∙ ap (λ o. fold (fold_tag (sum i).0 (sum i).1 o).0 ct (fold_of p sch i))
                  (sym pw.seals),
          ap (λ n. n + 1) k.sums.1 ∙ ap (λ o. (fold_tag (sum i).0 (sum i).1 o).1) (sym pw.seals),
        );
        size =
            length-write_at t.dst base w (
              omega (
                arith,
                room,
                length_payload,
                length-IsPacket p.ring laws x.ring_key x.sid (slot_of p sch i + 1) (payload_of i) w
                    pw,
              ))
            ∙ k.size;
        tx = record { key = k.tx.key; version = k.tx.version };
      })
    where
      base : ℕ
      base = slot_of p sch i * src.stride

      buf : List ℕ
      buf = slice t.dst base (base + wire_overhead + src.len)

      ct : List ℕ
      ct =
          (p.ring.seal x.ring_key (iv_for (slot_of p sch i + 1))
            (aad_v2 x.sid (slot_of p sch i + 1) 0) (payload_of i)).0

      length_payload : length (payload_of i) ≡ src.len
      length_payload = length-payload_at p x src sch pool few visits (slot_of p sch i) (visits i h)

      small_payload : length (payload_of i) ≤ 65535
      small_payload = omega (arith, length_payload, pool.small)

      room : base + wire_overhead + src.len ≤ length t.dst
      room = grind (arith, big, k.size, pool.room, visits i h)

      length_buf : length buf ≡ wire_overhead + length (payload_of i)
      length_buf =
          length-slice t.dst base (base + wire_overhead + src.len) (omega arith) room
          ∙ omega (arith, length_payload)

  pub session_enc-Sent :
      Sends p.ring x.ring_key x.tx → Sent sch.n (session_enc_pass p x src dst sch)
  unfolding session_enc_pass sealed_sum
  session_enc-Sent s =
      each_all p (session_enc_body p x src sch) sch.n Sent session_round-Sent (start p x dst)
        (record { sums = (refl, refl); size = refl; tx = s })

  pub session_enc-Folded : Sends p.ring x.ring_key x.tx → Sealed (session_enc_pass p x src dst sch)
  session_enc-Folded s =
      from-Sums p x src pool few sch visits p.ring can x.ring_key (session_enc_pass p x src dst sch)
        (session_enc-Sent s).sums

module _ (p : Providers) (laws : AeadLaws p.ring) (can : SealsPackets p.ring) (x : Ctx p)
    (src : Src) (pool : IsPool p.ring p.cc x.ring_key x.cc_key x.sid src)
    (same : SameCipher p.ring p.rc x.ring_key x.rc_key) (few : src.slots ≤ 2 ^ 32) (dst : List ℕ)
    (big : src.slots * src.stride ≤ length dst) (es : length x.sid ≡ 8) (sch : Sched)
    (fits : Fits p src sch) where
  -- An arm ends without a panic, has sealed every payload, and counts a success per round.
  abbrev SealedAll : Option (Pass p) → Type 0
  SealedAll o =
      (t : Pass p) × (o ≡ some t)
      × (t.acc ≡ (sealed_sum p.ring x.ring_key x.sid src sch sch.n).0)
      × (t.done ≡ sch.n)

  seals :
      {o : Option (Pass p)} {t : Pass p}
      → o ≡ some t
      → (t.acc ≡ (sealed_sum p.ring x.ring_key x.sid src sch sch.n).0) × (t.done ≡ sch.n)
      → SealedAll o
  seals {o} {t} e got = (t, e, got.0, got.1)

  -- `aes-gcm`, `ring` and the session produce the same tags and ciphertexts in a pass, if the two
  -- crates are the same cipher: over a pool, a buffer of its size and a schedule within it, and
  -- with a sender of the same key, no index is out of bounds, each arm seals the payload of every
  -- round, and the accumulators are the same.
  pub encrypting_arms :
      Sends p.ring x.ring_key x.tx
      → SealedAll (arm_rc_aesgcm_enc p x src dst sch)
        × SealedAll (arm_ring_aesgcm_enc p x src dst sch)
        × SealedAll (arm_session_enc p x src dst sch)
  encrypting_arms s = (
    seals (arm_rc_aesgcm_enc_total p x src pool few dst big sch fits)
        (rc_enc-Folded p laws can x src pool same few dst big es sch fits.visits fits.inside),
    seals (arm_ring_aesgcm_enc_total p x src pool few dst big sch fits)
        (ring_enc-Folded p laws can x src pool same few dst big es sch fits.visits fits.inside),
    seals (arm_session_enc_total p x src pool few dst big sch fits) (
        session_enc-Folded p laws can x src pool same few dst big es sch fits.visits fits.inside s),
  )
