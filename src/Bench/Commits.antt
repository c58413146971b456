-- ===== src/Bench/Commits.antt =====
-- lightway-expresslane-bench/src/arms.rs: the arm that decrypts through the session.
use mathlib.Core.List.{append-nil}
use lightway_cffi.Base.{
  ℕ, zero, suc, ◌+◌, ◌*◌, ◌^◌, ◌≤◌, ◌<◌, ◌≡◌, refl, sym, ap, ap₂, ◌∙◌, subst, true, false, not,
  some, List, [], ◌∷◌, ◌++◌, arith, length, write_at, ok, length-write_at,
}
use lightway_cffi.Base.Slices.{length-slice, drop_all}
use lightway_cffi.Data.{version2}
use lightway_cffi.Cipher.{Aead, AeadLaws}
use lightway_cffi.Replay.{would_reject, commit}
use lightway_cffi.Replay.History.{highest, accepts, record_accept}
use lightway_cffi.Replay.Refine.{Tracks, commit-Tracks}
use lightway_cffi.Replay.Runs.{would_reject-commit}
use lightway_cffi.Session.{State, aad_bytes, decrypt, packets_received}
use lightway_cffi.Session.Decrypt.{committed, current}
use lightway_cffi.Session.Wire.{Reads}
use lightway_cffi.Session.RoundTrip.{delivered}
use lightway_cffi.Bench.Pool.{Src, Sched, iv_for, aad_v2}
use lightway_cffi.Bench.Arms.{Providers, Ctx, Pass, start, fold, slot_of, fold_of}
use lightway_cffi.Bench.Bounds.{Fits}
use lightway_cffi.Bench.Totals.{arm_session_dec_total}
use lightway_cffi.Bench.Arms.{arm_session_dec}
use lightway_cffi.Bench.Passes.{session_dec_pass, session_dec_body}
use lightway_cffi.Bench.Sealed.{IsPacket-Reads, aad_v2-aad_bytes}
use lightway_cffi.Bench.Filled.{Holds, payload_at, packet_at}
use lightway_cffi.Bench.Built.{IsPool}
use lightway_cffi.Bench.Visits.{each_all}
use lightway_cffi.Bench.Recovers.{checksum, length-payload_at}

-- The counters of a pass in order, newest first.
abbrev pub counters : ℕ → List ℕ
counters zero = []
counters (suc i) = suc i ∷ counters i

highest-counters : (i : ℕ) → highest (counters i) ≡ i
highest-counters zero = refl
highest-counters (suc i) = omega (arith, highest-counters i)

length-counters : (i : ℕ) → length (counters i) ≡ i
length-counters zero = refl
length-counters (suc i) = omega (arith, length-counters i)

accepts-counters : (i : ℕ) → accepts (counters i) (suc i) ≡ true
unfolding accepts
accepts-counters zero = refl
accepts-counters (suc i) = ground (arith, highest-counters i)

record_accept-counters : (i : ℕ) → record_accept (counters i) (suc i) ≡ (counters (suc i), true)
unfolding record_accept
record_accept-counters i = rw (accepts-counters i) refl

-- A receiver of the key that has committed the first `i` counters.
pub record Receives (a : Aead) (k : a.Key) (i : ℕ) (s : State a) : Type 0 where
  pub peer : s.rx.current_peer ≡ some k
  pub version : s.version ≡ version2
  pub tracks : Tracks s.rx.replay_window (counters i)

module _ (a : Aead) (laws : AeadLaws a) (k : a.Key) (sid : List ℕ) (es : length sid ≡ 8)
    (len stride : ℕ) (plain wire : List ℕ) (small : len ≤ 65535) where
  -- The packet of the next slot is accepted, and gives the payload.
  pub decrypt-Receives :
      (i : ℕ) (s : State a) (out : List ℕ)
      → Receives a k i s
      → suc i < 2 ^ 64
      → length (payload_at len stride plain i) ≡ len
      → length out ≡ len
      → Holds a k sid len stride plain wire i
      → (s' : State a) × Receives a k (suc i) s'
        × (decrypt a s sid (packet_at len stride wire i) out
            ≡ (s', payload_at len stride plain i, ok (len, false)))
  decrypt-Receives i s out v hi el eo h = (committed a s (i + 1), after, got)
    where
      payload : List ℕ
      payload = payload_at len stride plain i

      ct : List ℕ
      ct = (a.seal k (iv_for (i + 1)) (aad_v2 sid (i + 1) 0) payload).0

      r : Reads (packet_at len stride wire i) (i + 1) (iv_for (i + 1)) h.tag 0 ct
      r =
          IsPacket-Reads a laws k sid (i + 1) payload (packet_at len stride wire i) h (omega arith)
            (omega (arith, el))

      length_ct : length ct ≡ len
      length_ct = laws.length-seal k _ _ _ ∙ el

      took : record_accept (counters i) (i + 1) ≡ (counters (suc i), true)
      took =
          ap (record_accept (counters i)) {x = i + 1} {y = suc i} (omega arith)
          ∙ record_accept-counters i

      fresh : would_reject s.rx.replay_window (i + 1) ≡ false
      fresh =
          would_reject-commit s.rx.replay_window (i + 1)
          ∙ ap not (
              (commit-Tracks s.rx.replay_window (counters i) (i + 1) v.tracks).1
              ∙ ap (λ t. t.1) took)

      after : Receives a k (suc i) (committed a s (i + 1))
      after = record {
        peer = v.peer;
        version = v.version;
        tracks =
            subst (Tracks (commit s.rx.replay_window (i + 1)).0) (ap (λ t. t.0) took)
              (commit-Tracks s.rx.replay_window (counters i) (i + 1) v.tracks).0;
      }

      got :
          decrypt a s sid (packet_at len stride wire i) out
          ≡ (committed a s (i + 1), payload, ok (len, false))
      got =
          delivered a laws s sid (packet_at len stride wire i) (i + 1) (iv_for (i + 1)) h.tag 0 ct r
            k payload out fresh (omega (arith, length_ct)) (current v.peer)
            (ap (λ t. a.unseal k (iv_for (i + 1)) t ct h.tag)
                (ap (λ w. aad_bytes w sid (i + 1) 0) v.version ∙ aad_v2-aad_bytes sid (i + 1) 0 es)
              ∙ laws.unseal-seal k _ _ payload h.seals)
          ∙ ap₂ (λ rest n. (committed a s (i + 1), payload ++ rest, ok (n, false)))
              (drop_all (length ct) out (omega (arith, length_ct))) length_ct
          ∙ ap (λ t. (committed a s (i + 1), t, ok (len, false))) (append-nil payload)

module _ (p : Providers) (laws : AeadLaws p.ring) (x : Ctx p) (src : Src)
    (pool : IsPool p.ring p.cc x.ring_key x.cc_key x.sid src) (few : src.slots ≤ 2 ^ 32)
    (es : length x.sid ≡ 8) (dst : List ℕ) (big : src.slots * src.stride ≤ length dst) (sch : Sched)
    (all : sch.n ≡ src.slots) (in_order : (i : ℕ) → i < sch.n → slot_of p sch i ≡ i) where
  -- The pass after `i` rounds.
  pub record Passed (i : ℕ) (t : Pass p) : Type 0 where
    pub acc : t.acc ≡ checksum src sch i
    pub done : t.done ≡ i
    pub size : length t.dst ≡ length dst
    pub rx : Receives p.ring x.ring_key i t.rx
    pub tx : t.tx ≡ x.tx

  round-Passed :
      (i : ℕ) (t : Pass p)
      → i < sch.n
      → Passed i t
      → Passed (suc i) (session_dec_body p x src sch i t)
  unfolding session_dec_body checksum
  round-Passed i t h k =
      let (s', v, e) =
        decrypt-Receives p.ring laws x.ring_key x.sid es src.len src.stride src.plain src.wire
          pool.small i t.rx out k.rx (omega (arith, few)) length_payload length_out
          (pool.holds i below) in
      rw (in_order i h, e)
        (record {
          acc =
              ap (λ a. fold a payload (fold_of p sch i)) k.acc
              ∙ ap
                  (λ j.
                    fold (checksum src sch i) (payload_at src.len src.stride src.plain j)
                      (fold_of p sch i))
                  (sym (in_order i h));
          done = omega (arith, k.done);
          size = written;
          rx = v;
          tx = k.tx;
        })
    where
      payload : List ℕ
      payload = payload_at src.len src.stride src.plain i

      out : List ℕ
      out = payload_at src.len src.stride t.dst i

      below : i < src.slots
      below = omega (arith, all)

      length_payload : length payload ≡ src.len
      length_payload =
          length-payload_at p x src sch pool few (λ j h'. omega (arith, in_order j h', all)) i below

      inside : i * src.stride + src.len ≤ length t.dst
      inside = grind (arith, big, k.size, pool.room, below)

      length_out : length out ≡ src.len
      length_out =
          length-slice t.dst (i * src.stride) (i * src.stride + src.len) (omega arith) inside
          ∙ omega arith

      written : length (write_at t.dst (i * src.stride) payload) ≡ length dst
      written =
          length-write_at t.dst (i * src.stride) payload (omega (arith, inside, length_payload))
          ∙ k.size

  pub session_dec-Passed :
      Receives p.ring x.ring_key 0 x.rx → Passed sch.n (session_dec_pass p x src dst sch)
  unfolding session_dec_pass checksum
  session_dec-Passed v =
      each_all p (session_dec_body p x src sch) sch.n Passed round-Passed (start p x dst)
        (record { acc = refl; done = refl; size = refl; rx = v; tx = refl })

  -- What the pass ends with.
  pub session_dec_pass-Complete :
      Receives p.ring x.ring_key 0 x.rx
      → let t = session_dec_pass p x src dst sch in
        (t.acc ≡ checksum src sch sch.n) × (t.done ≡ sch.n) × (packets_received t.rx ≡ sch.n)
  unfolding packets_received
  session_dec_pass-Complete v =
      let t = session_dec-Passed v in
      (t.acc, t.done, t.rx.tracks.counted ∙ omega (arith, length-counters sch.n, all, few))

  -- One pass over all slots of a pool in their order, by a schedule within the pool, with a receiver
  -- that has seen nothing and a buffer of the pool's size: no index is out of bounds, the session
  -- accepts every packet, recovers every payload, and its window has counted as many packets as the
  -- pass has rounds, so that the runner's assertion holds.
  pub arm_session_dec-Complete :
      Fits p src sch
      → Receives p.ring x.ring_key 0 x.rx
      → (t : Pass p) × (arm_session_dec p x src dst sch ≡ some t)
        × (t.acc ≡ checksum src sch sch.n)
        × (t.done ≡ sch.n)
        × (packets_received t.rx ≡ sch.n)
  arm_session_dec-Complete fits v =
      let got = session_dec_pass-Complete v in
      (_, arm_session_dec_total p x src pool few dst big sch fits laws, got.0, got.1, got.2)
