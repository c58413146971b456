-- ===== src/Bench/Built.antt =====
-- lightway-expresslane-bench/src/pool.rs: the building of a pool.
use lightway_cffi.Base.{
  ℕ, ◌+◌, ◌*◌, ◌≤◌, ◌<◌, ◌≡◌, refl, sym, ap, ◌∙◌, subst, true, false, some, List, arith, length,
  replicate, length-replicate, ok,
}
use lightway_cffi.Data.{version2, is_invalid}
use lightway_cffi.Cipher.{Aead, AeadLaws, SealsPackets}
use lightway_cffi.Cipher
use lightway_cffi.Session.{
  State, wire_overhead, new, load_key, update_next_self_key, promote_self_key,
}
use lightway_cffi.Bench.Rng
use lightway_cffi.Bench.Pool.{Src, src_of, sender, build, stride_for, slots_for}
use lightway_cffi.Bench.Layout.{stride_for-IsStride}
use lightway_cffi.Bench.Fill.{fill_slots_total}
use lightway_cffi.Bench.Sent.{Sends}
use lightway_cffi.Bench.Filled.{Holds, seal_slots-Filled}

module _ (a : Aead) (key : List ℕ) (k : a.Key) (usable : is_invalid key ≡ false)
    (loads : a.new_key key ≡ some k) where
  pub load_key_ok : load_key a key ≡ ok k
  unfolding load_key Cipher.new
  load_key_ok = simp (load_key, usable, Cipher.new, loads)

  pub sender-Sends : (tx : State a) × (sender a key ≡ some tx) × Sends a k tx
  unfolding sender update_next_self_key promote_self_key new
  sender-Sends = (
    record (new version2) { current_self = some k; self_key_installed = true },
    simp (sender, update_next_self_key, load_key_ok),
    record { key = refl; version = refl },
  )

-- A pool as the arms rely on it: slot `j` holds the packet of each cipher of its payload, under
-- counter `j + 1`.
pub record IsPool (ring cc : Aead) (k : ring.Key) (c : cc.Key) (sid : List ℕ) (src : Src)
    : Type 0 where
  pub id : src.session_id ≡ sid
  pub small : src.len ≤ 65535
  pub room : wire_overhead + src.len ≤ src.stride
  pub size : length src.plain ≡ src.slots * src.stride
  pub holds : (j : ℕ) → j < src.slots → Holds ring k sid src.len src.stride src.plain src.wire j
  pub holds_cc : (j : ℕ) → j < src.slots → Holds cc c sid src.len src.stride src.plain src.wire_cc j

module _ (ring cc : Aead) (laws : AeadLaws ring) (cc_laws : AeadLaws cc) (can : SealsPackets ring)
    (cc_can : SealsPackets cc) where
  -- The building of a pool never fails for a usable key, a session id of 8 bytes and payloads that
  -- a packet can hold: every slot gets the packet of the session and that of ChaCha, of its
  -- payload and under its counter.
  pub build-IsPool :
      (len target_bytes max_slots : ℕ) (key sid : List ℕ) (seed : ℕ) (k : ring.Key) (c : cc.Key)
      → len ≤ 65535
      → length sid ≡ 8
      → is_invalid key ≡ false
      → ring.new_key key ≡ some k
      → cc.new_key key ≡ some c
      → (src : Src) × (build ring cc len target_bytes max_slots key sid seed ≡ some src)
        × (src.slots ≡ slots_for target_bytes max_slots (stride_for len))
        × (src.len ≡ len)
        × IsPool ring cc k c sid src
  unfolding build
  build-IsPool len target_bytes max_slots key sid seed k c small es usable loads loads_cc =
      let (plain, ep, lp) =
        fill_slots_total slots 0 len stride (Rng.new seed) zeros (omega (arith, room)) fits in
      let (tx, et, s) = sender-Sends ring key k usable loads in
      let (wire, wire_cc, ew, f, fcc) =
        seal_slots-Filled ring cc laws cc_laws can cc_can k c sid es len stride plain small room
          slots 0 tx zeros zeros s (subst (λ n. (0 + slots) * stride ≤ n) (sym lp) fits) fits
          fits in
      (
        src_of len stride slots sid plain (wire, wire_cc),
        rw (ep, et, loads_cc, ew) refl,
        refl,
        refl,
        record {
          id = refl;
          small = small;
          room = room;
          size = lp ∙ length-replicate {A = ℕ} (slots * stride) 0;
          holds = λ j h. f.sealed j (omega arith) (omega arith);
          holds_cc = λ j h. fcc.sealed j (omega arith) (omega arith);
        },
      )
    where
      stride : ℕ
      stride = stride_for len

      slots : ℕ
      slots = slots_for target_bytes max_slots stride

      zeros : List ℕ
      zeros = replicate (slots * stride) 0

      room : wire_overhead + len ≤ stride
      room = omega (arith, (stride_for-IsStride len).room)

      fits : (0 + slots) * stride ≤ length zeros
      fits = omega (
        arith,
        length-replicate {A = ℕ} (slots * stride) 0,
        ap (λ t. t * stride) {x = 0 + slots} {y = slots} (omega arith),
      )
