-- ===== src/Bench/Pool.antt =====
-- lightway-expresslane-bench/src/pool.rs: the packet pool that the benchmark's arms work on. A `usize` has room for every size that the tool can
-- allocate, so its arithmetic is that of the numbers; an `expect` that fails and a
-- slice out of bounds are `none`. The hash of the pool takes the slices of `wire` again that the
-- sealing of the slots took, and a write does not make the buffer shorter.
use lightway_cffi.Base.{
  leb, ◌&&◌, ℕ, zero, suc, ◌+◌, ◌-◌, ◌*◌, ◌/◌, ◌^◌, min, max, bit_xor, Bool, false, ◌||◌, Option,
  none, some, List, [], ◌∷◌, ltb, ◌==◌, if◌then◌else◌, length, take, replicate, slice, write_at,
  to_be_bytes, to_le_bytes, from_be_bytes, mul64,
}
use lightway_cffi.Data.{version2}
use lightway_cffi.Cipher.{Aead}
use lightway_cffi.Bench.Panic.{◌>>=◌, expect, guarded}
use lightway_cffi.Bench.Rng
use lightway_cffi.Session.{
  State, wire_overhead, new, update_next_self_key, promote_self_key, encrypt,
}

-- `iv_for`.
unfoldable pub iv_for : ℕ → List ℕ
iv_for counter = write_at (replicate 12 0) 0 (to_be_bytes 8 counter)

-- `aad_v2`.
unfoldable pub aad_v2 : List ℕ → ℕ → ℕ → List ℕ
aad_v2 session_id counter flags =
    write_at (write_at (write_at (replicate 18 0) 0 session_id) 8 (to_be_bytes 8 counter)) 16
      (to_be_bytes 2 flags)

unfoldable pub align_up : ℕ → ℕ → ℕ
align_up v a = (v + a - 1) / a * a

-- `is_power_of_two`: one of the powers that a word of 64 bits holds.
abbrev pub any_power : ℕ → ℕ → Bool
any_power zero x = false
any_power (suc k) x = x == 2 ^ k || any_power k x

unfoldable pub is_power_of_two : ℕ → Bool
is_power_of_two x = any_power 64 x

-- The distance of two slots, and the number of slots of a pool.
unfoldable pub stride_for : ℕ → ℕ
unfolding align_up is_power_of_two
stride_for len =
    let stride = align_up (wire_overhead + len + 16) 64 + 128 in
    if is_power_of_two stride then stride + 64 else stride

-- `Ord::clamp`.
abbrev clamp : ℕ → ℕ → ℕ → ℕ
clamp x lo hi = if ltb x lo then lo else if ltb hi x then hi else x

unfoldable pub slots_for : ℕ → ℕ → ℕ → ℕ
slots_for target_bytes max_slots stride = clamp (target_bytes / stride) 64 (max max_slots 64)

-- `while w < len { ... }`: the random bytes of one payload, on fuel. `none` is fuel that ran out.
unfoldable pub fill_payload : ℕ → ℕ → ℕ → ℕ → List ℕ → Option (ℕ × List ℕ)
fill_payload zero len w rng p = none
fill_payload (suc fuel) len w rng p =
    let (rng', drawn) = Rng.next rng in
    let bytes = to_le_bytes 8 drawn in
    let n = min (len - w) 8 in
    let rest = fill_payload fuel len (w + n) rng' (write_at p w (take n bytes)) in
    if ltb w len then rest else some (rng, p)

-- The payloads of `rounds` slots from slot `i` on.
unfoldable pub fill_slots : ℕ → ℕ → ℕ → ℕ → ℕ → List ℕ → Option (List ℕ)
fill_slots zero i len stride rng plain = some plain
fill_slots (suc rounds) i len stride rng plain = guarded (leb (i * stride + len) (length plain)) (
    fill_payload (suc len) len 0 rng (slice plain (i * stride) (i * stride + len)) >>= λ t.
    fill_slots rounds (i + 1) len stride t.0 (write_at plain (i * stride) t.1))

pub record Src : Type 0 where
  pub wire : List ℕ
  pub wire_cc : List ℕ
  pub plain : List ℕ
  pub slots : ℕ
  pub len : ℕ
  pub stride : ℕ
  pub session_id : List ℕ
  pub pool_hash : ℕ

-- FNV-1a over some bytes, and over the packets of `rounds` slots from slot `i` on.
unfoldable pub fnv : ℕ → List ℕ → ℕ
fnv h [] = h
fnv h (b ∷ bytes) = fnv (mul64 (bit_xor h b) 0x1000000001b3) bytes

unfoldable pub hash_slots : ℕ → ℕ → ℕ → ℕ → List ℕ → ℕ → ℕ
hash_slots zero i len stride wire h = h
hash_slots (suc rounds) i len stride wire h =
    let base = i * stride in
    hash_slots rounds (i + 1) len stride wire (fnv h (slice wire base (base + wire_overhead + len)))

-- The pool of some buffers.
abbrev pub src_of : ℕ → ℕ → ℕ → List ℕ → List ℕ → List ℕ × List ℕ → Src
src_of len stride slots session_id plain (wire, wire_cc) = record {
  wire = wire;
  wire_cc = wire_cc;
  plain = plain;
  slots = slots;
  len = len;
  stride = stride;
  session_id = session_id;
  pool_hash = hash_slots slots 0 len stride wire 0xcbf29ce484222325;
}

-- A session of version 2 that sends under a key.
unfoldable pub sender : (a : Aead) → List ℕ → Option (State a)
sender a key =
    let (tx, staged) = update_next_self_key a (new version2) key in
    do staged' ← expect staged; some (promote_self_key tx)

module _ (cc : Aead) where
  -- The ChaCha packet at `base`: the header of the AES packet, then the payload sealed in place,
  -- and its tag. `none` is a seal that failed.
  unfoldable pub seal_cc :
      cc.Key → List ℕ → List ℕ → ℕ → ℕ → List ℕ → List ℕ → List ℕ → Option (List ℕ)
  seal_cc c session_id plain counter base iv wire wire_cc =
      let flags = from_be_bytes 0 (slice wire (base + 38) (base + 40)) in
      let aad = aad_v2 session_id counter flags in
      let headed = write_at wire_cc base (slice wire base (base + wire_overhead)) in
      let copied = write_at headed (base + wire_overhead) plain in
      let text = slice copied (base + wire_overhead) (base + wire_overhead + length plain) in
      let (sealed, tag) = cc.seal c iv aad text in
      let stored = write_at copied (base + wire_overhead) sealed in
      do t ← tag; some (write_at stored (base + 20) t)

module _ (ring cc : Aead) where
  -- The packets of slot `i`.
  unfoldable pub seal_slot :
      cc.Key
      → List ℕ
      → ℕ
      → ℕ
      → List ℕ
      → ℕ
      → State ring
      → List ℕ
      → List ℕ
      → Option (State ring × List ℕ × List ℕ)
  unfolding seal_cc
  seal_slot c session_id len stride plain i tx wire wire_cc =
      let base = i * stride in
      let counter = i + 1 in
      let iv = iv_for counter in
      let payload = slice plain base (base + len) in
      let out = slice wire base (base + wire_overhead + len) in
      let (tx', packet, result) = encrypt ring tx counter session_id payload iv false out in
      let wire' = write_at wire base packet in
      guarded
        (leb (base + len) (length plain)
          && (leb (base + wire_overhead + len) (length wire)
              && leb (base + wire_overhead + len) (length wire_cc)))
        (do
          n ← expect result
          wire_cc' ← seal_cc cc c session_id payload counter base iv wire' wire_cc
          some (tx', wire', wire_cc'))

  -- `rounds` slots from slot `i` on.
  unfoldable pub seal_slots :
      cc.Key
      → List ℕ
      → ℕ
      → ℕ
      → List ℕ
      → ℕ
      → ℕ
      → State ring
      → List ℕ
      → List ℕ
      → Option (List ℕ × List ℕ)
  seal_slots c session_id len stride plain zero i tx wire wire_cc = some (wire, wire_cc)
  seal_slots c session_id len stride plain (suc rounds) i tx wire wire_cc =
      seal_slot c session_id len stride plain i tx wire wire_cc >>= λ t.
      seal_slots c session_id len stride plain rounds (i + 1) t.0 t.1 t.2

  -- `Src::build`.
  unfoldable pub build : ℕ → ℕ → ℕ → List ℕ → List ℕ → ℕ → Option Src
  build len target_bytes max_slots key session_id seed =
      let stride = stride_for len in
      let slots = slots_for target_bytes max_slots stride in
      let zeros = replicate (slots * stride) 0 in
      do
        plain ← fill_slots slots 0 len stride (Rng.new seed) zeros
        tx ← sender ring key
        c ← cc.new_key key
        pools ← seal_slots c session_id len stride plain slots 0 tx zeros zeros
        some (src_of len stride slots session_id plain pools)

-- `working_set_bytes`.
unfoldable working_set_bytes : Src → ℕ
working_set_bytes src = 2 * src.slots * src.stride

-- The slot of each iteration, and the offset of the bytes that it folds.
pub record Sched : Type 0 where
  pub slot : List ℕ
  pub fold : List ℕ
  pub n : ℕ
