-- ===== src/Replay.antt =====
-- lightway-expresslane/src/replay_window.rs: the sliding window of received packet counters, a
-- ring of 128 words of 64 bits indexed by the absolute counter.
use lightway_cffi.Base.{
  ℕ, zero, suc, ◌+◌, ◌-◌, ◌*◌, ◌/◌, ◌^◌, bit_and, bit_or, Bool, true, false, not, List, ltb, leb,
  ◌==◌, if◌then◌else◌, get_or, set, replicate, u64_max, shl64, shr64, not64, add64,
}
pub mod Ring
pub mod Clear
pub mod History
pub mod Refine
pub mod Runs
mod Examples

abbrev pub num_blocks : ℕ
num_blocks = 128

abbrev pub block_bits : ℕ
block_bits = 64

abbrev pub window_size : ℕ
window_size = num_blocks * block_bits

abbrev pub ring_mask : ℕ
ring_mask = num_blocks - 1

abbrev pub bit_mask : ℕ
bit_mask = block_bits - 1

-- `bitmap` holds `num_blocks` words.
pub record ReplayWindow : Type 0 where
  pub max_counter : ℕ
  pub bitmap : List ℕ
  pub packets_received : ℕ
  pub initialized : Bool

-- `[0; Self::NUM_BLOCKS]`.
pub cleared : List ℕ
cleared = replicate num_blocks 0

pub default : ReplayWindow
default = record { max_counter = 0; bitmap = cleared; packets_received = 0; initialized = false }

pub ring_index : ℕ → ℕ
ring_index counter = bit_and (counter / block_bits) ring_mask

pub bit_of : ℕ → ℕ
bit_of counter = shl64 1 (bit_and counter bit_mask)

-- Bits `lo` to `hi` set, for `lo ≤ hi ≤ 63`.
pub mask_between : ℕ → ℕ → ℕ
mask_between lo hi = shl64 (shr64 u64_max (63 - (hi - lo))) lo

-- `bitmap[word]`, `bitmap[word] |= bits` and `bitmap[word] &= !bits`; every index that the code
-- computes is below `num_blocks`.
abbrev pub word_at : List ℕ → ℕ → ℕ
word_at bitmap word = get_or bitmap word 0

abbrev pub or_word : List ℕ → ℕ → ℕ → List ℕ
or_word bitmap word bits = set bitmap word (bit_or (word_at bitmap word) bits)

abbrev pub and_not_word : List ℕ → ℕ → ℕ → List ℕ
and_not_word bitmap word bits = set bitmap word (bit_and (word_at bitmap word) (not64 bits))

-- The test `bitmap[ring_index(counter)] & bit_of(counter) != 0`.
pub is_marked : List ℕ → ℕ → Bool
is_marked bitmap counter = not (bit_and (word_at bitmap (ring_index counter)) (bit_of counter) == 0)

-- `bitmap[ring_index(counter)] |= bit_of(counter)`.
pub mark : List ℕ → ℕ → List ℕ
mark bitmap counter = or_word bitmap (ring_index counter) (bit_of counter)

-- `for word in word..word + rounds { bitmap[(word & RING_MASK)] = 0 }`.
pub clear_words : ℕ → ℕ → List ℕ → List ℕ
clear_words zero word bitmap = bitmap
clear_words (suc rounds) word bitmap =
    clear_words rounds (word + 1) (set bitmap (bit_and word ring_mask) 0)

pub clear_range : List ℕ → ℕ → ℕ → List ℕ
clear_range bitmap lo hi =
    let lo_word = lo / block_bits in
    let hi_word = hi / block_bits in
    let lo_bit = bit_and lo bit_mask in
    let hi_bit = bit_and hi bit_mask in
    if lo_word == hi_word
    then and_not_word bitmap (ring_index lo) (mask_between lo_bit hi_bit)
    else and_not_word
        (clear_words (hi_word - (lo_word + 1)) (lo_word + 1)
          (and_not_word bitmap (ring_index lo) (mask_between lo_bit 63)))
        (ring_index hi) (mask_between 0 hi_bit)

-- What a packet above the maximum clears, before its own bit is set.
pub advance : List ℕ → ℕ → ℕ → List ℕ
advance bitmap max_counter wire_counter =
    let diff = wire_counter - max_counter in
    if leb window_size diff
    then cleared
    else if ltb 1 diff
    then clear_range bitmap (max_counter + 1) (wire_counter - 1)
    else bitmap

pub would_reject : ReplayWindow → ℕ → Bool
would_reject w wire_counter =
    if not w.initialized
    then false
    else if ltb w.max_counter wire_counter
    then false
    else if leb window_size (w.max_counter - wire_counter)
    then true
    else is_marked w.bitmap wire_counter

-- The new window, and whether the counter is accepted.
pub commit : ReplayWindow → ℕ → ReplayWindow × Bool
commit w wire_counter =
    if not w.initialized
    then (
      record {
        max_counter = wire_counter;
        bitmap = set cleared (ring_index wire_counter) (bit_of wire_counter);
        packets_received = add64 w.packets_received 1;
        initialized = true;
      },
      true,
    )
    else if ltb w.max_counter wire_counter
    then (
      record w {
        max_counter = wire_counter;
        bitmap = mark (advance w.bitmap w.max_counter wire_counter) wire_counter;
        packets_received = add64 w.packets_received 1;
      },
      true,
    )
    else if leb window_size (w.max_counter - wire_counter)
    then (w, false)
    else if is_marked w.bitmap wire_counter
    then (w, false)
    else (
      record w {
        bitmap = mark w.bitmap wire_counter;
        packets_received = add64 w.packets_received 1;
      },
      true,
    )
