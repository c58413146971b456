-- ===== src/Replay/Ring.antt =====
-- The slot of a counter in the ring: its word, its bit, and what reading and setting it does.
use lightway_cffi.Base.{
  ℕ, zero, suc, ◌*◌, ◌/◌, ◌%◌, ◌^◌, ◌≤◌, ◌<◌, ◌≡◌, ap, ◌∙◌, bit_or, not, List, arith, ◌==◌,
  if◌then◌else◌, set, length, length-set, get_or-set_self, get_or-set_ne, length-replicate,
  get_or-replicate,
}
use native.Mathlib.Nat.{one-le-pow, pow-le-pow_right}
use lightway_cffi.Base.Bits.{
  test_bit, test_bit-le-one, test_bit_of_zero, test_bit-bit_or, test_bit_power, bit_and-power,
  bit_and-ones,
}
use lightway_cffi.Replay.{
  num_blocks, window_size, cleared, ring_index, bit_of, is_marked, mark, word_at,
}

-- The two masks of the ring index are remainders.
pub ring_index-mod : (c : ℕ) → ring_index c ≡ c / 64 % 128
unfolding ring_index
ring_index-mod c = bit_and-ones 7 (c / 64)

pub bit_of-power : (c : ℕ) → bit_of c ≡ 2 ^ (c % 64)
unfolding bit_of
bit_of-power c =
    simp (bit_and-ones 6 c)
      (omega (arith, pow-le-pow_right {n = 2} (omega arith) {i = c % 64} {j = 63} (omega arith)))

-- Digit `c % 64` of the word of counter `c`.
unfoldable pub slot : List ℕ → ℕ → ℕ
slot bitmap c = test_bit (word_at bitmap (c / 64 % 128)) (c % 64)

digit_test : (d p : ℕ) → d ≤ 1 → 0 < p → not (d * p == 0) ≡ (d == 1)
digit_test zero p h pos = ground arith
digit_test (suc zero) p h pos = ground arith
digit_test (suc (suc d)) p h pos = absurd (omega arith)

pub is_marked-slot : (bitmap : List ℕ) (c : ℕ) → is_marked bitmap c ≡ (slot bitmap c == 1)
unfolding is_marked slot
is_marked-slot bitmap c =
    rw (ring_index-mod c, bit_of-power c, bit_and-power (c % 64))
      (digit_test _ _ (test_bit-le-one _ (c % 64)) (one-le-pow (c % 64) 2 (omega arith)))

pub length-cleared : length cleared ≡ num_blocks
unfolding cleared
length-cleared = length-replicate {A = ℕ} 128 0

pub slot-cleared : (c : ℕ) → slot cleared c ≡ 0
unfolding cleared slot
slot-cleared c =
    ap (λ t. test_bit t (c % 64)) (get_or-replicate 128 (c / 64 % 128) 0)
    ∙ test_bit_of_zero (c % 64)

pub slot-mark :
    (bitmap : List ℕ) (c d : ℕ)
    → length bitmap ≡ num_blocks
    → slot (mark bitmap c) d ≡ (if c % window_size == d % window_size then 1 else slot bitmap d)
unfolding mark slot
slot-mark bitmap c d h =
    rw (ring_index-mod c, bit_of-power c)
      (ground (
        arith,
        get_or-set_self bitmap (c / 64 % 128) new 0,
        get_or-set_ne bitmap (c / 64 % 128) (d / 64 % 128) new 0,
        test_bit-bit_or (word_at bitmap (c / 64 % 128)) (2 ^ (c % 64)) (d % 64),
        test_bit_power (c % 64) (d % 64),
        test_bit-le-one (word_at bitmap (c / 64 % 128)) (d % 64),
      ))
  where
    new : ℕ
    new = bit_or (word_at bitmap (c / 64 % 128)) (2 ^ (c % 64))

pub length-mark : (bitmap : List ℕ) (c : ℕ) → length (mark bitmap c) ≡ length bitmap
unfolding mark
length-mark bitmap c = length-set bitmap (ring_index c) _

-- The first packet's word is written, not or-ed in.
pub slot-first :
    (c d : ℕ)
    → slot (set cleared (ring_index c) (bit_of c)) d
      ≡ (if c % window_size == d % window_size then 1 else 0)
unfolding slot
slot-first c d =
    rw (ring_index-mod c, bit_of-power c)
      (ground (
        arith,
        get_or-set_self cleared (c / 64 % 128) (2 ^ (c % 64)) 0,
        get_or-set_ne cleared (c / 64 % 128) (d / 64 % 128) (2 ^ (c % 64)) 0,
        test_bit_power (c % 64) (d % 64),
        slot-cleared d,
        length-cleared,
      ))
