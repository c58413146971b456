-- ===== src/Replay/Clear.antt =====
-- `clear_range`: exactly the slots of the counters from `lo` to `hi` are cleared.
use native.Mathlib.Nat.{mod-lt}
use lightway_cffi.Base.{
  ℕ, zero, suc, ◌+◌, ◌-◌, ◌*◌, ◌/◌, ◌%◌, ◌^◌, ◌≤◌, ◌<◌, ◌≡◌, ◌≢◌, refl, ap, ◌∙◌, bit_and, ◌&&◌,
  List, arith, ltb, leb, ◌==◌, if◌then◌else◌, set, length, u64_max, u64_mod, not64, length-set,
  get_or-set_self, get_or-set_ne, Bool-cases, inl, inr,
}
use lightway_cffi.Base.Bits.{
  test_bit, test_bit-le-one, test_bit_of_zero, test_bit-bit_and, test_bit_ones, test_bit_mod,
  test_bit_shifted, test_bit_div, test_bit_complement, bit_and-ones,
}
use lightway_cffi.Replay.{
  num_blocks, window_size, ring_index, mask_between, clear_words, clear_range, word_at,
  and_not_word,
}
use lightway_cffi.Replay.Ring.{ring_index-mod, slot}

mask_between-lt : (lo hi : ℕ) → mask_between lo hi < u64_mod
unfolding mask_between
mask_between-lt lo hi = mod-lt _ (omega arith)

-- The mask has the digits from `lo` to `hi`.
pub test_bit-mask_between :
    (lo hi i : ℕ)
    → lo ≤ hi
    → hi < 64
    → i < 64
    → test_bit (mask_between lo hi) i ≡ (if leb lo i && leb i hi then 1 else 0)
unfolding mask_between
test_bit-mask_between lo hi i le top h = ground (
  arith,
  test_bit_mod 64 (u64_max / 2 ^ (63 - (hi - lo)) * 2 ^ lo) i,
  test_bit_shifted lo (u64_max / 2 ^ (63 - (hi - lo))) i,
  test_bit_div (63 - (hi - lo)) u64_max (i - lo),
  test_bit_ones 64 (63 - (hi - lo) + (i - lo)),
)

-- Digit `b` of word `w`.
digit : List ℕ → ℕ → ℕ → ℕ
digit bitmap w b = test_bit (word_at bitmap w) b

digit-and_not_word :
    (bitmap : List ℕ) (v w lo hi b : ℕ)
    → v < length bitmap
    → lo ≤ hi
    → hi < 64
    → b < 64
    → digit (and_not_word bitmap v (mask_between lo hi)) w b
      ≡ (if v == w && leb lo b && leb b hi then 0 else digit bitmap w b)
unfolding digit
digit-and_not_word bitmap v w lo hi b inside le top h = ground (
  arith,
  get_or-set_self bitmap v (bit_and (word_at bitmap v) (not64 (mask_between lo hi))) 0,
  get_or-set_ne bitmap v w (bit_and (word_at bitmap v) (not64 (mask_between lo hi))) 0,
  test_bit-bit_and (word_at bitmap v) (not64 (mask_between lo hi)) b,
  test_bit_complement 64 (mask_between lo hi) b (mask_between-lt lo hi),
  test_bit-mask_between lo hi b,
  test_bit-le-one (word_at bitmap v) b,
)

length-clear_words :
    (n word : ℕ) (bitmap : List ℕ) → length (clear_words n word bitmap) ≡ length bitmap
unfolding clear_words
length-clear_words zero word bitmap = refl
length-clear_words (suc n) word bitmap =
    length-clear_words n (word + 1) (set bitmap (bit_and word 127) 0)
    ∙ length-set bitmap (bit_and word 127) 0

-- The loop clears the `n` words from `word` on, around the ring.
digit-clear_words :
    (n word : ℕ) (bitmap : List ℕ) (w b : ℕ)
    → length bitmap ≡ num_blocks
    → n < num_blocks
    → w < num_blocks
    → digit (clear_words n word bitmap) w b
      ≡ (if ltb ((w + 128 - word % 128) % 128) n then 0 else digit bitmap w b)
unfolding digit clear_words
digit-clear_words zero word bitmap w b len few h = ground arith
digit-clear_words (suc n) word bitmap w b len few h = ground (
  arith,
  bit_and-ones 7 word,
  length-set bitmap (bit_and word 127) 0,
  digit-clear_words n (word + 1) (set bitmap (bit_and word 127) 0) w b,
  get_or-set_self bitmap (word % 128) 0 0,
  get_or-set_ne bitmap (word % 128) w 0 0,
  test_bit_of_zero b,
)

pub length-clear_range :
    (bitmap : List ℕ) (lo hi : ℕ) → length (clear_range bitmap lo hi) ≡ length bitmap
unfolding clear_range
length-clear_range bitmap lo hi = elim (Bool-cases (lo / 64 == hi / 64)) [
  | inl one ↦ rw one (length-set bitmap _ _)
  | inr more ↦ rw more (
      length-set _ (ring_index hi) _ ∙ length-clear_words _ (lo / 64 + 1) _ ∙ length-set bitmap _ _)
]

-- How far counter `c`'s slot stands beyond that of `lo`, around the ring.
abbrev pub ring_distance : ℕ → ℕ → ℕ
ring_distance lo c = (c % window_size + window_size - lo % window_size) % window_size

one_word :
    (lo hi c : ℕ)
    → lo ≤ hi
    → lo / 64 ≡ hi / 64
    → (lo / 64 % 128 == c / 64 % 128 && leb (lo % 64) (c % 64) && leb (c % 64) (hi % 64))
      ≡ leb (ring_distance lo c) (hi - lo)
one_word lo hi c le e = ground arith

-- The word of `c`'s slot, counted from that of `lo` around the ring.
abbrev word_distance : ℕ → ℕ → ℕ
word_distance lo c = (c / 64 % 128 + 128 - lo / 64 % 128) % 128

ring_distance-word_distance :
    (lo c : ℕ)
    → ring_distance lo c ≡ (
        if ltb (64 * word_distance lo c + c % 64) (lo % 64)
        then window_size + c % 64 - lo % 64
        else 64 * word_distance lo c + c % 64 - lo % 64)
ring_distance-word_distance lo c = ground arith

last_word :
    (lo hi c : ℕ)
    → lo / 64 ≤ hi / 64
    → (hi / 64 % 128 == c / 64 % 128) ≡ (word_distance lo c == (hi / 64 - lo / 64) % 128)
last_word lo hi c le = ground arith

first_word : (lo c : ℕ) → (lo / 64 % 128 == c / 64 % 128) ≡ (word_distance lo c == 0)
first_word lo c = ground arith

inner_word :
    (lo n c : ℕ)
    → n < 128
    → ltb ((c / 64 % 128 + 128 - (lo / 64 + 1) % 128) % 128) n
      ≡ (ltb 0 (word_distance lo c) && ltb (word_distance lo c) (n + 1))
inner_word lo n c h = ground arith

covered :
    (d n b lb hb x : ℕ)
    → 0 < n
    → n ≤ 128
    → d < 128
    → b < 64
    → lb < 64
    → hb < 64
    → 64 * n + hb < window_size + lb
    → (if d == n % 128 && leb 0 b && leb b hb
        then 0
        else if ltb 0 d && ltb d (n - 1 + 1)
        then 0
        else if d == 0 && leb lb b && leb b 63
        then 0
        else x)
      ≡ (if leb
            (if ltb (64 * d + b) lb then window_size + b - lb else 64 * d + b - lb)
            (64 * n + hb - lb)
          then 0
          else x)
covered d n b lb hb x pos top hd hb' hlb hhb span = ground arith

more_words :
    (lo hi c x : ℕ)
    → lo ≤ hi
    → hi - lo < window_size
    → lo / 64 ≢ hi / 64
    → (if hi / 64 % 128 == c / 64 % 128 && leb 0 (c % 64) && leb (c % 64) (hi % 64)
        then 0
        else if ltb ((c / 64 % 128 + 128 - (lo / 64 + 1) % 128) % 128) (hi / 64 - (lo / 64 + 1))
        then 0
        else if lo / 64 % 128 == c / 64 % 128 && leb (lo % 64) (c % 64) && leb (c % 64) 63
        then 0
        else x)
      ≡ (if leb (ring_distance lo c) (hi - lo) then 0 else x)
more_words lo hi c x le span ne =
    rw
      (
        last_word lo hi c (omega arith),
        first_word lo c,
        inner_word lo (hi / 64 - (lo / 64 + 1)) c (omega arith),
        ring_distance-word_distance lo c,
        span_words,
        inner_count,
      )
      (covered (word_distance lo c) (hi / 64 - lo / 64) (c % 64) (lo % 64) (hi % 64) x (omega arith)
        (omega arith) (omega arith) (omega arith) (omega arith) (omega arith) (omega arith))
  where
    span_words : hi - lo ≡ 64 * (hi / 64 - lo / 64) + hi % 64 - lo % 64
    span_words = omega arith

    inner_count : hi / 64 - (lo / 64 + 1) ≡ hi / 64 - lo / 64 - 1
    inner_count = omega arith

-- Clearing the counters `lo` to `hi`, fewer than 8192 of them, empties the slots at a ring distance
-- of at most `hi - lo` from `lo` and keeps every other one, also when the first and the last word
-- of the range are the same slot.
pub slot-clear_range :
    (bitmap : List ℕ) (lo hi c : ℕ)
    → length bitmap ≡ num_blocks
    → lo ≤ hi
    → hi - lo < window_size
    → slot (clear_range bitmap lo hi) c
      ≡ (if leb (ring_distance lo c) (hi - lo) then 0 else slot bitmap c)
unfolding clear_range slot digit
slot-clear_range bitmap lo hi c len le span = elim (Bool-cases (lo / 64 == hi / 64)) [
  | inl one ↦
      rw (one, ring_index-mod lo, bit_and-ones 6 lo, bit_and-ones 6 hi)
        (digit-and_not_word bitmap (lo / 64 % 128) (c / 64 % 128) (lo % 64) (hi % 64) (c % 64)
            (omega arith) (ground arith) (omega arith) (omega arith)
          ∙ ap (λ t. if t then 0 else slot bitmap c) (one_word lo hi c le (ground arith)))
  | inr more ↦
      rw (more, ring_index-mod lo, ring_index-mod hi, bit_and-ones 6 lo, bit_and-ones 6 hi)
        (slot-clear_many (ground arith))
]
  where
    first : List ℕ
    first = and_not_word bitmap (lo / 64 % 128) (mask_between (lo % 64) 63)

    inner : List ℕ
    inner = clear_words (hi / 64 - (lo / 64 + 1)) (lo / 64 + 1) first

    slot-clear_many :
        lo / 64 ≢ hi / 64
        → digit
            (and_not_word inner (hi / 64 % 128) (mask_between 0 (hi % 64)))
            (c / 64 % 128)
            (c % 64)
          ≡ (if leb (ring_distance lo c) (hi - lo) then 0 else slot bitmap c)
    slot-clear_many ne =
        rw
          (
            digit-and_not_word inner (hi / 64 % 128) (c / 64 % 128) 0 (hi % 64) (c % 64)
                (omega (
                  arith,
                  length-clear_words (hi / 64 - (lo / 64 + 1)) (lo / 64 + 1) first,
                  length-set bitmap (lo / 64 % 128) (
                      bit_and (word_at bitmap (lo / 64 % 128)) (not64 (mask_between (lo % 64) 63))),
                ))
                (omega arith) (omega arith) (omega arith),
            digit-clear_words (hi / 64 - (lo / 64 + 1)) (lo / 64 + 1) first (c / 64 % 128) (c % 64)
                (length-set bitmap _ _ ∙ len) (omega arith) (omega arith),
            digit-and_not_word bitmap (lo / 64 % 128) (c / 64 % 128) (lo % 64) 63 (c % 64)
                (omega arith) (omega arith) (omega arith) (omega arith),
          )
          (more_words lo hi c (slot bitmap c) le span ne)
