-- ===== src/Bench/Rng.antt =====
-- lightway-expresslane-bench/src/pool.rs: the generator xorshift64*. An `Rng` is its word.
use lightway_cffi.Base.{ℕ, bit_or, bit_xor, shl64, shr64, mul64}

unfoldable pub new : ℕ → ℕ
new seed = bit_or seed 1

abbrev xor_shr : ℕ → ℕ → ℕ
xor_shr x k = bit_xor x (shr64 x k)

abbrev xor_shl : ℕ → ℕ → ℕ
xor_shl x k = bit_xor x (shl64 x k)

-- The next word, and the value drawn.
unfoldable pub next : ℕ → ℕ × ℕ
next word = let x = xor_shr (xor_shl (xor_shr word 12) 25) 27 in (x, mul64 x 0x2545F4914F6CDD1D)
