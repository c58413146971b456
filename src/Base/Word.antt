-- ===== src/Base/Word.antt =====
-- Machine integers: a `u64` is a native number below `2 ^ 64`, with the wrap written out.
use Prim.Native.Nat.{ℕ, ◌+◌, ◌-◌, ◌*◌, ◌/◌, ◌%◌, ◌^◌}

abbrev pub u64_mod : ℕ
u64_mod = 2 ^ 64

abbrev pub u64_max : ℕ
u64_max = 2 ^ 64 - 1

-- `x << k`, `x >> k`, `!x` and the wrapping `a + b` on `u64`.
abbrev pub shl64 : ℕ → ℕ → ℕ
shl64 x k = x * 2 ^ k % u64_mod

abbrev pub shr64 : ℕ → ℕ → ℕ
shr64 x k = x / 2 ^ k

abbrev pub not64 : ℕ → ℕ
not64 x = u64_max - x

abbrev pub add64 : ℕ → ℕ → ℕ
add64 a b = (a + b) % u64_mod

-- `wrapping_mul`, and `rotate_left(1)`.
abbrev pub mul64 : ℕ → ℕ → ℕ
mul64 a b = a * b % u64_mod

abbrev pub rotate_one : ℕ → ℕ
rotate_one x = x * 2 % u64_mod + x / 2 ^ 63
