-- ===== src/Base/Bits.antt =====
-- The binary digits of a native number, and what the digit operations and shifts do to each.
use Prim.Native.Nat.{
  ℕ, zero, suc, ◌+◌, ◌-◌, ◌*◌, ◌/◌, ◌%◌, ◌^◌, ◌≤◌, ◌<◌, min, max, bit_and, bit_or, digits,
  bit_and-bitwise, bit_or-bitwise,
}
use mathlib.Core.Path.{◌≡◌, refl, ap, ap₂, ◌∙◌, sym, subst}
use native.Mathlib.Omega.{arith}
use native.Mathlib.Nat.{
  pow-suc, pow-succ', one-le-pow, div-one, div-div-eq-div-mul, mod-lt, div-add-mod, mul_comm,
}
use lightway_cffi.Base.Tests.{ltb, ◌==◌, if◌then◌else◌}

-- Digit `i` of `x`, the lowest first: 0 or 1.
unfoldable pub test_bit : ℕ → ℕ → ℕ
test_bit x zero = x % 2
test_bit x (suc i) = test_bit (x / 2) i

pub test_bit-le-one : (x i : ℕ) → test_bit x i ≤ 1
unfolding test_bit
test_bit-le-one x zero = omega arith
test_bit-le-one x (suc i) = test_bit-le-one (x / 2) i

pub test_bit_of_zero : (i : ℕ) → test_bit 0 i ≡ 0
unfolding test_bit
test_bit_of_zero zero = refl
test_bit_of_zero (suc i) = test_bit_of_zero i

-- The fuel of `digits` is enough when it is at least the first number.
test_bit-digits :
    (z : ℕ → ℕ) (f : ℕ → ℕ → ℕ)
    → ((b : ℕ) → z b % 2 ≡ f 0 (b % 2))
    → ((b : ℕ) → z b / 2 ≡ z (b / 2))
    → ((p q : ℕ) → p ≤ 1 → q ≤ 1 → f p q ≤ 1)
    → (i n a b : ℕ) → a ≤ n
    → test_bit (digits z f n a b) i ≡ f (test_bit a i) (test_bit b i)
unfolding test_bit
test_bit-digits z f low high small zero zero zero b h = low b
test_bit-digits z f low high small zero zero (suc a) b h = absurd (omega arith)
test_bit-digits z f low high small zero (suc n) zero b h = low b
test_bit-digits z f low high small zero (suc n) (suc a) b h =
    omega (arith, small (suc a % 2) (b % 2) (omega arith) (omega arith))
test_bit-digits z f low high small (suc i) zero zero b h =
    ap (λ t. test_bit t i) (high b) ∙ test_bit-digits z f low high small i zero zero (b / 2) h
test_bit-digits z f low high small (suc i) zero (suc a) b h = absurd (omega arith)
test_bit-digits z f low high small (suc i) (suc n) zero b h =
    ap (λ t. test_bit t i) (high b)
    ∙ test_bit-digits z f low high small i zero zero (b / 2) (omega arith)
test_bit-digits z f low high small (suc i) (suc n) (suc a) b h =
    ap (λ t. test_bit t i) halved
    ∙ test_bit-digits z f low high small i n (suc a / 2) (b / 2) (omega arith)
  where
    halved : digits z f (suc n) (suc a) b / 2 ≡ digits z f n (suc a / 2) (b / 2)
    halved = omega (arith, small (suc a % 2) (b % 2) (omega arith) (omega arith))

pub test_bit-bit_and : (a b i : ℕ) → test_bit (bit_and a b) i ≡ min (test_bit a i) (test_bit b i)
test_bit-bit_and a b i =
    ap (λ t. test_bit t i) (bit_and-bitwise a b)
    ∙ test_bit-digits (λ _. 0) min (λ _. omega arith) (λ _. omega arith) (λ p q h k. omega arith) i
        a a b (omega arith)

pub test_bit-bit_or : (a b i : ℕ) → test_bit (bit_or a b) i ≡ max (test_bit a i) (test_bit b i)
test_bit-bit_or a b i =
    ap (λ t. test_bit t i) (bit_or-bitwise a b)
    ∙ test_bit-digits (λ y. y) max (λ _. omega arith) (λ _. omega arith) (λ p q h k. omega arith) i
        a a b (omega arith)

-- A number that fits `n` digits, or-ed with another that does, fits them too.
digits-lt-pow :
    (z : ℕ → ℕ) (f : ℕ → ℕ → ℕ)
    → ((n b : ℕ) → b < 2 ^ n → z b < 2 ^ n)
    → ((p q : ℕ) → p ≤ 1 → q ≤ 1 → f p q ≤ 1)
    → (fuel n a b : ℕ) → a < 2 ^ n
    → b < 2 ^ n
    → digits z f fuel a b < 2 ^ n
digits-lt-pow z f base small zero n a b ha hb = base n b hb
digits-lt-pow z f base small (suc fuel) n zero b ha hb = base n b hb
digits-lt-pow z f base small (suc fuel) zero (suc a) b ha hb = absurd (omega arith)
digits-lt-pow z f base small (suc fuel) (suc n) (suc a) b ha hb = omega (
  arith,
  pow-suc 2 n,
  small (suc a % 2) (b % 2) (omega arith) (omega arith),
  digits-lt-pow z f base small fuel n (suc a / 2) (b / 2) (omega (arith, pow-suc 2 n))
      (omega (arith, pow-suc 2 n)),
)

pub bit_or-lt-pow : (n a b : ℕ) → a < 2 ^ n → b < 2 ^ n → bit_or a b < 2 ^ n
bit_or-lt-pow n a b ha hb =
    subst (λ t. t < 2 ^ n) (sym (bit_or-bitwise a b))
      (digits-lt-pow (λ y. y) max (λ _ _ h. h) (λ p q h k. omega arith) a n a b ha hb)

pub bit_and-lt-pow : (n a b : ℕ) → a < 2 ^ n → b < 2 ^ n → bit_and a b < 2 ^ n
bit_and-lt-pow n a b ha hb =
    subst (λ t. t < 2 ^ n) (sym (bit_and-bitwise a b))
      (digits-lt-pow (λ _. 0) min (λ m _ _. one-le-pow m 2 (omega arith)) (λ p q h k. omega arith) a
        n a b ha hb)

-- The digits of powers of two, of shifted and of cut numbers.
half-mul-pow : (x k : ℕ) → x * 2 ^ suc k / 2 ≡ x * 2 ^ k
half-mul-pow x k = omega (arith, ap (λ (t : ℕ). x * t) (pow-suc 2 k))

pub test_bit_shifted :
    (k x i : ℕ) → test_bit (x * 2 ^ k) i ≡ (if ltb i k then 0 else test_bit x (i - k))
unfolding test_bit
test_bit_shifted zero x i = ground (arith, ap (λ t. test_bit t i) (one x))
  where
    one : (y : ℕ) → y * 2 ^ zero ≡ y
    one y = omega arith
test_bit_shifted (suc k) x zero = ground (arith, ap (λ (t : ℕ). x * t) (pow-suc 2 k))
test_bit_shifted (suc k) x (suc i) =
    ap (λ t. test_bit t i) (half-mul-pow x k) ∙ test_bit_shifted k x i ∙ ground arith

pub test_bit_ones : (n i : ℕ) → test_bit (2 ^ n - 1) i ≡ (if ltb i n then 1 else 0)
unfolding test_bit
test_bit_ones zero i = test_bit_of_zero i ∙ ground arith
test_bit_ones (suc n) zero = ground (arith, pow-suc 2 n, one-le-pow n 2 (omega arith))
test_bit_ones (suc n) (suc i) =
    ap (λ t. test_bit t i) (omega (arith, pow-suc 2 n, one-le-pow n 2 (omega arith)))
    ∙ test_bit_ones n i
    ∙ ground arith

pub test_bit_complement :
    (n m i : ℕ) → m < 2 ^ n → i < n → test_bit (2 ^ n - 1 - m) i ≡ 1 - test_bit m i
unfolding test_bit
test_bit_complement zero m i h lt = absurd (omega arith)
test_bit_complement (suc n) m zero h lt = omega (arith, pow-suc 2 n)
test_bit_complement (suc n) m (suc i) h lt =
    ap (λ t. test_bit t i) halved
    ∙ test_bit_complement n (m / 2) i (omega (arith, pow-suc 2 n)) (omega arith)
  where
    halved : (2 ^ suc n - 1 - m) / 2 ≡ 2 ^ n - 1 - m / 2
    halved = omega (arith, pow-suc 2 n)

pub test_bit_high : (n x i : ℕ) → x < 2 ^ n → n ≤ i → test_bit x i ≡ 0
unfolding test_bit
test_bit_high zero x i h le = ap (λ t. test_bit t i) (omega arith) ∙ test_bit_of_zero i
test_bit_high (suc n) x zero h le = absurd (omega arith)
test_bit_high (suc n) x (suc i) h le =
    test_bit_high n (x / 2) i (omega (arith, pow-suc 2 n)) (omega arith)

pub test_bit_div : (k x i : ℕ) → test_bit (x / 2 ^ k) i ≡ test_bit x (k + i)
unfolding test_bit
test_bit_div zero x i = ap₂ test_bit {u = i} {v = 0 + i} (div-one x) (omega arith)
test_bit_div (suc k) x i =
    ap (λ t. test_bit t i) split ∙ test_bit_div k (x / 2) i ∙ ap (test_bit x) suc_out
  where
    split : x / 2 ^ suc k ≡ x / 2 / 2 ^ k
    split = ap (◌/◌ x) (pow-succ' 2 k) ∙ sym (div-div-eq-div-mul x 2 (2 ^ k))

    suc_out : suc (k + i) ≡ suc k + i
    suc_out = omega arith

half-mod : (x p : ℕ) → 0 < p → x % (p * 2) / 2 ≡ x / 2 % p
half-mod x p h =
    omega (arith, div-add-mod x (p * 2), div-add-mod (x / 2) p, ap (λ (t : ℕ). p * t) quotients)
  where
    quotients : x / (p * 2) ≡ x / 2 / p
    quotients = ap (◌/◌ x) (mul_comm p 2) ∙ sym (div-div-eq-div-mul x 2 p)

pub test_bit_mod : (n x i : ℕ) → i < n → test_bit (x % 2 ^ n) i ≡ test_bit x i
unfolding test_bit
test_bit_mod zero x i h = absurd (omega arith)
test_bit_mod (suc n) x zero h =
    omega (arith, div-add-mod x (2 ^ suc n), ap (λ (t : ℕ). t * (x / 2 ^ suc n)) (pow-suc 2 n))
test_bit_mod (suc n) x (suc i) h =
    ap (λ t. test_bit t i) halved ∙ test_bit_mod n (x / 2) i (omega arith)
  where
    halved : x % 2 ^ suc n / 2 ≡ x / 2 % 2 ^ n
    halved = ap (λ t. x % t / 2) (pow-suc 2 n) ∙ half-mod x (2 ^ n) (one-le-pow n 2 (omega arith))

pub test_bit_power : (k i : ℕ) → test_bit (2 ^ k) i ≡ (if i == k then 1 else 0)
unfolding test_bit
test_bit_power zero zero = refl
test_bit_power zero (suc i) = test_bit_of_zero i ∙ ground arith
test_bit_power (suc k) zero = ground (arith, pow-suc 2 k)
test_bit_power (suc k) (suc i) =
    ap (λ t. test_bit t i) (omega (arith, pow-suc 2 k)) ∙ test_bit_power k i ∙ ground arith

-- Two numbers with the same digits are equal.
bits_ext_below : (n a b : ℕ) → a ≤ n → b ≤ n → ((i : ℕ) → test_bit a i ≡ test_bit b i) → a ≡ b
unfolding test_bit
bits_ext_below zero a b ha hb same = omega arith
bits_ext_below (suc n) a b ha hb same = omega (
  arith,
  same zero,
  bits_ext_below n (a / 2) (b / 2) (omega arith) (omega arith) (λ i. same (suc i)),
)

pub bits_ext : (a b : ℕ) → ((i : ℕ) → test_bit a i ≡ test_bit b i) → a ≡ b
bits_ext a b same = bits_ext_below (a + b) a b (omega arith) (omega arith) same

-- Masking with a single digit keeps that digit, in its place.
pub bit_and-power : (k x : ℕ) → bit_and x (2 ^ k) ≡ test_bit x k * 2 ^ k
bit_and-power k x = bits_ext _ _ λ i. ground (
  arith,
  test_bit-bit_and x (2 ^ k) i,
  test_bit_power k i,
  test_bit_shifted k (test_bit x k) i,
  test_bit-le-one x k,
  test_bit-le-one x i,
  test_bit_high 1 (test_bit x k) (i - k),
  digit_zero (test_bit x k),
)
  where
    digit_zero : (d : ℕ) → d ≤ 1 → test_bit d 0 ≡ d
    digit_zero d h = unfold test_bit in omega arith

-- Masking with `n` ones is the remainder.
pub bit_and-ones : (n x : ℕ) → bit_and x (2 ^ n - 1) ≡ x % 2 ^ n
bit_and-ones n x = bits_ext _ _ λ i. ground (
  arith,
  test_bit-bit_and x (2 ^ n - 1) i,
  test_bit_ones n i,
  test_bit_mod n x i,
  test_bit-le-one x i,
  test_bit_high n (x % 2 ^ n) i (mod-lt x (one-le-pow n 2 (omega arith))),
)
