-- ===== src/Bench/Layout.antt =====
-- The slots of a pool: how far they are apart and how many there are.
use lightway_cffi.Base.{
  ℕ, zero, suc, ◌+◌, ◌*◌, ◌/◌, ◌%◌, ◌^◌, ◌≤◌, ◌<◌, max, ◌≡◌, ap, true, false, arith, ◌==◌, ltb,
  Bool-cases, inl, inr, ◌⊎◌,
}
use native.Mathlib.Nat.{pow-suc}
use lightway_cffi.Session.{wire_overhead}
use lightway_cffi.Bench.Pool.{align_up, any_power, is_power_of_two, stride_for, slots_for}

pow-le : (j k : ℕ) → j ≤ k → 2 ^ j ≤ 2 ^ k
pow-le j zero h = ap_le (omega arith)
  where
    ap_le : j ≡ 0 → 2 ^ j ≤ 2 ^ zero
    ap_le e = rw e (omega arith)
pow-le j (suc k) h = elim (Bool-cases (j == suc k)) [
  | inl e ↦ ground (arith, ap (λ t. 2 ^ t) (eq j (suc k) e))
  | inr ne ↦ omega (arith, pow-suc 2 k, pow-le j k (ground arith))
]
  where
    eq : (a b : ℕ) → (a == b) ≡ true → a ≡ b
    eq a b h = ground arith

-- Two powers of two are 64 apart only as 64 and 128.
powers_apart : (j k : ℕ) → 2 ^ j ≡ 2 ^ k + 64 → 2 ^ k ≤ 64
powers_apart j k e = elim (le_or j k) [
  | inl h ↦ absurd (omega (arith, pow-le j k h))
  | inr h ↦ omega (arith, pow-le (suc k) j h, pow-suc 2 k)
]
  where
    le_or : (a b : ℕ) → (a ≤ b) ⊎ (suc b ≤ a)
    le_or a b = ground arith

any_power-true : (n x : ℕ) → any_power n x ≡ true → (k : ℕ) × (x ≡ 2 ^ k)
any_power-true zero x h = cc
any_power-true (suc n) x h = elim (Bool-cases (x == 2 ^ n)) [
  | inl e ↦ (n, eq x (2 ^ n) e)
  | inr ne ↦ any_power-true n x (rw ne at h)
]
  where
    eq : (a b : ℕ) → (a == b) ≡ true → a ≡ b
    eq a b h = ground arith

-- What a pool's slots are: aligned to 64 bytes, with room for a packet, and not a power of two
-- apart.
pub record IsStride (len stride : ℕ) : Type 0 where
  pub aligned : stride % 64 ≡ 0
  pub room : wire_overhead + len + 144 ≤ stride
  pub odd : is_power_of_two stride ≡ false

align_up_lem : (v : ℕ) → (align_up v 64 % 64 ≡ 0) × (v ≤ align_up v 64)
unfolding align_up
align_up_lem v = omega arith

pub stride_for-IsStride : (len : ℕ) → IsStride len (stride_for len)
unfolding stride_for
stride_for-IsStride len = elim (Bool-cases (is_power_of_two narrow)) [
  | inl p ↦ rw p (record {
    aligned = omega (arith, align_up_lem (wire_overhead + len + 16));
    room = omega (arith, align_up_lem (wire_overhead + len + 16));
    odd = wider p;
  })
  | inr q ↦ rw q (record {
    aligned = omega (arith, align_up_lem (wire_overhead + len + 16));
    room = omega (arith, align_up_lem (wire_overhead + len + 16));
    odd = q;
  })
]
  where
    narrow : ℕ
    narrow = align_up (wire_overhead + len + 16) 64 + 128

    power_of : (x : ℕ) → is_power_of_two x ≡ true → (k : ℕ) × (x ≡ 2 ^ k)
    power_of x h = unfold is_power_of_two in any_power-true 64 x h

    wider : is_power_of_two narrow ≡ true → is_power_of_two (narrow + 64) ≡ false
    wider p = elim (Bool-cases (is_power_of_two (narrow + 64))) [
      | inl q ↦
          let (j, ej) = power_of narrow p in
          let (k, ek) = power_of (narrow + 64) q in
          absurd (omega (arith, powers_apart k j (omega arith)))
      | inr q ↦ q
    ]

mul-div-le : (t s n : ℕ) → n ≤ t / s → 0 < s → n * s ≤ t
mul-div-le t s n h pos = grind arith

slots_for_bounds :
    (target max_slots stride : ℕ)
    → 0 < stride
    → let n = slots_for target max_slots stride in
      (64 ≤ n) × (n ≤ max max_slots 64) × (n * stride ≤ max target (64 * stride))
unfolding slots_for
slots_for_bounds target max_slots stride pos = elim (Bool-cases (ltb (target / stride) 64)) [
  | inl few ↦ rw few (omega arith, omega arith, omega arith)
  | inr enough ↦ elim (Bool-cases (ltb (max max_slots 64) (target / stride))) [
    | inl many ↦
        rw (enough, many)
          (omega arith, omega arith, ground (arith, mul-div-le target stride (max max_slots 64)))
    | inr fits ↦
        rw (enough, fits)
          (ground arith, ground arith, ground (arith, mul-div-le target stride (target / stride)))
  ]
]

-- The layout of a pool: its slots are 64-byte aligned, have room for a packet with 144 bytes to
-- spare and are not a power of two apart; there are at least 64 of them, no more than the limit
-- allows, and they fit the target size unless that is too small for 64.
pub pool_layout :
    (len target_bytes max_slots : ℕ)
    → let stride = stride_for len in
      let slots = slots_for target_bytes max_slots stride in
      IsStride len stride
      × (64 ≤ slots)
      × (slots ≤ max max_slots 64)
      × (slots * stride ≤ max target_bytes (64 * stride))
pool_layout len target max_slots = (i, n.0, n.1, n.2)
  where
    i : IsStride len (stride_for len)
    i = stride_for-IsStride len

    n :
        (64 ≤ slots_for target max_slots (stride_for len))
        × (slots_for target max_slots (stride_for len) ≤ max max_slots 64)
        × (slots_for target max_slots (stride_for len) * stride_for len
            ≤ max target (64 * stride_for len))
    n = slots_for_bounds target max_slots (stride_for len) (omega (arith, i.room))
