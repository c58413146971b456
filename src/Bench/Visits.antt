-- ===== src/Bench/Visits.antt =====
-- What a schedule visits, and what the rounds of an arm keep.
use lightway_cffi.Base.{
  ℕ, zero, suc, ◌+◌, ◌-◌, ◌%◌, ◌^◌, ◌≤◌, ◌<◌, ◌≡◌, ap, ◌∙◌, subst, Bool, true, false, arith,
  if◌then◌else◌, get_or,
}
use native.Mathlib.Nat.{mod-lt}
use lightway_cffi.Bench.Rng
use lightway_cffi.Bench.Pool.{Src}
use lightway_cffi.Bench.Schedule.{slots_from, folds_from, schedule}
use lightway_cffi.Bench.Arms.{Providers, Pass}
use lightway_cffi.Bench.Passes.{each}

slots_from_at :
    (hot : Bool) (rounds i j : ℕ)
    → j < rounds
    → get_or (slots_from hot rounds i) j 0 ≡ (if hot then 0 else (i + j) % 2 ^ 32)
unfolding slots_from
slots_from_at hot zero i j h = absurd (omega arith)
slots_from_at hot (suc rounds) i zero h =
    ap (λ k. if hot then 0 else k % 2 ^ 32) {x = i} {y = i + zero} (omega arith)
slots_from_at hot (suc rounds) i (suc j) h =
    slots_from_at hot rounds (i + 1) j (omega arith)
    ∙ ap (λ k. if hot then 0 else k % 2 ^ 32) {x = i + 1 + j} {y = i + suc j} (omega arith)

folds_from_at :
    (rounds rng span j : ℕ) → 0 < span → j < rounds → get_or (folds_from rounds rng span) j 0 < span
unfolding folds_from
folds_from_at zero rng span j pos h = absurd (omega arith)
folds_from_at (suc rounds) rng span zero pos h = omega (arith, mod-lt (Rng.next rng).1 pos)
folds_from_at (suc rounds) rng span (suc j) pos h =
    folds_from_at rounds (Rng.next rng).0 span j pos (omega arith)

-- Every round of a schedule of the pool visits a slot that there is, and folds 8 bytes within the
-- payload, for payloads of at least 8 bytes.
pub schedule_bounds :
    (src : Src) (hot : Bool) (seed i : ℕ)
    → 8 ≤ src.len
    → i < src.slots
    → let sch = schedule src hot seed in
      (get_or sch.slot i 0 < src.slots) × (get_or sch.fold i 0 + 8 ≤ src.len)
unfolding schedule
schedule_bounds src hot seed i h k = (
  in_range hot,
  omega (arith, folds_from_at src.slots (Rng.new seed) (src.len - 8 + 1) i (omega arith) k),
)
  where
    in_range : (b : Bool) → get_or (slots_from b src.slots 0) i 0 < src.slots
    in_range true = omega (arith, slots_from_at true src.slots 0 i k)
    in_range false = omega (arith, slots_from_at false src.slots 0 i k)

-- A cold schedule visits the slots in order.
pub schedule_cold :
    (src : Src) (seed i : ℕ)
    → src.slots ≤ 2 ^ 32
    → i < src.slots
    → get_or (schedule src false seed).slot i 0 ≡ i
unfolding schedule
schedule_cold src seed i h k = omega (arith, slots_from_at false src.slots 0 i k)

-- What every round keeps holds after all rounds.
module _ (p : Providers) (body : ℕ → Pass p → Pass p) (n : ℕ) (P : ℕ → Pass p → Type 0)
    (keep : (i : ℕ) (t : Pass p) → i < n → P i t → P (suc i) (body i t)) where
  each_keeps : (rounds i : ℕ) (t : Pass p) → i + rounds ≡ n → P i t → P n (each p body rounds i t)
  unfolding each
  each_keeps zero i t e h = subst (λ j. P j t) (omega arith) h
  each_keeps (suc rounds) i t e h =
      each_keeps rounds (i + 1) (body i t) (omega arith)
        (subst (λ j. P j (body i t)) {x = suc i} (omega arith) (keep i t (omega arith) h))

  pub each_all : (t : Pass p) → P 0 t → P n (each p body n 0 t)
  each_all t h = each_keeps n 0 t (omega arith) h
