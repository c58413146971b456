-- ===== src/Bench/Schedule.antt =====
-- lightway-expresslane-bench/src/pool.rs: the schedule.
use lightway_cffi.Base.{ℕ, zero, suc, ◌+◌, ◌-◌, ◌%◌, ◌^◌, Bool, List, [], ◌∷◌, if◌then◌else◌}
use lightway_cffi.Bench.Rng
use lightway_cffi.Bench.Pool.{Src, Sched}

-- `rounds` iterations from iteration `i` on: the slots, and the offsets.
unfoldable pub slots_from : Bool → ℕ → ℕ → List ℕ
slots_from hot zero i = []
slots_from hot (suc rounds) i = (if hot then 0 else i % 2 ^ 32) ∷ slots_from hot rounds (i + 1)

unfoldable pub folds_from : ℕ → ℕ → ℕ → List ℕ
folds_from zero rng span = []
folds_from (suc rounds) rng span =
    let (rng', drawn) = Rng.next rng in (drawn % span % 2 ^ 32) ∷ folds_from rounds rng' span

-- `Sched::new`, for payloads of at least 8 bytes.
unfoldable pub schedule : Src → Bool → ℕ → Sched
unfolding slots_from folds_from
schedule src hot seed = record {
  slot = slots_from hot src.slots 0;
  fold = folds_from src.slots (Rng.new seed) (src.len - 8 + 1);
  n = src.slots;
}
