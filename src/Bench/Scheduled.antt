-- ===== src/Bench/Scheduled.antt =====
-- lightway-expresslane-bench/src/pool.rs: the schedules of a pool, within its bounds.
use lightway_cffi.Base.{ℕ, zero, suc, ◌+◌, ◌≤◌, ◌≡◌, refl, ap, Bool, arith, length}
use lightway_cffi.Bench.Rng
use lightway_cffi.Bench.Pool.{Src}
use lightway_cffi.Bench.Schedule.{slots_from, folds_from, schedule}
use lightway_cffi.Bench.Arms.{Providers}
use lightway_cffi.Bench.Visits.{schedule_bounds}
use lightway_cffi.Bench.Bounds.{Fits}

length-slots_from : (hot : Bool) (rounds i : ℕ) → length (slots_from hot rounds i) ≡ rounds
unfolding slots_from
length-slots_from hot zero i = refl
length-slots_from hot (suc rounds) i = ap suc (length-slots_from hot rounds (i + 1))

length-folds_from : (rounds rng span : ℕ) → length (folds_from rounds rng span) ≡ rounds
unfolding folds_from
length-folds_from zero rng span = refl
length-folds_from (suc rounds) rng span = ap suc (length-folds_from rounds (Rng.next rng).0 span)

pub schedule-Fits :
    (p : Providers) (src : Src) (hot : Bool) (seed : ℕ)
    → 8 ≤ src.len
    → Fits p src (schedule src hot seed)
unfolding schedule
schedule-Fits p src hot seed h = record {
  slots = omega (arith, length-slots_from hot src.slots 0);
  folds = omega (arith, length-folds_from src.slots _ _);
  visits = λ i k. (schedule_bounds src hot seed i h k).0;
  inside = λ i k. (schedule_bounds src hot seed i h k).1;
}
