-- ===== src/Bench/Run.antt =====
-- lightway-expresslane-bench/src/main.rs: a whole run, `run_all`, and the gates of the report that
-- say whether it is valid. The sample counts come from the clock and are an argument.
use lightway_cffi.Base.{
  ℕ, zero, suc, ◌+◌, Bool, true, false, not, ◌&&◌, Option, none, some, List, [], ◌∷◌, ◌==◌,
  if◌then◌else◌, length, set, map,
}
use lightway_cffi.Session.{State}
use lightway_cffi.Bench.Panic.{◌>>=◌}
use lightway_cffi.Bench.Pool.{Src, Sched}
use lightway_cffi.Bench.Schedule.{schedule}
use lightway_cffi.Bench.Arms.{Providers}
use lightway_cffi.Bench.Runner.{
  Family, null_family, copy_family, dec, enc, enc_chacha, Spec, Job, jobs_of, next_order, Keys,
  fresh_rx, context, run_arm, Res, samples,
}

-- `family == other`.
abbrev pub same_family : Family → Family → Bool
same_family null_family null_family = true
same_family copy_family copy_family = true
same_family dec dec = true
same_family enc enc = true
same_family enc_chacha enc_chacha = true
same_family _ _ = false

-- `(0..n).collect()`.
abbrev pub indexes : ℕ → ℕ → List ℕ
indexes zero i = []
indexes (suc n) i = i ∷ indexes n (i + 1)

-- A job with its result, as the code's parallel lists of both have them.
abbrev pub Entry : Type 0
Entry = Job × Res

-- `xs[i]`, which must be in range.
abbrev pub at {ℓ} : {A : Type ℓ} → List A → ℕ → Option A
at [] i = none
at (x ∷ xs) zero = some x
at (x ∷ xs) (suc i) = at xs i

abbrev pub new_res : Res
new_res = record { total_ops = 0; expected_ops = 0; acc = 0; acc_stable = true }

-- The gates. G2: every operation succeeded.
unfoldable pub all_ok : List Entry → Bool
all_ok [] = true
all_ok ((j, r) ∷ rest) = r.total_ops == r.expected_ops && all_ok rest

-- G1c: the checksum of every arm but `null` was the same in all of its samples.
unfoldable pub all_acc : List Entry → Bool
all_acc [] = true
all_acc ((j, r) ∷ rest) =
    (if same_family j.0.family null_family then true else r.acc_stable) && all_acc rest

-- G1 and G1b: the arms of a family agree, hot with hot and cold with cold.
unfoldable pub agree : Family → Bool → Option ℕ → List Entry → Bool
agree family hot seen [] = true
agree family hot seen ((j, r) ∷ rest) =
    if same_family j.0.family family && (if hot then j.1 else not j.1)
    then elim seen [
      | none ↦ agree family hot (some r.acc) rest
      | some v ↦ v == r.acc && agree family hot (some v) rest
    ]
    else agree family hot seen rest

unfoldable pub family_ok : Family → List Entry → Bool
unfolding agree
family_ok family results = agree family true none results && agree family false none results

module _ (p : Providers) where
  -- What a run carries: the buffer, the shared sender, and the results of the jobs.
  pub record Bench : Type 0 where
    pub dst : List ℕ
    pub tx : State p.ring
    pub results : List Entry

  -- A sample whose result is thrown away.
  unfoldable pub discard :
      Keys p → Src → Sched → Spec → List ℕ × State p.ring → Option (List ℕ × State p.ring)
  discard keys src sch s (dst, tx) = do
    rx ← fresh_rx p keys
    t ← run_arm p s.name (context p keys src rx tx) src dst sch
    some (t.dst, t.tx)

  abbrev sched_of : Src → ℕ → Bool → Sched
  sched_of src seed hot = schedule src hot seed

  -- A job's part of a round: two discarded samples, and those that are recorded.
  unfoldable pub visit_entry : Keys p → Src → ℕ → ℕ → ℕ → Bench → Entry → Option Bench
  visit_entry keys src seed n j b ((s, hot), r) = do
    let sch = sched_of src seed hot
    one ← discard keys src sch s (b.dst, b.tx)
    two ← discard keys src sch s one
    t ← samples p keys src sch s n (two.0, two.1, r)
    some (record { dst = t.0; tx = t.1; results = set b.results j ((s, hot), t.2) })

  unfoldable pub visit : Keys p → Src → ℕ → (ℕ → ℕ) → ℕ → Bench → Option Bench
  unfolding visit_entry
  visit keys src seed counts j b = at b.results j >>= visit_entry keys src seed (counts j) j b

  unfoldable pub visits : Keys p → Src → ℕ → (ℕ → ℕ) → List ℕ → Bench → Option Bench
  visits keys src seed counts [] b = some b
  visits keys src seed counts (j ∷ order) b =
      visit keys src seed counts j b >>= visits keys src seed counts order

  -- The rounds left, from round `round` on, with the order of the round before.
  unfoldable pub rounds : Keys p → Src → ℕ → (ℕ → ℕ) → ℕ → ℕ → List ℕ → Bench → Option Bench
  rounds keys src seed counts zero round order b = some b
  rounds keys src seed counts (suc left) round order b =
      let order' = next_order round order in
      visits keys src seed counts order' b >>= rounds keys src seed counts left (round + 1) order'

  -- The discarded sample of each job by which the sample counts are found.
  unfoldable pub calibrate :
      Keys p → Src → ℕ → List Job → List ℕ × State p.ring → Option (List ℕ × State p.ring)
  calibrate keys src seed [] t = some t
  calibrate keys src seed ((s, hot) ∷ jobs) t =
      discard keys src (sched_of src seed hot) s t >>= calibrate keys src seed jobs

  -- `run_all`: the results, in the order of the jobs.
  unfoldable pub run_all : ℕ → (ℕ → ℕ) → Keys p → Src → ℕ → List ℕ → List Spec → Option (List Entry)
  unfolding calibrate rounds
  run_all n counts keys src seed dst specs =
      let jobs = jobs_of specs in
      do
        ready ← calibrate keys src seed jobs (dst, keys.tx)
        end ←
            rounds keys src seed counts n 0 (indexes (length jobs) 0)
              (record { dst = ready.0; tx = ready.1; results = map (λ j. (j, new_res)) jobs })
        some end.results
