-- ===== src/Bench/Final.antt =====
-- The results of a whole run.
use lightway_cffi.Base.{
  ℕ, ◌+◌, ◌*◌, ◌≤◌, ◌<◌, ◌≡◌, inl, inr, refl, sym, ap, ◌∙◌, subst, Bool, some, List, [], ◌∷◌, arith,
  length,
}
use lightway_cffi.Session.{State}
use lightway_cffi.Bench.Panic.{◌>>=◌}
use lightway_cffi.Bench.Pool.{Src}
use lightway_cffi.Bench.Schedule.{schedule}
use lightway_cffi.Bench.Arms.{Providers}
use lightway_cffi.Bench.Sent.{Sends}
use lightway_cffi.Bench.Commits.{Receives}
use lightway_cffi.Bench.Complete.{Right, expected}
use lightway_cffi.Bench.Runner.{Family, Spec, Job, jobs_of, Keys, fresh_rx}
use lightway_cffi.Bench.Run.{Entry, Bench, indexes, run_all}
use lightway_cffi.Bench.Entries.{All, All-at, times, times-indexes, indexes-below}
use lightway_cffi.Bench.Sampled.{IsSound}
use lightway_cffi.Bench.Gates.{Good, calibrate-IsHeld, rounds-IsRun}
use lightway_cffi.Bench.Families.{Final}
use lightway_cffi.Bench.Jobs.{IsTrue, jobs_of-IsSound, All-each, at_below, entries, length-entries}

module _ (p : Providers) (keys : Keys p) (src : Src) (seed : ℕ)
    (r : Right p keys.ring_key keys.rc_key keys.cc_key src.session_id src)
    (some_slots : 0 < src.slots) (rx : State p.ring) (fresh_is : fresh_rx p keys ≡ some rx)
    (fresh : Receives p.ring keys.ring_key 0 rx) (counts : ℕ → ℕ)
    (each_counts : (i : ℕ) → 0 < counts i) where
  fresh-entries :
      (jobs : List Job)
      → All IsSound jobs
      → All (Good p keys src seed r some_slots rx fresh_is fresh counts each_counts) (entries jobs)
  fresh-entries [] h = tt
  fresh-entries (j ∷ jobs) h = (
    (h.0, record { ops = refl; stable = inr refl; acc = inr (inl refl) }),
    fresh-entries jobs h.1,
  )

  abbrev aim_of : Family → Bool → ℕ
  aim_of f hot = expected p keys.ring_key keys.cc_key src.session_id src f (schedule src hot seed)

  Good-Final :
      (e : Entry)
      → Good p keys src seed r some_slots rx fresh_is fresh counts each_counts e
      → 0 < e.1.total_ops
      → Final aim_of e
  Good-Final (j, res) (sound, good) more = record {
    ops = good.ops;
    stable = good.stable;
    acc = elim good.acc [
      | inl null ↦ inl null
      | inr h ↦ inr (elim h [ inl idle ↦ absurd (omega (arith, idle)) | inr same ↦ same ])
    ];
  }

  -- A run of some rounds gives a result for each job, all of them final.
  pub run_all-Final :
      (n : ℕ) (dst : List ℕ) (ss : List Spec)
      → 0 < n
      → All IsTrue ss
      → src.slots * src.stride ≤ length dst
      → Sends p.ring keys.ring_key keys.tx
      → (results : List Entry) × (run_all p n counts keys src seed dst ss ≡ some results)
        × (length results ≡ length (jobs_of ss))
        × All (Final aim_of) results
  unfolding run_all
  run_all-Final n dst ss some_rounds specs_true size sends =
      let jobs = jobs_of ss in
      let sound = jobs_of-IsSound ss specs_true in
      let (t, e, held) =
        calibrate-IsHeld p keys src seed r some_slots rx fresh_is fresh counts each_counts jobs dst
          keys.tx sound (record { size = size; key = sends }) in
      let b : Bench p = record { dst = t.0; tx = t.1; results = entries jobs } in
      let order = indexes (length jobs) 0 in
      let (b', e', run, len, grows) =
        rounds-IsRun p keys src seed r some_slots rx fresh_is fresh counts each_counts n 0 order b
          (record { held = held; good = fresh-entries jobs sound })
          (subst (λ m. All (λ j. j < m) order) (sym (length-entries jobs))
            (indexes-below (length jobs) 0 (length jobs) (omega arith))) in
      (
        b'.results,
        rw e (ap (λ o. o >>= (λ end. some end.results)) e'),
        len ∙ length-entries jobs,
        All-each (Final aim_of) b'.results (λ i x k.
            let (x0, k0, more) = grows i x k in
            Good-Final x (All-at _ b'.results i x run.good k) (
              visited n (times order i) x0.1.total_ops x.1.total_ops some_rounds
                (times-indexes (length jobs) 0 i (omega arith)
                  (omega (arith, at_below b'.results i x k, len, length-entries jobs)))
                more)),
      )
    where
      visited : (n t x y : ℕ) → 0 < n → t ≡ 1 → x + n * t ≤ y → 0 < y
      visited n t x y h e k = grind arith
