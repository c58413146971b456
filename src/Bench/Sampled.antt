-- ===== src/Bench/Sampled.antt =====
-- lightway-expresslane-bench/src/main.rs: the samples of a job, and its result so far.
use lightway_cffi.Base.{
  ℕ, zero, suc, ◌+◌, ◌*◌, ◌≤◌, ◌<◌, ◌≡◌, ◌⊎◌, inl, inr, refl, sym, subst, Bool, true, false, not,
  ◌&&◌, some, List, arith, ◌==◌, if◌then◌else◌, Bool-cases, length,
}
use lightway_cffi.Session.{State, packets_received}
use lightway_cffi.Bench.Pool.{Src}
use lightway_cffi.Bench.Schedule.{schedule}
use lightway_cffi.Bench.Passes.{run_pass}
use lightway_cffi.Bench.Totals.{run_arm_total}
use lightway_cffi.Bench.Scheduled.{schedule-Fits}
use lightway_cffi.Bench.Runner.{run_arm}
use lightway_cffi.Bench.Arms.{Providers, Pass}
use lightway_cffi.Bench.Sent.{Sends}
use lightway_cffi.Bench.Commits.{Receives}
use lightway_cffi.Bench.Complete.{Right, IsComplete, expected, family_of, is_session}
use lightway_cffi.Bench.Outcome.{arm-Outcome, arm_commits}
use lightway_cffi.Bench.Runner.{
  null_family, Job, Keys, fresh_rx, context, Res, record_sample, sample, samples,
}
use lightway_cffi.Bench.Run.{discard}

-- A job whose spec says of its arm what is so, and which is not hot for the session's arm.
pub record IsSound (j : Job) : Type 0 where
  pub family : j.0.family ≡ family_of j.0.name
  pub session : j.0.is_session_dec ≡ is_session j.0.name
  pub cold : is_session j.0.name && j.1 ≡ false

stable_step :
    (n x a y : ℕ) (b : Bool)
    → b ≡ true
    → (n ≡ 0) ⊎ (x ≡ y)
    → a ≡ y
    → (if n == 0 then b else b && x == a) ≡ true
stable_step n x a y b h (inl e) k = ground arith
stable_step n x a y b h (inr e) k = ground arith

acc_step : (n x a y : ℕ) → (n ≡ 0) ⊎ (x ≡ y) → a ≡ y → (if n == 0 then a else x) ≡ y
acc_step n x a y (inl e) k = ground arith
acc_step n x a y (inr e) k = ground arith

module _ (p : Providers) (keys : Keys p) (src : Src) (seed : ℕ)
    (r : Right p keys.ring_key keys.rc_key keys.cc_key src.session_id src)
    (some_slots : 0 < src.slots) (rx : State p.ring) (fresh_is : fresh_rx p keys ≡ some rx)
    (fresh : Receives p.ring keys.ring_key 0 rx) where
  abbrev pub aim : Job → ℕ
  aim j = expected p keys.ring_key keys.cc_key src.session_id src j.0.family (schedule src j.1 seed)

  -- The result of a job so far: every operation succeeded, and but for `null` the accumulator is
  -- stable and that of the family.
  pub record IsGood (j : Job) (res : Res) : Type 0 where
    pub ops : res.total_ops ≡ res.expected_ops
    pub stable : (j.0.family ≡ null_family) ⊎ (res.acc_stable ≡ true)
    pub acc : (j.0.family ≡ null_family) ⊎ ((res.total_ops ≡ 0) ⊎ (res.acc ≡ aim j))

  -- A buffer of the pool's size and a sender with the key.
  pub record IsHeld (dst : List ℕ) (tx : State p.ring) : Type 0 where
    pub size : src.slots * src.stride ≤ length dst
    pub key : Sends p.ring keys.ring_key tx

  -- The pass of a job.
  abbrev passed : Job → List ℕ → State p.ring → Pass p
  passed j dst tx = run_pass p j.0.name (context p keys src rx tx) src dst (schedule src j.1 seed)

  passed-IsComplete :
      (j : Job) (dst : List ℕ) (tx : State p.ring)
      → IsSound j
      → IsHeld dst tx
      → IsComplete p keys.ring_key keys.cc_key src.session_id src j.0.family
          (schedule src j.1 seed)
          (passed j dst tx)
  unfolding context
  passed-IsComplete j dst tx sound held =
      subst
        (λ f.
          IsComplete p keys.ring_key keys.cc_key src.session_id src f (schedule src j.1 seed)
            (passed j dst tx))
        (sym sound.family)
        (arm-Outcome p (context p keys src rx tx) src r seed dst
          (record { size = held.size; tx = held.key }) fresh j.0.name j.1 sound.cold)

  -- The arm of a job does not panic.
  passed_total :
      (j : Job) (dst : List ℕ) (tx : State p.ring)
      → IsHeld dst tx
      → run_arm p j.0.name (context p keys src rx tx) src dst (schedule src j.1 seed)
        ≡ some (passed j dst tx)
  unfolding context
  passed_total j dst tx held =
      run_arm_total p (context p keys src rx tx) src r.pool r.few dst held.size
        (schedule src j.1 seed) (schedule-Fits p src j.1 seed r.payloads) r.laws.ring_laws
        r.laws.cc_laws j.0.name

  -- The runner's assertion holds.
  passed_commits :
      (j : Job) (dst : List ℕ) (tx : State p.ring)
      → IsSound j
      → IsHeld dst tx
      → j.0.is_session_dec
          && not (packets_received (passed j dst tx).rx == (schedule src j.1 seed).n)
        ≡ false
  unfolding context
  passed_commits j dst tx sound held = elim (Bool-cases (is_session j.0.name)) [
    | inl yes' ↦ ground (
      arith,
      arm_commits p (context p keys src rx tx) src r seed dst
          (record { size = held.size; tx = held.key }) fresh j.0.name j.1 sound.cold yes',
    )
    | inr no' ↦ ground (arith, sound.session)
  ]

  slots_all : (hot : Bool) → (schedule src hot seed).n ≡ src.slots
  unfolding schedule
  slots_all hot = refl

  record_sample-IsGood :
      (j : Job) (res : Res) (t : Pass p)
      → IsGood j res
      → IsComplete p keys.ring_key keys.cc_key src.session_id src j.0.family
          (schedule src j.1 seed)
          t
      → IsGood j (record_sample res t.acc t.done (schedule src j.1 seed).n)
  unfolding record_sample
  record_sample-IsGood j res t g c = record {
    ops = omega (arith, g.ops, c.done);
    stable = stable g.stable g.acc c.acc;
    acc = acc g.acc c.acc;
  }
    where
      stable :
          (j.0.family ≡ null_family) ⊎ (res.acc_stable ≡ true)
          → (j.0.family ≡ null_family) ⊎ ((res.total_ops ≡ 0) ⊎ (res.acc ≡ aim j))
          → (j.0.family ≡ null_family) ⊎ (t.acc ≡ aim j)
          → (j.0.family ≡ null_family)
            ⊎ ((if res.total_ops == 0 then res.acc_stable else res.acc_stable && res.acc == t.acc)
                ≡ true)
      stable (inl e) h k = inl e
      stable (inr e) (inl h) k = inl h
      stable (inr e) (inr h) (inl k) = inl k
      stable (inr e) (inr h) (inr k) =
          inr (stable_step res.total_ops res.acc t.acc (aim j) res.acc_stable e h k)

      acc :
          (j.0.family ≡ null_family) ⊎ ((res.total_ops ≡ 0) ⊎ (res.acc ≡ aim j))
          → (j.0.family ≡ null_family) ⊎ (t.acc ≡ aim j)
          → (j.0.family ≡ null_family)
            ⊎ ((res.total_ops + t.done ≡ 0)
                ⊎ ((if res.total_ops == 0 then t.acc else res.acc) ≡ aim j))
      acc (inl h) k = inl h
      acc (inr h) (inl k) = inl k
      acc (inr h) (inr k) = inr (inr (acc_step res.total_ops res.acc t.acc (aim j) h k))

  -- One sample: the result stays right, and has more operations.
  sample-IsGood :
      (j : Job) (dst : List ℕ) (tx : State p.ring) (res : Res)
      → IsSound j
      → IsHeld dst tx
      → IsGood j res
      → (t : List ℕ × State p.ring × Res) × (sample p keys src
            (schedule src j.1 seed)
            j.0
            (dst, tx, res)
          ≡ some t)
        × IsHeld t.0 t.1
        × IsGood j t.2
        × (res.total_ops < t.2.total_ops)
  unfolding sample
  sample-IsGood j dst tx res sound held good =
      let c = passed-IsComplete j dst tx sound held in
      let t = passed j dst tx in
      (
        (t.dst, t.tx, record_sample res t.acc t.done (schedule src j.1 seed).n),
        rw (fresh_is, passed_total j dst tx held, passed_commits j dst tx sound held) refl,
        record { size = c.ready.size; key = c.ready.tx },
        record_sample-IsGood j res t good c,
        omega (arith, c.done, slots_all j.1),
      )

  pub discard-IsHeld :
      (j : Job) (dst : List ℕ) (tx : State p.ring)
      → IsSound j
      → IsHeld dst tx
      → (t : List ℕ × State p.ring) × (discard p keys src (schedule src j.1 seed) j.0 (dst, tx)
          ≡ some t)
        × IsHeld t.0 t.1
  unfolding discard
  discard-IsHeld j dst tx sound held =
      let c = passed-IsComplete j dst tx sound held in
      let t = passed j dst tx in
      (
        (t.dst, t.tx),
        rw (fresh_is, passed_total j dst tx held) refl,
        record { size = c.ready.size; key = c.ready.tx },
      )

  pub samples-IsGood :
      (j : Job) (n : ℕ) (dst : List ℕ) (tx : State p.ring) (res : Res)
      → IsSound j
      → IsHeld dst tx
      → IsGood j res
      → (t : List ℕ × State p.ring × Res) × (samples p keys src
            (schedule src j.1 seed)
            j.0
            n
            (dst, tx, res)
          ≡ some t)
        × IsHeld t.0 t.1
        × IsGood j t.2
        × (res.total_ops + n ≤ t.2.total_ops)
  unfolding samples
  samples-IsGood j zero dst tx res sound held good = ((dst, tx, res), refl, held, good, omega arith)
  samples-IsGood j (suc n) dst tx res sound held good =
      let (t, e, held', good', more) = sample-IsGood j dst tx res sound held good in
      let (u, e', held'', good'', more') = samples-IsGood j n t.0 t.1 t.2 sound held' good' in
      (u, rw e e', held'', good'', omega arith)
