-- ===== src/Bench/Gates.antt =====
-- lightway-expresslane-bench/src/main.rs: the rounds of a run, and what they keep.
use lightway_cffi.Base.{
  ℕ, zero, suc, ◌+◌, ◌*◌, ◌≤◌, ◌<◌, ◌≡◌, inl, inr, refl, sym, ap, ◌∙◌, subst, true, some, List, [],
  ◌∷◌, arith, ◌==◌, if◌then◌else◌, Bool-cases, length, length-set, set,
}
use lightway_cffi.Session.{State}
use lightway_cffi.Bench.Pool.{Src}
use lightway_cffi.Bench.Arms.{Providers}
use lightway_cffi.Bench.Commits.{Receives}
use lightway_cffi.Bench.Complete.{Right}
use lightway_cffi.Bench.Runner.{Job, next_order, Keys, fresh_rx}
use lightway_cffi.Bench.Run.{Entry, at, Bench, visit_entry, visit, visits, rounds, calibrate}
use lightway_cffi.Bench.Entries.{
  All, All-at, All-set, at-some, at-set_self, at-set_ne, times, times-next_order, All-next_order,
}
use lightway_cffi.Bench.Sampled.{IsSound, IsGood, IsHeld, discard-IsHeld, samples-IsGood}

some-injective : {A : Type 0} {x y : A} → some x ≡ some y → x ≡ y
some-injective {A} {x} {y} e = grind arith

-- An entry that is replaced by one with more operations.
set_grows :
    (xs : List Entry) (j : ℕ) (e v : Entry)
    → at xs j ≡ some e
    → j < length xs
    → e.1.total_ops + 1 ≤ v.1.total_ops
    → (i : ℕ) (e' : Entry) → at (set xs j v) i ≡ some e'
    → (e0 : Entry) × (at xs i ≡ some e0)
      × (e0.1.total_ops + (if j == i then 1 else 0) ≤ e'.1.total_ops)
set_grows xs j e v he h more i e' k = elim (Bool-cases (j == i)) [
  | inl same ↦ (
    e,
    ap (at xs) (sym (eq same)) ∙ he,
    rw same (subst (λ t. e.1.total_ops + 1 ≤ t.1.total_ops) (new same) more),
  )
  | inr other ↦ (e', sym (at-set_ne xs j i v other) ∙ k, rw other (omega arith))
]
  where
    eq : (j == i) ≡ true → j ≡ i
    eq same = ground arith

    new : (j == i) ≡ true → v ≡ e'
    new same = some-injective (sym (at-set_self xs j v h) ∙ ap (at (set xs j v)) (eq same) ∙ k)

module _ (p : Providers) (keys : Keys p) (src : Src) (seed : ℕ)
    (r : Right p keys.ring_key keys.rc_key keys.cc_key src.session_id src)
    (some_slots : 0 < src.slots) (rx : State p.ring) (fresh_is : fresh_rx p keys ≡ some rx)
    (fresh : Receives p.ring keys.ring_key 0 rx) (counts : ℕ → ℕ)
    (each_counts : (i : ℕ) → 0 < counts i) where
  abbrev Held : List ℕ → State p.ring → Type 0
  Held = IsHeld p keys src seed r some_slots rx fresh_is fresh

  abbrev pub Good : Entry → Type 0
  Good (j, res) = IsSound j × IsGood p keys src seed r some_slots rx fresh_is fresh j res

  -- A run so far.
  pub record IsRun (b : Bench p) : Type 0 where
    pub held : Held b.dst b.tx
    pub good : All Good b.results

  -- Each entry has gained as many operations as `f` says, at least.
  abbrev Grows : (ℕ → ℕ) → Bench p → Bench p → Type 0
  Grows f b b' =
      (i : ℕ) (e' : Entry)
      → at b'.results i ≡ some e'
      → (e : Entry) × (at b.results i ≡ some e) × (e.1.total_ops + f i ≤ e'.1.total_ops)

  visit-IsRun :
      (j : ℕ) (b : Bench p)
      → IsRun b
      → j < length b.results
      → (b' : Bench p) × (visit p keys src seed counts j b ≡ some b')
        × IsRun b'
        × (length b'.results ≡ length b.results)
        × Grows (λ i. if j == i then 1 else 0) b b'
  unfolding visit visit_entry
  visit-IsRun j b run h =
      let (e, he) = at-some b.results j h in
      let g = All-at Good b.results j e run.good he in
      let (one, e1, h1) =
        discard-IsHeld p keys src seed r some_slots rx fresh_is fresh e.0 b.dst b.tx g.0 run.held in
      let (two, e2, h2) =
        discard-IsHeld p keys src seed r some_slots rx fresh_is fresh e.0 one.0 one.1 g.0 h1 in
      let (t, e3, h3, g3, more) =
        samples-IsGood p keys src seed r some_slots rx fresh_is fresh e.0 (counts j) two.0 two.1 e.1
          g.0 h2 g.1 in
      (
        record { dst = t.0; tx = t.1; results = set b.results j (e.0, t.2) },
        rw (he, e1, e2, e3) refl,
        record { held = h3; good = All-set Good b.results j (e.0, t.2) run.good (g.0, g3) },
        length-set b.results j (e.0, t.2),
        set_grows b.results j e (e.0, t.2) he h (omega (arith, each_counts j)),
      )

  visits-IsRun :
      (order : List ℕ) (b : Bench p)
      → IsRun b
      → All (λ j. j < length b.results) order
      → (b' : Bench p) × (visits p keys src seed counts order b ≡ some b')
        × IsRun b'
        × (length b'.results ≡ length b.results)
        × Grows (times order) b b'
  unfolding visits
  visits-IsRun [] b run h = (b, refl, run, refl, λ i e' k. (e', k, omega arith))
  visits-IsRun (j ∷ order) b run h =
      let (b1, e1, run1, len1, grow1) = visit-IsRun j b run h.0 in
      let (b2, e2, run2, len2, grow2) =
        visits-IsRun order b1 run1 (subst (λ n. All (λ j. j < n) order) (sym len1) h.1) in
      (
        b2,
        rw e1 e2,
        run2,
        len2 ∙ len1,
        λ i e' k.
            let (ea, ka, ga) = grow2 i e' k in
            let (eb, kb, gb) = grow1 i ea ka in (eb, kb, omega (arith, ga, gb)),
      )

  pub rounds-IsRun :
      (left round : ℕ) (order : List ℕ) (b : Bench p)
      → IsRun b
      → All (λ j. j < length b.results) order
      → (b' : Bench p) × (rounds p keys src seed counts left round order b ≡ some b')
        × IsRun b'
        × (length b'.results ≡ length b.results)
        × Grows (λ i. left * times order i) b b'
  unfolding rounds
  rounds-IsRun zero round order b run h = (b, refl, run, refl, λ i e' k. (e', k, omega arith))
  rounds-IsRun (suc left) round order b run h =
      let order' = next_order round order in
      let (b1, e1, run1, len1, grow1) =
        visits-IsRun order' b run (All-next_order round order (λ j. j < length b.results) h) in
      let (b2, e2, run2, len2, grow2) = rounds-IsRun left (round + 1) order' b1 run1 (
        subst (λ n. All (λ j. j < n) order') (sym len1)
          (All-next_order round order (λ j. j < length b.results) h)) in
      (
        b2,
        rw e1 e2,
        run2,
        len2 ∙ len1,
        λ i e' k.
            let (ea, ka, ga) = grow2 i e' k in
            let (eb, kb, gb) = grow1 i ea ka in
            (
              eb,
              kb,
              together left eb.1.total_ops ea.1.total_ops e'.1.total_ops _ _
                  (times-next_order round order i) gb ga,
            ),
      )
    where
      together : (n x y z t t' : ℕ) → t' ≡ t → x + t' ≤ y → y + n * t' ≤ z → x + suc n * t ≤ z
      together n x y z t t' e h k = grind arith

  pub calibrate-IsHeld :
      (jobs : List Job) (dst : List ℕ) (tx : State p.ring)
      → All IsSound jobs
      → Held dst tx
      → (t : List ℕ × State p.ring) × (calibrate p keys src seed jobs (dst, tx) ≡ some t)
        × Held t.0 t.1
  unfolding calibrate
  calibrate-IsHeld [] dst tx sound held = ((dst, tx), refl, held)
  calibrate-IsHeld (j ∷ jobs) dst tx sound held =
      let (one, e, held') =
        discard-IsHeld p keys src seed r some_slots rx fresh_is fresh j dst tx sound.0 held in
      let (t, e', held'') = calibrate-IsHeld jobs one.0 one.1 sound.1 held' in (t, rw e e', held'')
