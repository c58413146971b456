-- ===== src/Timer/Schedule.antt =====
-- The host's one timer is always set for the earliest tick.
use lightway_cffi.Base.{
  ℕ, ◌+◌, ◌≤◌, ◌≡◌, refl, sym, ap, ◌∙◌, min, Bool, true, false, ◌||◌, Option, none, some, List, [],
  ◌∷◌, ◌++◌, arith, ◌==◌, if◌then◌else◌, is_some, Bool-cases, Option-cases, inl, inr,
}
use lightway_cffi.Timer.{
  TickType, connection_tick, payload_tick, CffiAppState, min_or, merge, unwrap_or, earliest_pending,
  earliest_tick_deadline, record_tick, cffi_schedule_tick_cb, deadline_to_timeout_ms,
}

-- Does the state hold a tick that is due at the deadline?
abbrev pub holds_pending : {P : Type 0} → ℕ → List (ℕ × P) → Bool
holds_pending t [] = false
holds_pending t ((u, p) ∷ ticks) = t == u || holds_pending t ticks

abbrev pub holds_next : ℕ → Option ℕ → Bool
holds_next t none = false
holds_next t (some u) = t == u

min_or_assoc : (x y z : Option ℕ) → min_or x (min_or y z) ≡ min_or (min_or x y) z
min_or_assoc none y z = refl
min_or_assoc (some x) none z = refl
min_or_assoc (some x) (some y) none = refl
min_or_assoc (some x) (some y) (some z) = ap some (omega arith)

min_or_comm : (x y : Option ℕ) → min_or x y ≡ min_or y x
min_or_comm none none = refl
min_or_comm none (some y) = refl
min_or_comm (some x) none = refl
min_or_comm (some x) (some y) = ap some (omega arith)

merge-min : (o : Option ℕ) (d : ℕ) → some (merge o d) ≡ min_or (some d) o
merge-min none d = refl
merge-min (some x) d = ground arith

min_or_left : (u t : ℕ) (o : Option ℕ) → u ≤ t → (e : ℕ) × (min_or (some u) o ≡ some e) × (e ≤ t)
min_or_left u t none h = (u, refl, h)
min_or_left u t (some v) h = (min u v, refl, omega arith)

min_or_right :
    (t : ℕ) (o r : Option ℕ)
    → (e : ℕ) × (r ≡ some e) × (e ≤ t)
    → (e : ℕ) × (min_or o r ≡ some e) × (e ≤ t)
min_or_right t none r h = h
min_or_right t (some v) r (e, q, le) = (min v e, ap (min_or (some v)) q, omega arith)

module _ {P : Type 0} where
  earliest_pending_snoc :
      (ticks : List (ℕ × P)) (d : ℕ) (p : P)
      → earliest_pending (ticks ++ (d, p) ∷ []) ≡ min_or (earliest_pending ticks) (some d)
  unfolding earliest_pending
  earliest_pending_snoc [] d p = refl
  earliest_pending_snoc ((t, q) ∷ ticks) d p =
      ap (min_or (some t)) (earliest_pending_snoc ticks d p)
      ∙ min_or_assoc (some t) (earliest_pending ticks) (some d)

  -- Recording a tick of either kind makes its deadline one of those that the earliest is taken of,
  -- and loses no other.
  earliest_tick_deadline-record_tick :
      (deadline : ℕ) (s : CffiAppState P) (t : TickType P)
      → earliest_tick_deadline (record_tick deadline s t)
        ≡ min_or (some deadline) (earliest_tick_deadline s)
  unfolding earliest_tick_deadline record_tick
  earliest_tick_deadline-record_tick deadline s connection_tick =
      ap (λ o. min_or o (earliest_pending s.pending_ticks)) (merge-min s.next_tick deadline)
      ∙ sym (min_or_assoc (some deadline) s.next_tick (earliest_pending s.pending_ticks))
  earliest_tick_deadline-record_tick deadline s (payload_tick p) =
      ap (min_or s.next_tick) (earliest_pending_snoc s.pending_ticks deadline p)
      ∙ min_or_assoc s.next_tick (earliest_pending s.pending_ticks) (some deadline)
      ∙ min_or_comm _ (some deadline)

  callback_kept :
      (deadline : ℕ) (s : CffiAppState P) (t : TickType P)
      → (record_tick deadline s t).nudge_time_cb ≡ s.nudge_time_cb
  unfolding record_tick
  callback_kept deadline s connection_tick = refl
  callback_kept deadline s (payload_tick p) = refl

  -- Whatever tick is scheduled, a host with a callback is told the time to the earliest of all
  -- deadlines, the new one and those that the state holds.
  pub cffi_schedule_tick_cb_earliest :
      (now d : ℕ) (s : CffiAppState P) (t : TickType P)
      → (cffi_schedule_tick_cb now d s t).1 ≡ (
          if is_some s.nudge_time_cb
          then some (
              deadline_to_timeout_ms
                (unwrap_or (min_or (some (now + d)) (earliest_tick_deadline s)) (now + d))
                now)
          else none)
  unfolding cffi_schedule_tick_cb
  cffi_schedule_tick_cb_earliest now d s t =
      ap
        (λ b.
          if is_some b
          then some (
              deadline_to_timeout_ms
                (unwrap_or (earliest_tick_deadline (record_tick (now + d) s t)) (now + d)) now)
          else none)
        (callback_kept (now + d) s t)
      ∙ ap
          (λ e.
            if is_some s.nudge_time_cb
            then some (deadline_to_timeout_ms (unwrap_or e (now + d)) now)
            else none)
          (earliest_tick_deadline-record_tick (now + d) s t)

  earliest_pending_le :
      (ticks : List (ℕ × P)) (t : ℕ)
      → holds_pending t ticks ≡ true
      → (e : ℕ) × (earliest_pending ticks ≡ some e) × (e ≤ t)
  unfolding earliest_pending
  earliest_pending_le [] t h = absurd (grind arith)
  earliest_pending_le ((u, p) ∷ ticks) t h = elim (Bool-cases (t == u)) [
    | inl same ↦ min_or_left u t (earliest_pending ticks) (ground arith)
    | inr other ↦
        min_or_right t (some u) (earliest_pending ticks)
          (earliest_pending_le ticks t (ground arith))
  ]

  -- No tick that the state holds is due before the earliest deadline.
  earliest_tick_deadline_le :
      (s : CffiAppState P) (t : ℕ)
      → (holds_next t s.next_tick || holds_pending t s.pending_ticks) ≡ true
      → (e : ℕ) × (earliest_tick_deadline s ≡ some e) × (e ≤ t)
  unfolding earliest_tick_deadline
  earliest_tick_deadline_le s t h = elim (Option-cases s.next_tick) [
    | inl no_next ↦
        min_or_right t s.next_tick _ (earliest_pending_le s.pending_ticks t (ground arith))
    | inr (u, next) ↦ elim (Bool-cases (t == u)) [
      | inl same ↦ rw next (min_or_left u t (earliest_pending s.pending_ticks) (ground arith))
      | inr other ↦
          min_or_right t s.next_tick _ (earliest_pending_le s.pending_ticks t (ground arith))
    ]
  ]
