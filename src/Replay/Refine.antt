-- ===== src/Replay/Refine.antt =====
-- The ring implements the history.
use lightway_cffi.Base.{
  ℕ, ◌+◌, ◌-◌, ◌%◌, ◌≤◌, ◌<◌, ◌≡◌, refl, true, false, not, List, [], ◌∷◌, arith, ltb, leb,
  if◌then◌else◌, set, length, length-set, u64_mod, Bool-cases, inl, inr,
}
use lightway_cffi.Replay.{
  ReplayWindow, num_blocks, window_size, cleared, default, mark, advance, commit, ring_index,
  bit_of,
}
use lightway_cffi.Replay.Ring.{
  slot, is_marked-slot, slot-mark, slot-cleared, length-cleared, slot-first, length-mark,
}
use lightway_cffi.Replay.Clear.{length-clear_range, slot-clear_range, ring_distance}
use lightway_cffi.Replay.History.{
  contains, highest, is_empty, accepts, record_accept, not-contains-above,
}

-- Inside the window every slot tells whether its counter was accepted.
abbrev pub Marks : List ℕ → ℕ → List ℕ → Type 0
Marks bitmap top history =
    (c : ℕ)
    → c ≤ top
    → top - c < window_size
    → slot bitmap c ≡ (if contains history c then 1 else 0)

pub record Tracks (w : ReplayWindow) (history : List ℕ) : Type 0 where
  pub whole : length w.bitmap ≡ num_blocks
  pub started : w.initialized ≡ not (is_empty history)
  pub top : w.max_counter ≡ highest history
  pub counted : w.packets_received ≡ length history % u64_mod
  pub marks : w.initialized ≡ true → Marks w.bitmap w.max_counter history

pub default-Tracks : Tracks default []
unfolding default
default-Tracks = record {
  whole = length-cleared;
  started = refl;
  top = refl;
  counted = refl;
  marks = λ h. ground arith;
}

length-advance :
    (bitmap : List ℕ) (old new : ℕ)
    → length bitmap ≡ num_blocks
    → length (advance bitmap old new) ≡ num_blocks
unfolding advance
length-advance bitmap old new h =
    ground (arith, length-cleared, length-clear_range bitmap (old + 1) (new - 1))

-- Half (b) of the ring's aliasing invariant: after the advance the slots of the counters that the
-- window gains are clear, and those that it keeps are as before.
pub slot-advance :
    (bitmap : List ℕ) (old new c : ℕ)
    → length bitmap ≡ num_blocks
    → old < new
    → c < new
    → new - c < window_size
    → slot (advance bitmap old new) c ≡ (if ltb old c then 0 else slot bitmap c)
unfolding advance
slot-advance bitmap old new c whole lt below near =
    ground (arith, slot-cleared c, slot-clear_range bitmap (old + 1) (new - 1) c whole, skipped)
  where
    skipped :
        new - old < window_size
        → 1 < new - old
        → leb (ring_distance (old + 1) c) (new - 1 - (old + 1)) ≡ ltb old c
    skipped span more = ground arith

Marks-advance :
    (bitmap : List ℕ) (old new : ℕ) (history : List ℕ)
    → length bitmap ≡ num_blocks
    → old ≡ highest history
    → old < new
    → Marks bitmap old history
    → Marks (mark (advance bitmap old new) new) new (new ∷ history)
Marks-advance bitmap old new history whole top lt marks c le near = ground (
  arith,
  slot-mark (advance bitmap old new) new c (length-advance bitmap old new whole),
  slot-advance bitmap old new c whole lt,
  marks c,
  not-contains-above history c,
)

Marks-mark :
    (bitmap : List ℕ) (top new : ℕ) (history : List ℕ)
    → length bitmap ≡ num_blocks
    → new ≤ top
    → top - new < window_size
    → Marks bitmap top history
    → Marks (mark bitmap new) top (new ∷ history)
Marks-mark bitmap top new history whole below inside marks c le near =
    ground (arith, slot-mark bitmap new c whole, marks c)

Marks-first : (c : ℕ) → Marks (set cleared (ring_index c) (bit_of c)) c (c ∷ [])
Marks-first c d le near = ground (arith, slot-first c d)

commit-whole :
    (w : ReplayWindow) (c : ℕ)
    → length w.bitmap ≡ num_blocks
    → length (commit w c).0.bitmap ≡ num_blocks
unfolding commit
commit-whole w c h = ground (
  arith,
  length-cleared,
  length-set cleared (ring_index c) (bit_of c),
  length-mark w.bitmap c,
  length-mark (advance w.bitmap w.max_counter c) c,
  length-advance w.bitmap w.max_counter c,
)

contains_empty : (history : List ℕ) (d : ℕ) → is_empty history ≡ true → contains history d ≡ false
contains_empty [] d h = refl
contains_empty (x ∷ xs) d h = cc

length_empty : (history : List ℕ) → is_empty history ≡ true → length history ≡ 0
length_empty [] h = refl
length_empty (x ∷ xs) h = cc

highest_empty : (history : List ℕ) → is_empty history ≡ true → highest history ≡ 0
highest_empty [] h = refl
highest_empty (x ∷ xs) h = cc

module _ (w : ReplayWindow) (history : List ℕ) (c : ℕ) (t : Tracks w history) where
  commit_decides : (commit w c).1 ≡ accepts history c
  unfolding commit accepts
  commit_decides =
      let seen : w.initialized ≡ true
          → c ≤ w.max_counter
          → w.max_counter - c < window_size
          → slot w.bitmap c ≡ (if contains history c then 1 else 0) =
        λ h. t.marks h c in
      ground (arith, t.started, t.top, seen, is_marked-slot w.bitmap c)

  commit-Marks_first :
      w.initialized ≡ false
      → Marks (commit w c).0.bitmap (commit w c).0.max_counter (record_accept history c).0
  unfolding commit record_accept accepts
  commit-Marks_first h d le near =
      ground (arith, t.started, Marks-first c d, contains_empty history d)

  commit-Marks_next :
      w.initialized ≡ true
      → Marks (commit w c).0.bitmap (commit w c).0.max_counter (record_accept history c).0
  unfolding commit record_accept
  commit-Marks_next h d le near =
      let marks : Marks w.bitmap w.max_counter history = t.marks h in
      let above : w.max_counter < c
          → Marks (mark (advance w.bitmap w.max_counter c) c) c (c ∷ history) =
        λ lt. Marks-advance w.bitmap w.max_counter c history t.whole t.top lt marks in
      let below : c ≤ w.max_counter
          → w.max_counter - c < window_size
          → Marks (mark w.bitmap c) w.max_counter (c ∷ history) =
        λ le near. Marks-mark w.bitmap w.max_counter c history t.whole le near marks in
      ground (
        arith,
        commit_decides,
        marks d,
        (λ (lt : w.max_counter < c). above lt d),
        (λ (le' : c ≤ w.max_counter) (near' : w.max_counter - c < window_size). below le' near' d),
      )

  -- The ring and the history decide alike, and stay related.
  pub commit-Tracks :
      Tracks (commit w c).0 (record_accept history c).0
      × ((commit w c).1 ≡ (record_accept history c).1)
  unfolding commit record_accept accepts
  commit-Tracks = (
    record {
      whole = commit-whole w c t.whole;
      started = ground (arith, t.started, commit_decides);
      top = ground (arith, t.started, t.top, commit_decides, highest_empty history);
      counted = ground (arith, t.started, t.counted, commit_decides, length_empty history);
      marks = λ _. elim (Bool-cases w.initialized) [
        | inl old ↦ commit-Marks_next old
        | inr new ↦ commit-Marks_first new
      ];
    },
    ground (arith, commit_decides),
  )
