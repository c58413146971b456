-- ===== src/Replay/History.antt =====
-- What replay protection promises, with no ring: the list of accepted counters, newest first. A
-- counter is accepted if it is above all of them, or less than `window_size` below the highest
-- and not among them.
use lightway_cffi.Base.{
  ℕ, ◌-◌, ◌≤◌, ◌<◌, max, ◌≡◌, refl, Bool, true, false, not, ◌&&◌, ◌||◌, List, [], ◌∷◌, arith, ltb,
  ◌==◌, if◌then◌else◌,
}
use lightway_cffi.Replay.{window_size}

abbrev pub contains : List ℕ → ℕ → Bool
contains [] c = false
contains (x ∷ xs) c = x == c || contains xs c

abbrev pub highest : List ℕ → ℕ
highest [] = 0
highest (x ∷ xs) = max x (highest xs)

abbrev pub is_empty : List ℕ → Bool
is_empty [] = true
is_empty (x ∷ xs) = false

unfoldable pub accepts : List ℕ → ℕ → Bool
accepts history c =
    is_empty history
    || ltb (highest history) c
    || (ltb (highest history - c) window_size && not (contains history c))

unfoldable pub record_accept : List ℕ → ℕ → List ℕ × Bool
record_accept history c = if accepts history c then (c ∷ history, true) else (history, false)

pub contains-le-highest :
    (history : List ℕ) (c : ℕ) → contains history c ≡ true → c ≤ highest history
contains-le-highest [] c h = ground arith
contains-le-highest (x ∷ xs) c h = ground (arith, contains-le-highest xs c)

pub not-contains-above :
    (history : List ℕ) (c : ℕ) → highest history < c → contains history c ≡ false
not-contains-above [] c h = refl
not-contains-above (x ∷ xs) c h = ground (arith, not-contains-above xs c)
