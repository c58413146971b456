-- ===== src/Bench/Entries.antt =====
-- lightway-expresslane-bench/src/main.rs: the order of the jobs in a round, and their entries.
use lightway_cffi.Base.{
  ℕ, zero, suc, ◌+◌, ◌%◌, ◌≤◌, ◌<◌, max, ◌≡◌, refl, ap, subst, false, some, List, [], ◌∷◌, ◌++◌,
  ◌==◌, if◌then◌else◌, arith, Bool-cases, inl, inr, length, take, drop, set, take-append-drop,
}
use lightway_cffi.Bench.Runner.{backwards, next_order, rotate_left}
use lightway_cffi.Bench.Run.{at, indexes}

module _ {ℓ κ} {A : Type ℓ} (P : A → Type κ) where
  abbrev pub All : List A → Type κ
  All [] = Unit
  All (x ∷ xs) = P x × All xs

  All-append : (xs ys : List A) → All xs → All ys → All (xs ++ ys)
  All-append [] ys h k = k
  All-append (x ∷ xs) ys h k = (h.0, All-append xs ys h.1 k)

  All-take : (n : ℕ) (xs : List A) → All xs → All (take n xs)
  All-take zero xs h = tt
  All-take (suc n) [] h = tt
  All-take (suc n) (x ∷ xs) h = (h.0, All-take n xs h.1)

  All-drop : (n : ℕ) (xs : List A) → All xs → All (drop n xs)
  All-drop zero xs h = h
  All-drop (suc n) [] h = tt
  All-drop (suc n) (x ∷ xs) h = All-drop n xs h.1

  All-backwards : (acc xs : List A) → All acc → All xs → All (backwards acc xs)
  unfolding backwards
  All-backwards acc [] h k = h
  All-backwards acc (x ∷ xs) h k = All-backwards (x ∷ acc) xs (k.0, h) k.1

  pub All-at : (xs : List A) (i : ℕ) (x : A) → All xs → at xs i ≡ some x → P x
  All-at [] i x h e = cc
  All-at (y ∷ ys) zero x h e = subst P (some-injective e) h.0
    where
      some-injective : some y ≡ some x → y ≡ x
      some-injective e = grind arith
  All-at (y ∷ ys) (suc i) x h e = All-at ys i x h.1 e

  pub All-set : (xs : List A) (i : ℕ) (x : A) → All xs → P x → All (set xs i x)
  All-set [] i x h k = tt
  All-set (y ∷ ys) zero x h k = (k, h.1)
  All-set (y ∷ ys) (suc i) x h k = (h.0, All-set ys i x h.1 k)

module _ {ℓ} {A : Type ℓ} where
  pub at-some : (xs : List A) (i : ℕ) → i < length xs → (x : A) × (at xs i ≡ some x)
  at-some [] i h = absurd (omega arith)
  at-some (x ∷ xs) zero h = (x, refl)
  at-some (x ∷ xs) (suc i) h = at-some xs i (omega arith)

  pub at-set_self : (xs : List A) (i : ℕ) (x : A) → i < length xs → at (set xs i x) i ≡ some x
  at-set_self [] i x h = absurd (omega arith)
  at-set_self (y ∷ ys) zero x h = refl
  at-set_self (y ∷ ys) (suc i) x h = at-set_self ys i x (omega arith)

  pub at-set_ne : (xs : List A) (i j : ℕ) (x : A) → (i == j) ≡ false → at (set xs i x) j ≡ at xs j
  at-set_ne [] i j x h = refl
  at-set_ne (y ∷ ys) zero zero x h = absurd (ground arith)
  at-set_ne (y ∷ ys) zero (suc j) x h = refl
  at-set_ne (y ∷ ys) (suc i) zero x h = refl
  at-set_ne (y ∷ ys) (suc i) (suc j) x h = at-set_ne ys i j x (ground arith)

-- How often an order visits a job.
abbrev pub times : List ℕ → ℕ → ℕ
times [] j = 0
times (i ∷ order) j = (if i == j then 1 else 0) + times order j

times-append : (xs ys : List ℕ) (j : ℕ) → times (xs ++ ys) j ≡ times xs j + times ys j
times-append [] ys j = omega arith
times-append (x ∷ xs) ys j = omega (arith, times-append xs ys j)

times-rotate_left : (n : ℕ) (xs : List ℕ) (j : ℕ) → times (rotate_left n xs) j ≡ times xs j
times-rotate_left n xs j = omega (
  arith,
  times-append (drop n xs) (take n xs) j,
  times-append (take n xs) (drop n xs) j,
  ap (λ t. times t j) (take-append-drop n xs),
)

times-backwards : (acc xs : List ℕ) (j : ℕ) → times (backwards acc xs) j ≡ times xs j + times acc j
unfolding backwards
times-backwards acc [] j = omega arith
times-backwards acc (x ∷ xs) j = omega (arith, times-backwards (x ∷ acc) xs j)

module _ (round : ℕ) (order : List ℕ) where
  abbrev turned : List ℕ
  turned = rotate_left (round % max (length order) 1) order

  times-turned : (j : ℕ) → times turned j ≡ times order j
  times-turned j = times-rotate_left (round % max (length order) 1) order j

  -- The order of a round visits each job as often as that of the round before.
  pub times-next_order : (j : ℕ) → times (next_order round order) j ≡ times order j
  unfolding next_order
  times-next_order j = elim (Bool-cases (round % 2 == 1)) [
    | inl odd ↦ rw odd (omega (arith, times-backwards [] turned j, times-turned j))
    | inr even ↦ rw even (times-turned j)
  ]

  pub All-next_order {κ} : (P : ℕ → Type κ) → All P order → All P (next_order round order)
  unfolding next_order
  All-next_order P h = elim (Bool-cases (round % 2 == 1)) [
    | inl odd ↦ rw odd (All-backwards P [] turned tt all)
    | inr even ↦ rw even all
  ]
    where
      all : All P turned
      all =
          All-append P (drop (round % max (length order) 1) order)
            (take (round % max (length order) 1) order) (All-drop P _ order h)
            (All-take P _ order h)

pub indexes-below : (n i m : ℕ) → i + n ≤ m → All (λ j. j < m) (indexes n i)
indexes-below zero i m h = tt
indexes-below (suc n) i m h = (omega arith, indexes-below n (i + 1) m (omega arith))

times_before : (n i j : ℕ) → j < i → times (indexes n i) j ≡ 0
times_before zero i j h = refl
times_before (suc n) i j h = ground (arith, times_before n (i + 1) j)

pub times-indexes : (n i j : ℕ) → i ≤ j → j < i + n → times (indexes n i) j ≡ 1
times-indexes zero i j h k = absurd (omega arith)
times-indexes (suc n) i j h k = ground (arith, times-indexes n (i + 1) j, times_before n (i + 1) j)
