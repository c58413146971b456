-- ===== src/Bench/Panic.antt =====
-- lightway-expresslane-bench: an `expect` that fails, an index out of bounds and a failed assertion
-- end the run, which is `none`.
use lightway_cffi.Base.{
  ℕ, ◌≤◌, ◌≡◌, refl, Option, none, some, Result, ok, err, Bool, true, false, List, length, leb,
  ◌&&◌, slice, write_at,
}
use lightway_cffi.Base.Slices.{leb-true}

infixl 5 ◌>>=◌
abbrev pub ◌>>=◌ {ℓ κ} : {A : Type ℓ} {B : Type κ} → Option A → (A → Option B) → Option B
none >>= f = none
some a >>= f = f a

abbrev pub expect {ℓ κ} : {A : Type ℓ} {E : Type κ} → Result A E → Option A
expect (ok a) = some a
expect (err e) = none

-- What comes after indexes of which it is known whether they are in bounds.
abbrev pub guarded {ℓ} : {A : Type ℓ} → Bool → Option A → Option A
guarded true o = o
guarded false o = none

-- `buffer[from..to]`.
unfoldable pub index : List ℕ → ℕ → ℕ → Option (List ℕ)
index buffer from to = guarded (leb from to && leb to (length buffer)) (some (slice buffer from to))

-- `&mut buffer[from..to]`: the bytes, and the buffer once they are others.
unfoldable pub index_mut : List ℕ → ℕ → ℕ → Option (List ℕ × (List ℕ → List ℕ))
index_mut buffer from to =
    guarded (leb from to && leb to (length buffer))
      (some (slice buffer from to, write_at buffer from))

pub index_in :
    (buffer : List ℕ) (from to : ℕ)
    → from ≤ to
    → to ≤ length buffer
    → index buffer from to ≡ some (slice buffer from to)
unfolding index
index_in buffer from to h k = rw (leb-true from to h, leb-true to (length buffer) k) refl

pub index_mut_in :
    (buffer : List ℕ) (from to : ℕ)
    → from ≤ to
    → to ≤ length buffer
    → index_mut buffer from to ≡ some (slice buffer from to, write_at buffer from)
unfolding index_mut
index_mut_in buffer from to h k = rw (leb-true from to h, leb-true to (length buffer) k) refl
