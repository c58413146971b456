-- ===== src/Base/Slices.antt =====
-- Slices of a buffer after a write: of the bytes written, before them and behind them.
use Prim.Native.Nat.{ℕ, zero, suc, ◌+◌, ◌-◌, ◌≤◌, ◌<◌}
use mathlib.Core.Path.{◌≡◌, refl, ap, ◌∙◌}
use mathlib.Core.List.{List, [], ◌∷◌, ◌++◌}
use native.Mathlib.Omega.{arith}
use lightway_cffi.Base.Lists.{length, length-append, take, drop}
use mathlib.Core.Bool.{true}
use lightway_cffi.Base.Tests.{ltb, leb}
use lightway_cffi.Base.Bytes.{
  slice, write_at, take-length-append, drop-length-append, length-take, length-drop, drop_behind,
  drop-drop,
}

module _ {ℓ} {A : Type ℓ} where
  pub length-slice :
      (buf : List A) (lo hi : ℕ) → lo ≤ hi → hi ≤ length buf → length (slice buf lo hi) ≡ hi - lo
  length-slice buf lo hi h k =
      omega (arith, length-take (hi - lo) (drop lo buf), length-drop lo buf)

  pub drop_all : (n : ℕ) (xs : List A) → length xs ≤ n → drop n xs ≡ []
  drop_all zero [] h = refl
  drop_all zero (x ∷ xs) h = absurd (omega arith)
  drop_all (suc n) [] h = refl
  drop_all (suc n) (x ∷ xs) h = drop_all n xs (omega arith)

  slice_start :
      (n at : ℕ) (buf tail : List A)
      → n ≤ at
      → at ≤ length buf
      → take n (take at buf ++ tail) ≡ take n buf
  slice_start zero at buf tail h k = refl
  slice_start (suc n) zero buf tail h k = absurd (omega arith)
  slice_start (suc n) (suc at) [] tail h k = absurd (omega arith)
  slice_start (suc n) (suc at) (x ∷ buf) tail h k =
      ap (◌∷◌ x) (slice_start n at buf tail (omega arith) (omega arith))

  slice_prefix :
      (lo n at : ℕ) (buf tail : List A)
      → lo + n ≤ at
      → at ≤ length buf
      → take n (drop lo (take at buf ++ tail)) ≡ take n (drop lo buf)
  slice_prefix zero n at buf tail h k = slice_start n at buf tail (omega arith) k
  slice_prefix (suc lo) n zero buf tail h k = absurd (omega arith)
  slice_prefix (suc lo) n (suc at) [] tail h k = absurd (omega arith)
  slice_prefix (suc lo) n (suc at) (x ∷ buf) tail h k =
      slice_prefix lo n at buf tail (omega arith) (omega arith)

  pub slice-write_at_before :
      (buf src : List A) (at lo hi : ℕ)
      → lo ≤ hi
      → hi ≤ at
      → at ≤ length buf
      → slice (write_at buf at src) lo hi ≡ slice buf lo hi
  unfolding write_at
  slice-write_at_before buf src at lo hi h k l = slice_prefix lo (hi - lo) at buf _ (omega arith) l

  drop-write_at :
      (buf src : List A) (at lo : ℕ)
      → at + length src ≤ lo
      → at ≤ length buf
      → drop lo (write_at buf at src) ≡ drop lo buf
  unfolding write_at
  drop-write_at buf src at lo h l =
      drop_behind (take at buf) _ lo (lo - at) (omega (arith, length-take at buf))
      ∙ drop_behind src _ (lo - at) (lo - at - length src) (omega arith)
      ∙ drop-drop (at + length src) (lo - at - length src) lo buf (omega arith)

  pub slice-write_at_behind :
      (buf src : List A) (at lo hi : ℕ)
      → at + length src ≤ lo
      → at ≤ length buf
      → slice (write_at buf at src) lo hi ≡ slice buf lo hi
  slice-write_at_behind buf src at lo hi h l = ap (take (hi - lo)) (drop-write_at buf src at lo h l)

  pub slice-write_at_self :
      (buf src : List A) (at hi : ℕ)
      → hi ≡ at + length src
      → at ≤ length buf
      → slice (write_at buf at src) at hi ≡ src
  unfolding write_at
  slice-write_at_self buf src at hi h l =
      ap (take (hi - at))
        (drop-length-append (take at buf) _ at (omega (arith, length-take at buf)))
      ∙ take-length-append src _ (hi - at) (omega arith)

  take-take : (m n : ℕ) (xs : List A) → m ≤ n → take m (take n xs) ≡ take m xs
  take-take zero n xs h = refl
  take-take (suc m) zero xs h = absurd (omega arith)
  take-take (suc m) (suc n) [] h = refl
  take-take (suc m) (suc n) (x ∷ xs) h = ap (◌∷◌ x) (take-take m n xs (omega arith))

  take-nil : (k : ℕ) → ◌≡◌ {A = List A} [] (take k [])
  take-nil zero = refl
  take-nil (suc k) = refl

  drop-take : (m n : ℕ) (xs : List A) → drop m (take n xs) ≡ take (n - m) (drop m xs)
  drop-take zero n xs = ap (λ k. take k xs) {y = n - zero} (omega arith)
  drop-take (suc m) zero [] = ap (λ k. take k []) {x = 0} {y = 0 - suc m} (omega arith)
  drop-take (suc m) zero (x ∷ xs) =
      ap (λ k. take k (drop m xs)) {x = 0} {y = 0 - suc m} (omega arith)
  drop-take (suc m) (suc n) [] = take-nil (suc n - suc m)
  drop-take (suc m) (suc n) (x ∷ xs) =
      drop-take m n xs ∙ ap (λ k. take k (drop m xs)) {x = n - m} {y = suc n - suc m} (omega arith)

  -- A slice of a slice.
  pub slice-slice :
      (buf : List A) (base n lo hi : ℕ)
      → hi ≤ n
      → slice (slice buf base (base + n)) lo hi ≡ slice buf (base + lo) (base + hi)
  slice-slice buf base n lo hi h =
      ap (take (hi - lo)) (drop-take lo (base + n - base) (drop base buf))
      ∙ take-take (hi - lo) (base + n - base - lo) (drop lo (drop base buf)) (omega arith)
      ∙ back
    where
      back : take (hi - lo) (drop lo (drop base buf)) ≡ slice buf (base + lo) (base + hi)
      back =
          ap (take (hi - lo)) (drop-drop base lo (base + lo) buf refl)
          ∙ ap (λ k. take k (drop (base + lo) buf)) {x = hi - lo} {y = base + hi - (base + lo)}
              (omega arith)

-- A write never makes a buffer shorter.
pub write_at-grows :
    (buf : List ℕ) (at : ℕ) (src : List ℕ) → length buf ≤ length (write_at buf at src)
unfolding write_at
write_at-grows buf at src = omega (
  arith,
  length-append (take at buf) (src ++ drop (at + length src) buf),
  length-append src (drop (at + length src) buf),
  length-take at buf,
  length-drop (at + length src) buf,
)

-- A slice that has its full length is within its buffer.
pub slice-inside :
    (buf : List ℕ) (lo n : ℕ) → 0 < n → length (slice buf lo (lo + n)) ≡ n → lo + n ≤ length buf
slice-inside buf lo n pos h =
    omega (arith, pos, h, length-take (lo + n - lo) (drop lo buf), length-drop lo buf)

pub leb-true : (a b : ℕ) → a ≤ b → leb a b ≡ true
leb-true a b h = ground arith

pub ltb-true : (a b : ℕ) → a < b → ltb a b ≡ true
ltb-true a b h = ground arith
