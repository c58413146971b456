-- ===== src/Base/Bytes.antt =====
-- Byte buffers: slices, in-place writes, and big-endian integers.
use Prim.Native.Nat.{ℕ, zero, suc, ◌+◌, ◌-◌, ◌*◌, ◌/◌, ◌%◌, ◌^◌, ◌≤◌, ◌<◌, min}
use mathlib.Core.Path.{◌≡◌, refl, ap, ap₂, ◌∙◌, sym}
use mathlib.Core.List.{List, [], ◌∷◌, ◌++◌, append_assoc}
use native.Mathlib.Omega.{arith}
use lightway_cffi.Base.Lists.{length, take, drop, length-append}

module _ {ℓ} {A : Type ℓ} where
  -- `buf[lo..hi]`.
  abbrev pub slice : List A → ℕ → ℕ → List A
  slice buf lo hi = take (hi - lo) (drop lo buf)

  -- `buf[at..at + src.len()].copy_from_slice(src)`, in bounds.
  unfoldable pub write_at : List A → ℕ → List A → List A
  write_at buf at src = take at buf ++ (src ++ drop (at + length src) buf)

  pub take-length-append : (xs ys : List A) (n : ℕ) → n ≡ length xs → take n (xs ++ ys) ≡ xs
  take-length-append [] [] zero h = refl
  take-length-append [] (y ∷ ys) zero h = refl
  take-length-append [] ys (suc n) h = absurd (omega arith)
  take-length-append (x ∷ xs) ys zero h = absurd (omega arith)
  take-length-append (x ∷ xs) ys (suc n) h = ap (◌∷◌ x) (take-length-append xs ys n (omega arith))

  pub drop-length-append : (xs ys : List A) (n : ℕ) → n ≡ length xs → drop n (xs ++ ys) ≡ ys
  drop-length-append [] ys zero h = refl
  drop-length-append [] ys (suc n) h = absurd (omega arith)
  drop-length-append (x ∷ xs) ys zero h = absurd (omega arith)
  drop-length-append (x ∷ xs) ys (suc n) h = drop-length-append xs ys n (omega arith)

  pub take-append-drop : (n : ℕ) (xs : List A) → take n xs ++ drop n xs ≡ xs
  take-append-drop zero xs = refl
  take-append-drop (suc n) [] = refl
  take-append-drop (suc n) (x ∷ xs) = ap (◌∷◌ x) (take-append-drop n xs)

  pub take_all : (xs : List A) (n : ℕ) → n ≡ length xs → take n xs ≡ xs
  take_all [] zero h = refl
  take_all [] (suc n) h = refl
  take_all (x ∷ xs) zero h = absurd (omega arith)
  take_all (x ∷ xs) (suc n) h = ap (◌∷◌ x) (take_all xs n (omega arith))

  pub length-take : (n : ℕ) (xs : List A) → length (take n xs) ≡ min n (length xs)
  length-take zero xs = omega arith
  length-take (suc n) [] = omega arith
  length-take (suc n) (x ∷ xs) = omega (arith, length-take n xs)

  pub length-drop : (n : ℕ) (xs : List A) → length (drop n xs) ≡ length xs - n
  length-drop zero xs = omega arith
  length-drop (suc n) [] = omega arith
  length-drop (suc n) (x ∷ xs) = omega (arith, length-drop n xs)

  pub drop-drop : (m n k : ℕ) (xs : List A) → m + n ≡ k → drop n (drop m xs) ≡ drop k xs
  drop-drop zero n k xs h = ap (λ j. drop j xs) (omega arith)
  drop-drop (suc m) zero (suc k) [] h = refl
  drop-drop (suc m) (suc n) (suc k) [] h = refl
  drop-drop (suc m) n zero xs h = absurd (omega arith)
  drop-drop (suc m) n (suc k) (x ∷ xs) h = drop-drop m n k xs (omega arith)

  pub take-drop_next :
      (n at k : ℕ) (xs : List A) → at + n ≡ k → take n (drop at xs) ++ drop k xs ≡ drop at xs
  take-drop_next n at k xs h =
      ap (◌++◌ (take n (drop at xs))) (sym (drop-drop at n k xs h))
      ∙ take-append-drop n (drop at xs)

  pub length-write_at :
      (buf : List A) (at : ℕ) (src : List A)
      → at + length src ≤ length buf
      → length (write_at buf at src) ≡ length buf
  unfolding write_at
  length-write_at buf at src h = omega (
    arith,
    length-append (take at buf) (src ++ drop (at + length src) buf),
    length-append src (drop (at + length src) buf),
    length-take at buf,
    length-drop (at + length src) buf,
  )

  -- A write at the front of a segment, and one behind it.
  pub write_at_front :
      (old rest src : List A) → length src ≡ length old → write_at (old ++ rest) 0 src ≡ src ++ rest
  unfolding write_at
  write_at_front old rest src h = ap (◌++◌ src) (drop-length-append old rest _ (omega arith))

  pub write_at_start : (out src : List A) → write_at out 0 src ≡ src ++ drop (length src) out
  unfolding write_at
  write_at_start out src = ap (λ n. src ++ drop n out) (omega arith)

  pub take_behind :
      (xs ys : List A) (n k : ℕ) → n ≡ length xs + k → take n (xs ++ ys) ≡ xs ++ take k ys
  take_behind [] ys n k h = ap (λ j. take j ys) (omega arith)
  take_behind (x ∷ xs) ys zero k h = absurd (omega arith)
  take_behind (x ∷ xs) ys (suc n) k h = ap (◌∷◌ x) (take_behind xs ys n k (omega arith))

  pub drop_behind : (xs ys : List A) (n k : ℕ) → n ≡ length xs + k → drop n (xs ++ ys) ≡ drop k ys
  drop_behind [] ys n k h = ap (λ j. drop j ys) (omega arith)
  drop_behind (x ∷ xs) ys zero k h = absurd (omega arith)
  drop_behind (x ∷ xs) ys (suc n) k h = drop_behind xs ys n k (omega arith)

  pub write_at_behind :
      (seg rest src : List A) (at k : ℕ)
      → at ≡ length seg + k
      → write_at (seg ++ rest) at src ≡ seg ++ write_at rest k src
  unfolding write_at
  write_at_behind seg rest src at k h =
      ap₂ (λ a b. a ++ (src ++ b)) (take_behind seg rest at k h)
        (drop_behind seg rest (at + length src) (k + length src) (omega arith))
      ∙ append_assoc seg (take k rest) _

module _ {ℓ} {A : Type ℓ} where
  -- Fields of known lengths can be told apart.
  pub append-injective :
      (xs xs' ys ys' : List A)
      → length xs ≡ length xs'
      → xs ++ ys ≡ xs' ++ ys'
      → (xs ≡ xs') × (ys ≡ ys')
  append-injective xs xs' ys ys' h e = (
    sym (take-length-append xs ys (length xs) refl)
        ∙ ap (take (length xs)) e
        ∙ take-length-append xs' ys' (length xs) h,
    sym (drop-length-append xs ys (length xs) refl)
        ∙ ap (drop (length xs)) e
        ∙ drop-length-append xs' ys' (length xs) h,
  )

-- `x.to_be_bytes()` of a `width`-byte integer, and `from_be_bytes`.
unfoldable pub to_be_bytes : ℕ → ℕ → List ℕ
to_be_bytes zero x = []
to_be_bytes (suc width) x = x / 256 ^ width % 256 ∷ to_be_bytes width x

unfoldable pub from_be_bytes : ℕ → List ℕ → ℕ
from_be_bytes acc [] = acc
from_be_bytes acc (b ∷ bs) = from_be_bytes (acc * 256 + b) bs

pub length-to_be_bytes : (width x : ℕ) → length (to_be_bytes width x) ≡ width
unfolding to_be_bytes
length-to_be_bytes zero x = refl
length-to_be_bytes (suc width) x = ap suc (length-to_be_bytes width x)

pub from_be-to_be_two : (x : ℕ) → x < 2 ^ 16 → from_be_bytes 0 (to_be_bytes 2 x) ≡ x
unfolding from_be_bytes to_be_bytes
from_be-to_be_two x h = omega arith

pub from_be-to_be_eight : (x : ℕ) → x < 2 ^ 64 → from_be_bytes 0 (to_be_bytes 8 x) ≡ x
unfolding from_be_bytes to_be_bytes
from_be-to_be_eight x h = omega arith

pub to_be_two-injective :
    (x y : ℕ) → x < 2 ^ 16 → y < 2 ^ 16 → to_be_bytes 2 x ≡ to_be_bytes 2 y → x ≡ y
to_be_two-injective x y hx hy e =
    sym (from_be-to_be_two x hx) ∙ ap (from_be_bytes 0) e ∙ from_be-to_be_two y hy

pub to_be_eight-injective :
    (x y : ℕ) → x < 2 ^ 64 → y < 2 ^ 64 → to_be_bytes 8 x ≡ to_be_bytes 8 y → x ≡ y
to_be_eight-injective x y hx hy e =
    sym (from_be-to_be_eight x hx) ∙ ap (from_be_bytes 0) e ∙ from_be-to_be_eight y hy

-- `x.to_le_bytes()`.
unfoldable pub to_le_bytes : ℕ → ℕ → List ℕ
to_le_bytes zero x = []
to_le_bytes (suc width) x = x % 256 ∷ to_le_bytes width (x / 256)

pub length-to_le_bytes : (width x : ℕ) → length (to_le_bytes width x) ≡ width
unfolding to_le_bytes
length-to_le_bytes zero x = refl
length-to_le_bytes (suc width) x = ap suc (length-to_le_bytes width (x / 256))

-- `from_le_bytes`.
unfoldable pub from_le_bytes : List ℕ → ℕ
from_le_bytes [] = 0
from_le_bytes (b ∷ bs) = b + 256 * from_le_bytes bs
