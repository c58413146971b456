-- ===== src/Base/Fields.antt =====
-- A buffer as a row of fields followed by a rest: writing and reading a field.
use lightway_cffi.Base.Lists.{length, take, drop, length-append}
use lightway_cffi.Base.Bytes.{
  slice, write_at, write_at_front, write_at_behind, drop_behind, take_behind, take-length-append,
}
use Prim.Native.Nat.{ℕ, zero, suc, ◌+◌, ◌-◌}
use mathlib.Core.Path.{◌≡◌, refl, ap, ◌∙◌}
use mathlib.Core.List.{List, [], ◌∷◌, ◌++◌}
use native.Mathlib.Omega.{arith}

module _ {ℓ} {A : Type ℓ} where
  abbrev pub join : List (List A) → List A → List A
  join [] rest = rest
  join (f ∷ fs) rest = f ++ join fs rest

  -- The length of a row of fields.
  abbrev pub width : List (List A) → ℕ
  width [] = 0
  width (f ∷ fs) = length f + width fs

  pub write_at-join :
      (before : List (List A)) (old : List A) (after : List (List A)) (rest src : List A) (at : ℕ)
      → at ≡ width before
      → length src ≡ length old
      → write_at (join (before ++ old ∷ after) rest) at src ≡ join (before ++ src ∷ after) rest
  write_at-join [] old after rest src at h e =
      ap (λ n. write_at (old ++ join after rest) n src) h
      ∙ write_at_front old (join after rest) src e
  write_at-join (f ∷ fs) old after rest src at h e =
      write_at_behind f (join (fs ++ old ∷ after) rest) src at (width fs) h
      ∙ ap (◌++◌ f) (write_at-join fs old after rest src (width fs) refl e)

  drop-width-join :
      (before : List (List A)) (rest : List A) (n : ℕ)
      → n ≡ width before
      → drop n (join before rest) ≡ rest
  drop-width-join [] rest n h = ap (λ k. drop k rest) h
  drop-width-join (f ∷ fs) rest n h =
      drop_behind f (join fs rest) n (width fs) h ∙ drop-width-join fs rest (width fs) refl

  join-append :
      (before after : List (List A)) (rest : List A)
      → join (before ++ after) rest ≡ join before (join after rest)
  join-append [] after rest = refl
  join-append (f ∷ fs) after rest = ap (◌++◌ f) (join-append fs after rest)

  pub slice-join :
      (before : List (List A)) (f : List A) (after : List (List A)) (rest : List A) (lo hi : ℕ)
      → lo ≡ width before
      → hi ≡ lo + length f
      → slice (join (before ++ f ∷ after) rest) lo hi ≡ f
  slice-join before f after rest lo hi h e =
      ap (λ t. take (hi - lo) (drop lo t)) (join-append before (f ∷ after) rest)
      ∙ ap (take (hi - lo)) (drop-width-join before (f ++ join after rest) lo h)
      ∙ take-length-append f (join after rest) (hi - lo) (omega arith)

  pub length-join :
      (fs : List (List A)) (rest : List A) → length (join fs rest) ≡ width fs + length rest
  length-join [] rest = omega arith
  length-join (f ∷ fs) rest = omega (arith, length-append f (join fs rest), length-join fs rest)

  -- The fields alone.
  pub take-width-join :
      (fs : List (List A)) (rest : List A) (n : ℕ)
      → n ≡ width fs
      → take n (join fs rest) ≡ join fs []
  take-width-join [] rest zero h = refl
  take-width-join [] rest (suc n) h = absurd (omega arith)
  take-width-join (f ∷ fs) rest n h =
      take_behind f (join fs rest) n (width fs) h
      ∙ ap (◌++◌ f) (take-width-join fs rest (width fs) refl)
