-- ===== src/Bench/Fill.antt =====
-- lightway-expresslane-bench/src/pool.rs: the loop that fills a payload, and all payloads.
use lightway_cffi.Base.{
  ℕ, zero, suc, ◌+◌, ◌-◌, ◌*◌, ◌≤◌, ◌<◌, min, ◌≡◌, refl, sym, ap, ap₂, ◌∙◌, subst, some, List, [],
  ◌∷◌, ◌++◌, arith, ltb, Bool-cases, inl, inr, length, take, slice, write_at, to_le_bytes,
  length-to_le_bytes, length-write_at, length-append, length-take, take_behind, take-length-append,
  take_all,
}
use lightway_cffi.Base.Slices.{leb-true, length-slice}
use lightway_cffi.Bench.Rng
use lightway_cffi.Bench.Pool.{fill_payload, fill_slots}
use mathlib.Core.List.{append_assoc, append-nil}

-- The bytes of `rounds` draws.
abbrev pub draws : ℕ → ℕ → List ℕ
draws zero rng = []
draws (suc rounds) rng = to_le_bytes 8 (Rng.next rng).1 ++ draws rounds (Rng.next rng).0

take_cut :
    (m n k : ℕ) (xs ys : List ℕ)
    → n ≡ min m (length xs)
    → k ≡ m - length xs
    → take m (xs ++ ys) ≡ take n xs ++ take k ys
take_cut zero n k xs ys hn hk =
    sym (ap₂ (λ a b. take a xs ++ take b ys) {y = 0} {v = 0} (omega arith) (omega arith))
take_cut (suc m) n k [] ys hn hk =
    sym (ap₂ (λ a b. take a [] ++ take b ys) {y = 0} {v = suc m} (omega arith) (omega arith))
take_cut (suc m) zero k (x ∷ xs) ys hn hk = absurd (omega arith)
take_cut (suc m) (suc n) k (x ∷ xs) ys hn hk =
    ap (◌∷◌ x) (take_cut m n k xs ys (omega arith) (omega arith))

take-write_at :
    (p src : List ℕ) (w : ℕ)
    → w + length src ≤ length p
    → take (w + length src) (write_at p w src) ≡ take w p ++ src
unfolding write_at
take-write_at p src w h =
    take_behind (take w p) _ (w + length src) (length src) (omega (arith, length-take w p))
    ∙ ap (◌++◌ (take w p)) (take-length-append src _ (length src) refl)

module _ (len : ℕ) where
  -- With the fuel that is left above the bytes that are left, the loop ends, and it has put the
  -- generator's bytes behind those that were there.
  fill_payload_ends :
      (fuel w rng : ℕ) (p : List ℕ)
      → len < w + fuel
      → w ≤ len
      → length p ≡ len
      → (rng' : ℕ) × (fill_payload fuel len w rng p
          ≡ some (rng', take w p ++ take (len - w) (draws fuel rng)))
  unfolding fill_payload
  fill_payload_ends zero w rng p f h e = absurd (omega arith)
  fill_payload_ends (suc fuel) w rng p f h e = elim (Bool-cases (ltb w len)) [
    | inl more ↦
        let (rng', ih) =
          fill_payload_ends fuel (w + n) (Rng.next rng).0 p' (ground arith) (ground arith)
            (length-write_at p w piece (omega (arith, length_piece)) ∙ e) in
        (rng', rw more (ih ∙ ap (λ t. some (rng', t)) joined))
    | inr end ↦ (rng, rw end (ap (λ t. some (rng, t)) (stopped (ground arith))))
  ]
    where
      bytes : List ℕ
      bytes = to_le_bytes 8 (Rng.next rng).1

      n : ℕ
      n = min (len - w) 8

      piece : List ℕ
      piece = take n bytes

      length_piece : length piece ≡ n
      length_piece = omega (arith, length-take n bytes, length-to_le_bytes 8 (Rng.next rng).1)

      p' : List ℕ
      p' = write_at p w piece

      stopped : len ≤ w → p ≡ take w p ++ take (len - w) (draws (suc fuel) rng)
      stopped le =
          sym (take_all p w (omega arith))
          ∙ sym (append-nil (take w p))
          ∙ ap (λ k. take w p ++ take k (draws (suc fuel) rng)) {x = 0} {y = len - w} (omega arith)

      joined :
          take (w + n) p' ++ take (len - (w + n)) (draws fuel (Rng.next rng).0)
          ≡ take w p ++ take (len - w) (draws (suc fuel) rng)
      joined =
          ap (λ a. take a p' ++ take (len - (w + n)) (draws fuel (Rng.next rng).0))
            (ap (◌+◌ w) (sym length_piece))
          ∙ ap (λ t. t ++ take (len - (w + n)) (draws fuel (Rng.next rng).0))
              (take-write_at p piece w (omega (arith, length_piece)))
          ∙ append_assoc (take w p) piece _
          ∙ ap (◌++◌ (take w p)) (
              sym (
                take_cut (len - w) n (len - (w + n)) bytes (draws fuel (Rng.next rng).0)
                  (omega (arith, length-to_le_bytes 8 (Rng.next rng).1))
                  (omega (arith, length-to_le_bytes 8 (Rng.next rng).1))))

-- The loop that fills a payload ends within the fuel that it is given, whatever its length: the
-- payload then is the first `len` bytes that the generator draws, in little-endian words.
pub fill_payload_total :
    (len rng : ℕ) (p : List ℕ)
    → length p ≡ len
    → (rng' : ℕ) × (fill_payload (suc len) len 0 rng p
        ≡ some (rng', take len (draws (suc len) rng)))
fill_payload_total len rng p e =
    let (rng', h) = fill_payload_ends len (suc len) 0 rng p (omega arith) (omega arith) e in
    (rng', h ∙ ap (λ n. some (rng', take n (draws (suc len) rng))) {x = len - 0} (omega arith))

length-draws : (rounds rng : ℕ) → length (draws rounds rng) ≡ 8 * rounds
length-draws zero rng = refl
length-draws (suc rounds) rng = omega (
  arith,
  length-append (to_le_bytes 8 (Rng.next rng).1) (draws rounds (Rng.next rng).0),
  length-to_le_bytes 8 (Rng.next rng).1,
  length-draws rounds (Rng.next rng).0,
)

-- All payloads are filled, and the buffer keeps its length.
pub fill_slots_total :
    (rounds i len stride rng : ℕ) (plain : List ℕ)
    → len ≤ stride
    → (i + rounds) * stride ≤ length plain
    → (plain' : List ℕ) × (fill_slots rounds i len stride rng plain ≡ some plain')
      × (length plain' ≡ length plain)
unfolding fill_slots
fill_slots_total zero i len stride rng plain h k = (plain, refl, refl)
fill_slots_total (suc rounds) i len stride rng plain h k =
    let (rng', e) = fill_payload_total len rng seg length_seg in
    let (plain', f, g) =
      fill_slots_total rounds (i + 1) len stride rng' (write_at plain (i * stride) drawn) h (
        subst (λ n. (i + 1 + rounds) * stride ≤ n) (sym kept)
          (subst (λ n. n * stride ≤ length plain) (omega arith) k)) in
    (plain', rw (leb-true _ _ inside, e) f, g ∙ kept)
  where
    seg : List ℕ
    seg = slice plain (i * stride) (i * stride + len)

    inside : i * stride + len ≤ length plain
    inside = grind arith

    length_seg : length seg ≡ len
    length_seg =
        length-slice plain (i * stride) (i * stride + len) (omega arith) inside ∙ omega arith

    drawn : List ℕ
    drawn = take len (draws (suc len) rng)

    kept : length (write_at plain (i * stride) drawn) ≡ length plain
    kept =
        length-write_at plain (i * stride) drawn
          (omega (arith, inside, length-take len (draws (suc len) rng), length-draws (suc len) rng))
