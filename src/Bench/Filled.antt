-- ===== src/Bench/Filled.antt =====
-- The packets of a whole pool.
use lightway_cffi.Base.{
  ℕ, zero, suc, ◌+◌, ◌*◌, ◌≤◌, ◌<◌, ◌≡◌, refl, sym, ap, ◌∙◌, subst, true, some, List, arith, ◌==◌,
  Bool-cases, inl, inr, length, slice, write_at, length-write_at,
}
use lightway_cffi.Base.Slices.{length-slice, slice-write_at_self, slice-write_at_before}
use lightway_cffi.Cipher.{Aead, AeadLaws, SealsPackets}
use lightway_cffi.Session.{State, wire_overhead}
use lightway_cffi.Bench.Pool.{seal_slots}
use lightway_cffi.Bench.Sealed.{IsPacket}
use lightway_cffi.Bench.Sent.{Sends, length-IsPacket}
use lightway_cffi.Bench.Slot.{seal_slot-IsPacket}

-- The packet and the payload in slot `j`.
abbrev pub packet_at : ℕ → ℕ → List ℕ → ℕ → List ℕ
packet_at len stride wire j = slice wire (j * stride) (j * stride + wire_overhead + len)

abbrev pub payload_at : ℕ → ℕ → List ℕ → ℕ → List ℕ
payload_at len stride plain j = slice plain (j * stride) (j * stride + len)

-- Slot `j` holds the packet of its payload.
abbrev pub Holds : (a : Aead) → a.Key → List ℕ → ℕ → ℕ → List ℕ → List ℕ → ℕ → Type 0
Holds a k sid len stride plain wire j =
    IsPacket a k sid (j + 1) (payload_at len stride plain j) (packet_at len stride wire j)

-- One buffer of a pool after `rounds` slots from slot `i` on were sealed into it.
pub record Filled (a : Aead) (k : a.Key) (sid : List ℕ) (len stride : ℕ) (plain : List ℕ)
    (rounds i : ℕ) (wire wire' : List ℕ) : Type 0 where
  pub size : length wire' ≡ length wire
  pub kept : (j : ℕ) → j < i → packet_at len stride wire' j ≡ packet_at len stride wire j
  pub sealed : (j : ℕ) → i ≤ j → j < i + rounds → Holds a k sid len stride plain wire' j

next_row : (i rounds stride : ℕ) → (i + 1 + rounds) * stride ≡ (i + suc rounds) * stride
next_row i rounds stride = ap (λ t. t * stride) {x = i + 1 + rounds} (omega arith)

module _ (a : Aead) (laws : AeadLaws a) (k : a.Key) (sid : List ℕ) (len stride : ℕ) (plain : List ℕ)
    (room : wire_overhead + len ≤ stride) where
  Filled-none : (i : ℕ) (wire : List ℕ) → Filled a k sid len stride plain 0 i wire wire
  Filled-none i wire = record {
    size = refl;
    kept = λ j h. refl;
    sealed = λ j h h'. absurd (omega arith);
  }

  size_after :
      (rounds i : ℕ) (wire w : List ℕ)
      → (i + suc rounds) * stride ≤ length wire
      → length (payload_at len stride plain i) ≡ len
      → IsPacket a k sid (i + 1) (payload_at len stride plain i) w
      → (i + 1 + rounds) * stride ≤ length (write_at wire (i * stride) w)
  size_after rounds i wire w fits el p =
      subst (λ n. (i + 1 + rounds) * stride ≤ n)
        (sym (length-write_at wire (i * stride) w (omega (arith, inside, length_w))))
        (omega (arith, next_row i rounds stride))
    where
      inside : i * stride + wire_overhead + len ≤ length wire
      inside = grind arith

      length_w : length w ≡ wire_overhead + len
      length_w =
          length-IsPacket a laws k sid (i + 1) (payload_at len stride plain i) w p ∙ omega arith

  -- The write of one slot, and then the others.
  Filled-next :
      (rounds i : ℕ) (wire w wire' : List ℕ)
      → (i + suc rounds) * stride ≤ length wire
      → length (payload_at len stride plain i) ≡ len
      → IsPacket a k sid (i + 1) (payload_at len stride plain i) w
      → Filled a k sid len stride plain rounds (i + 1) (write_at wire (i * stride) w) wire'
      → Filled a k sid len stride plain (suc rounds) i wire wire'
  Filled-next rounds i wire w wire' fits el p f = record {
    size = f.size ∙ length-write_at wire (i * stride) w (omega (arith, length_w, inside));
    kept = λ j h.
        f.kept j (omega arith)
        ∙ slice-write_at_before wire w (i * stride) (j * stride) (j * stride + wire_overhead + len)
            (omega arith) (below j h) (omega (arith, inside));
    sealed = all;
  }
    where
      inside : i * stride + wire_overhead + len ≤ length wire
      inside = grind arith

      length_w : length w ≡ wire_overhead + len
      length_w =
          length-IsPacket a laws k sid (i + 1) (payload_at len stride plain i) w p ∙ omega arith

      below : (j : ℕ) → j < i → j * stride + wire_overhead + len ≤ i * stride
      below j h = grind arith

      here : packet_at len stride wire' i ≡ w
      here =
          f.kept i (omega arith)
          ∙ slice-write_at_self wire w (i * stride) (i * stride + wire_overhead + len)
              (omega (arith, length_w)) (omega (arith, inside))

      all : (j : ℕ) → i ≤ j → j < i + suc rounds → Holds a k sid len stride plain wire' j
      all j h h' = elim (Bool-cases (j == i)) [
        | inl e ↦
            subst (Holds a k sid len stride plain wire') (same e)
              (subst (IsPacket a k sid (i + 1) (payload_at len stride plain i)) (sym here) p)
        | inr ne ↦ f.sealed j (ground arith) (ground arith)
      ]
        where
          same : (j == i) ≡ true → i ≡ j
          same e = ground arith

module _ (ring cc : Aead) (laws : AeadLaws ring) (cc_laws : AeadLaws cc) (can : SealsPackets ring)
    (cc_can : SealsPackets cc) (k : ring.Key) (c : cc.Key) (sid : List ℕ) (es : length sid ≡ 8)
    (len stride : ℕ) (plain : List ℕ) (small : len ≤ 65535)
    (room : wire_overhead + len ≤ stride) where
  pub seal_slots-Filled :
      (rounds i : ℕ) (tx : State ring) (wire wire_cc : List ℕ)
      → Sends ring k tx
      → (i + rounds) * stride ≤ length plain
      → (i + rounds) * stride ≤ length wire
      → (i + rounds) * stride ≤ length wire_cc
      → (wire' : List ℕ) × (wire_cc' : List ℕ) × (seal_slots ring cc c sid len stride plain rounds i
            tx wire wire_cc
          ≡ some (wire', wire_cc'))
        × Filled ring k sid len stride plain rounds i wire wire'
        × Filled cc c sid len stride plain rounds i wire_cc wire_cc'
  unfolding seal_slots
  seal_slots-Filled zero i tx wire wire_cc s fp fw fc = (
    wire,
    wire_cc,
    refl,
    Filled-none ring laws k sid len stride plain room i wire,
    Filled-none cc cc_laws c sid len stride plain room i wire_cc,
  )
  seal_slots-Filled (suc rounds) i tx wire wire_cc s fp fw fc =
      let (tx', s', w, pw, wc, pc, e) =
        seal_slot-IsPacket ring cc laws cc_laws can cc_can k c sid es len stride i plain wire
          wire_cc tx s small (grind arith) (grind arith) (grind arith) in
      let (wire', wire_cc', e', f, fcc) =
        seal_slots-Filled rounds (i + 1) tx' (write_at wire (i * stride) w)
          (write_at wire_cc (i * stride) wc) s' (omega (arith, next_row i rounds stride))
          (size_after ring laws k sid len stride plain room rounds i wire w fw length_payload pw)
          (size_after cc cc_laws c sid len stride plain room rounds i wire_cc wc fc length_payload
            pc) in
      (
        wire',
        wire_cc',
        rw e e',
        Filled-next ring laws k sid len stride plain room rounds i wire w wire' fw length_payload pw
            f,
        Filled-next cc cc_laws c sid len stride plain room rounds i wire_cc wc wire_cc' fc
            length_payload pc fcc,
      )
    where
      length_payload : length (payload_at len stride plain i) ≡ len
      length_payload =
          length-slice plain (i * stride) (i * stride + len) (omega arith) (grind arith)
          ∙ omega arith
