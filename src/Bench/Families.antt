-- ===== src/Bench/Families.antt =====
-- The report's comparison of the arms of a family.
use lightway_cffi.Base.{
  ℕ, ◌≡◌, ◌⊎◌, inl, inr, refl, sym, ap, ◌∙◌, Bool, true, false, not, ◌&&◌, Option, none, some, List,
  [], ◌∷◌, arith, ◌==◌, if◌then◌else◌, Bool-cases,
}
use lightway_cffi.Bench.Runner.{Family, null_family, copy_family, dec, enc, enc_chacha, Job, Res}
use lightway_cffi.Bench.Run.{Entry, same_family, all_ok, all_acc, agree, family_ok}
use lightway_cffi.Bench.Entries.{All}

same_family_lem : (f g : Family) → same_family f g ≡ true → f ≡ g
same_family_lem null_family null_family e = refl
same_family_lem null_family copy_family e = cc
same_family_lem null_family dec e = cc
same_family_lem null_family enc e = cc
same_family_lem null_family enc_chacha e = cc
same_family_lem copy_family null_family e = cc
same_family_lem copy_family copy_family e = refl
same_family_lem copy_family dec e = cc
same_family_lem copy_family enc e = cc
same_family_lem copy_family enc_chacha e = cc
same_family_lem dec null_family e = cc
same_family_lem dec copy_family e = cc
same_family_lem dec dec e = refl
same_family_lem dec enc e = cc
same_family_lem dec enc_chacha e = cc
same_family_lem enc null_family e = cc
same_family_lem enc copy_family e = cc
same_family_lem enc dec e = cc
same_family_lem enc enc e = refl
same_family_lem enc enc_chacha e = cc
same_family_lem enc_chacha null_family e = cc
same_family_lem enc_chacha copy_family e = cc
same_family_lem enc_chacha dec e = cc
same_family_lem enc_chacha enc e = cc
same_family_lem enc_chacha enc_chacha e = refl

picked_hot : (hot b : Bool) → (if hot then b else not b) ≡ true → b ≡ hot
picked_hot true true e = refl
picked_hot true false e = cc
picked_hot false true e = cc
picked_hot false false e = refl

and_left : (a b : Bool) → a && b ≡ true → a ≡ true
and_left true b e = refl
and_left false b e = cc

and_right : (a b : Bool) → a && b ≡ true → b ≡ true
and_right true b e = e
and_right false b e = cc

not_null :
    (f : Family)
    → same_family f null_family ≡ false
    → f ≡ null_family
    → same_family null_family null_family ≡ false
not_null f h e = ap (λ g. same_family g null_family) (sym e) ∙ h

module _ (aim : Family → Bool → ℕ) where
  -- A final result: every operation succeeded, and but for `null` the accumulator is stable and
  -- the one its family aims at.
  pub record IsFinal (j : Job) (res : Res) : Type 0 where
    pub ops : res.total_ops ≡ res.expected_ops
    pub stable : (j.0.family ≡ null_family) ⊎ (res.acc_stable ≡ true)
    pub acc : (j.0.family ≡ null_family) ⊎ (res.acc ≡ aim j.0.family j.1)

  abbrev pub Final : Entry → Type 0
  Final (j, res) = IsFinal j res

  pub all_ok-Final : (xs : List Entry) → All Final xs → all_ok xs ≡ true
  unfolding all_ok
  all_ok-Final [] h = refl
  all_ok-Final ((j, res) ∷ xs) h = ground (arith, h.0.ops, all_ok-Final xs h.1)

  pub all_acc-Final : (xs : List Entry) → All Final xs → all_acc xs ≡ true
  unfolding all_acc
  all_acc-Final [] h = refl
  all_acc-Final ((j, res) ∷ xs) h = step (all_acc-Final xs h.1) h.0.stable
    where
      step :
          all_acc xs ≡ true
          → (j.0.family ≡ null_family) ⊎ (res.acc_stable ≡ true)
          → (if same_family j.0.family null_family then true else res.acc_stable) && all_acc xs
            ≡ true
      step rest (inl e) = rw (e, rest) refl
      step rest (inr e) = rw e (elim (Bool-cases (same_family j.0.family null_family)) [
        | inl null ↦ rw (null, rest) refl
        | inr other ↦ rw (other, rest) refl
      ])

  module _ (family : Family) (some_family : same_family family null_family ≡ false)
      (hot : Bool) where
    picked :
        (j : Job)
        → same_family j.0.family family && (if hot then j.1 else not j.1) ≡ true
        → (j.0.family ≡ family) × (j.1 ≡ hot)
    picked j e = (
      same_family_lem j.0.family family (and_left _ _ e),
      picked_hot hot j.1 (and_right (same_family j.0.family family) _ e),
    )

    aimed :
        (j : Job) (res : Res)
        → IsFinal j res
        → same_family j.0.family family && (if hot then j.1 else not j.1) ≡ true
        → res.acc ≡ aim family hot
    aimed j res final e = from final.acc
      where
        from :
            (j.0.family ≡ null_family) ⊎ (res.acc ≡ aim j.0.family j.1) → res.acc ≡ aim family hot
        from (inl null) =
            absurd (ground (arith, not_null family some_family (sym (picked j e).0 ∙ null)))
        from (inr same) = same ∙ (λ i. aim ((picked j e).0 i) ((picked j e).1 i))

    agree-Final :
        (xs : List Entry) (seen : Option ℕ)
        → (seen ≡ none) ⊎ (seen ≡ some (aim family hot))
        → All Final xs
        → agree family hot seen xs ≡ true
    unfolding agree
    agree-Final [] seen s h = refl
    agree-Final ((j, res) ∷ xs) seen s h =
        elim (Bool-cases (same_family j.0.family family && (if hot then j.1 else not j.1))) [
          | inr other ↦ rw other (agree-Final xs seen s h.1)
          | inl same ↦
              rw same (compared (λ seen s. agree-Final xs seen s h.1) seen s (aimed j res h.0 same))
        ]
      where
        compared :
            ((seen : Option ℕ)
              → (seen ≡ none) ⊎ (seen ≡ some (aim family hot))
              → agree family hot seen xs ≡ true)
            → (seen : Option ℕ) → (seen ≡ none) ⊎ (seen ≡ some (aim family hot))
            → res.acc ≡ aim family hot
            → elim seen [
              | none ↦ agree family hot (some res.acc) xs
              | some v ↦ v == res.acc && agree family hot (some v) xs
            ]
              ≡ true
        compared rest none k e = rest (some res.acc) (inr (ap some e))
        compared rest (some v) (inl k) e = cc
        compared rest (some v) (inr k) e =
            ground (arith, e, some_injective k, rest (some v) (inr k))
          where
            some_injective : some v ≡ some (aim family hot) → v ≡ aim family hot
            some_injective k = grind arith

  pub family_ok-Final :
      (family : Family) (xs : List Entry)
      → same_family family null_family ≡ false
      → All Final xs
      → family_ok family xs ≡ true
  unfolding family_ok
  family_ok-Final family xs some_family h = ground (
    arith,
    agree-Final family some_family true xs none (inl refl) h,
    agree-Final family some_family false xs none (inl refl) h,
  )
