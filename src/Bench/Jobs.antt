-- ===== src/Bench/Jobs.antt =====
-- The jobs of the arms, and lists of results.
use lightway_cffi.Base.{
  ℕ, zero, suc, ◌<◌, ◌≡◌, refl, ap, Bool, true, false, not, ◌&&◌, some, List, [], ◌∷◌, arith,
  if◌then◌else◌, length, map,
}
use lightway_cffi.Bench.Complete.{family_of, is_session}
use lightway_cffi.Bench.Runner.{Spec, Job, specs, jobs_of}
use lightway_cffi.Bench.Run.{Entry, new_res, at}
use lightway_cffi.Bench.Entries.{All}
use lightway_cffi.Bench.Sampled.{IsSound}

-- A spec that says of its arm what is so.
pub record IsTrue (s : Spec) : Type 0 where
  family : s.family ≡ family_of s.name
  session : s.is_session_dec ≡ is_session s.name
  cold : is_session s.name && not s.cold_only ≡ false

pub specs-IsTrue : All IsTrue specs
unfolding specs
specs-IsTrue = (
  record { family = refl; session = refl; cold = refl },
  (
    record { family = refl; session = refl; cold = refl },
    (
      record { family = refl; session = refl; cold = refl },
      (
        record { family = refl; session = refl; cold = refl },
        (
          record { family = refl; session = refl; cold = refl },
          (
            record { family = refl; session = refl; cold = refl },
            (
              record { family = refl; session = refl; cold = refl },
              (
                record { family = refl; session = refl; cold = refl },
                (
                  record { family = refl; session = refl; cold = refl },
                  (record { family = refl; session = refl; cold = refl }, tt),
                ),
              ),
            ),
          ),
        ),
      ),
    ),
  ),
)

cold_job : (b : Bool) → b && false ≡ false
cold_job true = refl
cold_job false = refl

hot_job : (b c : Bool) → b && not c ≡ false → c ≡ false → b && true ≡ false
hot_job b c h e = grind (arith, h, e)

either :
    (b : Bool) (xs ys : List Job)
    → All IsSound xs
    → (b ≡ false → All IsSound ys)
    → All IsSound (if b then xs else ys)
either true xs ys h k = h
either false xs ys h k = k refl

pub jobs_of-IsSound : (ss : List Spec) → All IsTrue ss → All IsSound (jobs_of ss)
unfolding jobs_of
jobs_of-IsSound [] h = tt
jobs_of-IsSound (s ∷ ss) h =
    either s.cold_only ((s, false) ∷ jobs_of ss) ((s, true) ∷ (s, false) ∷ jobs_of ss)
      (cold, jobs_of-IsSound ss h.1) (λ both. (hot both, (cold, jobs_of-IsSound ss h.1)))
  where
    cold : IsSound (s, false)
    cold = record {
      family = h.0.family;
      session = h.0.session;
      cold = cold_job (is_session s.name);
    }

    hot : s.cold_only ≡ false → IsSound (s, true)
    hot both = record {
      family = h.0.family;
      session = h.0.session;
      cold = hot_job (is_session s.name) s.cold_only h.0.cold both;
    }

module _ {A : Type 0} (P : A → Type 0) where
  pub All-each : (xs : List A) → ((i : ℕ) (x : A) → at xs i ≡ some x → P x) → All P xs
  All-each [] h = tt
  All-each (x ∷ xs) h = (h 0 x refl, All-each xs (λ i y e. h (suc i) y e))

pub at_below : {A : Type 0} (xs : List A) (i : ℕ) (x : A) → at xs i ≡ some x → i < length xs
at_below [] i x e = cc
at_below (y ∷ ys) zero x e = omega arith
at_below (y ∷ ys) (suc i) x e = omega (arith, at_below ys i x e)

abbrev pub entries : List Job → List Entry
entries jobs = map (λ j. (j, new_res)) jobs

pub length-entries : (jobs : List Job) → length (entries jobs) ≡ length jobs
length-entries [] = refl
length-entries (j ∷ jobs) = ap suc (length-entries jobs)
