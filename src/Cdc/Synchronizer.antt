-- ===== src/Cdc/Synchronizer.antt =====
-- `Synchronizer`: a row of registers, the first one nearest to the input.
use veripy.Base.{
  ℕ, zero, suc, ◌+◌, ◌-◌, ◌<◌, ◌≡◌, refl, ap, ◌∙◌, Bool, false, List, [], ◌∷◌, length, get_or,
  replicate, if◌then◌else◌, arith,
}

-- Every stage takes the old value of the one before it, the first one the input.
abbrev pub shift_in : ℕ → List ℕ → List ℕ
shift_in d [] = []
shift_in d (v ∷ stages) = d ∷ shift_in v stages

unfoldable pub shift : List ℕ → Bool → ℕ → List ℕ
shift stages rst d = if rst then replicate (length stages) 0 else shift_in d stages

-- `q` is the last stage.
unfoldable pub output : List ℕ → ℕ
output stages = get_or stages (length stages - 1) 0

-- Cycles without reset.
abbrev pub run : List ℕ → List ℕ → List ℕ
run stages [] = stages
run stages (d ∷ ds) = run (shift stages false d) ds

length-shift_in : (d : ℕ) (stages : List ℕ) → length (shift_in d stages) ≡ length stages
length-shift_in d [] = refl
length-shift_in d (v ∷ stages) = ap suc (length-shift_in v stages)

get_or-shift_in :
    (d : ℕ) (stages : List ℕ) (i : ℕ)
    → suc i < length stages
    → get_or (shift_in d stages) (suc i) 0 ≡ get_or stages i 0
get_or-shift_in d [] i lt = absurd (omega arith)
get_or-shift_in d (v ∷ []) zero lt = absurd (omega arith)
get_or-shift_in d (v ∷ w ∷ stages) zero lt = refl
get_or-shift_in d (v ∷ stages) (suc i) lt = get_or-shift_in v stages i (omega arith)

length-run : (stages ds : List ℕ) → length (run stages ds) ≡ length stages
unfolding shift
length-run stages [] = refl
length-run stages (d ∷ ds) = length-run (shift_in d stages) ds ∙ length-shift_in d stages

-- A value moves by one stage in a cycle.
get_or-run :
    (stages ds : List ℕ) (i : ℕ)
    → i + length ds < length stages
    → get_or (run stages ds) (i + length ds) 0 ≡ get_or stages i 0
unfolding shift
get_or-run stages [] i lt = ap (λ j. get_or stages j 0) {x = i + 0} {y = i} (omega arith)
get_or-run stages (d ∷ ds) i lt =
    ap (λ j. get_or (run (shift_in d stages) ds) j 0) {x = i + suc (length ds)}
      {y = suc i + length ds} (omega arith)
    ∙ (get_or-run (shift_in d stages) ds (suc i) (omega (arith, length-shift_in d stages))
        ∙ get_or-shift_in d stages i (omega arith))

-- Without reset, an input comes out after as many cycles as there are stages: the cycle that takes it
-- in and the cycles after it, whatever their inputs.
pub output-delays :
    (stages : List ℕ) (d : ℕ) (ds : List ℕ)
    → suc (length ds) ≡ length stages
    → output (run stages (d ∷ ds)) ≡ d
unfolding output shift
output-delays [] d ds e = absurd (omega arith)
output-delays (v ∷ stages) d ds e =
    ap (λ j. get_or (run (d ∷ shift_in v stages) ds) j 0)
      (omega (arith, length-run (d ∷ shift_in v stages) ds, length-shift_in v stages))
    ∙ get_or-run (d ∷ shift_in v stages) ds 0 (omega (arith, length-shift_in v stages))
