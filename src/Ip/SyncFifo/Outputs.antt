-- ===== src/Ip/SyncFifo/Outputs.antt =====
-- What a queue shows of its words, and what it shows after a run.
use veripy.Base.{
  ℕ, zero, suc, ◌^◌, ◌%◌, ◌≡◌, ◌≢◌, refl, sym, ap, ◌∙◌, Bool, true, false, ◌&&◌, List, [], ◌∷◌,
  length, get_or, ◌==◌,
}
use veripy.Ip.SyncFifo.{SyncFifo, Input, init, update, full, empty, dout, pushes, pops}
use veripy.Ip.SyncFifo.Queue.{stored, length-stored}
use veripy.Ip.SyncFifo.Refine.{
  IsValid, contents, step_queue, slot-mod, init-IsValid, update-refines, update-depth, update-width,
}

head-stored :
    (mem : List ℕ) (d h n : ℕ)
    → stored mem d h n ≢ []
    → get_or (stored mem d h n) 0 0 ≡ get_or mem (h % d) 0
head-stored mem d h zero ne = absurd (ne refl)
head-stored mem d h (suc n) ne = refl

-- The flags of a well-formed queue of a depth 2 ^ k that is not empty tell whether its words fill the
-- depth and whether there are none, and `dout` is its first word.
pub outputs-contents :
    (k : ℕ) (f : SyncFifo)
    → IsValid k f
    → contents f ≢ []
    → (full f ≡ (length (contents f) == f.depth))
      × (empty f ≡ (length (contents f) == 0))
      × (dout f ≡ get_or (contents f) 0 0)
unfolding full empty dout
outputs-contents k f v ne =
    let (ed, el, hc, ep) = v in
    let e = sym (length-stored f.mem f.depth f.rptr f.cnt) in
    (
      ap (λ n. n == f.depth) e,
      ap (λ n. n == 0) e,
      ap (λ j. get_or f.mem j 0) (slot-mod k f f.rptr ed)
          ∙ sym (head-stored f.mem f.depth f.rptr f.cnt ne),
    )

abbrev pub run : SyncFifo → List Input → SyncFifo
run f [] = f
run f (i ∷ is) = run (update f i) is

abbrev pub run_queue : ℕ → ℕ → List ℕ → List Input → List ℕ
run_queue depth width q [] = q
run_queue depth width q (i ∷ is) = run_queue depth width (step_queue depth width q i) is

-- No step pushes and pops.
abbrev pub Apart : List Input → Type 0
Apart [] = Unit
Apart (i ∷ is) = (i.push && i.pop ≡ false) × Apart is

and-false : (b : Bool) → b && false ≡ false
and-false true = refl
and-false false = refl

apart-one :
    (f : SyncFifo) (push pop : Bool) → push && pop ≡ false → pushes f push && pops f pop ≡ false
apart-one f true true h = absurd cc
apart-one f true false h = and-false (pushes f true)
apart-one f false pop h = refl

cong_three :
    {B : Type 0} (g : ℕ → ℕ → List ℕ → B) {d d' w w' : ℕ} {q q' : List ℕ}
    → d ≡ d'
    → w ≡ w'
    → q ≡ q'
    → g d w q ≡ g d' w' q'
cong_three g a b c = cc

run-refines :
    (k : ℕ) (f : SyncFifo) (is : List Input)
    → IsValid k f
    → Apart is
    → contents (run f is) ≡ run_queue f.depth f.width (contents f) is
run-refines k f [] v a = refl
run-refines k f (i ∷ is) v a =
    let (one, rest) = a in
    let (e, v') = update-refines k f i v (apart-one f i.push i.pop one) in
    run-refines k (update f i) is v' rest
    ∙ cong_three (λ d w q. run_queue d w q is) (update-depth f i) (update-width f i) e

-- A queue of a depth 2 ^ k, run from its initial state on steps none of which pushes and pops, holds
-- the words of the bounded list run on the same steps.
pub run-init :
    (k width : ℕ) (is : List Input)
    → Apart is
    → contents (run (init width (2 ^ k)) is) ≡ run_queue (2 ^ k) width [] is
unfolding init
run-init k width is a = run-refines k (init width (2 ^ k)) is (init-IsValid width k) a
