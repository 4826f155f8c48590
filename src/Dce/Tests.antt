-- ===== src/Dce/Tests.antt =====
-- A small module through the passes: `k` is 3, `y` is `a + k`, and nothing reads `dead`.
use veripy.Base.{◌≡◌, refl, String, true, false, List, [], ◌∷◌, some, none, same, if◌then◌else◌}
use veripy.Base.Int.{pos, ◌+ℤ◌, ◌*ℤ◌}
use veripy.Ir.{
  Expr, const, sig, bin_op, plus, times, assign, snil, scons, CombBlock, IrModule, input, output,
}
use veripy.Ir.Value.{word, State, Target, apply_binary}
use veripy.Ir.Meaning.{Machine, write, start, eval, run_comb}
use veripy.Flatten.Reads.{stmt_writes, stmt_reads}
use veripy.Dce.Fold.{try_fold}
use veripy.Dce.FoldComplete.{try_fold_complete}
use veripy.Dce.FoldSound.{try_fold_sound}
use veripy.Dce.Subst.{subst_stmt, flatten_stmt}
use veripy.Dce.Propagate.{const_map, const_propagate}
use veripy.Dce.Propagate.Sound.{Fits, const_propagate_sound, SameSeq}
use veripy.Dce.SubstSound.{Agrees}
use veripy.Dce.Live.{live_names, dead_code_eliminate}
use veripy.Dce.Live.Simulate.{Simulates}
use veripy.Dce.Live.Sound.{dead_code_eliminate_sound, dead_code_eliminate_total}

-- A target on which slices, memories and the operators that the passes never compute are absent.
abbrev target : Target
target = record {
  rest = λ op a b. none;
  param_value = λ x. none;
  width = λ x. some 8;
  slice_of = λ v h l. v;
  bit_of = λ v l. v;
  index_of = λ v k. none;
  concat_of = λ ps. pos 0;
  clz_of = λ w v. v;
  ctz_of = λ w v. v;
  popcount_of = λ w v. v;
  sext_of = λ s d v. v;
  truncate = λ k v. v;
  splice = λ k old h l v. old;
  store = λ k old a v. old;
}

abbrev block : String → Expr → CombBlock
block k e = record { stmts = scons (assign k e true) snil; locals = [] }

abbrev sample_with : List CombBlock → IrModule
sample_with bs = record {
  name = "sample";
  params = [];
  ports =
      record { name = "a"; direction = input; width = 8; is_reg = false }
      ∷ record { name = "y"; direction = output; width = 8; is_reg = false }
      ∷ [];
  wires = [];
  regs = [];
  mems = [];
  instances = [];
  assigns = [];
  comb_blocks = bs;
  seq_blocks = [];
  initial_blocks = [];
  always_blocks = [];
  formal_props = [];
}

abbrev sample : IrModule
sample = sample_with (
    block "k" (const (pos 3))
    ∷ block "y" (bin_op plus (sig "a") (sig "k"))
    ∷ block "dead" (bin_op times (sig "k") (const (pos 2)))
    ∷ [])

abbrev propagated : IrModule
propagated = sample_with (
    block "k" (const (pos 3))
    ∷ block "y" (bin_op plus (sig "a") (const (pos 3)))
    ∷ block "dead" (const (pos 6))
    ∷ [])

abbrev pruned : IrModule
pruned = sample_with (block "y" (bin_op plus (sig "a") (const (pos 3))) ∷ [])

const_map-sample : const_map sample ≡ ("k", pos 3) ∷ []
unfolding const_map stmt_writes same
const_map-sample = refl

const_propagate-sample : const_propagate sample ≡ some propagated
unfolding const_propagate stmt_writes same subst_stmt try_fold flatten_stmt ◌*ℤ◌
const_propagate-sample = refl

dead_code-sample : dead_code_eliminate propagated ≡ some pruned
unfolding dead_code_eliminate stmt_writes stmt_reads same
dead_code-sample = refl

-- `a` is 5 and `k` holds its constant.
abbrev five : State
five k = if same k "a" then word (pos 5) else word (pos 3)

abbrev sum_expr : Expr
sum_expr = bin_op plus (const (pos 2)) (bin_op times (const (pos 3)) (const (pos 4)))

try_fold_complete_example : try_fold sum_expr ≡ some (const (pos 14))
unfolding eval apply_binary ◌+ℤ◌ ◌*ℤ◌
try_fold_complete_example =
    try_fold_complete target five sum_expr (pos 14) (tt, tt, (tt, tt, tt)) refl

try_fold_sound_example : eval target five (const (pos 14)) ≡ eval target five sum_expr
unfolding try_fold ◌+ℤ◌ ◌*ℤ◌
try_fold_sound_example = try_fold_sound [] target five sum_expr (const (pos 14)) (tt, (tt, tt)) refl

sample-Fits : Fits target (const_map sample)
sample-Fits k z l = refl

const_propagate_sound_example :
    ((m : Machine)
      → Agrees (const_map sample) m.cur
      → run_comb target propagated.comb_blocks m ≡ run_comb target sample.comb_blocks m)
    × SameSeq (const_map sample) target [] []
const_propagate_sound_example =
    const_propagate_sound sample propagated target sample-Fits
      ((tt, tt), (((tt, tt), tt), (((tt, tt), tt), tt))) tt ((tt, tt), ((tt, tt), ((tt, tt), tt)))
      tt const_propagate-sample

-- The machine that the sample leaves.
abbrev after : Machine
after =
    write true "dead" (word (pos 6))
      (write true "y" (word (pos 8)) (write true "k" (word (pos 3)) (start five)))

dead_code_eliminate_sound_example :
    (pruned.ports ≡ propagated.ports)
    × (pruned.seq_blocks ≡ propagated.seq_blocks)
    × Simulates (live_names propagated) (run_comb target pruned.comb_blocks (start five)) after
unfolding run_comb apply_binary ◌+ℤ◌ same
dead_code_eliminate_sound_example =
    dead_code_eliminate_sound propagated pruned target (start five) after dead_code-sample refl

dead_code_eliminate_total_example : (out : IrModule) × (dead_code_eliminate sample ≡ some out)
dead_code_eliminate_total_example = dead_code_eliminate_total sample
