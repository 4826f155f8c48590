-- ===== src/Dce/Propagate.antt =====
-- `const_propagate` of veripy/dce.py: the constants that are safe to substitute, and the pass.
pub mod Constants
pub mod Sound
use veripy.Base.{
  ℕ, ◌+◌, String, Bool, true, false, ◌&&◌, not, List, [], ◌∷◌, ◌++◌, Option, some, none, ◌>>=◌,
  ◌==◌, if◌then◌else◌, contains, insert, filter_keys,
}
use veripy.Base.Int.{ℤ}
use veripy.Ir.{Stmts, scons, snil, assign, const, CombBlock, SeqBlock, IrModule}
use veripy.Flatten.Reads.{stmts_writes}
use veripy.Dce.Subst.{ConstMap, subst_stmts, flatten_stmts}

-- `seq_written`
abbrev pub seq_written : List SeqBlock → List String
seq_written [] = []
seq_written (b ∷ bs) = stmts_writes b.stmts ++ seq_written bs

-- A block of a single assignment of a constant.
abbrev pub const_block : Stmts → Option (String × ℤ)
const_block (scons (assign k (const z) b) snil) = some (k, z)
const_block _ = none

abbrev pub note_const : Option (String × ℤ) → ConstMap → ConstMap
note_const none d = d
note_const (some (k, z)) d = insert k z d

-- The first `const_map`: the last such assignment of a name counts.
pub collect : List CombBlock → ConstMap → ConstMap
collect [] d = d
collect (b ∷ bs) d = collect bs (note_const (const_block b.stmts) d)

-- `writer_count.get(k, 0)`: the blocks that write a name.
pub writer_count : List CombBlock → String → ℕ
writer_count [] k = 0
writer_count (b ∷ bs) k =
    let rest = writer_count bs k in if contains (stmts_writes b.stmts) k then 1 + rest else rest

-- One writer, and no sequential block.
pub is_safe : IrModule → String → Bool
unfolding writer_count
is_safe ir k = writer_count ir.comb_blocks k == 1 && not (contains (seq_written ir.seq_blocks) k)

unfoldable pub const_map : IrModule → ConstMap
unfolding is_safe collect
const_map ir = filter_keys (is_safe ir) (collect ir.comb_blocks [])

pub subst_comb : ConstMap → List CombBlock → Option (List CombBlock)
unfolding subst_stmts flatten_stmts
subst_comb cm [] = some []
subst_comb cm (b ∷ bs) = do
  ss ← subst_stmts cm b.stmts
  bs ← subst_comb cm bs
  some (record { stmts = flatten_stmts ss; locals = b.locals } ∷ bs)

pub subst_seq : ConstMap → List SeqBlock → Option (List SeqBlock)
unfolding subst_stmts flatten_stmts
subst_seq cm [] = some []
subst_seq cm (b ∷ bs) = do
  ss ← subst_stmts cm b.stmts
  bs ← subst_seq cm bs
  some (record { edges = b.edges; stmts = flatten_stmts ss; locals = b.locals } ∷ bs)

abbrev pub propagate_with : IrModule → ConstMap → Option IrModule
propagate_with ir [] = some ir
propagate_with ir cm = do
  comb ← subst_comb cm ir.comb_blocks
  seq ← subst_seq cm ir.seq_blocks
  some (record ir { comb_blocks = comb; seq_blocks = seq })

unfoldable pub const_propagate : IrModule → Option IrModule
unfolding const_map subst_comb subst_seq
const_propagate ir = propagate_with ir (const_map ir)
