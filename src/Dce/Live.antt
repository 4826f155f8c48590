-- ===== src/Dce/Live.antt =====
-- `dead_code_eliminate` and `optimize` of veripy/dce.py.
pub mod Reads
pub mod Sweep
pub mod Simulate
pub mod Sound
use veripy.Base.{
  ℕ, zero, suc, String, Bool, true, false, ◌&&◌, ◌||◌, not, List, [], ◌∷◌, ◌++◌, map, Option, some,
  none, ◌>>=◌, if◌then◌else◌, contains, meets, length,
}
use veripy.Ir.{
  CombBlock, SeqBlock, IrModule, Port, WireDecl, RegDecl, EdgeKind, Direction, input, output, inout,
}
use veripy.Flatten.Reads.{stmts_writes, stmts_reads}
use veripy.Dce.Propagate.{const_propagate}

-- `new = r - live` is empty.
abbrev pub covers : List String → List String → Bool
covers live [] = true
covers live (x ∷ xs) = contains live x && covers live xs

abbrev pub is_output : Direction → Bool
is_output output = true
is_output _ = false

pub output_names : List Port → List String
output_names [] = []
output_names (p ∷ ps) =
    let rest = output_names ps in if is_output p.direction then p.name ∷ rest else rest

abbrev pub edge_signals : List (EdgeKind × String) → List String
edge_signals [] = []
edge_signals ((kind, s) ∷ es) = s ∷ edge_signals es

pub seq_reads : List SeqBlock → List String
seq_reads [] = []
seq_reads (b ∷ bs) = stmts_reads b.stmts ++ (edge_signals b.edges ++ seq_reads bs)

-- A combinational block with its membership in `live_blocks`.
pub record Entry : Type 0 where
  pub block : CombBlock
  pub marked : Bool

abbrev pub block_writes : Entry → List String
block_writes e = stmts_writes e.block.stmts

abbrev pub block_reads : Entry → List String
block_reads e = stmts_reads e.block.stmts

abbrev pub mark : Entry → Entry
mark e = record e { marked = true }

-- The `for` loop: the entries, `live` and `changed` after it.
unfoldable pub sweep : List Entry → List String → Bool → List Entry × List String × Bool
sweep [] live changed = ([], live, changed)
sweep (e ∷ es) live changed =
    let keep = sweep es live changed in
    let grow = sweep es (live ++ block_reads e) true in
    if not e.marked && meets (block_writes e) live
    then (if covers live (block_reads e)
        then (mark e ∷ keep.0, keep.1, keep.2)
        else (mark e ∷ grow.0, grow.1, grow.2))
    else (e ∷ keep.0, keep.1, keep.2)

-- The `while` loop, on fuel; `none` is a loop that is still running.
unfoldable pub mark_live : ℕ → List Entry → List String → Option (List Entry × List String)
unfolding sweep
mark_live zero es live = none
mark_live (suc fuel) es live =
    let s = sweep es live false in
    let again = mark_live fuel s.0 s.1 in if s.2 then again else some (s.0, s.1)

abbrev pub unmarked : CombBlock → Entry
unmarked b = record { block = b; marked = false }

abbrev pub kept_blocks : List Entry → List CombBlock
kept_blocks [] = []
kept_blocks (e ∷ es) = if e.marked then e.block ∷ kept_blocks es else kept_blocks es

unfoldable pub live_names : IrModule → List String
unfolding output_names seq_reads
live_names ir = output_names ir.ports ++ seq_reads ir.seq_blocks

-- The loop marks at least one block in each round but the last.
unfoldable pub live_entries : IrModule → Option (List Entry × List String)
unfolding mark_live live_names
live_entries ir =
    mark_live (suc (length ir.comb_blocks)) (map unmarked ir.comb_blocks) (live_names ir)

pub comb_names : List CombBlock → List String
comb_names [] = []
comb_names (b ∷ bs) = stmts_writes b.stmts ++ (stmts_reads b.stmts ++ comb_names bs)

pub seq_names : List SeqBlock → List String
seq_names [] = []
seq_names (b ∷ bs) =
    stmts_writes b.stmts ++ (stmts_reads b.stmts ++ (edge_signals b.edges ++ seq_names bs))

abbrev pub port_names : List Port → List String
port_names [] = []
port_names (p ∷ ps) = p.name ∷ port_names ps

-- `declared_needed`
pub needed_names : IrModule → List String
unfolding comb_names seq_names
needed_names ir = comb_names ir.comb_blocks ++ (seq_names ir.seq_blocks ++ port_names ir.ports)

abbrev pub prune_wires : List String → List WireDecl → List WireDecl
prune_wires needed [] = []
prune_wires needed (w ∷ ws) =
    if contains needed w.name then w ∷ prune_wires needed ws else prune_wires needed ws

abbrev pub prune_regs : List String → List RegDecl → List RegDecl
prune_regs needed [] = []
prune_regs needed (r ∷ rs) =
    if contains needed r.name then r ∷ prune_regs needed rs else prune_regs needed rs

abbrev pub all_marked : List Entry → Bool
all_marked [] = true
all_marked (e ∷ es) = e.marked && all_marked es

abbrev pub with_blocks : IrModule → List CombBlock → IrModule
with_blocks ir bs = record ir { comb_blocks = bs }

abbrev pub prune : IrModule → List String → IrModule
prune ir needed = record ir {
  wires = prune_wires needed ir.wires;
  regs = prune_regs needed ir.regs;
}

unfoldable pub dead_code_eliminate : IrModule → Option IrModule
unfolding live_entries needed_names
dead_code_eliminate ir = do
  (es, live) ← live_entries ir
  let out = with_blocks ir (kept_blocks es)
  some (if all_marked es then ir else prune out (needed_names out))

-- `optimize`
unfoldable pub optimize : IrModule → Option IrModule
unfolding const_propagate dead_code_eliminate
optimize ir = do ir ← const_propagate ir; dead_code_eliminate ir
