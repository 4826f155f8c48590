-- ===== src/Flatten/Topo.antt =====
-- `topo_sort_comb` of veripy/flatten.py: the nodes, the graph of what they write and read, and the
-- module in the order of Kahn's algorithm. A set of names is a list without repetitions; `none` is
-- the ValueError of a combinational loop.
pub mod Graph
pub mod ReadEdges
pub mod Loopless
pub mod Sorted
mod Tests
use veripy.Base.{
  ℕ, zero, suc, ◌+◌, String, Bool, true, false, ◌&&◌, ◌||◌, not, List, [], ◌∷◌, ◌++◌, Option, some,
  none, ◌==◌, length, if◌then◌else◌, contains, lookup, insert,
}
use veripy.Ir.{ContAssign, CombBlock, Stmts, snil, scons, assign, IrModule}
use veripy.Flatten.Reads.{expr_reads, stmts_writes, stmts_reads}
use veripy.Flatten.Kahn.{Edges, topo_order}

pub data Node : Type 0 where
  assign_node : ContAssign → Node
  comb_node : CombBlock → Node

abbrev pub each_stmt : List (String × ℕ) → Stmts → List Node
each_stmt locals snil = []
each_stmt locals (scons s ss) =
    comb_node (record { stmts = scons s snil; locals = locals }) ∷ each_stmt locals ss

-- A block of several statements is a node for each.
abbrev pub explode_stmts : CombBlock → Stmts → List Node
explode_stmts b (scons s (scons s' ss)) = each_stmt b.locals (scons s (scons s' ss))
explode_stmts b _ = comb_node b ∷ []

abbrev pub explode : CombBlock → List Node
explode b = explode_stmts b b.stmts

-- `nodes` with `node_block_id`.
abbrev pub tag : ℕ → List Node → List (ℕ × Node)
tag bid [] = []
tag bid (x ∷ xs) = (bid, x) ∷ tag bid xs

abbrev pub number_assigns : ℕ → List ContAssign → List (ℕ × Node)
number_assigns bid [] = []
number_assigns bid (a ∷ rest) = (bid, assign_node a) ∷ number_assigns (bid + 1) rest

abbrev pub number_combs : ℕ → List CombBlock → List (ℕ × Node)
number_combs bid [] = []
number_combs bid (b ∷ bs) = tag bid (explode b) ++ number_combs (bid + 1) bs

unfoldable pub nodes : IrModule → List (ℕ × Node)
nodes ir = number_assigns 0 ir.assigns ++ number_combs (length ir.assigns) ir.comb_blocks

-- The elements of a set, in some order.
abbrev pub dedup : List String → List String
dedup [] = []
dedup (x ∷ xs) = let rest = dedup xs in if contains rest x then rest else x ∷ rest

-- `a - b`
abbrev pub minus : List String → List String → List String
minus [] ys = []
minus (x ∷ xs) ys = let rest = minus xs ys in if contains ys x then rest else x ∷ rest

abbrev pub local_names : List (String × ℕ) → List String
local_names [] = []
local_names ((x, w) ∷ xs) = x ∷ local_names xs

pub all_locals : List CombBlock → List String
all_locals [] = []
all_locals (b ∷ bs) = local_names b.locals ++ all_locals bs

abbrev pub writes_full : Node → List String
writes_full (assign_node a) = a.target ∷ []
writes_full (comb_node b) = dedup (stmts_writes b.stmts)

abbrev pub reads_full : Node → List String
reads_full (assign_node a) = dedup (expr_reads a.value)
reads_full (comb_node b) = dedup (stmts_reads b.stmts)

abbrev pub node_writes : List String → Node → List String
node_writes locals (assign_node a) = writes_full (assign_node a)
node_writes locals (comb_node b) = minus (writes_full (comb_node b)) locals

abbrev pub node_reads : List String → Node → List String
node_reads locals (assign_node a) = reads_full (assign_node a)
node_reads locals (comb_node b) = minus (reads_full (comb_node b)) locals

abbrev pub Writers : Type 0
Writers = List (String × ℕ)

-- `writer[sig] = i`
abbrev pub note_writes : ℕ → List String → Writers → Writers
note_writes i [] d = d
note_writes i (sig ∷ sigs) d = note_writes i sigs (insert sig i d)

pub writers : List String → ℕ → List (ℕ × Node) → Writers → Writers
writers locals i [] d = d
writers locals i ((bid, x) ∷ xs) d =
    writers locals (i + 1) xs (note_writes i (node_writes locals x) d)

-- The edges to node `j` from the writers of what it reads.
abbrev pub edge_from : Option ℕ → ℕ → Edges → Edges
edge_from none j es = es
edge_from (some i) j es = if i == j then es else (i, j) ∷ es

abbrev pub reader_edges : Writers → ℕ → List String → Edges
reader_edges d j [] = []
reader_edges d j (sig ∷ sigs) = edge_from (lookup sig d) j (reader_edges d j sigs)

pub inter_edges : List String → Writers → ℕ → List (ℕ × Node) → Edges
inter_edges locals d j [] = []
inter_edges locals d j ((bid, x) ∷ xs) =
    reader_edges d j (node_reads locals x) ++ inter_edges locals d (j + 1) xs

-- `(src, i) not in edge_set`
abbrev pub has_edge : Edges → ℕ → ℕ → Bool
has_edge [] i j = false
has_edge ((a, b) ∷ es) i j = ((a == i) && (b == j)) || has_edge es i j

abbrev pub add_edge : Option ℕ → ℕ → Edges → Edges
add_edge none i es = es
add_edge (some src) i es =
    if not (src == i) && not (has_edge es src i) then es ++ ((src, i) ∷ []) else es

-- A local that is read after its writer.
abbrev pub read_locals : List String → Writers → ℕ → List String → Edges → Edges
read_locals locals cur i [] es = es
read_locals locals cur i (sig ∷ sigs) es =
    read_locals locals cur i sigs
      (if contains locals sig then add_edge (lookup sig cur) i es else es)

-- An earlier writer of the same signal comes first.
abbrev pub order_writes : ℕ → List String → Writers → Edges → Writers × Edges
order_writes i [] cur es = (cur, es)
order_writes i (sig ∷ sigs) cur es =
    order_writes i sigs (insert sig i cur) (add_edge (lookup sig cur) i es)

-- The loop over the nodes of one block, `i` the number of the next node.
pub block_edges : List String → ℕ → ℕ → List (ℕ × Node) → Writers → Edges → Edges
block_edges locals bid i [] cur es = es
block_edges locals bid i ((b, x) ∷ xs) cur es =
    let r = order_writes i (writes_full x) cur (read_locals locals cur i (reads_full x) es) in
    block_edges locals bid (i + 1) xs (if b == bid then r.0 else cur) (if b == bid then r.1 else es)

-- The loop over the blocks, from `bid` on with `m` blocks left.
pub intra_edges : List String → List (ℕ × Node) → ℕ → ℕ → Edges → Edges
unfolding block_edges
intra_edges locals xs bid zero es = es
intra_edges locals xs bid (suc m) es =
    intra_edges locals xs (bid + 1) m (block_edges locals bid 0 xs [] es)

unfoldable pub dependencies : IrModule → Edges
unfolding nodes all_locals writers inter_edges intra_edges
dependencies ir =
    let xs = nodes ir in
    let locals = all_locals ir.comb_blocks in
    intra_edges locals xs 0 (length ir.assigns + length ir.comb_blocks)
      (inter_edges locals (writers locals 0 xs []) 0 xs)

-- The order, where it holds every node.
abbrev pub full_order : ℕ → Option (List ℕ) → Option (List ℕ)
full_order n none = none
full_order n (some order) = if length order == n then some order else none

unfoldable pub sorted_nodes : IrModule → Option (List ℕ)
unfolding topo_order dependencies nodes
sorted_nodes ir = full_order (length (nodes ir)) (topo_order (length (nodes ir)) (dependencies ir))

-- A continuous assignment becomes a block of one statement.
abbrev pub as_block : Node → CombBlock
as_block (assign_node a) = record { stmts = scons (assign a.target a.value true) snil; locals = [] }
as_block (comb_node b) = b

abbrev pub block_at : List (ℕ × Node) → ℕ → List CombBlock
block_at [] i = []
block_at ((bid, x) ∷ xs) zero = as_block x ∷ []
block_at ((bid, x) ∷ xs) (suc i) = block_at xs i

abbrev pub blocks_at : List (ℕ × Node) → List ℕ → List CombBlock
blocks_at xs [] = []
blocks_at xs (i ∷ order) = block_at xs i ++ blocks_at xs order

abbrev pub rebuild : IrModule → List (ℕ × Node) → List ℕ → IrModule
rebuild ir xs order = record ir { assigns = []; comb_blocks = blocks_at xs order }

abbrev pub sort_with : IrModule → List (ℕ × Node) → Option (List ℕ) → Option IrModule
sort_with ir [] order = some ir
sort_with ir (x ∷ xs) none = none
sort_with ir (x ∷ xs) (some order) = some (rebuild ir (x ∷ xs) order)

unfoldable pub topo_sort_comb : IrModule → Option IrModule
unfolding sorted_nodes nodes
topo_sort_comb ir = sort_with ir (nodes ir) (sorted_nodes ir)
