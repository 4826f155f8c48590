-- ===== src/Flatten/Topo/Tests.antt =====
-- A chain of two assignments in the wrong order, and a loop of two.
use veripy.Base.{
  ℕ, ◌≡◌, ◌≢◌, ◌↔◌, ◌<◌, refl, String, true, List, [], ◌∷◌, Option, some, none, same, contains,
  length, arith, count, ltb,
}
use veripy.Base.Int.{pos}
use veripy.Ir.{Expr, const, sig, bin_op, plus, assign, scons, snil, ContAssign, CombBlock, IrModule}
use veripy.Flatten.Reads.{expr_reads}
use veripy.Flatten.Kahn.{topo_order}
use veripy.Flatten.Kahn.Invariant.{Ends}
use veripy.Flatten.Kahn.Sound.{topo_order_total}
use veripy.Flatten.Kahn.Degrees.{one_if}
use veripy.Flatten.Kahn.Complete.{IsRanking, index_of}
use veripy.Flatten.Topo.{
  Node, nodes, all_locals, node_reads, dependencies, sorted_nodes, topo_sort_comb,
}
use veripy.Flatten.Topo.ReadEdges.{node_at, writer_of}
use veripy.Flatten.Topo.Loopless.{Loopless}
use veripy.Flatten.Topo.Sorted.{sorted_nodes-order_lem, topo_sort_comb_iff}

abbrev with_assigns : List ContAssign → IrModule
with_assigns xs = record {
  name = "chain";
  params = [];
  ports = [];
  wires = [];
  regs = [];
  mems = [];
  instances = [];
  assigns = xs;
  comb_blocks = [];
  seq_blocks = [];
  initial_blocks = [];
  always_blocks = [];
  formal_props = [];
}

-- `y` reads `t`, which the second assignment writes.
abbrev chain : IrModule
chain = with_assigns (
    record { target = "y"; value = bin_op plus (sig "t") (const (pos 1)) }
    ∷ record { target = "t"; value = sig "a" }
    ∷ [])

abbrev loop : IrModule
loop =
    with_assigns
      (record { target = "y"; value = sig "t" } ∷ record { target = "t"; value = sig "y" } ∷ [])

abbrev blocks_of : Option IrModule → List CombBlock
blocks_of none = []
blocks_of (some ir) = ir.comb_blocks

abbrev store_in : String → Expr → CombBlock
store_in k e = record { stmts = scons (assign k e true) snil; locals = [] }

chain_sorted :
    blocks_of (topo_sort_comb chain)
    ≡ store_in "t" (sig "a") ∷ store_in "y" (bin_op plus (sig "t") (const (pos 1))) ∷ []
unfolding topo_sort_comb expr_reads same
chain_sorted = refl

loop_fails : topo_sort_comb loop ≡ none
unfolding topo_sort_comb expr_reads same
loop_fails = refl

-- A node that reads what it writes.
own_loop_passes :
    blocks_of (topo_sort_comb (with_assigns (record { target = "y"; value = sig "y" } ∷ [])))
    ≡ store_in "y" (sig "y") ∷ []
unfolding topo_sort_comb expr_reads same
own_loop_passes = refl

chain_order : sorted_nodes chain ≡ some (1 ∷ 0 ∷ [])
unfolding sorted_nodes expr_reads same
chain_order = refl

sorted_nodes-order_example :
    ((v : ℕ) → count v (1 ∷ 0 ∷ []) ≡ one_if (ltb v (length (nodes chain))))
    × ((i j : ℕ) (x : Node) (sig : String)
        → node_at (nodes chain) j ≡ some x
        → contains (node_reads (all_locals chain.comb_blocks) x) sig ≡ true
        → writer_of chain sig ≡ some i
        → i ≢ j
        → index_of i (1 ∷ 0 ∷ []) < index_of j (1 ∷ 0 ∷ []))
sorted_nodes-order_example = sorted_nodes-order_lem chain (1 ∷ 0 ∷ []) chain_order

topo_sort_comb_iff_example :
    (((out : IrModule) × (topo_sort_comb chain ≡ some out))
      ↔ ((rank : ℕ → ℕ) × IsRanking rank (dependencies chain)))
    × Loopless (dependencies chain)
topo_sort_comb_iff_example = topo_sort_comb_iff chain

topo_order_total_example :
    (order : List ℕ) × (topo_order 3 ((2, 0) ∷ (0, 1) ∷ []) ≡ some order)
    × Ends 3 ((2, 0) ∷ (0, 1) ∷ []) order
topo_order_total_example =
    topo_order_total 3 ((2, 0) ∷ (0, 1) ∷ [])
      ((omega arith, omega arith), ((omega arith, omega arith), tt))
