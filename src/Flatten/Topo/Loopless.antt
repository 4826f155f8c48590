-- ===== src/Flatten/Topo/Loopless.antt =====
-- No edge joins a node with itself.
use veripy.Base.{
  ℕ, zero, suc, ◌+◌, ◌≢◌, String, ◌&&◌, not, List, [], ◌∷◌, Option, some, none, ◌==◌, length,
  contains, lookup, insert, Bool-cases, inl, inr, All, All-append, arith,
}
use veripy.Ir.{IrModule}
use veripy.Flatten.Kahn.{Edges}
use veripy.Flatten.Topo.{
  Node, nodes, all_locals, writes_full, reads_full, node_reads, Writers, writers, edge_from,
  reader_edges, inter_edges, has_edge, add_edge, read_locals, order_writes, block_edges,
  intra_edges, dependencies,
}

abbrev Apart : ℕ × ℕ → Type 0
Apart e = e.0 ≢ e.1

abbrev pub Loopless : Edges → Type 0
Loopless es = All Apart es

edge_from-Loopless : (o : Option ℕ) (j : ℕ) (es : Edges) → Loopless es → Loopless (edge_from o j es)
edge_from-Loopless none j es l = l
edge_from-Loopless (some i) j es l = elim (Bool-cases (i == j)) [
  | inl e ↦ rw e l
  | inr e ↦ rw e ((λ same. ground arith), l)
]

reader_edges-Loopless :
    (d : Writers) (j : ℕ) (sigs : List String) → Loopless (reader_edges d j sigs)
reader_edges-Loopless d j [] = tt
reader_edges-Loopless d j (sig ∷ sigs) =
    edge_from-Loopless (lookup sig d) j (reader_edges d j sigs) (reader_edges-Loopless d j sigs)

add_edge-Loopless : (o : Option ℕ) (i : ℕ) (es : Edges) → Loopless es → Loopless (add_edge o i es)
add_edge-Loopless none i es l = l
add_edge-Loopless (some k) i es l = elim (Bool-cases (not (k == i) && not (has_edge es k i))) [
  | inl e ↦ rw e (All-append Apart es ((k, i) ∷ []) l ((λ same. ground arith), tt))
  | inr e ↦ rw e l
]

order_writes-Loopless :
    (i : ℕ) (sigs : List String) (cur : Writers) (es : Edges)
    → Loopless es
    → Loopless (order_writes i sigs cur es).1
order_writes-Loopless i [] cur es l = l
order_writes-Loopless i (sig ∷ sigs) cur es l =
    order_writes-Loopless i sigs (insert sig i cur) (add_edge (lookup sig cur) i es)
      (add_edge-Loopless (lookup sig cur) i es l)

module _ (locals : List String) where
  inter_edges-Loopless :
      (d : Writers) (j : ℕ) (xs : List (ℕ × Node)) → Loopless (inter_edges locals d j xs)
  unfolding inter_edges
  inter_edges-Loopless d j [] = tt
  inter_edges-Loopless d j ((bid, x) ∷ xs) =
      All-append Apart (reader_edges d j (node_reads locals x)) (inter_edges locals d (j + 1) xs)
        (reader_edges-Loopless d j (node_reads locals x)) (inter_edges-Loopless d (j + 1) xs)

  read_locals-Loopless :
      (cur : Writers) (i : ℕ) (sigs : List String) (es : Edges)
      → Loopless es
      → Loopless (read_locals locals cur i sigs es)
  read_locals-Loopless cur i [] es l = l
  read_locals-Loopless cur i (sig ∷ sigs) es l = elim (Bool-cases (contains locals sig)) [
    | inl e ↦ rw e (
        read_locals-Loopless cur i sigs (add_edge (lookup sig cur) i es)
          (add_edge-Loopless (lookup sig cur) i es l))
    | inr e ↦ rw e (read_locals-Loopless cur i sigs es l)
  ]

  block_edges-Loopless :
      (bid i : ℕ) (xs : List (ℕ × Node)) (cur : Writers) (es : Edges)
      → Loopless es
      → Loopless (block_edges locals bid i xs cur es)
  unfolding block_edges
  block_edges-Loopless bid i [] cur es l = l
  block_edges-Loopless bid i ((k, x) ∷ xs) cur es l = elim (Bool-cases (k == bid)) [
    | inl e ↦
        let read = read_locals locals cur i (reads_full x) es in
        let step = order_writes i (writes_full x) cur read in
        rw e (
          block_edges-Loopless bid (i + 1) xs step.0 step.1 (
            order_writes-Loopless i (writes_full x) cur read
              (read_locals-Loopless cur i (reads_full x) es l)))
    | inr e ↦ rw e (block_edges-Loopless bid (i + 1) xs cur es l)
  ]

  intra_edges-Loopless :
      (xs : List (ℕ × Node)) (bid m : ℕ) (es : Edges)
      → Loopless es
      → Loopless (intra_edges locals xs bid m es)
  unfolding intra_edges
  intra_edges-Loopless xs bid zero es l = l
  intra_edges-Loopless xs bid (suc m) es l =
      intra_edges-Loopless xs (bid + 1) m (block_edges locals bid 0 xs [] es)
        (block_edges-Loopless bid 0 xs [] es l)

pub dependencies-Loopless : (ir : IrModule) → Loopless (dependencies ir)
unfolding dependencies
dependencies-Loopless ir =
    let xs = nodes ir in
    let locals = all_locals ir.comb_blocks in
    intra_edges-Loopless locals xs 0 (length ir.assigns + length ir.comb_blocks)
      (inter_edges locals (writers locals 0 xs []) 0 xs)
      (inter_edges-Loopless locals (writers locals 0 xs []) 0 xs)
