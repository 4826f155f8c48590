-- ===== src/Flatten/Topo/ReadEdges.antt =====
-- The graph of the nodes has an edge from the writer of a signal to each node that reads it.
use veripy.Base.{
  ℕ, zero, suc, ◌+◌, ◌<◌, ◌≡◌, ◌≢◌, sym, ap, ◌∙◌, String, true, ◌&&◌, not, List, [], ◌∷◌, ◌++◌,
  Option, some, none, ◌==◌, length, contains, lookup, same, same→eq, Bool-cases, inl, inr, of_some,
  subst, arith,
}
use veripy.Ir.{IrModule}
use veripy.Flatten.Kahn.{Edges}
use veripy.Flatten.Kahn.Complete.{IsRanking}
use veripy.Flatten.Topo.{
  Node, nodes, all_locals, node_reads, Writers, writers, edge_from, reader_edges, inter_edges,
  has_edge, add_edge, read_locals, order_writes, block_edges, intra_edges, dependencies,
  writes_full, reads_full,
}

-- Edges that are there stay.
has_edge-append_left :
    (es fs : Edges) (i j : ℕ) → has_edge es i j ≡ true → has_edge (es ++ fs) i j ≡ true
has_edge-append_left [] fs i j h = cc
has_edge-append_left ((a, b) ∷ es) fs i j h = ground (arith, has_edge-append_left es fs i j)

has_edge-append_right :
    (es fs : Edges) (i j : ℕ) → has_edge fs i j ≡ true → has_edge (es ++ fs) i j ≡ true
has_edge-append_right [] fs i j h = h
has_edge-append_right ((a, b) ∷ es) fs i j h = ground (arith, has_edge-append_right es fs i j)

module _ (a b : ℕ) where
  add_edge-keeps :
      (o : Option ℕ) (i : ℕ) (es : Edges)
      → has_edge es a b ≡ true
      → has_edge (add_edge o i es) a b ≡ true
  add_edge-keeps none i es h = h
  add_edge-keeps (some k) i es h = elim (Bool-cases (not (k == i) && not (has_edge es k i))) [
    | inl e ↦ rw e (has_edge-append_left es ((k, i) ∷ []) a b h)
    | inr e ↦ rw e h
  ]

  read_locals-keeps :
      (locals : List String) (cur : Writers) (i : ℕ) (sigs : List String) (es : Edges)
      → has_edge es a b ≡ true
      → has_edge (read_locals locals cur i sigs es) a b ≡ true
  read_locals-keeps locals cur i [] es h = h
  read_locals-keeps locals cur i (sig ∷ sigs) es h = elim (Bool-cases (contains locals sig)) [
    | inl e ↦ rw e (read_locals-keeps locals cur i sigs _ (add_edge-keeps (lookup sig cur) i es h))
    | inr e ↦ rw e (read_locals-keeps locals cur i sigs es h)
  ]

  order_writes-keeps :
      (i : ℕ) (sigs : List String) (cur : Writers) (es : Edges)
      → has_edge es a b ≡ true
      → has_edge (order_writes i sigs cur es).1 a b ≡ true
  order_writes-keeps i [] cur es h = h
  order_writes-keeps i (sig ∷ sigs) cur es h =
      order_writes-keeps i sigs _ _ (add_edge-keeps (lookup sig cur) i es h)

  block_edges-keeps :
      (locals : List String) (bid i : ℕ) (xs : List (ℕ × Node)) (cur : Writers) (es : Edges)
      → has_edge es a b ≡ true
      → has_edge (block_edges locals bid i xs cur es) a b ≡ true
  unfolding block_edges
  block_edges-keeps locals bid i [] cur es h = h
  block_edges-keeps locals bid i ((k, x) ∷ xs) cur es h = elim (Bool-cases (k == bid)) [
    | inl e ↦ rw e (
        block_edges-keeps locals bid (i + 1) xs _ _ (
          order_writes-keeps i (writes_full x) cur _
            (read_locals-keeps locals cur i (reads_full x) es h)))
    | inr e ↦ rw e (block_edges-keeps locals bid (i + 1) xs cur es h)
  ]

  intra_edges-keeps :
      (locals : List String) (xs : List (ℕ × Node)) (bid m : ℕ) (es : Edges)
      → has_edge es a b ≡ true
      → has_edge (intra_edges locals xs bid m es) a b ≡ true
  unfolding intra_edges
  intra_edges-keeps locals xs bid zero es h = h
  intra_edges-keeps locals xs bid (suc m) es h =
      intra_edges-keeps locals xs (bid + 1) m _ (block_edges-keeps locals bid 0 xs [] es h)

edge_from-has : (i j : ℕ) (es : Edges) → i ≢ j → has_edge (edge_from (some i) j es) i j ≡ true
edge_from-has i j es ne = ground arith

edge_from-keeps :
    (o : Option ℕ) (j a b : ℕ) (es : Edges)
    → has_edge es a b ≡ true
    → has_edge (edge_from o j es) a b ≡ true
edge_from-keeps none j a b es h = h
edge_from-keeps (some i) j a b es h = ground arith

reader_edges-has :
    (d : Writers) (i j : ℕ) (sigs : List String) (sig : String)
    → contains sigs sig ≡ true
    → lookup sig d ≡ some i
    → i ≢ j
    → has_edge (reader_edges d j sigs) i j ≡ true
reader_edges-has d i j [] sig c l ne = cc
reader_edges-has d i j (x ∷ sigs) sig c l ne = elim (Bool-cases (same x sig)) [
  | inl e ↦
      let at : lookup x d ≡ some i = ap (λ s. lookup s d) (same→eq x sig e) ∙ l in
      rw at (edge_from-has i j (reader_edges d j sigs) ne)
  | inr e ↦
      edge_from-keeps (lookup x d) j i j (reader_edges d j sigs)
        (reader_edges-has d i j sigs sig (rw e at c) l ne)
]

abbrev pub node_at : List (ℕ × Node) → ℕ → Option Node
node_at [] i = none
node_at ((bid, x) ∷ xs) zero = some x
node_at ((bid, x) ∷ xs) (suc i) = node_at xs i

inter_edges-has :
    (locals : List String) (d : Writers) (i k j : ℕ) (xs : List (ℕ × Node)) (x : Node)
    (sig : String)
    → node_at xs j ≡ some x
    → contains (node_reads locals x) sig ≡ true
    → lookup sig d ≡ some i
    → i ≢ k + j
    → has_edge (inter_edges locals d k xs) i (k + j) ≡ true
unfolding inter_edges
inter_edges-has locals d i k j [] x sig at c l ne = cc
inter_edges-has locals d i k zero ((bid, y) ∷ xs) x sig at c l ne =
    let here : k + 0 ≡ k = omega arith in
    subst
      (λ m.
        has_edge (reader_edges d k (node_reads locals y) ++ inter_edges locals d (k + 1) xs) i m
        ≡ true)
      (sym here)
      (has_edge-append_left (reader_edges d k (node_reads locals y))
        (inter_edges locals d (k + 1) xs) i k
        (reader_edges-has d i k (node_reads locals y) sig
          (ap (λ z. contains (node_reads locals z) sig) (sym (of_some at)) ∙ c) l (omega arith)))
inter_edges-has locals d i k (suc j) ((bid, y) ∷ xs) x sig at c l ne =
    let there : k + 1 + j ≡ k + suc j = omega arith in
    has_edge-append_right (reader_edges d k (node_reads locals y)) (inter_edges locals d (k + 1) xs)
      i (k + suc j)
      (subst (λ m. has_edge (inter_edges locals d (k + 1) xs) i m ≡ true) there
        (inter_edges-has locals d i (k + 1) j xs x sig at c l (omega arith)))

-- The node that writes a signal, as the graph has it: the last one.
abbrev pub writer_of : IrModule → String → Option ℕ
writer_of ir sig = lookup sig (writers (all_locals ir.comb_blocks) 0 (nodes ir) [])

pub dependencies-has :
    (ir : IrModule) (i j : ℕ) (x : Node) (sig : String)
    → node_at (nodes ir) j ≡ some x
    → contains (node_reads (all_locals ir.comb_blocks) x) sig ≡ true
    → writer_of ir sig ≡ some i
    → i ≢ j
    → has_edge (dependencies ir) i j ≡ true
unfolding dependencies
dependencies-has ir i j x sig at c l ne =
    let locals = all_locals ir.comb_blocks in
    let xs = nodes ir in
    let d = writers locals 0 xs [] in
    intra_edges-keeps i j locals xs 0 (length ir.assigns + length ir.comb_blocks)
      (inter_edges locals d 0 xs)
      (subst (λ m. has_edge (inter_edges locals d 0 xs) i m ≡ true) {x = 0 + j} (omega arith)
        (inter_edges-has locals d i 0 j xs x sig at c l (omega arith)))

pub ranked-edge :
    (rank : ℕ → ℕ) (es : Edges) (i j : ℕ)
    → IsRanking rank es
    → has_edge es i j ≡ true
    → rank i < rank j
ranked-edge rank [] i j r h = cc
ranked-edge rank ((a, b) ∷ es) i j r h = elim (Bool-cases ((a == i) && (b == j))) [
  | inl e ↦
      let same_a : a ≡ i = ground (arith, e) in
      let same_b : b ≡ j = ground (arith, e) in
      subst (λ x. rank i < rank x) same_b (subst (λ x. rank x < rank b) same_a r.0)
  | inr e ↦ ranked-edge rank es i j r.1 (rw e at h)
]
