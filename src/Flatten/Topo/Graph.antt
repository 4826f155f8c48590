-- ===== src/Flatten/Topo/Graph.antt =====
-- The edges join nodes, and each node that reads a signal has one from the node that writes it.
use veripy.Base.{
  ℕ, zero, suc, ◌+◌, ◌≤◌, ◌<◌, ◌≡◌, refl, sym, String, ◌&&◌, not, List, [], ◌∷◌, Option, some, none,
  ◌==◌, length, contains, lookup, insert, same, Bool-cases, inl, inr, All, All-append, of_some,
  subst, arith,
}
use veripy.Ir.{IrModule}
use veripy.Flatten.Kahn.{Edges}
use veripy.Flatten.Kahn.Invariant.{InRange}
use veripy.Flatten.Topo.{
  Node, nodes, all_locals, writes_full, reads_full, node_writes, node_reads, Writers, note_writes,
  writers, edge_from, reader_edges, inter_edges, has_edge, add_edge, read_locals, order_writes,
  block_edges, intra_edges, dependencies,
}

abbrev Below : ℕ → Writers → Type 0
Below n d = All (λ e. e.1 < n) d

insert-Below :
    (n : ℕ) (k : String) (i : ℕ) (d : Writers) → i < n → Below n d → Below n (insert k i d)
insert-Below n k i [] lt b = (lt, tt)
insert-Below n k i ((j, w) ∷ d) lt b = elim (Bool-cases (same j k)) [
  | inl e ↦ rw e (lt, b.1)
  | inr e ↦ rw e (b.0, insert-Below n k i d lt b.1)
]

lookup-Below : (n : ℕ) (k : String) (d : Writers) {i : ℕ} → Below n d → lookup k d ≡ some i → i < n
lookup-Below n k [] b h = absurd cc
lookup-Below n k ((j, w) ∷ d) {i} b h = elim (Bool-cases (same j k)) [
  | inl e ↦ subst (λ x. x < n) (sym (of_some (rw e at h))) b.0
  | inr e ↦ lookup-Below n k d b.1 (rw e at h)
]

note_writes-Below :
    (n i : ℕ) (sigs : List String) (d : Writers)
    → i < n
    → Below n d
    → Below n (note_writes i sigs d)
note_writes-Below n i [] d lt b = b
note_writes-Below n i (sig ∷ sigs) d lt b =
    note_writes-Below n i sigs (insert sig i d) lt (insert-Below n sig i d lt b)

module _ (n : ℕ) (locals : List String) where
  writers-Below :
      (i : ℕ) (xs : List (ℕ × Node)) (d : Writers)
      → i + length xs ≤ n
      → Below n d
      → Below n (writers locals i xs d)
  unfolding writers
  writers-Below i [] d le b = b
  writers-Below i ((bid, x) ∷ xs) d le b =
      writers-Below (i + 1) xs (note_writes i (node_writes locals x) d) (omega arith)
        (note_writes-Below n i (node_writes locals x) d (omega arith) b)

  edge_from-InRange :
      (o : Option ℕ) (j : ℕ) (es : Edges)
      → ((i : ℕ) → o ≡ some i → i < n)
      → j < n
      → InRange n es
      → InRange n (edge_from o j es)
  edge_from-InRange none j es h lt r = r
  edge_from-InRange (some i) j es h lt r = elim (Bool-cases (i == j)) [
    | inl e ↦ rw e r
    | inr e ↦ rw e ((h i refl, lt), r)
  ]

  reader_edges-InRange :
      (d : Writers) (j : ℕ) (sigs : List String)
      → Below n d
      → j < n
      → InRange n (reader_edges d j sigs)
  reader_edges-InRange d j [] b lt = tt
  reader_edges-InRange d j (sig ∷ sigs) b lt =
      edge_from-InRange (lookup sig d) j (reader_edges d j sigs) (λ i. lookup-Below n sig d b) lt
        (reader_edges-InRange d j sigs b lt)

  inter_edges-InRange :
      (d : Writers) (j : ℕ) (xs : List (ℕ × Node))
      → Below n d
      → j + length xs ≤ n
      → InRange n (inter_edges locals d j xs)
  unfolding inter_edges
  inter_edges-InRange d j [] b le = tt
  inter_edges-InRange d j ((bid, x) ∷ xs) b le =
      All-append (λ (e : ℕ × ℕ). (e.0 < n) × (e.1 < n)) (reader_edges d j (node_reads locals x))
        (inter_edges locals d (j + 1) xs)
        (reader_edges-InRange d j (node_reads locals x) b (omega arith))
        (inter_edges-InRange d (j + 1) xs b (omega arith))

  add_edge-InRange :
      (o : Option ℕ) (i : ℕ) (es : Edges)
      → ((k : ℕ) → o ≡ some k → k < n)
      → i < n
      → InRange n es
      → InRange n (add_edge o i es)
  add_edge-InRange none i es h lt r = r
  add_edge-InRange (some k) i es h lt r =
      elim (Bool-cases (not (k == i) && not (has_edge es k i))) [
        | inl e ↦ rw e (
            All-append (λ (e : ℕ × ℕ). (e.0 < n) × (e.1 < n)) es ((k, i) ∷ []) r
              ((h k refl, lt), tt))
        | inr e ↦ rw e r
      ]

  read_locals-InRange :
      (cur : Writers) (i : ℕ) (sigs : List String) (es : Edges)
      → Below n cur
      → i < n
      → InRange n es
      → InRange n (read_locals locals cur i sigs es)
  read_locals-InRange cur i [] es b lt r = r
  read_locals-InRange cur i (sig ∷ sigs) es b lt r = elim (Bool-cases (contains locals sig)) [
    | inl e ↦ rw e (
        read_locals-InRange cur i sigs (add_edge (lookup sig cur) i es) b lt
          (add_edge-InRange (lookup sig cur) i es (λ k. lookup-Below n sig cur b) lt r))
    | inr e ↦ rw e (read_locals-InRange cur i sigs es b lt r)
  ]

  order_writes-InRange :
      (i : ℕ) (sigs : List String) (cur : Writers) (es : Edges)
      → Below n cur
      → i < n
      → InRange n es
      → Below n (order_writes i sigs cur es).0 × InRange n (order_writes i sigs cur es).1
  order_writes-InRange i [] cur es b lt r = (b, r)
  order_writes-InRange i (sig ∷ sigs) cur es b lt r =
      order_writes-InRange i sigs (insert sig i cur) (add_edge (lookup sig cur) i es)
        (insert-Below n sig i cur lt b) lt
        (add_edge-InRange (lookup sig cur) i es (λ k. lookup-Below n sig cur b) lt r)

  block_edges-InRange :
      (bid i : ℕ) (xs : List (ℕ × Node)) (cur : Writers) (es : Edges)
      → i + length xs ≤ n
      → Below n cur
      → InRange n es
      → InRange n (block_edges locals bid i xs cur es)
  unfolding block_edges
  block_edges-InRange bid i [] cur es le b r = r
  block_edges-InRange bid i ((k, x) ∷ xs) cur es le b r = elim (Bool-cases (k == bid)) [
    | inl e ↦
        let read = read_locals locals cur i (reads_full x) es in
        let done =
          order_writes-InRange i (writes_full x) cur read b (omega arith)
            (read_locals-InRange cur i (reads_full x) es b (omega arith) r) in
        let step = order_writes i (writes_full x) cur read in
        rw e (block_edges-InRange bid (i + 1) xs step.0 step.1 (omega arith) done.0 done.1)
    | inr e ↦ rw e (block_edges-InRange bid (i + 1) xs cur es (omega arith) b r)
  ]

  intra_edges-InRange :
      (xs : List (ℕ × Node)) (bid m : ℕ) (es : Edges)
      → length xs ≤ n
      → InRange n es
      → InRange n (intra_edges locals xs bid m es)
  unfolding intra_edges
  intra_edges-InRange xs bid zero es le r = r
  intra_edges-InRange xs bid (suc m) es le r =
      intra_edges-InRange xs (bid + 1) m (block_edges locals bid 0 xs [] es) le
        (block_edges-InRange bid 0 xs [] es (omega arith) tt r)

pub dependencies-InRange : (ir : IrModule) → InRange (length (nodes ir)) (dependencies ir)
unfolding dependencies
dependencies-InRange ir =
    let xs = nodes ir in
    let locals = all_locals ir.comb_blocks in
    let n = length xs in
    intra_edges-InRange n locals xs 0 (length ir.assigns + length ir.comb_blocks)
      (inter_edges locals (writers locals 0 xs []) 0 xs) (omega arith)
      (inter_edges-InRange n locals (writers locals 0 xs []) 0 xs
        (writers-Below n locals 0 xs [] (omega arith) tt) (omega arith))
