-- ===== src/Flatten/Topo/Sorted.antt =====
-- The order of the nodes, and when there is one.
use veripy.Base.{
  ℕ, ◌<◌, ◌≡◌, ◌≢◌, ◌↔◌, refl, sym, ap, ◌∙◌, String, true, List, [], ◌∷◌, Option, some, none, ◌==◌,
  ==_iff, ltb, length, contains, Bool-cases, Option-cases, inl, inr, count, of_some, subst, arith,
}
use veripy.Ir.{IrModule}
use veripy.Flatten.Kahn.{Edges, topo_order}
use veripy.Flatten.Kahn.Degrees.{one_if}
use veripy.Flatten.Kahn.Invariant.{InRange, Ends}
use veripy.Flatten.Kahn.Sound.{topo_order_total}
use veripy.Flatten.Kahn.Counts.{count-full}
use veripy.Flatten.Kahn.Complete.{IsRanking, index_of, complete_iff, index_of-IsRanking, count-le}
use veripy.Flatten.Topo.{
  Node, nodes, all_locals, node_reads, dependencies, full_order, sorted_nodes, topo_sort_comb,
  sort_with, rebuild,
}
use veripy.Flatten.Topo.Graph.{dependencies-InRange}
use veripy.Flatten.Topo.Loopless.{Loopless, dependencies-Loopless}
use veripy.Flatten.Topo.ReadEdges.{node_at, writer_of, dependencies-has, ranked-edge}

full_order-some :
    (n : ℕ) (o : Option (List ℕ)) (order : List ℕ)
    → (full_order n o ≡ some order) ↔ ((o ≡ some order) × (length order ≡ n))
full_order-some n none order = (λ h. cc, λ h. cc)
full_order-some n (some l) order = elim (Bool-cases (length l == n)) [
  | inl full ↦ (
    λ h.
        let same : some l ≡ some order = rw full at h in
        (same, ap length (of_some same) ∙ (==_iff (length l) n).0 full),
    λ h. rw full h.0,
  )
  | inr less ↦
      (λ h. cc (rw less at h), λ h. absurd (ground (arith, less, ap length (of_some h.0), h.1)))
]

-- What `sorted_nodes` answers is the order of the loop, and holds all nodes.
sorted_nodes-order :
    (ir : IrModule) (order : List ℕ)
    → (sorted_nodes ir ≡ some order) ↔ (
        (topo_order (length (nodes ir)) (dependencies ir) ≡ some order)
        × (length order ≡ length (nodes ir)))
unfolding sorted_nodes
sorted_nodes-order ir order =
    full_order-some (length (nodes ir)) (topo_order (length (nodes ir)) (dependencies ir)) order

module _ (ir : IrModule) (order : List ℕ) (h : sorted_nodes ir ≡ some order) where
  sorted-Ends : Ends (length (nodes ir)) (dependencies ir) order
  sorted-Ends =
      let (l, e, ends) =
        topo_order_total (length (nodes ir)) (dependencies ir) (dependencies-InRange ir) in
      subst (Ends (length (nodes ir)) (dependencies ir))
        (of_some (sym ((sorted_nodes-order ir order).0 h).0 ∙ e)) ends

  sorted-once : (v : ℕ) → v < length (nodes ir) → count v order ≡ 1
  sorted-once =
      count-full (length (nodes ir)) order
        (count-le (length (nodes ir)) (dependencies ir) (dependencies-InRange ir) order sorted-Ends)
        ((sorted_nodes-order ir order).0 h).1

  -- The order that topo_sort_comb finds holds every node once and nothing else, and a node that
  -- reads a signal, other than a local, stands behind the last node that writes it, where that is
  -- another one.
  pub sorted_nodes-order_lem :
      ((v : ℕ) → count v order ≡ one_if (ltb v (length (nodes ir))))
      × ((i j : ℕ) (x : Node) (sig : String)
          → node_at (nodes ir) j ≡ some x
          → contains (node_reads (all_locals ir.comb_blocks) x) sig ≡ true
          → writer_of ir sig ≡ some i
          → i ≢ j
          → index_of i order < index_of j order)
  sorted_nodes-order_lem = (
    λ v. ground (
      arith,
      sorted-once v,
      count-le (length (nodes ir)) (dependencies ir) (dependencies-InRange ir) order sorted-Ends v,
    ),
    λ i j x sig at c l ne.
        ranked-edge (λ v. index_of v order) (dependencies ir) i j
          (index_of-IsRanking (dependencies ir) order (length (nodes ir)) (dependencies-InRange ir)
            sorted-once sorted-Ends.0)
          (dependencies-has ir i j x sig at c l ne),
  )

InRange-nil : (es : Edges) → InRange 0 es → IsRanking (λ v. 0) es
InRange-nil [] r = tt
InRange-nil (e ∷ es) r = absurd (omega (arith, r.0.0))

module _ (ir : IrModule) where
  sorted-IsRanking :
      ((order : List ℕ) × (sorted_nodes ir ≡ some order))
      ↔ ((rank : ℕ → ℕ) × IsRanking rank (dependencies ir))
  sorted-IsRanking =
      let n = length (nodes ir) in
      let (l, e, ends) = topo_order_total n (dependencies ir) (dependencies-InRange ir) in
      let full = complete_iff n (dependencies ir) (dependencies-InRange ir) l ends in
      (
        λ (order, h). full.0 (
            ap length (of_some (sym ((sorted_nodes-order ir order).0 h).0 ∙ e))
            ∙ ((sorted_nodes-order ir order).0 h).1),
        λ ranked. (l, (sorted_nodes-order ir l).1 (e, full.1 ranked)),
      )

  sort_with-IsRanking :
      (xs : List (ℕ × Node))
      → nodes ir ≡ xs
      → ((out : IrModule) × (sort_with ir xs (sorted_nodes ir) ≡ some out))
        ↔ ((rank : ℕ → ℕ) × IsRanking rank (dependencies ir))
  sort_with-IsRanking [] e = (
    λ h. (
      (λ v. 0),
      InRange-nil (dependencies ir)
          (subst (λ n. InRange n (dependencies ir)) (ap length e) (dependencies-InRange ir)),
    ),
    λ h. (ir, refl),
  )
  sort_with-IsRanking (x ∷ xs) e = (
    λ (out, h). sorted-IsRanking.0 (elim (Option-cases (sorted_nodes ir)) [
      | inl none_found ↦ absurd (cc (rw none_found at h))
      | inr found ↦ found
    ]),
    λ ranked.
        let (order, found) = sorted-IsRanking.1 ranked in
        (rebuild ir (x ∷ xs) order, rw found refl),
  )

  -- topo_sort_comb gives a module exactly when its nodes have a rank that every edge of its graph
  -- raises, and otherwise raises ValueError. No edge of the graph joins a node with itself, so a
  -- node that reads what it writes is no loop for it.
  pub topo_sort_comb_iff :
      (((out : IrModule) × (topo_sort_comb ir ≡ some out))
        ↔ ((rank : ℕ → ℕ) × IsRanking rank (dependencies ir)))
      × Loopless (dependencies ir)
  unfolding topo_sort_comb
  topo_sort_comb_iff = (sort_with-IsRanking (nodes ir) refl, dependencies-Loopless ir)
