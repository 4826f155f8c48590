-- ===== src/Flatten/Kahn/Sound.antt =====
-- Kahn's algorithm ends, its order is a topological one, and it holds every node where the graph
-- has a ranking.
use veripy.Base.{
  ℕ, zero, suc, ◌+◌, ◌≤◌, ◌<◌, ◌≡◌, refl, sym, ap, List, [], ◌∷◌, ◌++◌, some, length, length-append,
  count-append, arith,
}
use veripy.Flatten.Kahn.{
  Edges, targets, in_degree, sources, sort_level, key_of, Progress, visit, run_level, kahn,
  topo_order,
}
use veripy.Flatten.Kahn.Degrees.{count-sources, count-sort_by, length-sort_by}
use veripy.Flatten.Kahn.Invariant.{
  pending-nil, InRange, IsRunning, Ends, visit-IsRunning, order-relax,
}
use veripy.Flatten.Kahn.Counts.{length-le}

module _ (n : ℕ) (es : Edges) (r : InRange n es) where
  run_level-IsRunning :
      (todo : List ℕ) (s : Progress)
      → IsRunning n es todo s
      → IsRunning n es [] (run_level es todo s)
  run_level-IsRunning [] s v = v
  run_level-IsRunning (u ∷ us) s v =
      run_level-IsRunning us (visit es u s) (visit-IsRunning n es u us s r v)

  length-run_level :
      (todo : List ℕ) (s : Progress)
      → length (run_level es todo s).order ≡ length s.order + length todo
  length-run_level [] s = omega arith
  length-run_level (u ∷ us) s = omega (
    arith,
    length-run_level us (visit es u s),
    ap length (order-relax (targets es u) (record s { order = s.order ++ (u ∷ []) })),
    length-append s.order (u ∷ []),
  )

  -- The invariant between two rounds, where `level` waits.
  abbrev Waiting : List ℕ → Progress → Type 0
  Waiting level s = IsRunning n es level (record s { next_level = [] })

  sorted-Waiting :
      (level : List ℕ) (s : Progress) → Waiting level s → Waiting (sort_level n es level) s
  unfolding sort_level
  sorted-Waiting level s v = record {
    degree = v.degree;
    placed = λ w. omega (arith, v.placed w, count-sort_by (λ u. key_of n (targets es u)) w level);
    ordered = v.ordered;
  }

  next-Waiting : (s : Progress) → IsRunning n es [] s → Waiting s.next_level s
  next-Waiting s v = record {
    degree = v.degree;
    placed = λ w. omega (arith, v.placed w);
    ordered = v.ordered;
  }

  round-Waiting :
      (level : List ℕ) (s : Progress)
      → Waiting level s
      → Waiting
          (run_level es (sort_level n es level) (record s { next_level = [] })).next_level
          (run_level es (sort_level n es level) (record s { next_level = [] }))
  round-Waiting level s v =
      next-Waiting _ (run_level-IsRunning (sort_level n es level) _ (sorted-Waiting level s v))

  -- The order and the level hold `n` nodes at most.
  Waiting-le : (level : List ℕ) (s : Progress) → Waiting level s → length s.order + length level ≤ n
  Waiting-le level s v = omega (
    arith,
    length-le n (s.order ++ level) (λ w. ground (arith, count-append w s.order level, v.placed w)),
    length-append s.order level,
  )

  length-sort_level : (level : List ℕ) → length (sort_level n es level) ≡ length level
  unfolding sort_level
  length-sort_level level = length-sort_by (λ u. key_of n (targets es u)) level

  kahn_total :
      (fuel : ℕ) (level : List ℕ) (s : Progress)
      → Waiting level s
      → n < fuel + length s.order
      → (order : List ℕ) × (kahn fuel n es level s ≡ some order) × Ends n es order
  unfolding kahn
  kahn_total fuel [] s v lt =
      (s.order, refl, (v.ordered, λ w. ground (arith, v.placed w, v.degree w)))
  kahn_total zero (u ∷ us) s v lt = absurd (omega (arith, Waiting-le (u ∷ us) s v))
  kahn_total (suc fuel) (u ∷ us) s v lt =
      let level = sort_level n es (u ∷ us) in
      let t = run_level es level (record s { next_level = [] }) in
      kahn_total fuel t.next_level t (round-Waiting (u ∷ us) s v) (
        omega (
          arith,
          length-run_level level (record s { next_level = [] }),
          length-sort_level (u ∷ us),
        ))

  start : Progress
  start = record { order = []; in_deg = in_degree es; next_level = [] }

  start-Waiting : Waiting (sources (in_degree es) 0 n) start
  unfolding start
  start-Waiting = record {
    degree = λ v. sym (pending-nil es v);
    placed = λ v. ground (arith, count-sources (in_degree es) 0 n v);
    ordered = tt;
  }

  -- Where the edges lead between n nodes, the loop of Kahn with n + 1 rounds ends, in an order in
  -- which no edge leads back and which holds, once each, the nodes whose edges all come from nodes
  -- in the order.
  pub topo_order_total : (order : List ℕ) × (topo_order n es ≡ some order) × Ends n es order
  unfolding topo_order start
  topo_order_total =
      kahn_total (n + 1) (sources (in_degree es) 0 n) start start-Waiting (omega arith)
