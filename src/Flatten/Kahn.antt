-- ===== src/Flatten/Kahn.antt =====
-- Kahn's algorithm in `topo_sort_comb` of veripy/flatten.py, on the numbers of the nodes. The graph
-- is the list of its edges, in the order in which they were added: `adj[u]` and the first `in_deg`
-- are read off it. `in_deg` is a function, changed at one place by each assignment.
pub mod Degrees
pub mod Invariant
pub mod Counts
pub mod Sound
pub mod Complete
use veripy.Base.{
  ℕ, zero, suc, ◌+◌, ◌-◌, Bool, true, false, List, [], ◌∷◌, ◌++◌, Option, some, none, ◌==◌, ltb,
  leb, if◌then◌else◌, length,
}

abbrev pub Edges : Type 0
Edges = List (ℕ × ℕ)

-- `adj[u]`
abbrev pub targets : Edges → ℕ → List ℕ
targets [] u = []
targets ((i, j) ∷ es) u = let rest = targets es u in if i == u then j ∷ rest else rest

-- `in_deg[v]` before the loop: one for each edge to `v`.
abbrev pub in_degree : Edges → ℕ → ℕ
in_degree [] v = 0
in_degree ((i, j) ∷ es) v = (if j == v then 1 else 0) + in_degree es v

-- `[i for i in range(n) if in_deg[i] == 0]`, from `i` on with `m` numbers left.
abbrev pub sources : (ℕ → ℕ) → ℕ → ℕ → List ℕ
sources d i zero = []
sources d i (suc m) = let rest = sources d (i + 1) m in if d i == 0 then i ∷ rest else rest

-- The comparison of tuples.
abbrev pub lex_le : List ℕ → List ℕ → Bool
lex_le [] ys = true
lex_le (x ∷ xs) [] = false
lex_le (x ∷ xs) (y ∷ ys) =
    let rest = lex_le xs ys in if ltb x y then true else (if x == y then rest else false)

-- A stable sort by a key.
abbrev pub insert_by : (ℕ → List ℕ) → ℕ → List ℕ → List ℕ
insert_by key u [] = u ∷ []
insert_by key u (x ∷ xs) =
    let rest = insert_by key u xs in if lex_le (key u) (key x) then u ∷ x ∷ xs else x ∷ rest

abbrev pub sort_by : (ℕ → List ℕ) → List ℕ → List ℕ
sort_by key [] = []
sort_by key (u ∷ us) = insert_by key u (sort_by key us)

-- `tuple(sorted(adj[u])) if adj[u] else (n,)`
abbrev pub key_of : ℕ → List ℕ → List ℕ
key_of n [] = n ∷ []
key_of n (v ∷ vs) = sort_by (λ x. x ∷ []) (v ∷ vs)

unfoldable pub sort_level : ℕ → Edges → List ℕ → List ℕ
sort_level n es level = sort_by (λ u. key_of n (targets es u)) level

-- `in_deg[v] -= 1`
abbrev pub decrement : (ℕ → ℕ) → ℕ → ℕ → ℕ
decrement d v w = if w == v then d w - 1 else d w

pub record Progress : Type 0 where
  pub order : List ℕ
  pub in_deg : ℕ → ℕ
  pub next_level : List ℕ

-- The loop over `adj[u]`.
abbrev pub relax : List ℕ → Progress → Progress
relax [] s = s
relax (v ∷ vs) s =
    let d = decrement s.in_deg v in
    relax vs (record s {
      in_deg = d;
      next_level = if d v == 0 then s.next_level ++ (v ∷ []) else s.next_level;
    })

-- `order.append(u)` and the loop over `adj[u]`.
abbrev pub visit : Edges → ℕ → Progress → Progress
visit es u s = relax (targets es u) (record s { order = s.order ++ (u ∷ []) })

abbrev pub run_level : Edges → List ℕ → Progress → Progress
run_level es [] s = s
run_level es (u ∷ us) s = run_level es us (visit es u s)

-- The `while` loop, on fuel; `none` is a loop that is still running.
unfoldable pub kahn : ℕ → ℕ → Edges → List ℕ → Progress → Option (List ℕ)
unfolding sort_level
kahn fuel n es [] s = some s.order
kahn zero n es (u ∷ us) s = none
kahn (suc fuel) n es (u ∷ us) s =
    let t = run_level es (sort_level n es (u ∷ us)) (record s { next_level = [] }) in
    kahn fuel n es t.next_level t

-- A level takes one node at least.
unfoldable pub topo_order : ℕ → Edges → Option (List ℕ)
unfolding kahn
topo_order n es =
    kahn (n + 1) n es (sources (in_degree es) 0 n)
      record { order = []; in_deg = in_degree es; next_level = [] }
