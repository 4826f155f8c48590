-- ===== src/Flatten/Kahn/Invariant.antt =====
-- The invariant of Kahn's algorithm: the degrees count the edges from nodes that are not in the
-- order yet, the order and the levels hold the nodes of degree zero once, and in the order no
-- edge leads back.
use mathlib.Core.List.{append_assoc, append-nil}
use veripy.Base.{
  ℕ, ◌+◌, ◌-◌, ◌≤◌, ◌<◌, ◌≡◌, refl, sym, ap, ◌∙◌, ◌&&◌, List, [], ◌∷◌, ◌++◌, ◌==◌, ltb, subst,
  count, count-append, All, arith,
}
use veripy.Flatten.Kahn.{Edges, targets, in_degree, Progress, relax, visit}
use veripy.Flatten.Kahn.Degrees.{one_if, in_deg-relax, next-relax}

-- The edges to `v` from nodes that are not in the order.
abbrev pub pending : Edges → List ℕ → ℕ → ℕ
pending [] order v = 0
pending ((i, j) ∷ es) order v = one_if (j == v && (count i order == 0)) + pending es order v

pub pending-nil : (es : Edges) (v : ℕ) → pending es [] v ≡ in_degree es v
pending-nil [] v = refl
pending-nil ((i, j) ∷ es) v = ground (arith, pending-nil es v)

pending-visit :
    (es : Edges) (order : List ℕ) (u v : ℕ)
    → count u order ≡ 0
    → pending es order v ≡ pending es (order ++ (u ∷ [])) v + count v (targets es u)
pending-visit [] order u v h = omega arith
pending-visit ((i, j) ∷ es) order u v h =
    let ih = pending-visit es order u v h in let c = count-append i order (u ∷ []) in ground arith

-- Every edge leads from a node that stands before its target: `seen` is before the list.
abbrev pub Before : Edges → List ℕ → ℕ → Type 0
Before es seen u = All (λ e. one_if (e.1 == u) ≤ count e.0 seen) es

abbrev pub IsOrdered : Edges → List ℕ → List ℕ → Type 0
IsOrdered es seen [] = Unit
IsOrdered es seen (u ∷ us) = Before es seen u × IsOrdered es (seen ++ (u ∷ [])) us

IsOrdered-concat :
    (es : Edges) (seen us : List ℕ) (u : ℕ)
    → IsOrdered es seen us
    → Before es (seen ++ us) u
    → IsOrdered es seen (us ++ (u ∷ []))
IsOrdered-concat es seen [] u o b = (rw (append-nil seen) at b, tt)
IsOrdered-concat es seen (w ∷ us) u o b =
    (o.0, IsOrdered-concat es (seen ++ (w ∷ [])) us u o.1 (rw (append_assoc seen (w ∷ []) us) b))

Before-pending : (es : Edges) (order : List ℕ) (u : ℕ) → pending es order u ≡ 0 → Before es order u
Before-pending [] order u h = tt
Before-pending ((i, j) ∷ es) order u h = (ground arith, Before-pending es order u (omega arith))

abbrev pub InRange : ℕ → Edges → Type 0
InRange n es = All (λ e. (e.0 < n) × (e.1 < n)) es

targets-InRange : (n : ℕ) (es : Edges) (u v : ℕ) → InRange n es → 0 < count v (targets es u) → v < n
targets-InRange n [] u v r h = absurd (omega arith)
targets-InRange n ((i, j) ∷ es) u v r h =
    let ih = targets-InRange n es u v r.1 in let lt = r.0.1 in ground arith

pub order-relax : (vs : List ℕ) (s : Progress) → (relax vs s).order ≡ s.order
order-relax [] s = refl
order-relax (v ∷ vs) s = order-relax vs _

pub record IsRunning (n : ℕ) (es : Edges) (todo : List ℕ) (s : Progress) : Type 0 where
  pub degree : (v : ℕ) → s.in_deg v ≡ pending es s.order v
  pub placed :
      (v : ℕ)
      → count v s.order + count v todo + count v s.next_level
        ≡ one_if (ltb v n && (s.in_deg v == 0))
  pub ordered : IsOrdered es [] s.order

minus_of_plus : {a b : ℕ} (c : ℕ) → a ≡ b + c → a - c ≡ b
minus_of_plus c e = omega arith

-- The counts of one node over a visit: `c` edges to it, its degree `d`.
placed_step :
    (c d w n next order u us : ℕ) {d' next' order' : ℕ}
    → c ≤ d
    → (0 < c → w < n)
    → d' ≡ d - c
    → next' ≡ next + one_if (ltb 0 c && (d == c))
    → order' ≡ order + (u + 0)
    → order + (u + us) + next ≡ one_if (ltb w n && (d == 0))
    → order' + us + next' ≡ one_if (ltb w n && (d' == 0))
placed_step c d w n next order u us le below ed en eo h = ground arith

pub visit-IsRunning :
    (n : ℕ) (es : Edges) (u : ℕ) (us : List ℕ) (s : Progress)
    → InRange n es
    → IsRunning n es (u ∷ us) s
    → IsRunning n es us (visit es u s)
visit-IsRunning n es u us s r v =
    let begun = record s { order = s.order ++ (u ∷ []) } in
    let fresh : count u s.order ≡ 0 = ground (arith, v.placed u) in
    let zero_deg : s.in_deg u ≡ 0 = ground (arith, v.placed u) in
    let ts = targets es u in
    let same = order-relax ts begun in
    record {
      degree = λ w.
          in_deg-relax ts begun w
          ∙ (minus_of_plus (count w ts) (v.degree w ∙ pending-visit es s.order u w fresh)
              ∙ ap (λ o. pending es o w) (sym same));
      placed = λ w.
          let enough : count w ts ≤ s.in_deg w =
            omega (arith, v.degree w, pending-visit es s.order u w fresh) in
          let below : 0 < count w ts → w < n = targets-InRange n es u w r in
          let added = ap (count w) same ∙ count-append w s.order (u ∷ []) in
          placed_step (count w ts) (s.in_deg w) w n (count w s.next_level) (count w s.order)
            (one_if (u == w)) (count w us) enough below (in_deg-relax ts begun w)
            (next-relax ts begun w enough) added (v.placed w);
      ordered = subst (IsOrdered es []) (sym same) (
          IsOrdered-concat es [] s.order u v.ordered
            (Before-pending es s.order u (sym (v.degree u) ∙ zero_deg)));
    }

-- What the order is at the end: each node once whose edges all come from nodes in the order.
abbrev pub Ends : ℕ → Edges → List ℕ → Type 0
Ends n es order =
    IsOrdered es [] order
    × ((v : ℕ) → count v order ≡ one_if (ltb v n && (pending es order v == 0)))
