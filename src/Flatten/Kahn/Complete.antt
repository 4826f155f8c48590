-- ===== src/Flatten/Kahn/Complete.antt =====
-- The order of Kahn's algorithm holds every node exactly when the nodes can be ranked so that
-- every edge leads to a higher rank.
use mathlib.Core.List.{append_assoc}
use veripy.Base.{
  ℕ, zero, suc, ◌≤◌, ◌<◌, ◌≡◌, ◌≢◌, refl, Bool, true, false, ◌&&◌, List, [], ◌∷◌, ◌++◌, ◌==◌,
  ==_iff, ltb, Bool-cases, inl, inr, ◌↔◌, if◌then◌else◌, length, subst, count, count-append, All,
  arith,
}
use veripy.Flatten.Kahn.{Edges}
use veripy.Flatten.Kahn.Degrees.{one_if}
use veripy.Flatten.Kahn.Invariant.{pending, IsOrdered, InRange, Ends}
use veripy.Flatten.Kahn.Counts.{count-full, length-full}

abbrev pub IsRanking : (ℕ → ℕ) → Edges → Type 0
IsRanking rank es = All (λ e. rank e.0 < rank e.1) es

left_true : (a b : Bool) → a && b ≡ true → a ≡ true
left_true true b h = refl
left_true false b h = cc

module _ (n : ℕ) (rank : ℕ → ℕ) (order : List ℕ) where
  -- A node with an edge pending has a lower node that is not in the order.
  lower_pending :
      (es : Edges) (v : ℕ)
      → InRange n es
      → IsRanking rank es
      → pending es order v ≢ 0
      → (i : ℕ) × (count i order ≡ 0) × (i < n) × (rank i < rank v)
  lower_pending [] v r h ne = absurd (ne refl)
  lower_pending ((i, j) ∷ es) v r h ne = elim (Bool-cases (j == v && (count i order == 0))) [
    | inl e ↦ (
      i,
      ground arith,
      r.0.0,
      (let same : j ≡ v = (==_iff j v).0 (left_true (j == v) (count i order == 0) e) in
          subst (λ x. rank i < rank x) same h.0),
    )
    | inr e ↦ lower_pending es v r.1 h.1 (λ z. ne (rw e (omega arith)))
  ]

  ranked-placed :
      (es : Edges) (k v : ℕ)
      → InRange n es
      → IsRanking rank es
      → Ends n es order
      → rank v < k
      → v < n
      → count v order ≡ 1
  ranked-placed es zero v r h e lt below = absurd (omega arith)
  ranked-placed es (suc k) v r h e lt below = elim (Bool-cases (pending es order v == 0)) [
    | inl done ↦ ground (arith, e.1 v)
    | inr more ↦
        let (i, absent, ib, lower) = lower_pending es v r h (ground arith) in
        absurd (omega (arith, ranked-placed es k i r h e (omega arith) ib))
  ]

abbrev pub index_of : ℕ → List ℕ → ℕ
index_of v [] = 0
index_of v (x ∷ xs) = if x == v then 0 else suc (index_of v xs)

index_of-lt : (v : ℕ) (seen us : List ℕ) → 0 < count v seen → index_of v (seen ++ us) < length seen
index_of-lt v [] us h = absurd (omega arith)
index_of-lt v (x ∷ seen) us h = ground (arith, index_of-lt v seen us)

index_of-ge : (v : ℕ) (seen us : List ℕ) → count v seen ≡ 0 → length seen ≤ index_of v (seen ++ us)
index_of-ge v [] us h = omega arith
index_of-ge v (x ∷ seen) us h = ground (arith, index_of-ge v seen us)

one_edge :
    (i j : ℕ) (seen us : List ℕ)
    → IsOrdered ((i, j) ∷ []) seen us
    → 0 < count j us
    → count j seen ≡ 0
    → index_of i (seen ++ us) < index_of j (seen ++ us)
one_edge i j seen [] o h z = absurd (omega arith)
one_edge i j seen (u ∷ us) o h z = elim (Bool-cases (j == u)) [
  | inl e ↦
      let at : 0 < count i seen = ground (arith, o.0.0) in
      omega (arith, index_of-lt i seen (u ∷ us) at, index_of-ge j seen (u ∷ us) z)
  | inr e ↦
      subst (λ l. index_of i l < index_of j l) (append_assoc seen (u ∷ []) us)
        (one_edge i j (seen ++ (u ∷ [])) us o.1 (ground arith)
          (ground (arith, count-append j seen (u ∷ []))))
]

IsOrdered-split :
    (i j : ℕ) (es : Edges) (seen us : List ℕ)
    → IsOrdered ((i, j) ∷ es) seen us
    → IsOrdered ((i, j) ∷ []) seen us × IsOrdered es seen us
IsOrdered-split i j es seen [] o = (tt, tt)
IsOrdered-split i j es seen (u ∷ us) o =
    let (one, rest) = IsOrdered-split i j es (seen ++ (u ∷ [])) us o.1 in
    (((o.0.0, tt), one), (o.0.1, rest))

pub index_of-IsRanking :
    (es : Edges) (order : List ℕ) (n : ℕ)
    → InRange n es
    → ((v : ℕ) → v < n → count v order ≡ 1)
    → IsOrdered es [] order
    → IsRanking (λ v. index_of v order) es
index_of-IsRanking [] order n r all o = tt
index_of-IsRanking ((i, j) ∷ es) order n r all o =
    let (one, rest) = IsOrdered-split i j es [] order o in
    (
      one_edge i j [] order one (omega (arith, all j r.0.1)) refl,
      index_of-IsRanking es order n r.1 all rest,
    )

module _ (n : ℕ) (es : Edges) (r : InRange n es) (order : List ℕ) (e : Ends n es order) where
  pub count-le : (v : ℕ) → count v order ≤ one_if (ltb v n)
  count-le v = ground (arith, e.1 v)

  pub complete_iff : (length order ≡ n) ↔ ((rank : ℕ → ℕ) × IsRanking rank es)
  complete_iff = (
    λ full. (
      (λ v. index_of v order),
      index_of-IsRanking es order n r (count-full n order count-le full) e.0,
    ),
    λ (rank, h).
        length-full n order count-le
          (λ v below. ranked-placed n rank order es (suc (rank v)) v r h e (omega arith) below),
  )
