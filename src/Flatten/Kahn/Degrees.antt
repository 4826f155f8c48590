-- ===== src/Flatten/Kahn/Degrees.antt =====
-- What the loops of Kahn's algorithm do to the degrees and the levels, counted for each node.
use veripy.Base.{
  ◌&&◌, not, ℕ, zero, suc, ◌+◌, ◌-◌, ◌≤◌, ◌≡◌, refl, ap, ◌∙◌, Bool, List, [], ◌∷◌, ◌==◌, ==_iff,
  ltb, Bool-cases, inl, inr, if◌then◌else◌, count, length, count-append, arith,
}
use veripy.Flatten.Kahn.{sources, insert_by, sort_by, decrement, Progress, relax, lex_le}

-- 1 for a test that holds.
abbrev pub one_if : Bool → ℕ
one_if b = if b then 1 else 0

-- Sorting keeps every node.
count-insert_by :
    (key : ℕ → List ℕ) (v u : ℕ) (xs : List ℕ)
    → count v (insert_by key u xs) ≡ one_if (u == v) + count v xs
count-insert_by key v u [] = refl
count-insert_by key v u (x ∷ xs) = elim (Bool-cases (lex_le (key u) (key x))) [
  | inl e ↦ rw e refl
  | inr e ↦ rw e (omega (arith, count-insert_by key v u xs))
]

pub count-sort_by : (key : ℕ → List ℕ) (v : ℕ) (xs : List ℕ) → count v (sort_by key xs) ≡ count v xs
count-sort_by key v [] = refl
count-sort_by key v (x ∷ xs) =
    count-insert_by key v x (sort_by key xs)
    ∙ ap (λ k. one_if (x == v) + k) (count-sort_by key v xs)

length-insert_by :
    (key : ℕ → List ℕ) (u : ℕ) (xs : List ℕ) → length (insert_by key u xs) ≡ suc (length xs)
length-insert_by key u [] = refl
length-insert_by key u (x ∷ xs) = elim (Bool-cases (lex_le (key u) (key x))) [
  | inl e ↦ rw e refl
  | inr e ↦ rw e (ap suc (length-insert_by key u xs))
]

pub length-sort_by : (key : ℕ → List ℕ) (xs : List ℕ) → length (sort_by key xs) ≡ length xs
length-sort_by key [] = refl
length-sort_by key (x ∷ xs) =
    length-insert_by key x (sort_by key xs) ∙ ap suc (length-sort_by key xs)

-- Visiting the targets lowers each degree by the number of edges, and puts a node among the next
-- ones when the last of its edges is gone.
pub in_deg-relax :
    (vs : List ℕ) (s : Progress) (v : ℕ) → (relax vs s).in_deg v ≡ s.in_deg v - count v vs
in_deg-relax [] s v = omega arith
in_deg-relax (w ∷ vs) s v = in_deg-relax vs (relax (w ∷ []) s) v ∙ ground arith

next-one :
    (s : Progress) (w v : ℕ)
    → count v (relax (w ∷ []) s).next_level
      ≡ count v s.next_level + one_if (w == v && (s.in_deg v - 1 == 0))
next-one s w v = elim (Bool-cases (decrement s.in_deg w w == 0)) [
  | inl e ↦ rw e (count-append v s.next_level (w ∷ []) ∙ ground arith)
  | inr e ↦ rw e (ground arith)
]

pub next-relax :
    (vs : List ℕ) (s : Progress) (v : ℕ)
    → count v vs ≤ s.in_deg v
    → count v (relax vs s).next_level
      ≡ count v s.next_level + one_if (ltb 0 (count v vs) && (s.in_deg v == count v vs))
next-relax [] s v h = omega arith
next-relax (w ∷ vs) s v h =
    let t = relax (w ∷ []) s in next-relax vs t v (ground arith) ∙ ground (arith, next-one s w v)

pub count-sources :
    (d : ℕ → ℕ) (i m v : ℕ)
    → count v (sources d i m) ≡ one_if (not (ltb v i) && (ltb v (i + m) && (d v == 0)))
count-sources d i zero v = ground arith
count-sources d i (suc m) v =
    let ih = count-sources d (i + 1) m v in
    elim (Bool-cases (i == v)) [
      | inl e ↦ let same = ap d ((==_iff i v).0 e) in ground arith
      | inr e ↦ ground arith
    ]
