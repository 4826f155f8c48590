-- ===== src/Dce/FoldComplete.antt =====
-- Folding computes every expression that is built from constants alone.
use veripy.Base.{
  ◌≡◌, refl, ap, Option, some, none, List, [], ◌∷◌, >>=-eq-some, of_some, Bool-cases, inl, inr,
}
use veripy.Base.Int.{ℤ, truthy}
use veripy.Ir.{
  BinaryOp, over, modulo, shl, shr, ashr, invert, lnot, negate, BoolOp, Expr, Exprs, const, bin_op,
  unary_op, compare, bool_op, mux, enil, econs,
}
use veripy.Ir.Value.{State, Target, Value, word, bind_word, apply_binary, apply_bool}
use veripy.Ir.Meaning.{eval, eval_all}
use veripy.Dce.Fold.{
  fold_consts, fold_binary, fold_unary, fold_compare, fold_bool, const_values, try_fold,
  try_fold_all,
}

-- The operators of the table `ops`.
abbrev pub IsFoldable : BinaryOp → Type 0
IsFoldable over = ⊥
IsFoldable modulo = ⊥
IsFoldable ashr = ⊥
IsFoldable _ = Unit

-- Constants under the operators that `_try_fold` computes.
abbrev mutual
  pub IsConstant : Expr → Type 0
  IsConstant (const z) = Unit
  IsConstant (bin_op op l r) = IsFoldable op × IsConstant l × IsConstant r
  IsConstant (unary_op negate e) = ⊥
  IsConstant (unary_op op e) = IsConstant e
  IsConstant (compare op l r) = IsConstant l × IsConstant r
  IsConstant (bool_op op es) = AreConstant es
  IsConstant (mux s a b) = IsConstant s × IsConstant a × IsConstant b
  IsConstant _ = ⊥

  pub AreConstant : Exprs → Type 0
  AreConstant enil = Unit
  AreConstant (econs e es) = IsConstant e × AreConstant es

abbrev consts : List ℤ → Exprs
consts [] = enil
consts (z ∷ zs) = econs (const z) (consts zs)

const_values-consts : (zs : List ℤ) → const_values (consts zs) ≡ some zs
const_values-consts [] = refl
const_values-consts (z ∷ zs) = rw (const_values-consts zs) refl

fold_bool-consts : (op : BoolOp) (zs : List ℤ) → fold_bool op (consts zs) ≡ const (apply_bool op zs)
unfolding fold_bool
fold_bool-consts op zs = go (const_values (consts zs)) (const_values-consts zs)
  where
    go :
        (o : Option (List ℤ))
        → o ≡ some zs
        → elim o [ none ↦ bool_op op (consts zs) | some ws ↦ const (apply_bool op ws) ]
          ≡ const (apply_bool op zs)
    go none e = absurd (cc)
    go (some ws) e = ap (λ x. const (apply_bool op x)) (cc)

word_inj : {a b : ℤ} → ◌≡◌ {A = Option Value} (some (word a)) (some (word b)) → a ≡ b
word_inj h = cc

module _ (t : Target) (st : State) where
  fold_consts-apply :
      (op : BinaryOp) (a b c : ℤ)
      → IsFoldable op
      → apply_binary t op a b ≡ some c
      → fold_consts op a b ≡ some (const c)
  unfolding fold_consts apply_binary
  fold_consts-apply over a b c f h = absurd f
  fold_consts-apply modulo a b c f h = absurd f
  fold_consts-apply ashr a b c f h = absurd f
  fold_consts-apply shl a b c f h = rw h refl
  fold_consts-apply shr a b c f h = rw h refl
  fold_consts-apply _ a b c f h = cc

  mutual
    unfolding eval try_fold fold_binary fold_unary fold_compare

    try_fold-const :
        (e : Expr) (z : ℤ)
        → IsConstant e
        → eval t st e ≡ some (word z)
        → try_fold e ≡ some (const z)
    try_fold-const (const v) z c h = ap (λ x. some (const x)) (word_inj h)
    try_fold-const (bin_op op l r) z c h =
        let (a, p, h1) = bind_word (eval t st l) _ h in
        let (b, q, h2) = bind_word (eval t st r) _ h1 in
        let (x, u, h3) = >>=-eq-some (apply_binary t op a b) _ h2 in
        rw (try_fold-const l a c.1 p, try_fold-const r b c.2 q, ← word_inj h3)
          (fold_consts-apply op a b x c.0 u)
    try_fold-const (unary_op negate e) z c h = absurd c
    try_fold-const (unary_op invert e) z c h =
        let (a, p, h1) = bind_word (eval t st e) _ h in
        rw (try_fold-const e a c p) (ap (λ x. some (const x)) (word_inj h1))
    try_fold-const (unary_op lnot e) z c h =
        let (a, p, h1) = bind_word (eval t st e) _ h in
        rw (try_fold-const e a c p) (ap (λ x. some (const x)) (word_inj h1))
    try_fold-const (compare op l r) z c h =
        let (a, p, h1) = bind_word (eval t st l) _ h in
        let (b, q, h2) = bind_word (eval t st r) _ h1 in
        rw (try_fold-const l a c.0 p, try_fold-const r b c.1 q)
          (ap (λ x. some (const x)) (word_inj h2))
    try_fold-const (bool_op op es) z c h =
        let (zs, p, h1) = >>=-eq-some (eval_all t st es) _ h in
        rw (try_fold_all-consts es zs c p, fold_bool-consts op zs)
          (ap (λ x. some (const x)) (word_inj h1))
    try_fold-const (mux s a b) z c h =
        let (v, p, h1) = bind_word (eval t st s) _ h in
        rw (try_fold-const s v c.0 p) (elim (Bool-cases (truthy v)) [
          | inl e ↦ rw e (try_fold-const a z c.1 (rw e at h1))
          | inr e ↦ rw e (try_fold-const b z c.2 (rw e at h1))
        ])
    try_fold-const _ z c h = absurd c

    try_fold_all-consts :
        (es : Exprs) (zs : List ℤ)
        → AreConstant es
        → eval_all t st es ≡ some zs
        → try_fold_all es ≡ some (consts zs)
    try_fold_all-consts enil zs c h = rw (of_some h) refl
    try_fold_all-consts (econs e es) zs c h =
        let (a, p, h1) = bind_word (eval t st e) _ h in
        let (ws, q, h2) = >>=-eq-some (eval_all t st es) _ h1 in
        rw (try_fold-const e a c.0 p, try_fold_all-consts es ws c.1 q, of_some h2) refl

-- An expression of constants under the operators that folding knows (not `/`, `%`, `>>>` and the
-- minus sign), if it has a value, folds to the constant of that value.
pub try_fold_complete :
    (t : Target) (st : State) (e : Expr) (z : ℤ)
    → IsConstant e
    → eval t st e ≡ some (word z)
    → try_fold e ≡ some (const z)
try_fold_complete t st e z c h = try_fold-const t st e z c h
