-- ===== src/Dce/FoldSound.antt =====
-- Folding keeps the value of an expression.
use veripy.Base.{
  ◌≡◌, refl, ap, ◌∙◌, Option, some, none, List, >>=-eq-some, of_some, Bool-cases, inl, inr,
}
use veripy.Base.Int.{ℤ, truthy, shl_ℤ, shr_ℤ}
use veripy.Ir.{
  BinaryOp, shl, shr, UnaryOp, invert, lnot, CompareOp, BoolOp, Expr, Exprs, const, param, sig,
  bin_op, unary_op, compare, bool_op, mux, slice, slice_lo, index, concat, clz, ctz, popcount, sext,
  enil, econs,
}
use veripy.Ir.Value.{State, Target, apply_binary, apply_bool}
use veripy.Ir.Meaning.{eval, eval_all}
use veripy.Dce.Fold.{
  fold_consts, fold_binary, fold_unary, fold_compare, fold_bool, fold_mux, const_values, try_fold,
  try_fold_all,
}
use veripy.Dce.Subst.{ConstMap}
use veripy.Dce.Stable.{Stable, AllStable}

module _ (t : Target) (st : State) where
  eval-fold_consts :
      (op : BinaryOp) (a b : ℤ) (e : Expr)
      → fold_consts op a b ≡ some e
      → eval t st e ≡ eval t st (bin_op op (const a) (const b))
  unfolding fold_consts eval apply_binary
  eval-fold_consts shl a b e h =
      let (c, p, q) = >>=-eq-some (shl_ℤ a b) _ h in ap (eval t st) (of_some q) ∙ rw p refl
  eval-fold_consts shr a b e h =
      let (c, p, q) = >>=-eq-some (shr_ℤ a b) _ h in ap (eval t st) (of_some q) ∙ rw p refl
  eval-fold_consts _ a b e h = ap (eval t st) (of_some h)

  eval-fold_binary :
      (op : BinaryOp) (l r e : Expr)
      → fold_binary op l r ≡ some e
      → eval t st e ≡ eval t st (bin_op op l r)
  unfolding fold_binary
  eval-fold_binary op (const a) (const b) e h = eval-fold_consts op a b e h
  eval-fold_binary op l r e h = ap (eval t st) (of_some h)

  eval-fold_unary :
      (op : UnaryOp) (e : Expr) → eval t st (fold_unary op e) ≡ eval t st (unary_op op e)
  unfolding fold_unary eval
  eval-fold_unary invert (const a) = refl
  eval-fold_unary lnot (const a) = refl
  eval-fold_unary op _ = refl

  eval-fold_compare :
      (op : CompareOp) (l r : Expr) → eval t st (fold_compare op l r) ≡ eval t st (compare op l r)
  unfolding fold_compare eval
  eval-fold_compare op (const a) (const b) = refl
  eval-fold_compare op _ _ = refl

  eval_all-const_values :
      (es : Exprs) (zs : List ℤ) → const_values es ≡ some zs → eval_all t st es ≡ some zs
  unfolding eval
  eval_all-const_values enil zs h = h
  eval_all-const_values (econs (const z) es) zs h =
      let (ws, p, q) = >>=-eq-some (const_values es) _ h in rw (eval_all-const_values es ws p) q
  eval_all-const_values (econs _ es) zs h = cc

  eval-fold_bool :
      (op : BoolOp) (es : Exprs) → eval t st (fold_bool op es) ≡ eval t st (bool_op op es)
  unfolding fold_bool eval
  eval-fold_bool op es = go (const_values es) refl
    where
      go :
          (o : Option (List ℤ))
          → const_values es ≡ o
          → eval t st (elim o [ none ↦ bool_op op es | some zs ↦ const (apply_bool op zs) ])
            ≡ eval t st (bool_op op es)
      go none p = refl
      go (some zs) p = rw (eval_all-const_values es zs p) refl

  eval-fold_mux :
      (s : Expr) (a b : Option Expr) (x y e : Expr)
      → ((a' : Expr) → a ≡ some a' → eval t st a' ≡ eval t st x)
      → ((b' : Expr) → b ≡ some b' → eval t st b' ≡ eval t st y)
      → fold_mux s a b ≡ some e
      → eval t st e ≡ eval t st (mux s x y)
  unfolding eval
  eval-fold_mux (const c) a b x y e ha hb h = elim (Bool-cases (truthy c)) [
    | inl p ↦ rw p (ha e (rw p at h))
    | inr p ↦ rw p (hb e (rw p at h))
  ]
  eval-fold_mux s a b x y e ha hb h =
      let (a', p, h1) = >>=-eq-some a _ h in
      let (b', q, h2) = >>=-eq-some b _ h1 in
      ap (eval t st) (of_some h2) ∙ rw (ha a' p, hb b' q) refl

module _ (cm : ConstMap) (t : Target) (st : State) where
  mutual
    unfolding try_fold eval

    pub eval-try_fold :
        (e e' : Expr) → Stable cm e → try_fold e ≡ some e' → eval t st e' ≡ eval t st e
    eval-try_fold (const z) e' s h = ap (eval t st) (of_some h)
    eval-try_fold (param x) e' s h = ap (eval t st) (of_some h)
    eval-try_fold (sig x) e' s h = ap (eval t st) (of_some h)
    eval-try_fold (bin_op op l r) e' s h =
        let (l', p, h1) = >>=-eq-some (try_fold l) _ h in
        let (r', q, h2) = >>=-eq-some (try_fold r) _ h1 in
        eval-fold_binary t st op l' r' e' h2
        ∙ rw (eval-try_fold l l' s.0 p, eval-try_fold r r' s.1 q) refl
    eval-try_fold (unary_op op e) e' s h =
        let (x, p, h1) = >>=-eq-some (try_fold e) _ h in
        ap (eval t st) (of_some h1) ∙ (eval-fold_unary t st op x ∙ rw (eval-try_fold e x s p) refl)
    eval-try_fold (compare op l r) e' s h =
        let (l', p, h1) = >>=-eq-some (try_fold l) _ h in
        let (r', q, h2) = >>=-eq-some (try_fold r) _ h1 in
        ap (eval t st) (of_some h2)
        ∙ (eval-fold_compare t st op l' r'
            ∙ rw (eval-try_fold l l' s.0 p, eval-try_fold r r' s.1 q) refl)
    eval-try_fold (bool_op op es) e' s h =
        let (xs, p, h1) = >>=-eq-some (try_fold_all es) _ h in
        ap (eval t st) (of_some h1)
        ∙ (eval-fold_bool t st op xs ∙ rw (eval_all-try_fold_all es xs s p) refl)
    eval-try_fold (mux c a b) e' s h =
        let (x, p, h1) = >>=-eq-some (try_fold c) _ h in
        eval-fold_mux t st x (try_fold a) (try_fold b) a b e' (λ y. eval-try_fold a y s.1)
          (λ y. eval-try_fold b y s.2) h1
        ∙ rw (eval-try_fold c x s.0 p) refl
    eval-try_fold (slice e hi lo) e' s h =
        let (x, p, h1) = >>=-eq-some (try_fold e) _ h in
        let (y, q, h2) = >>=-eq-some (try_fold hi) _ h1 in
        let (z, r, h3) = >>=-eq-some (try_fold lo) _ h2 in
        ap (eval t st) (of_some h3)
        ∙ rw (eval-try_fold e x s.0 p, eval-try_fold hi y s.1 q, eval-try_fold lo z s.2 r) refl
    eval-try_fold (slice_lo e lo) e' s h =
        let (x, p, h1) = >>=-eq-some (try_fold e) _ h in
        let (y, q, h2) = >>=-eq-some (try_fold lo) _ h1 in
        ap (eval t st) (of_some h2) ∙ rw (eval-try_fold e x s.0 p, eval-try_fold lo y s.1 q) refl
    eval-try_fold (index e i) e' s h =
        let (x, p, h1) = >>=-eq-some (try_fold e) _ h in
        let (y, q, h2) = >>=-eq-some (try_fold i) _ h1 in
        ap (eval t st) (of_some h2) ∙ rw (eval-try_fold e x s.0 p, eval-try_fold i y s.1 q) refl
    eval-try_fold (concat es) e' s h = ap (eval t st) (of_some (rw s.1 at h))
    eval-try_fold (clz e w) e' s h =
        let (x, p, h1) = >>=-eq-some (try_fold e) _ h in
        ap (eval t st) (of_some h1) ∙ rw (eval-try_fold e x s p) refl
    eval-try_fold (ctz e w) e' s h =
        let (x, p, h1) = >>=-eq-some (try_fold e) _ h in
        ap (eval t st) (of_some h1) ∙ rw (eval-try_fold e x s p) refl
    eval-try_fold (popcount e w) e' s h =
        let (x, p, h1) = >>=-eq-some (try_fold e) _ h in
        ap (eval t st) (of_some h1) ∙ rw (eval-try_fold e x s p) refl
    eval-try_fold (sext e sw dw) e' s h =
        let (x, p, h1) = >>=-eq-some (try_fold e) _ h in
        ap (eval t st) (of_some h1) ∙ rw (eval-try_fold e x s p) refl

    eval_all-try_fold_all :
        (es es' : Exprs)
        → AllStable cm es
        → try_fold_all es ≡ some es'
        → eval_all t st es' ≡ eval_all t st es
    eval_all-try_fold_all enil es' s h = ap (eval_all t st) (of_some h)
    eval_all-try_fold_all (econs e es) es' s h =
        let (x, p, h1) = >>=-eq-some (try_fold e) _ h in
        let (xs, q, h2) = >>=-eq-some (try_fold_all es) _ h1 in
        ap (eval_all t st) (of_some h2)
        ∙ rw (eval-try_fold e x s.0 p, eval_all-try_fold_all es xs s.1 q) refl

-- Folding keeps the value of an expression on every target and in every state, also where it has
-- none, if it leaves the concatenations of the expression alone.
pub try_fold_sound :
    (cm : ConstMap) (t : Target) (st : State) (e e' : Expr)
    → Stable cm e
    → try_fold e ≡ some e'
    → eval t st e' ≡ eval t st e
try_fold_sound cm t st e e' s h = eval-try_fold cm t st e e' s h
