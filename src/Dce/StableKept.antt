-- ===== src/Dce/StableKept.antt =====
-- Folding and substitution leave an expression in which they keep all concatenations.
use veripy.Base.{◌≡◌, Option, some, none, List, >>=-eq-some, of_some, Bool-cases, inl, inr}
use veripy.Base.Int.{ℤ, truthy, shl_ℤ, shr_ℤ}
use veripy.Ir.{
  BinaryOp, over, modulo, shl, shr, ashr, UnaryOp, invert, lnot, CompareOp, BoolOp, Expr, Exprs,
  const, param, sig, bin_op, unary_op, compare, bool_op, mux, slice, slice_lo, index, concat, clz,
  ctz, popcount, sext, enil, econs,
}
use veripy.Ir.Value.{apply_bool}
use veripy.Dce.Fold.{
  fold_consts, fold_binary, fold_unary, fold_compare, fold_bool, fold_mux, const_values, try_fold,
  try_fold_all,
}
use veripy.Dce.Subst.{ConstMap}
use veripy.Dce.Stable.{Stable, AllStable}

module _ (cm : ConstMap) where
  fold_consts-Stable :
      (op : BinaryOp) (a b : ℤ) (e : Expr) → fold_consts op a b ≡ some e → Stable cm e
  unfolding fold_consts
  fold_consts-Stable shl a b e h = let (c, p, q) = >>=-eq-some (shl_ℤ a b) _ h in rw (of_some q) tt
  fold_consts-Stable shr a b e h = let (c, p, q) = >>=-eq-some (shr_ℤ a b) _ h in rw (of_some q) tt
  fold_consts-Stable over a b e h = rw (of_some h) (tt, tt)
  fold_consts-Stable modulo a b e h = rw (of_some h) (tt, tt)
  fold_consts-Stable ashr a b e h = rw (of_some h) (tt, tt)
  fold_consts-Stable _ a b e h = rw (of_some h) tt

  fold_binary-Stable :
      (op : BinaryOp) (l r e : Expr)
      → Stable cm l
      → Stable cm r
      → fold_binary op l r ≡ some e
      → Stable cm e
  unfolding fold_binary
  fold_binary-Stable op (const a) (const b) e hl hr h = fold_consts-Stable op a b e h
  fold_binary-Stable op l r e hl hr h = rw (of_some h) (hl, hr)

  fold_unary-Stable : (op : UnaryOp) (e : Expr) → Stable cm e → Stable cm (fold_unary op e)
  unfolding fold_unary
  fold_unary-Stable invert (const a) h = tt
  fold_unary-Stable lnot (const a) h = tt
  fold_unary-Stable op _ h = h

  fold_compare-Stable :
      (op : CompareOp) (l r : Expr) → Stable cm l → Stable cm r → Stable cm (fold_compare op l r)
  unfolding fold_compare
  fold_compare-Stable op (const a) (const b) hl hr = tt
  fold_compare-Stable op _ _ hl hr = (hl, hr)

  fold_bool-Stable : (op : BoolOp) (es : Exprs) → AllStable cm es → Stable cm (fold_bool op es)
  unfolding fold_bool
  fold_bool-Stable op es h = go (const_values es)
    where
      go :
          (o : Option (List ℤ))
          → Stable cm (elim o [ none ↦ bool_op op es | some zs ↦ const (apply_bool op zs) ])
      go none = h
      go (some zs) = tt

  fold_mux-Stable :
      (s : Expr) (a b : Option Expr) (e : Expr)
      → Stable cm s
      → ((x : Expr) → a ≡ some x → Stable cm x)
      → ((x : Expr) → b ≡ some x → Stable cm x)
      → fold_mux s a b ≡ some e
      → Stable cm e
  fold_mux-Stable (const c) a b e hs ha hb h = elim (Bool-cases (truthy c)) [
    | inl p ↦ ha e (rw p at h)
    | inr p ↦ hb e (rw p at h)
  ]
  fold_mux-Stable s a b e hs ha hb h =
      let (x, p, h1) = >>=-eq-some a _ h in
      let (y, q, h2) = >>=-eq-some b _ h1 in rw (of_some h2) (hs, ha x p, hb y q)

  mutual
    unfolding try_fold

    pub try_fold-Stable : (e e' : Expr) → Stable cm e → try_fold e ≡ some e' → Stable cm e'
    try_fold-Stable (const z) e' s h = rw (of_some h) tt
    try_fold-Stable (param x) e' s h = rw (of_some h) tt
    try_fold-Stable (sig x) e' s h = rw (of_some h) tt
    try_fold-Stable (bin_op op l r) e' s h =
        let (l', p, h1) = >>=-eq-some (try_fold l) _ h in
        let (r', q, h2) = >>=-eq-some (try_fold r) _ h1 in
        fold_binary-Stable op l' r' e' (try_fold-Stable l l' s.0 p) (try_fold-Stable r r' s.1 q) h2
    try_fold-Stable (unary_op op e) e' s h =
        let (x, p, h1) = >>=-eq-some (try_fold e) _ h in
        rw (of_some h1) (fold_unary-Stable op x (try_fold-Stable e x s p))
    try_fold-Stable (compare op l r) e' s h =
        let (l', p, h1) = >>=-eq-some (try_fold l) _ h in
        let (r', q, h2) = >>=-eq-some (try_fold r) _ h1 in
        rw (of_some h2)
          (fold_compare-Stable op l' r' (try_fold-Stable l l' s.0 p) (try_fold-Stable r r' s.1 q))
    try_fold-Stable (bool_op op es) e' s h =
        let (xs, p, h1) = >>=-eq-some (try_fold_all es) _ h in
        rw (of_some h1) (fold_bool-Stable op xs (try_fold_all-AllStable es xs s p))
    try_fold-Stable (mux c a b) e' s h =
        let (x, p, h1) = >>=-eq-some (try_fold c) _ h in
        fold_mux-Stable x (try_fold a) (try_fold b) e' (try_fold-Stable c x s.0 p)
          (λ y. try_fold-Stable a y s.1) (λ y. try_fold-Stable b y s.2) h1
    try_fold-Stable (slice e hi lo) e' s h =
        let (x, p, h1) = >>=-eq-some (try_fold e) _ h in
        let (y, q, h2) = >>=-eq-some (try_fold hi) _ h1 in
        let (z, r, h3) = >>=-eq-some (try_fold lo) _ h2 in
        rw (of_some h3)
          (try_fold-Stable e x s.0 p, try_fold-Stable hi y s.1 q, try_fold-Stable lo z s.2 r)
    try_fold-Stable (slice_lo e lo) e' s h =
        let (x, p, h1) = >>=-eq-some (try_fold e) _ h in
        let (y, q, h2) = >>=-eq-some (try_fold lo) _ h1 in
        rw (of_some h2) (try_fold-Stable e x s.0 p, try_fold-Stable lo y s.1 q)
    try_fold-Stable (index e i) e' s h =
        let (x, p, h1) = >>=-eq-some (try_fold e) _ h in
        let (y, q, h2) = >>=-eq-some (try_fold i) _ h1 in
        rw (of_some h2) (try_fold-Stable e x s.0 p, try_fold-Stable i y s.1 q)
    try_fold-Stable (concat es) e' s h = rw (of_some (rw s.1 at h)) s
    try_fold-Stable (clz e w) e' s h =
        let (x, p, h1) = >>=-eq-some (try_fold e) _ h in rw (of_some h1) (try_fold-Stable e x s p)
    try_fold-Stable (ctz e w) e' s h =
        let (x, p, h1) = >>=-eq-some (try_fold e) _ h in rw (of_some h1) (try_fold-Stable e x s p)
    try_fold-Stable (popcount e w) e' s h =
        let (x, p, h1) = >>=-eq-some (try_fold e) _ h in rw (of_some h1) (try_fold-Stable e x s p)
    try_fold-Stable (sext e sw dw) e' s h =
        let (x, p, h1) = >>=-eq-some (try_fold e) _ h in rw (of_some h1) (try_fold-Stable e x s p)

    try_fold_all-AllStable :
        (es es' : Exprs) → AllStable cm es → try_fold_all es ≡ some es' → AllStable cm es'
    try_fold_all-AllStable enil es' s h = rw (of_some h) tt
    try_fold_all-AllStable (econs e es) es' s h =
        let (x, p, h1) = >>=-eq-some (try_fold e) _ h in
        let (xs, q, h2) = >>=-eq-some (try_fold_all es) _ h1 in
        rw (of_some h2) (try_fold-Stable e x s.0 p, try_fold_all-AllStable es xs s.1 q)
