-- ===== src/Dce/StableSubst.antt =====
-- Substitution leaves an expression in which the passes keep all concatenations.
use veripy.Base.{◌≡◌, Option, some, none, String, >>=-eq-some, of_some, lookup}
use veripy.Base.Int.{ℤ}
use veripy.Ir.{
  Expr, Exprs, const, param, sig, bin_op, unary_op, compare, bool_op, mux, slice, slice_lo, index,
  concat, clz, ctz, popcount, sext, enil, econs,
}
use veripy.Dce.Subst.{ConstMap, subst_sig, subst_expr, subst_exprs}
use veripy.Dce.Stable.{Stable, AllStable}
use veripy.Dce.StableKept.{try_fold-Stable}

module _ (cm : ConstMap) where
  subst_sig-Stable : (x : String) → Stable cm (subst_sig cm x)
  unfolding subst_sig
  subst_sig-Stable x = go (lookup x cm)
    where
      go : (o : Option ℤ) → Stable cm (elim o [ none ↦ sig x | some z ↦ const z ])
      go none = tt
      go (some z) = tt

  mutual
    unfolding subst_expr

    pub subst_expr-Stable : (e e' : Expr) → Stable cm e → subst_expr cm e ≡ some e' → Stable cm e'
    subst_expr-Stable (const z) e' s h = rw (of_some h) tt
    subst_expr-Stable (param x) e' s h = rw (of_some h) tt
    subst_expr-Stable (sig x) e' s h = rw (of_some h) (subst_sig-Stable x)
    subst_expr-Stable (bin_op op l r) e' s h =
        let (x, p, h1) = >>=-eq-some (subst_expr cm l) _ h in
        let (y, q, h2) = >>=-eq-some (subst_expr cm r) _ h1 in
        try_fold-Stable cm (bin_op op x y) e'
          (subst_expr-Stable l x s.0 p, subst_expr-Stable r y s.1 q) h2
    subst_expr-Stable (unary_op op e) e' s h =
        let (x, p, h1) = >>=-eq-some (subst_expr cm e) _ h in
        try_fold-Stable cm (unary_op op x) e' (subst_expr-Stable e x s p) h1
    subst_expr-Stable (compare op l r) e' s h =
        let (x, p, h1) = >>=-eq-some (subst_expr cm l) _ h in
        let (y, q, h2) = >>=-eq-some (subst_expr cm r) _ h1 in
        try_fold-Stable cm (compare op x y) e'
          (subst_expr-Stable l x s.0 p, subst_expr-Stable r y s.1 q) h2
    subst_expr-Stable (bool_op op es) e' s h =
        let (xs, p, h1) = >>=-eq-some (subst_exprs cm es) _ h in
        try_fold-Stable cm (bool_op op xs) e' (subst_exprs-AllStable es xs s p) h1
    subst_expr-Stable (mux c a b) e' s h =
        let (x, p, h1) = >>=-eq-some (subst_expr cm c) _ h in
        let (y, q, h2) = >>=-eq-some (subst_expr cm a) _ h1 in
        let (z, r, h3) = >>=-eq-some (subst_expr cm b) _ h2 in
        try_fold-Stable cm (mux x y z) e'
          (subst_expr-Stable c x s.0 p, subst_expr-Stable a y s.1 q, subst_expr-Stable b z s.2 r) h3
    subst_expr-Stable (slice e hi lo) e' s h =
        let (x, p, h1) = >>=-eq-some (subst_expr cm e) _ h in
        let (y, q, h2) = >>=-eq-some (subst_expr cm hi) _ h1 in
        let (z, r, h3) = >>=-eq-some (subst_expr cm lo) _ h2 in
        rw (of_some h3)
          (subst_expr-Stable e x s.0 p, subst_expr-Stable hi y s.1 q, subst_expr-Stable lo z s.2 r)
    subst_expr-Stable (slice_lo e lo) e' s h =
        let (x, p, h1) = >>=-eq-some (subst_expr cm e) _ h in
        let (y, q, h2) = >>=-eq-some (subst_expr cm lo) _ h1 in
        rw (of_some h2) (subst_expr-Stable e x s.0 p, subst_expr-Stable lo y s.1 q)
    subst_expr-Stable (index e i) e' s h =
        let (x, p, h1) = >>=-eq-some (subst_expr cm e) _ h in
        let (y, q, h2) = >>=-eq-some (subst_expr cm i) _ h1 in
        rw (of_some h2) (subst_expr-Stable e x s.0 p, subst_expr-Stable i y s.1 q)
    subst_expr-Stable (concat es) e' s h = rw (of_some (rw s.0 at h)) s
    subst_expr-Stable (clz e w) e' s h =
        let (x, p, h1) = >>=-eq-some (subst_expr cm e) _ h in
        rw (of_some h1) (subst_expr-Stable e x s p)
    subst_expr-Stable (ctz e w) e' s h =
        let (x, p, h1) = >>=-eq-some (subst_expr cm e) _ h in
        rw (of_some h1) (subst_expr-Stable e x s p)
    subst_expr-Stable (popcount e w) e' s h =
        let (x, p, h1) = >>=-eq-some (subst_expr cm e) _ h in
        rw (of_some h1) (subst_expr-Stable e x s p)
    subst_expr-Stable (sext e sw dw) e' s h =
        let (x, p, h1) = >>=-eq-some (subst_expr cm e) _ h in
        rw (of_some h1) (subst_expr-Stable e x s p)

    pub subst_exprs-AllStable :
        (es es' : Exprs) → AllStable cm es → subst_exprs cm es ≡ some es' → AllStable cm es'
    subst_exprs-AllStable enil es' s h = rw (of_some h) tt
    subst_exprs-AllStable (econs e es) es' s h =
        let (x, p, h1) = >>=-eq-some (subst_expr cm e) _ h in
        let (xs, q, h2) = >>=-eq-some (subst_exprs cm es) _ h1 in
        rw (of_some h2) (subst_expr-Stable e x s.0 p, subst_exprs-AllStable es xs s.1 q)
