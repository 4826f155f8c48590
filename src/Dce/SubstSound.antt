-- ===== src/Dce/SubstSound.antt =====
-- Substitution of known constants keeps the value of an expression, in every state in which the
-- signals hold those constants.
use veripy.Base.{◌≡◌, refl, sym, ap, ◌∙◌, Option, some, none, String, >>=-eq-some, of_some, lookup}
use veripy.Base.Int.{ℤ}
use veripy.Ir.{
  Expr, Exprs, const, param, sig, bin_op, unary_op, compare, bool_op, mux, slice, slice_lo, index,
  concat, clz, ctz, popcount, sext, enil, econs,
}
use veripy.Ir.Value.{State, Target, word}
use veripy.Ir.Meaning.{eval, eval_all}
use veripy.Dce.FoldSound.{eval-try_fold}
use veripy.Dce.Subst.{ConstMap, subst_sig, subst_expr, subst_exprs}
use veripy.Dce.Stable.{Stable, AllStable}
use veripy.Dce.StableSubst.{subst_expr-Stable, subst_exprs-AllStable}

-- Every signal of the dictionary holds its constant.
abbrev pub Agrees : ConstMap → State → Type 0
Agrees cm st = (k : String) (z : ℤ) → lookup k cm ≡ some z → st k ≡ word z

module _ (cm : ConstMap) (t : Target) (st : State) (agrees : Agrees cm st) where
  eval-subst_sig : (x : String) → eval t st (subst_sig cm x) ≡ some (st x)
  unfolding subst_sig eval
  eval-subst_sig x = go (lookup x cm) refl
    where
      go :
          (o : Option ℤ)
          → lookup x cm ≡ o
          → eval t st (elim o [ none ↦ sig x | some z ↦ const z ]) ≡ some (st x)
      go none p = refl
      go (some z) p = ap some (sym (agrees x z p))

  mutual
    unfolding subst_expr eval

    pub eval-subst_expr :
        (e e' : Expr) → Stable cm e → subst_expr cm e ≡ some e' → eval t st e' ≡ eval t st e
    eval-subst_expr (const z) e' s h = ap (eval t st) (of_some h)
    eval-subst_expr (param x) e' s h = ap (eval t st) (of_some h)
    eval-subst_expr (sig x) e' s h = ap (eval t st) (of_some h) ∙ eval-subst_sig x
    eval-subst_expr (bin_op op l r) e' s h =
        let (x, p, h1) = >>=-eq-some (subst_expr cm l) _ h in
        let (y, q, h2) = >>=-eq-some (subst_expr cm r) _ h1 in
        eval-try_fold cm t st (bin_op op x y) e'
          (subst_expr-Stable cm l x s.0 p, subst_expr-Stable cm r y s.1 q) h2
        ∙ rw (eval-subst_expr l x s.0 p, eval-subst_expr r y s.1 q) refl
    eval-subst_expr (unary_op op e) e' s h =
        let (x, p, h1) = >>=-eq-some (subst_expr cm e) _ h in
        eval-try_fold cm t st (unary_op op x) e' (subst_expr-Stable cm e x s p) h1
        ∙ rw (eval-subst_expr e x s p) refl
    eval-subst_expr (compare op l r) e' s h =
        let (x, p, h1) = >>=-eq-some (subst_expr cm l) _ h in
        let (y, q, h2) = >>=-eq-some (subst_expr cm r) _ h1 in
        eval-try_fold cm t st (compare op x y) e'
          (subst_expr-Stable cm l x s.0 p, subst_expr-Stable cm r y s.1 q) h2
        ∙ rw (eval-subst_expr l x s.0 p, eval-subst_expr r y s.1 q) refl
    eval-subst_expr (bool_op op es) e' s h =
        let (xs, p, h1) = >>=-eq-some (subst_exprs cm es) _ h in
        eval-try_fold cm t st (bool_op op xs) e' (subst_exprs-AllStable cm es xs s p) h1
        ∙ rw (eval_all-subst_exprs es xs s p) refl
    eval-subst_expr (mux c a b) e' s h =
        let (x, p, h1) = >>=-eq-some (subst_expr cm c) _ h in
        let (y, q, h2) = >>=-eq-some (subst_expr cm a) _ h1 in
        let (z, r, h3) = >>=-eq-some (subst_expr cm b) _ h2 in
        eval-try_fold cm t st (mux x y z) e'
          (
            subst_expr-Stable cm c x s.0 p,
            subst_expr-Stable cm a y s.1 q,
            subst_expr-Stable cm b z s.2 r,
          )
          h3
        ∙ rw (eval-subst_expr c x s.0 p, eval-subst_expr a y s.1 q, eval-subst_expr b z s.2 r) refl
    eval-subst_expr (slice e hi lo) e' s h =
        let (x, p, h1) = >>=-eq-some (subst_expr cm e) _ h in
        let (y, q, h2) = >>=-eq-some (subst_expr cm hi) _ h1 in
        let (z, r, h3) = >>=-eq-some (subst_expr cm lo) _ h2 in
        ap (eval t st) (of_some h3)
        ∙ rw (eval-subst_expr e x s.0 p, eval-subst_expr hi y s.1 q, eval-subst_expr lo z s.2 r)
            refl
    eval-subst_expr (slice_lo e lo) e' s h =
        let (x, p, h1) = >>=-eq-some (subst_expr cm e) _ h in
        let (y, q, h2) = >>=-eq-some (subst_expr cm lo) _ h1 in
        ap (eval t st) (of_some h2)
        ∙ rw (eval-subst_expr e x s.0 p, eval-subst_expr lo y s.1 q) refl
    eval-subst_expr (index e i) e' s h =
        let (x, p, h1) = >>=-eq-some (subst_expr cm e) _ h in
        let (y, q, h2) = >>=-eq-some (subst_expr cm i) _ h1 in
        ap (eval t st) (of_some h2) ∙ rw (eval-subst_expr e x s.0 p, eval-subst_expr i y s.1 q) refl
    eval-subst_expr (concat es) e' s h = ap (eval t st) (of_some (rw s.0 at h))
    eval-subst_expr (clz e w) e' s h =
        let (x, p, h1) = >>=-eq-some (subst_expr cm e) _ h in
        ap (eval t st) (of_some h1) ∙ rw (eval-subst_expr e x s p) refl
    eval-subst_expr (ctz e w) e' s h =
        let (x, p, h1) = >>=-eq-some (subst_expr cm e) _ h in
        ap (eval t st) (of_some h1) ∙ rw (eval-subst_expr e x s p) refl
    eval-subst_expr (popcount e w) e' s h =
        let (x, p, h1) = >>=-eq-some (subst_expr cm e) _ h in
        ap (eval t st) (of_some h1) ∙ rw (eval-subst_expr e x s p) refl
    eval-subst_expr (sext e sw dw) e' s h =
        let (x, p, h1) = >>=-eq-some (subst_expr cm e) _ h in
        ap (eval t st) (of_some h1) ∙ rw (eval-subst_expr e x s p) refl

    eval_all-subst_exprs :
        (es es' : Exprs)
        → AllStable cm es
        → subst_exprs cm es ≡ some es'
        → eval_all t st es' ≡ eval_all t st es
    eval_all-subst_exprs enil es' s h = ap (eval_all t st) (of_some h)
    eval_all-subst_exprs (econs e es) es' s h =
        let (x, p, h1) = >>=-eq-some (subst_expr cm e) _ h in
        let (xs, q, h2) = >>=-eq-some (subst_exprs cm es) _ h1 in
        ap (eval_all t st) (of_some h2)
        ∙ rw (eval-subst_expr e x s.0 p, eval_all-subst_exprs es xs s.1 q) refl
