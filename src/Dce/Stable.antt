-- ===== src/Dce/Stable.antt =====
-- Where the passes leave the parts of a concatenation alone. The layout of a concatenation is read
-- off its parts, and a constant does not keep the width of the signal that it replaces.
use veripy.Base.{◌≡◌, some}
use veripy.Ir.{
  Expr, Exprs, const, param, sig, bin_op, unary_op, compare, bool_op, mux, slice, slice_lo, index,
  concat, clz, ctz, popcount, sext, enil, econs,
}
use veripy.Dce.Fold.{try_fold_all}
use veripy.Dce.Subst.{ConstMap, subst_exprs}

abbrev mutual
  pub Stable : ConstMap → Expr → Type 0
  Stable cm (const z) = Unit
  Stable cm (param x) = Unit
  Stable cm (sig x) = Unit
  Stable cm (bin_op op l r) = Stable cm l × Stable cm r
  Stable cm (unary_op op e) = Stable cm e
  Stable cm (compare op l r) = Stable cm l × Stable cm r
  Stable cm (bool_op op es) = AllStable cm es
  Stable cm (mux s a b) = Stable cm s × Stable cm a × Stable cm b
  Stable cm (slice e hi lo) = Stable cm e × Stable cm hi × Stable cm lo
  Stable cm (slice_lo e lo) = Stable cm e × Stable cm lo
  Stable cm (index e i) = Stable cm e × Stable cm i
  Stable cm (concat es) = (subst_exprs cm es ≡ some es) × (try_fold_all es ≡ some es)
  Stable cm (clz e w) = Stable cm e
  Stable cm (ctz e w) = Stable cm e
  Stable cm (popcount e w) = Stable cm e
  Stable cm (sext e s d) = Stable cm e

  pub AllStable : ConstMap → Exprs → Type 0
  AllStable cm enil = Unit
  AllStable cm (econs e es) = Stable cm e × AllStable cm es
