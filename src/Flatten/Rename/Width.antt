-- ===== src/Flatten/Rename/Width.antt =====
-- Renaming alone keeps the width that an expression is emitted with.
use veripy.Base.{ℕ, String, [], Option, ◌≡◌, refl, ap₂}
use veripy.Base.Int.{◌+ℤ◌}
use veripy.Ir.{
  Expr, Exprs, const, param, sig, bin_op, unary_op, compare, bool_op, mux, slice, slice_lo, index,
  concat, clz, ctz, popcount, sext, enil, econs,
}
use veripy.Ir.Width.{expr_width, sum_widths, slice_width, index_width, max_ℤ}
use veripy.Flatten.Rename.{Renaming, rn, rename_expr, rename_exprs}

module _ (rename : Renaming) (sig_w : String → Option ℕ) where
  abbrev pub renamed_w : String → Option ℕ
  renamed_w x = sig_w (rn rename x)

  -- Constants stay constants, and nothing becomes one.
  slice_width-rename_expr :
      (hi lo : Expr)
      → slice_width (rename_expr rename [] hi) (rename_expr rename [] lo) ≡ slice_width hi lo
  unfolding slice_width rename_expr
  slice_width-rename_expr (const z') (const z) = refl
  slice_width-rename_expr (const z') (param x) = refl
  slice_width-rename_expr (const z') (sig x) = refl
  slice_width-rename_expr (const z') (bin_op op l r) = refl
  slice_width-rename_expr (const z') (unary_op op e) = refl
  slice_width-rename_expr (const z') (compare op l r) = refl
  slice_width-rename_expr (const z') (bool_op op es) = refl
  slice_width-rename_expr (const z') (mux s a b) = refl
  slice_width-rename_expr (const z') (slice e h' l') = refl
  slice_width-rename_expr (const z') (slice_lo e l') = refl
  slice_width-rename_expr (const z') (index e i) = refl
  slice_width-rename_expr (const z') (concat es) = refl
  slice_width-rename_expr (const z') (clz e w) = refl
  slice_width-rename_expr (const z') (ctz e w) = refl
  slice_width-rename_expr (const z') (popcount e w) = refl
  slice_width-rename_expr (const z') (sext e s d) = refl
  slice_width-rename_expr (param x) lo = refl
  slice_width-rename_expr (sig x) lo = refl
  slice_width-rename_expr (bin_op op l r) lo = refl
  slice_width-rename_expr (unary_op op e) lo = refl
  slice_width-rename_expr (compare op l r) lo = refl
  slice_width-rename_expr (bool_op op es) lo = refl
  slice_width-rename_expr (mux s a b) lo = refl
  slice_width-rename_expr (slice e h' l') lo = refl
  slice_width-rename_expr (slice_lo e l') lo = refl
  slice_width-rename_expr (index e i) lo = refl
  slice_width-rename_expr (concat es) lo = refl
  slice_width-rename_expr (clz e w) lo = refl
  slice_width-rename_expr (ctz e w) lo = refl
  slice_width-rename_expr (popcount e w) lo = refl
  slice_width-rename_expr (sext e s d) lo = refl

  index_width-rename_expr :
      (e : Expr) → index_width sig_w (rename_expr rename [] e) ≡ index_width renamed_w e
  unfolding index_width rename_expr
  index_width-rename_expr (const z) = refl
  index_width-rename_expr (param x) = refl
  index_width-rename_expr (sig x) = refl
  index_width-rename_expr (bin_op op l r) = refl
  index_width-rename_expr (unary_op op e) = refl
  index_width-rename_expr (compare op l r) = refl
  index_width-rename_expr (bool_op op es) = refl
  index_width-rename_expr (mux s a b) = refl
  index_width-rename_expr (slice e h' l') = refl
  index_width-rename_expr (slice_lo e l') = refl
  index_width-rename_expr (index e i) = refl
  index_width-rename_expr (concat es) = refl
  index_width-rename_expr (clz e w) = refl
  index_width-rename_expr (ctz e w) = refl
  index_width-rename_expr (popcount e w) = refl
  index_width-rename_expr (sext e s d) = refl

  mutual
    unfolding expr_width rename_expr

    pub expr_width-rename_expr :
        (e : Expr) → expr_width sig_w (rename_expr rename [] e) ≡ expr_width renamed_w e
    expr_width-rename_expr (const z) = refl
    expr_width-rename_expr (param x) = refl
    expr_width-rename_expr (sig x) = refl
    expr_width-rename_expr (bin_op op l r) =
        ap₂ max_ℤ (expr_width-rename_expr l) (expr_width-rename_expr r)
    expr_width-rename_expr (unary_op op e) = expr_width-rename_expr e
    expr_width-rename_expr (compare op l r) = refl
    expr_width-rename_expr (bool_op op es) = refl
    expr_width-rename_expr (mux s a b) =
        ap₂ max_ℤ (expr_width-rename_expr a) (expr_width-rename_expr b)
    expr_width-rename_expr (slice e hi lo) = slice_width-rename_expr hi lo
    expr_width-rename_expr (slice_lo e lo) = refl
    expr_width-rename_expr (index e i) = index_width-rename_expr e
    expr_width-rename_expr (concat es) = sum_widths-rename_exprs es
    expr_width-rename_expr (clz e w) = refl
    expr_width-rename_expr (ctz e w) = refl
    expr_width-rename_expr (popcount e w) = refl
    expr_width-rename_expr (sext e s d) = refl

    pub sum_widths-rename_exprs :
        (es : Exprs) → sum_widths sig_w (rename_exprs rename [] es) ≡ sum_widths renamed_w es
    sum_widths-rename_exprs enil = refl
    sum_widths-rename_exprs (econs e es) =
        ap₂ ◌+ℤ◌ (expr_width-rename_expr e) (sum_widths-rename_exprs es)
