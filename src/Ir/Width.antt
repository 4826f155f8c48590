-- ===== src/Ir/Width.antt =====
-- `_expr_width` of veripy/backend_csim.py: the width that an expression is emitted with.
use veripy.Base.{ℕ, ◌+◌, String, Option, none, some, max, if◌then◌else◌}
use veripy.Base.Bits.{bit_length}
use veripy.Base.Int.{ℤ, pos, negsuc, ◌+ℤ◌, ◌-ℤ◌, lt_ℤ}
use veripy.Ir.{
  Expr, Exprs, const, param, sig, bin_op, unary_op, compare, bool_op, mux, slice, slice_lo, index,
  concat, clz, ctz, popcount, sext, enil, econs,
}

unfoldable pub const_width : ℤ → ℤ
unfolding bit_length
const_width (pos n) = pos (max (bit_length n) 1)
const_width (negsuc n) = pos 32

-- `sig_w.get(name, 32)`
unfoldable pub declared_width : Option ℕ → ℤ
declared_width none = pos 32
declared_width (some w) = pos w

abbrev pub max_ℤ : ℤ → ℤ → ℤ
max_ℤ a b = if lt_ℤ a b then b else a

unfoldable pub slice_width : Expr → Expr → ℤ
unfolding ◌+ℤ◌ ◌-ℤ◌
slice_width (const h) (const l) = h -ℤ l +ℤ pos 1
slice_width hi lo = pos 32

unfoldable pub index_width : (String → Option ℕ) → Expr → ℤ
unfolding declared_width
index_width sig_w (sig x) = declared_width (sig_w x)
index_width sig_w e = pos 32

unfoldable mutual
  unfolding const_width declared_width slice_width index_width bit_length ◌+ℤ◌

  pub expr_width : (String → Option ℕ) → Expr → ℤ
  expr_width sig_w (const z) = const_width z
  expr_width sig_w (param x) = pos 32
  expr_width sig_w (sig x) = declared_width (sig_w x)
  expr_width sig_w (bin_op op l r) = max_ℤ (expr_width sig_w l) (expr_width sig_w r)
  expr_width sig_w (unary_op op e) = expr_width sig_w e
  expr_width sig_w (compare op l r) = pos 1
  expr_width sig_w (bool_op op es) = pos 1
  expr_width sig_w (mux s a b) = max_ℤ (expr_width sig_w a) (expr_width sig_w b)
  expr_width sig_w (slice e hi lo) = slice_width hi lo
  expr_width sig_w (slice_lo e lo) = pos 1
  expr_width sig_w (index e i) = index_width sig_w e
  expr_width sig_w (concat es) = sum_widths sig_w es
  expr_width sig_w (clz e w) = pos (bit_length (w + 1))
  expr_width sig_w (ctz e w) = pos (bit_length (w + 1))
  expr_width sig_w (popcount e w) = pos (bit_length (w + 1))
  expr_width sig_w (sext e s d) = pos d

  pub sum_widths : (String → Option ℕ) → Exprs → ℤ
  sum_widths sig_w enil = pos 0
  sum_widths sig_w (econs e es) = expr_width sig_w e +ℤ sum_widths sig_w es
