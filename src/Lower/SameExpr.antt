-- ===== src/Lower/SameExpr.antt =====
-- veripy/ir.py: `==` on IR expressions, which compares their fields.
use veripy.Base.{Bool, true, false, ◌&&◌, ◌==◌, ==_iff, same, ◌≡◌, refl, ap, same→eq, arith}
use veripy.Base.Int.{ℤ, pos, negsuc, eq_ℤ}
use veripy.Ir.{
  BinaryOp, plus, minus, times, over, modulo, band, bor, bxor, shl, shr, ashr, UnaryOp, invert,
  lnot, negate, CompareOp, eq, ne, lt, gt, le, ge, BoolOp, land, lor, Expr, Exprs, const, param,
  sig, bin_op, unary_op, compare, bool_op, mux, slice, slice_lo, index, concat, clz, ctz, popcount,
  sext, enil, econs,
}

unfoldable pub same_binary : BinaryOp → BinaryOp → Bool
same_binary plus plus = true
same_binary minus minus = true
same_binary times times = true
same_binary over over = true
same_binary modulo modulo = true
same_binary band band = true
same_binary bor bor = true
same_binary bxor bxor = true
same_binary shl shl = true
same_binary shr shr = true
same_binary ashr ashr = true
same_binary a b = false

unfoldable pub same_unary : UnaryOp → UnaryOp → Bool
same_unary invert invert = true
same_unary lnot lnot = true
same_unary negate negate = true
same_unary a b = false

unfoldable pub same_compare : CompareOp → CompareOp → Bool
same_compare eq eq = true
same_compare ne ne = true
same_compare lt lt = true
same_compare gt gt = true
same_compare le le = true
same_compare ge ge = true
same_compare a b = false

unfoldable pub same_bool : BoolOp → BoolOp → Bool
same_bool land land = true
same_bool lor lor = true
same_bool a b = false

unfoldable mutual
  unfolding same same_binary same_unary same_compare same_bool

  pub same_expr : Expr → Expr → Bool
  same_expr (const a) (const b) = eq_ℤ a b
  same_expr (param x) (param y) = same x y
  same_expr (sig x) (sig y) = same x y
  same_expr (bin_op o a b) (bin_op p c d) = same_binary o p && (same_expr a c && same_expr b d)
  same_expr (unary_op o a) (unary_op p b) = same_unary o p && same_expr a b
  same_expr (compare o a b) (compare p c d) = same_compare o p && (same_expr a c && same_expr b d)
  same_expr (bool_op o es) (bool_op p fs) = same_bool o p && same_exprs es fs
  same_expr (mux s a b) (mux t c d) = same_expr s t && (same_expr a c && same_expr b d)
  same_expr (slice e h l) (slice f i m) = same_expr e f && (same_expr h i && same_expr l m)
  same_expr (slice_lo e l) (slice_lo f m) = same_expr e f && same_expr l m
  same_expr (index e i) (index f j) = same_expr e f && same_expr i j
  same_expr (concat es) (concat fs) = same_exprs es fs
  same_expr (clz e w) (clz f v) = same_expr e f && w == v
  same_expr (ctz e w) (ctz f v) = same_expr e f && w == v
  same_expr (popcount e w) (popcount f v) = same_expr e f && w == v
  same_expr (sext e w x) (sext f v y) = same_expr e f && (w == v && x == y)
  same_expr e f = false

  pub same_exprs : Exprs → Exprs → Bool
  same_exprs enil enil = true
  same_exprs (econs e es) (econs f fs) = same_expr e f && same_exprs es fs
  same_exprs es fs = false

-- Equal in this sense is the same expression.
same_binary→eq : (a b : BinaryOp) → same_binary a b ≡ true → a ≡ b
unfolding same_binary
same_binary→eq plus plus h = refl
same_binary→eq minus minus h = refl
same_binary→eq times times h = refl
same_binary→eq over over h = refl
same_binary→eq modulo modulo h = refl
same_binary→eq band band h = refl
same_binary→eq bor bor h = refl
same_binary→eq bxor bxor h = refl
same_binary→eq shl shl h = refl
same_binary→eq shr shr h = refl
same_binary→eq ashr ashr h = refl
same_binary→eq a b h = cc

same_unary→eq : (a b : UnaryOp) → same_unary a b ≡ true → a ≡ b
unfolding same_unary
same_unary→eq invert invert h = refl
same_unary→eq lnot lnot h = refl
same_unary→eq negate negate h = refl
same_unary→eq a b h = cc

same_compare→eq : (a b : CompareOp) → same_compare a b ≡ true → a ≡ b
unfolding same_compare
same_compare→eq eq eq h = refl
same_compare→eq ne ne h = refl
same_compare→eq lt lt h = refl
same_compare→eq gt gt h = refl
same_compare→eq le le h = refl
same_compare→eq ge ge h = refl
same_compare→eq a b h = cc

same_bool→eq : (a b : BoolOp) → same_bool a b ≡ true → a ≡ b
unfolding same_bool
same_bool→eq land land h = refl
same_bool→eq lor lor h = refl
same_bool→eq a b h = cc

eq_ℤ→eq : (a b : ℤ) → eq_ℤ a b ≡ true → a ≡ b
eq_ℤ→eq (pos a) (pos b) h = ap pos ((==_iff a b).0 h)
eq_ℤ→eq (negsuc a) (negsuc b) h = ap negsuc ((==_iff a b).0 h)
eq_ℤ→eq a b h = cc

both : (a b : Bool) → a && b ≡ true → (a ≡ true) × (b ≡ true)
both a b h = ground arith

mutual
  unfolding same_expr

  pub same_expr→eq : (e f : Expr) → same_expr e f ≡ true → e ≡ f
  same_expr→eq (const a) (const b) h = ap const (eq_ℤ→eq a b h)
  same_expr→eq (param x) (param y) h = ap param (same→eq x y h)
  same_expr→eq (sig x) (sig y) h = ap sig (same→eq x y h)
  same_expr→eq (bin_op o a b) (bin_op p c d) h =
      let (h0, hs) = both _ _ h in
      let (h1, h2) = both _ _ hs in
      λ i. bin_op (same_binary→eq o p h0 i) (same_expr→eq a c h1 i) (same_expr→eq b d h2 i)
  same_expr→eq (unary_op o a) (unary_op p b) h =
      let (h0, h1) = both _ _ h in λ i. unary_op (same_unary→eq o p h0 i) (same_expr→eq a b h1 i)
  same_expr→eq (compare o a b) (compare p c d) h =
      let (h0, hs) = both _ _ h in
      let (h1, h2) = both _ _ hs in
      λ i. compare (same_compare→eq o p h0 i) (same_expr→eq a c h1 i) (same_expr→eq b d h2 i)
  same_expr→eq (bool_op o es) (bool_op p fs) h =
      let (h0, h1) = both _ _ h in λ i. bool_op (same_bool→eq o p h0 i) (same_exprs→eq es fs h1 i)
  same_expr→eq (mux s a b) (mux t c d) h =
      let (h0, hs) = both _ _ h in
      let (h1, h2) = both _ _ hs in
      λ i. mux (same_expr→eq s t h0 i) (same_expr→eq a c h1 i) (same_expr→eq b d h2 i)
  same_expr→eq (slice s a b) (slice t c d) h =
      let (h0, hs) = both _ _ h in
      let (h1, h2) = both _ _ hs in
      λ i. slice (same_expr→eq s t h0 i) (same_expr→eq a c h1 i) (same_expr→eq b d h2 i)
  same_expr→eq (slice_lo e l) (slice_lo f m) h =
      let (h0, h1) = both _ _ h in λ i. slice_lo (same_expr→eq e f h0 i) (same_expr→eq l m h1 i)
  same_expr→eq (index e l) (index f m) h =
      let (h0, h1) = both _ _ h in λ i. index (same_expr→eq e f h0 i) (same_expr→eq l m h1 i)
  same_expr→eq (concat es) (concat fs) h = ap concat (same_exprs→eq es fs h)
  same_expr→eq (clz e w) (clz f v) h =
      let (h0, h1) = both _ _ h in λ i. clz (same_expr→eq e f h0 i) ((==_iff w v).0 h1 i)
  same_expr→eq (ctz e w) (ctz f v) h =
      let (h0, h1) = both _ _ h in λ i. ctz (same_expr→eq e f h0 i) ((==_iff w v).0 h1 i)
  same_expr→eq (popcount e w) (popcount f v) h =
      let (h0, h1) = both _ _ h in λ i. popcount (same_expr→eq e f h0 i) ((==_iff w v).0 h1 i)
  same_expr→eq (sext e w x) (sext f v y) h =
      let (h0, hs) = both _ _ h in
      let (h1, h2) = both _ _ hs in
      λ i. sext (same_expr→eq e f h0 i) ((==_iff w v).0 h1 i) ((==_iff x y).0 h2 i)
  same_expr→eq e f h = cc

  same_exprs→eq : (es fs : Exprs) → same_exprs es fs ≡ true → es ≡ fs
  same_exprs→eq enil enil h = refl
  same_exprs→eq (econs e es) (econs f fs) h =
      let (h0, h1) = both _ _ h in λ i. econs (same_expr→eq e f h0 i) (same_exprs→eq es fs h1 i)
  same_exprs→eq es fs h = cc
