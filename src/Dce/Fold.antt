-- ===== src/Dce/Fold.antt =====
-- `_try_fold` of veripy/dce.py. `none` is Python's ValueError for a negative shift count.
use veripy.Base.{List, [], ◌∷◌, Option, none, some, if◌then◌else◌, ◌>>=◌}
use veripy.Base.Int.{ℤ, ◌+ℤ◌, ◌-ℤ◌, ◌*ℤ◌, and_ℤ, or_ℤ, xor_ℤ, shl_ℤ, shr_ℤ, truthy}
use veripy.Ir.{
  BinaryOp, plus, minus, times, band, bor, bxor, shl, shr, UnaryOp, invert, lnot, CompareOp, BoolOp,
  Expr, Exprs, const, param, sig, bin_op, unary_op, compare, bool_op, mux, slice, slice_lo, index,
  concat, clz, ctz, popcount, sext, enil, econs,
}
use veripy.Ir.Value.{apply_unary, apply_compare, apply_bool}

-- The table `ops` of the BinOp case; the operators that it lacks stay.
unfoldable pub fold_consts : BinaryOp → ℤ → ℤ → Option Expr
fold_consts plus a b = some (const (a +ℤ b))
fold_consts minus a b = some (const (a -ℤ b))
fold_consts times a b = some (const (a *ℤ b))
fold_consts band a b = some (const (and_ℤ a b))
fold_consts bor a b = some (const (or_ℤ a b))
fold_consts bxor a b = some (const (xor_ℤ a b))
fold_consts shl a b = shl_ℤ a b >>= λ c. some (const c)
fold_consts shr a b = shr_ℤ a b >>= λ c. some (const c)
fold_consts op a b = some (bin_op op (const a) (const b))

unfoldable pub fold_binary : BinaryOp → Expr → Expr → Option Expr
unfolding fold_consts
fold_binary op (const a) (const b) = fold_consts op a b
fold_binary op l r = some (bin_op op l r)

-- A minus stays.
unfoldable pub fold_unary : UnaryOp → Expr → Expr
unfolding apply_unary
fold_unary invert (const a) = const (apply_unary invert a)
fold_unary lnot (const a) = const (apply_unary lnot a)
fold_unary op e = unary_op op e

unfoldable pub fold_compare : CompareOp → Expr → Expr → Expr
unfolding apply_compare
fold_compare op (const a) (const b) = const (apply_compare op a b)
fold_compare op l r = compare op l r

-- `all(isinstance(v, Const) for v in vals)`, with the values.
abbrev pub add_const : Expr → Option (List ℤ) → Option (List ℤ)
add_const (const z) zs = zs >>= λ zs. some (z ∷ zs)
add_const _ zs = none

abbrev pub const_values : Exprs → Option (List ℤ)
const_values enil = some []
const_values (econs e es) = add_const e (const_values es)

unfoldable pub fold_bool : BoolOp → Exprs → Expr
unfolding apply_bool
fold_bool op es = elim (const_values es) [
  | none ↦ bool_op op es
  | some zs ↦ const (apply_bool op zs)
]

-- The branches are folded only where they are kept.
abbrev pub fold_mux : Expr → Option Expr → Option Expr → Option Expr
fold_mux (const c) a b = if truthy c then a else b
fold_mux s a b = do a ← a; b ← b; some (mux s a b)

unfoldable mutual
  unfolding fold_binary fold_unary fold_compare fold_bool

  pub try_fold : Expr → Option Expr
  try_fold (const z) = some (const z)
  try_fold (bin_op op l r) = do l ← try_fold l; r ← try_fold r; fold_binary op l r
  try_fold (unary_op op e) = do e ← try_fold e; some (fold_unary op e)
  try_fold (compare op l r) = do l ← try_fold l; r ← try_fold r; some (fold_compare op l r)
  try_fold (bool_op op es) = do es ← try_fold_all es; some (fold_bool op es)
  try_fold (mux s a b) = do s ← try_fold s; fold_mux s (try_fold a) (try_fold b)
  try_fold (slice e hi lo) = do
    e ← try_fold e
    hi ← try_fold hi
    lo ← try_fold lo
    some (slice e hi lo)
  try_fold (slice_lo e lo) = do e ← try_fold e; lo ← try_fold lo; some (slice_lo e lo)
  try_fold (index e i) = do e ← try_fold e; i ← try_fold i; some (index e i)
  try_fold (concat es) = do es ← try_fold_all es; some (concat es)
  try_fold (clz e w) = do e ← try_fold e; some (clz e w)
  try_fold (ctz e w) = do e ← try_fold e; some (ctz e w)
  try_fold (popcount e w) = do e ← try_fold e; some (popcount e w)
  try_fold (sext e s d) = do e ← try_fold e; some (sext e s d)
  try_fold (param x) = some (param x)
  try_fold (sig x) = some (sig x)

  pub try_fold_all : Exprs → Option Exprs
  try_fold_all enil = some enil
  try_fold_all (econs e es) = do e ← try_fold e; es ← try_fold_all es; some (econs e es)
