-- ===== src/Flatten/Reads.antt =====
-- The signal collection helpers of veripy/flatten.py. A set of names is a list of them; the two
-- sets that `_stmt_writes_reads` fills are a function each.
use veripy.Base.{String, List, [], ◌∷◌, ◌++◌}
use veripy.Ir.{
  Expr, Exprs, const, param, sig, bin_op, unary_op, compare, bool_op, mux, slice, slice_lo, index,
  concat, clz, ctz, popcount, sext, enil, econs, Stmt, Stmts, Cases, assign, slice_assign, if_else,
  case, mem_write, snil, scons, cnil, ccons,
}

unfoldable mutual
  pub expr_reads : Expr → List String
  expr_reads (const z) = []
  expr_reads (param x) = []
  expr_reads (sig x) = x ∷ []
  expr_reads (bin_op op l r) = expr_reads l ++ expr_reads r
  expr_reads (unary_op op e) = expr_reads e
  expr_reads (compare op l r) = expr_reads l ++ expr_reads r
  expr_reads (bool_op op es) = exprs_reads es
  expr_reads (mux s a b) = expr_reads s ++ (expr_reads a ++ expr_reads b)
  expr_reads (slice e hi lo) = expr_reads e ++ (expr_reads hi ++ expr_reads lo)
  expr_reads (slice_lo e lo) = expr_reads e ++ expr_reads lo
  expr_reads (index e i) = expr_reads e ++ expr_reads i
  expr_reads (concat es) = exprs_reads es
  expr_reads (clz e w) = expr_reads e
  expr_reads (ctz e w) = expr_reads e
  expr_reads (popcount e w) = expr_reads e
  expr_reads (sext e s d) = expr_reads e

  pub exprs_reads : Exprs → List String
  exprs_reads enil = []
  exprs_reads (econs e es) = expr_reads e ++ exprs_reads es

-- The statements without a case here, and a list in place of a statement, add nothing.
unfoldable mutual
  pub stmt_writes : Stmt → List String
  stmt_writes (assign k e blocking) = k ∷ []
  stmt_writes (slice_assign k hi lo e blocking) = k ∷ []
  stmt_writes (mem_write k addr e blocking) = k ∷ []
  stmt_writes (if_else c yes_body no_body) = stmts_writes yes_body ++ stmts_writes no_body
  stmt_writes (case s cs default) = cases_writes cs ++ stmts_writes default
  stmt_writes _ = []

  pub stmts_writes : Stmts → List String
  stmts_writes snil = []
  stmts_writes (scons s ss) = stmt_writes s ++ stmts_writes ss

  pub cases_writes : Cases → List String
  cases_writes cnil = []
  cases_writes (ccons e body cs) = stmts_writes body ++ cases_writes cs

unfoldable mutual
  unfolding expr_reads

  pub stmt_reads : Stmt → List String
  stmt_reads (assign k e blocking) = expr_reads e
  stmt_reads (slice_assign k hi lo e blocking) = (expr_reads hi ++ expr_reads lo) ++ expr_reads e
  stmt_reads (mem_write k addr e blocking) = expr_reads addr ++ expr_reads e
  stmt_reads (if_else c yes_body no_body) =
      expr_reads c ++ (stmts_reads yes_body ++ stmts_reads no_body)
  stmt_reads (case s cs default) = expr_reads s ++ (cases_reads cs ++ stmts_reads default)
  stmt_reads _ = []

  pub stmts_reads : Stmts → List String
  stmts_reads snil = []
  stmts_reads (scons s ss) = stmt_reads s ++ stmts_reads ss

  pub cases_reads : Cases → List String
  cases_reads cnil = []
  cases_reads (ccons e body cs) = expr_reads e ++ (stmts_reads body ++ cases_reads cs)
