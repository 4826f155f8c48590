-- ===== src/Flatten/Rename.antt =====
-- The rename helpers of veripy/flatten.py. `resolved` has the parameters that stand for integers;
-- the missing dictionary of `resolved_params=None` is the empty one.
pub mod Names
pub mod Width
pub mod Meaning
mod Tests
use veripy.Base.{String, List, [], ◌∷◌, Option, none, some, lookup}
use veripy.Base.Int.{ℤ}
use veripy.Ir.{
  Expr, Exprs, const, param, sig, bin_op, unary_op, compare, bool_op, mux, slice, slice_lo, index,
  concat, clz, ctz, popcount, sext, enil, econs, Stmt, Stmts, Cases, assign, slice_assign, if_else,
  case, mem_write, delay, display, finish, repeat, for_loop, disable, group, snil, scons, cnil,
  ccons,
}

abbrev pub Renaming : Type 0
Renaming = List (String × String)

-- `_rn`: `rename.get(name, name)`.
abbrev or_else : String → Option String → String
or_else x none = x
or_else x (some y) = y

unfoldable pub rn : Renaming → String → String
rn rename x = or_else x (lookup x rename)

abbrev pub rename_param : Renaming → String → Option ℤ → Expr
rename_param rename x none = param (rn rename x)
rename_param rename x (some z) = const z

-- The parts of a concatenation are renamed without `resolved_params`.
unfoldable mutual
  pub rename_expr : Renaming → List (String × ℤ) → Expr → Expr
  rename_expr rename resolved (const z) = const z
  rename_expr rename resolved (sig x) = sig (rn rename x)
  rename_expr rename resolved (param x) = rename_param rename x (lookup x resolved)
  rename_expr rename resolved (bin_op op l r) =
      bin_op op (rename_expr rename resolved l) (rename_expr rename resolved r)
  rename_expr rename resolved (unary_op op e) = unary_op op (rename_expr rename resolved e)
  rename_expr rename resolved (compare op l r) =
      compare op (rename_expr rename resolved l) (rename_expr rename resolved r)
  rename_expr rename resolved (bool_op op es) = bool_op op (rename_exprs rename resolved es)
  rename_expr rename resolved (mux s a b) =
      mux (rename_expr rename resolved s) (rename_expr rename resolved a)
        (rename_expr rename resolved b)
  rename_expr rename resolved (slice e hi lo) =
      slice (rename_expr rename resolved e) (rename_expr rename resolved hi)
        (rename_expr rename resolved lo)
  rename_expr rename resolved (slice_lo e lo) =
      slice_lo (rename_expr rename resolved e) (rename_expr rename resolved lo)
  rename_expr rename resolved (index e i) =
      index (rename_expr rename resolved e) (rename_expr rename resolved i)
  rename_expr rename resolved (concat es) = concat (rename_exprs rename [] es)
  rename_expr rename resolved (clz e w) = clz (rename_expr rename resolved e) w
  rename_expr rename resolved (ctz e w) = ctz (rename_expr rename resolved e) w
  rename_expr rename resolved (popcount e w) = popcount (rename_expr rename resolved e) w
  rename_expr rename resolved (sext e s d) = sext (rename_expr rename resolved e) s d

  pub rename_exprs : Renaming → List (String × ℤ) → Exprs → Exprs
  rename_exprs rename resolved enil = enil
  rename_exprs rename resolved (econs e es) =
      econs (rename_expr rename resolved e) (rename_exprs rename resolved es)

unfoldable mutual
  unfolding rename_expr

  pub rename_stmt : Renaming → List (String × ℤ) → Stmt → Stmt
  rename_stmt rename resolved (assign k e blocking) =
      assign (rn rename k) (rename_expr rename resolved e) blocking
  rename_stmt rename resolved (slice_assign k hi lo e blocking) =
      slice_assign (rn rename k) (rename_expr rename resolved hi) (rename_expr rename resolved lo)
        (rename_expr rename resolved e) blocking
  rename_stmt rename resolved (mem_write k addr e blocking) =
      mem_write (rn rename k) (rename_expr rename resolved addr) (rename_expr rename resolved e)
        blocking
  rename_stmt rename resolved (if_else c yes_body no_body) =
      if_else (rename_expr rename resolved c) (rename_stmts rename resolved yes_body)
        (rename_stmts rename resolved no_body)
  rename_stmt rename resolved (case s cs default) =
      case (rename_expr rename resolved s) (rename_cases rename resolved cs)
        (rename_stmts rename resolved default)
  rename_stmt rename resolved s = s

  pub rename_stmts : Renaming → List (String × ℤ) → Stmts → Stmts
  rename_stmts rename resolved snil = snil
  rename_stmts rename resolved (scons s ss) =
      scons (rename_stmt rename resolved s) (rename_stmts rename resolved ss)

  pub rename_cases : Renaming → List (String × ℤ) → Cases → Cases
  rename_cases rename resolved cnil = cnil
  rename_cases rename resolved (ccons e body cs) =
      ccons (rename_expr rename resolved e) (rename_stmts rename resolved body)
        (rename_cases rename resolved cs)
