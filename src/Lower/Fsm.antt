-- ===== src/Lower/Fsm.antt =====
-- veripy/lower.py: the lowering of a state machine, `_lower_fsm_comb`, `_fsm_rewrite` and
-- `_fsm_rewrite_expr`. The function's first parameter is the state; its `return` statements give the
-- next one.
pub mod Returns
use veripy.Base.{String, true, List, [], Option, none, some, if◌then◌else◌, same, lookup}
use veripy.Base.Int.{ℤ}
use veripy.Ir.{sig, Stmts, assign, snil, scons}
use veripy.Lower.Outcome.{Outcome, ok, ◌>>=◌}
use veripy.Lower.Ast.{
  Ast, Asts, number, name, attribute, absent, anil, acons, PyStmt, PyStmts, py_assign, expr_stmt,
  py_if, py_return, pnil, pcons,
}
use veripy.Lower.Scope.{Scope}
use veripy.Lower.Rewrite.{Rule, rewrite}
use veripy.Lower.Stmt.{lower}

-- The names that `_fsm_rewrite_expr` replaces: the state, and the states by their numbers.
unfoldable pub fsm_rule : String → List (String × ℤ) → Rule
unfolding same
fsm_rule state_param state_vals = record {
  on_name = λ x.
      if same x state_param
      then some (attribute (name "self") "_fsm_state")
      else elim (lookup x state_vals) [ some z ↦ some (number z) | none ↦ none ];
  on_attribute = λ x a. none;
}

-- `_fsm_rewrite_expr` replaces what stands below a node: an expression that is itself a name stays.
unfoldable pub fsm_rewrite_expr : Rule → Ast → Ast
unfolding rewrite
fsm_rewrite_expr r (name x) = name x
fsm_rewrite_expr r e = rewrite r e

abbrev pub fsm_rewrite_exprs : Rule → Asts → Asts
fsm_rewrite_exprs r anil = anil
fsm_rewrite_exprs r (acons e es) = acons (fsm_rewrite_expr r e) (fsm_rewrite_exprs r es)

-- A `return` without a value returns the state.
abbrev pub returned : String → Ast → Ast
returned state_param absent = name state_param
returned state_param e = e

abbrev pub fsm_next : Asts
fsm_next = acons (attribute (name "self") "_fsm_next") anil

-- `_fsm_rewrite`
unfoldable mutual
  unfolding fsm_rewrite_expr

  pub fsm_rewrite_stmt : String → Rule → PyStmt → PyStmt
  fsm_rewrite_stmt sp r (py_return e) = py_assign fsm_next (fsm_rewrite_expr r (returned sp e))
  fsm_rewrite_stmt sp r (py_if c b o) =
      py_if (fsm_rewrite_expr r c) (fsm_rewrite sp r b) (fsm_rewrite sp r o)
  fsm_rewrite_stmt sp r (py_assign ts e) = py_assign (fsm_rewrite_exprs r ts) (fsm_rewrite_expr r e)
  fsm_rewrite_stmt sp r (expr_stmt e) = expr_stmt (fsm_rewrite_expr r e)
  fsm_rewrite_stmt sp r s = s

  pub fsm_rewrite : String → Rule → PyStmts → PyStmts
  fsm_rewrite sp r pnil = pnil
  fsm_rewrite sp r (pcons s ss) = pcons (fsm_rewrite_stmt sp r s) (fsm_rewrite sp r ss)

-- `_lower_fsm_comb`, from the body of the function: the block of the next state.
unfoldable pub lower_fsm_comb : Scope → String → List (String × ℤ) → PyStmts → Outcome Stmts
unfolding fsm_rule fsm_rewrite_stmt lower
lower_fsm_comb sc state_param state_vals body = do
  (ss, _) ← lower sc true (fsm_rewrite state_param (fsm_rule state_param state_vals) body) []
  ok (scons (assign "_fsm_next" (sig "_fsm_state") true) ss)
