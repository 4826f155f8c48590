-- ===== src/Lower/Stmt/Fuel.antt =====
-- The fuel of `lower` is enough: the nesting of loops is all that it bounds.
use veripy.Base.{Bool, ℕ, zero, suc, ◌≤◌, ◌≡◌, refl, some, none, arith}
use veripy.Ir.{Expr}
use veripy.Lower.Outcome.{exhausted}
use veripy.Lower.Ast.{
  PyStmt, PyStmts, py_assign, aug_assign, expr_stmt, py_if, py_for, py_return, py_break, other_stmt,
  pnil, pcons, loop_depth, loop_depths,
}
use veripy.Lower.Scope.{Scope, Locals}
use veripy.Lower.Loop.{Lowered}
use veripy.Lower.Loop.Fuel.{lower_for_cong}
use veripy.Lower.Stmt.{
  then_lower, try_case, with_default, if_plain, case_or, stmts, stmt, case_rest, lower_or, lower,
}

module _ (sc : Scope) (blocking : Bool) (f g : PyStmts → Locals → Lowered) (n : ℕ)
    (h : (ss : PyStmts) (ls : Locals) → suc (loop_depths ss) ≤ n → f ss ls ≡ g ss ls) where
  mutual
    unfolding stmts loop_depths

    stmts_cong :
        (ss : PyStmts) (ls : Locals)
        → loop_depths ss ≤ n
        → stmts sc blocking f ss ls ≡ stmts sc blocking g ss ls
    stmts_cong pnil ls d = refl
    stmts_cong (pcons s ss) ls d =
        λ i. then_lower (stmt_cong s ls (omega arith) i) (λ ls. stmts_cong ss ls (omega arith) i)

    stmt_cong :
        (s : PyStmt) (ls : Locals)
        → loop_depth s ≤ n
        → stmt sc blocking f s ls ≡ stmt sc blocking g s ls
    stmt_cong (py_if c body orelse) ls d = λ i.
        case_or
          (try_case sc none c (λ ls. stmts_cong body ls (omega arith) i)
            (λ e ls. case_rest_cong e orelse ls (omega arith) i) ls)
          (λ ls.
            if_plain sc c (λ ls. stmts_cong body ls (omega arith) i)
              (λ ls. stmts_cong orelse ls (omega arith) i) ls)
    stmt_cong (py_for target it body) ls d =
        lower_for_cong sc f g (loop_depths body) (λ ss ls e. h ss ls (omega arith)) target it body
          ls (omega arith)
    stmt_cong (py_assign targets value) ls d = refl
    stmt_cong (aug_assign target op value) ls d = refl
    stmt_cong (expr_stmt e) ls d = refl
    stmt_cong (py_return e) ls d = refl
    stmt_cong py_break ls d = refl
    stmt_cong (other_stmt ss) ls d = refl

    case_rest_cong :
        (subject : Expr) (orelse : PyStmts) (ls : Locals)
        → loop_depths orelse ≤ n
        → case_rest sc blocking f subject orelse ls ≡ case_rest sc blocking g subject orelse ls
    case_rest_cong subject pnil ls d = refl
    case_rest_cong subject (pcons (py_if c body orelse) pnil) ls d = λ i.
        try_case sc (some subject) c (λ ls. stmts_cong body ls (omega arith) i)
          (λ e ls. case_rest_cong e orelse ls (omega arith) i) ls
    case_rest_cong subject (pcons s ss) ls d = λ i.
        with_default subject
          (then_lower (stmt_cong s ls (omega arith) i) (λ ls. stmts_cong ss ls (omega arith) i))

lower_or_same :
    (f g : PyStmts → Locals → Lowered) (sc : Scope) (blocking : Bool) (fuel more : ℕ) (ss : PyStmts)
    (ls : Locals)
    → loop_depths ss ≤ fuel
    → loop_depths ss ≤ more
    → lower_or f sc blocking fuel ss ls ≡ lower_or g sc blocking more ss ls
unfolding lower_or
lower_or_same f g sc blocking zero zero ss ls d e =
    stmts_cong sc blocking f g zero (λ b l k. absurd (omega arith)) ss ls d
lower_or_same f g sc blocking zero (suc more) ss ls d e =
    stmts_cong sc blocking f (lower_or g sc blocking more) zero (λ b l k. absurd (omega arith)) ss
      ls d
lower_or_same f g sc blocking (suc fuel) zero ss ls d e =
    stmts_cong sc blocking (lower_or f sc blocking fuel) g zero (λ b l k. absurd (omega arith)) ss
      ls e
lower_or_same f g sc blocking (suc fuel) (suc more) ss ls d e =
    stmts_cong sc blocking (lower_or f sc blocking fuel) (lower_or g sc blocking more)
      (loop_depths ss)
      (λ b l k. lower_or_same f g sc blocking fuel more b l (omega arith) (omega arith)) ss ls
      (omega arith)

-- With fuel of at least the depth of the loops in the statements, the lowering gives what it gives
-- with exactly that fuel, whatever is put in the place of a loop for which the fuel has run out: no
-- such loop is met, so the code returns what the model returns.
pub lower_or-lower :
    (at_end : PyStmts → Locals → Lowered) (sc : Scope) (blocking : Bool) (fuel : ℕ) (ss : PyStmts)
    (ls : Locals)
    → loop_depths ss ≤ fuel
    → lower_or at_end sc blocking fuel ss ls ≡ lower sc blocking ss ls
unfolding lower
lower_or-lower at_end sc blocking fuel ss ls d =
    lower_or_same at_end (λ ss ls. exhausted) sc blocking fuel (loop_depths ss) ss ls d
      (omega arith)
