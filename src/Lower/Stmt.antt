-- ===== src/Lower/Stmt.antt =====
-- veripy/lower.py: `_stmts`, `_stmt` and `_try_case`. The body of a loop is no part of the statement
-- once it is rewritten, so the nesting of loops is bounded by fuel.
mod Branches
pub mod Fuel
pub mod Append
pub mod Case
use veripy.Base.{
  ℕ, zero, suc, String, Bool, true, false, List, [], ◌∷◌, Option, none, some, if◌then◌else◌,
}
use veripy.Ir.{Expr, Stmt, Stmts, Cases, assign, if_else, case, snil, scons, cnil, ccons, extend}
use veripy.Lower.Outcome.{Outcome, ok, exhausted, ◌>>=◌}
use veripy.Lower.Ast.{
  PyCompare, op_eq, Ast, Asts, py_compare, anil, acons, PyStmt, PyStmts, py_assign, aug_assign,
  expr_stmt, py_if, py_for, py_return, py_break, other_stmt, pnil, pcons, is_self_target,
  loop_depths,
}
use veripy.Lower.Scope.{Scope, Locals}
use veripy.Lower.Expr.{expr}
use veripy.Lower.Loop.{Lowered, lower_for}
use veripy.Lower.Assign.{assign_stmt, aug_stmt, expr_stmt_of}
use veripy.Lower.SameExpr.{same_expr}

-- The signal and the constant that a test compares. An attribute of `self` is a target as well.
unfoldable pub case_test : Ast → Option (Ast × Ast)
unfolding is_self_target
case_test (py_compare l (op_eq ∷ []) (acons r anil)) =
    if is_self_target l then some (l, r) else if is_self_target r then some (r, l) else none
case_test e = none

-- The subject of a case statement, its branches and its default.
abbrev pub Case : Type 0
Case = Expr × Cases × Stmts

abbrev pub add_branch : Expr → Expr → Stmts → Option Case → Option Case
add_branch subject pattern body none = none
add_branch subject pattern body (some (_, cs, default)) =
    some (subject, ccons pattern body cs, default)

-- The subject so far and the one of a test differ.
abbrev pub differs : Option Expr → Expr → Bool
differs none e = false
differs (some s) e = if same_expr e s then false else true

abbrev pub subject_or : Option Expr → Expr → Expr
subject_or none e = e
subject_or (some s) e = s

-- Statements after statements.
abbrev pub then_lower : Lowered → (Locals → Lowered) → Lowered
then_lower o rest = o >>= λ (out, ls). rest ls >>= λ (more, ls). ok (extend out more, ls)

abbrev pub Attempt : Type 0
Attempt = Outcome (Option Case × Locals)

-- One turn of the loop of `_try_case`, from the subject of the tests before, the lowering of the
-- body and what follows it. What is lowered before the chain breaks off leaves its local variables
-- known.
unfoldable pub case_turn :
    Scope
    → Option Expr
    → Option (Ast × Ast)
    → (Locals → Lowered)
    → (Expr → Locals → Attempt)
    → Locals
    → Attempt
unfolding expr same_expr
case_turn sc seen none body rest ls = ok (none, ls)
case_turn sc seen (some (signal_node, const_node)) body rest ls = expr sc ls signal_node >>= λ e.
    if differs seen e
    then ok (none, ls)
    else (expr sc ls const_node >>= λ pattern. body ls >>= λ (ss, ls).
        rest (subject_or seen e) ls >>= λ (found, ls).
        ok (add_branch (subject_or seen e) pattern ss found, ls))

unfoldable pub try_case :
    Scope → Option Expr → Ast → (Locals → Lowered) → (Expr → Locals → Attempt) → Locals → Attempt
unfolding case_turn case_test
try_case sc seen test body rest ls = case_turn sc seen (case_test test) body rest ls

abbrev pub with_default : Expr → Lowered → Attempt
with_default subject o = o >>= λ (ss, ls). ok (some (subject, cnil, ss), ls)

-- `If(...)` of a test and the lowering of its two branches.
unfoldable pub if_plain : Scope → Ast → (Locals → Lowered) → (Locals → Lowered) → Locals → Lowered
unfolding expr
if_plain sc test body orelse ls = do
  c ← expr sc ls test
  (then_body, ls) ← body ls
  (else_body, ls) ← orelse ls
  ok (scons (if_else c then_body else_body) snil, ls)

-- The case statement that was found, or else the plain one.
unfoldable pub case_or : Attempt → (Locals → Lowered) → Lowered
case_or o plain = o >>= λ (found, ls). elim found [
  | some (subject, cs, default) ↦ ok (scons (case subject cs default) snil, ls)
  | none ↦ plain ls
]

module _ (sc : Scope) (blocking : Bool) (lower_body : PyStmts → Locals → Lowered) where
  unfoldable mutual
    unfolding assign_stmt aug_stmt expr_stmt_of lower_for try_case if_plain case_or

    pub stmts : PyStmts → Locals → Lowered
    stmts pnil ls = ok (snil, ls)
    stmts (pcons s ss) ls = then_lower (stmt s ls) (λ ls. stmts ss ls)

    pub stmt : PyStmt → Locals → Lowered
    stmt (py_if c body orelse) ls =
        case_or (try_case sc none c (λ ls. stmts body ls) (λ e ls. case_rest e orelse ls) ls)
          (λ ls. if_plain sc c (λ ls. stmts body ls) (λ ls. stmts orelse ls) ls)
    stmt (py_for target it body) ls = lower_for sc lower_body target it body ls
    stmt (py_assign targets value) ls = assign_stmt sc ls blocking targets value
    stmt (aug_assign target op value) ls = aug_stmt sc ls blocking target op value
    stmt (expr_stmt e) ls = expr_stmt_of sc ls blocking e
    stmt (py_return e) ls = ok (snil, ls)
    stmt py_break ls = ok (snil, ls)
    stmt (other_stmt ss) ls = ok (snil, ls)

    -- The rest of a chain of tests of `subject`: nothing, one more test, or the default.
    pub case_rest : Expr → PyStmts → Locals → Attempt
    case_rest subject pnil ls = ok (some (subject, cnil, snil), ls)
    case_rest subject (pcons (py_if c body orelse) pnil) ls =
        try_case sc (some subject) c (λ ls. stmts body ls) (λ e ls. case_rest e orelse ls) ls
    case_rest subject (pcons s ss) ls =
        with_default subject (then_lower (stmt s ls) (λ ls. stmts ss ls))

-- `_stmts` on fuel for loops inside loops; the first argument stands in for a loop where the fuel
-- has run out.
unfoldable pub lower_or :
    (PyStmts → Locals → Lowered) → Scope → Bool → ℕ → PyStmts → Locals → Lowered
unfolding stmts
lower_or at_end sc blocking zero = stmts sc blocking at_end
lower_or at_end sc blocking (suc fuel) = stmts sc blocking (lower_or at_end sc blocking fuel)

-- With the fuel that the statements need.
unfoldable pub lower : Scope → Bool → PyStmts → Locals → Lowered
unfolding lower_or loop_depths
lower sc blocking ss = lower_or (λ ss ls. exhausted) sc blocking (loop_depths ss) ss
