-- ===== src/Lower/Tests.antt =====
-- Runs of the lowering on small functions, and the theorems about it at concrete inputs.
mod Loops
mod Constants
use veripy.Base.{
  ◌≡◌, ◌≤◌, refl, sym, ap, ◌∙◌, Bool-cases, inl, inr, String, true, List, [], ◌∷◌, ◌++◌, Option,
  none, some, same, arith,
}
use mathlib.Core.List.{reverse}
use veripy.Base.Int.{ℤ, pos, ◌+ℤ◌, ◌-ℤ◌, ◌*ℤ◌}
use veripy.Ir.{
  BinaryOp, over, plus, Expr, const, param, sig, bin_op, compare, eq, Stmt, Stmts, Cases, assign,
  case, snil, scons, cnil, ccons,
}
use veripy.Ir.Value.{word, Target}
use veripy.Ir.Meaning.{eval, Machine, exec_all}
use veripy.Lower.Outcome.{Outcome, ok, syntax_error, raised, exhausted, of_ok}
use veripy.Lower.Ast.{
  add, mult, op_eq, Ast, number, name, attribute, py_binary, py_compare, subscript, call, acons,
  anil, PyStmts, py_assign, aug_assign, py_if, py_for, py_return, py_break, pnil, pcons,
  loop_depths, strip_breaks,
}
use veripy.Lower.Scope.{
  Object, Value, object, integer, Scope, Locals, Resolved, parameter, constant, classify,
  resolve_name, constant_value, floor_div_ℤ, const_eval,
}
use veripy.Lower.Expr.{expr}
use veripy.Lower.Expr.Constant.{Faithful, eval-expr_constant}
use veripy.Lower.Rewrite.{rewrite, number_rule, fold, subst_var}
use veripy.Lower.Rewrite.Constant.{bind, const_eval-subst}
use veripy.Lower.Loop.{Lowered, single_if, unroll_for_break}
use veripy.Lower.Loop.Break.{first_true, no_arms, arm, unroll_for_break-first_true}
use veripy.Lower.Loop.Lost.{unroll_for_break-last_two}
use veripy.Lower.Stmt.{try_case, if_plain, stmts, case_rest, lower_or, lower}
use veripy.Lower.Stmt.Case.{try_case-if_plain}
use veripy.Lower.Stmt.Fuel.{lower_or-lower}
use veripy.Lower.Stmt.Append.{append}
use veripy.Lower.Fsm.{fsm_rule, fsm_rewrite, lower_fsm_comb}
use veripy.Lower.Fsm.Returns.{lower_fsm_comb-last_return}

abbrev an_integer : ℤ → Object
an_integer z = record { value = integer z; fields = [] }

-- A module with a parameter N of 4, whose function sees the constant K of 3.
abbrev scope : Scope
scope = record {
  signals = ("state", 2) ∷ ("x", 8) ∷ [];
  mems = [];
  submodules = [];
  interfaces = [];
  params = "N" ∷ [];
  attributes = [];
  port_arrays = [];
  freevars = ("N", object (an_integer (pos 4))) ∷ [];
  globals = ("K", object (an_integer (pos 3))) ∷ [];
  infer_rhs_width = λ e. 32;
}

abbrev self_x : String → Ast
self_x x = attribute (name "self") x

abbrev set : String → Ast → PyStmts
set x e = pcons (py_assign (acons (self_x x) anil) e) pnil

abbrev equal : Ast → Ast → Ast
equal a b = py_compare a (op_eq ∷ []) (acons b anil)

-- Divides as the lowering does, where both numbers are not negative.
abbrev quotient : Outcome ℤ → Option ℤ
quotient (ok z) = some z
quotient _ = none

abbrev divide : BinaryOp → ℤ → ℤ → Option ℤ
divide over a b = quotient (floor_div_ℤ a b)
divide op a b = none

abbrev target : Target
target = record {
  rest = divide;
  param_value = λ x. some (pos 4);
  width = λ x. some 8;
  slice_of = λ v h l. v;
  bit_of = λ v l. v;
  index_of = λ v k. none;
  concat_of = λ ps. pos 0;
  clz_of = λ w v. v;
  ctz_of = λ w v. v;
  popcount_of = λ w v. v;
  sext_of = λ s d v. v;
  truncate = λ k v. v;
  splice = λ k old h l v. old;
  store = λ k old a v. old;
}

-- A parameter is kept where it is an operand, but not below one.
expr-kept :
    expr scope [] (py_binary add (name "N") (number (pos 1)))
    ≡ ok (bin_op plus (param "N") (const (pos 1)))
unfolding expr
expr-kept = refl

expr-folded :
    expr scope [] (py_binary mult (py_binary add (name "N") (number (pos 1))) (number (pos 2)))
    ≡ ok (const (pos 10))
unfolding expr ◌+ℤ◌ ◌*ℤ◌
expr-folded = refl

-- An augmented assignment to a local variable or to a bit is dropped.
aug_stmt-dropped :
    lower scope true
      (pcons (aug_assign (subscript (self_x "x") (number (pos 0))) add (number (pos 1))) pnil)
      []
    ≡ ok (snil, [])
unfolding lower
aug_stmt-dropped = refl

abbrev state_is : ℤ → Ast
state_is z = equal (self_x "state") (number z)

abbrev body_of : ℤ → PyStmts
body_of z = set "x" (number z)

abbrev chain_rest : PyStmts
chain_rest = pcons (py_if (state_is (pos 1)) (body_of (pos 6)) (body_of (pos 7))) pnil

abbrev lowers_nothing : PyStmts → Locals → Lowered
lowers_nothing ss ls = exhausted

abbrev set_x : ℤ → Stmts
set_x z = scons (assign "x" (const z) true) snil

abbrev cases : Cases
cases = ccons (const (pos 0)) (set_x (pos 5)) (ccons (const (pos 1)) (set_x (pos 6)) cnil)

try_case-chain :
    try_case scope none
      (state_is (pos 0))
      (λ ls. stmts scope true lowers_nothing (body_of (pos 5)) ls)
      (λ e ls. case_rest scope true lowers_nothing e chain_rest ls)
      []
    ≡ ok (some (sig "state", cases, set_x (pos 7)), [])
unfolding try_case stmts
try_case-chain = refl

try_case-if_plain_example :
    (plain : Stmts) × (if_plain scope
        (state_is (pos 0))
        (λ ls. stmts scope true lowers_nothing (body_of (pos 5)) ls)
        (λ ls. stmts scope true lowers_nothing chain_rest ls)
        []
      ≡ ok (plain, []))
    × ((m : Machine)
        → exec_all target (scons (case (sig "state") cases (set_x (pos 7))) snil) m
          ≡ exec_all target plain m)
try_case-if_plain_example =
    try_case-if_plain scope true lowers_nothing target (state_is (pos 0)) (body_of (pos 5))
      chain_rest [] (sig "state") cases (set_x (pos 7)) [] try_case-chain

abbrev states : List (String × ℤ)
states = ("IDLE", pos 0) ∷ ("RUN", pos 1) ∷ []

-- if self.x == 1: return 1
abbrev early : PyStmts
early =
    pcons
      (py_if (equal (self_x "x") (number (pos 1))) (pcons (py_return (number (pos 1))) pnil) pnil)
      pnil

lower_fsm_comb-last_return_example :
    (ss : Stmts) × (lower_fsm_comb scope "state" states
        (append early (pcons (py_return (number (pos 0))) pnil))
      ≡ ok ss)
    × ((t : Target) (m m' : Machine)
        → exec_all t ss m ≡ some m'
        → m'.cur "_fsm_next" ≡ word (t.truncate "_fsm_next" (pos 0)))
unfolding lower fsm_rewrite fsm_rule
lower_fsm_comb-last_return_example =
    lower_fsm_comb-last_return scope "state" states early (number (pos 0)) (pos 0)
      (scons
        (case (sig "x")
          (ccons (const (pos 1)) (scons (assign "_fsm_next" (const (pos 1)) true) snil) cnil) snil)
        snil)
      [] refl refl
