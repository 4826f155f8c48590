-- ===== src/Lower/Ast.antt =====
-- Python's `ast`, as far as veripy/lower.py reads it: expressions and the statements of a block. A
-- field that is None is `absent`; an expression of any other form is `other`. A statement of any
-- other form is `other_stmt`, with the statements that stand within it. Keywords of a call and the
-- step of a slice, which nothing reads, are left out, and so are constants other than numbers and
-- truth values. The value of a float, which no IR of the model can hold, is left out.
use veripy.Base.{ℕ, suc, max, String, Bool, true, false, List, ◌||◌, same, if◌then◌else◌}
use veripy.Base.Int.{ℤ}

pub data PyBinary : Type 0 where
  add sub mult floor_div py_mod bit_and bit_or bit_xor lshift rshift div pow mat_mult : PyBinary

pub data PyUnary : Type 0 where
  op_invert op_not usub uadd : PyUnary

pub data PyCompare : Type 0 where
  op_eq not_eq op_lt op_gt lt_e gt_e op_is is_not op_in not_in : PyCompare

pub data PyBool : Type 0 where
  op_and op_or : PyBool

mutual
  pub data Ast : Type 0 where
    number : ℤ → Ast
    boolean : Bool → Ast
    name : String → Ast
    attribute : Ast → String → Ast
    py_binary : PyBinary → Ast → Ast → Ast
    py_bool : PyBool → Asts → Ast
    py_unary : PyUnary → Ast → Ast
    py_compare : Ast → List PyCompare → Asts → Ast
    subscript : Ast → Ast → Ast
    py_slice : Ast → Ast → Ast
    call : Ast → Asts → Ast
    py_list : Asts → Ast
    if_exp : Ast → Ast → Ast → Ast
    absent float_number other : Ast

  pub data Asts : Type 0 where
    anil : Asts
    acons : Ast → Asts → Asts

-- The targets of an assignment are a list; `py_for` leaves out the `else` of the loop.
mutual
  pub data PyStmt : Type 0 where
    py_assign : Asts → Ast → PyStmt
    aug_assign : Ast → PyBinary → Ast → PyStmt
    expr_stmt : Ast → PyStmt
    py_if : Ast → PyStmts → PyStmts → PyStmt
    py_for : Ast → Ast → PyStmts → PyStmt
    py_return : Ast → PyStmt
    py_break : PyStmt
    other_stmt : PyStmts → PyStmt

  pub data PyStmts : Type 0 where
    pnil : PyStmts
    pcons : PyStmt → PyStmts → PyStmts

-- `_is_self`
unfoldable pub is_self : Ast → Bool
unfolding same
is_self (name x) = same x "self"
is_self e = false

-- `_is_self_target`
unfoldable pub is_self_target : Ast → Bool
unfolding is_self
is_self_target (subscript e i) = is_self_target e
is_self_target (attribute e a) = is_self e || is_self_target e
is_self_target e = false

-- `any(isinstance(n, ast.Break) for n in ast.walk(...))`
unfoldable mutual
  pub has_break : PyStmt → Bool
  has_break py_break = true
  has_break (py_if c b o) = any_break b || any_break o
  has_break (py_for v it b) = any_break b
  has_break (other_stmt ss) = any_break ss
  has_break s = false

  pub any_break : PyStmts → Bool
  any_break pnil = false
  any_break (pcons s ss) = has_break s || any_break ss

abbrev pub is_break : PyStmt → Bool
is_break py_break = true
is_break _ = false

-- `[s for s in stmts if not isinstance(s, ast.Break)]`
unfoldable pub strip_breaks : PyStmts → PyStmts
strip_breaks pnil = pnil
strip_breaks (pcons s ss) = let rest = strip_breaks ss in if is_break s then rest else pcons s rest

-- How deep loops stand inside loops.
unfoldable mutual
  pub loop_depth : PyStmt → ℕ
  loop_depth (py_if c b o) = max (loop_depths b) (loop_depths o)
  loop_depth (py_for v it b) = suc (loop_depths b)
  loop_depth s = 0

  pub loop_depths : PyStmts → ℕ
  loop_depths pnil = 0
  loop_depths (pcons s ss) = max (loop_depth s) (loop_depths ss)
