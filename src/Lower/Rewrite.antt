-- ===== src/Lower/Rewrite.antt =====
-- veripy/lower.py: the rewriting of a syntax tree: `_subst_var`, `_subst_var_obj` and the loop over a
-- port array inside `_lower_for` replace the loop variable, `_try_fold_ast` folds constants.
-- `ast.walk` lists the children of a node before they are replaced, so what replaces one is not
-- rewritten again.
pub mod Depth
pub mod Constant
use veripy.Base.{String, List, Option, none, some, if◌then◌else◌, same, lookup, ◌≡◌, refl}
use veripy.Base.Int.{ℤ, of_bool}
use veripy.Lower.Outcome.{Outcome, ok, ◌>>=◌}
use veripy.Lower.Ast.{
  float_number, PyBinary, Ast, Asts, number, boolean, name, attribute, py_binary, py_bool, py_unary,
  py_compare, subscript, py_slice, call, py_list, if_exp, anil, acons, PyStmt, PyStmts, py_assign,
  aug_assign, expr_stmt, py_if, py_for, py_return, other_stmt, pnil, pcons,
}
use veripy.Lower.Scope.{Plain, integer, signal, floating, opaque, Object, fold_op}

-- What replaces a name, and an attribute of a name; `none` where they stay.
pub record Rule : Type 0 where
  pub on_name : String → Option Ast
  pub on_attribute : String → String → Option Ast

abbrev pub or_else {ℓ} : {A : Type ℓ} → Option A → A → A
or_else none a = a
or_else (some b) a = b

abbrev pub whole : Rule → Ast → String → Option Ast
whole r (name x) a = r.on_attribute x a
whole r e a = none

unfoldable mutual
  pub rewrite : Rule → Ast → Ast
  rewrite r (name x) = or_else (r.on_name x) (name x)
  rewrite r (attribute e a) = or_else (whole r e a) (attribute (rewrite r e) a)
  rewrite r (py_binary op a b) = py_binary op (rewrite r a) (rewrite r b)
  rewrite r (py_bool op es) = py_bool op (rewrite_all r es)
  rewrite r (py_unary op e) = py_unary op (rewrite r e)
  rewrite r (py_compare e ops es) = py_compare (rewrite r e) ops (rewrite_all r es)
  rewrite r (subscript e i) = subscript (rewrite r e) (rewrite r i)
  rewrite r (py_slice from upto) = py_slice (rewrite r from) (rewrite r upto)
  rewrite r (call f es) = call (rewrite r f) (rewrite_all r es)
  rewrite r (py_list es) = py_list (rewrite_all r es)
  rewrite r (if_exp c a b) = if_exp (rewrite r c) (rewrite r a) (rewrite r b)
  rewrite r e = e

  pub rewrite_all : Rule → Asts → Asts
  rewrite_all r anil = anil
  rewrite_all r (acons e es) = acons (rewrite r e) (rewrite_all r es)

unfoldable mutual
  unfolding rewrite

  pub rewrite_stmt : Rule → PyStmt → PyStmt
  rewrite_stmt r (py_assign ts e) = py_assign (rewrite_all r ts) (rewrite r e)
  rewrite_stmt r (aug_assign t op e) = aug_assign (rewrite r t) op (rewrite r e)
  rewrite_stmt r (expr_stmt e) = expr_stmt (rewrite r e)
  rewrite_stmt r (py_if c b o) = py_if (rewrite r c) (rewrite_stmts r b) (rewrite_stmts r o)
  rewrite_stmt r (py_for v it b) = py_for (rewrite r v) (rewrite r it) (rewrite_stmts r b)
  rewrite_stmt r (py_return e) = py_return (rewrite r e)
  rewrite_stmt r (other_stmt ss) = other_stmt (rewrite_stmts r ss)
  rewrite_stmt r s = s

  pub rewrite_stmts : Rule → PyStmts → PyStmts
  rewrite_stmts r pnil = pnil
  rewrite_stmts r (pcons s ss) = pcons (rewrite_stmt r s) (rewrite_stmts r ss)

-- The first half of `_subst_var`: the variable becomes a number.
unfoldable pub number_rule : String → ℤ → Rule
unfolding same
number_rule x z = record {
  on_name = λ y. if same y x then some (number z) else none;
  on_attribute = λ y a. none;
}

-- The loop over a port array: the variable becomes `self.<signal>`.
unfoldable pub signal_rule : String → String → Rule
unfolding same
signal_rule x s = record {
  on_name = λ y. if same y x then some (attribute (name "self") s) else none;
  on_attribute = λ y a. none;
}

-- `_replacement` of `_subst_var_obj`
unfoldable pub replacement : Plain → Option Ast
replacement (integer z) = some (number z)
replacement (signal s) = some (attribute (name "self") s)
replacement floating = some float_number
replacement opaque = none

abbrev pub field_replacement : Option Plain → Option Ast
field_replacement none = none
field_replacement (some p) = replacement p

-- `_subst_var_obj`
unfoldable pub object_rule : String → Object → Rule
unfolding same replacement
object_rule x o = record {
  on_name = λ y. if same y x then replacement o.value else none;
  on_attribute = λ y a. if same y x then field_replacement (lookup a o.fields) else none;
}

unfoldable pub literal : Ast → Option ℤ
literal (number z) = some z
literal (boolean b) = some (of_bool b)
literal e = none

-- `_try_fold_ast`: `none` where nothing is folded. Arithmetic on a float is left to its evaluation,
-- which is outside the model.
abbrev pub fold_literals : Option ℤ → Option ℤ → Option (ℤ → ℤ → Outcome ℤ) → Outcome (Option Ast)
fold_literals (some a) (some b) (some f) = f a b >>= λ z. ok (some (number z))
fold_literals a b f = ok none

unfoldable pub try_fold_ast : PyBinary → Ast → Ast → Outcome (Option Ast)
unfolding literal fold_op
try_fold_ast op l r = fold_literals (literal l) (literal r) (fold_op op)

abbrev pub fold_or : Option Ast → PyBinary → Outcome Ast → Outcome Ast → Outcome Ast
fold_or (some e) op left right = ok e
fold_or none op left right = left >>= λ a. right >>= λ b. ok (py_binary op a b)

-- The second half of `_subst_var`: a constant that folding makes is not folded again with its
-- neighbour, since a node is looked at before its children.
unfoldable mutual
  unfolding try_fold_ast

  pub fold : Ast → Outcome Ast
  fold (attribute e a) = do e ← fold e; ok (attribute e a)
  fold (py_binary op a b) =
      let left = fold a in
      let right = fold b in try_fold_ast op a b >>= λ folded. fold_or folded op left right
  fold (py_bool op es) = do es ← fold_all es; ok (py_bool op es)
  fold (py_unary op e) = do e ← fold e; ok (py_unary op e)
  fold (py_compare e ops es) = do e ← fold e; es ← fold_all es; ok (py_compare e ops es)
  fold (subscript e i) = do e ← fold e; i ← fold i; ok (subscript e i)
  fold (py_slice from upto) = do a ← fold from; b ← fold upto; ok (py_slice a b)
  fold (call f es) = do f ← fold f; es ← fold_all es; ok (call f es)
  fold (py_list es) = do es ← fold_all es; ok (py_list es)
  fold (if_exp c a b) = do c ← fold c; a ← fold a; b ← fold b; ok (if_exp c a b)
  fold e = ok e

  pub fold_all : Asts → Outcome Asts
  fold_all anil = ok anil
  fold_all (acons e es) = do e ← fold e; es ← fold_all es; ok (acons e es)

unfoldable mutual
  unfolding fold

  pub fold_stmt : PyStmt → Outcome PyStmt
  fold_stmt (py_assign ts e) = do ts ← fold_all ts; e ← fold e; ok (py_assign ts e)
  fold_stmt (aug_assign t op e) = do t ← fold t; e ← fold e; ok (aug_assign t op e)
  fold_stmt (expr_stmt e) = do e ← fold e; ok (expr_stmt e)
  fold_stmt (py_if c b o) = do c ← fold c; b ← fold_stmts b; o ← fold_stmts o; ok (py_if c b o)
  fold_stmt (py_for v it b) = do v ← fold v; it ← fold it; b ← fold_stmts b; ok (py_for v it b)
  fold_stmt (py_return e) = do e ← fold e; ok (py_return e)
  fold_stmt (other_stmt ss) = do ss ← fold_stmts ss; ok (other_stmt ss)
  fold_stmt s = ok s

  pub fold_stmts : PyStmts → Outcome PyStmts
  fold_stmts pnil = ok pnil
  fold_stmts (pcons s ss) = do s ← fold_stmt s; ss ← fold_stmts ss; ok (pcons s ss)

-- `_subst_var`
unfoldable pub subst_var : PyStmts → String → ℤ → Outcome PyStmts
unfolding rewrite_stmt number_rule fold_stmt
subst_var ss x z = fold_stmts (rewrite_stmts (number_rule x z) ss)
