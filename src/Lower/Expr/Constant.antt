-- ===== src/Lower/Expr/Constant.antt =====
-- An expression that `_const_eval` gives a value is lowered to an expression of that value.
use veripy.Base.{
  ◌≡◌, refl, ◌∙◌, sym, String, ◌||◌, some, Bool-cases, Option-cases, inl, inr, lookup,
}
use veripy.Base.Int.{ℤ, of_bool}
use veripy.Ir.{BinaryOp, over, Expr, const, param, bin_op, unary_op, negate}
use veripy.Ir.Value.{word, State, Target, apply_unary, apply_binary}
use veripy.Ir.Meaning.{eval}
use veripy.Lower.Outcome.{ok, syntax_error, >>=-eq-ok, of_ok}
use veripy.Lower.Ast.{
  PyBinary, add, sub, mult, floor_div, Ast, number, boolean, name, py_binary, py_unary, usub,
}
use veripy.Lower.Scope.{
  Scope, Locals, Resolved, parameter, constant, float_constant, plain_object, resolve_name,
  floor_div_ℤ, apply_fold, constant_value, const_eval,
}
use veripy.Lower.Expr.{
  binary_op, unary_operator, resolved_expr, name_expr, is_param_name, try_fold, expr,
}

-- What the target and the local variables must be like for the lowering to keep the values of
-- constants: a parameter has the value that the closure holds, `/` of constants rounds down, and no
-- local variable has the name of a variable of the closure.
pub record Faithful (t : Target) (sc : Scope) (ls : Locals) : Type 0 where
  pub parameters :
      (x p : String) (v : _) (z : ℤ)
      → resolve_name sc x ≡ ok (parameter p v)
      → constant_value (parameter p v) ≡ ok z
      → t.param_value p ≡ some z
  pub division : (a b z : ℤ) → floor_div_ℤ a b ≡ ok z → t.rest over a b ≡ some z
  pub locals : (x : String) (w : _) → lookup x ls ≡ some w → resolve_name sc x ≡ syntax_error

module _ (t : Target) (sc : Scope) (ls : Locals) (faithful : Faithful t sc ls) (st : State) where
  -- The expression is lowered to one of the value.
  abbrev pub HasValue : Ast → ℤ → Type 0
  HasValue e z = (q : Expr) × (expr sc ls e ≡ ok q) × (eval t st q ≡ some (word z))

  resolved_value :
      (x : String) (r : Resolved) (z : ℤ)
      → resolve_name sc x ≡ ok r
      → constant_value r ≡ ok z
      → (q : Expr) × (resolved_expr x (ok r) ≡ ok q) × (eval t st q ≡ some (word z))
  unfolding resolved_expr constant_value eval
  resolved_value x (parameter p v) z hr hz =
      (param p, refl, rw (faithful.parameters x p v z hr hz) refl)
  resolved_value x (constant c) z hr hz = (const c, refl, rw (of_ok hz) refl)
  resolved_value x float_constant z hr hz = cc
  resolved_value x (plain_object v) z hr hz = cc

  folded_value :
      (op : PyBinary) (a b z : ℤ)
      → apply_fold op a b ≡ ok z
      → (o : BinaryOp) × (binary_op op ≡ some o) × (apply_binary t o a b ≡ some z)
  unfolding apply_fold binary_op apply_binary
  folded_value add a b z h = (_, refl, rw (of_ok h) refl)
  folded_value sub a b z h = (_, refl, rw (of_ok h) refl)
  folded_value mult a b z h = (_, refl, rw (of_ok h) refl)
  folded_value floor_div a b z h = (over, refl, faithful.division a b z h)
  folded_value op a b z h = cc

  -- Whether it is folded or not, a constant of the code is lowered to an expression that has its
  -- value in every state: where parameters have the values that the closure holds, the
  -- division of constants by the target rounds down, and no local variable hides a name of the
  -- closure.
  pub eval-expr_constant : (e : Ast) (z : ℤ) → const_eval sc e ≡ ok z → HasValue e z
  unfolding const_eval expr eval apply_unary unary_operator name_expr try_fold
  eval-expr_constant (number c) z h = (const c, refl, rw (of_ok h) refl)
  eval-expr_constant (boolean b) z h = (const (of_bool b), refl, rw (of_ok h) refl)
  eval-expr_constant (name x) z h =
      let (r, hr, hz) = >>=-eq-ok (resolve_name sc x) _ h in
      elim (Option-cases (lookup x ls)) [
        | inl e ↦ (let (q, hq, hv) = resolved_value x r z hr hz in (q, rw (e, hr) hq, hv))
        | inr (w, e) ↦ clash (sym hr ∙ faithful.locals x w e)
      ]
    where
      clash : {A : Type 0} {r : Resolved} → ok r ≡ syntax_error → A
      clash h = cc
  eval-expr_constant (py_binary op l r) z h =
      let (a, ha, h1) = >>=-eq-ok (const_eval sc l) _ h in
      let (b, hb, h2) = >>=-eq-ok (const_eval sc r) _ h1 in
      let (p, hp, va) = eval-expr_constant l a ha in
      let (q, hq, vb) = eval-expr_constant r b hb in
      let (o, ho, hv) = folded_value op a b z h2 in
      elim (Bool-cases (is_param_name sc l || is_param_name sc r)) [
        | inl e ↦ (bin_op o p q, rw (ha, hb, e, ho, hp, hq) refl, rw (va, vb, hv) refl)
        | inr e ↦ (const z, rw (ha, hb, e, h2) refl, refl)
      ]
  eval-expr_constant (py_unary usub e) z h =
      let (a, ha, h1) = >>=-eq-ok (const_eval sc e) _ h in
      let (p, hp, va) = eval-expr_constant e a ha in
      (unary_op negate p, rw hp refl, rw (va, of_ok h1) refl)
  eval-expr_constant e z h = cc
