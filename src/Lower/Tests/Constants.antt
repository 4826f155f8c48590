-- ===== src/Lower/Tests/Constants.antt =====
-- Constants, and the theorems about them at concrete inputs.
use veripy.Base.{◌≡◌, refl, sym, ap, ◌∙◌, Bool-cases, inl, inr, String, [], some, same}
use veripy.Base.Int.{ℤ, pos, ◌+ℤ◌, ◌*ℤ◌}
use veripy.Ir.{Expr}
use veripy.Ir.Value.{word}
use veripy.Ir.Meaning.{eval}
use veripy.Lower.Outcome.{Outcome, ok, syntax_error, of_ok}
use veripy.Lower.Ast.{add, mult, Ast, number, name, py_binary}
use veripy.Lower.Scope.{
  Value, object, Resolved, parameter, constant, classify, resolve_name, constant_value, floor_div_ℤ,
  const_eval,
}
use veripy.Lower.Expr.{expr}
use veripy.Lower.Expr.Constant.{Faithful, eval-expr_constant}
use veripy.Lower.Rewrite.{rewrite, number_rule, fold}
use veripy.Lower.Rewrite.Constant.{bind, const_eval-subst}
use veripy.Lower.Tests.{an_integer, scope, quotient, target}

quotient-ok : (o : Outcome ℤ) (z : ℤ) → o ≡ ok z → quotient o ≡ some z
quotient-ok o z h = rw h refl

-- The only parameter is N, and has the value 4.
parameter-value :
    (x p : String) (v : Value) (z : ℤ)
    → resolve_name scope x ≡ ok (parameter p v)
    → constant_value (parameter p v) ≡ ok z
    → pos 4 ≡ z
unfolding resolve_name constant_value classify
parameter-value x p v z hr hz = elim (Bool-cases (same "N" x)) [
  | inl e ↦ of_ok (sym (found (rw (e, e) at hr)) ∙ hz)
  | inr e ↦ elim (Bool-cases (same "K" x)) [
    | inl k ↦ constant_clash (rw (e, k) at hr)
    | inr k ↦ nothing_clash (rw (e, k) at hr)
  ]
]
  where
    found :
        {y : String}
        → ◌≡◌ {A = Outcome Resolved}
            (ok (parameter y (object (an_integer (pos 4)))))
            (ok (parameter p v))
        → constant_value (parameter p v) ≡ ok (pos 4)
    found h = ap constant_value (sym (of_ok h))

    constant_clash :
        {A : Type 0} {c : ℤ} → ◌≡◌ {A = Outcome Resolved} (ok (constant c)) (ok (parameter p v)) → A
    constant_clash h = cc

    nothing_clash : {A : Type 0} → ◌≡◌ {A = Outcome Resolved} syntax_error (ok (parameter p v)) → A
    nothing_clash h = cc

target-Faithful : Faithful target scope []
target-Faithful = record {
  parameters = λ x p v z hr hz. ap some (parameter-value x p v z hr hz);
  division = λ a b z h. quotient-ok (floor_div_ℤ a b) z h;
  locals = λ x w h. cc;
}

-- (K + 1) * N
abbrev constant_expr : Ast
constant_expr = py_binary mult (py_binary add (name "K") (number (pos 1))) (name "N")

eval-expr_constant_example :
    (q : Expr) × (expr scope [] constant_expr ≡ ok q)
    × (eval target (λ x. word (pos 0)) q ≡ some (word (pos 16)))
unfolding const_eval ◌+ℤ◌ ◌*ℤ◌ same
eval-expr_constant_example =
    eval-expr_constant target scope [] target-Faithful (λ x. word (pos 0)) constant_expr (pos 16)
      refl

-- i * 2 + K
abbrev index_expr : Ast
index_expr = py_binary add (py_binary mult (name "i") (number (pos 2))) (name "K")

const_eval-subst_example :
    const_eval scope (py_binary add (number (pos 10)) (name "K"))
    ≡ const_eval (bind scope "i" (pos 5)) index_expr
unfolding fold rewrite number_rule ◌*ℤ◌
const_eval-subst_example =
    const_eval-subst scope "i" (pos 5) index_expr (py_binary add (number (pos 10)) (name "K")) refl
      refl
