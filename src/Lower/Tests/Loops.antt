-- ===== src/Lower/Tests/Loops.antt =====
-- Loops, and the theorems about them at concrete inputs.
use veripy.Base.{◌≡◌, ◌≤◌, refl, true, [], ◌∷◌, ◌++◌, some, arith}
use mathlib.Core.List.{reverse}
use veripy.Base.Int.{ℤ, pos, ◌+ℤ◌, ◌-ℤ◌, ◌*ℤ◌}
use veripy.Ir.{Expr, const, sig, compare, eq, Stmt, Stmts, assign, case, snil, scons, cnil, ccons}
use veripy.Ir.Meaning.{Machine, exec_all}
use veripy.Lower.Outcome.{ok, raised}
use veripy.Lower.Ast.{
  Ast, number, name, call, acons, anil, PyStmts, py_assign, py_if, py_for, py_break, pnil, pcons,
  loop_depths, strip_breaks,
}
use veripy.Lower.Expr.{expr}
use veripy.Lower.Rewrite.{subst_var}
use veripy.Lower.Loop.{single_if, unroll_for_break}
use veripy.Lower.Loop.Break.{first_true, no_arms, arm, unroll_for_break-first_true}
use veripy.Lower.Loop.Lost.{unroll_for_break-last_two}
use veripy.Lower.Stmt.{stmts, lower_or, lower}
use veripy.Lower.Stmt.Fuel.{lower_or-lower}
use veripy.Lower.Tests.{scope, self_x, set, equal, target, lowers_nothing, set_x}

-- for i in range(2): for j in range(i): self.x = j
abbrev nested : PyStmts
nested =
    pcons
      (py_for (name "i") (call (name "range") (acons (number (pos 2)) anil)) (
        pcons (py_for (name "j") (call (name "range") (acons (name "i") anil)) (set "x" (name "j")))
          pnil))
      pnil

lower-nested : lower scope true nested [] ≡ ok (set_x (pos 0), [])
unfolding lower ◌-ℤ◌ ◌+ℤ◌ ◌*ℤ◌
lower-nested = refl

nested-depth : loop_depths nested ≤ 5
unfolding loop_depths
nested-depth = omega arith

lower_or-lower_example :
    lower_or (λ ss ls. raised) scope true 5 nested [] ≡ lower scope true nested []
lower_or-lower_example = lower_or-lower (λ ss ls. raised) scope true 5 nested [] nested-depth

-- for i in range(2): if self.state == i: self.x = i; break
abbrev iteration : Ast → PyStmts
iteration e =
    pcons
      (py_if (equal (self_x "state") e)
        (pcons (py_assign (acons (self_x "x") anil) e) (pcons py_break pnil)) pnil)
      pnil

abbrev searching : PyStmts
searching = iteration (name "i")

abbrev arm_of : ℤ → Expr × Stmts
arm_of z = (compare eq (sig "state") (const z), set_x z)

unroll_for_break-first_true_example :
    (ss : Stmts) × (unroll_for_break scope
        (stmts scope true lowers_nothing)
        searching
        "i"
        (pos 0 ∷ pos 1 ∷ [])
        []
      ≡ ok (ss, []))
    × ((m : Machine)
        → exec_all target ss m
          ≡ first_true target (reverse (arm_of (pos 1) ∷ arm_of (pos 0) ∷ [])) (λ m. some m) m)
unfolding subst_var single_if strip_breaks stmts expr
unroll_for_break-first_true_example =
    unroll_for_break-first_true scope (stmts scope true lowers_nothing) target searching "i"
      (pos 0 ∷ pos 1 ∷ []) [] (arm_of (pos 1) ∷ arm_of (pos 0) ∷ []) []
      (arm {body = iteration (number (pos 1))} refl refl refl
        (arm {body = iteration (number (pos 0))} refl refl refl no_arms))

-- for i in range(3): self.x = i; if self.state == i: break
abbrev trailing : Ast → PyStmts
trailing e =
    pcons (py_assign (acons (self_x "x") anil) e)
      (pcons (py_if (equal (self_x "state") e) (pcons py_break pnil) pnil) pnil)

abbrev empty_case : ℤ → Stmt
empty_case z = case (sig "state") (ccons (const z) snil cnil) snil

unroll_for_break-last_two_example :
    unroll_for_break scope
      (stmts scope true lowers_nothing)
      (trailing (name "i"))
      "i"
      ((pos 0 ∷ []) ++ pos 1 ∷ pos 2 ∷ [])
      []
    ≡ unroll_for_break scope
        (stmts scope true lowers_nothing)
        (trailing (name "i"))
        "i"
        (pos 1 ∷ pos 2 ∷ [])
        []
unfolding subst_var single_if strip_breaks stmts expr
unroll_for_break-last_two_example =
    unroll_for_break-last_two scope (stmts scope true lowers_nothing) (trailing (name "i")) "i"
      (pos 0 ∷ []) (pos 1) (pos 2) (trailing (number (pos 1))) (trailing (number (pos 2)))
      (assign "x" (const (pos 2)) true) (scons (empty_case (pos 2)) snil) [] [] refl refl refl refl
      refl
