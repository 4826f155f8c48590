-- ===== src/Lower/Fsm/Returns.antt =====
-- The order of the `return` statements of a state machine.
use veripy.Base.{
  ℕ, zero, suc, ◌≤◌, ◌≡◌, refl, ap, ◌∙◌, sym, String, true, List, [], some, of_some, >>=-eq-some,
  same, arith,
}
use veripy.Base.Int.{ℤ}
use veripy.Ir.{const, sig, Stmts, assign, snil, scons, extend}
use veripy.Ir.Value.{word, Target}
use veripy.Ir.Meaning.{eval, Machine, exec, exec_all, exec_all-extend}
use veripy.Lower.Outcome.{ok, exhausted}
use veripy.Lower.Ast.{Ast, PyStmts, py_return, pnil, pcons, is_self, is_self_target, loop_depths}
use veripy.Lower.Scope.{Scope, Locals, target_name}
use veripy.Lower.Expr.{expr}
use veripy.Lower.Rewrite.{Rule}
use veripy.Lower.Loop.{Lowered}
use veripy.Lower.Assign.{assign_stmt}
use veripy.Lower.Stmt.{lower, lower_or, stmts}
use veripy.Lower.Stmt.Append.{append, loop_depths-append, lower_or-append}
use veripy.Lower.Stmt.Fuel.{lower_or-lower}
use veripy.Lower.Fsm.{
  fsm_rule, fsm_rewrite_expr, returned, fsm_rewrite_stmt, fsm_rewrite, lower_fsm_comb,
}

abbrev next_state : ℤ → Stmts
next_state z = scons (assign "_fsm_next" (const z) true) snil

fsm_rewrite-append :
    (sp : String) (r : Rule) (xs ys : PyStmts)
    → fsm_rewrite sp r (append xs ys) ≡ append (fsm_rewrite sp r xs) (fsm_rewrite sp r ys)
unfolding fsm_rewrite_stmt append
fsm_rewrite-append sp r pnil ys = refl
fsm_rewrite-append sp r (pcons s ss) ys =
    ap (pcons (fsm_rewrite_stmt sp r s)) (fsm_rewrite-append sp r ss ys)

-- A block that ends in an assignment of a number to the next state leaves that number there.
exec-next_state :
    (t : Target) (out : Stmts) (z : ℤ) (m m' : Machine)
    → exec_all t (extend out (next_state z)) m ≡ some m'
    → m'.cur "_fsm_next" ≡ word (t.truncate "_fsm_next" z)
unfolding exec eval same
exec-next_state t out z m m' h =
    let (m1, h1, h2) =
      >>=-eq-some (exec_all t out m) _ (sym (exec_all-extend t out (next_state z) m) ∙ h) in
    rw (of_some h2) refl

module _ (sc : Scope) (state_param : String) (state_vals : List (String × ℤ)) where
  abbrev rule : Rule
  rule = fsm_rule state_param state_vals

  lower_or-return :
      (f : PyStmts → Locals → Lowered) (fuel : ℕ) (e : Ast) (z : ℤ) (ls : Locals)
      → expr sc ls (fsm_rewrite_expr rule (returned state_param e)) ≡ ok (const z)
      → lower_or f sc true fuel (fsm_rewrite state_param rule (pcons (py_return e) pnil)) ls
        ≡ ok (next_state z, ls)
  unfolding lower_or stmts assign_stmt is_self_target is_self target_name fsm_rewrite_stmt
  lower_or-return f zero e z ls h = rw h refl
  lower_or-return f (suc fuel) e z ls h = rw h refl

  -- A function whose body ends in a `return` of a number, a state as it is lowered, leaves that
  -- number as the next state whichever `return` before it was reached: the block is lowered, and
  -- where it runs to its end the next state is the number, truncated to the width of the signal. (Python
  -- leaves the function at the first `return`.) The statements before the last can be lowered.
  pub lower_fsm_comb-last_return :
      (body : PyStmts) (e : Ast) (z : ℤ) (out : Stmts) (ls : Locals)
      → lower sc true (fsm_rewrite state_param rule body) [] ≡ ok (out, ls)
      → expr sc ls (fsm_rewrite_expr rule (returned state_param e)) ≡ ok (const z)
      → (ss : Stmts) × (lower_fsm_comb sc state_param state_vals
            (append body (pcons (py_return e) pnil))
          ≡ ok ss)
        × ((t : Target) (m m' : Machine)
            → exec_all t ss m ≡ some m'
            → m'.cur "_fsm_next" ≡ word (t.truncate "_fsm_next" z))
  unfolding lower_fsm_comb
  lower_fsm_comb-last_return body e z out ls hb he = (
    scons (assign "_fsm_next" (sig "_fsm_state") true) (extend out (next_state z)),
    rw lowered refl,
    λ t m m' h. exec-next_state t (scons (assign "_fsm_next" (sig "_fsm_state") true) out) z m m' h,
  )
    where
      last : PyStmts
      last = pcons (py_return e) pnil

      rewritten : PyStmts
      rewritten = fsm_rewrite state_param rule (append body last)

      at_end : PyStmts → Locals → Lowered
      at_end ss ls = exhausted

      fuel : ℕ
      fuel = loop_depths rewritten

      enough : loop_depths (fsm_rewrite state_param rule body) ≤ fuel
      enough = rw (fsm_rewrite-append state_param rule body last) (
          loop_depths-append (fsm_rewrite state_param rule body)
            (fsm_rewrite state_param rule last))

      lowered : lower sc true rewritten [] ≡ ok (extend out (next_state z), ls)
      lowered =
          sym (lower_or-lower at_end sc true fuel rewritten [] (omega arith))
          ∙ (λ i. lower_or at_end sc true fuel (fsm_rewrite-append state_param rule body last i) [])
          ∙ lower_or-append at_end sc true fuel (fsm_rewrite state_param rule body)
              (fsm_rewrite state_param rule last) [] ls ls out (next_state z)
              (lower_or-lower at_end sc true fuel _ [] enough ∙ hb)
              (lower_or-return at_end fuel e z ls he)
