-- ===== src/Lower/Rewrite/Depth.antt =====
-- Rewriting and folding keep how deep loops stand inside loops, and the `break` statements.
use veripy.Base.{◌≡◌, refl, ap₂, ap, max, suc}
use veripy.Lower.Outcome.{ok, of_ok, >>=-eq-ok}
use veripy.Lower.Ast.{
  PyStmt, PyStmts, py_assign, aug_assign, expr_stmt, py_if, py_for, py_return, py_break, other_stmt,
  pnil, pcons, loop_depth, loop_depths,
}
use veripy.Lower.Rewrite.{Rule, rewrite_stmt, rewrite_stmts, fold, fold_all, fold_stmt, fold_stmts}

mutual
  unfolding rewrite_stmt loop_depth

  pub loop_depth-rewrite_stmt :
      (r : Rule) (s : PyStmt) → loop_depth (rewrite_stmt r s) ≡ loop_depth s
  loop_depth-rewrite_stmt r (py_assign ts e) = refl
  loop_depth-rewrite_stmt r (aug_assign t op e) = refl
  loop_depth-rewrite_stmt r (expr_stmt e) = refl
  loop_depth-rewrite_stmt r (py_if c b o) =
      ap₂ max (loop_depths-rewrite_stmts r b) (loop_depths-rewrite_stmts r o)
  loop_depth-rewrite_stmt r (py_for v it b) = ap suc (loop_depths-rewrite_stmts r b)
  loop_depth-rewrite_stmt r (py_return e) = refl
  loop_depth-rewrite_stmt r py_break = refl
  loop_depth-rewrite_stmt r (other_stmt ss) = refl

  pub loop_depths-rewrite_stmts :
      (r : Rule) (ss : PyStmts) → loop_depths (rewrite_stmts r ss) ≡ loop_depths ss
  loop_depths-rewrite_stmts r pnil = refl
  loop_depths-rewrite_stmts r (pcons s ss) =
      ap₂ max (loop_depth-rewrite_stmt r s) (loop_depths-rewrite_stmts r ss)

mutual
  unfolding fold_stmt loop_depth

  loop_depth-fold_stmt : (s s' : PyStmt) → fold_stmt s ≡ ok s' → loop_depth s' ≡ loop_depth s
  loop_depth-fold_stmt (py_assign ts e) s' h =
      let (a, _, h1) = >>=-eq-ok (fold_all ts) _ h in
      let (b, _, h2) = >>=-eq-ok (fold e) _ h1 in rw (← of_ok h2) refl
  loop_depth-fold_stmt (aug_assign t op e) s' h =
      let (a, _, h1) = >>=-eq-ok (fold t) _ h in
      let (b, _, h2) = >>=-eq-ok (fold e) _ h1 in rw (← of_ok h2) refl
  loop_depth-fold_stmt (expr_stmt e) s' h =
      let (a, _, h1) = >>=-eq-ok (fold e) _ h in rw (← of_ok h1) refl
  loop_depth-fold_stmt (py_if c b o) s' h =
      let (c', _, h1) = >>=-eq-ok (fold c) _ h in
      let (b', eb, h2) = >>=-eq-ok (fold_stmts b) _ h1 in
      let (o', eo, h3) = >>=-eq-ok (fold_stmts o) _ h2 in
      rw (← of_ok h3) (ap₂ max (loop_depths-fold_stmts b b' eb) (loop_depths-fold_stmts o o' eo))
  loop_depth-fold_stmt (py_for v it b) s' h =
      let (v', _, h1) = >>=-eq-ok (fold v) _ h in
      let (it', _, h2) = >>=-eq-ok (fold it) _ h1 in
      let (b', eb, h3) = >>=-eq-ok (fold_stmts b) _ h2 in
      rw (← of_ok h3) (ap suc (loop_depths-fold_stmts b b' eb))
  loop_depth-fold_stmt (py_return e) s' h =
      let (a, _, h1) = >>=-eq-ok (fold e) _ h in rw (← of_ok h1) refl
  loop_depth-fold_stmt py_break s' h = rw (← of_ok h) refl
  loop_depth-fold_stmt (other_stmt ss) s' h =
      let (xs, _, h1) = >>=-eq-ok (fold_stmts ss) _ h in rw (← of_ok h1) refl

  pub loop_depths-fold_stmts :
      (ss ss' : PyStmts) → fold_stmts ss ≡ ok ss' → loop_depths ss' ≡ loop_depths ss
  loop_depths-fold_stmts pnil ss' h = rw (← of_ok h) refl
  loop_depths-fold_stmts (pcons s ss) ss' h =
      let (x, ex, h1) = >>=-eq-ok (fold_stmt s) _ h in
      let (xs, exs, h2) = >>=-eq-ok (fold_stmts ss) _ h1 in
      rw (← of_ok h2) (ap₂ max (loop_depth-fold_stmt s x ex) (loop_depths-fold_stmts ss xs exs))
