-- ===== src/Lower/Loop/Lost.antt =====
-- What `_unroll_for_break` makes of a loop whose body is not one `if`.
use mathlib.Core.List.{reverse, reverse-append}
use veripy.Base.{◌≡◌, refl, ◌∙◌, sym, String, true, List, [], ◌∷◌, ◌++◌, map, none, if◌then◌else◌}
use veripy.Base.Int.{ℤ}
use veripy.Ir.{Stmt, Stmts, snil, scons, extend}
use veripy.Lower.Outcome.{Outcome, ok, syntax_error, raised, outside, exhausted, ◌>>=◌}
use veripy.Lower.Ast.{PyStmts, strip_breaks}
use veripy.Lower.Scope.{Scope, Locals}
use veripy.Lower.Rewrite.{subst_var}
use veripy.Lower.Loop.{Lowered, single_if, break_chain, unroll_for_break}

-- A step that has ended leaves no choice to what would follow.
ended_step :
    (o : Lowered) (made : Stmts) (f : Stmts → Locals → Lowered)
    → (o >>= (λ (again, ls). ok (true, extend again made, ls)) >>= λ (ended, made, ls).
        if ended then ok (made, ls) else f made ls)
      ≡ (o >>= λ (again, ls). ok (extend again made, ls))
ended_step (ok (again, ls)) made f = refl
ended_step syntax_error made f = refl
ended_step raised made f = refl
ended_step outside made f = refl
ended_step exhausted made f = refl

ended_steps :
    (o : Lowered) (k : Locals → Lowered) (made : Stmts) (f : Stmts → Locals → Lowered)
    → (o
        >>= (λ (_, ls). k ls >>= λ (again, ls). ok (true, extend again made, ls))
        >>= λ (ended, made, ls). if ended then ok (made, ls) else f made ls)
      ≡ (o >>= λ (_, ls). k ls >>= λ (again, ls). ok (extend again made, ls))
ended_steps (ok (_, ls)) k made f = ended_step (k ls) made f
ended_steps syntax_error k made f = refl
ended_steps raised k made f = refl
ended_steps outside k made f = refl
ended_steps exhausted k made f = refl

module _ (sc : Scope) (lower : PyStmts → Locals → Lowered) where
  two_then_end :
      (b a : PyStmts) (os : List (Outcome PyStmts)) (s : Stmt) (ss : Stmts) (ls inner : Locals)
      → single_if (strip_breaks b) ≡ none
      → single_if (strip_breaks a) ≡ none
      → lower (strip_breaks b) ls ≡ ok (scons s ss, inner)
      → break_chain sc lower (ok b ∷ ok a ∷ os) snil ls ≡ (
          lower (strip_breaks a) inner >>= λ (_, ls).
          lower (strip_breaks a) ls >>= λ (again, ls). ok (extend again (scons s ss), ls))
  unfolding break_chain
  two_then_end b a os s ss ls inner hb ha hl =
      rw (hb, hl, ha)
        (ended_steps (lower (strip_breaks a) inner) (lower (strip_breaks a)) (scons s ss)
          (λ made ls. break_chain sc lower os made ls))

  -- Of a loop over `range` with a `break` whose iterations are no single `if`, only the last two
  -- iterations are kept: whatever iterations come before them, the loop is lowered to the same
  -- statements. The last one is taken to be lowered to at least one statement.
  pub unroll_for_break-last_two :
      (body : PyStmts) (x : String) (zs : List ℤ) (y z : ℤ) (a b : PyStmts) (s : Stmt) (ss : Stmts)
      (ls inner : Locals)
      → subst_var body x y ≡ ok a
      → subst_var body x z ≡ ok b
      → single_if (strip_breaks a) ≡ none
      → single_if (strip_breaks b) ≡ none
      → lower (strip_breaks b) ls ≡ ok (scons s ss, inner)
      → unroll_for_break sc lower body x (zs ++ y ∷ z ∷ []) ls
        ≡ unroll_for_break sc lower body x (y ∷ z ∷ []) ls
  unroll_for_break-last_two body x zs y z a b s ss ls inner ey ez ha hb hl =
      rw (reverse-append zs (y ∷ z ∷ []), ez, ey)
        (two_then_end b a (map (subst_var body x) (reverse zs)) s ss ls inner hb ha hl
          ∙ sym (two_then_end b a [] s ss ls inner hb ha hl))
