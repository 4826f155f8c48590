-- ===== src/Lower/Loop/Fuel.antt =====
-- Unrolling looks only at how the bodies of the iterations are lowered, and these are no deeper than
-- the body of the loop.
use veripy.Base.{
  ℕ, ◌≤◌, ◌≡◌, refl, String, List, [], ◌∷◌, map, Option, none, some, All, if◌then◌else◌, true,
  false, arith,
}
use mathlib.Core.List.{reverse}
use veripy.Base.Int.{ℤ}
use veripy.Ir.{Stmts, snil, scons, if_else, extend}
use veripy.Lower.Outcome.{Outcome, ok, syntax_error, raised, outside, exhausted, ◌>>=◌, of_ok}
use veripy.Lower.Ast.{Ast, PyStmts, py_if, pnil, pcons, any_break, strip_breaks, loop_depths}
use veripy.Lower.Scope.{Scope, Locals}
use veripy.Lower.Expr.{expr}
use veripy.Lower.Rewrite.{Rule, number_rule, rewrite_stmts, signal_rule, object_rule, subst_var}
use veripy.Lower.Rewrite.Depth.{loop_depths-rewrite_stmts, loop_depths-fold_stmts}
use veripy.Lower.Loop.{
  Lowered, const_evals, loop_range, resolve_iterable, loop_variable, looped_ports, range_arguments,
  single_if, unroll, break_case, break_chain, unroll_range, lower_for,
}

-- A body that is made is at most `n` deep.
pub data Bounded (n : ℕ) (o : Outcome PyStmts) : Type 0 where
  bounded : ((body : PyStmts) → o ≡ ok body → loop_depths body ≤ n) → Bounded n o

at_most : {n : ℕ} {body : PyStmts} → Bounded n (ok body) → loop_depths body ≤ n
at_most (bounded h) = h _ refl

rewrite_stmts-Bounded :
    (n : ℕ) (r : Rule) (body : PyStmts)
    → loop_depths body ≤ n
    → Bounded n (ok (rewrite_stmts r body))
rewrite_stmts-Bounded n r body h = bounded λ b e. rw (← of_ok e, loop_depths-rewrite_stmts r body) h

subst_var-Bounded :
    (n : ℕ) (body : PyStmts) (x : String) (z : ℤ)
    → loop_depths body ≤ n
    → Bounded n (subst_var body x z)
unfolding subst_var
subst_var-Bounded n body x z h = bounded λ b e.
    rw
      (
        loop_depths-fold_stmts (rewrite_stmts (number_rule x z) body) b e,
        loop_depths-rewrite_stmts (number_rule x z) body,
      )
      h

All-map :
    {A : Type 0} {n : ℕ} (make : A → Outcome PyStmts)
    → ((a : A) → Bounded n (make a))
    → (xs : List A) → All (Bounded n) (map make xs)
All-map make h [] = _
All-map make h (x ∷ xs) = (h x, All-map make h xs)

strip_breaks_depth : (ss : PyStmts) → loop_depths (strip_breaks ss) ≤ loop_depths ss
unfolding strip_breaks loop_depths
strip_breaks_depth pnil = omega arith
strip_breaks_depth (pcons s ss) = ground (arith, strip_breaks_depth ss)

single_if_depth :
    (body : PyStmts) (c : Ast) (b : PyStmts)
    → single_if body ≡ some (c, b)
    → loop_depths b ≤ loop_depths body
unfolding single_if loop_depths
single_if_depth (pcons (py_if c' b' o) pnil) c b h = rw (body_of h) (omega arith)
  where
    body_of :
        {c c' : Ast} {b b' : PyStmts}
        → ◌≡◌ {A = Option (Ast × PyStmts)} (some (c', b')) (some (c, b))
        → b ≡ b'
    body_of h = cc
single_if_depth body c b h = cc

module _ (sc : Scope) (f g : PyStmts → Locals → Lowered) (n : ℕ)
    (h : (ss : PyStmts) (ls : Locals) → loop_depths ss ≤ n → f ss ls ≡ g ss ls) where
  unroll_cong :
      (os : List (Outcome PyStmts)) (ls : Locals)
      → All (Bounded n) os
      → unroll sc f os ls ≡ unroll sc g os ls
  unfolding unroll
  unroll_cong [] ls hs = refl
  unroll_cong (ok body ∷ os) ls (hb, hs) = λ i. h body ls (at_most hb) i >>= λ (ss, ls).
      unroll_cong os ls hs i >>= λ (rest, ls). ok (extend ss rest, ls)
  unroll_cong (syntax_error ∷ os) ls hs = refl
  unroll_cong (raised ∷ os) ls hs = refl
  unroll_cong (outside ∷ os) ls hs = refl
  unroll_cong (exhausted ∷ os) ls hs = refl

  break_case_cong :
      (o : Option (Ast × PyStmts)) (body : PyStmts) (made : Stmts) (ls : Locals)
      → single_if body ≡ o
      → loop_depths body ≤ n
      → break_case sc f o body made ls ≡ break_case sc g o body made ls
  unfolding break_case
  break_case_cong (some (c, b)) body made ls e d = λ i. expr sc ls c >>= λ q.
      h (strip_breaks b) ls (omega (arith, strip_breaks_depth b, single_if_depth body c b e)) i
      >>= λ (ss, ls). ok (false, scons (if_else q ss made) snil, ls)
  break_case_cong none body snil ls e d = λ i. h body ls d i >>= λ (ss, ls). ok (false, ss, ls)
  break_case_cong none body (scons s ss) ls e d = λ i. h body ls d i >>= λ (_, ls).
      h body ls d i >>= λ (again, ls). ok (true, extend again (scons s ss), ls)

  break_chain_cong :
      (os : List (Outcome PyStmts)) (made : Stmts) (ls : Locals)
      → All (Bounded n) os
      → break_chain sc f os made ls ≡ break_chain sc g os made ls
  unfolding break_chain
  break_chain_cong [] made ls hs = refl
  break_chain_cong (ok body ∷ os) made ls (hb, hs) = λ i.
      break_case_cong (single_if (strip_breaks body)) (strip_breaks body) made ls refl
        (omega (arith, strip_breaks_depth body, at_most hb)) i
      >>= λ (ended, made, ls). if ended then ok (made, ls) else break_chain_cong os made ls hs i
  break_chain_cong (syntax_error ∷ os) made ls hs = refl
  break_chain_cong (raised ∷ os) made ls hs = refl
  break_chain_cong (outside ∷ os) made ls hs = refl
  break_chain_cong (exhausted ∷ os) made ls hs = refl

  unroll_range_cong :
      (body : PyStmts) (x : String) (zs : List ℤ) (ls : Locals)
      → loop_depths body ≤ n
      → unroll_range sc f body x zs ls ≡ unroll_range sc g body x zs ls
  unfolding unroll_range
  unroll_range_cong body x zs ls d = λ i.
      if any_break body
      then break_chain_cong (map (subst_var body x) (reverse zs)) snil ls
          (All-map _ (λ z. subst_var-Bounded n body x z d) (reverse zs)) i
      else unroll_cong (map (subst_var body x) zs) ls
          (All-map _ (λ z. subst_var-Bounded n body x z d) zs) i

  pub lower_for_cong :
      (target it : Ast) (body : PyStmts) (ls : Locals)
      → loop_depths body ≤ n
      → lower_for sc f target it body ls ≡ lower_for sc g target it body ls
  unfolding lower_for
  lower_for_cong target it body ls d = λ i. elim (looped_ports sc it) [
    | some ports ↦
        (loop_variable target >>= λ x.
        unroll_cong _ ls
          (All-map (λ s. ok (rewrite_stmts (signal_rule x s) body))
            (λ s. rewrite_stmts-Bounded n (signal_rule x s) body d) ports)
          i)
    | none ↦ elim (range_arguments it) [
      | some args ↦
          (const_evals sc args >>= loop_range >>= λ zs.
          loop_variable target >>= λ x. unroll_range_cong body x zs ls d i)
      | none ↦ elim (resolve_iterable sc it) [
        | none ↦ syntax_error
        | some os ↦
            (loop_variable target >>= λ x.
            unroll_cong _ ls
              (All-map (λ o. ok (rewrite_stmts (object_rule x o) body))
                (λ o. rewrite_stmts-Bounded n (object_rule x o) body d) os)
              i)
      ]
    ]
  ]
