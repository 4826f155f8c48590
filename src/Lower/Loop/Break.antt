-- ===== src/Lower/Loop/Break.antt =====
-- What `_unroll_for_break` makes of a loop whose body is one `if`, and of any other loop.
use mathlib.Core.List.{reverse, reverse-cons}
use veripy.Base.{
  ◌≡◌, refl, sym, ◌∙◌, String, List, [], ◌∷◌, ◌++◌, map, Option, some, ◌>>=◌, if◌then◌else◌,
}
use veripy.Base.Int.{ℤ, truthy}
use veripy.Ir.{Expr, Stmts, if_else, snil, scons}
use veripy.Ir.Value.{Target, as_word}
use veripy.Ir.Meaning.{eval, Machine, exec, exec_all, exec_all_one}
use veripy.Lower.Outcome.{Outcome, ok}
use veripy.Lower.Ast.{Ast, PyStmts, strip_breaks}
use veripy.Lower.Scope.{Scope, Locals}
use veripy.Lower.Expr.{expr}
use veripy.Lower.Rewrite.{subst_var}
use veripy.Lower.Loop.{Lowered, single_if, break_chain, unroll_for_break}

-- The conditions and the bodies of a loop, in the order in which they are tried: the first condition
-- that holds decides, and the loop is left.
unfoldable pub first_true :
    Target → List (Expr × Stmts) → (Machine → Option Machine) → Machine → Option Machine
unfolding eval exec_all
first_true t [] otherwise m = otherwise m
first_true t ((c, body) ∷ arms) otherwise m =
    let rest = first_true t arms otherwise m in
    eval t m.cur c >>= λ v. as_word v >>= λ z. if truthy z then exec_all t body m else rest

first_true-append :
    (t : Target) (arms later : List (Expr × Stmts)) (otherwise : Machine → Option Machine)
    (m : Machine)
    → first_true t (arms ++ later) otherwise m ≡ first_true t arms (first_true t later otherwise) m
unfolding first_true
first_true-append t [] later otherwise m = refl
first_true-append t ((c, body) ∷ arms) later otherwise m =
    rw (first_true-append t arms later otherwise m) refl

module _ (sc : Scope) (lower : PyStmts → Locals → Lowered) where
  -- The bodies are one `if` each, once the `break` statements are gone, and are lowered one after
  -- the other to these conditions and statements.
  pub data Arms : List (Outcome PyStmts) → Locals → List (Expr × Stmts) → Locals → Type 0 where
    no_arms : {ls : Locals} → Arms [] ls [] ls
    arm :
        {body then_body : PyStmts} {c : Ast} {os : List (Outcome PyStmts)} {ls inner ls' : Locals}
        {e : Expr} {ss : Stmts} {arms : List (Expr × Stmts)}
        → single_if (strip_breaks body) ≡ some (c, then_body)
        → expr sc ls c ≡ ok e
        → lower (strip_breaks then_body) ls ≡ ok (ss, inner)
        → Arms os inner arms ls'
        → Arms (ok body ∷ os) ls ((e, ss) ∷ arms) ls'

  break_chain-first_true :
      (t : Target) (os : List (Outcome PyStmts)) (made : Stmts) (ls : Locals)
      (arms : List (Expr × Stmts)) (ls' : Locals)
      → Arms os ls arms ls'
      → (ss : Stmts) × (break_chain sc lower os made ls ≡ ok (ss, ls'))
        × ((m : Machine) → exec_all t ss m ≡ first_true t (reverse arms) (exec_all t made) m)
  unfolding break_chain first_true exec
  break_chain-first_true t [] made ls _ _ no_arms = (made, refl, λ m. refl)
  break_chain-first_true t (_ ∷ os) made ls _ ls'
        (arm {e = e} {ss = ss} {arms = arms} hb hc hl rest) =
      let (out, ho, hm) =
        break_chain-first_true t os (scons (if_else e ss made) snil) _ arms ls' rest in
      (
        out,
        rw (hb, hc, hl) ho,
        λ m.
            hm m
            ∙ (λ i. first_true t (reverse arms) (λ m. exec_all_one t (if_else e ss made) m i) m)
            ∙ sym (first_true-append t (reverse arms) ((e, ss) ∷ []) (exec_all t made) m)
            ∙ sym (λ i. first_true t (reverse-cons (e, ss) arms i) (exec_all t made) m),
      )

  -- A loop over `range` with a `break`, whose iterations are one `if` each that can be lowered, is
  -- lowered, and from every machine the result runs the body of the first iteration whose condition
  -- holds, and no other; it changes nothing when no condition holds.
  pub unroll_for_break-first_true :
      (t : Target) (body : PyStmts) (x : String) (zs : List ℤ) (ls : Locals)
      (arms : List (Expr × Stmts)) (ls' : Locals)
      → Arms (map (subst_var body x) (reverse zs)) ls arms ls'
      → (ss : Stmts) × (unroll_for_break sc lower body x zs ls ≡ ok (ss, ls'))
        × ((m : Machine) → exec_all t ss m ≡ first_true t (reverse arms) (λ m. some m) m)
  unfolding exec
  unroll_for_break-first_true t body x zs ls arms ls' h =
      break_chain-first_true t (map (subst_var body x) (reverse zs)) snil ls arms ls' h
