-- ===== src/Lower/Discipline/Loop.antt =====
-- Unrolled loops, where the bodies of the iterations are lowered to statements of hardware.
use veripy.Base.{String, Bool, true, false, Option, none, some, List, [], ◌∷◌, map}
use mathlib.Core.List.{reverse}
use veripy.Base.Int.{ℤ}
use veripy.Ir.{Stmts, if_else, snil, scons, extend}
use veripy.Lower.Outcome.{Outcome, ok, syntax_error, ◌>>=◌}
use veripy.Lower.Ast.{Ast, Asts, PyStmts, strip_breaks, any_break}
use veripy.Lower.Scope.{Object, Scope, Locals}
use veripy.Lower.Expr.{expr}
use veripy.Lower.Rewrite.{rewrite_stmts, signal_rule, object_rule, subst_var}
use veripy.Lower.Loop.{
  Lowered, const_evals, loop_range, resolve_iterable, loop_variable, looped_ports, range_arguments,
  single_if, unroll, break_case, break_chain, unroll_range, lower_for,
}
use veripy.Lower.Discipline.{
  AllHardware, AllHardware-Extends, AllHardware-extend, Extends, Extends-refl, Extends-trans,
  Ensures, ensures, Ensures-ok, Ensures-bind, Ensures-if, Ensures-then, Grown, Grown-nothing,
  Grown-Extends,
}

-- Statements before statements.
pub Grown-extend :
    {b : Bool} {ls ls' : Locals} (ss rest : Stmts)
    → AllHardware b ls ss
    → Grown b ls (rest, ls')
    → Grown b ls (extend ss rest, ls')
Grown-extend {b} {ls'} ss rest h g = record {
  extends = g.extends;
  hardware = AllHardware-extend b ls' ss rest (AllHardware-Extends b ss g.extends h) g.hardware;
}

pub Grown-from :
    {b : Bool} {ls ls' : Locals} (r : Stmts × Locals)
    → Extends ls ls'
    → Grown b ls' r
    → Grown b ls r
Grown-from r e g = record { extends = Extends-trans e g.extends; hardware = g.hardware }

module _ (sc : Scope) (b : Bool) (lower : PyStmts → Locals → Lowered)
    (h : (ss : PyStmts) (ls : Locals) → Ensures (Grown b ls) (lower ss ls)) where
  unroll-Grown :
      (os : List (Outcome PyStmts)) (ls : Locals) → Ensures (Grown b ls) (unroll sc lower os ls)
  unfolding unroll
  unroll-Grown [] ls = Grown-nothing b ls
  unroll-Grown (o ∷ os) ls = Ensures-then o _ λ body.
      Ensures-bind (Grown b ls) (lower body ls) _ (h body ls) λ r g.
        Ensures-bind (Grown b r.1) (unroll sc lower os r.1) _ (unroll-Grown os r.1) λ q k.
          Ensures-ok (extend r.0 q.0, q.1)
            (Grown-from _ g.extends (Grown-extend r.0 q.0 g.hardware k))

  -- What one pass of the chain of a loop with `break` leaves.
  abbrev Passed : Locals → Bool × Stmts × Locals → Type 0
  Passed ls r = Grown b ls (r.1, r.2)

  break_case-Passed :
      (test : Option (Ast × PyStmts)) (body : PyStmts) (made : Stmts) (ls : Locals)
      → AllHardware b ls made
      → Ensures (Passed ls) (break_case sc lower test body made ls)
  unfolding break_case
  break_case-Passed (some (c, then_body)) body made ls k = Ensures-then (expr sc ls c) _ λ e.
      Ensures-bind (Grown b ls) (lower (strip_breaks then_body) ls) _ (h _ ls) λ r g.
        Ensures-ok (false, scons (if_else e r.0 made) snil, r.1)
          (record {
            extends = g.extends;
            hardware = ((g.hardware, AllHardware-Extends b made g.extends k), tt);
          })
  break_case-Passed none body snil ls k =
      Ensures-bind (Grown b ls) (lower body ls) _ (h body ls) λ r g. Ensures-ok (false, r.0, r.1) g
  break_case-Passed none body (scons s ss) ls k =
      Ensures-bind (Grown b ls) (lower body ls) _ (h body ls) λ r g.
        Ensures-bind (Grown b r.1) (lower body r.1) _ (h body r.1) λ q f.
          Ensures-ok (true, extend q.0 (scons s ss), q.1)
            (record {
              extends = Extends-trans g.extends f.extends;
              hardware =
                  AllHardware-extend b q.1 q.0 (scons s ss) f.hardware
                    (AllHardware-Extends b (scons s ss) (Extends-trans g.extends f.extends) k);
            })

  break_chain-Grown :
      (os : List (Outcome PyStmts)) (made : Stmts) (ls : Locals)
      → AllHardware b ls made
      → Ensures (Grown b ls) (break_chain sc lower os made ls)
  unfolding break_chain
  break_chain-Grown [] made ls k =
      Ensures-ok (made, ls) (record { extends = Extends-refl ls; hardware = k })
  break_chain-Grown (o ∷ os) made ls k = Ensures-then o _ λ body.
      Ensures-bind (Passed ls)
        (break_case sc lower (single_if (strip_breaks body)) (strip_breaks body) made ls) _
        (break_case-Passed (single_if (strip_breaks body)) (strip_breaks body) made ls k)
        λ r g.
          Ensures-if r.0 _ _ (λ _. Ensures-ok (r.1, r.2) g)
            λ _. Grown-Extends b _ g.extends (break_chain-Grown os r.1 r.2 g.hardware)

  unroll_range-Grown :
      (body : PyStmts) (x : String) (zs : List ℤ) (ls : Locals)
      → Ensures (Grown b ls) (unroll_range sc lower body x zs ls)
  unfolding unroll_range
  unroll_range-Grown body x zs ls =
      Ensures-if (any_break body) _ _
        (λ _. break_chain-Grown (map (subst_var body x) (reverse zs)) snil ls tt)
        (λ _. unroll-Grown (map (subst_var body x) zs) ls)

  pub lower_for-Grown :
      (target it : Ast) (body : PyStmts) (ls : Locals)
      → Ensures (Grown b ls) (lower_for sc lower target it body ls)
  unfolding lower_for
  lower_for-Grown target it body ls =
      over (looped_ports sc it) (range_arguments it) (resolve_iterable sc it)
    where
      over :
          (ports : Option (List String)) (args : Option Asts) (items : Option (List Object))
          → Ensures (Grown b ls) (elim ports [
            | some ports ↦
                (loop_variable target >>= λ x.
                unroll sc lower (map (λ s. ok (rewrite_stmts (signal_rule x s) body)) ports) ls)
            | none ↦ elim args [
              | some args ↦
                  (const_evals sc args >>= loop_range >>= λ zs.
                  loop_variable target >>= λ x. unroll_range sc lower body x zs ls)
              | none ↦ elim items [
                | none ↦ syntax_error
                | some os ↦
                    (loop_variable target >>= λ x.
                    unroll sc lower (map (λ o. ok (rewrite_stmts (object_rule x o) body)) os) ls)
              ]
            ]
          ])
      over (some ports) args items = Ensures-then (loop_variable target) _ λ x. unroll-Grown _ ls
      over none (some args) items =
          Ensures-then (const_evals sc args >>= loop_range) _
            λ zs. Ensures-then (loop_variable target) _ λ x. unroll_range-Grown body x zs ls
      over none none none = ensures λ a e. cc
      over none none (some os) = Ensures-then (loop_variable target) _ λ x. unroll-Grown _ ls
