-- ===== src/Lower/Loop.antt =====
-- veripy/lower.py: the unrolling of `for` loops: `_lower_for`, `_resolve_iterable` and
-- `_unroll_for_break`. The lowering of the rewritten body is an argument, since it is no part of the
-- loop; `Lower.Stmt` gives itself there.
pub mod Fuel
pub mod Break
pub mod Lost
use Prim.Native.Nat.{ℕ, zero, suc, ◌+◌, ◌-◌, ◌*◌, ◌/◌}
use veripy.Base.{
  String, Bool, true, false, List, [], ◌∷◌, Option, none, some, if◌then◌else◌, same, lookup, map,
}
use veripy.Base.Int.{ℤ, pos, negsuc, ◌+ℤ◌, ◌-ℤ◌, ◌*ℤ◌}
use mathlib.Core.List.{reverse}
use veripy.Ir.{Stmt, Stmts, if_else, snil, scons, extend}
use veripy.Lower.Outcome.{Outcome, ok, syntax_error, raised, ◌>>=◌}
use veripy.Lower.Ast.{
  Ast, Asts, name, attribute, call, anil, acons, PyStmts, py_if, pnil, pcons, is_self, strip_breaks,
  any_break,
}
use veripy.Lower.Scope.{Object, Value, object, sequence, Scope, Locals, resolve_closure, const_eval}
use veripy.Lower.Expr.{expr}
use veripy.Lower.Rewrite.{rewrite_stmts, signal_rule, object_rule, subst_var}

-- Statements, and the local variables that are known after them.
abbrev pub Lowered : Type 0
Lowered = Outcome (Stmts × Locals)

-- `len(range(start, stop, step))` for a step of magnitude `by`, over a distance.
abbrev pub steps : ℕ → ℕ → ℕ
steps distance by = (distance + by - 1) / by

abbrev pub distance : ℤ → ℕ
distance (pos n) = n
distance (negsuc n) = 0

abbrev pub from_start : ℤ → ℤ → ℕ → ℕ → List ℤ
from_start start step k zero = []
from_start start step k (suc n) = (start +ℤ step *ℤ pos k) ∷ from_start start step (suc k) n

-- `range(start, stop, step)`; a step of 0 raises ValueError.
unfoldable pub range : ℤ → ℤ → ℤ → Outcome (List ℤ)
range start stop (pos zero) = raised
range start stop (pos (suc k)) =
    ok (from_start start (pos (suc k)) 0 (steps (distance (stop -ℤ start)) (suc k)))
range start stop (negsuc k) =
    ok (from_start start (negsuc k) 0 (steps (distance (start -ℤ stop)) (suc k)))

abbrev pub const_evals : Scope → Asts → Outcome (List ℤ)
const_evals sc anil = ok []
const_evals sc (acons e es) = do z ← const_eval sc e; zs ← const_evals sc es; ok (z ∷ zs)

-- `range` with one, two or three arguments; any other number cannot be unpacked.
unfoldable pub loop_range : List ℤ → Outcome (List ℤ)
unfolding range
loop_range (stop ∷ []) = range (pos 0) stop (pos 1)
loop_range (start ∷ stop ∷ []) = range start stop (pos 1)
loop_range (start ∷ stop ∷ step ∷ []) = range start stop step
loop_range zs = raised

abbrev pub as_sequence : Option Value → Option (List Object)
as_sequence none = none
as_sequence (some (object o)) = none
as_sequence (some (sequence os)) = some os

-- `_resolve_iterable`
unfoldable pub resolve_iterable : Scope → Ast → Option (List Object)
unfolding resolve_closure is_self
resolve_iterable sc (attribute e a) =
    if is_self e then as_sequence (lookup a sc.attributes) else none
resolve_iterable sc (name x) = as_sequence (resolve_closure sc x)
resolve_iterable sc e = none

-- `node.target.id`; a target that is no name has none.
abbrev pub loop_variable : Ast → Outcome String
loop_variable (name x) = ok x
loop_variable e = raised

-- The signals of `self.port_array`, where the loop runs over one.
unfoldable pub looped_ports : Scope → Ast → Option (List String)
unfolding is_self
looped_ports sc (attribute e a) = if is_self e then lookup a sc.port_arrays else none
looped_ports sc e = none

-- The arguments of `range(...)`.
unfoldable pub range_arguments : Ast → Option Asts
unfolding same
range_arguments (call (name f) args) = if same f "range" then some args else none
range_arguments e = none

-- The test and the body of the `if` that is the only statement; its `else` is not looked at.
unfoldable pub single_if : PyStmts → Option (Ast × PyStmts)
single_if (pcons (py_if c then_body orelse) pnil) = some (c, then_body)
single_if body = none

module _ (sc : Scope) (lower : PyStmts → Locals → Lowered) where
  -- The bodies of the iterations, one after the other; a body that cannot be made ends the loop.
  unfoldable pub unroll : List (Outcome PyStmts) → Locals → Lowered
  unroll [] ls = ok (snil, ls)
  unroll (o ∷ os) ls = do
    body ← o
    (ss, ls) ← lower body ls
    (rest, ls) ← unroll os ls
    ok (extend ss rest, ls)

  -- One pass through the loop of `_unroll_for_break`, on the statements made so far: a single `if`
  -- is put in front of them, anything else goes before them and ends the loop, unless nothing is
  -- made yet. The flag says that the loop has ended.
  unfoldable pub break_case :
      Option (Ast × PyStmts) → PyStmts → Stmts → Locals → Outcome (Bool × Stmts × Locals)
  unfolding expr strip_breaks
  break_case (some (c, then_body)) body made ls = do
    c ← expr sc ls c
    (ss, ls) ← lower (strip_breaks then_body) ls
    ok (false, scons (if_else c ss made) snil, ls)
  break_case none body snil ls = do (ss, ls) ← lower body ls; ok (false, ss, ls)
  break_case none body (scons s ss) ls = do
    (_, ls) ← lower body ls
    (again, ls) ← lower body ls
    ok (true, extend again (scons s ss), ls)

  abbrev pub break_step : PyStmts → Stmts → Locals → Outcome (Bool × Stmts × Locals)
  break_step body made ls = break_case (single_if body) body made ls

  -- The loop of `_unroll_for_break`, over the bodies from the last iteration to the first.
  unfoldable pub break_chain : List (Outcome PyStmts) → Stmts → Locals → Lowered
  unfolding break_case single_if
  break_chain [] made ls = ok (made, ls)
  break_chain (o ∷ os) made ls = do
    body ← o
    (ended, made, ls) ← break_step (strip_breaks body) made ls
    let rest = break_chain os made ls
    if ended then ok (made, ls) else rest

  -- `_unroll_for_break`
  abbrev pub unroll_for_break : PyStmts → String → List ℤ → Locals → Lowered
  unroll_for_break body x zs ls = break_chain (map (subst_var body x) (reverse zs)) snil ls

  -- The loop over `range(...)`, from its values.
  unfoldable pub unroll_range : PyStmts → String → List ℤ → Locals → Lowered
  unfolding any_break subst_var unroll break_chain
  unroll_range body x zs ls =
      if any_break body
      then unroll_for_break body x zs ls
      else unroll (map (subst_var body x) zs) ls

  -- `_lower_for`
  unfoldable pub lower_for : Ast → Ast → PyStmts → Locals → Lowered
  unfolding looped_ports range_arguments resolve_iterable const_eval loop_range unroll unroll_range
  lower_for target it body ls = elim (looped_ports sc it) [
    | some ports ↦
        (loop_variable target >>= λ x.
        unroll (map (λ s. ok (rewrite_stmts (signal_rule x s) body)) ports) ls)
    | none ↦ elim (range_arguments it) [
      | some args ↦
          (const_evals sc args >>= loop_range >>= λ zs.
          loop_variable target >>= λ x. unroll_range body x zs ls)
      | none ↦ elim (resolve_iterable sc it) [
        | none ↦ syntax_error
        | some os ↦
            (loop_variable target >>= λ x.
            unroll (map (λ o. ok (rewrite_stmts (object_rule x o) body)) os) ls)
      ]
    ]
  ]
