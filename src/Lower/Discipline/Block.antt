-- ===== src/Lower/Discipline/Block.antt =====
-- Statements, chains of tests that become case statements, and blocks.
use veripy.Base.{◌≡◌, ℕ, zero, suc, Bool, Option, none, some}
use veripy.Ir.{Expr, Stmts, if_else, case, snil, scons, cnil, extend}
use veripy.Lower.Outcome.{ok, exhausted}
use veripy.Lower.Ast.{
  Ast, PyStmt, PyStmts, py_assign, aug_assign, expr_stmt, py_if, py_for, py_return, py_break,
  other_stmt, pnil, pcons, loop_depths,
}
use veripy.Lower.Scope.{Scope, Locals}
use veripy.Lower.Expr.{expr}
use veripy.Lower.Loop.{Lowered}
use veripy.Lower.Stmt.{
  Case, add_branch, differs, subject_or, then_lower, Attempt, case_test, case_turn, try_case,
  with_default, if_plain, case_or, stmts, stmt, case_rest, lower_or, lower,
}
use veripy.Lower.Discipline.{
  AllHardware, CasesHardware, AllHardware-Extends, Extends, Extends-refl, Extends-trans, Ensures,
  ensures, Ensures-ok, Ensures-bind, Ensures-if, Ensures-then, returned, Grown, Grown-Extends,
  Grown-nothing,
}
use veripy.Lower.Discipline.Assign.{assign_stmt-Grown, aug_stmt-Grown, expr_stmt-Grown}
use veripy.Lower.Discipline.Loop.{Grown-extend, Grown-from, lower_for-Grown}

-- The branches of a case statement that is found.
abbrev Branches : Bool → Locals → Option Case → Type 0
Branches b ls none = Unit
Branches b ls (some (subject, cs, default)) = CasesHardware b ls cs × AllHardware b ls default

record Tried (b : Bool) (ls : Locals) (r : Option Case × Locals) : Type 0 where
  extends : Extends ls r.1
  branches : Branches b r.1 r.0

Tried-none : (b : Bool) (ls : Locals) → Ensures (Tried b ls) (ok (none, ls))
Tried-none b ls = Ensures-ok (none, ls) (record { extends = Extends-refl ls; branches = tt })

add_branch-Branches :
    (b : Bool) (ls : Locals) (subject pattern : Expr) (body : Stmts) (found : Option Case)
    → AllHardware b ls body
    → Branches b ls found
    → Branches b ls (add_branch subject pattern body found)
add_branch-Branches b ls subject pattern body none h k = tt
add_branch-Branches b ls subject pattern body (some (s, cs, default)) h k = ((h, k.0), k.1)

module _ (sc : Scope) (b : Bool) where
  then_lower-Grown :
      (ls : Locals) (o : Lowered) (rest : Locals → Lowered)
      → Ensures (Grown b ls) o
      → ((ls : Locals) → Ensures (Grown b ls) (rest ls))
      → Ensures (Grown b ls) (then_lower o rest)
  then_lower-Grown ls o rest h k = Ensures-bind (Grown b ls) o _ h λ r g.
      Ensures-bind (Grown b r.1) (rest r.1) _ (k r.1) λ q f.
        Ensures-ok (extend r.0 q.0, q.1)
          (Grown-from _ g.extends (Grown-extend r.0 q.0 g.hardware f))

  if_plain-Grown :
      (test : Ast) (body orelse : Locals → Lowered) (ls : Locals)
      → ((ls : Locals) → Ensures (Grown b ls) (body ls))
      → ((ls : Locals) → Ensures (Grown b ls) (orelse ls))
      → Ensures (Grown b ls) (if_plain sc test body orelse ls)
  unfolding if_plain
  if_plain-Grown test body orelse ls h k = Ensures-then (expr sc ls test) _ λ c.
      Ensures-bind (Grown b ls) (body ls) _ (h ls) λ r g.
        Ensures-bind (Grown b r.1) (orelse r.1) _ (k r.1) λ q f.
          Ensures-ok (scons (if_else c r.0 q.0) snil, q.1)
            (record {
              extends = Extends-trans g.extends f.extends;
              hardware = ((AllHardware-Extends b r.0 f.extends g.hardware, f.hardware), tt);
            })

  try_case-Tried :
      (seen : Option Expr) (test : Ast) (body : Locals → Lowered) (rest : Expr → Locals → Attempt)
      (ls : Locals)
      → ((ls : Locals) → Ensures (Grown b ls) (body ls))
      → ((e : Expr) (ls : Locals) → Ensures (Tried b ls) (rest e ls))
      → Ensures (Tried b ls) (try_case sc seen test body rest ls)
  unfolding try_case
  try_case-Tried seen test body rest ls h k = turn (case_test test)
    where
      turn : (t : Option (Ast × Ast)) → Ensures (Tried b ls) (case_turn sc seen t body rest ls)
      turn none = Tried-none b ls
      turn (some (signal_node, const_node)) = Ensures-then (expr sc ls signal_node) _ λ e.
          Ensures-if (differs seen e) _ _ (λ _. Tried-none b ls)
            λ _. Ensures-then (expr sc ls const_node) _ λ pattern.
              Ensures-bind (Grown b ls) (body ls) _ (h ls) λ r g.
                Ensures-bind (Tried b r.1) (rest (subject_or seen e) r.1) _ (k _ r.1) λ q f.
                  Ensures-ok (add_branch (subject_or seen e) pattern r.0 q.0, q.1)
                    (record {
                      extends = Extends-trans g.extends f.extends;
                      branches =
                          add_branch-Branches b q.1 (subject_or seen e) pattern r.0 q.0
                            (AllHardware-Extends b r.0 f.extends g.hardware) f.branches;
                    })

  case_or-Grown :
      (ls : Locals) (o : Attempt) (plain : Locals → Lowered)
      → Ensures (Tried b ls) o
      → ((ls : Locals) → Ensures (Grown b ls) (plain ls))
      → Ensures (Grown b ls) (case_or o plain)
  unfolding case_or
  case_or-Grown ls o plain h k = Ensures-bind (Tried b ls) o _ h λ r g. found r.0 r.1 g
    where
      found :
          (c : Option Case) (ls' : Locals)
          → Tried b ls (c, ls')
          → Ensures (Grown b ls) (elim c [
            | some (subject, cs, default) ↦ ok (scons (case subject cs default) snil, ls')
            | none ↦ plain ls'
          ])
      found none ls' g = Grown-Extends b (plain ls') g.extends (k ls')
      found (some (subject, cs, default)) ls' g =
          Ensures-ok (scons (case subject cs default) snil, ls')
            (record { extends = g.extends; hardware = (g.branches, tt) })

  with_default-Tried :
      (ls : Locals) (subject : Expr) (o : Lowered)
      → Ensures (Grown b ls) o
      → Ensures (Tried b ls) (with_default subject o)
  with_default-Tried ls subject o h = Ensures-bind (Grown b ls) o _ h λ r g.
      Ensures-ok (some (subject, cnil, r.0), r.1)
        (record { extends = g.extends; branches = (tt, g.hardware) })

  module _ (body : PyStmts → Locals → Lowered)
      (h : (ss : PyStmts) (ls : Locals) → Ensures (Grown b ls) (body ss ls)) where
    mutual
      unfolding stmts

      stmts-Grown : (ss : PyStmts) (ls : Locals) → Ensures (Grown b ls) (stmts sc b body ss ls)
      stmts-Grown pnil ls = Grown-nothing b ls
      stmts-Grown (pcons s ss) ls =
          then_lower-Grown ls (stmt sc b body s ls) (λ ls. stmts sc b body ss ls) (stmt-Grown s ls)
            (λ ls. stmts-Grown ss ls)

      stmt-Grown : (s : PyStmt) (ls : Locals) → Ensures (Grown b ls) (stmt sc b body s ls)
      stmt-Grown (py_if c yes_body orelse) ls =
          case_or-Grown ls _
            (λ ls.
              if_plain sc c (λ ls. stmts sc b body yes_body ls) (λ ls. stmts sc b body orelse ls)
                ls)
            (try_case-Tried none c (λ ls. stmts sc b body yes_body ls)
              (λ e ls. case_rest sc b body e orelse ls) ls (λ ls. stmts-Grown yes_body ls)
              (λ e ls. case_rest-Tried e orelse ls))
            (λ ls.
              if_plain-Grown c (λ ls. stmts sc b body yes_body ls) (λ ls. stmts sc b body orelse ls)
                ls (λ ls. stmts-Grown yes_body ls) (λ ls. stmts-Grown orelse ls))
      stmt-Grown (py_for target it inner) ls = lower_for-Grown sc b body h target it inner ls
      stmt-Grown (py_assign targets value) ls = assign_stmt-Grown sc b ls targets value
      stmt-Grown (aug_assign target op value) ls = aug_stmt-Grown sc b ls target op value
      stmt-Grown (expr_stmt e) ls = expr_stmt-Grown sc b ls e
      stmt-Grown (py_return e) ls = Grown-nothing b ls
      stmt-Grown py_break ls = Grown-nothing b ls
      stmt-Grown (other_stmt ss) ls = Grown-nothing b ls

      case_rest-Tried :
          (subject : Expr) (orelse : PyStmts) (ls : Locals)
          → Ensures (Tried b ls) (case_rest sc b body subject orelse ls)
      case_rest-Tried subject pnil ls =
          Ensures-ok (some (subject, cnil, snil), ls)
            (record { extends = Extends-refl ls; branches = (tt, tt) })
      case_rest-Tried subject (pcons (py_if c yes_body orelse) pnil) ls =
          try_case-Tried (some subject) c (λ ls. stmts sc b body yes_body ls)
            (λ e ls. case_rest sc b body e orelse ls) ls (λ ls. stmts-Grown yes_body ls)
            (λ e ls. case_rest-Tried e orelse ls)
      case_rest-Tried subject (pcons s ss) ls =
          with_default-Tried ls subject
            (then_lower (stmt sc b body s ls) (λ ls. stmts sc b body ss ls))
            (then_lower-Grown ls (stmt sc b body s ls) (λ ls. stmts sc b body ss ls)
              (stmt-Grown s ls) (λ ls. stmts-Grown ss ls))

  lower_or-Grown :
      (fuel : ℕ) (ss : PyStmts) (ls : Locals)
      → Ensures (Grown b ls) (lower_or (λ ss ls. exhausted) sc b fuel ss ls)
  unfolding lower_or
  lower_or-Grown zero ss ls = stmts-Grown (λ ss ls. exhausted) (λ ss ls. ensures λ r e. cc) ss ls
  lower_or-Grown (suc fuel) ss ls =
      stmts-Grown (lower_or (λ ss ls. exhausted) sc b fuel) (lower_or-Grown fuel) ss ls

-- The statements that the lowering of a block gives are statements of hardware. Each assignment in
-- them, of a signal, a part of one or a memory, is blocking exactly where the block is, but for
-- blocking assignments to local variables. Local variables that were known are known after it.
pub lower-Hardware :
    (sc : Scope) (blocking : Bool) (ss : PyStmts) (ls : Locals) {out : Stmts} {ls' : Locals}
    → lower sc blocking ss ls ≡ ok (out, ls')
    → AllHardware blocking ls' out × Extends ls ls'
unfolding lower
lower-Hardware sc blocking ss ls h =
    let g = returned _ (lower_or-Grown sc blocking (loop_depths ss) ss ls) h in
    (g.hardware, g.extends)
