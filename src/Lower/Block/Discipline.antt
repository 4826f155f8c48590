-- ===== src/Lower/Block/Discipline.antt =====
-- Assignments of a sequential block.
use mathlib.Core.List.{append_assoc}
use veripy.Base.{◌≡◌, subst, String, true, false, List, [], ◌∷◌, ◌++◌, same→eq, arith}
use veripy.Ir.{EdgeKind, SeqBlock}
use veripy.Lower.Outcome.{ok, of_ok, >>=-eq-ok}
use veripy.Lower.Ast.{PyStmts}
use veripy.Lower.Scope.{Scope, Locals}
use veripy.Lower.Assign.{known}
use veripy.Lower.Stmt.{lower}
use veripy.Lower.Discipline.{
  AllHardware, AllHardware-Extends, Extends, Extends-trans, known-append, known-append_self,
}
use veripy.Lower.Discipline.Block.{lower-Hardware}
use veripy.Lower.Block.{new_locals, lower_always}

-- What a block declares makes all of its local variables known.
known-new_locals :
    (x : String) (ls all : Locals) → known x ls ≡ true → known x (all ++ new_locals all ls) ≡ true
unfolding new_locals
known-new_locals x [] all h = cc
known-new_locals x ((y, w) ∷ ls) all h =
    let wider = all ++ (y, w) ∷ [] in
    ground (
      arith,
      append_assoc all ((y, w) ∷ []) (new_locals wider ls),
      same→eq y x,
      known-append x all (new_locals all ls),
      known-append x wider (new_locals wider ls),
      known-append_self x w all,
      known-new_locals x ls all,
      known-new_locals x ls wider,
    )

-- In the sequential block that is made, every statement is one of hardware, and every assignment of
-- a signal, a part of one or a memory is non-blocking, but for blocking assignments to local
-- variables, which the module has declared by then. What was declared before still is, and so is
-- each local variable found in the body.
pub lower_always-Hardware :
    (sc : Scope) (edge_list : List (EdgeKind × String)) (regs known_locals : Locals)
    (body : PyStmts) {blk : SeqBlock} {declared : Locals}
    → lower_always sc edge_list regs known_locals body ≡ ok (blk, declared)
    → AllHardware false declared blk.stmts × Extends known_locals declared × Extends regs declared
unfolding lower_always
lower_always-Hardware sc edge_list regs known_locals body {declared} h =
    let r = >>=-eq-ok (lower sc false body regs) _ h in
    let (timed, kept) = lower-Hardware sc false body regs r.1 in
    let declared_all = λ (x : String). known-new_locals x r.0.1 known_locals in
    subst (λ q. AllHardware false q.1 q.0.stmts × Extends known_locals q.1 × Extends regs q.1)
      (of_ok r.2)
      (
        AllHardware-Extends false r.0.0 (record { keeps = declared_all }) timed,
        record { keeps = λ x. known-append x known_locals (new_locals known_locals r.0.1) },
        Extends-trans kept (record { keeps = declared_all }),
      )
