-- ===== src/Lower.antt =====
-- veripy/lower.py: the lowering of the Python syntax of a block into the IR.
pub mod Ast
pub mod Outcome
pub mod Scope
pub mod Expr
pub mod Rewrite
pub mod Loop
pub mod Assign
pub mod SameExpr
pub mod Stmt
pub mod Discipline
pub mod Fsm
pub mod Block
mod Tests
