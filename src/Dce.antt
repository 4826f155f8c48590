-- ===== src/Dce.antt =====
-- veripy/dce.py: constant propagation and dead code elimination on the flat IR.
pub mod Fold
pub mod Subst
pub mod Stable
pub mod FoldSound
pub mod StableKept
pub mod StableSubst
pub mod SubstSound
pub mod Shape
pub mod StmtSound
pub mod Propagate
pub mod FoldComplete
pub mod Flaws
pub mod Live
mod Tests
