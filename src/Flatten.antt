-- ===== src/Flatten.antt =====
-- veripy/flatten.py: what expressions and statements read and write, the renaming of names, the
-- topological order of combinational nodes, and the merge of instances into one module.
pub mod Reads
pub mod Rename
pub mod Kahn
pub mod Topo
pub mod Inline
pub mod Merge
