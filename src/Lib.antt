-- ===== src/Lib.antt =====
-- A model of VeriPy, a Python HDL: the passes over its hardware IR, its memories, its library of
-- hardware blocks and its parameters. The passes take the IR of a design, which the hardware blocks
-- are written in as Python functions; the blocks are modelled by what a clock edge does to them.
--
-- Ir.antt is veripy/ir.py: expressions, statements, blocks and modules. Ir/Width.antt is
-- `_expr_width` of veripy/backend_csim.py, which decides the layout of concatenations.
-- Ir/Value.antt and Ir/Meaning.antt are a reference meaning, not code of the repository: an
-- expression has an unbounded integer for its value, as `_try_fold` computes constants, and what
-- the passes never compute (slices, memories, `/`, `%`, `>>>`, what a write of a declared width
-- keeps) is an arbitrary `Target`. A block reads the current state; a blocking write changes it at
-- once, and every write changes the next state. A negative shift count, Python's ValueError, has
-- no value, and statements of test benches do not execute.
-- Lower.antt is veripy/lower.py, from the syntax of a function to the statements of its block, before
-- the other passes: Lower/Ast.antt the part of Python's `ast` that it reads, Lower/Scope.antt what
-- names stand for and `_const_eval`, Lower/Expr.antt `_expr`, Lower/Assign.antt and Lower/Stmt.antt
-- `_stmt` with `_try_case`, Lower/Rewrite.antt `_subst_var` and `_subst_var_obj`, Lower/Loop.antt
-- `_lower_for` and `_unroll_for_break`, Lower/Fsm.antt the state machines, Lower/Block.antt
-- `lower_comb`, `lower_always` and whole interfaces; Lower/Discipline.antt is for proofs. An
-- exception is an outcome. The fuel is the depth of the loops in a statement, since unrolling
-- rewrites a body and lowers it. What Python's `eval` says of the width of a local variable is an
-- argument, and so are the local variables that `_scan_reg_locals` finds in a block; no closure
-- holds a `Parameter` object: parameters are numbers. What depends on the value of a float is
-- outside the model.
-- Lint.antt is the latch check of veripy/lint.py, on the same syntax.
-- Flatten.antt is the collection of read and written names in veripy/flatten.py, and its rename
-- helpers are Flatten/Rename.antt. Flatten/Inline.antt is what `flatten_ir` does with one instance,
-- Flatten/Merge.antt its recursion over the hierarchy, on fuel above the depth of the hierarchy, and
-- the pass over registers after it. Flatten/Topo.antt is `topo_sort_comb`, and Flatten/Kahn.antt the
-- loop in it, on the numbers of the nodes: a round orders a node at least, so n + 1 rounds end it.
-- Dce.antt is veripy/dce.py: Dce/Fold.antt `_try_fold`, Dce/Subst.antt `_subst_expr`,
-- `_subst_stmt` and `_flatten_stmts`, Dce/Propagate.antt `const_propagate`, Dce/Live.antt
-- `dead_code_eliminate` and `optimize`. The fixed-point loop runs on as much fuel as the module
-- has combinational blocks, and one round more.
-- Ip.antt is veripy/ip.py, a record of registers for each block and a function for its clocked
-- process: Ip/SyncFifo.antt `SyncFifo`, Ip/Dma.antt `DmaEngine`, Ip/Timing.antt `Debouncer`,
-- Ip/Credit.antt `CreditFlowControl`, Ip/Divider.antt `ClockDivider`, Ip/Edge.antt `EdgeDetector`.
-- The assignments of a clocked process read the old registers, and the last one to a register
-- counts. A register keeps its width by `% 2 ^ w`. Depths, thresholds and credits are fixed
-- numbers, as in the constructors.
-- Signal/Memory.antt is the memories of veripy/signal.py, Signal/BitCount.antt its `clz` and `ctz`,
-- and Signal/Value.antt the signals, the slices and the operators on them.
-- Cdc/Synchronizer.antt is `Synchronizer` of veripy/cdc.py, Cdc/AsyncFifo.antt `AsyncFIFO`, of which a
-- run is a sequence of edges of its two clocks, and Cdc/Gray.antt the code of its pointers.
-- Parameter.antt is veripy/parameter.py, with the text of an integer as an argument.
-- Rv.antt is veripy/rv.py, the encodings of instructions; what `li` loads is measured on the two
-- instructions that it makes, as the RISC-V manual defines them.
-- Soc.antt is veripy/soc_sim.py, the memory and the UART of a system. Gdb.antt is
-- veripy/gdb_stub.py, the server of a debugger, which reads and writes that memory: Gdb/Packet.antt
-- the framing, Gdb/Stub.antt `_dispatch` and the commands, over an interface of the processor,
-- Gdb/Serve.antt the loop of `_handle` over the buffer. Its turns take a character each, so there
-- are no more of them than characters. The text functions of Python are in Gdb/Text.antt.
--
-- Names are strings, sets of names are lists of their elements, dictionaries association lists.
--
-- Not modelled: the reflection on classes and source text that finds a function's syntax, the
-- declarations that `lower_module` makes, the lowering of formal properties and test
-- benches, the backends that print text, and the simulators that run other programs. Buses,
-- register maps and the other lint checks are not modelled either.
pub mod Base
pub mod Ir
pub mod Lower
pub mod Flatten
pub mod Dce
pub mod Ip
pub mod Signal
pub mod Cdc
pub mod Parameter
pub mod Soc
pub mod Gdb
pub mod Lint
pub mod Rv
