-- ===== src/Signal.antt =====
-- veripy/signal.py: the memories, the counts of zeros, and signals with their operators.
pub mod Memory
pub mod BitCount
pub mod Value
