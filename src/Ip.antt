-- ===== src/Ip.antt =====
-- veripy/ip.py: the parameterized building blocks. A module is a record of its registers; one
-- clock edge is a function from the registers and the inputs to the registers. Assignments in a
-- clocked block are scheduled from the old values, and the last one to a register counts.
pub mod SyncFifo
pub mod Dma
pub mod Timing
pub mod Credit
pub mod Divider
pub mod Edge
