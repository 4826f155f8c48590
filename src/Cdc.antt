-- ===== src/Cdc.antt =====
-- veripy/cdc.py: clock domain crossing.
pub mod Synchronizer
pub mod Gray
pub mod AsyncFifo
