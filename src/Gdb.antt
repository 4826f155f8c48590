-- ===== src/Gdb.antt =====
-- veripy/gdb_stub.py: the server that lets a debugger control the simulation of a system. Texts and
-- buffers are lists of character codes below 128, which the codecs leave as they are. Sockets and
-- the thread are left out: the connection is the sequence of chunks that it receives.
pub mod Text
pub mod Packet
pub mod Bus
pub mod Stub
pub mod Serve
mod Tests
