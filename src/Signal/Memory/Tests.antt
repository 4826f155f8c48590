-- ===== src/Signal/Memory/Tests.antt =====
-- Witnesses of the memories.
use veripy.Base.{ℕ, ◌≡◌, refl, true, List, [], ◌∷◌, none, some, arith}
use veripy.Signal.Memory.{Mem, getitem, write, tick, IsValid, read_after_write}
use veripy.Signal.Memory.Ports.{MemPorts, DualPortMem}

abbrev words : List ℕ
words = 5 ∷ 6 ∷ 7 ∷ 8 ∷ []

abbrev memory : Mem
memory = record { depth = 4; width = 4; data_words = words; pending_write = none }

read_after_write_example :
    (getitem (write memory 6 17) 2 ≡ 7)
    × (getitem (tick (write memory 6 17)) 2 ≡ 1)
    × IsValid (tick (write memory 6 17))
unfolding getitem
read_after_write_example = read_after_write memory 6 2 17 (omega arith, refl)

abbrev ports : MemPorts
ports = record { we = some 1; waddr = 2; wdata = 9; raddr = some 2; wanted = true }

abbrev dual : DualPortMem
dual = record { depth = 4; width = 4; data_words = words; pending_write = none; rdata_next = none }
