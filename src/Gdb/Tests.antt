-- ===== src/Gdb/Tests.antt =====
-- A processor of three registers with four bytes each, and sixteen bytes of memory.
use veripy.Base.{ℕ, ◌+◌, ◌≡◌, refl, List, [], ◌∷◌, ◌++◌, some, length, arith}
use veripy.Base.Int.{pos}
use veripy.Soc.{SocSim, add_region}
use veripy.Soc.Bytes.{IsRam}
use veripy.Gdb.Text.{Text, int_16, to_hex}
use veripy.Gdb.Packet.{decode}
use veripy.Gdb.Stub.{CpuInterface, Machine, reply, ok, read_regs, write_regs, read_mem, write_mem}
use veripy.Gdb.Stub.Registers.{write_regs-read_regs}
use veripy.Gdb.Stub.Memory.{read_mem-write_mem}
use veripy.Gdb.Serve.{serve}
use veripy.Gdb.Serve.Pipeline.{packets, requests, serve-requests}

-- A step adds one to the first register.
abbrev bump : List ℕ → List ℕ
bump [] = []
bump (r ∷ rs) = (r + 1) ∷ rs

abbrev cpu : CpuInterface (List ℕ)
cpu = record {
  get_regs = λ regs. regs;
  set_regs = λ regs old. regs;
  step = λ regs sim. (bump regs, sim);
  cont = λ regs sim. (bump regs, sim);
  stop = λ regs sim. (regs, sim);
}

abbrev machine : Machine (List ℕ)
machine = record {
  state = 1 ∷ 258 ∷ 65536 ∷ [];
  sim = record { memory = add_region [] "ram" 0 16; periphs = [] };
}

-- A packet decodes with one digit of a checksum that is not its own.
short_checksum : decode (36 ∷ 79 ∷ 75 ∷ 35 ∷ 48 ∷ []) ≡ some (79 ∷ 75 ∷ [])
unfolding decode
short_checksum = refl

write_regs-read_regs_example :
    (text : Text) × (read_regs cpu 4 machine ≡ reply text)
    × (write_regs cpu 4 machine text ≡ (machine, reply ok))
write_regs-read_regs_example =
    write_regs-read_regs 4 (omega arith) cpu machine (omega arith, (omega arith, (omega arith, tt)))

-- 's', '?' and 'm0,1'
serve-requests_example :
    serve cpu 4 4 machine (packets cpu 4 ((115 ∷ []) ∷ (63 ∷ []) ∷ (109 ∷ 48 ∷ 44 ∷ 49 ∷ []) ∷ []))
    ≡ requests cpu 4 machine ((115 ∷ []) ∷ (63 ∷ []) ∷ (109 ∷ 48 ∷ 44 ∷ 49 ∷ []) ∷ [])
serve-requests_example =
    serve-requests cpu 4 4 machine ((115 ∷ []) ∷ (63 ∷ []) ∷ (109 ∷ 48 ∷ 44 ∷ 49 ∷ []) ∷ [])
      (refl, (refl, (refl, tt))) (omega arith)

abbrev two : List ℕ
two = 7 ∷ 200 ∷ []

plain_ram : IsRam machine.sim 0 2
plain_ram = record { memory = (refl, tt); mapped = λ k lt. ground arith; free = λ k lt. refl }

zero_text : int_16 (48 ∷ []) ≡ some (pos 0)
unfolding int_16
zero_text = refl

two_text : int_16 (50 ∷ []) ≡ some (pos (length two))
unfolding int_16
two_text = refl

read_mem-write_mem_example :
    (sim : SocSim) × (write_mem cpu 4 machine (((48 ∷ []) ++ (44 ∷ 50 ∷ [])) ++ (58 ∷ to_hex two))
      ≡ (record machine { sim = sim }, reply ok))
    × (read_mem cpu 4 (record machine { sim = sim }) ((48 ∷ []) ++ (44 ∷ 50 ∷ []))
        ≡ reply (to_hex two))
read_mem-write_mem_example =
    read_mem-write_mem cpu 4 machine (48 ∷ []) (50 ∷ []) 0 two zero_text two_text refl refl
      plain_ram (omega arith, (omega arith, tt))
