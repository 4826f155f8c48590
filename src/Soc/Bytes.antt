-- ===== src/Soc/Bytes.antt =====
-- Bytes in the address space of a system, where no peripheral has the address.
use veripy.Base.{ℕ, ◌+◌, ◌%◌, ◌≡◌, ◌<◌, refl, ap, ◌∙◌, true, false, ◌==◌, if◌then◌else◌, arith}
use veripy.Soc.{write_memory, SocSim, has_periph, read, write}
use veripy.Soc.Access.{
  IsMemory, is_mapped, byte-write_memory, write_memory-IsMemory, write_memory-fits,
  is_mapped-write_memory,
}

-- A system of which a range of addresses is plain memory.
pub record IsRam (sim : SocSim) (base size : ℕ) : Type 0 where
  pub memory : IsMemory sim.memory
  pub mapped : (k : ℕ) → k < size → is_mapped sim.memory (base + k) ≡ true
  pub free : (k : ℕ) → k < size → has_periph sim.periphs (base + k) ≡ false

module _ (sim : SocSim) (base size k v : ℕ) (ram : IsRam sim base size) (lt : k < size) where
  write_equation :
      write sim (base + k) v 1
      ≡ (record sim { memory = (write_memory sim.memory (base + k) v 1).0 }, false)
  unfolding write
  write_equation = rw (ram.free k lt) (
      ap (λ b. (record sim { memory = (write_memory sim.memory (base + k) v 1).0 }, b))
        (write_memory-fits sim.memory (base + k) v ram.memory))

  -- The system after the write.
  abbrev after_byte : SocSim
  after_byte = record sim { memory = (write_memory sim.memory (base + k) v 1).0 }

  after-IsRam : IsRam after_byte base size
  after-IsRam = record {
    memory = write_memory-IsMemory (base + k) v sim.memory ram.memory;
    mapped =
        λ j below. is_mapped-write_memory sim.memory (base + k) v (base + j) ∙ ram.mapped j below;
    free = ram.free;
  }

  read-after_byte :
      (j : ℕ)
      → j < size
      → read after_byte (base + j) 1 ≡ (if j == k then v % 256 else read sim (base + j) 1)
  unfolding read
  read-after_byte j below =
      let at = byte-write_memory (base + k) v sim.memory (base + j) ram.memory in
      let there = ram.mapped k lt in rw (ram.free j below) (ground (arith, at, there))

  -- A byte written to plain memory raises nothing, is read at its address and nowhere else, and the
  -- memory is plain after it.
  pub write_lem :
      ((write sim (base + k) v 1).1 ≡ false)
      × IsRam (write sim (base + k) v 1).0 base size
      × ((j : ℕ)
          → j < size
          → read (write sim (base + k) v 1).0 (base + j) 1
            ≡ (if j == k then v % 256 else read sim (base + j) 1))
  write_lem = rw write_equation (refl, after-IsRam, read-after_byte)
