-- ===== src/Soc.antt =====
-- veripy/soc_sim.py: the address space of a system, for firmware that runs in co-simulation. Buffers
-- are lists of bytes, addresses and values natural numbers; a change of a bytearray in place is the
-- same list changed in the region that `_lookup` finds. The Boolean of a result is the IndexError of
-- a write behind the end of a buffer, with what was written before it.
pub mod Access
pub mod Bytes
mod Tests
use veripy.Base.{
  ℕ, zero, suc, ◌+◌, ◌-◌, ◌*◌, ◌/◌, ◌%◌, String, Bool, true, false, ◌&&◌, ◌||◌, List, [], ◌∷◌, ◌++◌,
  Option, some, none, ltb, leb, ◌==◌, if◌then◌else◌, length, take, drop, replicate,
}

pub record Region : Type 0 where
  pub base : ℕ
  pub end_exclusive : ℕ
  pub buf : List ℕ
  pub name : String

abbrev pub FlatMemory : Type 0
FlatMemory = List Region

abbrev pub add_region : FlatMemory → String → ℕ → ℕ → FlatMemory
add_region regions name base size =
    regions
    ++ (record { base = base; end_exclusive = base + size; buf = replicate size 0; name = name }
        ∷ [])

-- `base <= addr < end`
abbrev pub within : ℕ → ℕ → ℕ → Bool
within base end_exclusive addr = leb base addr && ltb addr end_exclusive

-- The buffer and the offset in it.
abbrev pub lookup_region : FlatMemory → ℕ → Option (List ℕ × ℕ)
lookup_region [] addr = none
lookup_region (r ∷ rs) addr =
    let rest = lookup_region rs addr in
    if within r.base r.end_exclusive addr then some (r.buf, addr - r.base) else rest

-- The buffer that `_lookup` finds, changed.
abbrev pub put_buf : FlatMemory → ℕ → List ℕ → FlatMemory
put_buf [] addr buf = []
put_buf (r ∷ rs) addr buf =
    let rest = put_buf rs addr buf in
    if within r.base r.end_exclusive addr then record r { buf = buf } ∷ rs else r ∷ rest

-- `val |= b << (8 * i)` over the bytes.
abbrev pub little_endian : List ℕ → ℕ
little_endian [] = 0
little_endian (b ∷ bs) = b + 256 * little_endian bs

abbrev pub read_buf : Option (List ℕ × ℕ) → ℕ → ℕ
read_buf none size = 0
read_buf (some (buf, off)) size = little_endian (take size (drop off buf))

unfoldable pub read_memory : FlatMemory → ℕ → ℕ → ℕ
read_memory regions addr size = read_buf (lookup_region regions addr) size

-- The loop over the bytes of the value, from the offset on.
abbrev pub poke : List ℕ → ℕ → ℕ → ℕ → List ℕ × Bool
poke bs off value zero = (bs, false)
poke [] off value (suc n) = ([], true)
poke (b ∷ bs) zero value (suc n) =
    let rest = poke bs 0 (value / 256) n in (value % 256 ∷ rest.0, rest.1)
poke (b ∷ bs) (suc off) value (suc n) = let rest = poke bs off value (suc n) in (b ∷ rest.0, rest.1)

abbrev pub write_buf : FlatMemory → ℕ → Option (List ℕ × ℕ) → ℕ → ℕ → FlatMemory × Bool
write_buf regions addr none value size = (regions, false)
write_buf regions addr (some (buf, off)) value size =
    let done = poke buf off value size in (put_buf regions addr done.0, done.1)

unfoldable pub write_memory : FlatMemory → ℕ → ℕ → ℕ → FlatMemory × Bool
write_memory regions addr value size =
    write_buf regions addr (lookup_region regions addr) value size

-- `load_bytes`: a byte of the data at each address, where a region has it.
unfoldable pub load_bytes : FlatMemory → ℕ → List ℕ → FlatMemory × Bool
unfolding write_memory
load_bytes regions addr [] = (regions, false)
load_bytes regions addr (byte ∷ data_left) =
    let done = write_memory regions addr byte 1 in
    let rest = load_bytes done.0 (addr + 1) data_left in
    (if done.1 then done.0 else rest.0, done.1 || rest.1)

-- UartPeripheral with its range of addresses; `output` holds the codes of the characters.
pub record Uart : Type 0 where
  pub base : ℕ
  pub end_exclusive : ℕ
  pub output : List ℕ

abbrev pub uart_write : Uart → ℕ → ℕ → Uart
uart_write u addr value =
    if addr == u.base then record u { output = u.output ++ (value % 256 ∷ []) } else u

-- `self.uart` is the first one.
pub record SocSim : Type 0 where
  pub memory : FlatMemory
  pub periphs : List Uart

pub data PeripheralType : Type 0 where
  uart : PeripheralType
  other : String → PeripheralType

pub record MemoryRegion : Type 0 where
  pub name : String
  pub base : ℕ
  pub size : ℕ

pub record Peripheral : Type 0 where
  pub base : ℕ
  pub size : ℕ
  pub type_name : PeripheralType

abbrev pub add_regions : FlatMemory → List MemoryRegion → FlatMemory
add_regions m [] = m
add_regions m (r ∷ rs) = add_regions (add_region m r.name r.base r.size) rs

abbrev pub uart_of : PeripheralType → Peripheral → List Uart
uart_of uart p = record { base = p.base; end_exclusive = p.base + p.size; output = [] } ∷ []
uart_of (other t) p = []

abbrev pub uarts : List Peripheral → List Uart
uarts [] = []
uarts (p ∷ ps) = uart_of p.type_name p ++ uarts ps

unfoldable pub init_soc : List MemoryRegion → List Peripheral → SocSim
init_soc memory peripherals = record { memory = add_regions [] memory; periphs = uarts peripherals }

-- Some peripheral has the address.
abbrev pub has_periph : List Uart → ℕ → Bool
has_periph [] addr = false
has_periph (u ∷ us) addr = within u.base u.end_exclusive addr || has_periph us addr

unfoldable pub read : SocSim → ℕ → ℕ → ℕ
unfolding read_memory
read sim addr size = if has_periph sim.periphs addr then 0 else read_memory sim.memory addr size

-- The first peripheral that has the address takes the write.
abbrev pub write_periphs : List Uart → ℕ → ℕ → List Uart
write_periphs [] addr value = []
write_periphs (u ∷ us) addr value =
    let rest = write_periphs us addr value in
    if within u.base u.end_exclusive addr then uart_write u addr value ∷ us else u ∷ rest

unfoldable pub write : SocSim → ℕ → ℕ → ℕ → SocSim × Bool
unfolding write_memory
write sim addr value size =
    let done = write_memory sim.memory addr value size in
    if has_periph sim.periphs addr
    then (record sim { periphs = write_periphs sim.periphs addr value }, false)
    else (record sim { memory = done.0 }, done.1)

-- A loaded segment of an image.
pub record Segment : Type 0 where
  pub vaddr : ℕ
  pub bytes : List ℕ
  pub memsz : ℕ

-- The data of a segment and the zeros behind it.
unfoldable pub load_segments : FlatMemory → List Segment → FlatMemory × Bool
unfolding load_bytes
load_segments m [] = (m, false)
load_segments m (seg ∷ segs) =
    let data_done = load_bytes m seg.vaddr seg.bytes in
    let bss =
      load_bytes data_done.0 (seg.vaddr + length seg.bytes)
        (replicate (seg.memsz - length seg.bytes) 0) in
    let rest = load_segments bss.0 segs in
    (
      if data_done.1 then data_done.0 else (if bss.1 then bss.0 else rest.0),
      data_done.1 || (bss.1 || rest.1),
    )
