-- ===== src/Cdc/AsyncFifo.antt =====
-- `AsyncFIFO` of veripy/cdc.py: a queue between two clocks. Each clock has its edges; a run is any
-- sequence of them. A process assigns its registers at once, and reads `full` or `empty` as they
-- were before its edge. The depth is two at least: one is a ValueError of `3 << (addr_bits - 2)`.
pub mod Pointers
pub mod Run
mod Tests
use veripy.Base.{
  ℕ, ◌+◌, ◌-◌, ◌*◌, ◌^◌, bit_and, bit_xor, Bool, true, false, ◌&&◌, not, List, [], ◌∷◌, ◌==◌,
  if◌then◌else◌,
}
use veripy.Base.Bits.{bit_length}
use veripy.Signal.Memory.{Mem, init_mem, getitem, write, tick}
use veripy.Cdc.Gray.{gray}

pub record AsyncFifo : Type 0 where
  pub depth : ℕ
  pub mem : Mem
  pub wptr : ℕ
  pub rptr : ℕ
  pub wgray : ℕ
  pub rgray : ℕ
  pub wgray_s1 : ℕ
  pub wgray_s2 : ℕ
  pub rgray_s1 : ℕ
  pub rgray_s2 : ℕ

unfoldable pub init : ℕ → ℕ → AsyncFifo
init width depth = record {
  depth = depth;
  mem = init_mem depth width;
  wptr = 0;
  rptr = 0;
  wgray = 0;
  rgray = 0;
  wgray_s1 = 0;
  wgray_s2 = 0;
  rgray_s1 = 0;
  rgray_s2 = 0;
}

abbrev pub addr_bits : AsyncFifo → ℕ
addr_bits f = bit_length f.depth

-- `(p + 1) & mask_full`
abbrev pub next_ptr : AsyncFifo → ℕ → ℕ
next_ptr f p = bit_and (p + 1) (2 ^ addr_bits f - 1)

-- The outputs of `flags`.
abbrev pub full : AsyncFifo → Bool
full f = bit_xor f.wgray f.rgray_s2 == 3 * 2 ^ (addr_bits f - 2)

abbrev pub empty : AsyncFifo → Bool
empty f = f.rgray == f.wgray_s2

abbrev pub rdata : AsyncFifo → ℕ
unfolding getitem
rdata f = getitem f.mem (bit_and f.rptr (f.depth - 1))

-- The synchronizer of the write side, and a word that is pushed; the edge ends with the tick of the
-- memory.
abbrev pub sync_write : AsyncFifo → AsyncFifo
sync_write f = record f { rgray_s2 = f.rgray_s1; rgray_s1 = f.rgray }

abbrev pub push : AsyncFifo → ℕ → AsyncFifo
unfolding write tick gray
push f wdata = record f {
  mem = tick (write f.mem (bit_and f.wptr (f.depth - 1)) wdata);
  wptr = next_ptr f f.wptr;
  wgray = gray (next_ptr f f.wptr);
}

abbrev pub sync_read : AsyncFifo → AsyncFifo
sync_read f = record f { wgray_s2 = f.wgray_s1; wgray_s1 = f.wgray }

abbrev pub pop : AsyncFifo → AsyncFifo
unfolding gray
pop f = record f { rptr = next_ptr f f.rptr; rgray = gray (next_ptr f f.rptr) }

abbrev pub pushes : AsyncFifo → Bool → Bool
pushes f wen = wen && not (full f)

abbrev pub pops : AsyncFifo → Bool → Bool
pops f ren = ren && not (empty f)

unfoldable pub write_logic : AsyncFifo → Bool → Bool → ℕ → AsyncFifo
unfolding push
write_logic f wrst wen wdata =
    if wrst
    then record f { wptr = 0; wgray = 0; rgray_s1 = 0; rgray_s2 = 0 }
    else (if pushes f wen then push (sync_write f) wdata else sync_write f)

unfoldable pub read_logic : AsyncFifo → Bool → Bool → AsyncFifo
unfolding pop
read_logic f rrst ren =
    if rrst
    then record f { rptr = 0; rgray = 0; wgray_s1 = 0; wgray_s2 = 0 }
    else (if pops f ren then pop (sync_read f) else sync_read f)

-- An edge of one of the clocks, with the inputs of its side.
pub data Edge : Type 0 where
  write_edge : Bool → Bool → ℕ → Edge
  read_edge : Bool → Bool → Edge

unfoldable pub step : AsyncFifo → Edge → AsyncFifo
unfolding write_logic read_logic
step f (write_edge wrst wen wdata) = write_logic f wrst wen wdata
step f (read_edge rrst ren) = read_logic f rrst ren
