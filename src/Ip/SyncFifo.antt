-- ===== src/Ip/SyncFifo.antt =====
-- `SyncFifo`: a queue in a memory, with a write pointer, a read pointer and a count.
pub mod Queue
pub mod Refine
pub mod Outputs
mod Tests
use veripy.Base.{
  ℕ, ◌+◌, ◌-◌, ◌%◌, ◌^◌, Bool, true, false, ◌&&◌, not, List, ◌==◌, bit_and, if◌then◌else◌, get_or,
  set, replicate,
}
use veripy.Base.Bits.{bit_length}

pub record SyncFifo : Type 0 where
  pub width : ℕ
  pub depth : ℕ
  pub mem : List ℕ
  pub wptr : ℕ
  pub rptr : ℕ
  pub cnt : ℕ

pub init : ℕ → ℕ → SyncFifo
init width depth = record {
  width = width;
  depth = depth;
  mem = replicate depth 0;
  wptr = 0;
  rptr = 0;
  cnt = 0;
}

abbrev pub ptr_bits : SyncFifo → ℕ
ptr_bits f = bit_length (f.depth - 1) + 1

abbrev pub cnt_bits : SyncFifo → ℕ
cnt_bits f = bit_length f.depth + 1

-- `self.mem[p & mask]`; the memory takes its address modulo its depth.
unfoldable pub slot : SyncFifo → ℕ → ℕ
slot f p = bit_and p (f.depth - 1) % f.depth

pub full : SyncFifo → Bool
full f = f.cnt == f.depth

pub empty : SyncFifo → Bool
empty f = f.cnt == 0

pub dout : SyncFifo → ℕ
unfolding slot
dout f = get_or f.mem (slot f f.rptr) 0

abbrev pub pushes : SyncFifo → Bool → Bool
pushes f push = push && not (f.cnt == f.depth)

abbrev pub pops : SyncFifo → Bool → Bool
pops f pop = pop && not (f.cnt == 0)

pub record Input : Type 0 where
  pub reset : Bool
  pub push : Bool
  pub din : ℕ
  pub pop : Bool

-- The inputs are signals: `din` has the width of the queue.
pub update : SyncFifo → Input → SyncFifo
unfolding slot
update f i = if i.reset then record f { wptr = 0; rptr = 0; cnt = 0 } else record f {
  mem = if pushes f i.push then set f.mem (slot f f.wptr) (i.din % 2 ^ f.width) else f.mem;
  wptr = if pushes f i.push then (f.wptr + 1) % 2 ^ ptr_bits f else f.wptr;
  rptr = if pops f i.pop then (f.rptr + 1) % 2 ^ ptr_bits f else f.rptr;
  cnt =
      if pops f i.pop
      then (f.cnt - 1) % 2 ^ cnt_bits f
      else (if pushes f i.push then (f.cnt + 1) % 2 ^ cnt_bits f else f.cnt);
}
