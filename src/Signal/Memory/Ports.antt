-- ===== src/Signal/Memory/Ports.antt =====
-- `DualPortMem` and `TrueDualPortMem`: a clock edge runs the blocks of the ports, then the tick.
use native.Mathlib.Nat.{mod-lt}
use veripy.Base.{
  ℕ, ◌%◌, ◌^◌, ◌<◌, ◌≡◌, refl, ap, ◌∙◌, Bool, true, false, not, Bool-cases, inl, inr, List, Option,
  none, some, ◌==◌, if◌then◌else◌, ◌&&◌, bit_and, get_or, length, length-set, arith,
}
use veripy.Base.Bits.{bit_and-mask}
use veripy.Signal.Memory.{mask, apply_write, get_or-set}

-- `_we` and `_raddr` may be missing; `wanted` is an `rdata` that is not None.
pub record MemPorts : Type 0 where
  pub we : Option ℕ
  pub waddr : ℕ
  pub wdata : ℕ
  pub raddr : Option ℕ
  pub wanted : Bool

pub record DualPortMem : Type 0 where
  pub depth : ℕ
  pub width : ℕ
  pub data_words : List ℕ
  pub pending_write : Option (ℕ × ℕ)
  pub rdata_next : Option ℕ

-- `mem._we and _sig_val(mem._we)`
abbrev pub enabled : Option ℕ → Bool
enabled none = false
enabled (some v) = not (v == 0)

-- The value that a port's read schedules, or what was scheduled before.
abbrev pub port_read : List ℕ → ℕ → Option ℕ → Bool → Option ℕ → Option ℕ
port_read xs depth none wanted before = before
port_read xs depth (some a) wanted before =
    if wanted then some (get_or xs (a % depth) 0) else before

abbrev pub port_write : ℕ → ℕ → Option ℕ → ℕ → ℕ → Option (ℕ × ℕ) → Option (ℕ × ℕ)
port_write depth width we a v before =
    if enabled we then some (a % depth, bit_and v (mask width)) else before

unfoldable pub mem_block : MemPorts → DualPortMem → DualPortMem
mem_block p m = record m {
  pending_write = port_write m.depth m.width p.we p.waddr p.wdata m.pending_write;
  rdata_next = port_read m.data_words m.depth p.raddr p.wanted m.rdata_next;
}

unfoldable pub dual_tick : DualPortMem → DualPortMem
dual_tick m = record m {
  data_words = apply_write m.data_words m.pending_write;
  pending_write = none;
}

-- One port of the other memory: write enable, address, word in, and whether `dout` is there.
pub record MemPort : Type 0 where
  pub we : Option ℕ
  pub addr : ℕ
  pub din : ℕ
  pub wanted : Bool

pub record TrueDualPortMem : Type 0 where
  pub depth : ℕ
  pub width : ℕ
  pub data_words : List ℕ
  pub pending_a : Option (ℕ × ℕ)
  pub pending_b : Option (ℕ × ℕ)
  pub douta_next : Option ℕ
  pub doutb_next : Option ℕ

unfoldable pub port_a : MemPort → TrueDualPortMem → TrueDualPortMem
port_a p m = record m {
  pending_a = port_write m.depth m.width p.we p.addr p.din m.pending_a;
  douta_next = port_read m.data_words m.depth (some p.addr) p.wanted m.douta_next;
}

unfoldable pub port_b : MemPort → TrueDualPortMem → TrueDualPortMem
port_b p m = record m {
  pending_b = port_write m.depth m.width p.we p.addr p.din m.pending_b;
  doutb_next = port_read m.data_words m.depth (some p.addr) p.wanted m.doutb_next;
}

unfoldable pub true_tick : TrueDualPortMem → TrueDualPortMem
true_tick m = record m {
  data_words = apply_write (apply_write m.data_words m.pending_a) m.pending_b;
  pending_a = none;
  pending_b = none;
}

-- The word at a slot after a port's write.
abbrev pub word_after : ℕ → ℕ → Option ℕ → ℕ → ℕ → ℕ → ℕ → ℕ
word_after depth width we a v slot old =
    if enabled we && (a % depth == slot) then v % 2 ^ width else old

get-apply_write :
    (xs : List ℕ) (depth width : ℕ) (we : Option ℕ) (a v slot : ℕ)
    → 0 < depth
    → length xs ≡ depth
    → get_or (apply_write xs (port_write depth width we a v none)) slot 0
      ≡ word_after depth width we a v slot (get_or xs slot 0)
get-apply_write xs depth width we a v slot pos len = elim (Bool-cases (enabled we)) [
  | inl e ↦ rw e (
      get_or-set xs (a % depth) slot (bit_and v (mask width)) (omega (arith, mod-lt a pos))
      ∙ ap (λ w. if a % depth == slot then w else get_or xs slot 0) (bit_and-mask width v))
  | inr e ↦ rw e refl
]

length-apply_write : (xs : List ℕ) (p : Option (ℕ × ℕ)) → length (apply_write xs p) ≡ length xs
length-apply_write xs none = refl
length-apply_write xs (some (a, v)) = length-set xs a v

-- In an edge of a dual-port memory of a positive depth with nothing pending, a read port that is there
-- schedules the word from before the edge, also at the address that is written, and after the tick the
-- written word is in its place.
pub dual_edge :
    (p : MemPorts) (m : DualPortMem) (a slot : ℕ)
    → 0 < m.depth
    → length m.data_words ≡ m.depth
    → m.pending_write ≡ none
    → p.raddr ≡ some a
    → p.wanted ≡ true
    → ((dual_tick (mem_block p m)).rdata_next ≡ some (get_or m.data_words (a % m.depth) 0))
      × (get_or (dual_tick (mem_block p m)).data_words slot 0
          ≡ word_after m.depth m.width p.we p.waddr p.wdata slot (get_or m.data_words slot 0))
unfolding mem_block dual_tick
dual_edge p m a slot pos len idle at wanted =
    rw (idle, at, wanted)
      (refl, get-apply_write m.data_words m.depth m.width p.we p.waddr p.wdata slot pos len)

-- In an edge of both clocks of a true dual-port memory of a positive depth with nothing pending, both
-- ports, where their outputs are there, read the words from before the edge, and where both write one
-- address the word of port B stays.
pub true_edge :
    (a b : MemPort) (m : TrueDualPortMem) (slot : ℕ)
    → 0 < m.depth
    → length m.data_words ≡ m.depth
    → m.pending_a ≡ none
    → m.pending_b ≡ none
    → a.wanted ≡ true
    → b.wanted ≡ true
    → ((true_tick (port_b b (port_a a m))).douta_next
        ≡ some (get_or m.data_words (a.addr % m.depth) 0))
      × ((true_tick (port_b b (port_a a m))).doutb_next
          ≡ some (get_or m.data_words (b.addr % m.depth) 0))
      × (get_or (true_tick (port_b b (port_a a m))).data_words slot 0
          ≡ word_after m.depth m.width b.we b.addr b.din slot
              (word_after m.depth m.width a.we a.addr a.din slot (get_or m.data_words slot 0)))
unfolding port_a port_b true_tick
true_edge a b m slot pos len ia ib wa wb =
    let first = apply_write m.data_words (port_write m.depth m.width a.we a.addr a.din none) in
    let len' : length first ≡ m.depth =
      length-apply_write m.data_words (port_write m.depth m.width a.we a.addr a.din none) ∙ len in
    rw (ia, ib, wa, wb)
      (
        refl,
        refl,
        get-apply_write first m.depth m.width b.we b.addr b.din slot pos len'
            ∙ ap (word_after m.depth m.width b.we b.addr b.din slot)
                (get-apply_write m.data_words m.depth m.width a.we a.addr a.din slot pos len),
      )
