-- ===== src/Gdb/Stub/Memory.antt =====
-- The memory commands: what `M` writes, `m` reads.
use mathlib.Core.List.{append-nil}
use veripy.Base.{
  ℕ, ◌+◌, ◌≡◌, ◌≤◌, ◌<◌, refl, sym, ap, ◌∙◌, Bool, false, List, [], ◌∷◌, ◌++◌, some, if◌then◌else◌,
  length, take, take-append, count, All, arith,
}
use veripy.Base.Int.{pos, ◌+ℤ◌}
use veripy.Soc.{SocSim, read, write}
use veripy.Soc.Bytes.{IsRam, write_lem}
use veripy.Gdb.Text.{Text, hex_byte, to_hex, from_hex, int_16, split_at}
use veripy.Gdb.Text.Hex.{IsByte, from_hex-to_hex, length-to_hex}
use veripy.Gdb.Bus.{read_bytes, write_bytes, prefix_of}
use veripy.Gdb.Stub.{
  CpuInterface, Machine, reply, raises, ok, read_mem, write_mem, write_hex, write_args, range_reply,
}

pos-add : (a i : ℕ) → pos a +ℤ pos i ≡ pos (a + i)
unfolding ◌+ℤ◌
pos-add a i = ground arith

-- What a run of writes leaves: plain memory, the bytes before the run, and the bytes of the run.
record IsWritten (sim : SocSim) (base size i : ℕ) (bs : List ℕ) (done : SocSim × Bool)
    : Type 0 where
  kept : done.1 ≡ false
  ram : IsRam done.0 base size
  before : (j : ℕ) → j < i → read done.0 (base + j) 1 ≡ read sim (base + j) 1
  written : read_bytes done.0 (pos base) i (length bs) ≡ to_hex bs

module _ (base size : ℕ) where
  write_bytes-IsWritten :
      (sim : SocSim) (i : ℕ) (bs : List ℕ)
      → IsRam sim base size
      → i + length bs ≤ size
      → All IsByte bs
      → IsWritten sim base size i bs (write_bytes sim (pos base) i bs)
  write_bytes-IsWritten sim i [] ram le h = record {
    kept = refl;
    ram = ram;
    before = λ j lt. refl;
    written = refl;
  }
  write_bytes-IsWritten sim i (b ∷ bs) ram le h =
      let one = write_lem sim base size i b ram (omega arith) in
      let next = (write sim (base + i) b 1).0 in
      let rest = write_bytes-IsWritten next (i + 1) bs one.1 (omega arith) h.1 in
      rw (pos-add base i) (
        rw one.0 record {
          kept = rest.kept;
          ram = rest.ram;
          before = λ j lt. rest.before j (omega arith) ∙ ground (arith, one.2 j (omega arith));
          written =
              let first : read (write_bytes next (pos base) (i + 1) bs).0 (base + i) 1 ≡ b =
                rest.before i (omega arith) ∙ ground (arith, one.2 i (omega arith), h.0) in
              rw (pos-add base i) (
                ap
                  (λ k.
                    hex_byte k
                    ++ read_bytes (write_bytes next (pos base) (i + 1) bs).0 (pos base) (i + 1)
                        (length bs))
                  first
                ∙ ap (λ t. hex_byte b ++ t) rest.written);
        })

split_at-append :
    (c : ℕ) (xs ys : Text) → count c xs ≡ 0 → split_at c (xs ++ (c ∷ ys)) ≡ some (xs, ys)
split_at-append c [] ys h = ground arith
split_at-append c (x ∷ xs) ys h =
    let ih = split_at-append c xs ys (ground arith) in ground (arith, ih)

module _ {S : Type 0} (cpu : CpuInterface S) (w : ℕ) where
  -- The two commands, where their arguments are read.
  write_hex-reads :
      (m : Machine S) (addr : ℕ) (bs : List ℕ)
      → IsRam m.sim addr (length bs)
      → All IsByte bs
      → (sim : SocSim) × (write_args cpu w m (some ((pos addr, pos (length bs)), to_hex bs))
          ≡ (record m { sim = sim }, reply ok))
        × (range_reply cpu w (record m { sim = sim }) (some (pos addr, pos (length bs)))
            ≡ reply (to_hex bs))
  write_hex-reads m addr bs ram h =
      let done = write_bytes-IsWritten addr (length bs) m.sim 0 bs ram (omega arith) h in
      let all : prefix_of (to_hex bs) (pos (length bs)) ≡ to_hex bs =
        ap (λ k. take k (to_hex bs)) (sym (length-to_hex bs))
        ∙ (ap (take (length (to_hex bs))) (sym (append-nil (to_hex bs)))
            ∙ take-append (to_hex bs) []) in
      let sim = (write_bytes m.sim (pos addr) 0 bs).0 in
      (
        sim,
        ap (write_hex cpu w m (pos addr)) (ap from_hex all ∙ from_hex-to_hex bs h)
            ∙ ap (λ b. (record m { sim = sim }, if b then raises else reply ok)) done.kept,
        ap reply done.written,
      )

  -- An `M` command whose address and length stand for a range of plain memory, and whose digits are
  -- as many bytes, is answered by OK, and the `m` command of the same range then reads the digits.
  pub read_mem-write_mem :
      (m : Machine S) (addr_text len_text : Text) (addr : ℕ) (bs : List ℕ)
      → int_16 addr_text ≡ some (pos addr)
      → int_16 len_text ≡ some (pos (length bs))
      → count 44 addr_text ≡ 0
      → count 58 (addr_text ++ (44 ∷ len_text)) ≡ 0
      → IsRam m.sim addr (length bs)
      → All IsByte bs
      → (sim : SocSim) × (write_mem cpu w m ((addr_text ++ (44 ∷ len_text)) ++ (58 ∷ to_hex bs))
          ≡ (record m { sim = sim }, reply ok))
        × (read_mem cpu w (record m { sim = sim }) (addr_text ++ (44 ∷ len_text))
            ≡ reply (to_hex bs))
  unfolding read_mem write_mem
  read_mem-write_mem m addr_text len_text addr bs ha hl comma colon ram h =
      let (sim, written, readback) = write_hex-reads m addr bs ram h in
      (
        sim,
        rw (split_at-append 58 (addr_text ++ (44 ∷ len_text)) (to_hex bs) colon)
            (rw (split_at-append 44 addr_text len_text comma) (rw ha (rw hl written))),
        rw (split_at-append 44 addr_text len_text comma) (rw ha (rw hl readback)),
      )
