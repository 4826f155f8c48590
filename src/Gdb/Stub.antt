-- ===== src/Gdb/Stub.antt =====
-- `_dispatch` of veripy/gdb_stub.py and the commands behind it, over an interface of the processor.
-- An answer is the text of a reply, no reply, or an exception that no handler takes.
pub mod Registers
pub mod Memory
use veripy.Base.{
  ℕ, zero, suc, ◌+◌, ◌-◌, ◌*◌, ◌/◌, ◌%◌, ◌^◌, Bool, true, false, ◌&&◌, List, [], ◌∷◌, ◌++◌, Option,
  some, none, ◌>>=◌, ltb, leb, ◌==◌, if◌then◌else◌, length, take, drop, set, get_or,
}
use veripy.Base.Int.{ℤ, pos, negsuc}
use veripy.Soc.{SocSim, little_endian}
use veripy.Gdb.Text.{Text, same_text, to_hex, from_hex, int_16, split_at}
use veripy.Gdb.Bus.{to_bytes, hex_regs, parse_regs, read_range, write_bytes, prefix_of}

-- `CpuInterface`; a processor that runs uses the memory and the peripherals.
pub record CpuInterface (S : Type 0) : Type 0 where
  pub get_regs : S → List ℕ
  pub set_regs : List ℕ → S → S
  pub step : S → SocSim → S × SocSim
  pub cont : S → SocSim → S × SocSim
  pub stop : S → SocSim → S × SocSim

pub data Answer : Type 0 where
  reply : Text → Answer
  no_reply : Answer
  raises : Answer

-- 'S05', 'OK', 'E01'
abbrev pub s05 : Text
s05 = 83 ∷ 48 ∷ 53 ∷ []

abbrev pub ok : Text
ok = 79 ∷ 75 ∷ []

abbrev pub e01 : Text
e01 = 69 ∷ 48 ∷ 49 ∷ []

abbrev pub reply_or_raise : Option Text → Answer
reply_or_raise none = raises
reply_or_raise (some t) = reply t

pub record Machine (S : Type 0) : Type 0 where
  pub state : S
  pub sim : SocSim

-- `regs[idx]` of an index that may be negative.
abbrev pub index_regs : List ℕ → ℤ → Option ℕ
index_regs regs (pos i) = if ltb i (length regs) then some i else none
index_regs regs (negsuc k) = if ltb k (length regs) then some (length regs - (k + 1)) else none

-- `idx >= len(regs)`
abbrev pub beyond : List ℕ → ℤ → Bool
beyond regs (pos i) = leb (length regs) i
beyond regs (negsuc k) = false

module _ {S : Type 0} (cpu : CpuInterface S) (w : ℕ) where
  abbrev pub read_regs : Machine S → Answer
  read_regs m = reply_or_raise (hex_regs w (cpu.get_regs m.state))

  abbrev pub set_all : Machine S → Option (List ℕ) → Machine S × Answer
  set_all m none = (m, raises)
  set_all m (some regs) = (record m { state = cpu.set_regs regs m.state }, reply ok)

  unfoldable pub write_regs : Machine S → Text → Machine S × Answer
  unfolding parse_regs
  write_regs m text = set_all m (parse_regs (length text) w text)

  abbrev reg_at : List ℕ → Option ℕ → Answer
  reg_at regs none = raises
  reg_at regs (some i) = reply_or_raise (to_bytes w (get_or regs i 0) >>= λ bs. some (to_hex bs))

  abbrev read_reg : Machine S → Option ℤ → Answer
  read_reg m none = reply e01
  read_reg m (some idx) =
      let regs = cpu.get_regs m.state in
      if beyond regs idx then reply e01 else reg_at regs (index_regs regs idx)

  unfoldable pub read_one_reg : Machine S → Text → Answer
  unfolding int_16 to_bytes
  read_one_reg m arg = read_reg m (int_16 arg)

  -- `regs[idx] = val` and `set_regs`.
  abbrev set_at : Machine S → List ℕ → ℕ → Option ℕ → Machine S × Answer
  set_at m regs val none = (m, raises)
  set_at m regs val (some i) =
      (record m { state = cpu.set_regs (set regs i val) m.state }, reply ok)

  abbrev set_reg : Machine S → Option (ℤ × ℕ) → Machine S × Answer
  set_reg m none = (m, reply e01)
  set_reg m (some (idx, val)) =
      let regs = cpu.get_regs m.state in
      if beyond regs idx then (m, reply e01) else set_at m regs val (index_regs regs idx)

  unfoldable pub write_one_reg : Machine S → Text → Machine S × Answer
  unfolding int_16
  write_one_reg m arg = set_reg m (
      split_at 61 arg >>= λ p.
      int_16 p.0 >>= λ idx. from_hex p.1 >>= λ bs. some (idx, little_endian bs))

  abbrev pub range_reply : Machine S → Option (ℤ × ℤ) → Answer
  range_reply m none = reply e01
  range_reply m (some (addr, count)) = reply (read_range m.sim addr count)

  unfoldable pub read_mem : Machine S → Text → Answer
  unfolding int_16
  read_mem m arg =
      range_reply m
        (split_at 44 arg >>= λ p. int_16 p.0 >>= λ addr. int_16 p.1 >>= λ count. some (addr, count))

  abbrev pub write_reply : Machine S → SocSim × Bool → Machine S × Answer
  write_reply m (sim, failed) = (record m { sim = sim }, if failed then raises else reply ok)

  abbrev pub write_hex : Machine S → ℤ → Option (List ℕ) → Machine S × Answer
  write_hex m addr none = (m, raises)
  write_hex m addr (some bs) = write_reply m (write_bytes m.sim addr 0 bs)

  abbrev pub write_args : Machine S → Option ((ℤ × ℤ) × Text) → Machine S × Answer
  write_args m none = (m, reply e01)
  write_args m (some ((addr, count), digits)) = write_hex m addr (from_hex (prefix_of digits count))

  unfoldable pub write_mem : Machine S → Text → Machine S × Answer
  unfolding int_16
  write_mem m arg = write_args m (
      split_at 58 arg >>= λ p. split_at 44 p.0 >>= λ q.
      int_16 q.0 >>= λ addr. int_16 q.1 >>= λ count. some ((addr, count), p.1))

  -- The processor runs, which changes it and the system.
  abbrev pub run_cpu : Machine S → (S → SocSim → S × SocSim) → Machine S
  run_cpu m f = let r = f m.state m.sim in record { state = r.0; sim = r.1 }

  -- 'qSupported', 'qAttached', 'qC', 'qfThreadInfo' and 'qsThreadInfo', without the `q`.
  abbrev pub query : Text → Text
  query arg =
      if same_text arg (83 ∷ 117 ∷ 112 ∷ 112 ∷ 111 ∷ 114 ∷ 116 ∷ 101 ∷ 100 ∷ [])
      then 80 ∷ 97 ∷ 99 ∷ 107 ∷ 101 ∷ 116 ∷ 83 ∷ 105 ∷ 122 ∷ 101 ∷ 61 ∷ 52 ∷ 48 ∷ 48 ∷ 48 ∷ []
      else (if same_text arg (65 ∷ 116 ∷ 116 ∷ 97 ∷ 99 ∷ 104 ∷ 101 ∷ 100 ∷ [])
          then 49 ∷ []
          else (if same_text arg (67 ∷ [])
              then 81 ∷ 67 ∷ 49 ∷ []
              else (if same_text arg
                    (102 ∷ 84 ∷ 104 ∷ 114 ∷ 101 ∷ 97 ∷ 100 ∷ 73 ∷ 110 ∷ 102 ∷ 111 ∷ [])
                  then 109 ∷ 49 ∷ []
                  else (if same_text arg
                        (115 ∷ 84 ∷ 104 ∷ 114 ∷ 101 ∷ 97 ∷ 100 ∷ 73 ∷ 110 ∷ 102 ∷ 111 ∷ [])
                      then 108 ∷ []
                      else []))))

  -- The commands of one letter, which take no argument.
  abbrev pub dispatch_exact : Machine S → ℕ → Machine S × Answer
  dispatch_exact m c =
      if c == 63
      then (m, reply s05)
      else (if c == 103
          then (m, read_regs m)
          else (if c == 107 then (run_cpu m cpu.stop, no_reply) else (m, reply [])))

  -- The commands that a letter begins.
  abbrev pub dispatch_prefix : Machine S → ℕ → Text → Machine S × Answer → Machine S × Answer
  dispatch_prefix m c arg otherwise =
      if c == 71
      then write_regs m arg
      else (if c == 109
          then (m, read_mem m arg)
          else (if c == 77
              then write_mem m arg
              else (if c == 112
                  then (m, read_one_reg m arg)
                  else (if c == 80
                      then write_one_reg m arg
                      else (if c == 115
                          then (run_cpu m cpu.step, reply s05)
                          else (if c == 99
                              then (run_cpu m cpu.cont, reply s05)
                              else (if c == 113 then (m, reply (query arg)) else otherwise)))))))

  unfoldable pub dispatch : Machine S → Text → Machine S × Answer
  unfolding write_regs read_mem write_mem read_one_reg write_one_reg
  dispatch m [] = (m, reply [])
  dispatch m (c ∷ []) = dispatch_prefix m c [] (dispatch_exact m c)
  dispatch m (c ∷ d ∷ arg) = dispatch_prefix m c (d ∷ arg) (m, reply [])
