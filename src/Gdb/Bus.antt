-- ===== src/Gdb/Bus.antt =====
-- What the commands of veripy/gdb_stub.py do to lists of registers and to the bytes of memory.
use veripy.Base.{
  ℕ, zero, suc, ◌+◌, ◌-◌, ◌*◌, ◌/◌, ◌%◌, ◌^◌, Bool, false, List, [], ◌∷◌, ◌++◌, Option, some, none,
  ◌>>=◌, ltb, if◌then◌else◌, length, take, drop,
}
use veripy.Base.Int.{ℤ, pos, negsuc, ◌+ℤ◌}
use veripy.Soc.{SocSim, little_endian, read, write}
use veripy.Gdb.Text.{Text, hex_byte, to_hex, from_hex}

-- `n.to_bytes(w, 'little')`, an OverflowError where the bytes do not hold it.
abbrev pub bytes_of : ℕ → ℕ → List ℕ
bytes_of zero n = []
bytes_of (suc w) n = (n % 256) ∷ bytes_of w (n / 256)

unfoldable pub to_bytes : ℕ → ℕ → Option (List ℕ)
to_bytes w n = if ltb n (256 ^ w) then some (bytes_of w n) else none

unfoldable pub hex_regs : ℕ → List ℕ → Option Text
unfolding to_bytes
hex_regs w [] = some []
hex_regs w (r ∷ rs) = to_bytes w r >>= λ bs. hex_regs w rs >>= λ rest. some (to_hex bs ++ rest)

-- The registers in a text, up to a part that is too short. A turn takes `w * 2` digits, so there are
-- no more turns than digits.
unfoldable pub parse_regs : ℕ → ℕ → Text → Option (List ℕ)
parse_regs zero w text = some []
parse_regs (suc fuel) w text =
    let rest = parse_regs fuel w (drop (w * 2) text) in
    if ltb (length text) (w * 2)
    then some []
    else (from_hex (take (w * 2) text) >>= λ bs. rest >>= λ rs. some (little_endian bs ∷ rs))

-- An address below zero is in no region and no peripheral.
abbrev pub read_byte : SocSim → ℤ → ℕ
read_byte sim (pos addr) = read sim addr 1
read_byte sim (negsuc k) = 0

abbrev pub write_byte : SocSim → ℤ → ℕ → SocSim × Bool
write_byte sim (pos addr) b = write sim addr b 1
write_byte sim (negsuc k) b = (sim, false)

-- The bytes from `addr + i` on, `m` of them.
abbrev pub read_bytes : SocSim → ℤ → ℕ → ℕ → Text
read_bytes sim addr i zero = []
read_bytes sim addr i (suc m) =
    hex_byte (read_byte sim (addr +ℤ pos i)) ++ read_bytes sim addr (i + 1) m

-- `range(length)`
abbrev pub read_range : SocSim → ℤ → ℤ → Text
read_range sim addr (pos n) = read_bytes sim addr 0 n
read_range sim addr (negsuc k) = []

abbrev pub write_bytes : SocSim → ℤ → ℕ → List ℕ → SocSim × Bool
write_bytes sim addr i [] = (sim, false)
write_bytes sim addr i (b ∷ bs) =
    let done = write_byte sim (addr +ℤ pos i) b in
    let rest = write_bytes done.0 addr (i + 1) bs in if done.1 then done else rest

-- `hex_data[:length * 2]`
abbrev pub prefix_of : Text → ℤ → Text
prefix_of text (pos n) = take (n * 2) text
prefix_of text (negsuc k) = take (length text - (k + 1) * 2) text
