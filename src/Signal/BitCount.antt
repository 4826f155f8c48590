-- ===== src/Signal/BitCount.antt =====
-- `clz` and `ctz` of veripy/signal.py, on the value and the width of their argument.
pub mod Zeros
use veripy.Base.{ℕ, zero, suc, ◌+◌, ◌-◌, ◌/◌, ◌%◌, ◌^◌, Bool, ◌==◌, if◌then◌else◌}

-- `(v >> i) & 1`
abbrev pub bit_set : ℕ → ℕ → Bool
bit_set v i = v / 2 ^ i % 2 == 1

-- The loop over `range(w - 1, -1, -1)`, with the `i` indices below the last one left.
unfoldable pub clz_from : ℕ → ℕ → ℕ → ℕ
clz_from w v zero = w
clz_from w v (suc i) = let rest = clz_from w v i in if bit_set v i then w - 1 - i else rest

unfoldable pub clz : ℕ → ℕ → ℕ
unfolding clz_from
clz w v = if v == 0 then w else clz_from w v w

-- The loop over `range(w)`, from `i` on with `n` indices left.
unfoldable pub ctz_from : ℕ → ℕ → ℕ → ℕ → ℕ
ctz_from w v i zero = w
ctz_from w v i (suc n) = let rest = ctz_from w v (i + 1) n in if bit_set v i then i else rest

unfoldable pub ctz : ℕ → ℕ → ℕ
unfolding ctz_from
ctz w v = if v == 0 then w else ctz_from w v 0 w
