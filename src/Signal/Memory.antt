-- ===== src/Signal/Memory.antt =====
-- `Mem`, `DualPortMem` and `TrueDualPortMem` of veripy/signal.py. Addresses and words are numbers, as signals
-- have them. The depth is positive.
pub mod Ports
mod Tests
use native.Mathlib.Nat.{mod-lt}
use veripy.Base.{
  ℕ, zero, suc, ◌+◌, ◌-◌, ◌%◌, ◌^◌, ◌<◌, ◌≤◌, ◌≡◌, ◌≢◌, refl, sym, ap, ◌∙◌, Bool, true, false,
  Bool-cases, inl, inr, List, [], ◌∷◌, Option, none, some, ◌==◌, ==_iff, if◌then◌else◌, bit_and,
  get_or, set, length, replicate, length-replicate, length-set, get_or-set_self, get_or-set_ne,
  arith,
}
use veripy.Base.Bits.{bit_and-mask}

pub record Mem : Type 0 where
  pub depth : ℕ
  pub width : ℕ
  pub data_words : List ℕ
  pub pending_write : Option (ℕ × ℕ)

pub init_mem : ℕ → ℕ → Mem
init_mem depth width = record {
  depth = depth;
  width = width;
  data_words = replicate depth 0;
  pending_write = none;
}

-- `self._mask`
abbrev pub mask : ℕ → ℕ
mask width = 2 ^ width - 1

-- `self._data[addr] = val`, for the pending write of a `_tick`.
abbrev pub apply_write : List ℕ → Option (ℕ × ℕ) → List ℕ
apply_write xs none = xs
apply_write xs (some (a, v)) = set xs a v

unfoldable pub getitem : Mem → ℕ → ℕ
getitem m addr = get_or m.data_words (addr % m.depth) 0

unfoldable pub write : Mem → ℕ → ℕ → Mem
write m addr value = record m {
  pending_write = some (addr % m.depth, bit_and value (mask m.width));
}

unfoldable pub tick : Mem → Mem
tick m = record m { data_words = apply_write m.data_words m.pending_write; pending_write = none }

abbrev pub IsValid : Mem → Type 0
IsValid m = (0 < m.depth) × (length m.data_words ≡ m.depth)

-- What a word reads after a write.
pub get_or-set :
    (xs : List ℕ) (i j v : ℕ)
    → i < length xs
    → get_or (set xs i v) j 0 ≡ (if i == j then v else get_or xs j 0)
get_or-set xs i j v lt = elim (Bool-cases (i == j)) [
  | inl e ↦
      let same : i ≡ j = grind (arith, ==_iff i j) in
      rw e (ap (λ k. get_or (set xs i v) k 0) (sym same) ∙ get_or-set_self xs i v 0 lt)
  | inr e ↦ let ne : i ≢ j = grind (arith, ==_iff i j) in rw e (get_or-set_ne xs v 0 ne)
]

-- A write to a well-formed memory takes effect at the tick, not before: then the word at its address, taken round the
-- depth, is its value in the width, and the other words are as before. The memory stays well-formed.
pub read_after_write :
    (m : Mem) (a b v : ℕ)
    → IsValid m
    → (getitem (write m a v) b ≡ getitem m b)
      × (getitem (tick (write m a v)) b
          ≡ (if a % m.depth == b % m.depth then v % 2 ^ m.width else getitem m b))
      × IsValid (tick (write m a v))
unfolding getitem write tick
read_after_write m a b v h =
    let (pos, len) = h in
    let lt : a % m.depth < length m.data_words = omega (arith, mod-lt a pos) in
    (
      refl,
      get_or-set m.data_words (a % m.depth) (b % m.depth) (bit_and v (mask m.width)) lt
          ∙ ap (λ w. if a % m.depth == b % m.depth then w else get_or m.data_words (b % m.depth) 0)
              (bit_and-mask m.width v),
      (pos, length-set m.data_words (a % m.depth) (bit_and v (mask m.width)) ∙ len),
    )
