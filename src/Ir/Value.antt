-- ===== src/Ir/Value.antt =====
-- What a signal or a memory of the IR holds, and the operators over integers.
use veripy.Base.{
  ℕ, String, Bool, true, false, ◌&&◌, ◌||◌, not, List, [], ◌∷◌, Option, none, some, ◌>>=◌, ◌≡◌,
  refl,
}
use veripy.Base.Int.{
  ℤ, pos, ◌+ℤ◌, ◌-ℤ◌, ◌*ℤ◌, not_ℤ, and_ℤ, or_ℤ, xor_ℤ, shl_ℤ, shr_ℤ, eq_ℤ, lt_ℤ, truthy, of_bool,
}
use veripy.Ir.{
  BinaryOp, plus, minus, times, band, bor, bxor, shl, shr, UnaryOp, invert, lnot, negate, CompareOp,
  eq, ne, lt, gt, le, ge, BoolOp, land, lor,
}

-- A signal holds a word, a memory an array.
pub data Value : Type 0 where
  word : ℤ → Value
  array : (ℤ → ℤ) → Value

abbrev pub as_word : Value → Option ℤ
as_word (word z) = some z
as_word (array f) = none

abbrev pub State : Type 0
State = String → Value

pub bind_word {ℓ} :
    {B : Type ℓ} (o : Option Value) (f : ℤ → Option B) {b : B}
    → (o >>= λ v. as_word v >>= f) ≡ some b
    → (z : ℤ) × (o ≡ some (word z)) × (f z ≡ some b)
bind_word (some (word z)) f h = (z, refl, h)
bind_word (some (array g)) f h = cc
bind_word none f h = cc

pub bind_word_cong {ℓ} :
    {B : Type ℓ} (o : Option Value) {f g : ℤ → Option B}
    → ((z : ℤ) → f z ≡ g z)
    → (o >>= λ v. as_word v >>= f) ≡ (o >>= λ v. as_word v >>= g)
bind_word_cong (some (word z)) h = h z
bind_word_cong (some (array a)) h = refl
bind_word_cong none h = refl

-- What the meaning of an IR program leaves open: the operators that the passes never compute, the
-- layout of slices and words, and what a write of a declared width keeps. `concat` sees the width
-- that each part is emitted with.
pub record Target : Type 0 where
  pub rest : BinaryOp → ℤ → ℤ → Option ℤ
  pub param_value : String → Option ℤ
  pub width : String → Option ℕ
  pub slice_of : ℤ → ℤ → ℤ → ℤ
  pub bit_of : ℤ → ℤ → ℤ
  pub index_of : Value → ℤ → Option ℤ
  pub concat_of : List (ℤ × ℤ) → ℤ
  pub clz_of : ℕ → ℤ → ℤ
  pub ctz_of : ℕ → ℤ → ℤ
  pub popcount_of : ℕ → ℤ → ℤ
  pub sext_of : ℕ → ℕ → ℤ → ℤ
  pub truncate : String → ℤ → ℤ
  pub splice : String → Value → ℤ → ℤ → ℤ → Value
  pub store : String → Value → ℤ → ℤ → Value

unfoldable pub apply_unary : UnaryOp → ℤ → ℤ
apply_unary invert a = not_ℤ a
apply_unary lnot a = of_bool (not (truthy a))
apply_unary negate a = pos 0 -ℤ a

unfoldable pub apply_compare : CompareOp → ℤ → ℤ → ℤ
apply_compare eq a b = of_bool (eq_ℤ a b)
apply_compare ne a b = of_bool (not (eq_ℤ a b))
apply_compare lt a b = of_bool (lt_ℤ a b)
apply_compare gt a b = of_bool (lt_ℤ b a)
apply_compare le a b = of_bool (not (lt_ℤ b a))
apply_compare ge a b = of_bool (not (lt_ℤ a b))

abbrev pub all_truthy : List ℤ → Bool
all_truthy [] = true
all_truthy (z ∷ zs) = truthy z && all_truthy zs

abbrev pub any_truthy : List ℤ → Bool
any_truthy [] = false
any_truthy (z ∷ zs) = truthy z || any_truthy zs

unfoldable pub apply_bool : BoolOp → List ℤ → ℤ
apply_bool land zs = of_bool (all_truthy zs)
apply_bool lor zs = of_bool (any_truthy zs)

-- The binary operators over unbounded integers; a negative shift count has no value.
unfoldable pub apply_binary : Target → BinaryOp → ℤ → ℤ → Option ℤ
apply_binary t plus a b = some (a +ℤ b)
apply_binary t minus a b = some (a -ℤ b)
apply_binary t times a b = some (a *ℤ b)
apply_binary t band a b = some (and_ℤ a b)
apply_binary t bor a b = some (or_ℤ a b)
apply_binary t bxor a b = some (xor_ℤ a b)
apply_binary t shl a b = shl_ℤ a b
apply_binary t shr a b = shr_ℤ a b
apply_binary t op a b = t.rest op a b
