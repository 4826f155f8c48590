-- ===== src/Signal/BitCount/Zeros.antt =====
-- What the counts of zeros say of a number.
use native.Mathlib.Nat.{
  div-add-mod, pow-suc, mod-eq_of_lt, div-lt_iff_lt-mul, div-eq_of_lt, mul_assoc, mul-mod_right,
}
use native.Mathlib.Decide.{dec_lt}
use veripy.Base.{
  ℕ, zero, suc, ◌+◌, ◌-◌, ◌*◌, ◌/◌, ◌%◌, ◌^◌, ◌<◌, ◌≤◌, ◌≡◌, ◌≢◌, sym, ap, ◌∙◌, true, false,
  Bool-cases, inl, inr, ◌==◌, ==_iff, arith,
}
use veripy.Base.Bits.{pow_pos}
use veripy.Signal.BitCount.{bit_set, clz_from, clz, ctz_from, ctz}

-- The bit above the others tells whether they reach it.
low_bit : (v p : ℕ) → 0 < p → v < p * 2 → v / p % 2 ≢ 1 → v < p
low_bit v p pos lt odd =
    let two : v / p < 2 = (div-lt_iff_lt-mul pos).1 (omega arith) in
    let low : v < 1 * p = (div-lt_iff_lt-mul pos).0 (omega arith) in omega arith

high_bit : (v p : ℕ) → v / p % 2 ≡ 1 → p ≤ v
high_bit v p odd = elim (dec_lt v p) [
  | yes lt ↦ omega (arith, div-eq_of_lt lt)
  | no le ↦ omega arith
]

is_odd : (v i : ℕ) → bit_set v i ≡ true → v / 2 ^ i % 2 ≡ 1
is_odd v i e = (==_iff (v / 2 ^ i % 2) 1).0 e

not_odd : (v i : ℕ) → bit_set v i ≡ false → v / 2 ^ i % 2 ≢ 1
not_odd v i e h = absurd (grind (arith, ==_iff (v / 2 ^ i % 2) 1))

not-zero : (v : ℕ) → v ≢ 0 → (v == 0) ≡ false
not-zero v ne = elim (Bool-cases (v == 0)) [ inl e ↦ absurd (ne ((==_iff v 0).0 e)) | inr e ↦ e ]

clz_from-bounds :
    (w v i : ℕ)
    → i ≤ w
    → v ≢ 0
    → v < 2 ^ i
    → (clz_from w v i < w) × (2 ^ (w - 1 - clz_from w v i) ≤ v) × (v < 2 ^ (w - clz_from w v i))
unfolding clz_from
clz_from-bounds w v zero le ne lt = absurd (omega arith)
clz_from-bounds w v (suc i) le ne lt = elim (Bool-cases (bit_set v i)) [
  | inl e ↦
      let h : 2 ^ i ≤ v = high_bit v (2 ^ i) (is_odd v i e) in
      let e1 : w - 1 - (w - 1 - i) ≡ i = omega arith in
      let e2 : w - (w - 1 - i) ≡ suc i = omega arith in rw (e, e1, e2) (omega arith, h, lt)
  | inr e ↦ rw e (
      clz_from-bounds w v i (omega arith) ne
        (low_bit v (2 ^ i) (pow_pos i) (omega (arith, pow-suc 2 i)) (not_odd v i e)))
]

-- For a number that is not zero and fits in the width, `clz` is below the width, and the highest bit
-- of the number is the one that `clz` bits stand above.
pub clz-highest :
    (w v : ℕ)
    → v ≢ 0
    → v < 2 ^ w
    → (clz w v < w) × (2 ^ (w - 1 - clz w v) ≤ v) × (v < 2 ^ (w - clz w v))
unfolding clz
clz-highest w v ne lt =
    let e : (v == 0) ≡ false = not-zero v ne in rw e (clz_from-bounds w v w (omega arith) ne lt)

-- A multiple of a power of two whose next bit is not set is one of the next power.
next-multiple : (v i : ℕ) → v % 2 ^ i ≡ 0 → v / 2 ^ i % 2 ≢ 1 → v % 2 ^ (i + 1) ≡ 0
next-multiple v i low even =
    let p = 2 ^ i in
    let q = v / p in
    let h = q / 2 in
    let double : 2 ^ (i + 1) ≡ p * 2 = ap (λ x. 2 ^ x) (omega arith) ∙ pow-suc 2 i in
    let split : v ≡ p * q = omega (arith, div-add-mod v p, low) in
    let half : q ≡ 2 * h = omega arith in
    let e : v ≡ p * 2 * h = split ∙ (ap (λ x. p * x) half ∙ sym (mul_assoc p 2 h)) in
    ap (λ m. v % m) double ∙ (ap (λ x. x % (p * 2)) e ∙ mul-mod_right (p * 2) h)

ctz_from-bounds :
    (w v i n : ℕ)
    → i + n ≡ w
    → v ≢ 0
    → v < 2 ^ w
    → v % 2 ^ i ≡ 0
    → (ctz_from w v i n < w) × (v % 2 ^ ctz_from w v i n ≡ 0) × (v / 2 ^ ctz_from w v i n % 2 ≡ 1)
unfolding ctz_from
ctz_from-bounds w v i zero e ne lt low =
    let same : i ≡ w = omega arith in
    absurd (ne (sym (mod-eq_of_lt lt) ∙ (ap (λ x. v % 2 ^ x) (sym same) ∙ low)))
ctz_from-bounds w v i (suc n) e ne lt low = elim (Bool-cases (bit_set v i)) [
  | inl b ↦ rw b (omega arith, low, is_odd v i b)
  | inr b ↦
      rw b
        (ctz_from-bounds w v (i + 1) n (omega arith) ne lt (next-multiple v i low (not_odd v i b)))
]

-- For a number that is not zero and fits in the width, `ctz` is below the width, so many low bits of
-- the number are zero, and the next one is set.
pub ctz-lowest :
    (w v : ℕ)
    → v ≢ 0
    → v < 2 ^ w
    → (ctz w v < w) × (v % 2 ^ ctz w v ≡ 0) × (v / 2 ^ ctz w v % 2 ≡ 1)
unfolding ctz
ctz-lowest w v ne lt =
    let e : (v == 0) ≡ false = not-zero v ne in
    rw e (ctz_from-bounds w v 0 w (omega arith) ne lt (omega arith))
