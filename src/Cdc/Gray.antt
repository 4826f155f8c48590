-- ===== src/Cdc/Gray.antt =====
-- The gray code of the pointers of `AsyncFIFO` in veripy/cdc.py.
use Prim.Native.Nat.{digits, differ, bit_xor-bitwise}
use native.Mathlib.Nat.{pow-suc}
use veripy.Base.Bits.{differ-lt}
use veripy.Base.{
  ℕ, zero, suc, ◌+◌, ◌*◌, ◌/◌, ◌%◌, ◌^◌, ◌≤◌, ◌<◌, ◌≡◌, refl, sym, ap, ap₂, ◌∙◌, bit_xor, arith,
}

-- `p ^ (p >> 1)`
unfoldable pub gray : ℕ → ℕ
gray p = bit_xor p (p / 2)

module _ (z : ℕ → ℕ) (f : ℕ → ℕ → ℕ) where
  -- More rounds than the first number do not matter.
  digits-enough : (n m a b : ℕ) → a ≤ n → a ≤ m → digits z f n a b ≡ digits z f m a b
  digits-enough zero zero a b p q = refl
  digits-enough zero (suc m) zero b p q = refl
  digits-enough zero (suc m) (suc a) b p q = absurd (omega arith)
  digits-enough (suc n) zero zero b p q = refl
  digits-enough (suc n) zero (suc a) b p q = absurd (omega arith)
  digits-enough (suc n) (suc m) zero b p q = refl
  digits-enough (suc n) (suc m) (suc a) b p q =
      ap (λ k. k * 2 + f (suc a % 2) (b % 2))
        (digits-enough n m (suc a / 2) (b / 2) (omega arith) (omega arith))

-- Exclusive or by its lowest digit.
bit_xor-step : (a b : ℕ) → bit_xor a b ≡ bit_xor (a / 2) (b / 2) * 2 + differ (a % 2) (b % 2)
bit_xor-step zero b = omega (arith, bit_xor-bitwise 0 b, bit_xor-bitwise 0 (b / 2))
bit_xor-step (suc a) b =
    bit_xor-bitwise (suc a) b
    ∙ ap (λ k. k * 2 + differ (suc a % 2) (b % 2))
        (digits-enough (λ b. b) differ a (suc a / 2) (suc a / 2) (b / 2) (omega arith) (omega arith)
          ∙ sym (bit_xor-bitwise (suc a / 2) (b / 2)))

differ_self : (x : ℕ) → differ x x ≡ 0
differ_self zero = refl
differ_self (suc x) = differ_self x

gray-half : (a : ℕ) → gray a / 2 ≡ gray (a / 2)
unfolding gray
gray-half a =
    omega (arith, bit_xor-step a (a / 2), differ-lt (a % 2) (a / 2 % 2) (omega arith) (omega arith))

gray-low : (a : ℕ) → gray a % 2 ≡ differ (a % 2) (a / 2 % 2)
unfolding gray
gray-low a =
    omega (arith, bit_xor-step a (a / 2), differ-lt (a % 2) (a / 2 % 2) (omega arith) (omega arith))

-- Two numbers with the same two lowest digits have the same lowest gray digit.
xor-halves :
    (a b t : ℕ)
    → gray a % 2 ≡ gray b % 2
    → bit_xor (gray (a / 2)) (gray (b / 2)) ≡ t
    → bit_xor (gray a) (gray b) ≡ t * 2
xor-halves a b t low h =
    bit_xor-step (gray a) (gray b)
    ∙ (ap₂ (λ u v. u * 2 + v) (ap₂ bit_xor (gray-half a) (gray-half b) ∙ h)
          (ap (λ x. differ x (gray b % 2)) low ∙ differ_self (gray b % 2))
        ∙ omega arith)

same_low : (a b : ℕ) → a % 2 ≡ b % 2 → a / 2 % 2 ≡ b / 2 % 2 → gray a % 2 ≡ gray b % 2
same_low a b p q = gray-low a ∙ (ap₂ differ p q ∙ sym (gray-low b))

-- Two pointers that are half their range apart have gray codes that differ in the two highest bits.
pub gray-apart :
    (k a : ℕ)
    → a < 2 ^ suc k
    → (bit_xor (gray a) (gray (a + 2 ^ suc k)) ≡ 3 * 2 ^ k)
      × (bit_xor (gray (a + 2 ^ suc k)) (gray a) ≡ 3 * 2 ^ k)
unfolding gray
gray-apart zero zero h = (refl, refl)
gray-apart zero (suc zero) h = (refl, refl)
gray-apart zero (suc (suc a)) h = absurd (omega arith)
gray-apart (suc k) a h =
    let b = a + 2 ^ suc (suc k) in
    let half : b / 2 ≡ a / 2 + 2 ^ suc k = omega (arith, pow-suc 2 (suc k)) in
    let ih = gray-apart k (a / 2) (omega (arith, pow-suc 2 (suc k))) in
    let low =
      same_low a b (omega (arith, pow-suc 2 (suc k)))
        (omega (arith, pow-suc 2 (suc k), pow-suc 2 k)) in
    let apart = ap (λ c. bit_xor (gray (a / 2)) (gray c)) half ∙ ih.0 in
    let apart' = ap (λ c. bit_xor (gray c) (gray (a / 2))) half ∙ ih.1 in
    let twice : 3 * 2 ^ k * 2 ≡ 3 * 2 ^ suc k = omega (arith, pow-suc 2 k) in
    (
      xor-halves a b (3 * 2 ^ k) low apart ∙ twice,
      xor-halves b a (3 * 2 ^ k) (sym low) apart' ∙ twice,
    )
