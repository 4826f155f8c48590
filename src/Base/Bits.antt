-- ===== src/Base/Bits.antt =====
-- A mask of k ones: `x & ((1 << k) - 1)` is `x % 2 ** k`, at every width.
use Prim.Native.Nat.{
  ℕ, zero, suc, ◌+◌, ◌-◌, ◌*◌, ◌/◌, ◌%◌, ◌^◌, ◌≤◌, ◌<◌, min, max, bit_and, bit_or, digits, differ,
  bit_and-bitwise, bit_or-bitwise,
}
use mathlib.Core.Path.{◌≡◌, refl, ap, ◌∙◌}
use native.Mathlib.Omega.{arith}
use native.Mathlib.Nat.{pow-suc, div-add-mod, mod-eq_of_lt}

pub pow_pos : (k : ℕ) → 0 < 2 ^ k
pow_pos zero = omega arith
pow_pos (suc k) = omega (arith, pow_pos k, pow-suc 2 k)

-- The lowest digit of a remainder by an even number.
mod-double : (x p : ℕ) → 0 < p → x % (p * 2) ≡ x / 2 % p * 2 + x % 2
mod-double x p h = grind (arith, div-add-mod (x / 2) p)

-- Halving a mask drops one of its ones.
mask-half : (k : ℕ) → (2 ^ suc k - 1) / 2 ≡ 2 ^ k - 1
mask-half k = omega (arith, pow_pos k, pow-suc 2 k)

mask-odd : (k : ℕ) → (2 ^ suc k - 1) % 2 ≡ 1
mask-odd k = omega (arith, pow_pos k, pow-suc 2 k)

mod-step : (k x : ℕ) → x % 2 ^ suc k ≡ x / 2 % 2 ^ k * 2 + x % 2
mod-step k x = rw (pow-suc 2 k) (mod-double x (2 ^ k) (pow_pos k))

-- The digits of a masked number, by the recursion that the native conjunction stands for. As many
-- rounds as the number are enough.
low_digits : (rounds k x : ℕ) → x ≤ rounds → digits (λ _. zero) min rounds x (2 ^ k - 1) ≡ x % 2 ^ k
low_digits zero k zero h = omega arith
low_digits zero k (suc x) h = absurd (omega arith)
low_digits (suc r) k zero h = omega arith
low_digits (suc r) zero (suc x) h = omega (arith, low_digits r zero (suc x / 2) (omega arith))
low_digits (suc r) (suc k) (suc x) h =
    rw (mask-half k, mask-odd k, low_digits r k (suc x / 2) (omega arith))
      (omega (arith, mod-step k (suc x)))

pub bit_and-mask : (k x : ℕ) → bit_and x (2 ^ k - 1) ≡ x % 2 ^ k
bit_and-mask k x = bit_and-bitwise x (2 ^ k - 1) ∙ low_digits x k x (omega arith)

-- Where the low digits of `x` are zero and `y` has no others, a disjunction is a sum.
joined_digits :
    (rounds k x y : ℕ)
    → x ≤ rounds
    → x % 2 ^ k ≡ 0
    → y < 2 ^ k
    → digits (λ b. b) max rounds x y ≡ x + y
joined_digits zero k zero y h p q = omega arith
joined_digits zero k (suc x) y h p q = absurd (omega arith)
joined_digits (suc r) k zero y h p q = omega arith
joined_digits (suc r) zero (suc x) y h p q =
    ground
      (arith, joined_digits r zero (suc x / 2) (y / 2) (omega arith) (omega arith) (omega arith))
joined_digits (suc r) (suc k) (suc x) y h p q =
    ground (arith, pow-suc 2 k, mod-step k (suc x), joined_digits r k (suc x / 2) (y / 2))

-- `x | y`, of fields that do not overlap.
pub bit_or-disjoint : (k x y : ℕ) → x % 2 ^ k ≡ 0 → y < 2 ^ k → bit_or x y ≡ x + y
bit_or-disjoint k x y p q = bit_or-bitwise x y ∙ joined_digits x k x y (omega arith) p q

-- A mask of n ones above k zeros keeps a number that has no other digits.
double_pow : (a k : ℕ) → a * 2 ^ suc k ≡ a * 2 ^ k * 2
double_pow a k = omega (arith, ap (λ (t : ℕ). a * t) (pow-suc 2 k))

raised-half : (a k : ℕ) → a * 2 ^ suc k / 2 ≡ a * 2 ^ k
raised-half a k = omega (arith, double_pow a k)

raised-even : (a k : ℕ) → a * 2 ^ suc k % 2 ≡ 0
raised-even a k = omega (arith, double_pow a k)

times_one : (a : ℕ) → a * 2 ^ 0 ≡ a
times_one a = omega arith

high_digits :
    (rounds n k x : ℕ)
    → x ≤ rounds
    → x % 2 ^ k ≡ 0
    → x < 2 ^ n * 2 ^ k
    → digits (λ _. zero) min rounds x ((2 ^ n - 1) * 2 ^ k) ≡ x
high_digits zero n k zero h p q = refl
high_digits zero n k (suc x) h p q = absurd (omega arith)
high_digits (suc r) n k zero h p q = refl
high_digits (suc r) n zero (suc x) h p q =
    rw (times_one (2 ^ n - 1)) (low_digits (suc r) n (suc x) h ∙ mod-eq_of_lt (omega arith))
high_digits (suc r) n (suc k) (suc x) h p q =
    rw
      (
        raised-half (2 ^ n - 1) k,
        raised-even (2 ^ n - 1) k,
        high_digits r n k (suc x / 2) (omega arith) (omega (arith, mod-step k (suc x), pow_pos k))
            (omega (arith, double_pow (2 ^ n) k)),
      )
      (omega (arith, mod-step k (suc x)))

pub bit_and-high :
    (n k x : ℕ) → x % 2 ^ k ≡ 0 → x < 2 ^ n * 2 ^ k → bit_and x ((2 ^ n - 1) * 2 ^ k) ≡ x
bit_and-high n k x p q =
    bit_and-bitwise x ((2 ^ n - 1) * 2 ^ k) ∙ high_digits x n k x (omega arith) p q

-- `n.bit_length()`: n halvings are enough to reach zero.
bit_length_fuel : ℕ → ℕ → ℕ
bit_length_fuel zero n = 0
bit_length_fuel (suc f) zero = 0
bit_length_fuel (suc f) (suc n) = suc (bit_length_fuel f (suc n / 2))

unfoldable pub bit_length : ℕ → ℕ
unfolding bit_length_fuel
bit_length n = bit_length_fuel n n

lt-bit_length_fuel : (f n : ℕ) → n ≤ f → n < 2 ^ bit_length_fuel f n
unfolding bit_length_fuel
lt-bit_length_fuel zero zero h = omega arith
lt-bit_length_fuel zero (suc n) h = absurd (omega arith)
lt-bit_length_fuel (suc f) zero h = omega arith
lt-bit_length_fuel (suc f) (suc n) h =
    let m = suc n / 2 in
    omega (arith, lt-bit_length_fuel f m (omega arith), pow-suc 2 (bit_length_fuel f m))

-- A number fits in as many bits as it has.
pub lt-bit_length : (n : ℕ) → n < 2 ^ bit_length n
unfolding bit_length
lt-bit_length n = lt-bit_length_fuel n n (omega arith)

bit_length_fuel-mask : (f k : ℕ) → 2 ^ k - 1 ≤ f → bit_length_fuel f (2 ^ k - 1) ≡ k
unfolding bit_length_fuel
bit_length_fuel-mask zero zero h = refl
bit_length_fuel-mask zero (suc k) h = absurd (omega (arith, pow_pos k, pow-suc 2 k))
bit_length_fuel-mask (suc f) zero h = refl
bit_length_fuel-mask (suc f) (suc k) h =
    let n = 2 ^ suc k - 2 in
    let e : 2 ^ suc k - 1 ≡ suc n = omega (arith, pow_pos k, pow-suc 2 k) in
    let d : suc n / 2 ≡ 2 ^ k - 1 = omega (arith, pow_pos k, pow-suc 2 k) in
    rw (e, d) (ap suc (bit_length_fuel-mask f k (omega (arith, pow_pos k, pow-suc 2 k))))

pub bit_length-mask : (k : ℕ) → bit_length (2 ^ k - 1) ≡ k
unfolding bit_length
bit_length-mask k = bit_length_fuel-mask (2 ^ k - 1) k (omega arith)

-- A register of one bit more than the limit holds every number up to it.
pub mod-bit_length : (t n : ℕ) → n ≤ t → n % 2 ^ (bit_length t + 1) ≡ n
mod-bit_length t n h =
    let b = bit_length t in
    let double : 2 ^ (b + 1) ≡ 2 ^ b * 2 = ap (λ x. 2 ^ x) (omega arith) ∙ pow-suc 2 b in
    mod-eq_of_lt (omega (arith, lt-bit_length t, double))

-- Exclusive or of two binary digits is one.
pub differ-lt : (x y : ℕ) → x < 2 → y < 2 → differ x y < 2
differ-lt zero y p q = q
differ-lt (suc zero) zero p q = p
differ-lt (suc zero) (suc zero) p q = omega arith
differ-lt (suc zero) (suc (suc y)) p q = absurd (omega arith)
differ-lt (suc (suc x)) y p q = absurd (omega arith)

bit_length_fuel-zero : (f : ℕ) → bit_length_fuel f 0 ≡ 0
unfolding bit_length_fuel
bit_length_fuel-zero zero = refl
bit_length_fuel-zero (suc f) = refl

bit_length_fuel-pow : (f k : ℕ) → 2 ^ k ≤ f → bit_length_fuel f (2 ^ k) ≡ suc k
unfolding bit_length_fuel
bit_length_fuel-pow zero k h = absurd (omega (arith, pow_pos k))
bit_length_fuel-pow (suc f) zero h = ap suc (bit_length_fuel-zero f)
bit_length_fuel-pow (suc f) (suc k) h =
    let n = 2 ^ suc k - 1 in
    let e : 2 ^ suc k ≡ suc n = omega (arith, pow_pos k, pow-suc 2 k) in
    let d : suc n / 2 ≡ 2 ^ k = omega (arith, pow_pos k, pow-suc 2 k) in
    rw (e, d) (ap suc (bit_length_fuel-pow f k (omega (arith, pow_pos k, pow-suc 2 k))))

pub bit_length-pow : (k : ℕ) → bit_length (2 ^ k) ≡ suc k
unfolding bit_length
bit_length-pow k = bit_length_fuel-pow (2 ^ k) k (omega arith)
