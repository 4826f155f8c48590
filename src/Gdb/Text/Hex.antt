-- ===== src/Gdb/Text/Hex.antt =====
-- Hexadecimal digits read back.
use veripy.Base.{
  ℕ, ◌+◌, ◌*◌, ◌/◌, ◌%◌, ◌≡◌, ◌<◌, refl, false, List, [], ◌∷◌, some, length, All, arith,
}
use veripy.Gdb.Text.{hex_digit, to_hex, hex_value, is_space, from_hex}

hex_value-hex_digit : (d : ℕ) → d < 16 → hex_value (hex_digit d) ≡ some d
hex_value-hex_digit d lt = ground arith

is_space-hex_digit : (d : ℕ) → d < 16 → is_space (hex_digit d) ≡ false
is_space-hex_digit d lt = ground arith

abbrev pub IsByte : ℕ → Type 0
IsByte b = b < 256

-- The digits of bytes are the bytes again.
pub from_hex-to_hex : (bs : List ℕ) → All IsByte bs → from_hex (to_hex bs) ≡ some bs
from_hex-to_hex [] h = refl
from_hex-to_hex (b ∷ bs) h =
    let hi = hex_value-hex_digit (b / 16) (omega (arith, h.0)) in
    let lo = hex_value-hex_digit (b % 16) (omega arith) in
    let sp = is_space-hex_digit (b / 16) (omega (arith, h.0)) in
    let whole : b / 16 * 16 + b % 16 ≡ b = omega arith in
    rw sp (rw hi (rw lo (rw whole (rw (from_hex-to_hex bs h.1) refl))))

pub length-to_hex : (bs : List ℕ) → length (to_hex bs) ≡ length bs * 2
length-to_hex [] = omega arith
length-to_hex (b ∷ bs) = omega (arith, length-to_hex bs)
