-- ===== src/Gdb/Text.antt =====
-- The text functions of Python that veripy/gdb_stub.py calls, on codes below 128: hexadecimal digits,
-- `bytes.hex`, `bytes.fromhex`, `int(text, 16)`, `find` and `split`. `none` is the ValueError, or the
-- -1 of `find`.
pub mod Hex
use veripy.Base.{
  ℕ, zero, suc, ◌+◌, ◌-◌, ◌*◌, ◌/◌, ◌%◌, ◌^◌, Bool, true, false, ◌&&◌, ◌||◌, not, List, [], ◌∷◌,
  ◌++◌, Option, some, none, ◌>>=◌, ltb, leb, ◌==◌, if◌then◌else◌, take, drop,
}
use veripy.Base.Int.{ℤ, pos, negsuc}

abbrev pub Text : Type 0
Text = List ℕ

-- `text == other`
abbrev pub same_text : Text → Text → Bool
same_text [] [] = true
same_text [] (y ∷ ys) = false
same_text (x ∷ xs) [] = false
same_text (x ∷ xs) (y ∷ ys) = (x == y) && same_text xs ys

abbrev pub hex_digit : ℕ → ℕ
hex_digit d = if ltb d 10 then 48 + d else 87 + d

-- A byte in two digits.
abbrev pub hex_byte : ℕ → Text
hex_byte b = hex_digit (b / 16) ∷ hex_digit (b % 16) ∷ []

-- `bytes.hex()`
abbrev pub to_hex : List ℕ → Text
to_hex [] = []
to_hex (b ∷ bs) = hex_digit (b / 16) ∷ hex_digit (b % 16) ∷ to_hex bs

abbrev pub hex_value : ℕ → Option ℕ
hex_value c =
    if leb 48 c && leb c 57
    then some (c - 48)
    else (if leb 97 c && leb c 102
        then some (c - 87)
        else (if leb 65 c && leb c 70 then some (c - 55) else none))

abbrev pub is_space : ℕ → Bool
is_space c = (leb 9 c && leb c 13) || (c == 32)

-- Between two bytes, behind the first digit of one, or broken off.
pub data HexState : Type 0 where
  between : HexState
  half : ℕ → HexState
  broken : HexState

abbrev high_digit : Option ℕ → HexState × List ℕ
high_digit none = (broken, [])
high_digit (some d) = (half d, [])

abbrev low_digit : ℕ → Option ℕ → HexState × List ℕ
low_digit h none = (broken, [])
low_digit h (some d) = (between, (h * 16 + d) ∷ [])

abbrev pub hex_step : HexState → ℕ → HexState × List ℕ
hex_step between c = if is_space c then (between, []) else high_digit (hex_value c)
hex_step (half h) c = low_digit h (hex_value c)
hex_step broken c = (broken, [])

abbrev pub hex_end : HexState → Option (List ℕ)
hex_end between = some []
hex_end _ = none

abbrev pub from_hex_state : HexState → Text → Option (List ℕ)
from_hex_state st [] = hex_end st
from_hex_state st (c ∷ cs) =
    from_hex_state (hex_step st c).0 cs >>= λ bs. some ((hex_step st c).1 ++ bs)

-- `bytes.fromhex(text)`
abbrev pub from_hex : Text → Option (List ℕ)
from_hex text = from_hex_state between text

-- The spaces that `int` takes off.
abbrev strips : ℕ → Bool
strips c = is_space c || (leb 28 c && leb c 31)

abbrev pub lstrip : Text → Text
lstrip [] = []
lstrip (c ∷ cs) = if strips c then lstrip cs else c ∷ cs

abbrev is_nil : Text → Bool
is_nil [] = true
is_nil (c ∷ cs) = false

abbrev pub rstrip : Text → Text
rstrip [] = []
rstrip (c ∷ cs) = let rest = rstrip cs in if strips c && is_nil rest then [] else c ∷ rest

-- A digit behind `acc`, or an underscore between two digits; `under` is a text that may not end.
abbrev digit_step : ℕ → Bool → ℕ → Option (ℕ × Bool)
digit_step acc under c =
    if c == 95
    then (if under then none else some (acc, true))
    else (hex_value c >>= λ d. some (acc * 16 + d, false))

abbrev pub digits_from : ℕ → Bool → Text → Option ℕ
digits_from acc under [] = if under then none else some acc
digits_from acc under (c ∷ cs) = digit_step acc under c >>= λ p. digits_from p.0 p.1 cs

abbrev drop_underscore : Text → Text
drop_underscore [] = []
drop_underscore (c ∷ cs) = if c == 95 then cs else c ∷ cs

-- `0x`, and an underscore behind it.
abbrev drop_prefix : Text → Text
drop_prefix (z ∷ x ∷ cs) =
    if (z == 48) && ((x == 120) || (x == 88)) then drop_underscore cs else z ∷ x ∷ cs
drop_prefix cs = cs

abbrev magnitude : Text → Option ℕ
magnitude cs = digits_from 0 true (drop_prefix cs)

abbrev negative : ℕ → ℤ
negative zero = pos 0
negative (suc n) = negsuc n

abbrev signed : Text → Option ℤ
signed [] = none
signed (c ∷ cs) =
    if c == 45
    then (magnitude cs >>= λ n. some (negative n))
    else ((if c == 43 then magnitude cs else magnitude (c ∷ cs)) >>= λ n. some (pos n))

-- `int(text, 16)`
unfoldable pub int_16 : Text → Option ℤ
int_16 text = signed (rstrip (lstrip text))

abbrev pub find : ℕ → Text → Option ℕ
find c [] = none
find c (x ∷ xs) = let rest = find c xs in if x == c then some 0 else (rest >>= λ i. some (suc i))

-- `text.find(c, start)`
abbrev pub find_from : ℕ → ℕ → Text → Option ℕ
find_from c start xs = find c (drop start xs) >>= λ i. some (start + i)

-- `text[start:end]`
abbrev pub slice_text : Text → ℕ → ℕ → Text
slice_text xs start end_ = take (end_ - start) (drop start xs)

-- `text.split(c, 1)`, where it has two parts.
abbrev pub split_at : ℕ → Text → Option (Text × Text)
split_at c [] = none
split_at c (x ∷ xs) =
    let rest = split_at c xs in
    if x == c then some ([], xs) else (rest >>= λ p. some (x ∷ p.0, p.1))
