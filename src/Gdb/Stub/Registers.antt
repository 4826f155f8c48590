-- ===== src/Gdb/Stub/Registers.antt =====
-- The register commands: what `g` reads, `G` writes back.
use native.Mathlib.Nat.{pow-suc}
use veripy.Base.{
  ℕ, zero, suc, ◌*◌, ◌/◌, ◌^◌, ◌≡◌, ◌<◌, refl, sym, ap, ◌∙◌, false, List, [], ◌∷◌, ◌++◌, some, ltb,
  lt→ltb, length, length-append, take, drop, take-append, drop-append, All, arith,
}
use veripy.Soc.{little_endian}
use veripy.Gdb.Text.{Text, to_hex}
use veripy.Gdb.Text.Hex.{IsByte, from_hex-to_hex, length-to_hex}
use veripy.Gdb.Bus.{bytes_of, to_bytes, hex_regs, parse_regs}
use veripy.Gdb.Stub.{
  CpuInterface, Machine, reply, ok, read_regs, write_regs, set_all, reply_or_raise,
}

bytes_of-IsByte : (w n : ℕ) → All IsByte (bytes_of w n)
bytes_of-IsByte zero n = tt
bytes_of-IsByte (suc w) n = (omega arith, bytes_of-IsByte w (n / 256))

length-bytes_of : (w n : ℕ) → length (bytes_of w n) ≡ w
length-bytes_of zero n = refl
length-bytes_of (suc w) n = ap suc (length-bytes_of w (n / 256))

little_endian-bytes_of : (w n : ℕ) → n < 256 ^ w → little_endian (bytes_of w n) ≡ n
little_endian-bytes_of zero n h = omega arith
little_endian-bytes_of (suc w) n h =
    let ih = little_endian-bytes_of w (n / 256) (omega (arith, h, pow-suc 256 w)) in omega arith

module _ (w : ℕ) (wide : 0 < w) where
  abbrev Fits : ℕ → Type 0
  Fits r = r < 256 ^ w

  abbrev text_of : List ℕ → Text
  text_of [] = []
  text_of (r ∷ rs) = to_hex (bytes_of w r) ++ text_of rs

  hex_regs-text_of : (regs : List ℕ) → All Fits regs → hex_regs w regs ≡ some (text_of regs)
  unfolding hex_regs to_bytes
  hex_regs-text_of [] h = refl
  hex_regs-text_of (r ∷ rs) h = rw (lt→ltb r (256 ^ w) h.0) (rw (hex_regs-text_of rs h.1) refl)

  parse_regs-text_of :
      (fuel : ℕ) (regs : List ℕ)
      → All Fits regs
      → length regs < fuel
      → parse_regs fuel w (text_of regs) ≡ some regs
  unfolding parse_regs
  parse_regs-text_of zero regs h le = absurd (omega arith)
  parse_regs-text_of (suc fuel) [] h le = rw (lt→ltb 0 (w * 2) (omega arith)) refl
  parse_regs-text_of (suc fuel) (r ∷ rs) h le =
      let digits = to_hex (bytes_of w r) in
      let len : length digits ≡ w * 2 =
        omega (arith, length-to_hex (bytes_of w r), length-bytes_of w r) in
      let first : take (w * 2) (digits ++ text_of rs) ≡ digits =
        ap (λ k. take k (digits ++ text_of rs)) (sym len) ∙ take-append digits (text_of rs) in
      let later : drop (w * 2) (digits ++ text_of rs) ≡ text_of rs =
        ap (λ k. drop k (digits ++ text_of rs)) (sym len) ∙ drop-append digits (text_of rs) in
      let long : ltb (length (digits ++ text_of rs)) (w * 2) ≡ false =
        ground (arith, length-append digits (text_of rs), len) in
      rw long (
        rw first (
          rw (from_hex-to_hex (bytes_of w r) (bytes_of-IsByte w r)) (
            rw later (
              rw (parse_regs-text_of fuel rs h.1 (omega arith))
                (ap (λ k. some (k ∷ rs)) (little_endian-bytes_of w r h.0))))))

  length-text_of : (regs : List ℕ) → length (text_of regs) ≡ length regs * (w * 2)
  length-text_of [] = omega arith
  length-text_of (r ∷ rs) =
      let digits = to_hex (bytes_of w r) in
      let len : length digits ≡ w * 2 =
        omega (arith, length-to_hex (bytes_of w r), length-bytes_of w r) in
      grind (arith, length-append digits (text_of rs), length-text_of rs)

  enough : (n k : ℕ) → 0 < k → suc n < suc n * (k * 2)
  enough n zero h = absurd (omega arith)
  enough n (suc k) h = grind arith

  parse-text_of :
      (regs : List ℕ)
      → All Fits regs
      → parse_regs (length (text_of regs)) w (text_of regs) ≡ some regs
  unfolding parse_regs
  parse-text_of [] h = refl
  parse-text_of (r ∷ rs) h =
      parse_regs-text_of (length (text_of (r ∷ rs))) (r ∷ rs) h
        (omega (arith, length-text_of (r ∷ rs), enough (length rs) w wide))

  -- Where the registers fit in their width, g is answered by a text that holds them all: the G
  -- command with it puts the same registers back, and is answered by OK.
  pub write_regs-read_regs :
      {S : Type 0} (cpu : CpuInterface S) (m : Machine S)
      → All Fits (cpu.get_regs m.state)
      → (text : Text) × (read_regs cpu w m ≡ reply text)
        × (write_regs cpu w m text
            ≡ (record m { state = cpu.set_regs (cpu.get_regs m.state) m.state }, reply ok))
  unfolding write_regs
  write_regs-read_regs cpu m h =
      let regs = cpu.get_regs m.state in
      (
        text_of regs,
        ap reply_or_raise (hex_regs-text_of regs h),
        ap (set_all cpu w m) (parse-text_of regs h),
      )
