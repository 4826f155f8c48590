-- ===== src/Gdb/Packet.antt =====
-- The framing of packets.
use mathlib.Core.List.{append_assoc}
use veripy.Base.{
  ℕ, suc, ◌+◌, ◌-◌, ◌%◌, ◌≡◌, ap, ◌∙◌, false, [], ◌∷◌, ◌++◌, Option, some, none, ltb, if◌then◌else◌,
  length, take, count, arith, length-append, take-append,
}
use veripy.Gdb.Text.{Text, hex_byte, find, find_from, slice_text}

-- `sum(ord(c) for c in data)`
abbrev pub sum_codes : Text → ℕ
sum_codes [] = 0
sum_codes (c ∷ cs) = c + sum_codes cs

abbrev pub checksum : Text → Text
checksum content = hex_byte (sum_codes content % 256)

-- `$`, the content, `#` and the checksum.
abbrev pub encode : Text → Text
encode content = 36 ∷ (content ++ (35 ∷ checksum content))

abbrev pub decode_between : Text → ℕ → Option ℕ → Option Text
decode_between s start none = none
decode_between s start (some end_) =
    if ltb (length s) (end_ + 2) then none else some (slice_text s (start + 1) end_)

abbrev pub decode_from : Text → Option ℕ → Option Text
decode_from s none = none
decode_from s (some start) = decode_between s start (find_from 35 (start + 1) s)

unfoldable pub decode : Text → Option Text
decode s = decode_from s (find 36 s)

pub find-append :
    (c : ℕ) (xs ys : Text) → count c xs ≡ 0 → find c (xs ++ (c ∷ ys)) ≡ some (length xs)
find-append c [] ys h = ground arith
find-append c (x ∷ xs) ys h = let ih = find-append c xs ys (ground arith) in ground (arith, ih)

-- The place of the `#` in a packet.
pub end_of :
    (content more : Text)
    → count 35 content ≡ 0
    → find_from 35 1 (36 ∷ (content ++ (35 ∷ more))) ≡ some (suc (length content))
end_of content more h = rw (find-append 35 content more h) (ap some (omega arith))

decode_whole :
    (content more : Text)
    → count 35 content ≡ 0
    → decode_between
        (36 ∷ (content ++ (35 ∷ (checksum content ++ more))))
        0
        (some (suc (length content)))
      ≡ some content
decode_whole content more h =
    let whole = content ++ (35 ∷ (checksum content ++ more)) in
    let long : ltb (suc (length whole)) (suc (length content) + 2) ≡ false =
      ground (arith, length-append content (35 ∷ (checksum content ++ more))) in
    rw long (
      ap some (
        ap (λ k. take k whole) {x = suc (length content) - 1} (omega arith)
        ∙ take-append content (35 ∷ (checksum content ++ more))))

-- A packet, alone or with more text behind it, decodes to its content, where that has no `#`.
pub decode-encode :
    (content more : Text) → count 35 content ≡ 0 → decode (encode content ++ more) ≡ some content
unfolding decode
decode-encode content more h = rw (append_assoc content (35 ∷ checksum content) more) (
    ap (decode_between (36 ∷ (content ++ (35 ∷ (checksum content ++ more)))) 0)
      (end_of content (checksum content ++ more) h)
    ∙ decode_whole content more h)
