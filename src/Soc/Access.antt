-- ===== src/Soc/Access.antt =====
-- What a read of memory gives after a write.
use native.Mathlib.Nat.{pow-suc, div-add-mod}
use veripy.Base.{
  ℕ, zero, suc, ◌+◌, ◌-◌, ◌*◌, ◌/◌, ◌%◌, ◌^◌, ◌≤◌, ◌<◌, ◌≡◌, refl, sym, ap, ◌∙◌, Bool, true, false,
  ◌&&◌, ◌||◌, List, [], ◌∷◌, Option, some, none, ◌==◌, if◌then◌else◌, length, take, drop, All,
  Bool-cases, Option-cases, inl, inr, of_some, subst, arith,
}
use veripy.Soc.{
  Region, FlatMemory, within, lookup_region, put_buf, little_endian, read_buf, read_memory, poke,
  write_buf, write_memory,
}

pow_256_pos : (n : ℕ) → 0 < 256 ^ n
pow_256_pos zero = omega arith
pow_256_pos (suc n) = omega (arith, pow_256_pos n, pow-suc 256 n)

mod_256 : (x p : ℕ) → 0 < p → x % (p * 256) ≡ x / 256 % p * 256 + x % 256
mod_256 x p h = grind (arith, div-add-mod (x / 256) p)

mod_256_suc : (n x : ℕ) → x % 256 ^ suc n ≡ x / 256 % 256 ^ n * 256 + x % 256
mod_256_suc n x = rw (pow-suc 256 n) (mod_256 x (256 ^ n) (pow_256_pos n))

poke-value :
    (buf : List ℕ) (off v n : ℕ)
    → off + n ≤ length buf
    → ((poke buf off v n).1 ≡ false)
      × (little_endian (take n (drop off (poke buf off v n).0)) ≡ v % 256 ^ n)
poke-value buf off v zero h = (refl, omega arith)
poke-value [] off v (suc n) h = absurd (omega arith)
poke-value (b ∷ bs) zero v (suc n) h =
    let ih = poke-value bs 0 (v / 256) n (omega arith) in
    (ih.0, omega (arith, ih.1, mod_256_suc n v))
poke-value (b ∷ bs) (suc off) v (suc n) h = poke-value bs off v (suc n) (omega arith)

lookup-put_buf :
    (m : FlatMemory) (addr : ℕ) (buf : List ℕ) (off : ℕ) (changed : List ℕ)
    → lookup_region m addr ≡ some (buf, off)
    → lookup_region (put_buf m addr changed) addr ≡ some (changed, off)
lookup-put_buf [] addr buf off changed h = cc
lookup-put_buf (r ∷ rs) addr buf off changed h =
    elim (Bool-cases (within r.base r.end_exclusive addr)) [
      | inl e ↦
          let h' = rw e at h in
          rw e (rw e (ap (λ (p : List ℕ × ℕ). some (changed, p.1)) (sym (of_some h'))))
      | inr e ↦ let h' = rw e at h in rw e (rw e (lookup-put_buf rs addr buf off changed h'))
    ]

-- A write that ends within the buffer of its region raises nothing, and the same number of bytes
-- read at the address are the value, as far as they hold it.
pub read-write_memory :
    (m : FlatMemory) (addr : ℕ) (buf : List ℕ) (off v n : ℕ)
    → lookup_region m addr ≡ some (buf, off)
    → off + n ≤ length buf
    → ((write_memory m addr v n).1 ≡ false)
      × (read_memory (write_memory m addr v n).0 addr n ≡ v % 256 ^ n)
unfolding read_memory write_memory
read-write_memory m addr buf off v n h le =
    let p = poke-value buf off v n le in
    rw h (p.0, ap (λ o. read_buf o n) (lookup-put_buf m addr buf off (poke buf off v n).0 h) ∙ p.1)

-- A region has a byte for each of its addresses.
abbrev pub IsRegion : Region → Type 0
IsRegion r = r.base + length r.buf ≡ r.end_exclusive

abbrev pub IsMemory : FlatMemory → Type 0
IsMemory m = All IsRegion m

abbrev byte_at : List ℕ → ℕ → ℕ
byte_at buf off = little_endian (take 1 (drop off buf))

byte_at-poke :
    (buf : List ℕ) (off v k : ℕ)
    → off < length buf
    → byte_at (poke buf off v 1).0 k ≡ (if k == off then v % 256 else byte_at buf k)
byte_at-poke [] off v k h = absurd (omega arith)
byte_at-poke (b ∷ bs) zero v zero h = omega arith
byte_at-poke (b ∷ bs) zero v (suc k) h = ground arith
byte_at-poke (b ∷ bs) (suc off) v zero h = ground arith
byte_at-poke (b ∷ bs) (suc off) v (suc k) h = ground (arith, byte_at-poke bs off v k (omega arith))

length-poke : (buf : List ℕ) (off v n : ℕ) → length (poke buf off v n).0 ≡ length buf
length-poke buf off v zero = refl
length-poke [] off v (suc n) = refl
length-poke (b ∷ bs) zero v (suc n) = ap suc (length-poke bs 0 (v / 256) n)
length-poke (b ∷ bs) (suc off) v (suc n) = ap suc (length-poke bs off v (suc n))

-- Some region has the address.
abbrev pub is_mapped : FlatMemory → ℕ → Bool
is_mapped [] addr = false
is_mapped (r ∷ rs) addr = within r.base r.end_exclusive addr || is_mapped rs addr

byte-cons :
    (r : Region) (rs : FlatMemory) (b : ℕ)
    → read_memory (r ∷ rs) b 1
      ≡ (if within r.base r.end_exclusive b then byte_at r.buf (b - r.base) else read_memory rs b 1)
unfolding read_memory
byte-cons r rs b = elim (Bool-cases (within r.base r.end_exclusive b)) [
  | inl e ↦ rw e refl
  | inr e ↦ rw e refl
]

module _ (addr v : ℕ) where
  write_buf-skip :
      (r : Region) (rs : FlatMemory) (o : Option (List ℕ × ℕ))
      → within r.base r.end_exclusive addr ≡ false
      → (write_buf (r ∷ rs) addr o v 1).0 ≡ r ∷ (write_buf rs addr o v 1).0
  write_buf-skip r rs none h = refl
  write_buf-skip r rs (some (buf, off)) h = rw h refl

  write-here :
      (r : Region) (rs : FlatMemory)
      → within r.base r.end_exclusive addr ≡ true
      → (write_memory (r ∷ rs) addr v 1).0
        ≡ record r { buf = (poke r.buf (addr - r.base) v 1).0 } ∷ rs
  unfolding write_memory
  write-here r rs h = rw h (rw h refl)

  write-later :
      (r : Region) (rs : FlatMemory)
      → within r.base r.end_exclusive addr ≡ false
      → (write_memory (r ∷ rs) addr v 1).0 ≡ r ∷ (write_memory rs addr v 1).0
  unfolding write_memory
  write-later r rs h = rw h (write_buf-skip r rs (lookup_region rs addr) h)

  pub write_memory-IsMemory : (m : FlatMemory) → IsMemory m → IsMemory (write_memory m addr v 1).0
  unfolding write_memory
  write_memory-IsMemory [] ok = tt
  write_memory-IsMemory (r ∷ rs) ok = elim (Bool-cases (within r.base r.end_exclusive addr)) [
    | inl e ↦
        subst IsMemory (sym (write-here r rs e))
          (ap (λ k. r.base + k) (length-poke r.buf (addr - r.base) v 1) ∙ ok.0, ok.1)
    | inr e ↦ subst IsMemory (sym (write-later r rs e)) (ok.0, write_memory-IsMemory rs ok.1)
  ]

  write-nil : (write_memory [] addr v 1).0 ≡ []
  unfolding write_memory
  write-nil = refl

  byte-here :
      (r : Region) (b : ℕ)
      → IsRegion r
      → within r.base r.end_exclusive addr ≡ true
      → within r.base r.end_exclusive b ≡ true
      → byte_at (poke r.buf (addr - r.base) v 1).0 (b - r.base)
        ≡ (if b == addr then v % 256 else byte_at r.buf (b - r.base))
  byte-here r b ok e f =
      let inside : addr - r.base < length r.buf = ground (arith, e, ok) in
      let at = byte_at-poke r.buf (addr - r.base) v (b - r.base) inside in ground (arith, e, f, at)

  -- A byte that is written to a mapped address is what a read of the address gives, and no read of
  -- another address changes; a write to an address without a region changes nothing.
  pub byte-write_memory :
      (m : FlatMemory) (b : ℕ)
      → IsMemory m
      → read_memory (write_memory m addr v 1).0 b 1
        ≡ (if (b == addr) && is_mapped m addr then v % 256 else read_memory m b 1)
  byte-write_memory [] b ok = let same_read = ap (λ m. read_memory m b 1) write-nil in ground arith
  byte-write_memory (r ∷ rs) b ok = elim (Bool-cases (within r.base r.end_exclusive addr)) [
    | inl e ↦
        let changed = record r { buf = (poke r.buf (addr - r.base) v 1).0 } in
        let written = ap (λ m. read_memory m b 1) (write-here r rs e) ∙ byte-cons changed rs b in
        let at = byte-here r b ok.0 e in
        let old = byte-cons r rs b in
        let range : b ≡ addr → within r.base r.end_exclusive b ≡ true =
          λ s. ap (within r.base r.end_exclusive) s ∙ e in
        (elim (Bool-cases (within r.base r.end_exclusive b)) [
          | inl f ↦ (let at' = at f in ground arith)
          | inr f ↦ ground (arith, range)
        ])
    | inr e ↦
        let written =
          ap (λ m. read_memory m b 1) (write-later r rs e)
          ∙ byte-cons r (write_memory rs addr v 1).0 b in
        let ih = byte-write_memory rs b ok.1 in
        let old = byte-cons r rs b in
        let range : b ≡ addr → within r.base r.end_exclusive b ≡ false =
          λ s. ap (within r.base r.end_exclusive) s ∙ e in
        (elim (Bool-cases (within r.base r.end_exclusive b)) [
          | inl f ↦ ground (arith, range)
          | inr f ↦ ground arith
        ])
  ]

lookup-inside :
    (m : FlatMemory) (addr : ℕ) (buf : List ℕ) (off : ℕ)
    → IsMemory m
    → lookup_region m addr ≡ some (buf, off)
    → off + 1 ≤ length buf
lookup-inside [] addr buf off ok h = cc
lookup-inside (r ∷ rs) addr buf off ok h = elim (Bool-cases (within r.base r.end_exclusive addr)) [
  | inl e ↦
      let pair = of_some (rw e at h) in
      let inside : addr - r.base + 1 ≤ length r.buf = ground (arith, e, ok.0) in
      subst (λ (p : List ℕ × ℕ). p.1 + 1 ≤ length p.0) (sym pair) inside
  | inr e ↦ lookup-inside rs addr buf off ok.1 (rw e at h)
]

-- A write of a byte raises nothing.
pub write_memory-fits :
    (m : FlatMemory) (addr v : ℕ) → IsMemory m → (write_memory m addr v 1).1 ≡ false
unfolding write_memory
write_memory-fits m addr v ok = elim (Option-cases (lookup_region m addr)) [
  | inl e ↦ rw e refl
  | inr ((buf, off), e) ↦ rw e (poke-value buf off v 1 (lookup-inside m addr buf off ok e)).0
]

pub is_mapped-write_memory :
    (m : FlatMemory) (addr v b : ℕ) → is_mapped (write_memory m addr v 1).0 b ≡ is_mapped m b
unfolding write_memory
is_mapped-write_memory [] addr v b = refl
is_mapped-write_memory (r ∷ rs) addr v b = elim (Bool-cases (within r.base r.end_exclusive addr)) [
  | inl e ↦ ap (λ m. is_mapped m b) (write-here addr v r rs e)
  | inr e ↦
      ap (λ m. is_mapped m b) (write-later addr v r rs e)
      ∙ ap (λ x. within r.base r.end_exclusive b || x) (is_mapped-write_memory rs addr v b)
]
