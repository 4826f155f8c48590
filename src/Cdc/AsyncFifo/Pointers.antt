-- ===== src/Cdc/AsyncFifo/Pointers.antt =====
-- The pointers of the queue over any interleaving of the two clocks.
use native.Mathlib.Nat.{pow-suc, mod-lt, mod-eq_of_lt, mod-add-mod, add-mod_right}
use veripy.Base.{
  ℕ, suc, ◌+◌, ◌-◌, ◌*◌, ◌%◌, ◌^◌, ◌≤◌, ◌<◌, ◌≡◌, sym, ap, ap₂, ◌∙◌, bit_and, bit_xor, false,
  ==_iff, inl, inr, arith, ◌⊎◌,
}
use native.Mathlib.Decide.{dec_lt}
use veripy.Base.Bits.{bit_length, bit_length-pow, bit_and-mask, pow_pos}
use veripy.Cdc.Gray.{gray, gray-apart}
use veripy.Cdc.AsyncFifo.{
  AsyncFifo, addr_bits, next_ptr, full, empty, sync_write, push, sync_read, pop,
}

-- The next pointer counts on, in the range of the pointers.
next-mod : (m n : ℕ) → 0 < m → (n % m + 1) % m ≡ (n + 1) % m
next-mod m n h = mod-add-mod n m 1

-- A pointer `d` ahead, where `d` is half the range.
half_ahead :
    (d r : ℕ)
    → 0 < d
    → ((r % (d * 2) < d) × ((r + d) % (d * 2) ≡ r % (d * 2) + d))
      ⊎ ((r % (d * 2) ≡ (r + d) % (d * 2) + d) × ((r + d) % (d * 2) < d))
half_ahead d r h =
    let a = r % (d * 2) in
    let below : a < d * 2 = mod-lt r (omega arith) in
    let moved : (r + d) % (d * 2) ≡ (a + d) % (d * 2) = sym (mod-add-mod r (d * 2) d) in
    elim (dec_lt a d) [
      | yes lt ↦ inl (lt, moved ∙ mod-eq_of_lt (omega arith))
      | no ge ↦
          let split : a + d ≡ (a - d) + d * 2 = omega arith in
          let at : (r + d) % (d * 2) ≡ a - d =
            moved
            ∙ (ap (λ k. k % (d * 2)) split
                ∙ (add-mod_right (a - d) (d * 2) ∙ mod-eq_of_lt (omega arith))) in
          inr (omega arith, omega arith)
    ]

module _ (k : ℕ) where
  depth_of : ℕ
  depth_of = 2 ^ suc k

  range : 2 ^ suc (suc k) ≡ 2 ^ suc k * 2
  range = pow-suc 2 (suc k)

  -- Pointers half their range apart make the queue full.
  xor-ahead :
      (r : ℕ)
      → bit_xor (gray ((r + 2 ^ suc k) % 2 ^ suc (suc k))) (gray (r % 2 ^ suc (suc k))) ≡ 3 * 2 ^ k
  xor-ahead r = rw range (elim (half_ahead (2 ^ suc k) r (pow_pos (suc k))) [
    | inl (lt, e) ↦
        ap (λ x. bit_xor (gray x) (gray (r % (2 ^ suc k * 2)))) e
        ∙ (gray-apart k (r % (2 ^ suc k * 2)) lt).1
    | inr (e, lt) ↦
        ap (λ x. bit_xor (gray ((r + 2 ^ suc k) % (2 ^ suc k * 2))) (gray x)) e
        ∙ (gray-apart k ((r + 2 ^ suc k) % (2 ^ suc k * 2)) lt).0
  ])

  -- `written` and `taken` count the words so far; a side knows a count of the other side that is out
  -- of date.
  pub record IsQueue (written taken : ℕ) (f : AsyncFifo) : Type 0 where
    pub depth : f.depth ≡ 2 ^ suc k
    pub wptr : f.wptr ≡ written % 2 ^ suc (suc k)
    pub rptr : f.rptr ≡ taken % 2 ^ suc (suc k)
    pub wgray : f.wgray ≡ gray (written % 2 ^ suc (suc k))
    pub rgray : f.rgray ≡ gray (taken % 2 ^ suc (suc k))
    pub w1 : ℕ
    pub w2 : ℕ
    pub r1 : ℕ
    pub r2 : ℕ
    pub wgray_s1 : f.wgray_s1 ≡ gray (w1 % 2 ^ suc (suc k))
    pub wgray_s2 : f.wgray_s2 ≡ gray (w2 % 2 ^ suc (suc k))
    pub rgray_s1 : f.rgray_s1 ≡ gray (r1 % 2 ^ suc (suc k))
    pub rgray_s2 : f.rgray_s2 ≡ gray (r2 % 2 ^ suc (suc k))
    pub order :
        (r2 ≤ r1)
        × (r1 ≤ taken)
        × (taken ≤ w2)
        × (w2 ≤ w1)
        × (w1 ≤ written)
        × (written ≤ r2 + 2 ^ suc k)

  bits : (written taken : ℕ) (f : AsyncFifo) → IsQueue written taken f → addr_bits f ≡ suc (suc k)
  bits written taken f q = ap bit_length q.depth ∙ bit_length-pow (suc k)

  next_ptr-count :
      (written taken n : ℕ) (f : AsyncFifo)
      → IsQueue written taken f
      → next_ptr f (n % 2 ^ suc (suc k)) ≡ (n + 1) % 2 ^ suc (suc k)
  next_ptr-count written taken n f q =
      ap (λ b. bit_and (n % 2 ^ suc (suc k) + 1) (2 ^ b - 1)) (bits written taken f q)
      ∙ (bit_and-mask (suc (suc k)) (n % 2 ^ suc (suc k) + 1) ∙ mod-add-mod n (2 ^ suc (suc k)) 1)

  -- A queue that holds as many words as its depth is full on the write side.
  not_full :
      (written taken : ℕ) (f : AsyncFifo) (q : IsQueue written taken f)
      → full f ≡ false
      → written < q.r2 + 2 ^ suc k
  not_full written taken f q h = elim (dec_lt written (q.r2 + 2 ^ suc k)) [
    | yes below ↦ below
    | no beyond ↦
        let ahead : written ≡ q.r2 + 2 ^ suc k = omega (arith, q.order) in
        let same_gray : bit_xor f.wgray f.rgray_s2 ≡ 3 * 2 ^ (addr_bits f - 2) =
          ap₂ bit_xor (q.wgray ∙ ap (λ n. gray (n % 2 ^ suc (suc k))) ahead) q.rgray_s2
          ∙ (xor-ahead q.r2
              ∙ ap (λ b. 3 * 2 ^ b) {x = k} {y = addr_bits f - 2}
                  (omega (arith, bits written taken f q))) in
        absurd (cc ((==_iff _ _).1 same_gray, h))
  ]

  not_empty :
      (written taken : ℕ) (f : AsyncFifo) (q : IsQueue written taken f)
      → empty f ≡ false
      → taken < q.w2
  not_empty written taken f q h = elim (dec_lt taken q.w2) [
    | yes below ↦ below
    | no beyond ↦
        let same : taken ≡ q.w2 = omega (arith, q.order) in
        let same_gray : f.rgray ≡ f.wgray_s2 =
          q.rgray ∙ (ap (λ n. gray (n % 2 ^ suc (suc k))) same ∙ sym q.wgray_s2) in
        absurd (cc ((==_iff _ _).1 same_gray, h))
  ]

  pub sync_write-IsQueue :
      (written taken : ℕ) (f : AsyncFifo)
      → IsQueue written taken f
      → IsQueue written taken (sync_write f)
  sync_write-IsQueue written taken f q = record {
    depth = q.depth;
    wptr = q.wptr;
    rptr = q.rptr;
    wgray = q.wgray;
    rgray = q.rgray;
    w1 = q.w1;
    w2 = q.w2;
    r1 = taken;
    r2 = q.r1;
    wgray_s1 = q.wgray_s1;
    wgray_s2 = q.wgray_s2;
    rgray_s1 = q.rgray;
    rgray_s2 = q.rgray_s1;
    order = (
      omega (arith, q.order),
      omega arith,
      omega (arith, q.order),
      omega (arith, q.order),
      omega (arith, q.order),
      omega (arith, q.order),
    );
  }

  pub sync_read-IsQueue :
      (written taken : ℕ) (f : AsyncFifo)
      → IsQueue written taken f
      → IsQueue written taken (sync_read f)
  sync_read-IsQueue written taken f q = record {
    depth = q.depth;
    wptr = q.wptr;
    rptr = q.rptr;
    wgray = q.wgray;
    rgray = q.rgray;
    w1 = written;
    w2 = q.w1;
    r1 = q.r1;
    r2 = q.r2;
    wgray_s1 = q.wgray;
    wgray_s2 = q.wgray_s1;
    rgray_s1 = q.rgray_s1;
    rgray_s2 = q.rgray_s2;
    order = (
      omega (arith, q.order),
      omega (arith, q.order),
      omega (arith, q.order),
      omega (arith, q.order),
      omega arith,
      omega (arith, q.order),
    );
  }

  pub push-IsQueue :
      (written taken wdata : ℕ) (f : AsyncFifo)
      → IsQueue written taken f
      → full f ≡ false
      → IsQueue (written + 1) taken (push (sync_write f) wdata)
  unfolding push
  push-IsQueue written taken wdata f q h =
      let count = ap (next_ptr f) q.wptr ∙ next_ptr-count written taken written f q in
      let below = not_full written taken f q h in
      record {
        depth = q.depth;
        wptr = count;
        rptr = q.rptr;
        wgray = ap gray count;
        rgray = q.rgray;
        w1 = q.w1;
        w2 = q.w2;
        r1 = taken;
        r2 = q.r1;
        wgray_s1 = q.wgray_s1;
        wgray_s2 = q.wgray_s2;
        rgray_s1 = q.rgray;
        rgray_s2 = q.rgray_s1;
        order = (
          omega (arith, q.order),
          omega arith,
          omega (arith, q.order),
          omega (arith, q.order),
          omega (arith, q.order),
          omega (arith, q.order, below),
        );
      }

  pub pop-IsQueue :
      (written taken : ℕ) (f : AsyncFifo)
      → IsQueue written taken f
      → empty f ≡ false
      → IsQueue written (taken + 1) (pop (sync_read f))
  unfolding pop
  pop-IsQueue written taken f q h =
      let count = ap (next_ptr f) q.rptr ∙ next_ptr-count written taken taken f q in
      let below = not_empty written taken f q h in
      record {
        depth = q.depth;
        wptr = q.wptr;
        rptr = count;
        wgray = q.wgray;
        rgray = ap gray count;
        w1 = written;
        w2 = q.w1;
        r1 = q.r1;
        r2 = q.r2;
        wgray_s1 = q.wgray;
        wgray_s2 = q.wgray_s1;
        rgray_s1 = q.rgray_s1;
        rgray_s2 = q.rgray_s2;
        order = (
          omega (arith, q.order),
          omega (arith, q.order),
          omega (arith, q.order, below),
          omega (arith, q.order),
          omega arith,
          omega (arith, q.order),
        );
      }
