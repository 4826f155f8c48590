-- ===== src/Signal/Value/Updates.antt =====
-- A signal keeps its width over any run of updates.
use native.Mathlib.Nat.{mul-lt-mul_of_pos_right}
use veripy.Base.{
  ℕ, ◌+◌, ◌-◌, ◌*◌, ◌^◌, ◌≤◌, ◌<◌, ◌≡◌, refl, subst, List, [], ◌∷◌, Option, some, none, All, arith,
}
use veripy.Base.Int.{ℤ, pos}
use veripy.Base.Bits.{pow_pos}
use veripy.Signal.Value.{
  fit, Signal, pack, current, Update, set_to, assign_to, assign_list, ticks, assign_slice,
  assign_bit, slice_assign, set_bit, update, run, init_signal,
}
use veripy.Signal.Value.Bounds.{fit-lt, bit_and-lt, bit_or-lt, widen, pow_add}

-- A pending value that the width holds.
abbrev pub Holds : ℕ → Option ℕ → Type 0
Holds w none = Unit
Holds w (some v) = v < 2 ^ w

pub record IsSignal (w : ℕ) (s : Signal) : Type 0 where
  pub width : s.width ≡ w
  pub val : s.val < 2 ^ w
  pub next : Holds w s.next

-- The bits of an update are bits of the signal.
abbrev pub IsInside : ℕ → Update → Type 0
IsInside w (assign_slice hi lo z) = (lo ≤ hi) × (hi < w)
IsInside w (assign_bit key z) = key < w
IsInside w _ = Unit

current-lt : (w v : ℕ) (o : Option ℕ) → v < 2 ^ w → Holds w o → current v o < 2 ^ w
current-lt w v none h k = h
current-lt w v (some n) h k = k

-- A field of some bits, placed at `lo`.
field-lt : (w lo bits v : ℕ) → v < 2 ^ bits → lo + bits ≤ w → v * 2 ^ lo < 2 ^ w
field-lt w lo bits v h below =
    widen (bits + lo) w (v * 2 ^ lo) (omega arith)
      (rw (pow_add bits lo) (mul-lt-mul_of_pos_right {k = 2 ^ lo} h (pow_pos lo)))

module _ (w : ℕ) where
  update-IsSignal :
      (s : Signal) (u : Update) → IsSignal w s → IsInside w u → IsSignal w (update s u)
  unfolding update slice_assign set_bit
  update-IsSignal s (set_to z) ok inside = record {
    width = ok.width;
    val = subst (λ k. fit z s.width < 2 ^ k) ok.width (fit-lt z s.width);
    next = ok.next;
  }
  update-IsSignal s (assign_to z) ok inside = record {
    width = ok.width;
    val = ok.val;
    next = subst (λ k. fit z s.width < 2 ^ k) ok.width (fit-lt z s.width);
  }
  update-IsSignal s (assign_list ps) ok inside = record {
    width = ok.width;
    val = ok.val;
    next =
        subst (λ k. fit (pos (pack 0 0 ps)) s.width < 2 ^ k) ok.width
          (fit-lt (pos (pack 0 0 ps)) s.width);
  }
  update-IsSignal s ticks ok inside = record {
    width = ok.width;
    val = current-lt w s.val s.next ok.val ok.next;
    next = tt;
  }
  update-IsSignal s (assign_slice hi lo z) ok inside = record {
    width = ok.width;
    val = ok.val;
    next =
        let old = current-lt w s.val s.next ok.val ok.next in
        let full : 2 ^ s.width - 1 < 2 ^ w =
          subst (λ k. 2 ^ s.width - 1 < 2 ^ k) ok.width (omega (arith, pow_pos s.width)) in
        bit_or-lt w _ _ (bit_and-lt w _ _ old (omega (arith, full))) (
          field-lt w lo (hi + 1 - lo) (fit z (hi + 1 - lo)) (fit-lt z (hi + 1 - lo))
            (omega (arith, inside.0, inside.1)));
  }
  update-IsSignal s (assign_bit key z) ok inside = record {
    width = ok.width;
    val = ok.val;
    next =
        let old = current-lt w s.val s.next ok.val ok.next in
        bit_or-lt w _ _ (omega (arith, old))
          (field-lt w key 1 (fit z 1) (fit-lt z 1) (omega (arith, inside)));
  }

  -- Over any run of updates whose bits are bits of the signal, its value and the value that waits
  -- stay below two to the width.
  pub run-IsSignal :
      (s : Signal) (us : List Update) → IsSignal w s → All (IsInside w) us → IsSignal w (run s us)
  unfolding run
  run-IsSignal s [] ok inside = ok
  run-IsSignal s (u ∷ us) ok inside =
      run-IsSignal (update s u) us (update-IsSignal s u ok inside.0) inside.1

pub init_signal-IsSignal : (w : ℕ) (reset : ℤ) → IsSignal w (init_signal w reset)
unfolding init_signal
init_signal-IsSignal w reset = record { width = refl; val = fit-lt reset w; next = tt }
