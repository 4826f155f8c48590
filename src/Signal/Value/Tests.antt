-- ===== src/Signal/Value/Tests.antt =====
-- A signal of four bits, and operands of three and two.
use veripy.Base.{◌≡◌, refl, [], ◌∷◌, some, arith}
use veripy.Base.Int.{pos, negsuc, ◌-ℤ◌}
use veripy.Signal.Value.{
  rsub, apply_op, apply_slice_op, sub, assign_to, assign_slice, assign_bit, ticks, run, init_signal,
}
use veripy.Signal.Value.Bounds.{IsResult, word, apply_op-IsResult}
use veripy.Signal.Value.Updates.{IsSignal, run-IsSignal, init_signal-IsSignal}

apply_op-IsResult_example : IsResult (apply_op rsub (word 5 3) (word 2 2))
apply_op-IsResult_example = apply_op-IsResult 5 3 2 2 (omega arith) (omega arith) rsub (λ e. cc)

-- 2 - 5 in three bits; a slice does not wrap round.
wraps : apply_op rsub (word 5 3) (word 2 2) ≡ some (word 5 3)
unfolding apply_op ◌-ℤ◌
wraps = refl

slice_does_not_wrap :
    apply_slice_op sub (word 2 3) (word 5 3) ≡ some (record { value = negsuc 2; width = 3 })
unfolding apply_slice_op ◌-ℤ◌
slice_does_not_wrap = refl

run-IsSignal_example :
    IsSignal 4
      (run (init_signal 4 (pos 0)) (assign_to (pos 21) ∷ assign_slice 3 2 (pos 7) ∷ ticks ∷ []))
run-IsSignal_example =
    run-IsSignal 4 (init_signal 4 (pos 0))
      (assign_to (pos 21) ∷ assign_slice 3 2 (pos 7) ∷ ticks ∷ []) (init_signal-IsSignal 4 (pos 0))
      (tt, ((omega arith, omega arith), (tt, tt)))

-- A bit behind the width is kept.
outside : (run (init_signal 4 (pos 0)) (assign_bit 6 (pos 1) ∷ ticks ∷ [])).val ≡ 64
unfolding run init_signal
outside = refl
