-- ===== src/Ip/Timing.antt =====
-- `Debouncer`: a counter of the samples that differ from the output.
mod Tests
use native.Mathlib.Nat.{mod-eq_of_lt, pow-suc}
use veripy.Base.{
  ℕ, zero, suc, ◌+◌, ◌-◌, ◌*◌, ◌%◌, ◌^◌, ◌<◌, ◌≤◌, ◌≡◌, ◌≢◌, refl, sym, ap, ◌∙◌, Bool, true, false,
  not, Bool-cases, inl, inr, List, [], ◌∷◌, ◌==◌, ==_iff, if◌then◌else◌, arith, max, replicate,
  length, All,
}
use veripy.Base.Bits.{bit_length, mod-bit_length, pow_pos}

abbrev pub eq_bit : Bool → Bool → Bool
eq_bit true b = b
eq_bit false b = not b

pub record Debouncer : Type 0 where
  pub threshold : ℕ
  pub cnt : ℕ
  pub qr : Bool

pub record Sample : Type 0 where
  pub reset : Bool
  pub d : Bool

-- The threshold is one at least.
pub logic : Debouncer → Sample → Debouncer
logic b i =
    if i.reset
    then record b { cnt = 0; qr = false }
    else (if not (eq_bit i.d b.qr)
        then (if b.cnt == b.threshold - 1
            then record b { qr = i.d; cnt = 0 }
            else record b { cnt = (b.cnt + 1) % 2 ^ (bit_length b.threshold + 1) })
        else record b { cnt = 0 })

abbrev pub sample : Bool → Sample
sample d = record { reset = false; d = d }

abbrev pub run : Debouncer → List Bool → Debouncer
run b [] = b
run b (d ∷ rest) = run (logic b (sample d)) rest

-- A sample is the output, or ends the count, or adds to it.
same-bit : (d q : Bool) → eq_bit d q ≡ true → d ≡ q
same-bit true q e = sym e
same-bit false true e = absurd cc
same-bit false false e = refl

bit-same : (d : Bool) → eq_bit d d ≡ true
bit-same true = refl
bit-same false = refl

logic-same :
    (b : Debouncer) (d : Bool) → eq_bit d b.qr ≡ true → logic b (sample d) ≡ record b { cnt = 0 }
unfolding logic
logic-same b d e = rw e refl

logic-last :
    (b : Debouncer) (d : Bool)
    → eq_bit d b.qr ≡ false
    → (b.cnt == b.threshold - 1) ≡ true
    → logic b (sample d) ≡ record b { qr = d; cnt = 0 }
unfolding logic
logic-last b d e l = rw (e, l) refl

logic-more :
    (b : Debouncer) (d : Bool)
    → eq_bit d b.qr ≡ false
    → (b.cnt == b.threshold - 1) ≡ false
    → b.cnt < b.threshold
    → logic b (sample d) ≡ record b { cnt = b.cnt + 1 }
unfolding logic
logic-more b d e l lt = rw (e, l, mod-bit_length b.threshold (b.cnt + 1) (omega arith)) refl

on_step :
    (b : Debouncer) (d : Bool) {b' : Debouncer} {q : Bool} (rest : List Bool)
    → logic b (sample d) ≡ b'
    → (run b' rest).qr ≡ q
    → (run b (d ∷ rest)).qr ≡ q
on_step b d rest e h = ap (λ x. (run x rest).qr) e ∙ h

-- Fewer samples than are missing to the threshold do not change the output.
pub run-keeps :
    (b : Debouncer) (samples : List Bool)
    → b.cnt + length samples < b.threshold
    → (run b samples).qr ≡ b.qr
run-keeps b [] lt = refl
run-keeps b (d ∷ rest) lt = elim (Bool-cases (eq_bit d b.qr)) [
  | inl e ↦
      on_step b d rest (logic-same b d e) (run-keeps (record b { cnt = 0 }) rest (omega arith))
  | inr e ↦
      let l : (b.cnt == b.threshold - 1) ≡ false = grind (arith, ==_iff b.cnt (b.threshold - 1)) in
      on_step b d rest (logic-more b d e l (omega arith))
        (run-keeps (record b { cnt = b.cnt + 1 }) rest (omega arith))
]

stays : (n : ℕ) (b : Debouncer) → (run b (replicate n b.qr)).qr ≡ b.qr
stays zero b = refl
stays (suc n) b =
    on_step b b.qr (replicate n b.qr) (logic-same b b.qr (bit-same b.qr))
      (stays n (record b { cnt = 0 }))

settles-from :
    (n : ℕ) (b : Debouncer) (d : Bool)
    → b.cnt < b.threshold
    → b.threshold ≤ b.cnt + n
    → (run b (replicate n d)).qr ≡ d
settles-from zero b d lt h = absurd (omega arith)
settles-from (suc n) b d lt h = elim (Bool-cases (eq_bit d b.qr)) [
  | inl e ↦
      ap (λ x. (run b (replicate (suc n) x)).qr) (same-bit d b.qr e)
      ∙ (stays (suc n) b ∙ sym (same-bit d b.qr e))
  | inr e ↦ elim (Bool-cases (b.cnt == b.threshold - 1)) [
    | inl l ↦
        on_step b d (replicate n d) (logic-last b d e l) (stays n (record b { qr = d; cnt = 0 }))
    | inr l ↦
        let ne : b.cnt ≢ b.threshold - 1 = grind (arith, ==_iff b.cnt (b.threshold - 1)) in
        on_step b d (replicate n d) (logic-more b d e l lt)
          (settles-from n (record b { cnt = b.cnt + 1 }) d (omega arith) (omega arith))
  ]
]

-- From a count below the threshold, as many equal samples in a row as the threshold make the output that sample.
pub run-settles :
    (b : Debouncer) (d : Bool) → b.cnt < b.threshold → (run b (replicate b.threshold d)).qr ≡ d
run-settles b d lt = settles-from b.threshold b d lt (omega arith)
