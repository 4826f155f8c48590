-- ===== src/Ip/Divider.antt =====
-- `ClockDivider`: turns its output over once in as many cycles as the divisor.
use native.Mathlib.Nat.{mod-eq_of_lt, pow-le-pow_right}
use veripy.Base.{
  ℕ, zero, suc, ◌+◌, ◌-◌, ◌%◌, ◌^◌, ◌<◌, ◌≤◌, ◌≡◌, refl, sym, ap, ap₂, ◌∙◌, Bool, true, false, not,
  Bool-cases, inl, inr, ◌==◌, ==_iff, if◌then◌else◌, arith, max,
}
use veripy.Base.Bits.{bit_length, lt-bit_length}

pub record ClockDivider : Type 0 where
  pub divisor : ℕ
  pub cnt : ℕ
  pub out_r : Bool

abbrev pub cnt_bits : ClockDivider → ℕ
cnt_bits c = max 1 (bit_length (c.divisor - 1))

-- The divisor is one at least.
unfoldable pub divide : ClockDivider → Bool → ClockDivider
divide c reset =
    if reset
    then record c { cnt = 0; out_r = false }
    else (if c.cnt == c.divisor - 1
        then record c { cnt = 0; out_r = not c.out_r }
        else record c { cnt = (c.cnt + 1) % 2 ^ cnt_bits c })

-- `n` cycles without reset.
abbrev pub run : ℕ → ClockDivider → ClockDivider
run zero c = c
run (suc n) c = run n (divide c false)

-- The counter holds every number below the divisor.
count-fits : (c : ClockDivider) → c.cnt + 1 < c.divisor → (c.cnt + 1) % 2 ^ cnt_bits c ≡ c.cnt + 1
count-fits c lt =
    let b = bit_length (c.divisor - 1) in
    mod-eq_of_lt (omega (arith, lt-bit_length (c.divisor - 1), pow-max b))
  where
    pow-max : (b : ℕ) → 2 ^ b ≤ 2 ^ max 1 b
    pow-max b = pow-le-pow_right (omega arith) (omega arith)

divide-count :
    (c : ClockDivider) → c.cnt + 1 < c.divisor → divide c false ≡ record c { cnt = c.cnt + 1 }
unfolding divide
divide-count c lt = rw (not-last, count-fits c lt) refl
  where
    not-last : (c.cnt == c.divisor - 1) ≡ false
    not-last = elim (Bool-cases (c.cnt == c.divisor - 1)) [
      | inl e ↦ absurd (grind (arith, ==_iff c.cnt (c.divisor - 1)))
      | inr e ↦ e
    ]

divide-turn :
    (c : ClockDivider)
    → c.cnt ≡ c.divisor - 1
    → divide c false ≡ record c { cnt = 0; out_r = not c.out_r }
unfolding divide
divide-turn c e = rw ((==_iff c.cnt (c.divisor - 1)).1 e) refl

run-counts :
    (n : ℕ) (c : ClockDivider) → c.cnt + n < c.divisor → run n c ≡ record c { cnt = c.cnt + n }
run-counts zero c lt = ap (λ x. record c { cnt = x }) {x = c.cnt} (omega arith)
run-counts (suc n) c lt =
    ap (run n) (divide-count c (omega arith))
    ∙ (run-counts n (record c { cnt = c.cnt + 1 }) (omega arith)
        ∙ ap (λ x. record c { cnt = x }) {x = c.cnt + 1 + n} (omega arith))

run-after : (n : ℕ) (c : ClockDivider) → run (suc n) c ≡ divide (run n c) false
run-after zero c = refl
run-after (suc n) c = run-after n (divide c false)

run-turns :
    (c : ClockDivider)
    → c.cnt ≡ 0
    → 0 < c.divisor
    → run c.divisor c ≡ record c { cnt = 0; out_r = not c.out_r }
run-turns c z pos =
    let k = c.divisor - 1 in
    ap (λ n. run n c) {x = c.divisor} {y = suc k} (omega arith)
    ∙ (run-after k c
        ∙ (ap (λ x. divide x false) (run-counts k c (omega arith))
            ∙ divide-turn (record c { cnt = c.cnt + k }) (omega arith)))

run-append : (n m : ℕ) (c : ClockDivider) → run (n + m) c ≡ run m (run n c)
run-append zero m c = ap (λ n. run n c) {x = 0 + m} {y = m} (omega arith)
run-append (suc n) m c =
    ap (λ n. run n c) {x = suc n + m} {y = suc (n + m)} (omega arith)
    ∙ run-append n m (divide c false)

not-not : (b : Bool) → not (not b) ≡ b
not-not true = refl
not-not false = refl

-- Without reset, from a count of zero and with a positive divisor: the output keeps its value for the
-- cycles before the divisor, is turned over with the divisor, and after twice the divisor the clock
-- divider is as it was.
pub run-period :
    (c : ClockDivider) (n : ℕ)
    → c.cnt ≡ 0
    → n < c.divisor
    → ((run n c).out_r ≡ c.out_r)
      × ((run c.divisor c).out_r ≡ not c.out_r)
      × (run (c.divisor + c.divisor) c ≡ c)
run-period c n z lt =
    let pos : 0 < c.divisor = omega arith in
    let turned = record c { cnt = 0; out_r = not c.out_r } in
    (
      ap (λ x. x.out_r) (run-counts n c (omega arith)),
      ap (λ x. x.out_r) (run-turns c z pos),
      run-append c.divisor c.divisor c
          ∙ (ap (run c.divisor) (run-turns c z pos)
              ∙ (run-turns turned refl pos
                  ∙ ap₂ (λ x y. record c { cnt = x; out_r = y }) (sym z) (not-not c.out_r))),
    )
