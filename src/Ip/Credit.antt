-- ===== src/Ip/Credit.antt =====
-- `CreditFlowControl`: a count of credits that sends take and receipts give back.
mod Tests
use native.Mathlib.Nat.{mod-eq_of_lt, pow-suc}
use veripy.Base.{
  ℕ, zero, suc, ◌+◌, ◌-◌, ◌*◌, ◌%◌, ◌^◌, ◌<◌, ◌≤◌, ◌≡◌, ◌≢◌, refl, sym, ap, ◌∙◌, Bool, true, false,
  not, ◌&&◌, Bool-cases, inl, inr, List, [], ◌∷◌, ◌==◌, ==_iff, if◌then◌else◌, arith,
}
use veripy.Base.Bits.{bit_length, mod-bit_length}

pub record CreditFlowControl : Type 0 where
  pub credits : ℕ
  pub cnt : ℕ

pub record Valid : Type 0 where
  pub send_valid : Bool
  pub recv_valid : Bool

-- The outputs `send_ready` and `recv_ready`.
abbrev pub send_ready : CreditFlowControl → Bool
send_ready c = not (c.cnt == 0)

abbrev pub recv_ready : CreditFlowControl → Bool
recv_ready c = not (c.cnt == c.credits)

abbrev pub cnt_bits : CreditFlowControl → ℕ
cnt_bits c = bit_length c.credits + 1

pub update : CreditFlowControl → Bool → Valid → CreditFlowControl
update c reset v =
    let send = v.send_valid && not (c.cnt == 0) in
    let recv = v.recv_valid && not (c.cnt == c.credits) in
    if reset
    then record c { cnt = c.credits }
    else (if send && not recv
        then record c { cnt = (c.cnt - 1) % 2 ^ cnt_bits c }
        else (if recv && not send then record c { cnt = (c.cnt + 1) % 2 ^ cnt_bits c } else c))

abbrev pub run : CreditFlowControl → List Valid → CreditFlowControl
run c [] = c
run c (v ∷ rest) = run (update c false v) rest

abbrev one : Bool → ℕ
one true = 1
one false = 0

-- The words sent, and those received, when both sides were ready.
abbrev pub sent : CreditFlowControl → List Valid → ℕ
sent c [] = 0
sent c (v ∷ rest) = one (v.send_valid && send_ready c) + sent (update c false v) rest

abbrev pub received : CreditFlowControl → List Valid → ℕ
received c [] = 0
received c (v ∷ rest) = one (v.recv_valid && recv_ready c) + received (update c false v) rest

taken : (b : Bool) (n k : ℕ) → b && not (n == k) ≡ true → n ≢ k
taken true n k h e = grind (arith, ==_iff n k)
taken false n k h e = absurd cc

update-cnt :
    (c : CreditFlowControl) (v : Valid)
    → c.cnt ≤ c.credits
    → ((update c false v).cnt + one (v.send_valid && send_ready c)
        ≡ c.cnt + one (v.recv_valid && recv_ready c))
      × ((update c false v).credits ≡ c.credits)
      × ((update c false v).cnt ≤ c.credits)
unfolding update
update-cnt c v le = elim (Bool-cases (v.send_valid && send_ready c)) [
  | inl s ↦ elim (Bool-cases (v.recv_valid && recv_ready c)) [
    | inl r ↦ rw (s, r) (refl, refl, le)
    | inr r ↦
        let ne = taken v.send_valid c.cnt 0 s in
        rw (s, r, mod-bit_length c.credits (c.cnt - 1) (omega arith))
          (omega arith, refl, omega arith)
  ]
  | inr s ↦ elim (Bool-cases (v.recv_valid && recv_ready c)) [
    | inl r ↦
        let ne = taken v.recv_valid c.cnt c.credits r in
        rw (s, r, mod-bit_length c.credits (c.cnt + 1) (omega arith))
          (omega arith, refl, omega arith)
    | inr r ↦ rw (s, r) (refl, refl, le)
  ]
]

-- Without reset, the credits left and the words sent make up the credits at first and the words received, and no
-- more credits are left than there are in all.
pub run-conserves :
    (c : CreditFlowControl) (steps : List Valid)
    → c.cnt ≤ c.credits
    → ((run c steps).cnt + sent c steps ≡ c.cnt + received c steps)
      × ((run c steps).cnt ≤ c.credits)
run-conserves c [] le = (refl, le)
run-conserves c (v ∷ rest) le =
    let (step, same, le') = update-cnt c v le in
    let (total, bound) = run-conserves (update c false v) rest (omega arith) in
    (omega arith, omega arith)
