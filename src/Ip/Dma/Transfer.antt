-- ===== src/Ip/Dma/Transfer.antt =====
-- A transfer: the words the engine writes, whatever the delays of the two memories.
use native.Mathlib.Nat.{mod-eq_of_lt, add-mul-mod_self_left}
use veripy.Base.{
  ℕ, zero, suc, ◌+◌, ◌-◌, ◌*◌, ◌%◌, ◌^◌, ◌<◌, ◌≤◌, ◌≡◌, refl, sym, ap, ◌∙◌, Bool, true, false,
  Bool-cases, inl, inr, ◌==◌, ==_iff, List, [], ◌∷◌, ◌++◌, if◌then◌else◌, arith,
}
use mathlib.Core.List.{append_assoc, append-nil}
use veripy.Base.Bits.{pow_pos}
use veripy.Ip.Dma.{
  DmaEngine, State, s_idle, s_read, s_write, s_done, fsm, fsm_state, fsm_idle, fsm_read, fsm_write,
  advance, decrement, wr_en, done, is_done,
}

not-one : (n : ℕ) → (suc (suc n) == 1) ≡ false
not-one n = elim (Bool-cases (suc (suc n) == 1)) [
  | inl t ↦ grind (arith, ==_iff (suc (suc n)) 1)
  | inr f ↦ f
]

-- What the memories answer in a cycle: a word read is there, a word written is taken.
pub record Answer : Type 0 where
  pub rd_valid : Bool
  pub wr_ready : Bool

abbrev pub ready : Answer
ready = record { rd_valid = true; wr_ready = true }

-- Two cycles for each word.
abbrev pub ready_cycles : ℕ → List Answer
ready_cycles zero = []
ready_cycles (suc n) = ready ∷ ready ∷ ready_cycles n

abbrev pub started : DmaEngine → ℕ → ℕ → ℕ → DmaEngine
started e s d n = fsm e record {
  reset = false;
  start = true;
  src_addr = s;
  dst_addr = d;
  length = n;
  rd_data = 0;
  rd_valid = false;
  wr_ready = false;
}

start-reads :
    (e : DmaEngine) (s d n : ℕ)
    → e.state ≡ s_idle
    → started e s d n ≡ record e { state = s_read; cur_src = s; cur_dst = d; remain = n }
unfolding fsm fsm_state fsm_idle
start-reads e s d n h = rw h refl

module _ (rd : ℕ → ℕ) where
  -- A cycle with the engine on the memory that `rd` reads.
  abbrev pub cycle : DmaEngine → Answer → DmaEngine
  cycle e a = fsm e record {
    reset = false;
    start = false;
    src_addr = 0;
    dst_addr = 0;
    length = 0;
    rd_data = rd e.cur_src;
    rd_valid = a.rd_valid;
    wr_ready = a.wr_ready;
  }

  abbrev pub run : DmaEngine → List Answer → DmaEngine
  run e [] = e
  run e (a ∷ rest) = run (cycle e a) rest

  -- The write that the second memory takes in a cycle.
  abbrev pub written : DmaEngine → Answer → List (ℕ × ℕ)
  written e a = if wr_en e then (if a.wr_ready then (e.cur_dst, e.rdbuf) ∷ [] else []) else []

  abbrev pub writes : DmaEngine → List Answer → List (ℕ × ℕ)
  writes e [] = []
  writes e (a ∷ rest) = written e a ++ writes (cycle e a) rest

  -- `n` words copied from `s` to `d`, with addresses of `w` bits and words of `k` bytes.
  abbrev pub copied : ℕ → ℕ → ℕ → ℕ → ℕ → List (ℕ × ℕ)
  copied w k s d zero = []
  copied w k s d (suc n) = (d, rd s) ∷ copied w k ((s + k) % 2 ^ w) ((d + k) % 2 ^ w) n

  abbrev pub due : DmaEngine → State → List (ℕ × ℕ)
  due e s_idle = []
  due e s_read = copied e.addr_width e.strb_width e.cur_src e.cur_dst e.remain
  due e s_write =
      (e.cur_dst, e.rdbuf)
      ∷ copied e.addr_width e.strb_width (advance e e.cur_src) (advance e e.cur_dst) (e.remain - 1)
  due e s_done = []

  -- In a transfer the words that remain are one at least.
  abbrev pub InRange : DmaEngine → State → Type 0
  InRange e s_idle = Unit
  InRange e s_read = (1 ≤ e.remain) × (e.remain < 2 ^ e.addr_width)
  InRange e s_write = (1 ≤ e.remain) × (e.remain < 2 ^ e.addr_width)
  InRange e s_done = Unit

  decrement-eq : (e : DmaEngine) (n : ℕ) → 1 ≤ n → n < 2 ^ e.addr_width → decrement e n ≡ n - 1
  decrement-eq e n h lt =
      let m = 2 ^ e.addr_width in
      let round : n + (m - 1) ≡ n - 1 + m * 1 = omega (arith, pow_pos e.addr_width) in
      ap (λ x. x % m) round ∙ (add-mul-mod_self_left (n - 1) m 1 ∙ mod-eq_of_lt (omega arith))

  copied_pos :
      (w k s d n : ℕ)
      → 1 ≤ n
      → copied w k s d n ≡ (d, rd s) ∷ copied w k ((s + k) % 2 ^ w) ((d + k) % 2 ^ w) (n - 1)
  copied_pos w k s d zero h = absurd (omega arith)
  copied_pos w k s d (suc n) h =
      ap (λ m. (d, rd s) ∷ copied w k ((s + k) % 2 ^ w) ((d + k) % 2 ^ w) m) (omega arith)

  -- A cycle's write, and the writes due after it, are those due before it.
  cycle-due :
      (e : DmaEngine) (a : Answer) (s : State)
      → e.state ≡ s
      → InRange e s
      → (written e a ++ due (cycle e a) (cycle e a).state ≡ due e s)
        × InRange (cycle e a) (cycle e a).state
  unfolding fsm fsm_state fsm_idle fsm_read fsm_write wr_en
  cycle-due e a s_idle h v = rw h (refl, tt)
  cycle-due e a s_read h v = elim (Bool-cases a.rd_valid) [
    | inl r ↦
        rw (h, r) (sym (copied_pos e.addr_width e.strb_width e.cur_src e.cur_dst e.remain v.0), v)
    | inr r ↦ rw (h, r) (refl, v)
  ]
  cycle-due e a s_write h v =
      let (pos, lt) = v in
      elim (Bool-cases a.wr_ready) [
        | inl r ↦ elim (Bool-cases (e.remain == 1)) [
          | inl one ↦
              let last : 0 ≡ e.remain - 1 = grind (arith, ==_iff e.remain 1) in
              let rest : ℕ → List (ℕ × ℕ) =
                copied e.addr_width e.strb_width (advance e e.cur_src) (advance e e.cur_dst) in
              rw (h, r, one) (ap (λ m. (e.cur_dst, e.rdbuf) ∷ rest m) last, tt)
          | inr more ↦
              rw (h, r, more, decrement-eq e e.remain pos lt)
                (refl, (grind (arith, ==_iff e.remain 1), omega arith))
        ]
        | inr r ↦ rw (h, r) (refl, v)
      ]
  cycle-due e a s_done h v = rw h (refl, tt)

  -- Whatever the delays: the writes done, and those still due, are those that were due.
  run-due :
      (e : DmaEngine) (answers : List Answer)
      → InRange e e.state
      → writes e answers ++ due (run e answers) (run e answers).state ≡ due e e.state
  run-due e [] v = refl
  run-due e (a ∷ rest) v =
      let (step, v') = cycle-due e a e.state refl v in
      append_assoc (written e a) (writes (cycle e a) rest)
        (due (run e (a ∷ rest)) (run e (a ∷ rest)).state)
      ∙ (ap (λ x. written e a ++ x) (run-due (cycle e a) rest v') ∙ step)

  two_cycles :
      (e : DmaEngine)
      → e.state ≡ s_read
      → run e (ready ∷ ready ∷ []) ≡ record e {
        rdbuf = rd e.cur_src;
        cur_src = advance e e.cur_src;
        cur_dst = advance e e.cur_dst;
        remain = decrement e e.remain;
        state = if e.remain == 1 then s_done else s_read;
      }
  unfolding fsm fsm_state fsm_idle fsm_read fsm_write
  two_cycles e h = rw h refl

  run-ready :
      (n : ℕ) (e : DmaEngine)
      → e.state ≡ s_read
      → e.remain ≡ suc n
      → suc n < 2 ^ e.addr_width
      → (run e (ready_cycles (suc n))).state ≡ s_done
  run-ready zero e h r lt = ap (λ x. x.state) (two_cycles e h) ∙ rw r refl
  run-ready (suc n) e h r lt =
      let next = two_cycles e h in
      run-ready n (run e (ready ∷ ready ∷ [])) (ap (λ x. x.state) next ∙ rw (r, not-one n) refl)
        (ap (λ x. x.remain) next
          ∙ (decrement-eq e e.remain (omega arith) (omega arith) ∙ omega arith))
        (omega (arith, ap (λ x. 2 ^ x.addr_width) next))

  -- Once an idle engine is started with a length of at least one, whatever the two memories answer in
  -- the cycles after it, the words written and the words still due are the words to copy, in order.
  pub transfer-in_order :
      (e : DmaEngine) (s d n : ℕ) (answers : List Answer)
      → e.state ≡ s_idle
      → 1 ≤ n
      → n < 2 ^ e.addr_width
      → writes (started e s d n) answers
          ++ due (run (started e s d n) answers) (run (started e s d n) answers).state
        ≡ copied e.addr_width e.strb_width s d n
  transfer-in_order e s d n answers h pos lt =
      rw (start-reads e s d n h) (run-due _ answers (pos, lt))

  -- With memories that answer at once, an idle engine started with `n` words, one at least, is done
  -- after `2 * n` cycles, and has written the words to copy.
  pub transfer-done :
      (e : DmaEngine) (s d n : ℕ)
      → e.state ≡ s_idle
      → 1 ≤ n
      → n < 2 ^ e.addr_width
      → (done (run (started e s d n) (ready_cycles n)) ≡ true)
        × (writes (started e s d n) (ready_cycles n) ≡ copied e.addr_width e.strb_width s d n)
  unfolding done
  transfer-done e s d zero h pos lt = absurd (omega arith)
  transfer-done e s d (suc n) h pos lt =
      let e' = started e s d (suc n) in
      let out = writes e' (ready_cycles (suc n)) in
      let end = run e' (ready_cycles (suc n)) in
      let begun = start-reads e s d (suc n) h in
      let fin : end.state ≡ s_done =
        run-ready n e' (ap (λ x. x.state) begun) (ap (λ x. x.remain) begun)
          (omega (arith, ap (λ x. 2 ^ x.addr_width) begun)) in
      (
        ap is_done fin,
        sym (append-nil out)
            ∙ (ap (λ q. out ++ due end q) (sym fin)
                ∙ transfer-in_order e s d (suc n) (ready_cycles (suc n)) h pos lt),
      )
