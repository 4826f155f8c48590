-- ===== src/Ip/Dma/Tests.antt =====
-- Witnesses of the engine.
use veripy.Base.{ℕ, ◌+◌, ◌≡◌, ◌++◌, refl, true, false, List, [], ◌∷◌, arith}
use veripy.Ip.Dma.{DmaEngine, s_idle, done, fsm, fsm_state, fsm_idle, fsm_read, fsm_write}
use veripy.Ip.Dma.Transfer.{
  Answer, run, writes, due, started, ready, ready_cycles, transfer-in_order, transfer-done,
}

abbrev idle : DmaEngine
idle = record {
  addr_width = 8;
  strb_width = 4;
  state = s_idle;
  cur_src = 0;
  cur_dst = 0;
  remain = 0;
  rdbuf = 0;
}

abbrev words : ℕ → ℕ
words a = a + 1

abbrev slow : List Answer
slow =
    record { rd_valid = false; wr_ready = true }
    ∷ ready
    ∷ record { rd_valid = true; wr_ready = false }
    ∷ ready
    ∷ []

transfer-in_order_example :
    writes words (started idle 252 16 2) slow
      ++ due words
          (run words (started idle 252 16 2) slow)
          (run words (started idle 252 16 2) slow).state
    ≡ (16, 253) ∷ (20, 1) ∷ []
transfer-in_order_example =
    transfer-in_order words idle 252 16 2 slow refl (omega arith) (omega arith)

transfer-done_example :
    (done (run words (started idle 252 16 2) (ready_cycles 2)) ≡ true)
    × (writes words (started idle 252 16 2) (ready_cycles 2) ≡ (16, 253) ∷ (20, 1) ∷ [])
transfer-done_example = transfer-done words idle 252 16 2 refl (omega arith) (omega arith)

-- A length of zero is not the empty transfer: after the first word all but one of the addresses' number remain.
length_zero :
    (run words (started (record idle { addr_width = 2 }) 0 0 0) (ready ∷ ready ∷ [])).remain ≡ 3
unfolding fsm fsm_state fsm_idle fsm_read fsm_write
length_zero = refl
