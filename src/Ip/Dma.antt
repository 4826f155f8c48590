-- ===== src/Ip/Dma.antt =====
-- `DmaEngine`: reads a word, writes it, and goes on until its length is used up.
pub mod Transfer
mod Tests
use veripy.Base.{
  ℕ, zero, suc, ◌+◌, ◌-◌, ◌%◌, ◌^◌, ◌<◌, ◌≤◌, ◌≡◌, refl, sym, ap, ◌∙◌, Bool, true, false,
  Bool-cases, inl, inr, List, [], ◌∷◌, ◌++◌, ◌==◌, ==_iff, if◌then◌else◌, arith,
}

pub data State : Type 0 where
  s_idle s_read s_write s_done : State

pub record DmaEngine : Type 0 where
  pub addr_width : ℕ
  pub strb_width : ℕ
  pub state : State
  pub cur_src : ℕ
  pub cur_dst : ℕ
  pub remain : ℕ
  pub rdbuf : ℕ

pub record Input : Type 0 where
  pub reset : Bool
  pub start : Bool
  pub src_addr : ℕ
  pub dst_addr : ℕ
  pub length : ℕ
  pub rd_data : ℕ
  pub rd_valid : Bool
  pub wr_ready : Bool

-- The next address, in the register's width.
abbrev pub advance : DmaEngine → ℕ → ℕ
advance e a = (a + e.strb_width) % 2 ^ e.addr_width

-- `self.remain - 1` in the register's width: 0 goes round.
abbrev pub decrement : DmaEngine → ℕ → ℕ
decrement e n = (n + (2 ^ e.addr_width - 1)) % 2 ^ e.addr_width

fsm_idle : DmaEngine → Input → DmaEngine
fsm_idle e i =
    if i.start
    then record e { cur_src = i.src_addr; cur_dst = i.dst_addr; remain = i.length; state = s_read }
    else e

fsm_read : DmaEngine → Input → DmaEngine
fsm_read e i = if i.rd_valid then record e { rdbuf = i.rd_data; state = s_write } else e

fsm_write : DmaEngine → Input → DmaEngine
fsm_write e i =
    if i.wr_ready
    then record e {
      cur_src = advance e e.cur_src;
      cur_dst = advance e e.cur_dst;
      remain = decrement e e.remain;
      state = if e.remain == 1 then s_done else s_read;
    }
    else e

fsm_state : State → DmaEngine → Input → DmaEngine
unfolding fsm_idle fsm_read fsm_write
fsm_state s_idle e i = fsm_idle e i
fsm_state s_read e i = fsm_read e i
fsm_state s_write e i = fsm_write e i
fsm_state s_done e i = record e { state = s_idle }

pub fsm : DmaEngine → Input → DmaEngine
unfolding fsm_state
fsm e i = if i.reset then record e { state = s_idle; remain = 0 } else fsm_state e.state e i

abbrev pub is_write : State → Bool
is_write s_idle = false
is_write s_read = false
is_write s_write = true
is_write s_done = false

abbrev pub is_done : State → Bool
is_done s_idle = false
is_done s_read = false
is_done s_write = false
is_done s_done = true

-- `wr_en` and `done`.
pub wr_en : DmaEngine → Bool
wr_en e = is_write e.state

pub done : DmaEngine → Bool
done e = is_done e.state
