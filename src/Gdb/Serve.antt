-- ===== src/Gdb/Serve.antt =====
-- `_handle` of veripy/gdb_stub.py: the loop over the buffer of a connection.
pub mod Pipeline
use veripy.Base.{
  ℕ, zero, suc, ◌+◌, ◌-◌, Bool, true, false, ◌||◌, List, [], ◌∷◌, ◌++◌, Option, some, none, leb,
  ◌==◌, if◌then◌else◌, length, drop,
}
use veripy.Gdb.Text.{Text, find, find_from, slice_text}
use veripy.Gdb.Packet.{encode, decode}
use veripy.Gdb.Stub.{
  CpuInterface, Answer, reply, no_reply, raises, Machine, s05, e01, run_cpu, dispatch,
}

-- What one turn of the inner loop does: it goes on with the rest of the buffer, waits for more, or
-- an exception ends the connection.
pub data Turn (S : Type 0) : Type 0 where
  goes : Machine S → Text → Text → Turn S
  waits : Text → Turn S
  fails : Machine S → Text → Turn S

pub record Served (S : Type 0) : Type 0 where
  pub machine : Machine S
  pub sent : Text
  pub buf : Text
  pub failed : Bool

module _ {S : Type 0} (cpu : CpuInterface S) (w : ℕ) where
  -- `+`, and the reply as a packet.
  abbrev pub answer : Text → Machine S × Answer → Turn S
  answer rest (m, reply t) = goes m (43 ∷ encode t) rest
  answer rest (m, no_reply) = goes m (43 ∷ []) rest
  answer rest (m, raises) = fails m (43 ∷ [])

  abbrev pub packet_turn : Machine S → Text → Option Text → Turn S
  unfolding dispatch
  packet_turn m rest none = goes m (43 ∷ encode e01) rest
  packet_turn m rest (some payload) = answer rest (dispatch cpu w m payload)

  abbrev end_turn : Machine S → Text → ℕ → Option ℕ → Turn S
  unfolding decode dispatch
  end_turn m buf start none = waits buf
  end_turn m buf start (some end_) =
      if leb (length buf) (end_ + 2)
      then waits buf
      else packet_turn m (drop (end_ + 3) buf) (decode (slice_text buf start (end_ + 3)))

  abbrev start_turn : Machine S → Text → Option ℕ → Turn S
  unfolding decode dispatch
  start_turn m buf none = waits []
  start_turn m buf (some start) = end_turn m buf start (find_from 35 (start + 1) buf)

  -- Acknowledgements are skipped, and 3 interrupts the processor.
  unfoldable pub turn : Machine S → Text → Turn S
  unfolding decode dispatch
  turn m [] = waits []
  turn m (c ∷ cs) =
      if (c == 43) || (c == 45)
      then goes m [] cs
      else (if c == 3
          then goes (run_cpu cpu w m cpu.stop) (43 ∷ encode s05) cs
          else start_turn m (c ∷ cs) (find 36 (c ∷ cs)))

  abbrev pub after_turn : (Machine S → Text → Served S) → Machine S → Turn S → Served S
  after_turn go m (goes m' out rest) = let r = go m' rest in record r { sent = out ++ r.sent }
  after_turn go m (waits rest) = record { machine = m; sent = []; buf = rest; failed = false }
  after_turn go m (fails m' out) = record { machine = m'; sent = out; buf = []; failed = true }

  -- The inner loop. A turn that goes on takes a character at least.
  unfoldable pub serve : ℕ → Machine S → Text → Served S
  unfolding turn
  serve zero m buf = record { machine = m; sent = []; buf = buf; failed = false }
  serve (suc fuel) m buf = after_turn (serve fuel) m (turn m buf)

  -- The chunks that a connection receives, until an exception or its end.
  unfoldable pub handle : Machine S → Text → List Text → Served S
  unfolding serve
  handle m buf [] = record { machine = m; sent = []; buf = buf; failed = false }
  handle m buf (chunk ∷ chunks) =
      let r = serve (length (buf ++ chunk)) m (buf ++ chunk) in
      let rest = handle r.machine r.buf chunks in
      if r.failed then r else record rest { sent = r.sent ++ rest.sent }
