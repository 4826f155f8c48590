-- ===== src/Cdc/AsyncFifo/Tests.antt =====
-- A queue of two words, in which the reader waits for the pointer of the writer to arrive.
use veripy.Base.{◌+◌, ◌≤◌, ◌≡◌, refl, true, false, List, [], ◌∷◌}
use veripy.Base.Bits.{bit_length}
use veripy.Cdc.Gray.{gray}
use veripy.Cdc.AsyncFifo.{init, Edge, write_edge, read_edge, step}
use veripy.Cdc.AsyncFifo.Run.{all_in, all_out, run-holds}

abbrev edges : List Edge
edges =
    write_edge false true 7
    ∷ write_edge false true 8
    ∷ write_edge false true 9
    ∷ read_edge false true
    ∷ read_edge false true
    ∷ read_edge false true
    ∷ []

taken_in : all_in (init 8 2) edges ≡ 2
unfolding all_in init step bit_length gray
taken_in = refl

taken_out : all_out (init 8 2) edges ≡ 1
unfolding all_out init step bit_length gray
taken_out = refl

run-holds_example :
    (all_out (init 8 2) edges ≤ all_in (init 8 2) edges)
    × (all_in (init 8 2) edges ≤ all_out (init 8 2) edges + 2)
run-holds_example = run-holds 0 8 edges (refl, (refl, (refl, (refl, (refl, (refl, tt))))))
