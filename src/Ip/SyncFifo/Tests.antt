-- ===== src/Ip/SyncFifo/Tests.antt =====
-- Witnesses and runs of the queue.
use veripy.Base.{ℕ, ◌≡◌, refl, true, false, [], ◌∷◌, arith}
use veripy.Base.Bits.{bit_length}
use veripy.Ip.SyncFifo.{SyncFifo, Input, init, update, dout}
use veripy.Ip.SyncFifo.Refine.{IsValid, contents, step_queue, update-refines, update-loses_push}
use veripy.Ip.SyncFifo.Outputs.{run}

abbrev two_words : SyncFifo
two_words = record { width = 8; depth = 4; mem = 0 ∷ 7 ∷ 9 ∷ 0 ∷ []; wptr = 3; rptr = 1; cnt = 2 }

two_words-IsValid : IsValid 2 two_words
two_words-IsValid = (refl, refl, omega arith, refl)

abbrev push : ℕ → Input
push x = record { reset = false; push = true; din = x; pop = false }

abbrev pop : Input
pop = record { reset = false; push = false; din = 0; pop = true }

abbrev push_pop : Input
push_pop = record { reset = false; push = true; din = 5; pop = true }

update-refines_example :
    (contents (update two_words (push 300)) ≡ step_queue 4 8 (7 ∷ 9 ∷ []) (push 300))
    × IsValid 2 (update two_words (push 300))
update-refines_example = update-refines 2 two_words (push 300) two_words-IsValid refl

update-loses_push_example : contents (update two_words push_pop) ≡ 9 ∷ []
update-loses_push_example = update-loses_push 2 two_words push_pop two_words-IsValid refl refl refl

-- A depth of three: the second word takes the place of the first.
depth_three : dout (run (init 8 3) (push 1 ∷ push 2 ∷ [])) ≡ 2
unfolding init update dout bit_length
depth_three = refl
