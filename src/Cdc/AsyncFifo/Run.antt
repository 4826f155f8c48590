-- ===== src/Cdc/AsyncFifo/Run.antt =====
-- Any run of the two clocks.
use native.Mathlib.Nat.{mod-eq_of_lt}
use veripy.Base.{
  ℕ, suc, ◌+◌, ◌%◌, ◌^◌, ◌≤◌, ◌≡◌, refl, sym, ap, subst, Bool, true, false, ◌&&◌, not, List, [],
  ◌∷◌, if◌then◌else◌, Bool-cases, inl, inr, All, arith,
}
use veripy.Base.Bits.{pow_pos}
use veripy.Cdc.Gray.{gray}
use veripy.Cdc.AsyncFifo.{
  AsyncFifo, init, full, empty, sync_write, push, sync_read, pop, pushes, pops, write_logic,
  read_logic, Edge, write_edge, read_edge, step,
}
use veripy.Cdc.AsyncFifo.Pointers.{
  IsQueue, sync_write-IsQueue, sync_read-IsQueue, push-IsQueue, pop-IsQueue,
}

-- An edge without a reset.
abbrev pub IsRunning : Edge → Type 0
IsRunning (write_edge wrst wen wdata) = wrst ≡ false
IsRunning (read_edge rrst ren) = rrst ≡ false

abbrev one_if : Bool → ℕ
one_if b = if b then 1 else 0

-- The words that an edge takes in, and those that it takes out.
abbrev pub words_in : AsyncFifo → Edge → ℕ
words_in f (write_edge wrst wen wdata) = one_if (pushes f wen)
words_in f (read_edge rrst ren) = 0

abbrev pub words_out : AsyncFifo → Edge → ℕ
words_out f (write_edge wrst wen wdata) = 0
words_out f (read_edge rrst ren) = one_if (pops f ren)

right_not : (a b : Bool) → a && not b ≡ true → b ≡ false
right_not true true h = cc
right_not true false h = refl
right_not false b h = cc

module _ (k : ℕ) where
  recount : {a b a' b' : ℕ} (f : AsyncFifo) → a ≡ a' → b ≡ b' → IsQueue k a b f → IsQueue k a' b' f
  recount {b = b} {a' = a'} f p q h =
      subst (λ y. IsQueue k a' y f) q (subst (λ x. IsQueue k x b f) p h)

  step-IsQueue :
      (written taken : ℕ) (f : AsyncFifo) (e : Edge)
      → IsQueue k written taken f
      → IsRunning e
      → IsQueue k (written + words_in f e) (taken + words_out f e) (step f e)
  unfolding step write_logic read_logic
  step-IsQueue written taken f (write_edge wrst wen wdata) q h =
      rw h (elim (Bool-cases (pushes f wen)) [
        | inl e ↦ rw e (
            recount (push (sync_write f) wdata) refl (omega arith)
              (push-IsQueue k written taken wdata f q (right_not wen (full f) e)))
        | inr e ↦ rw e (
            recount (sync_write f) (omega arith) (omega arith)
              (sync_write-IsQueue k written taken f q))
      ])
  step-IsQueue written taken f (read_edge rrst ren) q h = rw h (elim (Bool-cases (pops f ren)) [
    | inl e ↦ rw e (
        recount (pop (sync_read f)) (omega arith) refl
          (pop-IsQueue k written taken f q (right_not ren (empty f) e)))
    | inr e ↦
        rw e (
          recount (sync_read f) (omega arith) (omega arith) (sync_read-IsQueue k written taken f q))
  ])

-- The run of a list of edges, and the words that it takes in and out.
unfoldable pub run : AsyncFifo → List Edge → AsyncFifo
unfolding step
run f [] = f
run f (e ∷ es) = run (step f e) es

unfoldable pub all_in : AsyncFifo → List Edge → ℕ
unfolding step
all_in f [] = 0
all_in f (e ∷ es) = words_in f e + all_in (step f e) es

unfoldable pub all_out : AsyncFifo → List Edge → ℕ
unfolding step
all_out f [] = 0
all_out f (e ∷ es) = words_out f e + all_out (step f e) es

module _ (k : ℕ) where
  run-IsQueue :
      (written taken : ℕ) (f : AsyncFifo) (es : List Edge)
      → IsQueue k written taken f
      → All IsRunning es
      → IsQueue k (written + all_in f es) (taken + all_out f es) (run f es)
  unfolding run all_in all_out
  run-IsQueue written taken f [] q h = recount k f (omega arith) (omega arith) q
  run-IsQueue written taken f (e ∷ es) q h =
      recount k (run (step f e) es) (omega arith) (omega arith) (
        run-IsQueue (written + words_in f e) (taken + words_out f e) (step f e) es
          (step-IsQueue k written taken f e q h.0) h.1)

  init-IsQueue : (width : ℕ) → IsQueue k 0 0 (init width (2 ^ suc k))
  unfolding init gray
  init-IsQueue width =
      let zero_mod : 0 % 2 ^ suc (suc k) ≡ 0 = mod-eq_of_lt (pow_pos (suc (suc k))) in
      let zero_gray = sym (ap gray zero_mod) in
      record {
        depth = refl;
        wptr = sym zero_mod;
        rptr = sym zero_mod;
        wgray = zero_gray;
        rgray = zero_gray;
        w1 = 0;
        w2 = 0;
        r1 = 0;
        r2 = 0;
        wgray_s1 = zero_gray;
        wgray_s2 = zero_gray;
        rgray_s1 = zero_gray;
        rgray_s2 = zero_gray;
        order = (omega arith, omega arith, omega arith, omega arith, omega arith, omega arith);
      }

  -- Whatever the order of the edges of the two clocks, without a reset: from its initial state, a
  -- queue whose depth is a power of two, two at least, has taken out no more words than it has taken
  -- in, and holds its depth at most.
  pub run-holds :
      (width : ℕ) (es : List Edge)
      → All IsRunning es
      → (all_out (init width (2 ^ suc k)) es ≤ all_in (init width (2 ^ suc k)) es)
        × (all_in (init width (2 ^ suc k)) es ≤ all_out (init width (2 ^ suc k)) es + 2 ^ suc k)
  run-holds width es h =
      let q = run-IsQueue 0 0 (init width (2 ^ suc k)) es (init-IsQueue width) h in
      (omega (arith, q.order), omega (arith, q.order))
