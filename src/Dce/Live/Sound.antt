-- ===== src/Dce/Live/Sound.antt =====
-- Dropping the blocks that are not live keeps every live name.
use veripy.Base.{
  ◌≡◌, refl, ap, ◌∙◌, String, true, false, List, [], ◌∷◌, map, some, >>=-eq-some, of_some,
  Bool-cases, inl, inr, contains, meets, same, same→eq, arith, if◌then◌else◌, All,
}
use veripy.Ir.{CombBlock, IrModule}
use veripy.Ir.Value.{Target}
use veripy.Ir.Meaning.{Machine, exec_all, run_comb}
use veripy.Ir.Frame.{exec_all-SameAt}
use veripy.Dce.Live.{
  Entry, block_writes, unmarked, kept_blocks, all_marked, live_names, live_entries,
  dead_code_eliminate, with_blocks, prune, needed_names,
}
use veripy.Dce.Live.Sweep.{MarkedOk, UnmarkedOk, live_entries-Closed, live_entries_total}
use veripy.Dce.Live.Simulate.{SameOn, Simulates, exec_all-Simulates}

meets-false :
    (ws live : List String) (k : String)
    → meets ws live ≡ false
    → contains live k ≡ true
    → contains ws k ≡ false
meets-false [] live k h c = refl
meets-false (x ∷ ws) live k h c = elim (Bool-cases (same x k)) [
  | inl e ↦ absurd (ground (arith, ap (contains live) (same→eq x k e)))
  | inr e ↦ ground (arith, meets-false ws live k)
]

module _ (t : Target) (live : List String) where
  skip-SameOn :
      (e : Entry) (m n m1 : Machine)
      → meets (block_writes e) live ≡ false
      → exec_all t e.block.stmts m ≡ some m1
      → SameOn live m n
      → SameOn live m1 n
  skip-SameOn e m n m1 f r h =
      let at = λ (k : String) (c : contains live k ≡ true).
        exec_all-SameAt t k e.block.stmts m m1 (meets-false (block_writes e) live k f c) r in
      ((λ k c. (at k c).0 ∙ h.0 k c), (λ k c. (at k c).1 ∙ h.1 k c))

  run_comb-kept :
      (es : List Entry) (m n m' : Machine)
      → All (MarkedOk live) es
      → All (UnmarkedOk live) es
      → SameOn live m n
      → run_comb t (map (λ e. e.block) es) m ≡ some m'
      → Simulates live (run_comb t (kept_blocks es) n) m'
  unfolding run_comb
  run_comb-kept [] m n m' a u h r = (n, refl, rw (of_some r) h)
  run_comb-kept (e ∷ es) m n m' a u h r =
      let (m1, p, r1) = >>=-eq-some (exec_all t e.block.stmts m) _ r in
      elim (Bool-cases e.marked) [
        | inl k ↦
            let (n1, q, h1) = exec_all-Simulates t live e.block.stmts m n m1 (a.0 k) h p in
            rw k (rw q (run_comb-kept es m1 n1 m' a.1 u.1 h1 r1))
        | inr k ↦ rw k (run_comb-kept es m1 n m' a.1 u.1 (skip-SameOn e m n m1 (u.0 k) p h) r1)
      ]

map-block-unmarked : (bs : List CombBlock) → map (λ e. e.block) (map unmarked bs) ≡ bs
map-block-unmarked [] = refl
map-block-unmarked (b ∷ bs) = ap (◌∷◌ b) (map-block-unmarked bs)

-- The pass ends on every module.
pub dead_code_eliminate_total :
    (ir : IrModule) → (out : IrModule) × (dead_code_eliminate ir ≡ some out)
unfolding dead_code_eliminate
dead_code_eliminate_total ir =
    let (r, p) = live_entries_total ir in
    let out = with_blocks ir (kept_blocks r.0) in
    ((if all_marked r.0 then ir else prune out (needed_names out)), rw p refl)

-- Dead code elimination keeps the ports and the sequential blocks of a module. If its combinational
-- blocks run, so do those that are left, from the same machine, and both results agree on every
-- output port and on every name that a sequential block reads or is clocked by.
pub dead_code_eliminate_sound :
    (ir out : IrModule) (t : Target) (m m' : Machine)
    → dead_code_eliminate ir ≡ some out
    → run_comb t ir.comb_blocks m ≡ some m'
    → (out.ports ≡ ir.ports)
      × (out.seq_blocks ≡ ir.seq_blocks)
      × Simulates (live_names ir) (run_comb t out.comb_blocks m) m'
unfolding dead_code_eliminate
dead_code_eliminate_sound ir out t m m' h r =
    let (res, p, h1) = >>=-eq-some (live_entries ir) _ h in
    let c = live_entries-Closed ir res.0 res.1 p in
    let blocks : map (λ e. e.block) res.0 ≡ ir.comb_blocks =
      c.blocks ∙ map-block-unmarked ir.comb_blocks in
    let (n, q, s) =
      run_comb-kept t res.1 res.0 m m m' c.marked_ok c.unmarked_ok ((λ k x. refl), (λ k x. refl))
        (rw blocks r) in
    elim (Bool-cases (all_marked res.0)) [
      | inl d ↦ rw (of_some (rw d at h1)) (refl, refl, (m', r, ((λ k x. refl), (λ k x. refl))))
      | inr d ↦
          rw (of_some (rw d at h1))
            (refl, refl, (n, q, ((λ k x. s.0 k (c.grown k x)), (λ k x. s.1 k (c.grown k x)))))
    ]
