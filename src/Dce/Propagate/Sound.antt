-- ===== src/Dce/Propagate/Sound.antt =====
-- Constant propagation keeps what the blocks of a module do.
use veripy.Base.{
  ◌≡◌, refl, ap, ◌∙◌, String, Bool, true, false, List, [], ◌∷◌, Option, some, none, ◌>>=◌,
  >>=-eq-some, of_some, bind_cong, Bool-cases, Option-cases, inl, inr, same_refl, contains, lookup,
  All,
}
use veripy.Base.Int.{ℤ}
use veripy.Ir.{Stmts, scons, snil, assign, const, CombBlock, SeqBlock, IrModule}
use veripy.Ir.Value.{Target, word}
use veripy.Ir.Meaning.{eval, Machine, exec, exec_all, run_comb}
use veripy.Ir.Frame.{exec_all-SameAt}
use veripy.Flatten.Reads.{stmts_writes}
use veripy.Dce.Subst.{ConstMap, subst_stmts, flatten_stmts}
use veripy.Dce.SubstSound.{Agrees}
use veripy.Dce.Shape.{NoGroups, StableStmts, Untouched, Untouched-left, Untouched-right}
use veripy.Dce.StmtSound.{exec_all-subst_stmts}
use veripy.Dce.Propagate.{
  seq_written, const_block, const_map, subst_comb, subst_seq, propagate_with, const_propagate,
}
use veripy.Dce.Propagate.Constants.{OnlyWriter, const_block_inv, const_map-OnlyWriter}

-- Every constant fits the signal that it is assigned to.
abbrev pub Fits : Target → ConstMap → Type 0
Fits t cm = (k : String) (z : ℤ) → lookup k cm ≡ some z → t.truncate k z ≡ z

-- The passes keep every concatenation of the blocks.
abbrev pub StableComb : ConstMap → List CombBlock → Type 0
StableComb cm bs = All (λ b. StableStmts cm b.stmts) bs

abbrev pub FlatComb : List CombBlock → Type 0
FlatComb bs = All (λ b. NoGroups b.stmts) bs

abbrev Constant : ConstMap → CombBlock → Type 0
Constant cm b = (k : String) (z : ℤ) → lookup k cm ≡ some z → OnlyWriter k z b

All-Constant :
    (cm : ConstMap) (bs : List CombBlock)
    → ((k : String) (z : ℤ) → lookup k cm ≡ some z → All (OnlyWriter k z) bs)
    → All (Constant cm) bs
All-Constant cm [] h = tt
All-Constant cm (b ∷ bs) h = ((λ k z l. (h k z l).0), All-Constant cm bs (λ k z l. (h k z l).1))

module _ (cm : ConstMap) (t : Target) (fits : Fits t cm) where
  assign-const_cur :
      (k : String) (z : ℤ) (b : Bool) (m m' : Machine)
      → t.truncate k z ≡ z
      → m.cur k ≡ word z
      → exec_all t (scons (assign k (const z) b) snil) m ≡ some m'
      → m'.cur k ≡ word z
  unfolding exec eval
  assign-const_cur k z true m m' f a r = rw (of_some r, same_refl k, f) refl
  assign-const_cur k z false m m' f a r = rw (of_some r) a

  block-Agrees :
      (b : CombBlock) (m m' : Machine)
      → Constant cm b
      → exec_all t b.stmts m ≡ some m'
      → Agrees cm m.cur
      → Agrees cm m'.cur
  block-Agrees b m m' c r a k z l = elim (Bool-cases (contains (stmts_writes b.stmts) k)) [
    | inl w ↦
        let (bl, e) = const_block_inv b.stmts k z (c k z l w) in
        assign-const_cur k z bl m m' (fits k z l) (a k z l) (rw e at r)
    | inr w ↦ (exec_all-SameAt t k b.stmts m m' w r).0 ∙ a k z l
  ]

  -- A block either is the assignment of a constant, or writes no name of the dictionary.
  block-exec :
      (b : CombBlock) (ss : Stmts) (o : Option (String × ℤ)) (m : Machine)
      → const_block b.stmts ≡ o
      → Constant cm b
      → StableStmts cm b.stmts
      → NoGroups (flatten_stmts ss)
      → Agrees cm m.cur
      → subst_stmts cm b.stmts ≡ some ss
      → exec_all t (flatten_stmts ss) m ≡ exec_all t b.stmts m
  unfolding subst_stmts flatten_stmts
  block-exec b ss none m e c w g a h =
      exec_all-subst_stmts cm t b.stmts ss m w
        (λ k x. elim (Option-cases (lookup k cm)) [
          | inl n ↦ n
          | inr (z, l) ↦ absurd (cc (c k z l x))
        ])
        a g h
  block-exec b ss (some (k, z)) m e c w g a h =
      let (bl, f) = const_block_inv b.stmts k z e in
      rw f (ap (λ x. exec_all t (flatten_stmts x) m) (of_some (rw f at h)))

  run_comb-subst_comb :
      (bs out : List CombBlock) (m : Machine)
      → All (Constant cm) bs
      → StableComb cm bs
      → FlatComb out
      → Agrees cm m.cur
      → subst_comb cm bs ≡ some out
      → run_comb t out m ≡ run_comb t bs m
  unfolding subst_comb run_comb
  run_comb-subst_comb [] out m c w g a h = rw (of_some h) refl
  run_comb-subst_comb (b ∷ bs) out m c w g a h =
      let (ss, p, h1) = >>=-eq-some (subst_stmts cm b.stmts) _ h in
      let (bs', q, h2) = >>=-eq-some (subst_comb cm bs) _ h1 in
      let gs = rw (of_some h2) at g in
      rw (of_some h2) (
        ap (λ o. o >>= run_comb t bs')
          (block-exec b ss (const_block b.stmts) m refl c.0 w.0 gs.0 a p)
        ∙ bind_cong (exec_all t b.stmts m)
            (λ m' r. run_comb-subst_comb bs bs' m' c.1 w.1 gs.1 (block-Agrees b m m' c.0 r a) q))

-- Block by block: the same edges, and the same effect wherever the constants hold.
abbrev pub SameSeq : ConstMap → Target → List SeqBlock → List SeqBlock → Type 0
SameSeq cm t [] [] = Unit
SameSeq cm t (x ∷ xs) (y ∷ ys) =
    (x.edges ≡ y.edges)
    × ((m : Machine) → Agrees cm m.cur → exec_all t x.stmts m ≡ exec_all t y.stmts m)
    × SameSeq cm t xs ys
SameSeq cm t _ _ = ⊥

abbrev pub StableSeq : ConstMap → List SeqBlock → Type 0
StableSeq cm bs = All (λ b. StableStmts cm b.stmts) bs

abbrev pub FlatSeq : List SeqBlock → Type 0
FlatSeq bs = All (λ b. NoGroups b.stmts) bs

subst_seq-SameSeq :
    (cm : ConstMap) (t : Target) (bs out : List SeqBlock)
    → Untouched cm (seq_written bs)
    → StableSeq cm bs
    → FlatSeq out
    → subst_seq cm bs ≡ some out
    → SameSeq cm t out bs
unfolding subst_seq
subst_seq-SameSeq cm t [] out u w g h = rw (of_some h) tt
subst_seq-SameSeq cm t (b ∷ bs) out u w g h =
    let (ss, p, h1) = >>=-eq-some (subst_stmts cm b.stmts) _ h in
    let (bs', q, h2) = >>=-eq-some (subst_seq cm bs) _ h1 in
    let gs = rw (of_some h2) at g in
    let ub = Untouched-left cm (stmts_writes b.stmts) (seq_written bs) u in
    let ur = Untouched-right cm (stmts_writes b.stmts) (seq_written bs) u in
    rw (of_some h2) (
      refl,
      (λ m a. exec_all-subst_stmts cm t b.stmts ss m w.0 ub a gs.0 p),
      subst_seq-SameSeq cm t bs bs' ur w.1 gs.1 q,
    )

SameSeq-refl : (cm : ConstMap) (t : Target) (bs : List SeqBlock) → SameSeq cm t bs bs
SameSeq-refl cm t [] = tt
SameSeq-refl cm t (b ∷ bs) = (refl, (λ m a. refl), SameSeq-refl cm t bs)

const_map-Untouched : (ir : IrModule) → Untouched (const_map ir) (seq_written ir.seq_blocks)
const_map-Untouched ir k c = elim (Option-cases (lookup k (const_map ir))) [
  | inl n ↦ n
  | inr (z, l) ↦ absurd (cc ((const_map-OnlyWriter ir k z l).1))
]

-- With a dictionary whose names are safe, both halves of the pass keep the behaviour.
propagate_with_sound :
    (ir out : IrModule) (cm : ConstMap) (t : Target)
    → ((k : String) (z : ℤ) → lookup k cm ≡ some z → All (OnlyWriter k z) ir.comb_blocks)
    → Untouched cm (seq_written ir.seq_blocks)
    → Fits t cm
    → StableComb cm ir.comb_blocks
    → StableSeq cm ir.seq_blocks
    → FlatComb out.comb_blocks
    → FlatSeq out.seq_blocks
    → propagate_with ir cm ≡ some out
    → ((m : Machine) → Agrees cm m.cur → run_comb t out.comb_blocks m ≡ run_comb t ir.comb_blocks m)
      × SameSeq cm t out.seq_blocks ir.seq_blocks
propagate_with_sound ir out [] t c u f wc ws gc gs h =
    rw (of_some h) ((λ m a. refl), SameSeq-refl [] t ir.seq_blocks)
propagate_with_sound ir out (e ∷ es) t c u f wc ws gc gs h =
    let cm : ConstMap = e ∷ es in
    let (bs, p, h1) = >>=-eq-some (subst_comb cm ir.comb_blocks) _ h in
    let (ss, q, h2) = >>=-eq-some (subst_seq cm ir.seq_blocks) _ h1 in
    let gc' = rw (of_some h2) at gc in
    let gs' = rw (of_some h2) at gs in
    rw (of_some h2) (
      (λ m a.
          run_comb-subst_comb cm t f ir.comb_blocks bs m (All-Constant cm ir.comb_blocks c) wc gc' a
            p),
      subst_seq-SameSeq cm t ir.seq_blocks ss u ws gs' q,
    )

-- Constant propagation keeps the behaviour of a module. Let its constants fit their signals, let
-- the pass leave every concatenation alone and leave no list in place of a statement within
-- another statement. Then, from every machine in which the signals of the dictionary hold their
-- constants, the combinational blocks before and after the pass give the same result, and each
-- sequential block keeps its edges and its effect.
pub const_propagate_sound :
    (ir out : IrModule) (t : Target)
    → Fits t (const_map ir)
    → StableComb (const_map ir) ir.comb_blocks
    → StableSeq (const_map ir) ir.seq_blocks
    → FlatComb out.comb_blocks
    → FlatSeq out.seq_blocks
    → const_propagate ir ≡ some out
    → ((m : Machine)
        → Agrees (const_map ir) m.cur
        → run_comb t out.comb_blocks m ≡ run_comb t ir.comb_blocks m)
      × SameSeq (const_map ir) t out.seq_blocks ir.seq_blocks
unfolding const_propagate
const_propagate_sound ir out t f wc ws gc gs h =
    propagate_with_sound ir out (const_map ir) t (λ k z l. (const_map-OnlyWriter ir k z l).0)
      (const_map-Untouched ir) f wc ws gc gs h
