-- ===== src/Dce/Propagate/Constants.antt =====
-- What it means for a name to be in the dictionary of constants: every block that writes the name
-- is the assignment of its constant.
use veripy.Base.{
  ◌≡◌, refl, sym, ◌∙◌, String, Bool, true, false, List, [], ◌∷◌, Option, some, none, arith,
  Bool-cases, inl, inr, same, same→eq, contains, lookup, lookup-insert, lookup-filter_keys_inv, All,
  of_some,
}
use veripy.Base.Int.{ℤ}
use veripy.Ir.{Stmts, scons, snil, assign, const, CombBlock, IrModule}
use veripy.Flatten.Reads.{stmt_writes, stmts_writes}
use veripy.Dce.Subst.{ConstMap}
use veripy.Dce.Propagate.{
  seq_written, const_block, note_const, collect, writer_count, is_safe, const_map,
}

pub const_block_inv :
    (ss : Stmts) (k : String) (z : ℤ)
    → const_block ss ≡ some (k, z)
    → (b : Bool) × (ss ≡ scons (assign k (const z) b) snil)
const_block_inv (scons (assign j (const v) b) snil) k z h = (b, cc)
const_block_inv _ k z h = absurd (cc)

const_block-writes :
    (ss : Stmts) (j : String) (v : ℤ) (k : String)
    → const_block ss ≡ some (j, v)
    → contains (stmts_writes ss) k ≡ same j k
unfolding stmt_writes
const_block-writes ss j v k h = let (b, e) = const_block_inv ss j v h in rw e (ground arith)

lookup-collect_none :
    (bs : List CombBlock) (d : ConstMap) (k : String)
    → writer_count bs k ≡ 0
    → lookup k (collect bs d) ≡ lookup k d
unfolding collect writer_count
lookup-collect_none [] d k h = refl
lookup-collect_none (b ∷ bs) d k h = elim (Bool-cases (contains (stmts_writes b.stmts) k)) [
  | inl c ↦ absurd (ground arith)
  | inr c ↦
      lookup-collect_none bs (note_const (const_block b.stmts) d) k (ground arith)
      ∙ go (const_block b.stmts) refl
]
  where
    go :
        (o : Option (String × ℤ)) → const_block b.stmts ≡ o → lookup k (note_const o d) ≡ lookup k d
    go none e = refl
    go (some (j, v)) e = lookup-insert j k v d ∙ ground (arith, const_block-writes b.stmts j v k e)

-- Every block that writes `k` is the assignment of `z` to it.
abbrev pub OnlyWriter : String → ℤ → CombBlock → Type 0
OnlyWriter k z b = contains (stmts_writes b.stmts) k ≡ true → const_block b.stmts ≡ some (k, z)

OnlyWriter-of_none :
    (bs : List CombBlock) (k : String) (z : ℤ) → writer_count bs k ≡ 0 → All (OnlyWriter k z) bs
unfolding writer_count
OnlyWriter-of_none [] k z h = tt
OnlyWriter-of_none (b ∷ bs) k z h = elim (Bool-cases (contains (stmts_writes b.stmts) k)) [
  | inl c ↦ absurd (ground arith)
  | inr c ↦ ((λ d. absurd (cc)), OnlyWriter-of_none bs k z (ground arith))
]

-- The block that is the only writer of a collected constant, at the head of the list.
head-OnlyWriter :
    (ss : Stmts) (d rest : ConstMap) (o : Option (String × ℤ)) (k : String) (z : ℤ)
    → const_block ss ≡ o
    → lookup k d ≡ none
    → contains (stmts_writes ss) k ≡ true
    → lookup k (note_const o d) ≡ some z
    → const_block ss ≡ some (k, z)
head-OnlyWriter ss d rest none k z e n c h = absurd (cc)
head-OnlyWriter ss d rest (some (j, v)) k z e n c h =
    let s : same j k ≡ true = sym (const_block-writes ss j v k e) ∙ c in
    let p = same→eq j k s in
    let q : some v ≡ some z = sym (lookup-insert j k v d ∙ rw s refl) ∙ h in cc (of_some q)

tail-absent :
    (ss : Stmts) (d : ConstMap) (o : Option (String × ℤ)) (k : String)
    → const_block ss ≡ o
    → lookup k d ≡ none
    → contains (stmts_writes ss) k ≡ false
    → lookup k (note_const o d) ≡ none
tail-absent ss d none k e n c = n
tail-absent ss d (some (j, v)) k e n c =
    let s : same j k ≡ false = sym (const_block-writes ss j v k e) ∙ c in
    lookup-insert j k v d ∙ rw s n

collect-OnlyWriter :
    (bs : List CombBlock) (d : ConstMap) (k : String) (z : ℤ)
    → lookup k d ≡ none
    → writer_count bs k ≡ 1
    → lookup k (collect bs d) ≡ some z
    → All (OnlyWriter k z) bs
unfolding collect writer_count
collect-OnlyWriter [] d k z n w h = tt
collect-OnlyWriter (b ∷ bs) d k z n w h = elim (Bool-cases (contains (stmts_writes b.stmts) k)) [
  | inl c ↦
      let d' = note_const (const_block b.stmts) d in
      let w0 : writer_count bs k ≡ 0 = ground arith in
      (
        (λ _.
            head-OnlyWriter b.stmts d [] (const_block b.stmts) k z refl n c
              (sym (lookup-collect_none bs d' k w0) ∙ h)),
        OnlyWriter-of_none bs k z w0,
      )
  | inr c ↦
      let d' = note_const (const_block b.stmts) d in
      (
        (λ t. absurd (cc)),
        collect-OnlyWriter bs d' k z (tail-absent b.stmts d (const_block b.stmts) k refl n c)
            (ground arith) h,
      )
]

-- A name in the dictionary of the pass has one writer, which assigns the constant, and no
-- sequential block writes it.
pub const_map-OnlyWriter :
    (ir : IrModule) (k : String) (z : ℤ)
    → lookup k (const_map ir) ≡ some z
    → All (OnlyWriter k z) ir.comb_blocks × (contains (seq_written ir.seq_blocks) k ≡ false)
unfolding const_map is_safe
const_map-OnlyWriter ir k z h =
    let bs = ir.comb_blocks in
    let (s, e) = lookup-filter_keys_inv (is_safe ir) k (collect bs []) h in
    (collect-OnlyWriter bs [] k z refl (ground arith) e, ground arith)
