-- ===== src/Flatten/Merge/Writes.antt =====
-- What a merged module is: without instances, with the ports of its parent, without registers that
-- only combinational blocks write; and what an instance adds to the names that are written.
use mathlib.Core.List.{map-append, append_assoc}
use veripy.Base.{
  ℕ, zero, suc, ◌≡◌, refl, sym, ap, ap₂, ◌∙◌, String, Bool, true, false, ◌&&◌, ◌||◌, not, List, [],
  ◌∷◌, ◌++◌, map, Option, some, >>=-eq-some, of_some, lookup, contains, arith, Bool-cases, inl, inr,
  same, same→eq, subst, contains-append,
}
use veripy.Base.Int.{ℤ}
use veripy.Ir.{CombBlock, SeqBlock, RegDecl, WireDecl, Instance, IrModule}
use veripy.Flatten.Reads.{stmts_writes}
use veripy.Flatten.Rename.{Renaming, rn}
use veripy.Flatten.Rename.Names.{stmts_writes-rename_stmts}
use veripy.Flatten.Inline.{
  Params, numbers, rename_map, inline, rename_comb, rename_seq, reg_names, wire_names,
}
use veripy.Flatten.Merge.{
  Registry, params_or, merged_child, add_instance, add_instances, plain_port, resolve, seq_writes,
  comb_writes, comb_only, kept_regs, new_wires, reclassify, flatten_ir,
}

seq_writes-append : (xs ys : List SeqBlock) → seq_writes (xs ++ ys) ≡ seq_writes xs ++ seq_writes ys
seq_writes-append [] ys = refl
seq_writes-append (b ∷ xs) ys =
    ap (λ z. stmts_writes b.stmts ++ z) (seq_writes-append xs ys)
    ∙ sym (append_assoc (stmts_writes b.stmts) (seq_writes xs) (seq_writes ys))

comb_writes-append :
    (xs ys : List CombBlock) → comb_writes (xs ++ ys) ≡ comb_writes xs ++ comb_writes ys
comb_writes-append [] ys = refl
comb_writes-append (b ∷ xs) ys =
    ap (λ z. stmts_writes b.stmts ++ z) (comb_writes-append xs ys)
    ∙ sym (append_assoc (stmts_writes b.stmts) (comb_writes xs) (comb_writes ys))

module _ (rename : Renaming) (σ : List (String × ℤ)) where
  seq_writes-rename :
      (bs : List SeqBlock)
      → seq_writes (map (rename_seq rename σ) bs) ≡ map (rn rename) (seq_writes bs)
  seq_writes-rename [] = refl
  seq_writes-rename (b ∷ bs) =
      ap₂ ◌++◌ (stmts_writes-rename_stmts rename σ b.stmts) (seq_writes-rename bs)
      ∙ sym (map-append (rn rename) (stmts_writes b.stmts) (seq_writes bs))

  comb_writes-rename :
      (bs : List CombBlock)
      → comb_writes (map (rename_comb rename σ) bs) ≡ map (rn rename) (comb_writes bs)
  comb_writes-rename [] = refl
  comb_writes-rename (b ∷ bs) =
      ap₂ ◌++◌ (stmts_writes-rename_stmts rename σ b.stmts) (comb_writes-rename bs)
      ∙ sym (map-append (rn rename) (stmts_writes b.stmts) (comb_writes bs))

-- An instance adds to the names that are written, in clocked and in combinational blocks, those of
-- the child, each by its name in the parent.
pub inline-writes :
    (inst : Instance) (ps : Params) (child out : IrModule)
    → (seq_writes (inline inst ps child out).seq_blocks
        ≡ seq_writes out.seq_blocks
          ++ map (rn (rename_map inst child)) (seq_writes child.seq_blocks))
      × (comb_writes (inline inst ps child out).comb_blocks
          ≡ comb_writes out.comb_blocks
            ++ map (rn (rename_map inst child)) (comb_writes child.comb_blocks))
inline-writes inst ps child out = (
  seq_writes-append out.seq_blocks _
      ∙ ap (λ z. seq_writes out.seq_blocks ++ z)
          (seq_writes-rename (rename_map inst child) (numbers ps) child.seq_blocks),
  comb_writes-append out.comb_blocks _
      ∙ ap (λ z. comb_writes out.comb_blocks ++ z)
          (comb_writes-rename (rename_map inst child) (numbers ps) child.comb_blocks),
)

-- The registers that stay, and the wires that are made.
contains-kept_regs :
    (moved : String → Bool) (rs : List RegDecl) (x : String)
    → contains (reg_names (kept_regs moved rs)) x ≡ contains (reg_names rs) x && not (moved x)
contains-kept_regs moved [] x = refl
contains-kept_regs moved (r ∷ rs) x = elim (Bool-cases (same r.name x)) [
  | inl e ↦
      let e' = ap moved (same→eq r.name x e) in
      let ih = contains-kept_regs moved rs x in ground arith
  | inr e ↦ let ih = contains-kept_regs moved rs x in ground arith
]

contains-new_wires :
    (moved : String → Bool) (rs : List RegDecl) (x : String)
    → contains (wire_names (new_wires moved rs)) x ≡ contains (reg_names rs) x && moved x
contains-new_wires moved [] x = refl
contains-new_wires moved (r ∷ rs) x = elim (Bool-cases (same r.name x)) [
  | inl e ↦
      let e' = ap moved (same→eq r.name x e) in
      let ih = contains-new_wires moved rs x in ground arith
  | inr e ↦ let ih = contains-new_wires moved rs x in ground arith
]

-- A name is a register afterwards where it was one that not only combinational blocks write, and a
-- wire where it was a wire or any other register.
pub reclassify_lem :
    (out : IrModule) (x : String)
    → (contains (reg_names (reclassify out).regs) x
        ≡ contains (reg_names out.regs) x && not (comb_only out x))
      × (contains (wire_names (reclassify out).wires) x
          ≡ contains (wire_names out.wires) x
            || (contains (reg_names out.regs) x && comb_only out x))
unfolding reclassify
reclassify_lem out x = (
  contains-kept_regs (comb_only out) out.regs x,
  ap (λ z. contains z x)
        (map-append (λ (w : WireDecl). w.name) out.wires (new_wires (comb_only out) out.regs))
      ∙ (contains-append (wire_names out.wires) (wire_names (new_wires (comb_only out) out.regs)) x
          ∙ ap (λ b. contains (wire_names out.wires) x || b)
              (contains-new_wires (comb_only out) out.regs x)),
)

-- A turn of the loop keeps the ports, and adds no instance.
Kept : IrModule → IrModule → Type 0
Kept a b = (b.ports ≡ a.ports) × (b.instances ≡ a.instances)

module _ (flat : IrModule → Params → Option IrModule) (registry : Registry) (params : Params) where
  add_instance-Kept :
      (inst : Instance) (a b : IrModule)
      → add_instance flat registry params inst a ≡ some b
      → Kept a b
  unfolding Kept
  add_instance-Kept inst a b h =
      let (child, _, h1) = >>=-eq-some (lookup inst.mod_type registry) _ h in
      let (merged, _, h2) = >>=-eq-some (merged_child flat _ child child.instances) _ h1 in
      (ap (λ m. m.ports) (of_some h2), ap (λ m. m.instances) (of_some h2))

  add_instances-Kept :
      (insts : List Instance) (a b : IrModule)
      → add_instances flat registry params insts a ≡ some b
      → Kept a b
  unfolding Kept
  add_instances-Kept [] a b h = (ap (λ m. m.ports) (of_some h), ap (λ m. m.instances) (of_some h))
  add_instances-Kept (i ∷ is) a b h =
      let (next, h1, h2) = >>=-eq-some (add_instance flat registry params i a) _ h in
      let first = add_instance-Kept i a next h1 in
      let rest = add_instances-Kept is next b h2 in (rest.0 ∙ first.0, rest.1 ∙ first.1)

-- A module that flatten_ir gives has no instances, the ports of its parent, none of them a
-- register, and no register that combinational blocks write and clocked blocks do not.
pub flatten_ir-parts :
    (fuel : ℕ) (registry : Registry) (parent : IrModule) (params : Params) (out : IrModule)
    → flatten_ir fuel registry parent params ≡ some out
    → (out.instances ≡ [])
      × (out.ports ≡ map plain_port parent.ports)
      × ((x : String) → contains (reg_names out.regs) x ≡ true → comb_only out x ≡ false)
unfolding flatten_ir resolve reclassify Kept
flatten_ir-parts zero registry parent params out h = cc
flatten_ir-parts (suc fuel) registry parent params out h =
    let ps = params_or params parent.params in
    let (merged, h1, h2) =
      >>=-eq-some
        (add_instances (flatten_ir fuel registry) registry ps parent.instances
          (record parent { instances = [] }))
        _ h in
    let kept =
      add_instances-Kept (flatten_ir fuel registry) registry ps parent.instances
        (record parent { instances = [] }) merged h1 in
    let same_out = of_some h2 in
    (
      ap (λ m. m.instances) same_out ∙ kept.1,
      ap (λ m. m.ports) same_out ∙ ap (map plain_port) kept.0,
      subst (λ m. (x : String) → contains (reg_names m.regs) x ≡ true → comb_only m x ≡ false)
          (sym same_out)
          (λ x c.
            ground (arith, contains-kept_regs (comb_only (resolve ps merged)) merged.regs x, c)),
    )
